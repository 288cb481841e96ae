-- ===== src/Host/Register.antt =====
-- host/register.go: Register, RegisterLazy and the retry of plugins that wait for their
-- dependencies. Register and retryPending call each other; `retry` counts the rounds left.
pub mod Waiting
pub mod Lazy
pub mod Closure
pub mod Keys
pub mod Results
pub mod Orphans
use egop.Prelude.{
  Text, codes, text_eq, is_empty, lookup, insert, delete, has, length, Map, ℕ, zero, suc, ◌+◌, map,
  Bool, true, false, if◌then◌else◌, List, [], ◌∷◌, ◌++◌, Option, none, some,
}
use egop.Contract.Meta.{Meta, FuncSpec, point_id, event_id}
use egop.Contract.Event.{event_plugin_registered}
use egop.Undo.{fresh}
use egop.Host.State.{Options, Plugin, Reply, FnEntry, HostError, Effect, Host, emit}
use egop.Host.State
use egop.Host.Check.{init_deps_satisfied, validate_contract}
use egop.Host.Hooks.{rebuild_hook_decls}

unfoldable pub fn_key : Text → Text → Text
fn_key id name = id ++ (codes "." ++ name)

-- The loop that enters the functions of a FunctionProvider; the entries made before a conflict stay.
unfoldable pub add_functions :
    Text → (Text → Text → Reply) → List FuncSpec → Map FnEntry → Map FnEntry × Option HostError
add_functions id call [] fns = (fns, none)
add_functions id call (f ∷ fs) fns =
    if has (fn_key id f.name) fns
    then (fns, some (State.function_conflict id f.name))
    else add_functions id call fs
        (insert (fn_key id f.name) (record { plugin_id = id; spec = f; provider = call }) fns)

unfoldable pub register_functions : Plugin → Meta → Map FnEntry → Map FnEntry × Option HostError
register_functions p m fns = elim p.call_func [
  | none ↦ (fns, none)
  | some call ↦ add_functions m.id call m.provides.functions fns
]

-- The points and topics that a declared surface ensures.
unfoldable pub surface_effects : Meta → List Effect
surface_effects m =
    map (λ hp. State.ensure_point (point_id m.id hp.id)) m.provides.hooks
    ++ (map State.ensure_point m.provides.points
        ++ (map State.ensure_point m.requires.listens
            ++ map (λ ev. State.ensure_topic (event_id m.id ev.id)) m.provides.events))

unfoldable pub remove_first : Text → List Text → List Text
remove_first id [] = []
remove_first id (x ∷ xs) = if text_eq x id then xs else x ∷ remove_first id xs

-- removePendingLocked
unfoldable pub remove_pending : Text → Host → Host
remove_pending id h =
    if has id h.pending_plugins
    then record h {
      pending = remove_first id h.pending;
      pending_plugins = delete id h.pending_plugins;
    }
    else h

unfoldable pub enter : Plugin → Meta → Host → Host
enter p m h =
    let metas = insert m.id m h.metas in
    let seq = insert m.id (h.next_seq + 1) h.seq in
    record h {
      plugins = insert m.id p h.plugins;
      metas = metas;
      seq = seq;
      next_seq = h.next_seq + 1;
      effects = insert m.id fresh h.effects;
      hook_decls = rebuild_hook_decls metas seq;
      trace = h.trace ++ surface_effects m;
    }

unfoldable pub commit :
    Plugin → Meta → Host → Map FnEntry × Option HostError → Host × Option HostError
commit p m h (fns, some e) = (record h { fns = fns }, some e)
commit p m h (fns, none) = (enter p m (record h { fns = fns }), none)

unfoldable pub register_locked : Options → Plugin → Meta → Host → Host × Option HostError
register_locked o p m h =
    if has m.id h.plugins
    then (h, some (State.duplicate_id m.id))
    else let h' = remove_pending m.id h in
      elim (validate_contract o h'.plugins h'.metas m) [
        | some e ↦ (h', some e)
        | none ↦ commit p m h' (register_functions p m h'.fns)
      ]

-- SetSurface where the plugin is SurfaceAware, then the lifecycle event.
unfoldable pub announce : Text → Plugin → Meta → Host → Host
announce topic p m h =
    emit
      ((if p.surface_aware then State.set_surface m.id ∷ [] else [])
        ++ State.lifecycle topic m.id m.version ∷ [])
      h

unfoldable pub announced : Plugin → Meta → Host × Option HostError → Host × Option HostError
announced p m (h, some e) = (h, some e)
announced p m (h, none) = (announce event_plugin_registered p m h, none)

-- Register without the retry at its end.
unfoldable pub register_one : Options → Plugin → Host → Host × Option HostError
register_one o p h =
    if is_empty p.meta.id
    then (h, some State.empty_id)
    else announced p p.meta (register_locked o p p.meta h)

unfoldable pub finish_register :
    (Host → Option Host) → Host × Option HostError → Option (Host × Option HostError)
finish_register k (h, some e) = some (h, some e)
finish_register k (h, none) = elim (k h) [ none ↦ none | some h' ↦ some (h', none) ]

unfoldable pub register_with :
    (Host → Option Host) → Options → Plugin → Host → Option (Host × Option HostError)
register_with k o p h = finish_register k (register_one o p h)

-- The loop over the waiting ids: the plugins that are ready, the ids kept, and the plugins kept. It
-- is `none` where an id has no plugin, on which the code would call Meta of nil.
unfoldable pub split_pending :
    Options → Host → List Text → Map Plugin → Option (List Plugin × List Text × Map Plugin)
split_pending o h [] waiting = some ([], [], waiting)
split_pending o h (id ∷ ids) waiting = elim (lookup id waiting) [
  | none ↦ none
  | some p ↦ elim (init_deps_satisfied o h.plugins h.metas p.meta.requires.deps) [
    | true ↦ elim (split_pending o h ids (delete id waiting)) [
      | none ↦ none
      | some (ready, kept, left) ↦ some (p ∷ ready, kept, left)
    ]
    | false ↦ elim (split_pending o h ids waiting) [
      | none ↦ none
      | some (ready, kept, left) ↦ some (ready, id ∷ kept, left)
    ]
  ]
]

-- A plugin that fails now is reported and dropped.
unfoldable pub after_retry : Plugin → Host × Option HostError → Host
after_retry p (h, none) = h
after_retry p (h, some e) = emit (State.plugin_failed p.meta.id e ∷ []) h

unfoldable pub register_ready : (Host → Option Host) → Options → List Plugin → Host → Option Host
register_ready k o [] h = some h
register_ready k o (p ∷ ps) h = elim (register_with k o p h) [
  | none ↦ none
  | some r ↦ register_ready k o ps (after_retry p r)
]

unfoldable pub retry : ℕ → Options → Host → Option Host
retry zero o h = none
retry (suc fuel) o h = elim (split_pending o h h.pending h.pending_plugins) [
  | none ↦ none
  | some (ready, kept, left) ↦
      register_ready (retry fuel o) o ready (record h { pending = kept; pending_plugins = left })
]

-- Enough rounds: every round that registers anything leaves fewer plugins waiting.
abbrev pub retry_pending : Options → Host → Option Host
retry_pending o h = retry (suc (length h.pending)) o h

unfoldable pub register : Options → Plugin → Host → Option (Host × Option HostError)
register o p h = register_with (retry_pending o) o p h

pub data RegisterStatus : Type 0 where
  status_registered status_pending : RegisterStatus

unfoldable pub with_status :
    RegisterStatus
    → Option (Host × Option HostError)
    → Option (Host × RegisterStatus × Option HostError)
with_status status none = none
with_status status (some (h, e)) = some (h, status, e)

unfoldable pub register_lazy :
    Options → Plugin → Host → Option (Host × RegisterStatus × Option HostError)
register_lazy o p h =
    let m = p.meta in
    if is_empty m.id
    then some (h, status_registered, some State.empty_id)
    else if has m.id h.plugins
    then some (h, status_registered, some (State.duplicate_id m.id))
    else if init_deps_satisfied o h.plugins h.metas m.requires.deps
    then with_status status_registered (register o p h)
    else if has m.id h.pending_plugins
    then some (record h { pending_plugins = insert m.id p h.pending_plugins }, status_pending, none)
    else some (
      record h {
        pending_plugins = insert m.id p h.pending_plugins;
        pending = h.pending ++ m.id ∷ [];
      },
      status_pending,
      none,
    )
