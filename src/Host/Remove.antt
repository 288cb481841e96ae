-- ===== src/Host/Remove.antt =====
-- host/register.go: Remove with its cascade, and Dependents of host/host.go.
pub mod Sweep
pub mod Closure
pub mod Results
pub mod Needs
pub mod Dependents
use egop.Prelude.{
  Text, text_eq, is_empty, contains, lookup, insert, delete, has, filter, length, Map, ℕ, zero, suc,
  map, Bool, true, false, not, ◌&&◌, if◌then◌else◌, List, [], ◌∷◌, ◌++◌, Option, none, some,
}
use egop.Contract.Meta.{Meta, Dependency}
use egop.Contract.Event.{event_plugin_removed}
use egop.Undo.{Catcher, close}
use egop.Host.State.{Options, FnEntry, HostError, Effect, Host, emit}
use egop.Host.State
use egop.Host.Slots.{slot_satisfied_excluding}
use egop.Host.Check.{is_init}
use egop.Host.Hooks.{rebuild_hook_decls}

-- `h.meta[id].Slot`, with the zero value for a missing key.
unfoldable pub slot_of : Map Meta → Text → Text
slot_of metas id = elim (lookup id metas) [ none ↦ [] | some m ↦ m.slot ]

-- The two cases of depBrokenByRemovalLocked's switch; here a plugin goes before a slot.
unfoldable pub dep_broken : Options → Map Meta → Text → Text → Dependency → Bool
dep_broken o metas id slot r =
    if not (is_empty r.plugin)
    then text_eq r.plugin id
    else if not (is_empty r.slot) && text_eq r.slot slot
    then not (slot_satisfied_excluding o metas r.slot id)
    else false

unfoldable pub deps_broken : Options → Map Meta → Text → Text → List Dependency → Bool
deps_broken o metas id slot [] = false
deps_broken o metas id slot (r ∷ rs) =
    if not (is_init r.kind)
    then deps_broken o metas id slot rs
    else if dep_broken o metas id slot r
    then true
    else deps_broken o metas id slot rs

-- The registered plugins outside `skip` that the removal of `id` breaks.
unfoldable pub broken_by : Options → Map Meta → Text → Text → List Text → List Text
broken_by o metas id slot skip =
    map (λ e. e.0)
      (filter (λ e. not (contains skip e.0) && deps_broken o metas id slot (e.1).requires.deps)
        metas)

-- The loop of Dependents, a loop of its own beside the two of Remove.
unfoldable pub dependents_loop : Options → Map Meta → Text → Text → Map Meta → List Text
dependents_loop o metas id slot [] = []
dependents_loop o metas id slot ((k, m) ∷ rows) =
    let out = dependents_loop o metas id slot rows in
    if text_eq k id
    then out
    else if deps_broken o metas id slot m.requires.deps
    then k ∷ out
    else out

unfoldable pub dependents : Options → Host → Text → List Text
dependents o h id =
    if not (has id h.plugins) then [] else dependents_loop o h.metas id (slot_of h.metas id) h.metas

-- An undo function's call, recorded.
unfoldable pub undo_effect : ℕ → List Effect → List Effect × Option HostError
undo_effect n trace = (trace ++ State.run_undo n ∷ [], none)

unfoldable pub close_effects : Option (Catcher ℕ) → List Effect → List Effect
close_effects none trace = trace
close_effects (some c) trace = (close undo_effect c trace).1

unfoldable pub drop_fns : Text → Map FnEntry → Map FnEntry
drop_fns id fns = filter (λ e. not (text_eq (e.1).plugin_id id)) fns

-- What the cascade deletes for one plugin.
unfoldable pub drop_plugin : Text → Host → Host
drop_plugin id h = record h {
  plugins = delete id h.plugins;
  metas = delete id h.metas;
  seq = delete id h.seq;
  fns = drop_fns id h.fns;
  applied = delete id h.applied;
  effects = delete id h.effects;
  trace = close_effects (lookup id h.effects) h.trace;
}

unfoldable pub note_version : Text → Option Meta → Map Text → Map Text
note_version id none versions = versions
note_version id (some m) versions = insert id m.version versions

-- The loop over the queue: the victims in order, their versions, and the host after it.
unfoldable pub sweep :
    ℕ → Options → List Text → List Text → Map Text → Host → Option (List Text × Map Text × Host)
sweep zero o queue victims versions h = none
sweep (suc fuel) o [] victims versions h = some (victims, versions, h)
sweep (suc fuel) o (id ∷ queue) victims versions h =
    let h' = drop_plugin id h in
    let broken = broken_by o h'.metas id (slot_of h.metas id) victims in
    sweep fuel o (queue ++ broken) (victims ++ broken)
      (note_version id (lookup id h.metas) versions) h'

-- `versions[v]`, with the zero value for a missing key.
unfoldable pub removed_event : Map Text → Text → Effect
removed_event versions v =
    State.lifecycle event_plugin_removed v
      (elim (lookup v versions) [ none ↦ [] | some version ↦ version ])

unfoldable pub finish_remove : List Text × Map Text × Host → Host × List Text × Option HostError
finish_remove (victims, versions, h) = (
  emit (map (removed_event versions) victims)
      (record h { hook_decls = rebuild_hook_decls h.metas h.seq }),
  victims,
  none,
)

-- Every round deletes a registered plugin, so their number is enough rounds.
unfoldable pub cascade : Options → Host → Text → Option (Host × List Text × Option HostError)
cascade o h id = elim (sweep (suc (suc (length h.metas))) o (id ∷ []) (id ∷ []) [] h) [
  | none ↦ none
  | some r ↦ some (finish_remove r)
]

unfoldable pub remove : Options → Host → Text → Bool → Option (Host × List Text × Option HostError)
remove o h id cascading =
    if not (has id h.plugins)
    then some (h, [], none)
    else if cascading
    then cascade o h id
    else elim (broken_by o h.metas id (slot_of h.metas id) (id ∷ [])) [
      | [] ↦ cascade o h id
      | x ∷ xs ↦ some (h, [], some (State.still_required id (x ∷ xs)))
    ]
