-- ===== src/Host/Replace.antt =====
-- host/register.go: Replace, the hot swap of a registered plugin.
pub mod Results
mod Tests
use egop.Prelude.{
  Text, lookup, insert, has, Map, ℕ, if◌then◌else◌, List, [], ◌∷◌, ◌++◌, Option, none, some,
}
use egop.Contract.Meta.{Meta, FuncSpec}
use egop.Contract.Event.{event_plugin_replaced}
use egop.Undo.{fresh}
use egop.Host.State.{Options, Plugin, Reply, FnEntry, HostError, Effect, Host, emit}
use egop.Host.State
use egop.Host.Check.{validate_contract}
use egop.Host.Hooks.{rebuild_hook_decls}
use egop.Host.Register.{fn_key, surface_effects, retry_pending}
use egop.Host.Remove.{drop_fns, close_effects}

-- The loop that enters the new functions; a repeated name overwrites.
unfoldable pub put_functions :
    Text → (Text → Text → Reply) → List FuncSpec → Map FnEntry → Map FnEntry
put_functions id call [] fns = fns
put_functions id call (f ∷ fs) fns =
    put_functions id call fs
      (insert (fn_key id f.name) (record { plugin_id = id; spec = f; provider = call }) fns)

unfoldable pub replace_functions : Plugin → Meta → Map FnEntry → Map FnEntry
replace_functions p m fns = elim p.call_func [
  | none ↦ drop_fns m.id fns
  | some call ↦ put_functions m.id call m.provides.functions (drop_fns m.id fns)
]

-- The critical section, and the undo of the old implementation's effects after it.
unfoldable pub swap : Plugin → Meta → Host → Host
swap p m h =
    let metas = insert m.id m h.metas in
    record h {
      plugins = insert m.id p h.plugins;
      metas = metas;
      fns = replace_functions p m h.fns;
      effects = insert m.id fresh h.effects;
      hook_decls = rebuild_hook_decls metas h.seq;
      trace = close_effects (lookup m.id h.effects) (h.trace ++ surface_effects m);
    }

-- The kept configuration is given to the new implementation, whatever it answers.
unfoldable pub reapply : Text → Plugin → Option Text → List Effect
reapply id p none = []
reapply id p (some config) = elim p.apply_config [
  | none ↦ []
  | some apply ↦ State.reapply_config id config ∷ []
]

unfoldable pub replaced : Plugin → Meta → Host → Host
replaced p m h =
    emit
      ((if p.surface_aware then State.set_surface m.id ∷ [] else [])
        ++ (reapply m.id p (lookup m.id h.applied)
            ++ State.lifecycle event_plugin_replaced m.id m.version ∷ []))
      (swap p m h)

unfoldable pub replace : Options → Plugin → Host → Option (Host × Option HostError)
replace o p h =
    let m = p.meta in
    if has m.id h.plugins
    then elim (validate_contract o h.plugins h.metas m) [
      | some e ↦ some (h, some e)
      | none ↦ elim (retry_pending o (replaced p m h)) [ none ↦ none | some h' ↦ some (h', none) ]
    ]
    else some (h, some (State.not_registered m.id))
