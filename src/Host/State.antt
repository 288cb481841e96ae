-- ===== src/Host/State.antt =====
-- host/host.go: the host's state, its options and the outward calls that its methods make. A Go map
-- is an association list. The host's mutex is not modelled: each critical section is one step, and
-- the calls of injected interfaces and of plugin code are recorded in `trace`, oldest first.
use egop.Prelude.{Text, Map, ℕ, Bool, List, ◌++◌, Option}
use egop.Contract.Meta.{Meta, FuncSpec, HookKind, SlotSpec}
use egop.Undo.{Catcher}

-- What a call of plugin code ends with.
pub data Reply : Type 0 where
  replied failed panicked : Text → Reply

-- A `contract.Plugin`: the identity of the interface value, its constant Meta, and the optional
-- interfaces that it implements (FunctionProvider, Configurable, SurfaceAware, Disposer).
pub record Plugin : Type 0 where
  pub handle : ℕ
  pub meta : Meta
  pub call_func : Option (Text → Text → Reply)
  pub apply_config : Option (Text → Reply)
  pub surface_aware : Bool
  pub disposer : Option Reply

pub record FnEntry : Type 0 where
  pub plugin_id : Text
  pub spec : FuncSpec
  pub provider : Text → Text → Reply

pub record HookDecl : Type 0 where
  pub owner : Text
  pub kind : HookKind

-- The options that registration reads; `none` is a nil function.
pub record Options : Type 0 where
  pub slot_lookup : Option (Text → Option SlotSpec)
  pub tool_names : Option (List Text)

-- The ten lines that slotCheck can report.
pub data Miss : Type 0 where
  emitted_point capability function hook_point config_field listened_point : Text → Miss
  event_topic needed_slot needed_tool unavailable_tool : Text → Miss

pub data HostError : Type 0 where
  empty_id : HostError
  duplicate_id duplicate_in_batch bad_id empty_dependency not_registered cycle : Text → HostError
  bad_function function_conflict slot_dependency unregistered_dependency : Text → Text → HostError
  old_dependency : (id dep got want : Text) → HostError
  unknown_slot missing_dependency : Text → Text → HostError
  slot_unmet : (id slot : Text) → List Miss → HostError
  still_required : (id : Text) → List Text → HostError

pub data Effect : Type 0 where
  ensure_point ensure_topic set_surface : Text → Effect
  run_undo : ℕ → Effect
  lifecycle : (topic id version : Text) → Effect
  plugin_failed : Text → HostError → Effect
  reapply_config : (id config : Text) → Effect

pub record Host : Type 0 where
  pub plugins : Map Plugin
  pub metas : Map Meta
  pub fns : Map FnEntry
  pub applied : Map Text
  pub seq : Map ℕ
  pub next_seq : ℕ
  pub effects : Map (Catcher ℕ)
  pub pending : List Text
  pub pending_plugins : Map Plugin
  pub hook_decls : Map HookDecl
  pub trace : List Effect

-- Records outward calls.
unfoldable pub emit : List Effect → Host → Host
emit es h = record h { trace = h.trace ++ es }
