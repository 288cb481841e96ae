-- ===== src/Host/Check.antt =====
-- host/register.go: initDepsSatisfiedLocked and validateContractLocked, which Register and Replace
-- share.
use egop.Prelude.{
  Text, is_empty, lookup, has, any, Map, leb, not, Bool, true, false, ◌&&◌, ◌||◌, if◌then◌else◌,
  List, [], ◌∷◌, Option, none, some,
}
use egop.Contract.Glob.{has_byte}
use egop.Contract.Meta.{Meta, FuncSpec, Dependency, DependencyKind}
use egop.Host.State.{Options, Plugin, Miss, HostError}
use egop.Host.State
use egop.Host.Slots.{slot_satisfied, slot_check}
use egop.Host.Version.{version_at_least}

-- A byte at most ' '. A rune at most ' ' is one such byte, and no byte of a longer rune is.
unfoldable pub has_bad_name_chars : Text → Bool
has_bad_name_chars s = any (λ c. leb c 32) s

unfoldable pub is_init : DependencyKind → Bool
is_init DependencyKind.init = true
is_init _ = false

-- `h.meta[id].Version`, with the zero value for a missing key.
unfoldable pub version_of : Map Meta → Text → Text
version_of metas id = elim (lookup id metas) [ none ↦ [] | some m ↦ m.version ]

module _ (o : Options) (plugins : Map Plugin) (metas : Map Meta) where
  -- Whether one DepInit dependency is there; a slot goes before a plugin.
  unfoldable pub dep_satisfied : Dependency → Bool
  dep_satisfied r =
      if not (is_empty r.slot)
      then slot_satisfied o metas r.slot
      else if not (has r.plugin plugins)
      then false
      else if not (is_empty r.min_version)
          && not (version_at_least (version_of metas r.plugin) r.min_version)
      then false
      else true

  unfoldable pub init_deps_satisfied : List Dependency → Bool
  init_deps_satisfied [] = true
  init_deps_satisfied (r ∷ rs) =
      if not (is_init r.kind)
      then init_deps_satisfied rs
      else if not (dep_satisfied r)
      then false
      else init_deps_satisfied rs

unfoldable pub bad_function_name : FuncSpec → Bool
bad_function_name f = is_empty f.name || (has_byte b'.' f.name || has_bad_name_chars f.name)

unfoldable pub check_functions : Text → List FuncSpec → Option HostError
check_functions id [] = none
check_functions id (f ∷ fs) =
    if bad_function_name f then some (State.bad_function id f.name) else check_functions id fs

unfoldable pub check_shapes : Text → List Dependency → Option HostError
check_shapes id [] = none
check_shapes id (d ∷ ds) =
    if is_empty d.plugin && is_empty d.slot
    then some (State.empty_dependency id)
    else check_shapes id ds

module _ (o : Options) (plugins : Map Plugin) (metas : Map Meta) where
  unfoldable pub check_dep : Text → Dependency → Option HostError
  check_dep id r =
      if not (is_empty r.slot)
      then if not (slot_satisfied o metas r.slot)
        then some (State.slot_dependency id r.slot)
        else none
      else if not (has r.plugin plugins)
      then some (State.unregistered_dependency id r.plugin)
      else if not (is_empty r.min_version)
          && not (version_at_least (version_of metas r.plugin) r.min_version)
      then some (State.old_dependency id r.plugin (version_of metas r.plugin) r.min_version)
      else none

  unfoldable pub check_deps : Text → List Dependency → Option HostError
  check_deps id [] = none
  check_deps id (r ∷ rs) =
      if not (is_init r.kind)
      then check_deps id rs
      else elim (check_dep id r) [ some e ↦ some e | none ↦ check_deps id rs ]

  unfoldable pub check_slot : Meta → Option HostError
  check_slot m = if is_empty m.slot then none else elim (slot_check o metas m) [
    | none ↦ some (State.unknown_slot m.id m.slot)
    | some [] ↦ none
    | some (x ∷ xs) ↦ some (State.slot_unmet m.id m.slot (x ∷ xs))
  ]

  -- validateContractLocked: the first error, in the order of the code.
  unfoldable pub validate_contract : Meta → Option HostError
  validate_contract m =
      if has_bad_name_chars m.id
      then some (State.bad_id m.id)
      else elim (check_functions m.id m.provides.functions) [
        | some e ↦ some e
        | none ↦ elim (check_shapes m.id m.requires.deps) [
          | some e ↦ some e
          | none ↦ elim (check_deps m.id m.requires.deps) [ some e ↦ some e | none ↦ check_slot m ]
        ]
      ]
