-- ===== src/Host/Batch.antt =====
-- host/batch.go: RegisterMany. An entry of the batch is named by its plugin's id, which the batch has
-- once, where the code uses its position; a set of them is a list of ids. The texts of the errors
-- carry the dependency key in place of the words of prettyKey.
pub mod Sort
pub mod Run
pub mod Rounds
pub mod Laws
mod Tests
use egop.Prelude.{
  Text, codes, is_empty, text_eq, contains, lookup, insert, any, filter, length, Map, ℕ, zero, suc,
  map, Bool, true, false, not, ◌&&◌, ◌||◌, ◌==◌, if◌then◌else◌, List, [], ◌∷◌, ◌++◌, Option, none,
  some,
}
use egop.Contract.Glob.{strip_prefix}
use egop.Contract.Meta.{Meta, Dependency}
use egop.Host.State.{Options, Plugin, HostError, Host}
use egop.Host.State
use egop.Host.Slots.{find_slot, is_builtin}
use egop.Host.Check.{is_init}
use egop.Host.Register.{register, register_lazy, RegisterStatus}

pub record RegisterFailure : Type 0 where
  pub id : Text
  pub err : HostError

pub record RegisterReport : Type 0 where
  pub registered : List Text
  pub waiting : List Text
  pub failed : List RegisterFailure

unfoldable pub plugin_key : Text → Text
plugin_key id = codes "p:" ++ id

unfoldable pub slot_key : Text → Text
slot_key name = codes "s:" ++ name

unfoldable pub need_key : Dependency → List Text
need_key r =
    if not (is_empty r.plugin)
    then plugin_key r.plugin ∷ []
    else if not (is_empty r.slot)
    then slot_key r.slot ∷ []
    else []

unfoldable pub need_keys : List Dependency → List Text
need_keys [] = []
need_keys (r ∷ rs) = if not (is_init r.kind) then need_keys rs else need_key r ++ need_keys rs

unfoldable pub provide_keys : Meta → List Text
provide_keys m = plugin_key m.id ∷ (if is_empty m.slot then [] else slot_key m.slot ∷ [])

-- The host side of a key: a registered id, a slot that a registered plugin holds, a builtin slot.
unfoldable pub key_provided : Options → Map Meta → Text → Bool
key_provided o metas key = elim (strip_prefix (codes "p:") key) [
  | some id ↦ any (λ e. text_eq e.0 id) metas
  | none ↦ elim (strip_prefix (codes "s:") key) [
    | some name ↦
        any (λ e. not (is_empty (e.1).slot) && text_eq (e.1).slot name) metas
        || is_builtin (find_slot o name)
    | none ↦ false
  ]
]

unfoldable pub pending_keys : Map Plugin → List Text
pending_keys [] = []
pending_keys ((id, p) ∷ ps) =
    plugin_key id
    ∷ ((if is_empty p.meta.slot then [] else slot_key p.meta.slot ∷ []) ++ pending_keys ps)

unfoldable pub has_active_provider : List Plugin → List Text → Text → Bool
has_active_provider entries active key =
    any (λ p. contains active p.meta.id && contains (provide_keys p.meta) key) entries

unfoldable pub refuse :
    Text → HostError → List Plugin × List RegisterFailure → List Plugin × List RegisterFailure
refuse id e (entries, failed) = (entries, record { id = id; err = e } ∷ failed)

unfoldable pub keep :
    Plugin → List Plugin × List RegisterFailure → List Plugin × List RegisterFailure
keep p (entries, failed) = (p ∷ entries, failed)

-- The entries of the batch, the first of each id, and the failures of the others.
unfoldable pub index_batch : List Text → List Plugin → List Plugin × List RegisterFailure
index_batch seen [] = ([], [])
index_batch seen (p ∷ ps) =
    if is_empty p.meta.id
    then refuse [] State.empty_id (index_batch seen ps)
    else if contains seen p.meta.id
    then refuse p.meta.id (State.duplicate_in_batch p.meta.id) (index_batch seen ps)
    else keep p (index_batch (p.meta.id ∷ seen) ps)

-- The state of the fixed point: the active entries, the deferred ones, the keys that will be there
-- eventually, and the failures of this phase.
pub record Pruning : Type 0 where
  pub active : List Text
  pub deferred : List Text
  pub eventually : List Text
  pub failed : List RegisterFailure

unfoldable pub drop_entry : Plugin → Text → Pruning → Pruning
drop_entry p key s =
    let active = filter (λ id. not (text_eq id p.meta.id)) s.active in
    if contains s.eventually key
    then record s {
      active = active;
      deferred = s.deferred ++ p.meta.id ∷ [];
      eventually = s.eventually ++ provide_keys p.meta;
    }
    else record s {
      active = active;
      failed =
          s.failed
          ++ (record { id = p.meta.id; err = State.missing_dependency p.meta.id key }) ∷ [];
    }

module _ (o : Options) (metas : Map Meta) (entries : List Plugin) where
  unfoldable pub key_open : List Text → Text → Bool
  key_open active key = key_provided o metas key || has_active_provider entries active key

  -- The first key without a provider.
  unfoldable pub first_unmet : List Text → List Text → Option Text
  first_unmet active [] = none
  first_unmet active (k ∷ ks) = if key_open active k then first_unmet active ks else some k

  unfoldable pub prune_entry : Plugin → Pruning → Pruning
  prune_entry p s =
      if not (contains s.active p.meta.id)
      then s
      else elim (first_unmet s.active (need_keys p.meta.requires.deps)) [
        | none ↦ s
        | some k ↦ drop_entry p k s
      ]

  unfoldable pub prune_pass : List Plugin → Pruning → Pruning
  prune_pass [] s = s
  prune_pass (p ∷ ps) s = prune_pass ps (prune_entry p s)

  -- The passes, until one drops nothing.
  unfoldable pub prune : ℕ → Pruning → Option Pruning
  prune zero s = none
  prune (suc fuel) s =
      let s' = prune_pass entries s in
      let rest = prune fuel s' in if length s'.active == length s.active then some s' else rest
