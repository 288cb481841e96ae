-- ===== src/Host/Batch/Sort.antt =====
-- host/batch.go: the topological sort of RegisterMany. `degrees` counts the keys that an entry still
-- waits for; each of its keys is opened once, by the first entry that provides it.
use egop.Prelude.{
  Text, contains, lookup, insert, filter, length, Map, ℕ, zero, suc, map, ◌||◌, if◌then◌else◌, List,
  [], ◌∷◌, ◌++◌, Option, none, some, Bool, true, false,
}
use egop.Contract.Meta.{Meta}
use egop.Host.State.{Options, Plugin}
use egop.Host.Batch.{need_keys, provide_keys, key_provided}

unfoldable pub is_nil : List Text → Bool
is_nil [] = true
is_nil (k ∷ ks) = false

module _ (o : Options) (metas : Map Meta) where
  -- The keys that are not provided by the host, each once.
  unfoldable pub open_needs : List Text → List Text → List Text
  open_needs seen [] = []
  open_needs seen (k ∷ ks) =
      if key_provided o metas k || contains seen k
      then open_needs seen ks
      else k ∷ open_needs (k ∷ seen) ks

  unfoldable pub wanted : Plugin → List Text
  wanted p = open_needs [] (need_keys p.meta.requires.deps)

  unfoldable pub degrees_of : List Plugin → Map ℕ
  degrees_of live = map (λ p. (p.meta.id, length (wanted p))) live

  unfoldable pub waiters : List Plugin → Text → List Plugin
  waiters live key = filter (λ p. contains (wanted p) key) live

-- `indegree[w]--`; an entry at zero would go below and is not queued again.
unfoldable pub open_waiter : Plugin → Map ℕ × List Plugin → Map ℕ × List Plugin
open_waiter p (degrees, queue) = elim (lookup p.meta.id degrees) [
  | none ↦ (degrees, queue)
  | some zero ↦ (degrees, queue)
  | some (suc zero) ↦ (insert p.meta.id 0 degrees, queue ++ p ∷ [])
  | some (suc (suc d)) ↦ (insert p.meta.id (suc d) degrees, queue)
]

unfoldable pub open_waiters : List Plugin → Map ℕ × List Plugin → Map ℕ × List Plugin
open_waiters [] s = s
open_waiters (p ∷ ps) s = open_waiters ps (open_waiter p s)

module _ (o : Options) (metas : Map Meta) (live : List Plugin) where
  -- The loop over the keys that one entry provides.
  unfoldable pub open_keys :
      List Text → List Text → Map ℕ × List Plugin → List Text × Map ℕ × List Plugin
  open_keys [] opened (degrees, queue) = (opened, degrees, queue)
  open_keys (k ∷ ks) opened s =
      if contains opened k
      then open_keys ks opened s
      else open_keys ks (k ∷ opened) (open_waiters (waiters o metas live k) s)

  -- The loop over the queue.
  unfoldable pub visit : ℕ → List Plugin → List Text → Map ℕ → Option (List Plugin)
  visit zero queue opened degrees = none
  visit (suc fuel) [] opened degrees = some []
  visit (suc fuel) (p ∷ queue) opened degrees =
      let s = open_keys (provide_keys p.meta) opened (degrees, queue) in
      elim (visit fuel s.2 s.0 s.1) [ none ↦ none | some rest ↦ some (p ∷ rest) ]

-- Every entry is queued at most once, so their number is enough rounds.
unfoldable pub sort_entries : Options → Map Meta → List Plugin → Option (List Plugin)
sort_entries o metas live =
    visit o metas live (suc (length live)) (filter (λ p. is_nil (wanted o metas p)) live) []
      (degrees_of o metas live)
