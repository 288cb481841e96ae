-- ===== src/Host/Batch/Rounds.antt =====
-- host/batch.go: the rounds of the pruning and of the topological sort.
use egop.Prelude.{
  Text, text_eq, contains, lookup, insert, filter, length, length-append, length-filter-le, Map, ℕ,
  zero, suc, ◌+◌, ◌≤◌, ◌<◌, ◌==◌, Bool-cases, not, List, List-cases, [], ◌∷◌, Option-cases, some,
  ◌≡◌, refl, inl, inr, arith,
}
use egop.Contract.Meta.{Meta}
use egop.Host.State.{Options, Plugin}
use egop.Host.Batch.{
  Pruning, need_keys, provide_keys, drop_entry, first_unmet, prune_entry, prune_pass, prune,
}
use egop.Host.Batch.Sort.{
  is_nil, wanted, degrees_of, waiters, open_waiter, open_waiters, open_keys, visit, sort_entries,
}

few_none : {n : ℕ} → n < 0 → ⊥
few_none few = omega arith

module _ (o : Options) (metas : Map Meta) (entries : List Plugin) where
  drop-le :
      (p : Plugin) (k : Text) (s : Pruning) → length (drop_entry p k s).active ≤ length s.active
  unfolding drop_entry
  drop-le p k s =
      ground (arith, length-filter-le (λ (id : Text). not (text_eq id p.meta.id)) s.active)

  entry-le :
      (p : Plugin) (s : Pruning) → length (prune_entry o metas entries p s).active ≤ length s.active
  unfolding prune_entry
  entry-le p s = elim (Bool-cases (contains s.active p.meta.id)) [
    | inl e ↦
        elim (Option-cases
          (first_unmet o metas entries s.active (need_keys p.meta.requires.deps))) [
            | inl u ↦ rw (e, u) (omega arith)
            | inr (k, u) ↦ rw (e, u) (drop-le p k s)
          ]
    | inr e ↦ rw e (omega arith)
  ]

  pass-le :
      (ps : List Plugin) (s : Pruning)
      → length (prune_pass o metas entries ps s).active ≤ length s.active
  unfolding prune_pass
  pass-le [] s = omega arith
  pass-le (p ∷ ps) s = omega (arith, entry-le p s, pass-le ps (prune_entry o metas entries p s))

  -- Every pass but the last drops an entry.
  pub prune-Returns :
      (fuel : ℕ) (s : Pruning)
      → length s.active < fuel
      → (s' : Pruning) × (prune o metas entries fuel s ≡ some s')
  unfolding prune
  prune-Returns zero s few = elim (few_none few) [ ]
  prune-Returns (suc fuel) s few =
      let s' : Pruning = prune_pass o metas entries entries s in
      elim (Bool-cases (length (prune_pass o metas entries entries s).active == length s.active)) [
        | inl e ↦ (prune_pass o metas entries entries s, rw e refl)
        | inr e ↦
            let (r, ran) =
              prune-Returns fuel (prune_pass o metas entries entries s)
                (ground (arith, pass-le entries s)) in
            (r, rw e ran)
      ]

-- The entries that wait for a key.
unfoldable blocked : Map ℕ → ℕ
blocked [] = 0
blocked ((k, zero) ∷ m) = blocked m
blocked ((k, suc d) ∷ m) = suc (blocked m)

blocked_freed :
    (k : Text) (m : Map ℕ) → lookup k m ≡ some 1 → suc (blocked (insert k 0 m)) ≡ blocked m
unfolding blocked lookup insert
blocked_freed k [] e = cc
blocked_freed k ((j, zero) ∷ m) e = ground (arith, blocked_freed k m)
blocked_freed k ((j, suc d) ∷ m) e = ground (arith, blocked_freed k m)

blocked_lowered :
    (k : Text) (d : ℕ) (m : Map ℕ)
    → lookup k m ≡ some (suc (suc d))
    → blocked (insert k (suc d) m) ≡ blocked m
unfolding blocked lookup insert
blocked_lowered k d [] e = cc
blocked_lowered k d ((j, zero) ∷ m) e = ground (arith, blocked_lowered k d m)
blocked_lowered k d ((j, suc d') ∷ m) e = ground (arith, blocked_lowered k d m)

-- What the sort still has to do: the entries that wait and those in the queue.
abbrev left : Map ℕ × List Plugin → ℕ
left s = blocked s.0 + length s.1

waiter-left : (p : Plugin) (s : Map ℕ × List Plugin) → left (open_waiter p s) ≡ left s
unfolding open_waiter
waiter-left p (degrees, queue) = elim (Option-cases (lookup p.meta.id degrees)) [
  | inl e ↦ rw (e, open_waiter) refl
  | inr (zero, e) ↦ rw (e, open_waiter) refl
  | inr (suc zero, e) ↦
      rw (e, open_waiter)
        (omega (arith, blocked_freed p.meta.id degrees e, length-append queue (p ∷ [])))
  | inr (suc (suc d), e) ↦
      rw (e, open_waiter) (omega (arith, blocked_lowered p.meta.id d degrees e))
]

waiters-left : (ps : List Plugin) (s : Map ℕ × List Plugin) → left (open_waiters ps s) ≡ left s
unfolding open_waiters
waiters-left [] s = refl
waiters-left (p ∷ ps) s = omega (arith, waiter-left p s, waiters-left ps (open_waiter p s))

module _ (o : Options) (metas : Map Meta) (live : List Plugin) where
  keys-left :
      (ks opened : List Text) (s : Map ℕ × List Plugin)
      → left ((open_keys o metas live ks opened s).1, (open_keys o metas live ks opened s).2)
        ≡ left s
  unfolding open_keys
  keys-left [] opened s = refl
  keys-left (k ∷ ks) opened s = elim (Bool-cases (contains opened k)) [
    | inl e ↦ rw e (keys-left ks opened s)
    | inr e ↦ rw e (
        omega (
          arith,
          waiters-left (waiters o metas live k) s,
          keys-left ks (k ∷ opened) (open_waiters (waiters o metas live k) s),
        ))
  ]

  visit-Returns :
      (fuel : ℕ) (queue : List Plugin) (opened : List Text) (degrees : Map ℕ)
      → left (degrees, queue) < fuel
      → (order : List Plugin) × (visit o metas live fuel queue opened degrees ≡ some order)
  unfolding visit
  visit-Returns zero queue opened degrees few = elim (few_none few) [ ]
  visit-Returns (suc fuel) [] opened degrees few = ([], refl)
  visit-Returns (suc fuel) (p ∷ queue) opened degrees few =
      let same = keys-left (provide_keys p.meta) opened (degrees, queue) in
      let (rest, ran) =
        visit-Returns fuel (open_keys o metas live (provide_keys p.meta) opened (degrees, queue)).2
          (open_keys o metas live (provide_keys p.meta) opened (degrees, queue)).0
          (open_keys o metas live (provide_keys p.meta) opened (degrees, queue)).1 (omega arith) in
      (p ∷ rest, rw ran refl)

module _ (o : Options) (metas : Map Meta) where
  start-left :
      (live : List Plugin)
      → left (degrees_of o metas live, filter (λ p. is_nil (wanted o metas p)) live) ≡ length live
  unfolding degrees_of filter is_nil blocked
  start-left [] = refl
  start-left (p ∷ live) = elim (List-cases (wanted o metas p)) [
    | inl e ↦ rw e (omega (arith, start-left live))
    | inr (k, ks, e) ↦ rw e (omega (arith, start-left live))
  ]

  pub sort-Returns :
      (live : List Plugin) → (order : List Plugin) × (sort_entries o metas live ≡ some order)
  unfolding sort_entries
  sort-Returns live =
      visit-Returns o metas live (suc (length live)) (filter (λ p. is_nil (wanted o metas p)) live)
        [] (degrees_of o metas live) (omega (arith, start-left live))
