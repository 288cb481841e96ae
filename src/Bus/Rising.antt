-- ===== src/Bus/Rising.antt =====
-- host/memevents.go, host/memhooks.go: entries whose ids rise, as both buses hand them out. Sorting such
-- entries by id leaves them in the order in which they were added.
use egop.Prelude.{
  filter, sort_by, insert_by, ℕ, ◌≤◌, ◌<◌, Bool, Bool-cases, List, [], ◌∷◌, ◌++◌, ◌≡◌, refl, inl,
  inr, arith,
}

module _ {A : Type 0} (id : A → ℕ) where
  -- The ids rise from above `low` and end at most at `high`.
  abbrev pub IsRising : ℕ → List A → ℕ → Type 0
  IsRising low [] high = low ≤ high
  IsRising low (x ∷ xs) high = (low < id x) × IsRising (id x) xs high

  insert_by-IsRising :
      (x : A) (low : ℕ) (xs : List A) (high : ℕ)
      → low < id x
      → IsRising (id x) xs high
      → insert_by id x xs ≡ x ∷ xs
  unfolding insert_by
  insert_by-IsRising x low [] high lt r = refl
  insert_by-IsRising x low (y ∷ xs) high lt r = ground arith

  pub sort_by-IsRising :
      (low : ℕ) (xs : List A) (high : ℕ) → IsRising low xs high → sort_by id xs ≡ xs
  unfolding sort_by
  sort_by-IsRising low [] high r = refl
  sort_by-IsRising low (x ∷ xs) high r =
      rw (sort_by-IsRising (id x) xs high r.1) (insert_by-IsRising x low xs high r.0 r.1)

  pub snoc-IsRising :
      (low : ℕ) (xs : List A) (high : ℕ) (x : A)
      → high < id x
      → IsRising low xs high
      → IsRising low (xs ++ x ∷ []) (id x)
  snoc-IsRising low [] high x lt r = (omega arith, omega arith)
  snoc-IsRising low (y ∷ xs) high x lt r = (r.0, snoc-IsRising (id y) xs high x lt r.1)

  lower-IsRising :
      (low low' : ℕ) (xs : List A) (high : ℕ)
      → low ≤ low'
      → IsRising low' xs high
      → IsRising low xs high
  lower-IsRising low low' [] high le r = omega arith
  lower-IsRising low low' (x ∷ xs) high le r = (omega arith, r.1)

  pub higher-IsRising :
      (low : ℕ) (xs : List A) (high high' : ℕ)
      → high ≤ high'
      → IsRising low xs high
      → IsRising low xs high'
  higher-IsRising low [] high high' le r = omega arith
  higher-IsRising low (x ∷ xs) high high' le r = (r.0, higher-IsRising (id x) xs high high' le r.1)

  pub filter-IsRising :
      (p : A → Bool) (low : ℕ) (xs : List A) (high : ℕ)
      → IsRising low xs high
      → IsRising low (filter p xs) high
  unfolding filter
  filter-IsRising p low [] high r = r
  filter-IsRising p low (x ∷ xs) high r = elim (Bool-cases (p x)) [
    | inl e ↦ rw e (r.0, filter-IsRising p (id x) xs high r.1)
    | inr e ↦ rw e (
        lower-IsRising low (id x) (filter p xs) high (omega arith)
          (filter-IsRising p (id x) xs high r.1))
  ]
