-- ===== src/Prelude/Lists.antt =====
-- Lists measured by native numbers, Boolean searches through a list, and membership with its place.
use Prim.Native.Nat.{ℕ, suc, ◌+◌, ◌≤◌}
use mathlib.Core.Path.{◌≡◌, refl}
use mathlib.Core.Logic.{◌⊎◌, inl, inr}
use mathlib.Core.Bool.{Bool, true, false, ◌&&◌, ◌||◌}
use mathlib.Core.List.{List, [], ◌∷◌, ◌++◌}
use native.Mathlib.Omega.{arith}
use egop.Prelude.Tests.{ltb, if◌then◌else◌, Bool-cases}

module _ {ℓ} {A : Type ℓ} where
  abbrev pub length : List A → ℕ
  length [] = 0
  length (x ∷ xs) = suc (length xs)

  pub length-append : (xs ys : List A) → length (xs ++ ys) ≡ length xs + length ys
  length-append [] ys = omega arith
  length-append (x ∷ xs) ys = omega (arith, length-append xs ys)

  -- `x` stands in the list, with its place.
  pub data In (x : A) : List A → Type ℓ where
    here : {xs : List A} → In x (x ∷ xs)
    there : {y : A} {xs : List A} → In x xs → In x (y ∷ xs)

  pub In-cons_cases : {x y : A} {xs : List A} → In x (y ∷ xs) → (x ≡ y) ⊎ In x xs
  In-cons_cases here = inl refl
  In-cons_cases (there m) = inr m

  unfoldable pub any : (A → Bool) → List A → Bool
  any p [] = false
  any p (x ∷ xs) = p x || any p xs

  unfoldable pub all : (A → Bool) → List A → Bool
  all p [] = true
  all p (x ∷ xs) = p x && all p xs

  unfoldable pub filter : (A → Bool) → List A → List A
  filter p [] = []
  filter p (x ∷ xs) = if p x then x ∷ filter p xs else filter p xs

  pub In-append_left : {x : A} {xs : List A} (ys : List A) → In x xs → In x (xs ++ ys)
  In-append_left ys here = here
  In-append_left ys (there m) = there (In-append_left ys m)

  pub In-append_right : {x : A} (xs : List A) {ys : List A} → In x ys → In x (xs ++ ys)
  In-append_right [] m = m
  In-append_right (y ∷ xs) m = there (In-append_right xs m)

  pub In-append_cases : {x : A} (xs ys : List A) → In x (xs ++ ys) → In x xs ⊎ In x ys
  In-append_cases [] ys m = inr m
  In-append_cases (y ∷ xs) ys here = inl here
  In-append_cases (y ∷ xs) ys (there m) = elim (In-append_cases xs ys m) [
    | inl l ↦ inl (there l)
    | inr r ↦ inr r
  ]

  pub all_at : (p : A → Bool) (xs : List A) → all p xs ≡ true → {x : A} → In x xs → p x ≡ true
  unfolding all
  all_at p [] h m = elim m [ ]
  all_at p (y ∷ xs) h here = ground arith
  all_at p (y ∷ xs) h (there m) = all_at p xs (ground arith) m

  pub all_intro : (p : A → Bool) (xs : List A) → ((x : A) → In x xs → p x ≡ true) → all p xs ≡ true
  unfolding all
  all_intro p [] h = refl
  all_intro p (x ∷ xs) h = ground (arith, h x here, all_intro p xs (λ y m. h y (there m)))

  pub any_at : (p : A → Bool) (xs : List A) {x : A} → In x xs → p x ≡ true → any p xs ≡ true
  unfolding any
  any_at p [] m h = elim m [ ]
  any_at p (y ∷ xs) here h = ground arith
  any_at p (y ∷ xs) (there m) h = ground (arith, any_at p xs m h)

  pub any_find : (p : A → Bool) (xs : List A) → any p xs ≡ true → (x : A) × In x xs × (p x ≡ true)
  unfolding any
  any_find p [] h = cc
  any_find p (x ∷ xs) h = elim (Bool-cases (p x)) [
    | inl e ↦ (x, here, e)
    | inr e ↦ let (y, m, q) = any_find p xs (ground arith) in (y, there m, q)
  ]

  pub In-filter : (p : A → Bool) (xs : List A) {x : A} → In x xs → p x ≡ true → In x (filter p xs)
  unfolding filter
  In-filter p [] m h = elim m [ ]
  In-filter p (y ∷ xs) here h = rw h here
  In-filter p (y ∷ xs) (there m) h = elim (Bool-cases (p y)) [
    | inl e ↦ rw e (there (In-filter p xs m h))
    | inr e ↦ rw e (In-filter p xs m h)
  ]

  pub filter_sound :
      (p : A → Bool) (xs : List A) {x : A} → In x (filter p xs) → In x xs × (p x ≡ true)
  unfolding filter
  filter_sound p [] m = elim m [ ]
  filter_sound p (y ∷ xs) m = elim (Bool-cases (p y)) [
    | inl e ↦ elim (In-cons_cases (rw e at m)) [
      | inl same ↦ (rw same here, rw same e)
      | inr k ↦ let (a, b) = filter_sound p xs k in (there a, b)
    ]
    | inr e ↦ let (a, b) = filter_sound p xs (rw e at m) in (there a, b)
  ]

  pub length-filter-le : (p : A → Bool) (xs : List A) → length (filter p xs) ≤ length xs
  unfolding filter
  length-filter-le p [] = omega arith
  length-filter-le p (x ∷ xs) = ground (arith, length-filter-le p xs)

pub In-map {ℓ κ} :
    {A : Type ℓ} {B : Type κ} (f : A → B) {x : A} {xs : List A}
    → In x xs
    → In (f x) (mathlib.Core.List.map f xs)
In-map f here = here
In-map f (there m) = there (In-map f m)

-- Insertion sort by a number: the result of sort.Slice where the numbers differ.
unfoldable pub insert_by {ℓ} : {A : Type ℓ} → (A → ℕ) → A → List A → List A
insert_by key a [] = a ∷ []
insert_by key a (x ∷ xs) = if ltb (key a) (key x) then a ∷ x ∷ xs else x ∷ insert_by key a xs

unfoldable pub sort_by {ℓ} : {A : Type ℓ} → (A → ℕ) → List A → List A
sort_by key [] = []
sort_by key (x ∷ xs) = insert_by key x (sort_by key xs)

pub List-cases {ℓ} :
    {A : Type ℓ} (xs : List A) → (xs ≡ []) ⊎ ((x : A) × (rest : List A) × (xs ≡ x ∷ rest))
List-cases [] = inl refl
List-cases (x ∷ xs) = inr (x, xs, refl)
