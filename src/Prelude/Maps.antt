-- ===== src/Prelude/Maps.antt =====
-- Go's `map[string]V` as an association list that keeps the order of insertion.
use mathlib.Core.Path.{◌≡◌, refl, sym, ap, ◌∙◌, subst}
use mathlib.Core.Logic.{inl, inr, ◌≢◌, ◌⊎◌}
use mathlib.Core.Bool.{true, false, Bool}
use mathlib.Core.Option.{Option, none, some}
use mathlib.Core.List.{List, [], ◌∷◌, ◌++◌, map}
use native.Mathlib.Omega.{arith}
use egop.Prelude.Tests.{if◌then◌else◌, if_either, Bool-cases, is_some}
use egop.Prelude.Lists.{In-append_cases, In-cons_cases, In, here, there}
use egop.Prelude.Texts.{text_ne, text_eq_refl, Text, text_eq, text_eq_iff, text_eq_sound}

abbrev pub Map {ℓ} : Type ℓ → Type ℓ
Map V = List (Text × V)

module _ {ℓ} {V : Type ℓ} where
  unfoldable pub lookup : Text → Map V → Option V
  lookup k [] = none
  lookup k ((j, v) ∷ m) = if text_eq j k then some v else lookup k m

  unfoldable pub insert : Text → V → Map V → Map V
  insert k v [] = (k, v) ∷ []
  insert k v ((j, w) ∷ m) = if text_eq j k then (j, v) ∷ m else (j, w) ∷ insert k v m

  unfoldable pub delete : Text → Map V → Map V
  delete k [] = []
  delete k ((j, v) ∷ m) = if text_eq j k then delete k m else (j, v) ∷ delete k m

  abbrev pub has : Text → Map V → Bool
  has k m = is_some (lookup k m)

  abbrev pub keys : Map V → List Text
  keys m = map (λ e. e.0) m

  pub lookup-insert :
      (k j : Text) (v : V) (m : Map V)
      → lookup j (insert k v m) ≡ (if text_eq k j then some v else lookup j m)
  unfolding lookup insert
  lookup-insert k j v [] = refl
  lookup-insert k j v ((i, w) ∷ m) =
      ground (arith, text_eq_iff k j, text_eq_iff i k, text_eq_iff i j, lookup-insert k j v m)

  pub lookup-delete :
      (k j : Text) (m : Map V) → lookup j (delete k m) ≡ (if text_eq k j then none else lookup j m)
  unfolding lookup delete
  lookup-delete k j [] = ground arith
  lookup-delete k j ((i, w) ∷ m) =
      ground (arith, text_eq_iff k j, text_eq_iff i k, text_eq_iff i j, lookup-delete k j m)

  -- What a lookup finds stands in the list.
  pub lookup-In : (k : Text) (m : Map V) (v : V) → lookup k m ≡ some v → In (k, v) m
  unfolding lookup
  lookup-In k [] v h = cc
  lookup-In k ((j, w) ∷ m) v h = elim (Bool-cases (text_eq j k)) [
    | inl e ↦
        let same : j ≡ k = text_eq_sound j k e in
        let value : w ≡ v = ground arith in rw (same, value) here
    | inr e ↦ there (lookup-In k m v (rw e at h))
  ]

module _ {ℓ} {V : Type ℓ} where
  -- No key stands twice: an entry is what a lookup of its key finds.
  abbrev pub IsUnique : Map V → Type ℓ
  IsUnique m = (k : Text) (v : V) → In (k, v) m → lookup k m ≡ some v

  pub has_of_In : (k : Text) (v : V) (m : Map V) → In (k, v) m → has k m ≡ true
  unfolding lookup
  has_of_In k v [] i = elim i [ ]
  has_of_In k v ((j, w) ∷ m) i = elim (In-cons_cases i) [
    | inl e ↦ let same : k ≡ j = ap (λ p. p.0) e in rw (same, text_eq_refl j)
    | inr i' ↦ elim (Bool-cases (text_eq j k)) [ inl e ↦ rw e | inr e ↦ rw e (has_of_In k v m i') ]
  ]

  pub In-delete :
      (d : Text) (m : Map V) {k : Text} {v : V} → In (k, v) m → d ≢ k → In (k, v) (delete d m)
  unfolding delete
  In-delete d [] i ne = elim i [ ]
  In-delete d ((j, w) ∷ m) {k} {v} i ne = elim (In-cons_cases i) [
    | inl e ↦
        let key : k ≡ j = ap (λ p. p.0) e in
        let other : text_eq j d ≡ false = text_ne j d (λ s. ne (sym s ∙ sym key)) in
        rw (other, e) here
    | inr i' ↦ elim (Bool-cases (text_eq j d)) [
      | inl e ↦ rw e (In-delete d m i' ne)
      | inr e ↦ rw e (there (In-delete d m i' ne))
    ]
  ]

  pub In-of-delete :
      (d : Text) (m : Map V) {k : Text} {v : V} → In (k, v) (delete d m) → In (k, v) m × (d ≢ k)
  unfolding delete
  In-of-delete d [] i = elim i [ ]
  In-of-delete d ((j, w) ∷ m) {k} {v} i = elim (Bool-cases (text_eq j d)) [
    | inl e ↦ let (a, b) = In-of-delete d m (rw e at i) in (there a, b)
    | inr e ↦ elim (In-cons_cases (rw e at i)) [
      | inl q ↦
          let key : k ≡ j = ap (λ p. p.0) q in
          (rw q here, λ s. let t : text_eq j d ≡ true = (text_eq_iff j d).1 (sym key ∙ sym s) in cc)
      | inr i' ↦ let (a, b) = In-of-delete d m i' in (there a, b)
    ]
  ]

  pub delete-IsUnique : (d : Text) (m : Map V) → IsUnique m → IsUnique (delete d m)
  delete-IsUnique d m u k v i =
      let (i', ne) = In-of-delete d m i in rw (lookup-delete d k m, text_ne d k ne) (u k v i')

module _ {ℓ} {V : Type ℓ} where
  -- A new key is entered at the end.
  pub insert_new :
      (k : Text) (v : V) (m : Map V) → lookup k m ≡ none → insert k v m ≡ m ++ (k, v) ∷ []
  unfolding lookup insert
  insert_new k v [] h = refl
  insert_new k v ((j, w) ∷ m) h = elim (Bool-cases (text_eq j k)) [
    | inl e ↦ let bad : some w ≡ none = rw e at h in cc
    | inr e ↦
        let rest : lookup k m ≡ none = rw e at h in
        rw e (ap (λ t. (j, w) ∷ t) (insert_new k v m rest))
  ]

  pub insert-IsUnique :
      (k : Text) (v : V) (m : Map V) → lookup k m ≡ none → IsUnique m → IsUnique (insert k v m)
  insert-IsUnique k v m new u j w i =
      elim (In-append_cases m ((k, v) ∷ []) (rw (insert_new k v m new) at i)) [
        | inl old ↦
            let found : lookup j m ≡ some w = u j w old in
            ground (arith, lookup-insert k j v m, text_eq_iff k j)
        | inr last ↦ elim (In-cons_cases last) [
          | inl e ↦
              let key : j ≡ k = ap (λ p. p.0) e in
              let value : w ≡ v = ap (λ p. p.1) e in
              ground (arith, lookup-insert k j v m, text_eq_iff k j)
          | inr none_left ↦ elim none_left [ ]
        ]
      ]

pub In-insert_cases {ℓ} :
    {V : Type ℓ} (p : Text) (u : V) (m : Map V) {q : Text} {v : V}
    → In (q, v) (insert p u m)
    → ((q ≡ p) × (v ≡ u)) ⊎ In (q, v) m
unfolding insert
In-insert_cases p u [] i = elim (In-cons_cases i) [
  | inl e ↦ inl (ap (λ x. x.0) e, ap (λ x. x.1) e)
  | inr none_left ↦ elim none_left [ ]
]
In-insert_cases p u ((j, w) ∷ m) {q} {v} i = elim (Bool-cases (text_eq j p)) [
  | inl e ↦ elim (In-cons_cases (rw (e, insert) at i)) [
    | inl e' ↦ inl (ap (λ x. x.0) e' ∙ text_eq_sound j p e, ap (λ x. x.1) e')
    | inr old ↦ inr (there old)
  ]
  | inr e ↦ elim (In-cons_cases (rw (e, insert) at i)) [
    | inl e' ↦ inr (subst (λ x. In x ((j, w) ∷ m)) (sym e') here)
    | inr later ↦ elim (In-insert_cases p u m later) [
      | inl same ↦ inl same
      | inr old ↦ inr (there old)
    ]
  ]
]

-- An inserted key takes no other away.
pub insert_keeps {ℓ} :
    {V : Type ℓ} (p : Text) (u : V) (m : Map V) {q : Text} {v : V}
    → In (q, v) m
    → (w : V) × In (q, w) (insert p u m)
unfolding insert
insert_keeps p u [] i = elim i [ ]
insert_keeps {V = V} p u ((j, w) ∷ m) {q} {v} i =
    if_either (λ (n : Map V). (x : V) × In (q, x) n) (text_eq j p)
      (λ e. elim (In-cons_cases i) [
        | inl same ↦ (u, subst (λ k. In (k, u) ((j, u) ∷ m)) (sym (ap (λ y. y.0) same)) here)
        | inr later ↦ (v, there later)
      ])
      (λ e. elim (In-cons_cases i) [
        | inl same ↦
            (w, subst (λ k. In (k, w) ((j, w) ∷ insert p u m)) (sym (ap (λ y. y.0) same)) here)
        | inr later ↦ let (x, k) = insert_keeps p u m later in (x, there k)
      ])

-- No key stands twice in the list.
pub data AreDistinct {ℓ} {V : Type ℓ} : Map V → Type ℓ where
  none_twice : AreDistinct []
  one_more :
      (p : Text) (h : V) (m : Map V) → lookup p m ≡ none → AreDistinct m → AreDistinct ((p, h) ∷ m)

pub insert-AreDistinct {ℓ} :
    {V : Type ℓ} (p : Text) (h : V) (m : Map V) → AreDistinct m → AreDistinct (insert p h m)
unfolding insert lookup
insert-AreDistinct p h [] none_twice = one_more p h [] refl none_twice
insert-AreDistinct p h ((j, w) ∷ m) (one_more _ _ _ new d) =
    if_either AreDistinct (text_eq j p) (λ e. one_more j h m new d)
      (λ e.
        let other : lookup j (insert p h m) ≡ none =
          ground (arith, lookup-insert p j h m, text_eq_iff p j, text_eq_iff j p) in
        one_more j w (insert p h m) other (insert-AreDistinct p h m d))

pub distinct_lookup {ℓ} :
    {V : Type ℓ} (m : Map V)
    → AreDistinct m
    → {q : Text} {v : V} → In (q, v) m
    → lookup q m ≡ some v
unfolding lookup
distinct_lookup [] d i = elim i [ ]
distinct_lookup ((p, h) ∷ m) (one_more _ _ _ new d) {q} {v} i = elim (In-cons_cases i) [
  | inl e ↦
      let key : q ≡ p = ap (λ y. y.0) e in
      let value : v ≡ h = ap (λ y. y.1) e in rw (key, value, text_eq_refl p) refl
  | inr later ↦
      let found : lookup q m ≡ some v = distinct_lookup m d later in
      let other : text_eq p q ≡ false = ground (arith, text_eq_iff p q) in rw (other, found) refl
]
