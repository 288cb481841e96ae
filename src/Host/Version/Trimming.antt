-- ===== src/Host/Version/Trimming.antt =====
-- host/register.go, versionAtLeast: strings.TrimSpace, for the ASCII spaces.
use egop.Prelude.{
  Text, ℕ, Bool-cases, true, false, [], ◌∷◌, ◌++◌, In, In-cons_cases, here, there, ◌≡◌, ◌⊎◌, refl,
  sym, subst, ap, ◌∙◌, inl, inr,
}
use mathlib.Core.List.{reverse, reverse_aux, reverse-append, reverse-reverse}
use egop.Host.Version.{is_space, trim_left, trim_space}

abbrev pub AreSpaces : Text → Type 0
AreSpaces s = (c : ℕ) → In c s → is_space c ≡ true

-- A text without the spaces around it.
pub record IsTrimmed (s t : Text) : Type 0 where
  pub left : Text
  pub right : Text
  pub parts : s ≡ left ++ (t ++ right)
  pub blank_left : AreSpaces left
  pub blank_right : AreSpaces right
  pub starts : (c : ℕ) (u : Text) → t ≡ c ∷ u → is_space c ≡ false
  pub ends : (u : Text) (c : ℕ) → t ≡ u ++ c ∷ [] → is_space c ≡ false

abbrev Starts : Text → Type 0
Starts t = (c : ℕ) (u : Text) → t ≡ c ∷ u → is_space c ≡ false

trim_left_lem :
    (s : Text) → (l : Text) × (s ≡ l ++ trim_left s) × AreSpaces l × Starts (trim_left s)
unfolding trim_left
trim_left_lem [] = ([], refl, (λ c i. elim i [ ]), (λ c u e. cc))
trim_left_lem (c ∷ s) = elim (Bool-cases (is_space c)) [
  | inl space ↦
      let (l, parts, blank, starts) = trim_left_lem s in
      rw space (
        c ∷ l,
        ap (λ x. c ∷ x) parts,
        (λ d i. elim (In-cons_cases i) [
          | inl e ↦ subst (λ x. is_space x ≡ true) (sym e) space
          | inr later ↦ blank d later
        ]),
        starts,
      )
  | inr other ↦ rw other (
    [],
    refl,
    (λ d i. elim i [ ]),
    (λ d u e. let same : c ≡ d = cc in subst (λ x. is_space x ≡ false) same other),
  )
]

In-reverse_aux : (l r : Text) {c : ℕ} → In c (reverse_aux l r) → In c l ⊎ In c r
In-reverse_aux [] r i = inr i
In-reverse_aux (x ∷ l) r i = elim (In-reverse_aux l (x ∷ r) i) [
  | inl before ↦ inl (there before)
  | inr after ↦ elim (In-cons_cases after) [
    | inl e ↦ inl (subst (λ y. In y (x ∷ l)) (sym e) here)
    | inr later ↦ inr later
  ]
]

reversed-AreSpaces : (l : Text) → AreSpaces l → AreSpaces (reverse l)
reversed-AreSpaces l blank c i = elim (In-reverse_aux l [] i) [
  | inl before ↦ blank c before
  | inr none_left ↦ elim none_left [ ]
]

-- strings.TrimSpace takes the spaces on both sides away, and no more.
pub trim_space-IsTrimmed : (s : Text) → IsTrimmed s (trim_space s)
unfolding trim_space
trim_space-IsTrimmed s =
    let (l, parts, blank, starts) = trim_left_lem s in
    let a = trim_left s in
    let (l', parts', blank', starts') = trim_left_lem (reverse a) in
    let b = trim_left (reverse a) in
    let back : a ≡ reverse b ++ reverse l' =
      sym (reverse-reverse a) ∙ ap reverse parts' ∙ reverse-append l' b in
    record {
      left = l;
      right = reverse l';
      parts = parts ∙ ap (λ x. l ++ x) back;
      blank_left = blank;
      blank_right = reversed-AreSpaces l' blank';
      starts = λ c u e. starts c (u ++ reverse l') (back ∙ ap (λ x. x ++ reverse l') e);
      ends = λ u c e.
          starts' c (reverse u)
            (sym (reverse-reverse b) ∙ ap reverse e ∙ reverse-append u (c ∷ []));
    }
