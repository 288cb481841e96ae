-- ===== src/Prelude/Texts.antt =====
-- A Go string is a list of bytes; a literal is the list of its codes. `text_eq` is Go's `==`.
use Prim.Native.Nat.{ℕ}
use Prim.Native.Char.{code}
use Prim.Native.String.{String}
use mathlib.Core.Path.{◌≡◌, refl}
use mathlib.Core.Logic.{◌↔◌, ◌⊎◌, ◌≢◌, inl, inr}
use mathlib.Core.Bool.{Bool, true, false, ◌&&◌}
use mathlib.Core.List.{List, [], ◌∷◌}
use native.Mathlib.Omega.{arith}
use egop.Prelude.Tests.{◌==◌, Bool-cases}
use egop.Prelude.Lists.{In, any, any_at, any_find}

abbrev pub Text : Type 0
Text = List ℕ

abbrev pub codes : String → Text
codes String.[] = []
codes (String.◌∷◌ c s) = code c ∷ codes s

unfoldable pub text_eq : Text → Text → Bool
text_eq [] [] = true
text_eq (x ∷ xs) (y ∷ ys) = x == y && text_eq xs ys
text_eq _ _ = false

pub text_eq_sound : (a b : Text) → text_eq a b ≡ true → a ≡ b
unfolding text_eq
text_eq_sound [] [] h = refl
text_eq_sound (x ∷ xs) (y ∷ ys) h = ground (arith, text_eq_sound xs ys)
text_eq_sound [] (y ∷ ys) h = cc
text_eq_sound (x ∷ xs) [] h = cc

pub text_eq_refl : (a : Text) → text_eq a a ≡ true
unfolding text_eq
text_eq_refl [] = refl
text_eq_refl (x ∷ xs) = ground (arith, text_eq_refl xs)

pub text_eq_iff : (a b : Text) → (text_eq a b ≡ true) ↔ (a ≡ b)
text_eq_iff a b = (text_eq_sound a b, λ e. rw e (text_eq_refl b))

pub text_ne : (a b : Text) → a ≢ b → text_eq a b ≡ false
text_ne a b h = elim (Bool-cases (text_eq a b)) [
  | inl e ↦ absurd (h (text_eq_sound a b e))
  | inr e ↦ e
]

pub Text-cases : (a b : Text) → (a ≡ b) ⊎ (a ≢ b)
Text-cases a b = elim (Bool-cases (text_eq a b)) [
  | inl e ↦ inl (text_eq_sound a b e)
  | inr e ↦ inr (λ p. let same : text_eq a b ≡ true = (text_eq_iff a b).1 p in cc)
]

-- The test `s == ""`.
abbrev pub is_empty : Text → Bool
is_empty [] = true
is_empty (_ ∷ _) = false

-- A Go `map[string]bool` built from a list and asked for a key.
unfoldable pub contains : List Text → Text → Bool
contains xs a = any (λ x. text_eq x a) xs

pub contains_find : (xs : List Text) (a : Text) → contains xs a ≡ true → In a xs
unfolding contains
contains_find xs a h =
    let (x, m, e) = any_find (λ x. text_eq x a) xs h in
    let same : x ≡ a = text_eq_sound x a e in rw same at m

pub contains_at : (xs : List Text) (a : Text) → In a xs → contains xs a ≡ true
unfolding contains
contains_at xs a m = any_at (λ x. text_eq x a) xs m (text_eq_refl a)
