-- ===== src/Contract/Glob.antt =====
-- contract/contract.go, globMatch: '*' stands for any run of bytes. The functions of package
-- strings that it calls are written out over bytes.
pub mod Spec
pub mod Search
pub mod Laws
mod Tests
use egop.Prelude.{
  Text, text_eq, ℕ, ◌==◌, if◌then◌else◌, Bool, true, false, ◌||◌, List, [], ◌∷◌, Option, none, some,
}

unfoldable pub push : ℕ → List Text → List Text
push c [] = []
push c (p ∷ ps) = (c ∷ p) ∷ ps

-- strings.Split(s, sep) for a separator of one byte.
unfoldable pub split : ℕ → Text → List Text
split sep [] = [] ∷ []
split sep (c ∷ s) = if c == sep then [] ∷ split sep s else push c (split sep s)

-- strings.Contains(s, c) for one byte.
unfoldable pub has_byte : ℕ → Text → Bool
has_byte c [] = false
has_byte c (d ∷ s) = d == c || has_byte c s

-- strings.HasPrefix(s, p), with s[len(p):] where it holds.
unfoldable pub strip_prefix : Text → Text → Option Text
strip_prefix [] s = some s
strip_prefix (c ∷ p) [] = none
strip_prefix (c ∷ p) (d ∷ s) = if c == d then strip_prefix p s else none

-- strings.Index(s, p), the leftmost place, with s[idx+len(p):] where there is one.
unfoldable pub cut_after : Text → Text → Option Text
cut_after p [] = strip_prefix p []
cut_after p (d ∷ s) =
    let later = cut_after p s in elim (strip_prefix p (d ∷ s)) [ some r ↦ some r | none ↦ later ]

-- strings.HasSuffix(s, p).
unfoldable pub has_suffix : Text → Text → Bool
has_suffix p [] = text_eq [] p
has_suffix p (d ∷ s) = text_eq (d ∷ s) p || has_suffix p s

-- The loop over parts[1 : len(parts)-1], then the test of the last part.
unfoldable pub glob_rest : List Text → Text → Bool
glob_rest [] s = true
glob_rest (p ∷ []) s = has_suffix p s
glob_rest (p ∷ q ∷ ps) s = elim (cut_after p s) [ none ↦ false | some r ↦ glob_rest (q ∷ ps) r ]

unfoldable pub glob_parts : List Text → Text → Bool
glob_parts [] s = true
glob_parts (p ∷ ps) s = elim (strip_prefix p s) [ none ↦ false | some r ↦ glob_rest ps r ]

unfoldable pub glob_match : Text → Text → Bool
glob_match pattern s =
    if has_byte b'*' pattern then glob_parts (split b'*' pattern) s else text_eq pattern s
