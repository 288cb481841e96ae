-- ===== src/Host/Version.antt =====
-- host/register.go, versionAtLeast, with the parts of packages strings and strconv that it calls.
-- strings.TrimSpace is written out for the ASCII spaces.
pub mod Trimming
pub mod Segments
pub mod Order
mod Tests
use egop.Prelude.{
  Text, is_empty, ℕ, ◌+◌, ◌-◌, ◌*◌, ◌==◌, ltb, leb, if◌then◌else◌, Bool, true, false, ◌&&◌, ◌||◌,
  not, List, [], ◌∷◌, Option, none, some,
}
use mathlib.Core.List.{reverse}
use egop.Contract.Glob.{split}

-- `negsuc n` is -(n + 1).
pub data ℤ : Type 0 where
  pos negsuc : ℕ → ℤ

unfoldable pub int_eq : ℤ → ℤ → Bool
int_eq (pos a) (pos b) = a == b
int_eq (negsuc a) (negsuc b) = a == b
int_eq _ _ = false

unfoldable pub int_gt : ℤ → ℤ → Bool
int_gt (pos a) (pos b) = ltb b a
int_gt (pos a) (negsuc b) = true
int_gt (negsuc a) (pos b) = false
int_gt (negsuc a) (negsuc b) = ltb a b

unfoldable pub is_space : ℕ → Bool
is_space c = c == 32 || (leb 9 c && leb c 13)

unfoldable pub trim_left : Text → Text
trim_left [] = []
trim_left (c ∷ s) = if is_space c then trim_left s else c ∷ s

unfoldable pub trim_space : Text → Text
trim_space s = reverse (trim_left (reverse (trim_left s)))

-- strconv.ParseUint(s, 10, 64) without its error: a syntax error gives nothing, a value past the
-- range the largest one.
unfoldable pub parse_uint : ℕ → Text → Option ℕ
parse_uint n [] = some n
parse_uint n (c ∷ s) =
    let next = n * 10 + (c - b'0') in
    let rest = parse_uint next s in
    if not (leb b'0' c && leb c b'9')
    then none
    else if leb 18446744073709551616 next
    then some 18446744073709551615
    else rest

unfoldable pub parse_digits : Text → Option ℕ
parse_digits [] = none
parse_digits (c ∷ s) = parse_uint 0 (c ∷ s)

-- strconv.Atoi with its error dropped: 0 on a syntax error, the nearest int64 past the range.
unfoldable pub positive : Option ℕ → ℤ
positive none = pos 0
positive (some n) = if leb 9223372036854775808 n then pos 9223372036854775807 else pos n

unfoldable pub negative : Option ℕ → ℤ
negative none = pos 0
negative (some n) =
    if n == 0
    then pos 0
    else if ltb 9223372036854775808 n
    then negsuc 9223372036854775807
    else negsuc (n - 1)

unfoldable pub atoi : Text → ℤ
atoi [] = pos 0
atoi (c ∷ s) =
    if c == b'-'
    then negative (parse_digits s)
    else if c == b'+'
    then positive (parse_digits s)
    else positive (parse_digits (c ∷ s))

unfoldable pub segment : Text → ℤ
segment s = atoi (trim_space s)

-- The loop over the wanted segments; a segment that `got` lacks counts as 0.
unfoldable pub segments_at_least : List Text → List Text → Bool
segments_at_least g [] = true
segments_at_least [] (w ∷ ws) =
    if not (int_eq (pos 0) (segment w)) then int_gt (pos 0) (segment w) else segments_at_least [] ws
segments_at_least (g ∷ gs) (w ∷ ws) =
    if not (int_eq (segment g) (segment w))
    then int_gt (segment g) (segment w)
    else segments_at_least gs ws

unfoldable pub version_at_least : Text → Text → Bool
version_at_least got want =
    if is_empty want then true else segments_at_least (split b'.' got) (split b'.' want)
