-- ===== src/Host/Version/Order.antt =====
-- host/register.go: versionAtLeast against the comparison of versions segment by segment.
use egop.Prelude.{
  Text, is_empty, length, ℕ, zero, suc, ◌<◌, if◌then◌else◌, Bool-cases, true, false, not, List, [],
  ◌∷◌, ◌≡◌, ◌↔◌, ◌⊎◌, refl, sym, ap, ◌∙◌, inl, inr, arith,
}
use egop.Contract.Glob.{split}
use egop.Host.Version.Trimming.{IsTrimmed, trim_space-IsTrimmed}
use egop.Host.Version.Segments.{Reads, atoi-Reads}
use egop.Host.Version.{
  trim_space, ℤ, pos, negsuc, int_eq, int_gt, segment, segments_at_least, version_at_least,
}

-- The order of the integers.
pub data Greater : ℤ → ℤ → Type 0 where
  both_pos : (a b : ℕ) → b < a → Greater (pos a) (pos b)
  signs_differ : (a b : ℕ) → Greater (pos a) (negsuc b)
  both_negsuc : (a b : ℕ) → a < b → Greater (negsuc a) (negsuc b)

int_gt-Greater : (a b : ℤ) → int_gt a b ≡ true → Greater a b
unfolding int_gt
int_gt-Greater (pos a) (pos b) e = both_pos a b (ground arith)
int_gt-Greater (pos a) (negsuc b) e = signs_differ a b
int_gt-Greater (negsuc a) (pos b) e = cc
int_gt-Greater (negsuc a) (negsuc b) e = both_negsuc a b (ground arith)

Greater-int_gt : (a b : ℤ) → Greater a b → int_gt a b ≡ true
unfolding int_gt
Greater-int_gt _ _ (both_pos a b less) = ground arith
Greater-int_gt _ _ (signs_differ a b) = refl
Greater-int_gt _ _ (both_negsuc a b less) = ground arith

-- The number at a position of a version, 0 past its end.
abbrev pub part : List Text → ℕ → ℤ
part [] i = pos 0
part (s ∷ ss) zero = segment s
part (s ∷ ss) (suc i) = part ss i

-- The two versions agree below a position.
abbrev pub Agree : List Text → List Text → ℕ → Type 0
Agree got want n = (i : ℕ) → i < n → part got i ≡ part want i

-- At the first position where they differ, one of those that are asked for, `got` is greater.
abbrev pub Newer : List Text → List Text → Type 0
Newer got want = (n : ℕ) × (n < length want) × Agree got want n × Greater (part got n) (part want n)

int_eq_sound : (a b : ℤ) → int_eq a b ≡ true → a ≡ b
unfolding int_eq
int_eq_sound (pos a) (pos b) e = let same : a ≡ b = ground arith in ap pos same
int_eq_sound (negsuc a) (negsuc b) e = let same : a ≡ b = ground arith in ap negsuc same
int_eq_sound (pos a) (negsuc b) e = cc
int_eq_sound (negsuc a) (pos b) e = cc

int_eq_refl : (a : ℤ) → int_eq a a ≡ true
unfolding int_eq
int_eq_refl (pos a) = ground arith
int_eq_refl (negsuc a) = ground arith

int_gt-int_eq : (a b : ℤ) → int_gt a b ≡ true → int_eq a b ≡ false
unfolding int_eq int_gt
int_gt-int_eq (pos a) (pos b) e = ground arith
int_gt-int_eq (negsuc a) (negsuc b) e = ground arith
int_gt-int_eq (pos a) (negsuc b) e = refl
int_gt-int_eq (negsuc a) (pos b) e = refl

abbrev rest : List Text → List Text
rest [] = []
rest (s ∷ ss) = ss

part-rest : (g : List Text) (i : ℕ) → part g (suc i) ≡ part (rest g) i
part-rest [] i = refl
part-rest (s ∷ ss) i = refl

step :
    (g : List Text) (w : Text) (ws : List Text)
    → segments_at_least g (w ∷ ws) ≡ (
        if not (int_eq (part g 0) (segment w))
        then int_gt (part g 0) (segment w)
        else segments_at_least (rest g) ws)
unfolding segments_at_least
step [] w ws = refl
step (s ∷ ss) w ws = refl

no_position : {n : ℕ} → n < 0 → ⊥
no_position few = omega arith

shift-Agree :
    (g : List Text) (w : Text) (ws : List Text) (n : ℕ)
    → part g 0 ≡ segment w
    → Agree (rest g) ws n
    → Agree g (w ∷ ws) (suc n)
shift-Agree g w ws n first later zero few = first
shift-Agree g w ws n first later (suc i) few = part-rest g i ∙ later i (omega arith)

rest-Agree :
    (g : List Text) (w : Text) (ws : List Text) (n : ℕ)
    → Agree g (w ∷ ws) (suc n)
    → Agree (rest g) ws n
rest-Agree g w ws n agree i few = sym (part-rest g i) ∙ agree (suc i) (omega arith)

segments_sound :
    (g ws : List Text) → segments_at_least g ws ≡ true → Agree g ws (length ws) ⊎ Newer g ws
segments_sound g [] e = inl (λ i few. elim (no_position few) [ ])
segments_sound g (w ∷ ws) e = elim (Bool-cases (int_eq (part g 0) (segment w))) [
  | inr differ ↦ inr (
    0,
    omega arith,
    (λ i few. elim (no_position few) [ ]),
    int_gt-Greater (part g 0) (segment w) (rw (step g w ws, differ) at e),
  )
  | inl same ↦
      let first : part g 0 ≡ segment w = int_eq_sound (part g 0) (segment w) same in
      elim (segments_sound (rest g) ws (rw (step g w ws, same) at e)) [
        | inl later ↦ inl (shift-Agree g w ws (length ws) first later)
        | inr (n, few, later, more) ↦
            inr (suc n, omega arith, shift-Agree g w ws n first later, rw (part-rest g n) more)
      ]
]

segments_complete :
    (g ws : List Text) → Agree g ws (length ws) ⊎ Newer g ws → segments_at_least g ws ≡ true
unfolding segments_at_least
segments_complete g [] either = refl
segments_complete g (w ∷ ws) (inl agree) =
    let same : int_eq (part g 0) (segment w) ≡ true =
      rw (agree 0 (omega arith)) (int_eq_refl (segment w)) in
    rw (step g w ws, same)
      (segments_complete (rest g) ws (inl (rest-Agree g w ws (length ws) agree)))
segments_complete g (w ∷ ws) (inr (zero, few, agree, more)) =
    let above = Greater-int_gt (part g 0) (segment w) more in
    rw (step g w ws, int_gt-int_eq (part g 0) (segment w) above) above
segments_complete g (w ∷ ws) (inr (suc n, few, agree, more)) =
    let same : int_eq (part g 0) (segment w) ≡ true =
      rw (agree 0 (omega arith)) (int_eq_refl (segment w)) in
    rw (step g w ws, same)
      (segments_complete (rest g) ws
        (inr (n, omega arith, rest-Agree g w ws n agree, rw (part-rest g n) at more)))

-- The number of a segment: what the text without the spaces around it reads as.
abbrev pub Stands : Text → ℤ → Type 0
Stands s z = (t : Text) × IsTrimmed s t × Reads t z

segment-Stands : (s : Text) → Stands s (segment s)
unfolding segment
segment-Stands s = (trim_space s, trim_space-IsTrimmed s, atoi-Reads (trim_space s))

-- Every segment counts as the decimal number that it writes, with a sign or without, kept within int64,
-- and one that is no number counts as 0, also one that differs from the other version's as a text. A
-- version is at least another that is not empty exactly if their numbers agree at every position of the
-- wanted one, or the first that differs is greater in the version at hand; positions past the end count
-- as 0.
pub version_at_least_iff :
    (got want : Text)
    → is_empty want ≡ false
    → ((s : Text) → Stands s (segment s))
      × ((version_at_least got want ≡ true) ↔ (
          Agree (split b'.' got) (split b'.' want) (length (split b'.' want))
          ⊎ Newer (split b'.' got) (split b'.' want)))
unfolding version_at_least
version_at_least_iff got want asked = (
  segment-Stands,
  rw (asked, version_at_least)
      (
        segments_sound (split b'.' got) (split b'.' want),
        segments_complete (split b'.' got) (split b'.' want),
      ),
)
