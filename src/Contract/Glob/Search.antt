-- ===== src/Contract/Glob/Search.antt =====
-- contract/contract.go: the greedy search of globMatch and the cuttings of a topic.
use egop.Prelude.{
  Text, text_eq, text_eq_sound, text_eq_refl, ℕ, suc, ◌≤◌, ◌==◌, ==_iff, length, length-append,
  Bool-cases, Option-cases, true, List, [], ◌∷◌, ◌++◌, append_assoc, none, some, ◌≡◌, ◌∙◌, refl,
  sym, inl, inr, arith,
}
use egop.Contract.Glob.{strip_prefix, cut_after, has_suffix}

-- What follows any run.
pub record After (M : Text → Type 0) (r : Text) : Type 0 where
  pub skipped : Text
  pub left : Text
  pub cut : r ≡ skipped ++ left
  pub fits : M left

-- The topic is cut into these parts, with any runs between them.
abbrev pub Matches : List Text → Text → Type 0
Matches [] t = ⊥
Matches (q ∷ []) t = t ≡ q
Matches (q ∷ p ∷ ps) t = (r : Text) × (t ≡ q ++ r) × After (Matches (p ∷ ps)) r

-- The same after any run.
abbrev pub Rest : List Text → Text → Type 0
Rest ps r = After (Matches ps) r

pub strip_sound : (p s r : Text) → strip_prefix p s ≡ some r → s ≡ p ++ r
unfolding strip_prefix
strip_sound [] s r e = cc
strip_sound (c ∷ p) [] r e = cc
strip_sound (c ∷ p) (d ∷ s) r e = elim (Bool-cases (c == d)) [
  | inl same ↦
      let byte : c ≡ d = (==_iff c d).0 same in
      let rest : s ≡ p ++ r = strip_sound p s r (rw same at e) in rw (byte, rest) refl
  | inr differ ↦ let bad : none ≡ some r = rw differ at e in cc
]

pub strip_complete : (p r : Text) → strip_prefix p (p ++ r) ≡ some r
unfolding strip_prefix
strip_complete [] r = refl
strip_complete (c ∷ p) r = ground (arith, strip_complete p r)

-- Of two ends of one text the longer ends in the shorter.
longer_end :
    (xs ys r u : Text) → xs ++ r ≡ ys ++ u → length xs ≤ length ys → (b : Text) × (r ≡ b ++ u)
longer_end [] ys r u e short = (ys, e)
longer_end (x ∷ xs) [] r u e short = elim (none_shorter short) [ ]
  where
    none_shorter : {n : ℕ} → suc n ≤ 0 → ⊥
    none_shorter le = omega arith
longer_end (x ∷ xs) (y ∷ ys) r u e short =
    let tails : xs ++ r ≡ ys ++ u = cc in longer_end xs ys r u tails (omega arith)

pub cut_sound : (p s r : Text) → cut_after p s ≡ some r → (a : Text) × (s ≡ a ++ (p ++ r))
unfolding cut_after
cut_sound p [] r e = ([], strip_sound p [] r e)
cut_sound p (d ∷ s) r e = elim (Option-cases (strip_prefix p (d ∷ s))) [
  | inl absent ↦
      let later : cut_after p s ≡ some r = rw (absent, cut_after) at e in
      let (a, cut) = cut_sound p s r later in (d ∷ a, rw cut refl)
  | inr (r', found) ↦
      let same : some r' ≡ some r = rw (found, cut_after) at e in
      ([], strip_sound p (d ∷ s) r (found ∙ same))
]

-- What the leftmost search leaves ends in what any cutting leaves.
pub cut_complete :
    (p a r s : Text)
    → s ≡ a ++ (p ++ r)
    → (r' : Text) × (cut_after p s ≡ some r') × (b : Text) × (r' ≡ b ++ r)
unfolding cut_after
cut_complete p [] r [] e = (r, rw e (strip_complete p r), [], refl)
cut_complete p (x ∷ a) r [] e = cc
cut_complete p [] r (d ∷ s) e =
    let found : strip_prefix p (d ∷ s) ≡ some r = rw e (strip_complete p r) in
    (r, rw (found, cut_after) refl, [], refl)
cut_complete p (x ∷ a) r (d ∷ s) e = elim (Option-cases (strip_prefix p (d ∷ s))) [
  | inr (r', found) ↦
      let whole : p ++ r' ≡ ((x ∷ a) ++ p) ++ r =
        sym (strip_sound p (d ∷ s) r' found) ∙ e ∙ sym (append_assoc (x ∷ a) p r) in
      let (b, ends) =
        longer_end p ((x ∷ a) ++ p) r' r whole (omega (arith, length-append (x ∷ a) p)) in
      (r', rw (found, cut_after) refl, b, ends)
  | inl absent ↦
      let rest : s ≡ a ++ (p ++ r) = cc in
      let (r', found, b, ends) = cut_complete p a r s rest in
      (r', rw (absent, cut_after) found, b, ends)
]

pub suffix_sound : (p s : Text) → has_suffix p s ≡ true → (a : Text) × (s ≡ a ++ p)
unfolding has_suffix
suffix_sound p [] e = ([], text_eq_sound [] p e)
suffix_sound p (d ∷ s) e = elim (Bool-cases (text_eq (d ∷ s) p)) [
  | inl same ↦ ([], text_eq_sound (d ∷ s) p same)
  | inr differ ↦ let (a, cut) = suffix_sound p s (rw differ at e) in (d ∷ a, rw cut refl)
]

pub suffix_complete : (p a : Text) → has_suffix p (a ++ p) ≡ true
unfolding has_suffix text_eq
suffix_complete [] [] = refl
suffix_complete (c ∷ p) [] = rw (text_eq_refl (c ∷ p)) refl
suffix_complete p (d ∷ a) = ground (arith, suffix_complete p a)
