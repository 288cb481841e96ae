-- ===== src/Contract/Glob/Laws.antt =====
-- contract/contract.go: globMatch and the relation Glob.
use egop.Prelude.{
  Text, text_eq_iff, ℕ, ◌==◌, Bool-cases, Option-cases, true, false, List, [], ◌∷◌, ◌++◌,
  append_assoc, ◌≡◌, ◌≢◌, ◌↔◌, ◌∙◌, refl, sym, subst, ap, inl, inr, arith,
}
use egop.Contract.Glob.{
  push, split, has_byte, strip_prefix, cut_after, glob_rest, glob_parts, glob_match,
}
use egop.Contract.Glob.Spec.{Glob, done, literal, star_end, star_more}
use egop.Contract.Glob.Search.{
  Matches, Rest, strip_sound, strip_complete, cut_sound, cut_complete, suffix_sound,
  suffix_complete,
}

glob_rest-Rest :
    (p : Text) (ps : List Text) (s : Text) → glob_rest (p ∷ ps) s ≡ true → Rest (p ∷ ps) s
unfolding glob_rest
glob_rest-Rest p [] s e =
    let (a, cut) = suffix_sound p s e in record { skipped = a; left = p; cut = cut; fits = refl }
glob_rest-Rest p (q ∷ ps) s e = elim (Option-cases (cut_after p s)) [
  | inl absent ↦ let bad : false ≡ true = rw (absent, glob_rest) at e in cc
  | inr (r, found) ↦
      let (a, cut) = cut_sound p s r found in
      record {
        skipped = a;
        left = p ++ r;
        cut = cut;
        fits = (r, refl, glob_rest-Rest q ps r (rw (found, glob_rest) at e));
      }
]

Rest-glob_rest :
    (p : Text) (ps : List Text) (s : Text) → Rest (p ∷ ps) s → glob_rest (p ∷ ps) s ≡ true
unfolding glob_rest
Rest-glob_rest p [] s w = rw (w.cut, w.fits) (suffix_complete p w.skipped)
Rest-glob_rest p (q ∷ ps) s w =
    let (r, start, v) = w.fits in
    let place : s ≡ w.skipped ++ (p ++ r) = w.cut ∙ ap (λ t. w.skipped ++ t) start in
    let (r', found, b, ends) = cut_complete p w.skipped r s place in
    let wider : r' ≡ (b ++ v.skipped) ++ v.left =
      ends ∙ ap (λ t. b ++ t) v.cut ∙ sym (append_assoc b v.skipped v.left) in
    rw (found, glob_rest)
      (Rest-glob_rest q ps r'
        (record { skipped = b ++ v.skipped; left = v.left; cut = wider; fits = v.fits }))

parts_iff :
    (p q : Text) (ps : List Text) (s : Text)
    → (glob_parts (p ∷ q ∷ ps) s ≡ true) ↔ Matches (p ∷ q ∷ ps) s
unfolding glob_parts
parts_iff p q ps s = (
  (λ e. elim (Option-cases (strip_prefix p s)) [
    | inl absent ↦ let bad : false ≡ true = rw (absent, glob_parts) at e in cc
    | inr (r, found) ↦
        (r, strip_sound p s r found, glob_rest-Rest q ps r (rw (found, glob_parts) at e))
  ]),
  (λ (r, start, rest). rw (start, strip_complete p r, glob_parts) (Rest-glob_rest q ps r rest)),
)

-- A pattern has a first part.
split_cons : (p : Text) → (q : Text) × (qs : List Text) × (split b'*' p ≡ q ∷ qs)
unfolding split push
split_cons [] = ([], [], refl)
split_cons (c ∷ p) =
    let (q, qs, e) = split_cons p in
    elim (Bool-cases (c == b'*')) [
      | inl star ↦ ([], q ∷ qs, rw (star, e, split) refl)
      | inr other ↦ (c ∷ q, qs, rw (other, e, split) refl)
    ]

push_intro :
    (c : ℕ) (q : Text) (qs : List Text) (s : Text)
    → Matches (q ∷ qs) s
    → Matches ((c ∷ q) ∷ qs) (c ∷ s)
push_intro c q [] s same = rw same refl
push_intro c q (p ∷ ps) s (r, start, rest) = (r, rw start refl, rest)

push_elim :
    (c : ℕ) (q : Text) (qs : List Text) (s : Text)
    → Matches ((c ∷ q) ∷ qs) s
    → (t : Text) × (s ≡ c ∷ t) × Matches (q ∷ qs) t
push_elim c q [] s same = (q, same, refl)
push_elim c q (p ∷ ps) s (r, start, rest) = (q ++ r, start, (r, refl, rest))

stars : (c : ℕ) (p a u : Text) → c ≡ b'*' → Glob p u → Glob (c ∷ p) (a ++ u)
stars c p [] u star g = star_end star g
stars c p (x ∷ a) u star g = star_more star (stars c p a u star g)

split_some : (p : Text) → split b'*' p ≢ []
split_some p = let (q, qs, e) = split_cons p in λ empty. let bad : q ∷ qs ≡ [] = sym e ∙ empty in cc

star_parts : (ps : List Text) (s : Text) → ps ≢ [] → Matches ([] ∷ ps) s ↔ Rest ps s
star_parts [] s some_part = elim (some_part refl) [ ]
star_parts (q ∷ qs) s some_part =
    ((λ m. subst (λ t. Rest (q ∷ qs) t) (sym m.1) m.2), (λ w. (s, refl, w)))

push_parts :
    (c : ℕ) (ps : List Text) (s : Text)
    → ps ≢ []
    → Matches (push c ps) s ↔ ((t : Text) × (s ≡ c ∷ t) × Matches ps t)
unfolding push
push_parts c [] s some_part = elim (some_part refl) [ ]
push_parts c (q ∷ qs) s some_part = (
  push_elim c q qs s,
  (λ m. subst (λ u. Matches ((c ∷ q) ∷ qs) u) (sym m.1) (push_intro c q qs m.0 m.2)),
)

-- What the first byte of a pattern asks for.
star_step :
    (c : ℕ) (p s : Text)
    → (c == b'*') ≡ true
    → Matches (split b'*' (c ∷ p)) s ↔ Rest (split b'*' p) s
unfolding split
star_step c p s star = rw (star, split) (star_parts (split b'*' p) s (split_some p))

plain_step :
    (c : ℕ) (p s : Text)
    → (c == b'*') ≡ false
    → Matches (split b'*' (c ∷ p)) s ↔ ((t : Text) × (s ≡ c ∷ t) × Matches (split b'*' p) t)
unfolding split
plain_step c p s other = rw (other, split) (push_parts c (split b'*' p) s (split_some p))

Glob-Matches : {p s : Text} → Glob p s → Matches (split b'*' p) s
unfolding split
Glob-Matches done = refl
Glob-Matches (literal {c} {p} {s} other g) =
    (plain_step c p (c ∷ s) (ground (arith, other))).1 (s, refl, Glob-Matches g)
Glob-Matches (star_end {c} {p} {s} star g) =
    (star_step c p s (ground arith)).1
      (record { skipped = []; left = s; cut = refl; fits = Glob-Matches g })
Glob-Matches (star_more {c} {d} {p} {s} star g) =
    let w : Rest (split b'*' p) s = (star_step c p s (ground arith)).0 (Glob-Matches g) in
    (star_step c p (d ∷ s) (ground arith)).1 (record {
      skipped = d ∷ w.skipped;
      left = w.left;
      cut = ap (λ t. d ∷ t) w.cut;
      fits = w.fits;
    })

Matches-Glob : (p s : Text) → Matches (split b'*' p) s → Glob p s
unfolding split
Matches-Glob [] s same = rw same done
Matches-Glob (c ∷ p) s m = elim (Bool-cases (c == b'*')) [
  | inl star ↦
      let w : Rest (split b'*' p) s = (star_step c p s star).0 m in
      rw w.cut (stars c p w.skipped w.left (ground arith) (Matches-Glob p w.left w.fits))
  | inr other ↦
      let (t, cut, rest) = (plain_step c p s other).0 m in
      rw cut (literal (ground arith) (Matches-Glob p t rest))
]

no_star_split : (p : Text) → has_byte b'*' p ≡ false → split b'*' p ≡ p ∷ []
unfolding split has_byte push
no_star_split [] e = refl
no_star_split (c ∷ p) e =
    let plain : (c == b'*') ≡ false = ground arith in
    rw (plain, no_star_split p (ground arith), split, push) refl

star_split :
    (p : Text)
    → has_byte b'*' p ≡ true
    → (q q' : Text) × (qs : List Text) × (split b'*' p ≡ q ∷ q' ∷ qs)
unfolding split has_byte push
star_split [] e = cc
star_split (c ∷ p) e = elim (Bool-cases (c == b'*')) [
  | inl star ↦ let (q, qs, rest) = split_cons p in ([], q, qs, rw (star, rest, split) refl)
  | inr other ↦
      let (q, q', qs, rest) = star_split p (ground arith) in
      (c ∷ q, q', qs, rw (other, rest, split, push) refl)
]

match_iff : (p s : Text) → (glob_match p s ≡ true) ↔ Matches (split b'*' p) s
unfolding glob_match
match_iff p s = elim (Bool-cases (has_byte b'*' p)) [
  | inl star ↦
      let (q, q', qs, e) = star_split p star in rw (star, e, glob_match) (parts_iff q q' qs s)
  | inr plain ↦
      rw (plain, no_star_split p plain, glob_match)
        ((λ same. sym ((text_eq_iff p s).0 same)), (λ same. (text_eq_iff p s).1 (sym same)))
]

-- The glob match accepts exactly the topics that the pattern stands for: every '*' stands for some
-- run of bytes and every other byte for itself.
pub glob_match_iff : (p s : Text) → (glob_match p s ≡ true) ↔ Glob p s
glob_match_iff p s =
    ((λ e. Matches-Glob p s ((match_iff p s).0 e)), (λ g. (match_iff p s).1 (Glob-Matches g)))
