-- ===== src/Autoload/Sightings.antt =====
-- autoload/autoload.go: what earlier polls saw of the content that is in use.
use egop.Prelude.{
  Text, text_eq, text_eq_refl, Map, lookup, insert, has, AreDistinct, one_more, ℕ, ◌+◌, ◌≤◌,
  if◌then◌else◌, Bool, Option-cases, true, false, not, List, [], ◌∷◌, In, In-insert_cases, here,
  there, lookup-In, Option, none, some, ◌≡◌, ◌≢◌, refl, sym, subst, inl, inr, arith,
}
use egop.Autoload.{
  Action, Instance, HostFace, Load, FileUnit, new_unit, World, observe, unit_at, apply_seen,
}
use egop.Autoload.Changes.{
  Becomes, same, starts_using, uses, keeps, switches, gives_up, after_dropping, observe_cases,
}
use egop.Autoload.Sweeps.{Swept, unloaded, forgiven, missed}

-- Whether a poll saw this content at the path, in how many polls it was seen, and whether the last
-- poll saw nothing there.
abbrev pub sights : Text → Text → Map Text → Bool
sights p h seen = elim (lookup p seen) [ none ↦ false | some g ↦ text_eq g h ]

unfoldable pub times : Text → Text → List (Map Text) → ℕ
times p h [] = 0
times p h (m ∷ seen) = (if sights p h m then 1 else 0) + times p h seen

abbrev pub absent : Text → List (Map Text) → Bool
absent p [] = true
absent p (m ∷ seen) = not (has p m)

-- What is known of a unit, where T counts the sightings of a content: the candidate was seen, the
-- content in use and the one that waits were seen twice, and a miss is the last poll's.
pub record IsWatched (T : Text → ℕ) (gone : Bool) (u : FileUnit) : Type 0 where
  pub proposed : u.pending ≢ [] → 1 ≤ T u.pending
  pub confirmed : u.loaded ≡ true → 2 ≤ T u.hash
  pub waiting : (np : Instance) → u.np ≡ some np → 2 ≤ T u.np_hash
  pub few : u.misses ≤ 1
  pub counted : u.misses ≡ 1 → gone ≡ true
  pub still : u.loaded ≡ false → u.misses ≡ 0

abbrev pub AreWatched : List (Map Text) → Map FileUnit → Type 0
AreWatched seen units =
    (p : Text) (u : FileUnit) → In (p, u) units → IsWatched (λ h. times p h seen) (absent p seen) u

no_miss : {n : ℕ} → n ≡ 0 → n ≡ 1 → ⊥
no_miss e f = omega arith

module _ {T : Text → ℕ} {gone : Bool} where
  new-IsWatched : IsWatched T gone new_unit
  new-IsWatched = record {
    proposed = λ ne. elim (ne refl) [ ];
    confirmed = λ e. cc;
    waiting = λ np e. cc;
    few = omega arith;
    counted = λ e. elim (no_miss refl e) [ ];
    still = λ e. refl;
  }

  first-IsWatched :
      (h : Text) (u : FileUnit)
      → 1 ≤ T h
      → IsWatched T gone u
      → IsWatched T gone (record u { pending = h })
  first-IsWatched h u once v = record {
    proposed = λ ne. once;
    confirmed = v.confirmed;
    waiting = v.waiting;
    few = v.few;
    counted = v.counted;
    still = v.still;
  }

  Becomes-IsWatched :
      {h : Text} {u u' : FileUnit} {a : Action}
      → 2 ≤ T h
      → Becomes h u u' a
      → IsWatched T gone u
      → IsWatched T gone u'
  Becomes-IsWatched two same v = v
  Becomes-IsWatched two (starts_using u np e n) v = record {
    proposed = v.proposed;
    confirmed = λ e'. two;
    waiting = λ np' e'. cc;
    few = v.few;
    counted = v.counted;
    still = λ e'. cc;
  }
  Becomes-IsWatched two (uses u id np e n) v = record {
    proposed = v.proposed;
    confirmed = λ e'. two;
    waiting = v.waiting;
    few = v.few;
    counted = v.counted;
    still = λ e'. cc;
  }
  Becomes-IsWatched two (keeps u np e) v = record {
    proposed = v.proposed;
    confirmed = v.confirmed;
    waiting = λ np' e'. two;
    few = v.few;
    counted = v.counted;
    still = v.still;
  }
  Becomes-IsWatched two (switches u id np e) v = record {
    proposed = v.proposed;
    confirmed = λ e'. two;
    waiting = v.waiting;
    few = v.few;
    counted = v.counted;
    still = v.still;
  }
  Becomes-IsWatched two (gives_up u err) v = record {
    proposed = λ ne. elim (ne refl) [ ];
    confirmed = v.confirmed;
    waiting = v.waiting;
    few = v.few;
    counted = v.counted;
    still = v.still;
  }
  Becomes-IsWatched two (after_dropping b) v = Becomes-IsWatched two b (record {
    proposed = v.proposed;
    confirmed = v.confirmed;
    waiting = λ np' e'. cc;
    few = v.few;
    counted = v.counted;
    still = v.still;
  })

-- More sightings are no harm, and the miss of the last poll is decided by the sweep.
pub Swept-IsWatched :
    {T T' : Text → ℕ} {gone : Bool} {seen : Map Text} {p : Text} {u v : FileUnit}
    → ((h : Text) → T h ≤ T' h)
    → IsWatched T gone u
    → Swept seen p u v
    → IsWatched T' (not (has p seen)) v
Swept-IsWatched more w (unloaded l) = record {
  proposed = λ ne. omega (arith, more _, w.proposed ne);
  confirmed = λ e. cc;
  waiting = λ np e. omega (arith, more _, w.waiting np e);
  few = w.few;
  counted = λ e. elim (no_miss (w.still l) e) [ ];
  still = w.still;
}
Swept-IsWatched more w forgiven = record {
  proposed = λ ne. omega (arith, more _, w.proposed ne);
  confirmed = λ e. omega (arith, more _, w.confirmed e);
  waiting = λ np e. omega (arith, more _, w.waiting np e);
  few = omega arith;
  counted = λ e. elim (no_miss refl e) [ ];
  still = λ e. refl;
}
Swept-IsWatched more w (missed l f e) = record {
  proposed = λ ne. omega (arith, more _, w.proposed ne);
  confirmed = λ e'. omega (arith, more _, w.confirmed e');
  waiting = λ np e'. omega (arith, more _, w.waiting np e');
  few = omega (arith, f);
  counted = λ e'. rw e refl;
  still = λ e'. cc;
}

seen_once : (p h : Text) (m : Map Text) → lookup p m ≡ some h → sights p h m ≡ true
seen_once p h m e = rw (e, sights) (text_eq_refl h)

times_more :
    (p h : Text) (m : Map Text) (seen : List (Map Text))
    → lookup p m ≡ some h
    → times p h (m ∷ seen) ≡ 1 + times p h seen
unfolding times
times_more p h m seen e = let sight = seen_once p h m e in ground arith

pub more_seen :
    (p : Text) (m : Map Text) (seen : List (Map Text)) (h : Text)
    → times p h seen ≤ times p h (m ∷ seen)
unfolding times
more_seen p m seen h = omega arith

-- During the second half of a poll that sees m: a unit that the rest of the list has yet to come to is
-- still known from the polls before.
abbrev pub IsHalfway : Map Text → List (Map Text) → Map Text → Map FileUnit → Type 0
IsHalfway m seen rest units =
    (p : Text) (u : FileUnit)
    → In (p, u) units
    → IsWatched (λ h. times p h (m ∷ seen)) (absent p (m ∷ seen)) u
      × ((has p rest ≡ true) → IsWatched (λ h. times p h seen) (absent p (m ∷ seen)) u)

module _ {S : Type 0} (face : HostFace S) (load : Text → Text → Load)
    (read : Text → Option Text) where
  module _ (m : Map Text) (seen : List (Map Text)) where
    halfway_at :
        (p h : Text) (rest : Map Text) (units : Map FileUnit)
        → IsHalfway m seen ((p, h) ∷ rest) units
        → let u = unit_at (lookup p units) in
          IsWatched (λ x. times p x (m ∷ seen)) (absent p (m ∷ seen)) u
          × IsWatched (λ x. times p x seen) (absent p (m ∷ seen)) u
    unfolding unit_at lookup
    halfway_at p h rest units v = elim (Option-cases (lookup p units)) [
      | inl e ↦ rw e (new-IsWatched, new-IsWatched)
      | inr (u, e) ↦
          let (now, before) = v p u (lookup-In p units u e) in
          rw e (now, before (ground (arith, text_eq_refl p)))
    ]

    observe-IsWatched :
        (p h : Text) (u : FileUnit) (w : World S)
        → lookup p m ≡ some h
        → h ≢ []
        → IsWatched (λ x. times p x (m ∷ seen)) (absent p (m ∷ seen)) u
        → IsWatched (λ x. times p x seen) (absent p (m ∷ seen)) u
        → IsWatched
            (λ x. times p x (m ∷ seen))
            (absent p (m ∷ seen))
            (observe face load p h (read p) u w).0
    observe-IsWatched p h u w found some_hash now before =
        let Q : FileUnit → Type 0 = IsWatched (λ x. times p x (m ∷ seen)) (absent p (m ∷ seen)) in
        let more = times_more p h m seen found in
        observe_cases face load p h Q (read p) u w now
          (first-IsWatched h u (omega (arith, more)) now)
          (λ u' a known b.
            Becomes-IsWatched
              (omega (
                arith,
                more,
                subst (λ x. 1 ≤ times p x seen) known (before.proposed (rw known some_hash)),
              ))
              b now)

    pub apply_seen-AreWatched :
        (rest : Map Text) (units : Map FileUnit) (w : World S)
        → AreDistinct rest
        → ((p h : Text) → In (p, h) rest → (lookup p m ≡ some h) × (h ≢ []))
        → IsHalfway m seen rest units
        → AreWatched (m ∷ seen) (apply_seen face load read rest units w).0
    unfolding apply_seen lookup
    apply_seen-AreWatched [] units w d found v = λ p u i. (v p u i).0
    apply_seen-AreWatched ((p, h) ∷ rest) units w (one_more _ _ _ new d) found v =
        let u = unit_at (lookup p units) in
        let r = observe face load p h (read p) u w in
        let (now, before) = halfway_at p h rest units v in
        let (at_m, some_hash) = found p h here in
        let after = observe-IsWatched p h u w at_m some_hash now before in
        apply_seen-AreWatched rest (insert p r.0 units) r.1 d (λ q x i. found q x (there i))
          (λ q x i. elim (In-insert_cases p r.0 units i) [
            | inl (key, value) ↦ (
              subst (λ y. IsWatched (λ z. times y z (m ∷ seen)) (absent y (m ∷ seen)) x) (sym key)
                  (subst (IsWatched (λ z. times p z (m ∷ seen)) (absent p (m ∷ seen))) (sym value)
                    after),
              λ again. elim (not_again q key again) [ ],
            )
            | inr old ↦ ((v q x old).0, λ again. (v q x old).1 (still_has q again))
          ])
      where
        not_again : (q : Text) → q ≡ p → has q rest ≡ true → ⊥
        not_again q key again = let gone : lookup q rest ≡ none = rw key new in cc

        still_has : (q : Text) → has q rest ≡ true → has q ((p, h) ∷ rest) ≡ true
        still_has q again = ground arith
