-- ===== src/Autoload/Failures.antt =====
-- autoload/autoload.go: content that cannot be loaded, and content that flickers.
use egop.Prelude.{
  Text, text_eq, text_eq_refl, text_ne, length, ℕ, suc, zero, ◌+◌, if◌then◌else◌, Bool, Bool-cases,
  true, false, not, ◌&&◌, List, [], ◌∷◌, ◌++◌, Option, none, some, ◌≡◌, ◌≢◌, refl, sym, ◌∙◌, inl,
  inr, arith,
}
use egop.Autoload
use egop.Autoload.{
  HostFace, Load, load_failed, loaded_as, FileUnit, World, waits, observe, apply_change,
  apply_waiting, read_content, load_content, with_event, failed_event,
}

module _ {S : Type 0} (face : HostFace S) (load : Text → Text → Load) (p : Text) where
  -- Two polls that see the content h at the path, n times over, with the events they report.
  unfoldable pub two_polls :
      ℕ → Text → Option Text → FileUnit → World S → FileUnit × World S × List Autoload.Event
  two_polls zero h content u w = (u, w, [])
  two_polls (suc n) h content u w =
      let (u1, w1, first) = observe face load p h content u w in
      let (u2, w2, second) = observe face load p h content u1 w1 in
      let (u3, w3, others) = two_polls n h content u2 w2 in (u3, w3, first ++ (second ++ others))

  module _ (h content error : Text) (bad : load content p ≡ load_failed error) where
    -- A unit that has nothing pending, and may have to do with the content h.
    record IsOpen (u : FileUnit) : Type 0 where
      nothing_waits : u.np ≡ none
      nothing_pending : u.pending ≡ []
      untried : u.err_hash ≢ h
      other : u.loaded ≡ true → u.hash ≢ h

    not_in_use : (u : FileUnit) → IsOpen u → (u.loaded && text_eq h u.hash) ≡ false
    not_in_use u v = elim (Bool-cases u.loaded) [
      | inl e ↦ rw (text_ne h u.hash (λ same. v.other e (sym same))) (ground arith)
      | inr e ↦ ground arith
    ]

    not_known : (u : FileUnit) → IsOpen u → (not (waits u) && text_eq u.err_hash h) ≡ false
    not_known u v = rw (text_ne u.err_hash h v.untried) (ground arith)

    not_pending : (u : FileUnit) → h ≢ [] → IsOpen u → text_eq u.pending h ≡ false
    not_pending u some_hash v = text_ne u.pending h (λ e. some_hash (sym e ∙ v.nothing_pending))

    first_sight :
        (u : FileUnit) (w : World S)
        → h ≢ []
        → IsOpen u
        → observe face load p h (some content) u w ≡ (record u { pending = h }, w, [])
    unfolding observe
    first_sight u w some_hash v = rw (not_in_use u v, not_known u v, not_pending u some_hash v) refl

    abbrev after_failure : FileUnit → FileUnit
    after_failure u = record u { pending = []; err_hash = if u.loaded then u.err_hash else h }

    change_fails :
        (u : FileUnit) (w : World S)
        → u.np ≡ none
        → apply_change face load p h (some content) u w
          ≡ (after_failure u, w, failed_event face load p h u.id [] (Autoload.not_loaded error))
    unfolding apply_change apply_waiting read_content load_content
    change_fails u w e = rw (e, apply_waiting, bad, load_content) refl

    second_sight :
        (u : FileUnit) (w : World S)
        → IsOpen u
        → observe face load p h (some content) (record u { pending = h }) w ≡ (
          after_failure u,
          w,
          failed_event face load p h u.id [] (Autoload.not_loaded error) ∷ [],
        )
    unfolding observe with_event waits
    second_sight u w v =
        rw
          (
            not_in_use u v,
            not_known u v,
            text_eq_refl h,
            change_fails (record u { pending = h }) w v.nothing_waits,
            with_event,
          )
          refl

    -- One round of two polls on an open unit reports one failure.
    round :
        (n : ℕ) (u : FileUnit) (w : World S)
        → h ≢ []
        → IsOpen u
        → length (two_polls (suc n) h (some content) u w).2
          ≡ 1 + length (two_polls n h (some content) (after_failure u) w).2
    unfolding two_polls
    round n u w some_hash v = rw (first_sight u w some_hash v, second_sight u w v) (omega arith)

    failed-IsOpen : (u : FileUnit) → u.loaded ≡ true → IsOpen u → IsOpen (after_failure u)
    failed-IsOpen u e v = record {
      nothing_waits = v.nothing_waits;
      nothing_pending = refl;
      untried = λ same. v.untried (kept same);
      other = v.other;
    }
      where
        kept : (if u.loaded then u.err_hash else h) ≡ h → u.err_hash ≡ h
        kept same = ground arith

    loaded_retries :
        (n : ℕ) (u : FileUnit) (w : World S)
        → h ≢ []
        → u.loaded ≡ true
        → IsOpen u
        → length (two_polls n h (some content) u w).2 ≡ n
    unfolding two_polls
    loaded_retries zero u w some_hash e v = refl
    loaded_retries (suc n) u w some_hash e v = omega (
      arith,
      round n u w some_hash v,
      loaded_retries n (after_failure u) w some_hash e (failed-IsOpen u e v),
    )

    given_up :
        (u : FileUnit) (w : World S)
        → u.loaded ≡ false
        → u.np ≡ none
        → u.err_hash ≡ h
        → observe face load p h (some content) u w ≡ (u, w, [])
    unfolding observe waits
    given_up u w e n known =
        let not_used : (u.loaded && text_eq h u.hash) ≡ false = ground arith in
        let bad_known : (not (waits u) && text_eq u.err_hash h) ≡ true =
          rw (known, n, waits, text_eq_refl h) refl in
        rw (not_used, bad_known) refl

    stays_given_up :
        (n : ℕ) (u : FileUnit) (w : World S)
        → u.loaded ≡ false
        → u.np ≡ none
        → u.err_hash ≡ h
        → length (two_polls n h (some content) u w).2 ≡ 0
    unfolding two_polls
    stays_given_up zero u w e n known = refl
    stays_given_up (suc m) u w e n known =
        rw (given_up u w e n known, given_up u w e n known) (stays_given_up m u w e n known)

-- A package that cannot be loaded, in a file that does not change, where the unit has nothing pending
-- and did not meet this content before. A file whose plugin was never registered is tried once, however
-- often it is polled. Where an older version is in use, every second poll loads the package again and
-- reports the failure again, without an end.
pub bad_content_retries :
    {S : Type 0} (face : HostFace S) (load : Text → Text → Load) (p h content error : Text)
    → load content p ≡ load_failed error
    → h ≢ []
    → (u : FileUnit) (w : World S) (n : ℕ) → u.np ≡ none
    → u.pending ≡ []
    → u.err_hash ≢ h
    → u.hash ≢ h
    → length (two_polls face load p (suc n) h (some content) u w).2
      ≡ (if u.loaded then suc n else 1)
bad_content_retries face load p h content error bad some_hash u w n waits_not settled untried
      other =
    let v : IsOpen face load p h content error bad u = record {
      nothing_waits = waits_not;
      nothing_pending = settled;
      untried = untried;
      other = λ e. other;
    } in
    elim (Bool-cases u.loaded) [
      | inl e ↦
          ground (arith, loaded_retries face load p h content error bad (suc n) u w some_hash e v)
      | inr e ↦ ground (
        arith,
        round face load p h content error bad n u w some_hash v,
        stays_given_up face load p h content error bad n
            (after_failure face load p h content error bad u) w e waits_not (ground arith),
      )
    ]

-- The two sights that lead to a load need not be in a row: a new content that a poll saw once is
-- loaded at its next sight, although the poll in between saw the old content again.
pub flicker_loads :
    {S : Type 0} (face : HostFace S) (load : Text → Text → Load) (p h content old_content : Text)
    (u : FileUnit) (w : World S)
    → u.loaded ≡ true
    → u.hash ≢ h
    → u.err_hash ≢ h
    → u.pending ≢ h
    → let first = observe face load p h (some content) u w in
      let between = observe face load p u.hash (some old_content) first.0 first.1 in
      observe face load p h (some content) between.0 between.1
      ≡ with_event (apply_change face load p h (some content) (record u { pending = h }) w)
unfolding observe waits with_event
flicker_loads face load p h content old u w e other untried new =
    let v : (u.loaded && text_eq h u.hash) ≡ false =
      rw (text_ne h u.hash (λ same. other (sym same))) (and_false u.loaded) in
    let x : (not (waits u) && text_eq u.err_hash h) ≡ false =
      rw (text_ne u.err_hash h untried) (and_false (not (waits u))) in
    let used : (u.loaded && text_eq u.hash u.hash) ≡ true = ground (arith, text_eq_refl u.hash) in
    rw (v, x, text_ne u.pending h new, used, v, x, text_eq_refl h) refl
  where
    and_false : (b : Bool) → (b && false) ≡ false
    and_false b = ground arith
