-- ===== src/Undo/Laws.antt =====
-- undo/undo.go: the calls that Close makes, and their errors.
use egop.Prelude.{
  true, false, List, [], ◌∷◌, ◌++◌, Option, none, some, ◌≡◌, refl, ap, append_assoc, append-nil,
}
use mathlib.Core.List.{reverse}
use egop.Undo.{Catcher, fresh, add, close, run_all, collect}

-- The catcher after a row of Add calls.
unfoldable pub add_all {ℓ} : {A : Type ℓ} → Catcher A → List (Option A) → Catcher A
add_all c [] = c
add_all c (f ∷ fs) = add_all (add c f) fs

-- The functions among the arguments, without the nils.
unfoldable pub given {ℓ} : {A : Type ℓ} → List (Option A) → List A
given [] = []
given (none ∷ fs) = given fs
given (some f ∷ fs) = f ∷ given fs

module _ {ℓ} {A : Type ℓ} where
  add_all_open :
      (gs : List A) (fs : List (Option A))
      → add_all (record { done = false; fns = gs }) fs
        ≡ record { done = false; fns = gs ++ given fs }
  unfolding add_all given add
  add_all_open gs [] = rw append-nil
  add_all_open gs (none ∷ fs) = add_all_open gs fs
  add_all_open gs (some f ∷ fs) = rw (add_all_open (gs ++ f ∷ []) fs, append_assoc)

  add_all_closed :
      (gs : List A) (fs : List (Option A))
      → add_all (record { done = true; fns = gs }) fs ≡ record { done = true; fns = gs }
  unfolding add_all add
  add_all_closed gs [] = refl
  add_all_closed gs (none ∷ fs) = add_all_closed gs fs
  add_all_closed gs (some f ∷ fs) = add_all_closed gs fs

-- The world after undoing one after the other, and the errors met, each left where it was.
abbrev pub worlds {ℓ κ μ} :
    {A : Type ℓ} {S : Type κ} {E : Type μ} → (A → S → S × Option E) → List A → S → S
worlds run [] s = s
worlds run (f ∷ fs) s = worlds run fs (run f s).0

abbrev pub errors {ℓ κ μ} :
    {A : Type ℓ} {S : Type κ} {E : Type μ} → (A → S → S × Option E) → List A → S → List E
errors run [] s = []
errors run (f ∷ fs) s = collect (run f s).1 (errors run fs (run f s).0)

module _ {ℓ κ μ} {A : Type ℓ} {S : Type κ} {E : Type μ} (run : A → S → S × Option E) where
  run_all_lem : (fs : List A) (s : S) → run_all run fs s ≡ (worlds run fs s, errors run fs s)
  unfolding run_all
  run_all_lem [] s = refl
  run_all_lem (f ∷ fs) s = rw (run_all_lem fs (run f s).0)

module _ {A S E : Type 0} (run : A → S → S × Option E) (fs : List (Option A)) (s : S) where
  close_open : close run (add_all fresh fs) s ≡ (
    record { done = true; fns = [] },
    worlds run (reverse (given fs)) s,
    errors run (reverse (given fs)) s,
  )
  unfolding close
  close_open = rw (add_all_open [] fs, run_all_lem run (reverse (given fs)) s)

-- After any row of Add calls, Close performs every function that was added, the last one first, each
-- once and whatever the others answered, and joins their errors in that order. Functions added after
-- it are dropped, and a second Close performs nothing and reports nothing.
pub close-add_all :
    {A S E : Type 0} (run : A → S → S × Option E) (fs late : List (Option A)) (s t : S)
    → ((close run (add_all fresh fs) s).1 ≡ worlds run (reverse (given fs)) s)
      × ((close run (add_all fresh fs) s).2 ≡ errors run (reverse (given fs)) s)
      × (close run (add_all (close run (add_all fresh fs) s).0 late) t
          ≡ ((close run (add_all fresh fs) s).0, t, []))
unfolding close
close-add_all run fs late s t =
    let first = close_open run fs s in
    (ap (λ r. r.1) first, ap (λ r. r.2) first, rw (ap (λ r. r.0) first, add_all_closed [] late))
