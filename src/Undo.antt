-- ===== src/Undo.antt =====
-- undo/undo.go: the Catcher, a stack of undo functions that is closed once. An undo function is a
-- value of `A`; `run` performs it on a state of the world and gives its error, if any. The mutex is
-- not modelled: each method is one step. Undo functions return: the code does not recover one that
-- panics, which ends the loop of Close.
pub mod Laws
mod Tests
use egop.Prelude.{Bool, true, false, if◌then◌else◌, List, [], ◌∷◌, ◌++◌, Option, none, some}
use mathlib.Core.List.{reverse}

pub record Catcher {ℓ} (A : Type ℓ) : Type ℓ where
  pub done : Bool
  pub fns : List A

module _ {ℓ} {A : Type ℓ} where
  abbrev pub fresh : Catcher A
  fresh = record { done = false; fns = [] }

  -- Add; a nil function is ignored, and so is any after Close.
  unfoldable pub add : Catcher A → Option A → Catcher A
  add c none = c
  add c (some fn) = if c.done then c else record c { fns = c.fns ++ fn ∷ [] }

  -- Effect: the acquired value, with its undo function registered.
  unfoldable pub effect {κ} : {T : Type κ} → Catcher A → T × Option A → Catcher A × T
  effect c (v, undo) = (add c undo, v)

-- `errs = append(errs, err)` where err is not nil.
unfoldable pub collect {ℓ} : {E : Type ℓ} → Option E → List E → List E
collect none errs = errs
collect (some e) errs = e ∷ errs

module _ {ℓ κ μ} {A : Type ℓ} {S : Type κ} {E : Type μ} (run : A → S → S × Option E) where
  -- The loop over the functions, in the order in which it meets them.
  unfoldable pub run_all : List A → S → S × List E
  run_all [] s = (s, [])
  run_all (f ∷ fs) s =
      let (s', err) = run f s in let (s'', errs) = run_all fs s' in (s'', collect err errs)

  -- Close: the new catcher, the world after it, and the joined errors.
  unfoldable pub close : Catcher A → S → Catcher A × S × List E
  close c s =
      if c.done
      then (c, s, [])
      else let (s', errs) = run_all (reverse c.fns) s in
        (record { done = true; fns = [] }, s', errs)
