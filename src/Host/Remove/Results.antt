-- ===== src/Host/Remove/Results.antt =====
-- host/register.go: what Remove promises its callers.
use egop.Prelude.{
  Text, contains, lookup, has, any, length, length-filter-le, IsUnique, Map, ℕ, suc, Bool,
  Bool-cases, true, false, not, if◌then◌else◌, List, [], ◌∷◌, Option, none, some, ◌≡◌, ◌⊎◌,
  List-cases, contains_find, refl, sym, inl, inr, arith, ap,
}
use egop.Contract.Meta.{Meta}
use egop.Host.State.{Options, Host, HostError, emit}
use egop.Host.State
use egop.Host.Remove.{slot_of, broken_by, sweep, finish_remove, cascade, remove}
use egop.Host.Remove.Sweep.{sweep_total, sweep-IsSwept}
use egop.Host.Remove.Closure.{IsClosed, sweep-IsClosed}

abbrev rounds : Host → ℕ
rounds h = suc (suc (length h.metas))

module _ (o : Options) (h : Host) (id : Text) where
  start_total :
      (r : List Text × Map Text × Host) × (sweep (rounds h) o (id ∷ []) (id ∷ []) [] h ≡ some r)
  start_total =
      sweep_total (rounds h) o (id ∷ []) (id ∷ []) [] h (
        omega (arith, length-filter-le (λ (e : Text × Meta). not (contains (id ∷ []) e.0)) h.metas))

  cascade_total : (r : Host × List Text × Option HostError) × (cascade o h id ≡ some r)
  unfolding cascade
  cascade_total = let (r, e) = start_total in (finish_remove r, rw (e, cascade))

  -- A cascade is a run of the loop and a rebuild of what hangs on the registry.
  cascade_run :
      {h' : Host} {victims : List Text} {err : Option HostError}
      → cascade o h id ≡ some (h', victims, err)
      → (versions : Map Text) × (swept : Host) × (sweep (rounds h) o (id ∷ []) (id ∷ []) [] h
          ≡ some (victims, versions, swept))
        × (h'.metas ≡ swept.metas)
        × (h'.plugins ≡ swept.plugins)
        × (h'.applied ≡ swept.applied)
        × (err ≡ none)
  unfolding cascade finish_remove emit
  cascade_run {h'} {victims} e =
      let ((victims', versions, swept), ran) = start_total in
      let done : finish_remove (victims', versions, swept) ≡ (h', victims, _) = ground arith in
      let same : victims' ≡ victims = ap (λ r. r.1) done in
      (
        versions,
        swept,
        rw (← same) ran,
        sym (ap (λ r. (r.0).metas) done),
        sym (ap (λ r. (r.0).plugins) done),
        sym (ap (λ r. (r.0).applied) done),
        sym (ap (λ r. r.2) done),
      )

  remove_run :
      (cascading : Bool) {h' : Host} {victims : List Text} {err : Option HostError}
      → remove o h id cascading ≡ some (h', victims, err)
      → ((h' ≡ h) × (victims ≡ [])) ⊎ (cascade o h id ≡ some (h', victims, err))
  unfolding remove
  remove_run cascading e = ground arith

-- Remove always returns.
pub remove_total :
    (o : Options) (h : Host) (id : Text) (cascading : Bool)
    → (r : Host × List Text × Option HostError) × (remove o h id cascading ≡ some r)
unfolding remove
remove_total o h id true = elim (Bool-cases (has id h.plugins)) [
  | inl e ↦ let (r, c) = cascade_total o h id in (r, rw (remove, e, c))
  | inr e ↦ ((h, [], none), rw e)
]
remove_total o h id false = elim (Bool-cases (has id h.plugins)) [
  | inl e ↦ elim (List-cases (broken_by o h.metas id (slot_of h.metas id) (id ∷ []))) [
    | inl free ↦ let (r, c) = cascade_total o h id in (r, rw (remove, e, free, c))
    | inr (x, xs, held) ↦ ((h, [], some (State.still_required id (x ∷ xs))), rw (remove, e, held))
  ]
  | inr e ↦ ((h, [], none), rw e)
]

-- Removal never leaves a registered plugin without a dependency.
pub remove-IsClosed :
    (o : Options) (h h' : Host) (id : Text) (cascading : Bool) (victims : List Text)
    (err : Option HostError)
    → IsUnique h.metas
    → IsClosed o h.metas
    → remove o h id cascading ≡ some (h', victims, err)
    → IsClosed o h'.metas × IsUnique h'.metas
remove-IsClosed o h h' id cascading victims err unique closed e =
    elim (remove_run o h id cascading e) [
      | inl (same, none_gone) ↦ rw same (closed, unique)
      | inr c ↦
          let (versions, swept, ran, metas, _, _, _) = cascade_run o h id c in
          rw metas (
            sweep-IsClosed o (rounds h) (id ∷ []) (id ∷ []) [] h victims versions swept
              (record {
                unique = unique;
                safe = λ k m i out. closed k m i;
                queued = λ k m i among. contains_find (id ∷ []) k among;
              })
              ran)
    ]

-- The victims are gone from the registry, and nothing else is.
pub remove_exact :
    (o : Options) (h h' : Host) (id : Text) (cascading : Bool) (victims : List Text)
    (err : Option HostError)
    → remove o h id cascading ≡ some (h', victims, err)
    → (k : Text)
    → (lookup k h'.metas ≡ (if contains victims k then none else lookup k h.metas))
      × (lookup k h'.plugins ≡ (if contains victims k then none else lookup k h.plugins))
      × (lookup k h'.applied ≡ (if contains victims k then none else lookup k h.applied))
unfolding contains any
remove_exact o h h' id cascading victims err e k = elim (remove_run o h id cascading e) [
  | inl (same, none_gone) ↦ rw (same, none_gone) (refl, refl, refl)
  | inr c ↦
      let (versions, swept, ran, metas, plugins, applied, _) = cascade_run o h id c in
      let w =
        sweep-IsSwept o h (rounds h) [] (id ∷ []) [] h victims versions swept
          (record { metas_left = λ j. refl; plugins_left = λ j. refl; applied_left = λ j. refl })
          ran in
      rw (metas, plugins, applied) (w.metas_left k, w.plugins_left k, w.applied_left k)
]
