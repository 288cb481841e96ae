-- ===== src/Host/Remove/Dependents.antt =====
-- host/host.go, host/register.go: Dependents and the refusal of Remove: which plugins a removal takes along.
use egop.Prelude.{
  In, ◌↔◌, ◌⊎◌, sym, subst, Text, text_eq, text_eq_iff, contains, lookup, has, filter, any, length,
  Map, suc, map, Bool, true, false, not, ◌&&◌, List, [], ◌∷◌, none, some, ◌≡◌, List-cases, ◌≢◌,
  refl, inl, inr, arith, ap, ◌∙◌, delete,
}
use mathlib.Core.Path.{fun_ext}
use egop.Contract.Meta.{Meta, Dependency}
use egop.Host.State.{Options, Host, HostError, emit}
use egop.Host.State
use egop.Host.Remove.{
  note_version, slot_of, dep_broken, deps_broken, broken_by, drop_plugin, sweep, finish_remove,
  cascade, remove, dependents,
}
use egop.Host.Remove.Closure.{claims_beside}
use egop.Host.Remove.Needs.{Needs, loop-Needs, loops_agree}
use egop.Host.Slots.{slot_satisfied_excluding}

any_beside-delete :
    (id slot : Text) (metas : Map Meta)
    → any (claims_beside slot id) (delete id metas) ≡ any (claims_beside slot id) metas
unfolding any delete
any_beside-delete id slot [] = refl
any_beside-delete id slot (e ∷ metas) = ground (arith, any_beside-delete id slot metas)

module _ (o : Options) (id slot : Text) (metas : Map Meta) where
  skips_self : (k : Text) → text_eq k id ≡ true → contains (id ∷ []) k ≡ true
  unfolding contains any
  skips_self k h = ground (arith, text_eq_iff k id, text_eq_iff id k)

  dep_broken-delete :
      (r : Dependency) → dep_broken o (delete id metas) id slot r ≡ dep_broken o metas id slot r
  unfolding dep_broken slot_satisfied_excluding
  dep_broken-delete r = ground (arith, any_beside-delete id r.slot metas)

  deps_broken-delete :
      (rs : List Dependency)
      → deps_broken o (delete id metas) id slot rs ≡ deps_broken o metas id slot rs
  unfolding deps_broken
  deps_broken-delete [] = refl
  deps_broken-delete (r ∷ rs) = ground (arith, dep_broken-delete r, deps_broken-delete rs)

  filter-delete :
      (p : Text × Meta → Bool) (rows : Map Meta)
      → ((e : Text × Meta) → text_eq e.0 id ≡ true → p e ≡ false)
      → filter p (delete id rows) ≡ filter p rows
  unfolding filter delete
  filter-delete p [] h = refl
  filter-delete p (e ∷ rows) h = ground (arith, h e, filter-delete p rows h)

  broken_by-delete :
      broken_by o (delete id metas) id slot (id ∷ []) ≡ broken_by o metas id slot (id ∷ [])
  unfolding broken_by
  broken_by-delete =
      let test = λ (metas' : Map Meta) (e : Text × Meta).
        not (contains (id ∷ []) e.0) && deps_broken o metas' id slot (e.1).requires.deps in
      let same : (e : Text × Meta) → test (delete id metas) e ≡ test metas e =
        λ e. rw (deps_broken-delete (e.1).requires.deps) in
      let step : filter (test (delete id metas)) (delete id metas)
          ≡ filter (test metas) (delete id metas) =
        rw (fun_ext same) in
      ap (map (λ (e : Text × Meta). e.0))
        (step ∙ filter-delete (test metas) metas (λ e same_id. rw (skips_self e.0 same_id)))

module _ (o : Options) (h : Host) (id : Text) (registered : has id h.plugins ≡ true) where
  dependents-broken_by : dependents o h id ≡ broken_by o h.metas id (slot_of h.metas id) (id ∷ [])
  unfolding dependents broken_by
  dependents-broken_by = rw registered (loops_agree o h.metas id (slot_of h.metas id) h.metas)

  refuses :
      dependents o h id ≢ []
      → remove o h id false ≡ some (h, [], some (State.still_required id (dependents o h id)))
  unfolding remove
  refuses held = elim (List-cases (broken_by o h.metas id (slot_of h.metas id) (id ∷ []))) [
    | inl free ↦ absurd (held (dependents-broken_by ∙ free))
    | inr (x, xs, e) ↦
        let same : dependents o h id ≡ x ∷ xs = dependents-broken_by ∙ e in
        subst (λ ys. remove o h id false ≡ some (h, [], some (State.still_required id ys)))
          (sym same) (rw (registered, e, remove) refl)
  ]

  sweeps_alone :
      broken_by o h.metas id (slot_of h.metas id) (id ∷ []) ≡ []
      → sweep (suc (suc (length h.metas))) o (id ∷ []) (id ∷ []) [] h
        ≡ some (id ∷ [], note_version id (lookup id h.metas) [], drop_plugin id h)
  unfolding sweep drop_plugin
  sweeps_alone free =
      let none_broken = broken_by-delete o id (slot_of h.metas id) h.metas ∙ free in
      rw (none_broken, sweep)

  removes_alone :
      dependents o h id ≡ []
      → (cascading : Bool) → (h' : Host) × (remove o h id cascading ≡ some (h', id ∷ [], none))
  unfolding remove cascade finish_remove
  removes_alone none_held cascading =
      let free : broken_by o h.metas id (slot_of h.metas id) (id ∷ []) ≡ [] =
        sym dependents-broken_by ∙ none_held in
      let r = finish_remove (id ∷ [], note_version id (lookup id h.metas) [], drop_plugin id h) in
      let runs : cascade o h id ≡ some r = rw (sweeps_alone free, cascade) in
      (
        r.0,
        elim cascading as (λ c. remove o h id c ≡ some (r.0, id ∷ [], none)) [
          | true ↦ rw (registered, runs, remove)
          | false ↦ rw (registered, free, runs, remove)
        ],
      )

asked_Needs :
    (o : Options) (h : Host) (id : Text)
    → has id h.plugins ≡ true
    → (k : Text) → In k (dependents o h id) ↔ Needs o h.metas id k
unfolding dependents
asked_Needs o h id registered k = rw registered (loop-Needs o h.metas id k)

-- Of a registered plugin, Dependents gives exactly the other plugins of which some init dependency would
-- lose its only provider, where a dependency that names a plugin minds that plugin alone. Remove without
-- cascade refuses, changes nothing and names this list if it is not empty; if it is empty, it succeeds and
-- takes exactly the one plugin, as Remove with cascade does.
pub remove_refuses :
    (o : Options) (h : Host) (id : Text)
    → has id h.plugins ≡ true
    → ((k : Text) → In k (dependents o h id) ↔ Needs o h.metas id k)
      × (((dependents o h id ≢ [])
            × (remove o h id false
                ≡ some (h, [], some (State.still_required id (dependents o h id)))))
          ⊎ ((dependents o h id ≡ [])
              × ((cascading : Bool)
                  → (h' : Host) × (remove o h id cascading ≡ some (h', id ∷ [], none)))))
remove_refuses o h id registered = (
  asked_Needs o h id registered,
  elim (List-cases (dependents o h id)) [
    | inl free ↦ inr (free, removes_alone o h id registered free)
    | inr (x, xs, e) ↦
        let held : dependents o h id ≢ [] = λ f. cc in inl (held, refuses o h id registered held)
  ],
)
