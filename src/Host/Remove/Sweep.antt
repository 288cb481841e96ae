-- ===== src/Host/Remove/Sweep.antt =====
-- host/register.go: the loop of Remove over its queue.
use egop.Prelude.{
  Text, contains, lookup, lookup-delete, delete, filter, any, length, length-append, In, In-map,
  there, here, Map, ℕ, zero, suc, ◌+◌, ◌≤◌, ◌<◌, map, Bool, true, not, ◌&&◌, ◌||◌, if◌then◌else◌,
  List, [], ◌∷◌, ◌++◌, none, some, ◌≡◌, refl, arith, append_assoc, contains_at, In-filter,
  append-nil,
}
use egop.Contract.Meta.{Meta}
use egop.Host.State.{Options, Host}
use egop.Host.Remove.{slot_of, deps_broken, broken_by, drop_plugin, note_version, sweep}

pub contains-append :
    (xs ys : List Text) (a : Text) → contains (xs ++ ys) a ≡ (contains xs a || contains ys a)
unfolding contains any
contains-append [] ys a = refl
contains-append (x ∷ xs) ys a = ground (arith, contains-append xs ys a)

abbrev left : List Text → Map Meta → ℕ
left victims metas = length (filter (λ e. not (contains victims e.0)) metas)

module _ (victims : List Text) (d : Text × Meta → Bool) where
  abbrev chosen : Text × Meta → Bool
  chosen e = not (contains victims e.0) && d e

  -- What joins the victims is no longer left.
  left-append-le :
      (more : List Text) (metas : Map Meta)
      → ((e : Text × Meta) → In e metas → chosen e ≡ true → contains more e.0 ≡ true)
      → left (victims ++ more) metas + length (filter chosen metas) ≤ left victims metas
  unfolding filter
  left-append-le more [] h = omega arith
  left-append-le more (e ∷ metas) h = ground (
    arith,
    contains-append victims more e.0,
    h e here,
    left-append-le more metas (λ f m. h f (there m)),
  )

left-delete-le :
    (victims : List Text) (id : Text) (metas : Map Meta)
    → left victims (delete id metas) ≤ left victims metas
unfolding delete filter
left-delete-le victims id [] = omega arith
left-delete-le victims id (e ∷ metas) = ground (arith, left-delete-le victims id metas)

length-map-fst : (metas : Map Meta) → length (map (λ e. e.0) metas) ≡ length metas
length-map-fst [] = refl
length-map-fst (e ∷ metas) = omega (arith, length-map-fst metas)

broken_by-counts :
    (o : Options) (metas : Map Meta) (id slot : Text) (victims : List Text)
    → left (victims ++ broken_by o metas id slot victims) metas
        + length (broken_by o metas id slot victims)
      ≤ left victims metas
unfolding broken_by
broken_by-counts o metas id slot victims =
    let d = λ (e : Text × Meta). deps_broken o metas id slot (e.1).requires.deps in
    let keys = map (λ (e : Text × Meta). e.0) (filter (chosen victims d) metas) in
    omega (
      arith,
      left-append-le victims d keys metas (λ e m c.
          contains_at keys e.0
            (In-map (λ (f : Text × Meta). f.0) (In-filter (chosen victims d) metas m c))),
      length-map-fst (filter (chosen victims d) metas),
    )

-- With more rounds than queued and unvisited plugins the loop ends.
pub sweep_total :
    (fuel : ℕ) (o : Options) (queue victims : List Text) (versions : Map Text) (h : Host)
    → length queue + left victims h.metas < fuel
    → (r : List Text × Map Text × Host) × (sweep fuel o queue victims versions h ≡ some r)
unfolding sweep drop_plugin
sweep_total zero o queue victims versions h lt = elim lt [ ]
sweep_total (suc fuel) o [] victims versions h lt = ((victims, versions, h), refl)
sweep_total (suc fuel) o (id ∷ queue) victims versions h lt =
    let metas = delete id h.metas in
    let broken = broken_by o metas id (slot_of h.metas id) victims in
    sweep_total fuel o (queue ++ broken) (victims ++ broken)
      (note_version id (lookup id h.metas) versions) (drop_plugin id h)
      (omega (
        arith,
        length-append queue broken,
        broken_by-counts o metas id (slot_of h.metas id) victims,
        left-delete-le victims id h.metas,
      ))

-- What is left of a table when exactly `gone` is deleted from it.
abbrev pub Without {ℓ} : {V : Type ℓ} → List Text → Map V → Map V → Type ℓ
Without gone before after =
    (k : Text) → lookup k after ≡ (if contains gone k then none else lookup k before)

Without-delete {ℓ} :
    {V : Type ℓ} (gone : List Text) (before after : Map V) (id : Text)
    → Without gone before after
    → Without (gone ++ id ∷ []) before (delete id after)
unfolding contains any
Without-delete gone before after id w k =
    ground (arith, lookup-delete id k after, contains-append gone (id ∷ []) k, w k)

regroup :
    (done : List Text) (id : Text) (queue broken : List Text)
    → (done ++ id ∷ []) ++ (queue ++ broken) ≡ (done ++ id ∷ queue) ++ broken
regroup done id queue broken = simp append_assoc

-- The victims that the loop returns are exactly the plugins that it deleted.
module _ (o : Options) (first : Host) where
  pub record IsSwept (gone : List Text) (h : Host) : Type 0 where
    pub metas_left : Without gone first.metas h.metas
    pub plugins_left : Without gone first.plugins h.plugins
    pub applied_left : Without gone first.applied h.applied

  pub sweep-IsSwept :
      (fuel : ℕ) (done queue : List Text) (versions : Map Text) (h : Host) (victims : List Text)
      (versions' : Map Text) (h' : Host)
      → IsSwept done h
      → sweep fuel o queue (done ++ queue) versions h ≡ some (victims, versions', h')
      → IsSwept victims h'
  unfolding sweep drop_plugin
  sweep-IsSwept zero done queue versions h victims versions' h' w e = cc
  sweep-IsSwept (suc fuel) done [] versions h victims versions' h' w e =
      let same : done ≡ victims = rw (← append-nil done) (cc) in
      let same_h : h ≡ h' = cc in rw (← same, ← same_h) w
  sweep-IsSwept (suc fuel) done (id ∷ queue) versions h victims versions' h' w e =
      let broken = broken_by o (delete id h.metas) id (slot_of h.metas id) (done ++ id ∷ queue) in
      sweep-IsSwept fuel (done ++ id ∷ []) (queue ++ broken)
        (note_version id (lookup id h.metas) versions) (drop_plugin id h) victims versions' h'
        (record {
          metas_left = Without-delete done first.metas h.metas id w.metas_left;
          plugins_left = Without-delete done first.plugins h.plugins id w.plugins_left;
          applied_left = Without-delete done first.applied h.applied id w.applied_left;
        })
        (rw (regroup done id queue broken) e)
