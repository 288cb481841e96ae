-- ===== src/Host/Remove/Needs.antt =====
-- host/register.go, depBrokenByRemovalLocked, and host/host.go, Dependents: which plugins need another.
use egop.Prelude.{
  Text, text_eq, text_eq_sound, text_eq_refl, text_ne, is_empty, contains, lookup, filter, any,
  any_at, any_find, Map, Bool-cases, true, false, not, ◌&&◌, map, List, [], ◌∷◌, In, In-cons_cases,
  here, there, Option, none, some, ◌≡◌, ◌≢◌, ◌↔◌, refl, sym, subst, ap, inl, inr, arith,
}
use egop.Contract.Meta.{Meta, Dependency, DependencyKind}
use egop.Host.State.{Options}
use egop.Host.Slots.{is_builtin, find_slot, slot_satisfied_excluding}
use egop.Host.Check.{is_init}
use egop.Host.Remove.{slot_of, dep_broken, deps_broken, dependents_loop}

-- A dependency of kind init that the removal of `id` would leave without a provider: it names that plugin;
-- or it names no plugin but the slot that `id` has, no built-in serves the slot, and no other plugin has it.
pub data Breaks (o : Options) (metas : Map Meta) (id : Text) (r : Dependency) : Type 0 where
  by_name : r.kind ≡ DependencyKind.init → r.plugin ≢ [] → r.plugin ≡ id → Breaks o metas id r
  by_slot :
      (own : Meta)
      → r.kind ≡ DependencyKind.init
      → r.plugin ≡ []
      → r.slot ≢ []
      → lookup id metas ≡ some own
      → own.slot ≡ r.slot
      → is_builtin (find_slot o r.slot) ≡ false
      → ((k : Text) (m : Meta) → In (k, m) metas → k ≢ id → m.slot ≢ r.slot)
      → Breaks o metas id r

-- A plugin beside `id` with such a dependency.
pub record Needs (o : Options) (metas : Map Meta) (id k : Text) : Type 0 where
  pub meta : Meta
  pub dependency : Dependency
  pub registered : In (k, meta) metas
  pub beside : k ≢ id
  pub declared : In dependency meta.requires.deps
  pub breaks : Breaks o metas id dependency

of_init : (k : DependencyKind) → is_init k ≡ true → k ≡ DependencyKind.init
unfolding is_init
of_init DependencyKind.init e = refl
of_init _ e = cc

nothing_in : (t : Text) → is_empty t ≡ true → t ≡ []
nothing_in [] e = refl
nothing_in (c ∷ t) e = cc

something_in : (t : Text) → is_empty t ≡ false → t ≢ []
something_in [] e f = cc
something_in (c ∷ t) e f = cc

something_of : (t : Text) → t ≢ [] → is_empty t ≡ false
something_of [] f = elim (f refl) [ ]
something_of (c ∷ t) f = refl

owner_of :
    (metas : Map Meta) (id t : Text)
    → slot_of metas id ≡ t
    → t ≢ []
    → (own : Meta) × (lookup id metas ≡ some own) × (own.slot ≡ t)
unfolding slot_of
owner_of metas id t e some_slot = look (lookup id metas) refl e
  where
    look :
        (x : Option Meta)
        → lookup id metas ≡ x
        → elim x [ none ↦ [] | some m ↦ m.slot ] ≡ t
        → (own : Meta) × (lookup id metas ≡ some own) × (own.slot ≡ t)
    look none f g = elim (some_slot (sym g)) [ ]
    look (some m) f g = (m, f, g)

slot_of-found :
    (metas : Map Meta) (id : Text) (own : Meta)
    → lookup id metas ≡ some own
    → slot_of metas id ≡ own.slot
unfolding slot_of
slot_of-found metas id own e = rw (e, slot_of) refl

module _ (o : Options) (metas : Map Meta) (id : Text) where
  alone_sound :
      (slot : Text)
      → slot_satisfied_excluding o metas slot id ≡ false
      → (is_builtin (find_slot o slot) ≡ false)
        × ((k : Text) (m : Meta) → In (k, m) metas → k ≢ id → m.slot ≢ slot)
  unfolding slot_satisfied_excluding
  alone_sound slot e = (
    ground arith,
    λ k m i other same.
        let hit : any (λ (x : Text × Meta). not (text_eq x.0 id) && text_eq (x.1).slot slot) metas
            ≡ true =
          any_at _ metas i (rw (text_ne k id other, same, text_eq_refl slot) refl) in
        ground (arith, hit),
  )

  alone_of :
      (slot : Text)
      → is_builtin (find_slot o slot) ≡ false
      → ((k : Text) (m : Meta) → In (k, m) metas → k ≢ id → m.slot ≢ slot)
      → slot_satisfied_excluding o metas slot id ≡ false
  unfolding slot_satisfied_excluding
  alone_of slot none_built nobody =
      elim (Bool-cases
        (any (λ (x : Text × Meta). not (text_eq x.0 id) && text_eq (x.1).slot slot) metas)) [
          | inl hit ↦
              let (x, i, c) = any_find _ metas hit in
              let apart : text_eq x.0 id ≡ false = ground arith in
              let same : text_eq (x.1).slot slot ≡ true = ground arith in
              elim (nobody x.0 x.1 i
                (λ e. let again : text_eq x.0 id ≡ true = rw e (text_eq_refl id) in cc)
                (text_eq_sound _ _ same)) [ ]
          | inr miss ↦ rw (none_built, miss) refl
        ]

  dep_broken_sound :
      (r : Dependency)
      → is_init r.kind ≡ true
      → dep_broken o metas id (slot_of metas id) r ≡ true
      → Breaks o metas id r
  unfolding dep_broken
  dep_broken_sound r kind e = elim (Bool-cases (is_empty r.plugin)) [
    | inr named ↦
        by_name (of_init r.kind kind) (something_in r.plugin named)
          (text_eq_sound r.plugin id (ground arith))
    | inl unnamed ↦
        let slotted : is_empty r.slot ≡ false = ground arith in
        let held : text_eq r.slot (slot_of metas id) ≡ true = ground arith in
        let lone : slot_satisfied_excluding o metas r.slot id ≡ false = ground arith in
        let (own, found, same) =
          owner_of metas id r.slot (sym (text_eq_sound r.slot (slot_of metas id) held))
            (something_in r.slot slotted) in
        let (built, nobody) = alone_sound r.slot lone in
        by_slot own (of_init r.kind kind) (nothing_in r.plugin unnamed)
          (something_in r.slot slotted) found same built nobody
  ]

  init_of : (r : Dependency) → Breaks o metas id r → is_init r.kind ≡ true
  unfolding is_init
  init_of r (by_name kind named same) = subst (λ k. is_init k ≡ true) (sym kind) refl
  init_of r (by_slot own kind unnamed slotted found same built nobody) =
      subst (λ k. is_init k ≡ true) (sym kind) refl

  dep_broken_of :
      (r : Dependency) → Breaks o metas id r → dep_broken o metas id (slot_of metas id) r ≡ true
  unfolding dep_broken
  dep_broken_of r (by_name kind named same) =
      let hit : text_eq r.plugin id ≡ true =
        subst (λ t. text_eq r.plugin t ≡ true) same (text_eq_refl r.plugin) in
      ground (arith, hit, something_of r.plugin named)
  dep_broken_of r (by_slot own kind unnamed slotted found same built nobody) =
      let hit : text_eq r.slot (slot_of metas id) ≡ true =
        subst (λ t. text_eq r.slot t ≡ true) (sym (slot_of-found metas id own found))
          (subst (λ t. text_eq t own.slot ≡ true) same (text_eq_refl own.slot)) in
      let blank : is_empty r.plugin ≡ true = subst (λ t. is_empty t ≡ true) (sym unnamed) refl in
      ground (arith, hit, blank, something_of r.slot slotted, alone_of r.slot built nobody)

  deps_broken_sound :
      (rs : List Dependency)
      → deps_broken o metas id (slot_of metas id) rs ≡ true
      → (r : Dependency) × In r rs × Breaks o metas id r
  unfolding deps_broken
  deps_broken_sound [] e = cc
  deps_broken_sound (r ∷ rs) e = elim (Bool-cases (is_init r.kind)) [
    | inr other ↦ let (x, i, b) = deps_broken_sound rs (ground arith) in (x, there i, b)
    | inl kind ↦ elim (Bool-cases (dep_broken o metas id (slot_of metas id) r)) [
      | inl hit ↦ (r, here, dep_broken_sound r kind hit)
      | inr miss ↦ let (x, i, b) = deps_broken_sound rs (ground arith) in (x, there i, b)
    ]
  ]

  deps_broken_of :
      (rs : List Dependency) (r : Dependency)
      → In r rs
      → Breaks o metas id r
      → deps_broken o metas id (slot_of metas id) rs ≡ true
  unfolding deps_broken
  deps_broken_of [] r i b = elim i [ ]
  deps_broken_of (x ∷ rs) r i b = elim (In-cons_cases i) [
    | inl e ↦
        let b' : Breaks o metas id x = subst (Breaks o metas id) e b in
        ground (arith, init_of x b', dep_broken_of x b')
    | inr later ↦ ground (arith, deps_broken_of rs r later b)
  ]

  loop_sound :
      (rows : Map Meta) (k : Text)
      → In k (dependents_loop o metas id (slot_of metas id) rows)
      → (m : Meta) × In (k, m) rows
        × (k ≢ id)
        × (deps_broken o metas id (slot_of metas id) m.requires.deps ≡ true)
  unfolding dependents_loop
  loop_sound [] k i = elim i [ ]
  loop_sound ((n, x) ∷ rows) k i = elim (Bool-cases (text_eq n id)) [
    | inl self ↦ let (m, j, ne, b) = loop_sound rows k (rw self at i) in (m, there j, ne, b)
    | inr other ↦ elim (Bool-cases (deps_broken o metas id (slot_of metas id) x.requires.deps)) [
      | inl b ↦ elim (In-cons_cases (rw (other, b) at i)) [
        | inl e ↦ (
          x,
          subst (λ t. In (t, x) ((n, x) ∷ rows)) (sym e) here,
          (λ same.
              let again : text_eq n id ≡ true =
                subst (λ t. text_eq t id ≡ true) e (rw same (text_eq_refl id)) in
              cc),
          b,
        )
        | inr later ↦ let (m, j, ne, c) = loop_sound rows k later in (m, there j, ne, c)
      ]
      | inr b ↦ let (m, j, ne, c) = loop_sound rows k (rw (other, b) at i) in (m, there j, ne, c)
    ]
  ]

  loop_of :
      (rows : Map Meta) (k : Text) (m : Meta)
      → In (k, m) rows
      → k ≢ id
      → deps_broken o metas id (slot_of metas id) m.requires.deps ≡ true
      → In k (dependents_loop o metas id (slot_of metas id) rows)
  unfolding dependents_loop
  loop_of [] k m i ne b = elim i [ ]
  loop_of ((n, x) ∷ rows) k m i ne b = elim (In-cons_cases i) [
    | inl e ↦
        let name : k ≡ n = ap (λ z. z.0) e in
        let meta : m ≡ x = ap (λ z. z.1) e in
        let b' : deps_broken o metas id (slot_of metas id) x.requires.deps ≡ true =
          subst (λ z. deps_broken o metas id (slot_of metas id) z.requires.deps ≡ true) meta b in
        let apart : text_eq n id ≡ false =
          subst (λ t. text_eq t id ≡ false) name (text_ne k id ne) in
        rw (apart, b')
          (subst (λ t. In k (t ∷ dependents_loop o metas id (slot_of metas id) rows)) name here)
    | inr later ↦
        let inner = loop_of rows k m later ne b in
        elim (Bool-cases (text_eq n id)) [
          | inl self ↦ rw self inner
          | inr other ↦
              elim (Bool-cases (deps_broken o metas id (slot_of metas id) x.requires.deps)) [
                | inl hit ↦ rw (other, hit) (there inner)
                | inr miss ↦ rw (other, miss) inner
              ]
        ]
  ]

  -- The loop of Dependents gives exactly the plugins that need `id`.
  pub loop-Needs :
      (k : Text) → In k (dependents_loop o metas id (slot_of metas id) metas) ↔ Needs o metas id k
  loop-Needs k = (
    λ i.
        let (m, j, ne, b) = loop_sound metas k i in
        let (r, d, br) = deps_broken_sound m.requires.deps b in
        record { meta = m; dependency = r; registered = j; beside = ne; declared = d; breaks = br },
    λ n.
        loop_of metas k n.meta n.registered n.beside
          (deps_broken_of n.meta.requires.deps n.dependency n.declared n.breaks),
  )

  -- The loops of Dependents and of Remove agree.
  pub loops_agree :
      (slot : Text) (rows : Map Meta)
      → dependents_loop o metas id slot rows
        ≡ map
            (λ e. e.0)
            (filter
              (λ e. not (contains (id ∷ []) e.0) && deps_broken o metas id slot (e.1).requires.deps)
              rows)
  unfolding dependents_loop filter contains any
  loops_agree slot [] = refl
  loops_agree slot ((k, m) ∷ rows) = elim (Bool-cases (text_eq k id)) [
    | inl self ↦
        let e : k ≡ id = text_eq_sound k id self in
        let self' : text_eq id k ≡ true =
          subst (λ t. text_eq id t ≡ true) (sym e) (text_eq_refl id) in
        ground (arith, loops_agree slot rows)
    | inr other ↦
        let other' : text_eq id k ≡ false =
          text_ne id k (λ e. let again : text_eq k id ≡ true = rw e (text_eq_refl k) in cc) in
        ground (arith, loops_agree slot rows)
  ]
