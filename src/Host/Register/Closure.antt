-- ===== src/Host/Register/Closure.antt =====
-- host/register.go: the tables of plugins and metas through Register, and the dependencies of the
-- registered plugins.
use egop.Prelude.{
  Text, length, text_eq_iff, is_empty, lookup, lookup-insert, insert, insert_new, insert-IsUnique,
  has, any, any_at, any_find, In, In-append_left, In-append_cases, In-cons_cases, IsUnique, Map, ℕ,
  zero, suc, Bool-cases, Option-cases, true, false, or_cases, or_intro_left, or_intro_right, List,
  [], ◌∷◌, ◌++◌, Option, none, some, ◌≡◌, refl, sym, ap, ◌∙◌, inl, inr, arith,
}
use egop.Contract.Meta.{Meta, Dependency}
use egop.Host.State.{Options, Plugin, Host, HostError, emit}
use egop.Host.State
use egop.Host.Slots.{find_slot, is_builtin, slot_satisfied}
use egop.Host.Check.{is_init, version_of, check_dep, check_deps, validate_contract}
use egop.Host.Remove.Closure.{Stands, NamesOne, AllStand, IsClosed, claims}
use egop.Host.Register.{
  remove_pending, enter, commit, register_functions, register_locked, announce, announced,
  register_one, finish_register, register_with, split_pending, after_retry, register_ready, retry,
  register,
}

pub record IsRegistry (o : Options) (h : Host) : Type 0 where
  pub paired : (k : Text) → has k h.plugins ≡ has k h.metas
  pub unique : IsUnique h.metas
  pub closed : IsClosed o h.metas

-- What Register can do to the two tables: nothing, or one new entry that the contract check let in.
pub record Kept (h h' : Host) : Type 0 where
  pub plugins : h'.plugins ≡ h.plugins
  pub metas : h'.metas ≡ h.metas

pub record Entered (o : Options) (p : Plugin) (h h' : Host) : Type 0 where
  pub absent : has p.meta.id h.plugins ≡ false
  pub valid : validate_contract o h.plugins h.metas p.meta ≡ none
  pub plugins : h'.plugins ≡ insert p.meta.id p h.plugins
  pub metas : h'.metas ≡ insert p.meta.id p.meta h.metas

-- On success the plugin is entered, and on failure both tables are as they were.
abbrev pub Stepped : Options → Plugin → Host → Host × Option HostError → Type 0
Stepped o p h (h', none) = Entered o p h h'
Stepped o p h (h', some e) = Kept h h'

remove_pending-Kept : (id : Text) (h : Host) → Kept h (remove_pending id h)
unfolding remove_pending
remove_pending-Kept id h = elim (Bool-cases (has id h.pending_plugins)) [
  | inl e ↦ rw e (record { plugins = refl; metas = refl })
  | inr e ↦ rw e (record { plugins = refl; metas = refl })
]

module _ (o : Options) (p : Plugin) (h : Host) where
  commit-Stepped :
      (h₁ : Host) (r : Map State.FnEntry × Option HostError)
      → Kept h h₁
      → has p.meta.id h.plugins ≡ false
      → validate_contract o h₁.plugins h₁.metas p.meta ≡ none
      → Stepped o p h (commit p p.meta h₁ r)
  unfolding commit enter
  commit-Stepped h₁ (fns, some e) k absent valid = record { plugins = k.plugins; metas = k.metas }
  commit-Stepped h₁ (fns, none) k absent valid = record {
    absent = absent;
    valid = rw (k.plugins, k.metas) at valid;
    plugins = rw k.plugins;
    metas = rw k.metas;
  }

  register_locked-Stepped : Stepped o p h (register_locked o p p.meta h)
  unfolding register_locked
  register_locked-Stepped = elim (Bool-cases (has p.meta.id h.plugins)) [
    | inl e ↦ rw e (record { plugins = refl; metas = refl })
    | inr e ↦
        let h₁ = remove_pending p.meta.id h in
        let k = remove_pending-Kept p.meta.id h in
        elim (Option-cases (validate_contract o h₁.plugins h₁.metas p.meta)) [
          | inl valid ↦
              rw (e, valid) (commit-Stepped h₁ (register_functions p p.meta h₁.fns) k e valid)
          | inr (err, invalid) ↦ rw (e, invalid) k
        ]
  ]

  announced-Stepped :
      (r : Host × Option HostError) → Stepped o p h r → Stepped o p h (announced p p.meta r)
  unfolding announced announce emit
  announced-Stepped (h', some e) s = s
  announced-Stepped (h', none) n = record {
    absent = n.absent;
    valid = n.valid;
    plugins = n.plugins;
    metas = n.metas;
  }

  pub register_one-Stepped : Stepped o p h (register_one o p h)
  unfolding register_one
  register_one-Stepped = elim (Bool-cases (is_empty p.meta.id)) [
    | inl e ↦ rw e (record { plugins = refl; metas = refl })
    | inr e ↦ rw e (announced-Stepped (register_locked o p p.meta h) register_locked-Stepped)
  ]

module _ (o : Options) (id : Text) (m : Meta) (metas : Map Meta)
    (new : lookup id metas ≡ none) where
  slot-insert :
      (slot : Text)
      → slot_satisfied o metas slot ≡ true
      → slot_satisfied o (insert id m metas) slot ≡ true
  unfolding slot_satisfied
  slot-insert slot h = elim (or_cases (is_builtin (find_slot o slot)) (any (claims slot) metas) h) [
    | inl b ↦ or_intro_left _ _ b
    | inr a ↦
        let (e, i, c) = any_find (claims slot) metas a in
        rw (insert_new id m metas new) (
          or_intro_right _ _
            (any_at (claims slot) (metas ++ (id, m) ∷ []) (In-append_left ((id, m) ∷ []) i) c))
  ]

  Stands-insert : (r : Dependency) → Stands o metas r → Stands o (insert id m metas) r
  Stands-insert r s = record {
    by_plugin = λ named.
        let (n, found, recent) = s.by_plugin named in
        (n, ground (arith, lookup-insert id r.plugin m metas, text_eq_iff id r.plugin), recent);
    by_slot = λ unnamed named. slot-insert r.slot (s.by_slot unnamed named);
  }

module _ (o : Options) (plugins : Map Plugin) (metas : Map Meta)
    (paired : (k : Text) → has k plugins ≡ has k metas) where
  check_dep-Stands :
      (id : Text) (r : Dependency)
      → check_dep o plugins metas id r ≡ none
      → NamesOne r
      → Stands o metas r
  unfolding check_dep version_of
  check_dep-Stands id r h one = record {
    by_plugin = λ named.
        let unslotted : is_empty r.slot ≡ true = ground arith in
        let registered : has r.plugin plugins ≡ true = ground arith in
        let also : has r.plugin metas ≡ true = sym (paired r.plugin) ∙ registered in
        elim (Option-cases (lookup r.plugin metas)) [
          | inl missing ↦ let bad : false ≡ true = rw missing at also in cc
          | inr (m, found) ↦ (m, found, ground arith)
        ];
    by_slot = λ unnamed named. ground arith;
  }

  check_deps-AllStand :
      (id : Text) (rs : List Dependency)
      → check_deps o plugins metas id rs ≡ none
      → AllStand o metas rs
  unfolding check_deps is_init
  check_deps-AllStand id [] h r i kind one = elim i [ ]
  check_deps-AllStand id (d ∷ rs) h r i kind one = elim (In-cons_cases i) [
    | inl e ↦
        let hard : is_init d.kind ≡ true = rw (← e, kind) in
        let passed : check_dep o plugins metas id d ≡ none = ground arith in
        rw e (check_dep-Stands id d passed (rw e at one))
    | inr i' ↦ check_deps-AllStand id rs (ground arith) r i' kind one
  ]

validate-check_deps :
    (o : Options) (plugins : Map Plugin) (metas : Map Meta) (m : Meta)
    → validate_contract o plugins metas m ≡ none
    → check_deps o plugins metas m.id m.requires.deps ≡ none
unfolding validate_contract
validate-check_deps o plugins metas m h = ground arith

has-none {ℓ} : {V : Type ℓ} (k : Text) (m : Map V) → has k m ≡ false → lookup k m ≡ none
has-none k m h = ground arith

module _ (o : Options) where
  Entered-IsRegistry :
      (p : Plugin) (h h' : Host) → Entered o p h h' → IsRegistry o h → IsRegistry o h'
  Entered-IsRegistry p h h' n reg =
      let m = p.meta in
      let new : lookup m.id h.metas ≡ none =
        has-none m.id h.metas (sym (reg.paired m.id) ∙ n.absent) in
      record {
        paired = λ k.
            rw (n.plugins, n.metas)
              (ground (
                arith,
                lookup-insert m.id k p h.plugins,
                lookup-insert m.id k m h.metas,
                reg.paired k,
              ));
        unique = rw n.metas (insert-IsUnique m.id m h.metas new reg.unique);
        closed = λ id m' i r dep kind one.
            let old_entry : In (id, m') (insert m.id m h.metas) = rw n.metas at i in
            rw n.metas (
              Stands-insert o m.id m h.metas new r
                (elim (In-append_cases h.metas ((m.id, m) ∷ [])
                  (rw (insert_new m.id m h.metas new) at old_entry)) [
                    | inl old ↦ reg.closed id m' old r dep kind one
                    | inr last ↦ elim (In-cons_cases last) [
                      | inl e ↦
                          let same : m' ≡ m = ap (λ t. t.1) e in
                          check_deps-AllStand o h.plugins h.metas reg.paired m.id m.requires.deps
                            (validate-check_deps o h.plugins h.metas m n.valid) r (rw same at dep)
                            kind one
                      | inr none_left ↦ elim none_left [ ]
                    ]
                  ]));
      }

  Stepped-IsRegistry :
      (p : Plugin) (h : Host) (r : Host × Option HostError)
      → Stepped o p h r
      → IsRegistry o h
      → IsRegistry o r.0
  Stepped-IsRegistry p h (h', some e) k reg = record {
    paired = rw (k.plugins, k.metas) reg.paired;
    unique = rw k.metas reg.unique;
    closed = rw k.metas reg.closed;
  }
  Stepped-IsRegistry p h (h', none) n reg = Entered-IsRegistry p h h' n reg

  -- A step of the host that keeps the registry's invariant.
  abbrev pub Keeps : (Host → Option Host) → Type 0
  Keeps k = (h h' : Host) → IsRegistry o h → k h ≡ some h' → IsRegistry o h'

  after_retry-IsRegistry :
      (p : Plugin) (r : Host × Option HostError) → IsRegistry o r.0 → IsRegistry o (after_retry p r)
  unfolding after_retry emit
  after_retry-IsRegistry p (h, none) reg = reg
  after_retry-IsRegistry p (h, some e) reg = record {
    paired = reg.paired;
    unique = reg.unique;
    closed = reg.closed;
  }

  module _ (k : Host → Option Host) (keeps : Keeps k) where
    finish_register-Keeps :
        (r r' : Host × Option HostError)
        → IsRegistry o r.0
        → finish_register k r ≡ some r'
        → IsRegistry o r'.0
    unfolding finish_register
    finish_register-Keeps (h, some e) r' reg ran = let same : h ≡ r'.0 = cc in rw (← same) reg
    finish_register-Keeps (h, none) r' reg ran = elim (Option-cases (k h)) [
      | inl stuck ↦ let bad : none ≡ some r' = rw (stuck, finish_register) at ran in cc
      | inr (h', done) ↦
          let same : some (h', none) ≡ some r' = rw (done, finish_register) at ran in
          let last : h' ≡ r'.0 = cc in rw (← last) (keeps h h' reg done)
    ]

    register_with-Keeps :
        (p : Plugin) (h : Host) (r : Host × Option HostError)
        → IsRegistry o h
        → register_with k o p h ≡ some r
        → IsRegistry o r.0
    unfolding register_with
    register_with-Keeps p h r reg ran =
        finish_register-Keeps (register_one o p h) r
          (Stepped-IsRegistry p h (register_one o p h) (register_one-Stepped o p h) reg) ran

    register_ready-Keeps : (ps : List Plugin) → Keeps (register_ready k o ps)
    unfolding register_ready
    register_ready-Keeps [] h h' reg ran = let same : h ≡ h' = cc in rw (← same) reg
    register_ready-Keeps (p ∷ ps) h h' reg ran = elim (Option-cases (register_with k o p h)) [
      | inl stuck ↦ let bad : none ≡ some h' = rw (stuck, register_ready) at ran in cc
      | inr (r, done) ↦
          register_ready-Keeps ps (after_retry p r) h'
            (after_retry-IsRegistry p r (register_with-Keeps p h r reg done))
            (rw (done, register_ready) at ran)
    ]

  retry-Keeps : (fuel : ℕ) → Keeps (retry fuel o)
  unfolding retry
  retry-Keeps zero h h' reg ran = cc
  retry-Keeps (suc fuel) h h' reg ran =
      elim (Option-cases (split_pending o h h.pending h.pending_plugins)) [
        | inl stuck ↦ let bad : none ≡ some h' = rw (stuck, retry) at ran in cc
        | inr (r, split) ↦
            register_ready-Keeps (retry fuel o) (retry-Keeps fuel) r.0
              (record h { pending = r.1; pending_plugins = r.2 }) h'
              (record { paired = reg.paired; unique = reg.unique; closed = reg.closed })
              (rw (split, retry) at ran)
      ]

-- Register, with all the waiting plugins that it registers on the way, keeps the registry's
-- invariant, whether it succeeds or fails.
pub register-IsRegistry :
    (o : Options) (p : Plugin) (h h' : Host) (err : Option HostError)
    → IsRegistry o h
    → register o p h ≡ some (h', err)
    → IsRegistry o h'
unfolding register
register-IsRegistry o p h h' err reg ran =
    register_with-Keeps o (λ s. retry (suc (length s.pending)) o s)
      (λ s. retry-Keeps o (suc (length s.pending)) s) p h (h', err) reg ran
