-- ===== src/Host/Remove/Closure.antt =====
-- host/register.go: the dependencies of the registered plugins through a removal.
use egop.Prelude.{
  Text, text_eq, text_eq_iff, contains, contains_at, contains_find, lookup, lookup-delete, delete,
  any, any_at, any_find, In, In-append_left, In-append_right, In-map, In-filter, In-delete,
  In-of-delete, IsUnique, delete-IsUnique, In-cons_cases, Map, ℕ, zero, suc, Bool, Bool-cases, true,
  false, not, ◌&&◌, is_empty, List, [], ◌∷◌, ◌++◌, some, ◌≡◌, ◌≢◌, sym, inl, inr, ◌⊎◌, arith,
  and_right, or_cases, or_intro_left, or_intro_right, text_eq_sound, ◌∙◌,
}
use egop.Contract.Meta.{Meta, Dependency, DependencyKind}
use egop.Host.State.{Options, Host}
use egop.Host.Slots.{find_slot, is_builtin, slot_satisfied, slot_satisfied_excluding}
use egop.Host.Check.{is_init}
use egop.Host.Version.{version_at_least}
use egop.Host.Remove.{slot_of, dep_broken, deps_broken, broken_by, drop_plugin, note_version, sweep}
use egop.Host.Remove.Sweep.{contains-append}

-- A dependency stands: the plugin that it names is registered, in a version that is new enough; or,
-- where it names none, the slot that it names is built in or claimed by a registered plugin.
pub record Stands (o : Options) (metas : Map Meta) (r : Dependency) : Type 0 where
  pub by_plugin :
      is_empty r.plugin ≡ false
      → (m : Meta) × (lookup r.plugin metas ≡ some m)
        × ((is_empty r.min_version ≡ true) ⊎ (version_at_least m.version r.min_version ≡ true))
  pub by_slot :
      is_empty r.plugin ≡ true → is_empty r.slot ≡ false → slot_satisfied o metas r.slot ≡ true

-- A dependency names a plugin or a slot, and not both.
abbrev pub NamesOne : Dependency → Type 0
NamesOne r = (is_empty r.plugin ≡ true) ⊎ (is_empty r.slot ≡ true)

abbrev pub AllStand : Options → Map Meta → List Dependency → Type 0
AllStand o metas deps =
    (r : Dependency) → In r deps → r.kind ≡ DependencyKind.init → NamesOne r → Stands o metas r

-- Every registered plugin's DepInit dependencies stand, those that name a plugin or a slot.
abbrev pub IsClosed : Options → Map Meta → Type 0
IsClosed o metas = (id : Text) (m : Meta) → In (id, m) metas → AllStand o metas m.requires.deps

is_init-init : (k : DependencyKind) → k ≡ DependencyKind.init → is_init k ≡ true
unfolding is_init
is_init-init k e = rw e

abbrev pub claims : Text → Text × Meta → Bool
claims slot e = text_eq (e.1).slot slot

abbrev pub claims_beside : Text → Text → Text × Meta → Bool
claims_beside slot id e = not (text_eq e.0 id) && text_eq (e.1).slot slot

slot_of_entry :
    (metas : Map Meta) (id : Text) (m : Meta) → lookup id metas ≡ some m → slot_of metas id ≡ m.slot
unfolding slot_of
slot_of_entry metas id m h = rw (h, slot_of)

module _ (o : Options) (metas : Map Meta) (unique : IsUnique metas) (id : Text) where
  claimant_apart :
      (slot : Text) (k : Text) (m : Meta)
      → text_eq slot (slot_of metas id) ≡ false
      → In (k, m) metas
      → text_eq m.slot slot ≡ true
      → id ≢ k
  claimant_apart slot k m other i c s =
      let found : lookup id metas ≡ some m = rw s (unique k m i) in
      let same : slot ≡ slot_of metas id =
        sym (text_eq_sound m.slot slot c) ∙ sym (slot_of_entry metas id m found) in
      let t : text_eq slot (slot_of metas id) ≡ true = (text_eq_iff _ _).1 same in cc

  -- A slot that the deleted plugin does not claim keeps its provider.
  slot_kept :
      (slot : Text)
      → text_eq slot (slot_of metas id) ≡ false
      → slot_satisfied o metas slot ≡ true
      → slot_satisfied o (delete id metas) slot ≡ true
  unfolding slot_satisfied
  slot_kept slot other h =
      elim (or_cases (is_builtin (find_slot o slot)) (any (claims slot) metas) h) [
        | inl b ↦ or_intro_left _ _ b
        | inr a ↦
            let (e, m, c) = any_find (claims slot) metas a in
            or_intro_right _ _ (
              any_at (claims slot) (delete id metas)
                (In-delete id metas m (claimant_apart slot e.0 e.1 other m c)) c)
      ]

  excluding_kept :
      (slot : Text)
      → slot_satisfied_excluding o (delete id metas) slot id ≡ true
      → slot_satisfied o (delete id metas) slot ≡ true
  unfolding slot_satisfied slot_satisfied_excluding
  excluding_kept slot h =
      elim (or_cases (is_builtin (find_slot o slot)) (any (claims_beside slot id) (delete id metas))
        h) [
          | inl b ↦ or_intro_left _ _ b
          | inr a ↦
              let (e, m, c) = any_find (claims_beside slot id) (delete id metas) a in
              or_intro_right _ _ (any_at (claims slot) (delete id metas) m (and_right _ _ c))
        ]

  -- A dependency that the removal does not break stands after it.
  Stands-after :
      (r : Dependency)
      → Stands o metas r
      → dep_broken o (delete id metas) id (slot_of metas id) r ≡ false
      → Stands o (delete id metas) r
  unfolding dep_broken
  Stands-after r s b = record {
    by_plugin = λ named.
        let other : text_eq r.plugin id ≡ false = ground arith in
        let (m, found, recent) = s.by_plugin named in
        (
          m,
          ground (
            arith,
            lookup-delete id r.plugin metas,
            text_eq_iff r.plugin id,
            text_eq_iff id r.plugin,
          ),
          recent,
        );
    by_slot = λ unnamed named.
        let there : slot_satisfied o metas r.slot ≡ true = s.by_slot unnamed named in
        elim (Bool-cases (text_eq r.slot (slot_of metas id))) [
          | inl same ↦ excluding_kept r.slot (ground arith)
          | inr other ↦ slot_kept r.slot other there
        ];
  }

  deps_broken_at :
      (deps : List Dependency) (metas' : Map Meta) (slot : Text)
      → deps_broken o metas' id slot deps ≡ false
      → (r : Dependency) → In r deps
      → r.kind ≡ DependencyKind.init
      → dep_broken o metas' id slot r ≡ false
  unfolding deps_broken
  deps_broken_at [] metas' slot h r m k = elim m [ ]
  deps_broken_at (d ∷ deps) metas' slot h r m k = elim (In-cons_cases m) [
    | inl e ↦
        let init : is_init d.kind ≡ true = is_init-init d.kind (rw (← e) k) in rw e (ground arith)
    | inr m' ↦ deps_broken_at deps metas' slot (ground arith) r m' k
  ]

module _ (o : Options) where
  -- The loop's invariant: the plugins that are no victims have all that they need, and a victim
  -- that is still registered waits in the queue.
  pub record IsOpen (victims queue : List Text) (metas : Map Meta) : Type 0 where
    pub unique : IsUnique metas
    pub safe :
        (id : Text) (m : Meta)
        → In (id, m) metas
        → contains victims id ≡ false
        → AllStand o metas m.requires.deps
    pub queued :
        (id : Text) (m : Meta) → In (id, m) metas → contains victims id ≡ true → In id queue

  module _ (id : Text) (queue victims : List Text) (metas : Map Meta) where
    abbrev broken : List Text
    broken = broken_by o (delete id metas) id (slot_of metas id) victims

    not_broken :
        (k : Text) (m : Meta)
        → In (k, m) (delete id metas)
        → contains victims k ≡ false
        → contains broken k ≡ false
        → deps_broken o (delete id metas) id (slot_of metas id) m.requires.deps ≡ false
    unfolding broken_by
    not_broken k m i v b =
        elim (Bool-cases (deps_broken o (delete id metas) id (slot_of metas id) m.requires.deps)) [
          | inr e ↦ e
          | inl e ↦
              let p = λ (e : Text × Meta).
                not (contains victims e.0)
                && deps_broken o (delete id metas) id (slot_of metas id) (e.1).requires.deps in
              let chosen : p (k, m) ≡ true = ground arith in
              let among : contains broken k ≡ true =
                contains_at broken k
                  (In-map (λ (e : Text × Meta). e.0) (In-filter p (delete id metas) i chosen)) in
              cc
        ]

    IsOpen-step :
        IsOpen victims (id ∷ queue) metas
        → IsOpen (victims ++ broken) (queue ++ broken) (delete id metas)
    IsOpen-step inv = record {
      unique = delete-IsUnique id metas inv.unique;
      safe = λ k m i out r dep kind one.
          let here_out : contains victims k ≡ false =
            ground (arith, contains-append victims broken k) in
          let not_new : contains broken k ≡ false =
            ground (arith, contains-append victims broken k) in
          let (before, apart) = In-of-delete id metas i in
          Stands-after o metas inv.unique id r (inv.safe k m before here_out r dep kind one) (
            deps_broken_at o metas inv.unique id m.requires.deps (delete id metas)
              (slot_of metas id) (not_broken k m i here_out not_new) r dep kind);
      queued = λ k m i among.
          let (before, apart) = In-of-delete id metas i in
          elim (or_cases (contains victims k) (contains broken k)
            (rw (← contains-append victims broken k) among)) [
              | inl old ↦ elim (In-cons_cases (inv.queued k m before old)) [
                | inl same ↦ absurd (apart (sym same))
                | inr waits ↦ In-append_left broken waits
              ]
              | inr new ↦ In-append_right queue (contains_find broken k new)
            ];
    }

  -- After the loop every plugin that is left has its dependencies.
  pub sweep-IsClosed :
      (fuel : ℕ) (queue victims : List Text) (versions : Map Text) (h : Host) (victims' : List Text)
      (versions' : Map Text) (h' : Host)
      → IsOpen victims queue h.metas
      → sweep fuel o queue victims versions h ≡ some (victims', versions', h')
      → IsClosed o h'.metas × IsUnique h'.metas
  unfolding sweep drop_plugin
  sweep-IsClosed zero queue victims versions h victims' versions' h' inv e = cc
  sweep-IsClosed (suc fuel) [] victims versions h victims' versions' h' inv e =
      let same : h ≡ h' = cc in
      rw (← same) (
        (λ id m i. elim (Bool-cases (contains victims id)) [
          | inl among ↦ elim (inv.queued id m i among) [ ]
          | inr out ↦ inv.safe id m i out
        ]),
        inv.unique,
      )
  sweep-IsClosed (suc fuel) (id ∷ queue) victims versions h victims' versions' h' inv e =
      sweep-IsClosed fuel (queue ++ broken id queue victims h.metas)
        (victims ++ broken id queue victims h.metas) (note_version id (lookup id h.metas) versions)
        (drop_plugin id h) victims' versions' h' (IsOpen-step id queue victims h.metas inv) e
