-- ===== src/Host/Slots/Contracts.antt =====
-- host/register.go: the slot check of validateContractLocked against the ten conditions of a slot's contract.
use egop.Prelude.{
  Text, is_empty, contains, contains_at, contains_find, In, here, there, In-cons_cases, Map, map,
  Bool, Bool-cases, Option-cases, List-cases, true, false, List, [], ◌∷◌, ◌++◌, Option, none, some,
  ◌≡◌, ◌↔◌, ◌⊎◌, refl, inl, inr, arith,
}
use egop.Contract.Meta.{Meta, SlotSpec}
use egop.Host.State.{Options, Plugin, Miss, HostError}
use egop.Host.State
use egop.Host.Slots.{find_slot, slot_satisfied, missing, unavailable, slot_misses, slot_check}
use egop.Host.Check.{check_slot}

-- Every name of `names` stands in `there_too`.
abbrev pub Among : List Text → List Text → Type 0
Among there_too names = (k : Text) → In k names → In k there_too

-- What a plugin owes the slot that it claims.
pub record Fulfils (o : Options) (metas : Map Meta) (m : Meta) (spec : SlotSpec) : Type 0 where
  pub points : Among m.provides.points spec.provides
  pub capabilities : Among m.provides.capabilities spec.capabilities
  pub functions : Among (map (λ f. f.name) m.provides.functions) spec.functions
  pub hooks : Among (map (λ k. k.id) m.provides.hooks) spec.hooks
  pub config : Among (map (λ c. c.key) m.provides.config) spec.config
  pub listens : Among m.requires.listens spec.listens
  pub events : Among (map (λ e. e.id) m.provides.events) spec.events
  pub needs : (k : Text) → In k spec.needs → slot_satisfied o metas k ≡ true
  pub needs_tools : Among m.requires.tools spec.needs_tools
  pub tools : (names : List Text) → o.tool_names ≡ some names → Among names m.requires.tools

module _ (line : Text → Miss) (has_it : Text → Bool) where
  missing_none :
      (ks : List Text) → missing line has_it ks ≡ [] → (k : Text) → In k ks → has_it k ≡ true
  unfolding missing
  missing_none [] e k i = elim i [ ]
  missing_none (j ∷ ks) e k i = elim (Bool-cases (has_it j)) [
    | inl there_too ↦ elim (In-cons_cases i) [
      | inl same ↦ rw same there_too
      | inr later ↦ missing_none ks (ground arith) k later
    ]
    | inr absent ↦ let bad : line j ∷ missing line has_it ks ≡ [] = ground arith in cc
  ]

  none_missing :
      (ks : List Text) → ((k : Text) → In k ks → has_it k ≡ true) → missing line has_it ks ≡ []
  unfolding missing
  none_missing [] all_there = refl
  none_missing (j ∷ ks) all_there =
      rw (all_there j here) (none_missing ks (λ k i. all_there k (there i)))

module _ (line : Text → Miss) (there_too : List Text) where
  listed : (ks : List Text) → missing line (contains there_too) ks ≡ [] → Among there_too ks
  listed ks e k i = contains_find there_too k (missing_none line (contains there_too) ks e k i)

  unlisted : (ks : List Text) → Among there_too ks → missing line (contains there_too) ks ≡ []
  unlisted ks among =
      none_missing line (contains there_too) ks (λ k i. contains_at there_too k (among k i))

append_nil_left {ℓ} : {A : Type ℓ} (xs ys : List A) → xs ++ ys ≡ [] → (xs ≡ []) × (ys ≡ [])
append_nil_left [] ys e = (refl, e)
append_nil_left (x ∷ xs) ys e = cc

unavailable_none :
    (tool_names : Option (List Text)) (tools : List Text)
    → unavailable tool_names tools ≡ []
    → (names : List Text) → tool_names ≡ some names
    → Among names tools
unfolding unavailable
unavailable_none none tools e names found = cc
unavailable_none (some given) tools e names found =
    let same : given ≡ names = ground arith in
    rw (← same) (listed State.unavailable_tool given tools e)

none_unavailable :
    (tool_names : Option (List Text)) (tools : List Text)
    → ((names : List Text) → tool_names ≡ some names → Among names tools)
    → unavailable tool_names tools ≡ []
unfolding unavailable
none_unavailable none tools among = refl
none_unavailable (some given) tools among =
    unlisted State.unavailable_tool given tools (among given refl)

module _ (o : Options) (metas : Map Meta) (m : Meta) (spec : SlotSpec) where
  misses-Fulfils : slot_misses o metas m spec ≡ [] → Fulfils o metas m spec
  unfolding slot_misses
  misses-Fulfils e =
      let (a, e₁) = append_nil_left _ _ e in
      let (b, e₂) = append_nil_left _ _ e₁ in
      let (c, e₃) = append_nil_left _ _ e₂ in
      let (d, e₄) = append_nil_left _ _ e₃ in
      let (f, e₅) = append_nil_left _ _ e₄ in
      let (g, e₆) = append_nil_left _ _ e₅ in
      let (i, e₇) = append_nil_left _ _ e₆ in
      let (j, e₈) = append_nil_left _ _ e₇ in
      let (k, l) = append_nil_left _ _ e₈ in
      record {
        points = listed State.emitted_point m.provides.points spec.provides a;
        capabilities = listed State.capability m.provides.capabilities spec.capabilities b;
        functions = listed State.function (map (λ f. f.name) m.provides.functions) spec.functions c;
        hooks = listed State.hook_point (map (λ k. k.id) m.provides.hooks) spec.hooks d;
        config = listed State.config_field (map (λ c. c.key) m.provides.config) spec.config f;
        listens = listed State.listened_point m.requires.listens spec.listens g;
        events = listed State.event_topic (map (λ e. e.id) m.provides.events) spec.events i;
        needs = missing_none State.needed_slot (slot_satisfied o metas) spec.needs j;
        needs_tools = listed State.needed_tool m.requires.tools spec.needs_tools k;
        tools = unavailable_none o.tool_names m.requires.tools l;
      }

  Fulfils-misses : Fulfils o metas m spec → slot_misses o metas m spec ≡ []
  unfolding slot_misses
  Fulfils-misses w =
      rw
        (
          unlisted State.emitted_point m.provides.points spec.provides w.points,
          unlisted State.capability m.provides.capabilities spec.capabilities w.capabilities,
          unlisted State.function (map (λ f. f.name) m.provides.functions) spec.functions
              w.functions,
          unlisted State.hook_point (map (λ k. k.id) m.provides.hooks) spec.hooks w.hooks,
          unlisted State.config_field (map (λ c. c.key) m.provides.config) spec.config w.config,
          unlisted State.listened_point m.requires.listens spec.listens w.listens,
          unlisted State.event_topic (map (λ e. e.id) m.provides.events) spec.events w.events,
          none_missing State.needed_slot (slot_satisfied o metas) spec.needs w.needs,
          unlisted State.needed_tool m.requires.tools spec.needs_tools w.needs_tools,
        )
        (none_unavailable o.tool_names m.requires.tools w.tools)

-- A plugin passes the slot check exactly if it claims no slot, or claims one that the catalogue has
-- and owes its contract nothing: every point, capability, function, hook point, configuration field,
-- topic that the slot asks for is declared, its listened points and tools are required, the slots
-- that it needs are held, and where the host names its tools, every required tool is one of them. Tools
-- that registered plugins provide do not count there, and a plugin that claims no slot is not asked for
-- its tools, although the documents say that every needed tool has a provider, among them or in the host.
pub check_slot_iff :
    (o : Options) (plugins : Map Plugin) (metas : Map Meta) (m : Meta)
    → (check_slot o plugins metas m ≡ none) ↔ (
        (is_empty m.slot ≡ true)
        ⊎ ((is_empty m.slot ≡ false)
            × (spec : SlotSpec) × (find_slot o m.slot ≡ some spec)
            × Fulfils o metas m spec))
unfolding check_slot slot_check
check_slot_iff o plugins metas m = (
  (λ passed. elim (Bool-cases (is_empty m.slot)) [
    | inl e ↦ inl e
    | inr e ↦ elim (Option-cases (find_slot o m.slot)) [
      | inl unknown ↦
          let bad : some (State.unknown_slot m.id m.slot) ≡ none =
            rw (e, unknown, check_slot, slot_check) at passed in
          cc
      | inr (spec, known) ↦ elim (List-cases (slot_misses o metas m spec)) [
        | inl nothing ↦ inr (e, spec, known, misses-Fulfils o metas m spec nothing)
        | inr (x, xs, lines) ↦
            let bad : some (State.slot_unmet m.id m.slot (x ∷ xs)) ≡ none =
              rw (e, known, lines, check_slot, slot_check) at passed in
            cc
      ]
    ]
  ]),
  (λ claim. elim claim [
    | inl e ↦ rw (e, check_slot) refl
    | inr (e, spec, known, w) ↦
        rw (e, known, Fulfils-misses o metas m spec w, check_slot, slot_check) refl
  ]),
)
