-- ===== src/Contract/Event/Filters.antt =====
-- contract/contract.go: EventFilter.Match against what each field of a filter asks for.
use egop.Prelude.{
  Text, text_eq, text_eq_iff, is_empty, lookup, In, here, there, In-cons_cases, Map, Bool, true,
  false, not, ◌&&◌, [], ◌∷◌, Option, none, some, ◌≡◌, ◌↔◌, ◌⊎◌, refl, ap, inl, inr, arith,
}
use egop.Contract.Glob.{glob_match}
use egop.Contract.Glob.Spec.{Glob}
use egop.Contract.Glob.Laws.{glob_match_iff}
use egop.Contract.Event.{Origin, Event, EventFilter, source_is, label_is, labels_match, event_match}

-- The event has a source with this property.
abbrev pub From : (Origin → Text) → Option Origin → Text → Type 0
From part source want = (o : Origin) × (source ≡ some o) × (part o ≡ want)

-- What a filter asks of an event; an empty field asks nothing.
pub record Accepts (f : EventFilter) (e : Event) : Type 0 where
  pub type : (f.type ≡ []) ⊎ Glob f.type e.type
  pub sub_type : (f.sub_type ≡ []) ⊎ (e.sub_type ≡ f.sub_type)
  pub source_id : (f.source_id ≡ []) ⊎ From (λ o. o.id) e.source f.source_id
  pub source_version : (f.source_version ≡ []) ⊎ From (λ o. o.version) e.source f.source_version
  pub source_kind : (f.source_kind ≡ []) ⊎ From (λ o. o.kind) e.source f.source_kind
  pub labels : (k v : Text) → In (k, v) f.labels → lookup k e.labels ≡ some v

-- One early return of Match.
abbrev skips : Text → Bool → Bool
skips want met = not (is_empty want) && not met

skips_iff :
    {P : Type 0} (want : Text) (met : Bool)
    → (met ≡ true) ↔ P
    → (skips want met ≡ false) ↔ ((want ≡ []) ⊎ P)
skips_iff [] met p = ((λ e. inl refl), (λ e. refl))
skips_iff (c ∷ want) true p = ((λ e. inr (p.0 refl)), (λ e. refl))
skips_iff (c ∷ want) false p = (
  (λ e. let bad : true ≡ false = e in cc),
  (λ either. elim either [
    | inl e ↦ let bad : c ∷ want ≡ [] = e in cc
    | inr q ↦ let bad : false ≡ true = p.1 q in cc
  ]),
)

source_iff :
    (part : Origin → Text) (source : Option Origin) (want : Text)
    → (source_is part source want ≡ true) ↔ From part source want
unfolding source_is
source_iff part none want =
    ((λ e. let bad : false ≡ true = e in cc), (λ (o, e, same). let bad : none ≡ some o = e in cc))
source_iff part (some o) want = (
  (λ e. (o, refl, (text_eq_iff (part o) want).0 e)),
  (λ (o', e, same). let one : o ≡ o' = cc in (text_eq_iff (part o) want).1 (rw one same)),
)

label_iff : (got : Option Text) (v : Text) → (label_is got v ≡ true) ↔ (got ≡ some v)
unfolding label_is
label_iff none v = ((λ e. cc), (λ e. cc))
label_iff (some w) v =
    ((λ e. ap some ((text_eq_iff w v).0 e)), (λ e. (text_eq_iff w v).1 (ground arith)))

labels_sound :
    (wanted given : Map Text)
    → labels_match wanted given ≡ true
    → (k v : Text) → In (k, v) wanted
    → lookup k given ≡ some v
unfolding labels_match
labels_sound [] given e k v i = elim i [ ]
labels_sound ((j, w) ∷ wanted) given e k v i = elim (In-cons_cases i) [
  | inl same ↦
      let key : k ≡ j = ap (λ p. p.0) same in
      let value : v ≡ w = ap (λ p. p.1) same in
      rw (key, value) ((label_iff (lookup j given) w).0 (ground arith))
  | inr later ↦ labels_sound wanted given (ground arith) k v later
]

labels_complete :
    (wanted given : Map Text)
    → ((k v : Text) → In (k, v) wanted → lookup k given ≡ some v)
    → labels_match wanted given ≡ true
unfolding labels_match
labels_complete [] given all_there = refl
labels_complete ((j, w) ∷ wanted) given all_there =
    let first : label_is (lookup j given) w ≡ true =
      (label_iff (lookup j given) w).1 (all_there j w here) in
    rw first (labels_complete wanted given (λ k v i. all_there k v (there i)))

module _ (f : EventFilter) (e : Event) where
  type_iff :
      (skips f.type (glob_match f.type e.type) ≡ false) ↔ ((f.type ≡ []) ⊎ Glob f.type e.type)
  type_iff = skips_iff f.type (glob_match f.type e.type) (glob_match_iff f.type e.type)

  sub_type_iff :
      (skips f.sub_type (text_eq e.sub_type f.sub_type) ≡ false)
      ↔ ((f.sub_type ≡ []) ⊎ (e.sub_type ≡ f.sub_type))
  sub_type_iff =
      skips_iff f.sub_type (text_eq e.sub_type f.sub_type) (text_eq_iff e.sub_type f.sub_type)

  part_iff :
      (part : Origin → Text) (want : Text)
      → (skips want (source_is part e.source want) ≡ false)
        ↔ ((want ≡ []) ⊎ From part e.source want)
  part_iff part want = skips_iff want (source_is part e.source want) (source_iff part e.source want)

-- Match accepts an event exactly if every field of the filter that is not empty is met: the type by
-- the pattern, the sub type and the parts of the source by equality, where there is a source, and
-- every label of the filter by the event's label of that name.
pub event_match_iff : (f : EventFilter) (e : Event) → (event_match f e ≡ true) ↔ Accepts f e
unfolding event_match
event_match_iff f e = (
  (λ yes. record {
    type = (type_iff f e).0 (ground arith);
    sub_type = (sub_type_iff f e).0 (ground arith);
    source_id = (part_iff f e (λ o. o.id) f.source_id).0 (ground arith);
    source_version = (part_iff f e (λ o. o.version) f.source_version).0 (ground arith);
    source_kind = (part_iff f e (λ o. o.kind) f.source_kind).0 (ground arith);
    labels = labels_sound f.labels e.labels (ground arith);
  }),
  (λ w.
      rw
        (
          (type_iff f e).1 w.type,
          (sub_type_iff f e).1 w.sub_type,
          (part_iff f e (λ o. o.id) f.source_id).1 w.source_id,
          (part_iff f e (λ o. o.version) f.source_version).1 w.source_version,
          (part_iff f e (λ o. o.kind) f.source_kind).1 w.source_kind,
        )
        (labels_complete f.labels e.labels w.labels)),
)
