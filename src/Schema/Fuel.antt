-- ===== src/Schema/Fuel.antt =====
-- schema/schema.go: the recursion over the schema ends, and what the whole check says.
use egop.Prelude.{
  if_either, true, Text, codes, Map, lookup, lookup-In, ℕ, zero, suc, ◌+◌, ◌≤◌, ◌<◌, List, [], ◌∷◌,
  ◌++◌, In, In-cons_cases, here, there, Option, none, some, ◌≡◌, ◌↔◌, refl, subst, ap, inl, inr,
  arith,
}
use egop.Schema.{
  null, boolean, number, string, members_fit, Json, array, object, Elements, no_element, element,
  elements, Members, no_member, member, members, Raw, empty, broken, json, as_array, Place, key,
  index, Issue, TypeName, object_type, array_type, string_type, integer_type, number_type,
  boolean_type, other_type, type_name, array_at, object_at, at, type_names, any_passes,
  check_property, check_properties, properties_of, validate_members, validate_object, check_items,
  validate_items, validate_array, validate_type, any_type, validate_types, validate_any_of, node,
  validate_node, size, elements_size, members_size, validate,
}
use egop.Schema.Meaning.{Accepts, Passes, no_schema, null_schema, by_schema, in_object}
use egop.Schema.Names.{object_fit-of, all_members-fit}
use egop.Schema.Verdicts.{validate_node_iff}

element-size : (es : Elements) (j : Json) → In j (elements es) → size j ≤ elements_size es
unfolding elements size
element-size no_element j i = elim i [ ]
element-size (element x es) j i = elim (In-cons_cases i) [
  | inl e ↦ rw e (omega arith)
  | inr later ↦ omega (arith, element-size es j later)
]

member-size :
    (ms : Members) (k : Text) (j : Json) → In (k, j) (members ms) → size j ≤ members_size ms
unfolding members size
member-size no_member k j i = elim i [ ]
member-size (member n x ms) k j i = elim (In-cons_cases i) [
  | inl e ↦ let same : j ≡ x = ap (λ y. y.1) e in rw same (omega arith)
  | inr later ↦ omega (arith, member-size ms k j later)
]

at-size : (s : Members) (k : Text) (j : Json) → at s k ≡ some j → size j ≤ members_size s
at-size s k j e = member-size s k j (lookup-In k (members s) j e)

module _ (check check' : Members → Raw → List Place → List Issue) (bound : ℕ)
    (agree : (sub : Members)
      → members_size sub < bound
      → (v : Raw) (p : List Place) → check sub v p ≡ check' sub v p) where
  any_passes_agree :
      (subs : List Json)
      → ((j : Json) → In j subs → size j ≤ bound)
      → (v : Raw) (p : List Place) → any_passes check subs v p ≡ any_passes check' subs v p
  unfolding any_passes size
  any_passes_agree [] small v p = refl
  any_passes_agree (object sub ∷ subs) small v p =
      let less : members_size sub < bound = omega (arith, small (object sub) here) in
      rw (agree sub less v p, any_passes_agree subs (λ j i. small j (there i)) v p) refl
  any_passes_agree (j ∷ subs) small v p = any_passes_agree subs (λ x i. small x (there i)) v p

  property_agree :
      (sub : Members) (o : Option Json) (p : List Place)
      → members_size sub < bound
      → check_property check sub o p ≡ check_property check' sub o p
  unfolding check_property
  property_agree sub none p less = refl
  property_agree sub (some j) p less = agree sub less (json j) p

  properties_agree :
      (props : Map Json)
      → ((k : Text) (j : Json) → In (k, j) props → size j ≤ bound)
      → (obj : Map Json) (p : List Place)
      → check_properties check props obj p ≡ check_properties check' props obj p
  unfolding check_properties size
  properties_agree [] small obj p = refl
  properties_agree ((k, object sub) ∷ props) small obj p =
      let less : members_size sub < bound = omega (arith, small k (object sub) here) in
      rw
        (
          property_agree sub (lookup k obj) (p ++ key k ∷ []) less,
          properties_agree props (λ n j i. small n j (there i)) obj p,
        )
        refl
  properties_agree ((k, x) ∷ props) small obj p =
      properties_agree props (λ n j i. small n j (there i)) obj p

  items_agree :
      (items : Members)
      → members_size items < bound
      → (i : ℕ) (js : List Json) (p : List Place)
      → check_items check items i js p ≡ check_items check' items i js p
  unfolding check_items
  items_agree items less i [] p = refl
  items_agree items less i (j ∷ js) p =
      rw (agree items less (json j) (p ++ index i ∷ []), items_agree items less (i + 1) js p) refl

module _ (check check' : Members → Raw → List Place → List Issue) (s : Members)
    (agree : (sub : Members)
      → members_size sub < members_size s
      → (v : Raw) (p : List Place) → check sub v p ≡ check' sub v p) where
  inner_members :
      (o : Option Json)
      → ((j : Json) → o ≡ some j → size j ≤ members_size s)
      → (k : Text) (j : Json) → In (k, j) (properties_of (object_at o))
      → size j ≤ members_size s
  unfolding properties_of object_at size
  inner_members (some (object ms)) small k j i =
      omega (arith, member-size ms k j i, small (object ms) refl)
  inner_members none small k j i = elim i [ ]
  inner_members (some x) small k j i = elim i [ ]

  members_agree :
      (o : Option (Map Json)) (p : List Place)
      → validate_members check o s p ≡ validate_members check' o s p
  unfolding validate_members
  members_agree none p = refl
  members_agree (some obj) p =
      rw
        (properties_agree check check' (members_size s) agree
          (properties_of (object_at (at s (codes "properties"))))
          (inner_members (at s (codes "properties")) (at-size s (codes "properties"))) obj p)
        refl

  object_agree :
      (v : Raw) (p : List Place) → validate_object check v s p ≡ validate_object check' v s p
  unfolding validate_object
  object_agree empty p = refl
  object_agree broken p = members_agree _ p
  object_agree (json j) p = members_agree _ p

  inner_items :
      (o : Option Json)
      → ((j : Json) → o ≡ some j → size j ≤ members_size s)
      → (js : List Json) (p : List Place)
      → validate_items check (object_at o) js p ≡ validate_items check' (object_at o) js p
  unfolding validate_items object_at size
  inner_items (some (object ms)) small js p =
      let less : members_size ms < members_size s = omega (arith, small (object ms) refl) in
      items_agree check check' (members_size s) agree ms less 0 js p
  inner_items none small js p = refl
  inner_items (some x) small js p = refl

  array_agree :
      (o : Option (List Json)) (p : List Place)
      → validate_array check o s p ≡ validate_array check' o s p
  unfolding validate_array
  array_agree none p = refl
  array_agree (some js) p = inner_items (at s (codes "items")) (at-size s (codes "items")) js p

  type_agree :
      (t : TypeName) (v : Raw) (p : List Place)
      → validate_type check t v p s ≡ validate_type check' t v p s
  unfolding validate_type
  type_agree object_type v p = object_agree v p
  type_agree array_type v p = array_agree (as_array v) p
  type_agree string_type v p = refl
  type_agree integer_type v p = refl
  type_agree number_type v p = refl
  type_agree boolean_type v p = refl
  type_agree (other_type t) v p = refl

  any_type_agree :
      (ts : List Text) (v : Raw) (p : List Place)
      → any_type check ts v p s ≡ any_type check' ts v p s
  unfolding any_type
  any_type_agree [] v p = refl
  any_type_agree (t ∷ ts) v p = rw (type_agree (type_name t) v p, any_type_agree ts v p) refl

  types_agree :
      (ts : List Text) (v : Raw) (p : List Place)
      → validate_types check ts v p s ≡ validate_types check' ts v p s
  unfolding validate_types
  types_agree [] v p = refl
  types_agree (t ∷ []) v p = type_agree (type_name t) v p
  types_agree (t ∷ u ∷ ts) v p = rw (any_type_agree (t ∷ u ∷ ts) v p) refl

  inner_any_of :
      (o : Option Json)
      → ((j : Json) → o ≡ some j → size j ≤ members_size s)
      → (v : Raw) (p : List Place)
      → validate_any_of check (array_at o) s v p ≡ validate_any_of check' (array_at o) s v p
  unfolding validate_any_of array_at size
  inner_any_of (some (array es)) small v p =
      rw
        (any_passes_agree check check' (members_size s) agree (elements es)
          (λ j i. omega (arith, element-size es j i, small (array es) refl)) v p)
        refl
  inner_any_of none small v p = types_agree (type_names (at s (codes "type"))) v p
  inner_any_of (some x) small v p = types_agree (type_names (at s (codes "type"))) v p

  node_agree : (v : Raw) (p : List Place) → node check s v p ≡ node check' s v p
  unfolding node
  node_agree v p = inner_any_of (at s (codes "anyOf")) (at-size s (codes "anyOf")) v p

none_below : {n : ℕ} → n < 0 → ⊥
none_below lt = omega arith

-- Fuel beyond the size of the schema changes nothing: the recursion ends before.
enough_fuel :
    (n m : ℕ) (s : Members) (v : Raw) (p : List Place)
    → members_size s < n
    → members_size s < m
    → validate_node n s v p ≡ validate_node m s v p
unfolding validate_node
enough_fuel zero m s v p few few' = elim (none_below few) [ ]
enough_fuel (suc n) zero s v p few few' = elim (none_below few') [ ]
enough_fuel (suc n) (suc m) s v p few few' =
    node_agree (validate_node n) (validate_node m) s
      (λ sub less v' p'. enough_fuel n m sub v' p' (omega arith) (omega arith)) v p

-- The size of what a schema is read from.
unfoldable pub raw_size : Raw → ℕ
raw_size (json j) = size j
raw_size v = 0

object_iff :
    (s : Members) (v : Raw) (p : List Place) (n : ℕ)
    → members_size s < n
    → (validate_node (suc (members_size s)) s v p ≡ []) ↔ Accepts n s v
object_iff s v p n more =
    subst (λ issues. (issues ≡ []) ↔ Accepts n s v)
      (enough_fuel n (suc (members_size s)) s v p more (omega arith)) (validate_node_iff n s v p)

pass-Accepts : (s : Members) (v : Raw) (n : ℕ) → Passes n v (json (object s)) → Accepts n s v
pass-Accepts s v n (by_schema _ all_fit ok) = ok

pass-fit : (s : Members) (v : Raw) (n : ℕ) → Passes n v (json (object s)) → members_fit s ≡ true
pass-fit s v n (by_schema _ all_fit ok) =
    all_members-fit s (λ k j i x deep. all_fit x (in_object s k j i deep))

-- Validate finds nothing exactly in the values that pass by the schema, to any depth beyond its size: the
-- schema is of no bytes or null, or it is a JSON object in which a float64 holds every number and which
-- allows the value. What it allows is said apart from the code: under "anyOf" what one of the schemas
-- there allows; else what has one of the types named, if any is, with an object's present properties and
-- required keys, an array's items, a text's enumeration. Null counts as the empty value of every type.
pub validate_iff :
    (schema v : Raw) (p : List Place) (n : ℕ)
    → raw_size schema < n
    → (validate schema v p ≡ []) ↔ Passes n v schema
unfolding validate raw_size size
validate_iff empty v p n more = (λ e. no_schema, λ ok. refl)
validate_iff (json null) v p n more = (λ e. null_schema, λ ok. refl)
validate_iff (json (object s)) v p n more =
    let inner = object_iff s v p n (omega arith) in
    if_either (λ issues. (issues ≡ []) ↔ Passes n v (json (object s))) (members_fit s)
      (λ f.
        (λ e. by_schema s (object_fit-of s f) (inner.0 e), λ ok. inner.1 (pass-Accepts s v n ok)))
      (λ f. (λ e. cc, λ ok. let g : members_fit s ≡ true = pass-fit s v n ok in cc))
validate_iff broken v p n more = (λ e. cc, λ ok. elim ok [ ])
validate_iff (json (boolean b)) v p n more = (λ e. cc, λ ok. elim ok [ ])
validate_iff (json (number x)) v p n more = (λ e. cc, λ ok. elim ok [ ])
validate_iff (json (string t)) v p n more = (λ e. cc, λ ok. elim ok [ ])
validate_iff (json (array es)) v p n more = (λ e. cc, λ ok. elim ok [ ])
