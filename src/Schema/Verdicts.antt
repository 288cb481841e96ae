-- ===== src/Schema/Verdicts.antt =====
-- schema/schema.go: the check finds nothing exactly in the values that the schema allows.
use egop.Prelude.{
  Text, codes, Map, lookup, ℕ, zero, suc, ◌+◌, Bool, Bool-cases, or_cases, true, List, [], ◌∷◌,
  ◌++◌, In, In-cons_cases, here, there, Option, none, some, ◌≡◌, ◌≢◌, ◌⊎◌, ◌↔◌, refl, sym, subst,
  ap, inl, inr, arith,
}
use egop.Schema
use egop.Schema.{
  Number, Json, null, boolean, number, string, array, object, Elements, elements, Members, members,
  Raw, empty, broken, json, as_object, as_array, as_string, as_number, as_boolean, Place, key,
  index, Issue, TypeName, object_type, array_type, string_type, integer_type, number_type,
  boolean_type, other_type, type_name, array_at, object_at, at, type_names, enum_contains, is_nil,
  issue, any_passes, check_property, check_properties, check_required, properties_of, listed,
  validate_members, validate_object, check_items, validate_items, validate_array, check_enum,
  validate_string, validate_integer, expect, decoded, validate_type, any_type, validate_types,
  validate_any_of, node, validate_node,
}
use egop.Schema.Meaning.{Names, HasType, Allows, by_any_of, untyped, typed, Accepts}
use egop.Schema.Decoding
use egop.Schema.Decoding.{
  no_issue_left, none_and_none, nil_found, enum_sound, enum_at, required_sound, required_at,
}
use egop.Schema.Names.{
  object_at_sound, object_at_of, array_at_sound, array_at_of, no_array, property_in, property_of,
  listed_in, listed_of, Asks-in, Asks-of, none_asked, type_name-of, type_name-in,
}

-- The recursive call finds nothing exactly in what `Sub` takes.
record IsRight (check : Members → Raw → List Place → List Issue) (Sub : Members → Raw → Type 0)
    : Type 0 where
  sound : (s : Members) (v : Raw) (p : List Place) → check s v p ≡ [] → Sub s v
  whole : (s : Members) (v : Raw) (p : List Place) → Sub s v → check s v p ≡ []

module _ (check : Members → Raw → List Place → List Issue) (Sub : Members → Raw → Type 0)
    (right : IsRight check Sub) where
  any_passes_sound :
      (subs : List Json) (v : Raw) (p : List Place)
      → any_passes check subs v p ≡ true
      → (sub : Members) × In (object sub) subs × Sub sub v
  unfolding any_passes
  any_passes_sound [] v p e = cc
  any_passes_sound (object sub ∷ subs) v p e =
      elim (or_cases (is_nil (check sub v p)) (any_passes check subs v p) e) [
        | inl first ↦ (sub, here, right.sound sub v p (nil_found _ first))
        | inr later ↦ let (x, i, ok) = any_passes_sound subs v p later in (x, there i, ok)
      ]
  any_passes_sound (j ∷ subs) v p e =
      let (x, i, ok) = any_passes_sound subs v p e in (x, there i, ok)

  any_passes_at :
      (subs : List Json) (v : Raw) (p : List Place) (sub : Members)
      → In (object sub) subs
      → Sub sub v
      → any_passes check subs v p ≡ true
  unfolding any_passes
  any_passes_at [] v p sub i ok = elim i [ ]
  any_passes_at (object x ∷ subs) v p sub i ok = elim (In-cons_cases i) [
    | inl e ↦
        let same : sub ≡ x = cc in
        let nothing_found : check x v p ≡ [] = right.whole x v p (subst (λ y. Sub y v) same ok) in
        rw nothing_found refl
    | inr later ↦ rw (any_passes_at subs v p sub later ok) (ground arith)
  ]
  any_passes_at (j ∷ subs) v p sub i ok = elim (In-cons_cases i) [
    | inl e ↦ cc
    | inr later ↦ any_passes_at subs v p sub later ok
  ]

  property_sound :
      (sub : Members) (o : Option Json) (p : List Place)
      → check_property check sub o p ≡ []
      → (j : Json) → o ≡ some j
      → Sub sub (json j)
  unfolding check_property
  property_sound sub none p e j f = cc
  property_sound sub (some x) p e j f =
      let same : x ≡ j = cc in subst (λ y. Sub sub (json y)) same (right.sound sub (json x) p e)

  property_at :
      (sub : Members) (o : Option Json) (p : List Place)
      → ((j : Json) → o ≡ some j → Sub sub (json j))
      → check_property check sub o p ≡ []
  unfolding check_property
  property_at sub none p ok = refl
  property_at sub (some x) p ok = right.whole sub (json x) p (ok x refl)

  properties_sound :
      (props obj : Map Json) (p : List Place)
      → check_properties check props obj p ≡ []
      → (k : Text) (sub : Members) (j : Json) → In (k, object sub) props
      → lookup k obj ≡ some j
      → Sub sub (json j)
  unfolding check_properties
  properties_sound [] obj p e k sub j i f = elim i [ ]
  properties_sound ((n, object x) ∷ props) obj p e k sub j i f =
      let (first, others) =
        no_issue_left (check_property check x (lookup n obj) (p ++ key n ∷ [])) _ e in
      elim (In-cons_cases i) [
        | inl same ↦
            let name : k ≡ n = ap (λ y. y.0) same in
            let inner : sub ≡ x = cc in
            subst (λ y. Sub y (json j)) (sym inner)
              (property_sound x (lookup n obj) (p ++ key n ∷ []) first j
                (subst (λ y. lookup y obj ≡ some j) name f))
        | inr later ↦ properties_sound props obj p others k sub j later f
      ]
  properties_sound ((n, x) ∷ props) obj p e k sub j i f = elim (In-cons_cases i) [
    | inl same ↦ cc
    | inr later ↦ properties_sound props obj p e k sub j later f
  ]

  properties_at :
      (props obj : Map Json) (p : List Place)
      → ((k : Text) (sub : Members) (j : Json)
          → In (k, object sub) props
          → lookup k obj ≡ some j
          → Sub sub (json j))
      → check_properties check props obj p ≡ []
  unfolding check_properties
  properties_at [] obj p ok = refl
  properties_at ((n, object x) ∷ props) obj p ok =
      none_and_none _ _ (property_at x (lookup n obj) _ (λ j f. ok n x j here f))
        (properties_at props obj p (λ k sub j i f. ok k sub j (there i) f))
  properties_at ((n, x) ∷ props) obj p ok =
      properties_at props obj p (λ k sub j i f. ok k sub j (there i) f)

  items_sound :
      (items : Members) (i : ℕ) (js : List Json) (p : List Place)
      → check_items check items i js p ≡ []
      → (j : Json) → In j js
      → Sub items (json j)
  unfolding check_items
  items_sound items i [] p e j at_j = elim at_j [ ]
  items_sound items i (x ∷ js) p e j at_j =
      let (first, others) = no_issue_left (check items (json x) (p ++ index i ∷ [])) _ e in
      elim (In-cons_cases at_j) [
        | inl same ↦
            subst (λ y. Sub items (json y)) (sym same)
              (right.sound items (json x) (p ++ index i ∷ []) first)
        | inr later ↦ items_sound items (i + 1) js p others j later
      ]

  items_at :
      (items : Members) (i : ℕ) (js : List Json) (p : List Place)
      → ((j : Json) → In j js → Sub items (json j))
      → check_items check items i js p ≡ []
  unfolding check_items
  items_at items i [] p ok = refl
  items_at items i (x ∷ js) p ok =
      none_and_none _ _ (right.whole items (json x) _ (ok x here))
        (items_at items (i + 1) js p (λ j at_j. ok j (there at_j)))

  module _ (s : Members) (p : List Place) where
    object_sound :
        (v : Raw) (o : Option (Map Json))
        → as_object v ≡ o
        → validate_members check o s p ≡ []
        → HasType Sub s object_type v
    unfolding validate_members
    object_sound v none e f = cc
    object_sound v (some obj) e f =
        let props = properties_of (object_at (at s (codes "properties"))) in
        let (first, others) = no_issue_left (check_properties check props obj p) _ f in
        HasType.an_object v obj (Decoding.IsObject-sound v obj e)
          (λ ps k sub j f' i l.
            properties_sound props obj p first k sub j
              (property_of (at s (codes "properties")) ps (k, object sub) f' i) l)
          (λ es name f' i.
            required_sound (listed (array_at (at s (codes "required")))) obj p others name
              (listed_of (at s (codes "required")) es (string name) f' i))

    array_sound :
        (v : Raw) (o : Option (List Json))
        → as_array v ≡ o
        → validate_array check o s p ≡ []
        → HasType Sub s array_type v
    unfolding validate_array validate_items
    array_sound v none e f = cc
    array_sound v (some js) e f =
        HasType.an_array v js (Decoding.IsArray-sound v js e) (λ items j h i.
          inside (object_at (at s (codes "items"))) f items j
            (object_at_of (at s (codes "items")) items h) i)
      where
        inside :
            (o : Option Members)
            → validate_items check o js p ≡ []
            → (items : Members) (j : Json) → o ≡ some items
            → In j js
            → Sub items (json j)
        inside none g items j h i = cc
        inside (some x) g items j h i =
            let same : x ≡ items = cc in
            subst (λ y. Sub y (json j)) same (items_sound x 0 js p g j i)

    string_sound :
        (v : Raw) (o : Option Text)
        → as_string v ≡ o
        → validate_string o s p ≡ []
        → HasType Sub s string_type v
    unfolding validate_string check_enum
    string_sound v none e f = cc
    string_sound v (some t) e f = HasType.a_string v t (Decoding.IsString-sound v t e) (λ es h.
        inside (array_at (at s (codes "enum"))) f (elements es)
          (array_at_of (at s (codes "enum")) es h))
      where
        inside :
            (o : Option (List Json))
            → check_enum o t p ≡ []
            → (en : List Json) → o ≡ some en
            → In (string t) en
        inside none g en h = cc
        inside (some x) g en h = elim (Bool-cases (enum_contains x t)) [
          | inl found ↦
              let same : x ≡ en = cc in subst (λ y. In (string t) y) same (enum_sound x t found)
          | inr missing ↦ cc
        ]

    integer_sound :
        (v : Raw) (o : Option Number)
        → as_number v ≡ o
        → validate_integer o p ≡ []
        → HasType Sub s integer_type v
    unfolding validate_integer
    integer_sound v none e f = cc
    integer_sound v (some n) e f = elim (Bool-cases n.whole) [
      | inl w ↦ HasType.an_integer v ((Decoding.number_sound v n e).1 w)
      | inr w ↦ cc
    ]

    number_sound :
        (v : Raw) (o : Option Number)
        → as_number v ≡ o
        → expect Schema.expected_number (decoded o) p ≡ []
        → HasType Sub s number_type v
    unfolding expect decoded
    number_sound v none e f = cc
    number_sound v (some n) e f = HasType.a_number v ((Decoding.number_sound v n e).0)

    boolean_sound :
        (v : Raw) (o : Option Bool)
        → as_boolean v ≡ o
        → expect Schema.expected_boolean (decoded o) p ≡ []
        → HasType Sub s boolean_type v
    unfolding expect decoded
    boolean_sound v none e f = cc
    boolean_sound v (some b) e f = HasType.a_boolean v (Decoding.IsBoolean-sound v b e)

    type_sound : (t : TypeName) (v : Raw) → validate_type check t v p s ≡ [] → HasType Sub s t v
    unfolding validate_type validate_object
    type_sound object_type empty e = HasType.nothing
    type_sound object_type broken e = object_sound broken _ refl e
    type_sound object_type (json j) e = object_sound (json j) _ refl e
    type_sound array_type v e = array_sound v _ refl e
    type_sound string_type v e = string_sound v _ refl e
    type_sound integer_type v e = integer_sound v _ refl e
    type_sound number_type v e = number_sound v _ refl e
    type_sound boolean_type v e = boolean_sound v _ refl e
    type_sound (other_type t) v e = cc

    object_whole :
        (v : Raw) (obj : Map Json)
        → as_object v ≡ some obj
        → validate_members check (some obj) s p ≡ []
        → validate_object check v s p ≡ []
    unfolding validate_object
    object_whole empty obj e f = refl
    object_whole broken obj e f = cc
    object_whole (json j) obj e f = subst (λ o. validate_members check o s p ≡ []) (sym e) f

    items_whole :
        (o : Option Members) (js : List Json)
        → ((items : Members) (j : Json) → o ≡ some items → In j js → Sub items (json j))
        → validate_items check o js p ≡ []
    unfolding validate_items
    items_whole none js ok = refl
    items_whole (some x) js ok = items_at x 0 js p (λ j i. ok x j refl i)

    enum_whole :
        (o : Option (List Json)) (t : Text)
        → ((en : List Json) → o ≡ some en → In (string t) en)
        → check_enum o t p ≡ []
    unfolding check_enum
    enum_whole none t ok = refl
    enum_whole (some x) t ok = rw (enum_at x t (ok x refl)) refl

    type_at : (t : TypeName) (v : Raw) → HasType Sub s t v → validate_type check t v p s ≡ []
    unfolding validate_type validate_object validate_members validate_array validate_string
        validate_integer expect decoded
    type_at _ _ HasType.nothing = refl
    type_at _ _ (HasType.an_object v obj is props required) =
        object_whole v obj (Decoding.object_of v obj is) (
          none_and_none _ _
            (properties_at (properties_of (object_at (at s (codes "properties")))) obj p
              (λ k sub j i l.
                let (ps, e, i') = property_in (at s (codes "properties")) (k, object sub) i in
                props ps k sub j e i' l))
            (required_at (listed (array_at (at s (codes "required")))) obj p (λ name i.
              let (es, e, i') = listed_in (at s (codes "required")) (string name) i in
              required es name e i')))
    type_at _ _ (HasType.an_array v js is inside) =
        subst (λ o. validate_array check o s p ≡ []) (sym (Decoding.array_of v js is))
          (items_whole (object_at (at s (codes "items"))) js
            (λ items j e i. inside items j (object_at_sound (at s (codes "items")) items e) i))
    type_at _ _ (HasType.a_string v t is inside) =
        subst (λ o. validate_string o s p ≡ []) (sym (Decoding.string_of v t is))
          (enum_whole (array_at (at s (codes "enum"))) t (λ en e.
            let (es, at_key, same) = array_at_sound (at s (codes "enum")) en e in
            subst (λ x. In (string t) x) (sym same) (inside es at_key)))
    type_at _ _ (HasType.an_integer v is) =
        let (n, e, w) = Decoding.integer_of v is in
        subst (λ o. validate_integer o p ≡ []) (sym e) (ground (arith, w))
    type_at _ _ (HasType.a_number v is) =
        subst (λ b. expect Schema.expected_number b p ≡ []) (sym (Decoding.number_of v is)) refl
    type_at _ _ (HasType.a_boolean v is) =
        subst (λ b. expect Schema.expected_boolean b p ≡ []) (sym (Decoding.boolean_of v is)) refl

    any_type_sound :
        (ts : List Text) (v : Raw)
        → any_type check ts v p s ≡ true
        → (t : Text) × In t ts × HasType Sub s (type_name t) v
    unfolding any_type
    any_type_sound [] v e = cc
    any_type_sound (t ∷ ts) v e =
        elim (or_cases (is_nil (validate_type check (type_name t) v p s)) (any_type check ts v p s)
          e) [
            | inl first ↦ (t, here, type_sound (type_name t) v (nil_found _ first))
            | inr later ↦ let (x, i, ok) = any_type_sound ts v later in (x, there i, ok)
          ]

    any_type_at :
        (ts : List Text) (v : Raw) (t : Text)
        → In t ts
        → HasType Sub s (type_name t) v
        → any_type check ts v p s ≡ true
    unfolding any_type
    any_type_at [] v t i ok = elim i [ ]
    any_type_at (x ∷ ts) v t i ok = elim (In-cons_cases i) [
      | inl same ↦
          let nothing_found : validate_type check (type_name x) v p s ≡ [] =
            type_at (type_name x) v (subst (λ y. HasType Sub s (type_name y) v) same ok) in
          rw nothing_found refl
      | inr later ↦ rw (any_type_at ts v t later ok) (ground arith)
    ]

    types_sound :
        (ts : List Text) (v : Raw)
        → validate_types check ts v p s ≡ []
        → (ts ≡ []) ⊎ ((t : Text) × In t ts × HasType Sub s (type_name t) v)
    unfolding validate_types
    types_sound [] v e = inl refl
    types_sound (t ∷ []) v e = inr (t, here, type_sound (type_name t) v e)
    types_sound (t ∷ u ∷ ts) v e = elim (Bool-cases (any_type check (t ∷ u ∷ ts) v p s)) [
      | inl found ↦ inr (any_type_sound (t ∷ u ∷ ts) v found)
      | inr missing ↦ cc
    ]

    types_at :
        (ts : List Text) (v : Raw) (t : Text)
        → In t ts
        → HasType Sub s (type_name t) v
        → validate_types check ts v p s ≡ []
    unfolding validate_types
    types_at [] v t i ok = elim i [ ]
    types_at (x ∷ []) v t i ok = elim (In-cons_cases i) [
      | inl same ↦ type_at (type_name x) v (subst (λ y. HasType Sub s (type_name y) v) same ok)
      | inr none_left ↦ elim none_left [ ]
    ]
    types_at (x ∷ u ∷ ts) v t i ok = rw (any_type_at (x ∷ u ∷ ts) v t i ok) refl

    named :
        (t : Text) (v : Raw)
        → HasType Sub s (type_name t) v
        → (k : TypeName) × Names t k × HasType Sub s k v
    named t v is = elim (type_name-in t (type_name t) refl) [
      | inl this ↦ (type_name t, this, is)
      | inr other ↦ elim (no_other t v (subst (λ k. HasType Sub s k v) other is)) [ ]
    ]
      where
        no_other : (t : Text) (v : Raw) → HasType Sub s (other_type t) v → ⊥
        no_other t v is = elim is [ ]

    node_sound :
        (o : Option (List Json)) (v : Raw)
        → array_at (at s (codes "anyOf")) ≡ o
        → validate_any_of check o s v p ≡ []
        → Allows Sub s v
    unfolding validate_any_of
    node_sound (some subs) v e f = elim (Bool-cases (any_passes check subs v p)) [
      | inl found ↦
          let (sub, i, ok) = any_passes_sound subs v p found in
          let (es, at_key, same) = array_at_sound (at s (codes "anyOf")) subs e in
          by_any_of es sub at_key (subst (λ x. In (object sub) x) same i) ok
      | inr missing ↦ cc
    ]
    node_sound none v e f = elim (types_sound (type_names (at s (codes "type"))) v f) [
      | inl no_type ↦
          untyped no_list (λ t a. elim (subst (λ x. In t x) no_type (Asks-of s t a)) [ ])
      | inr (t, i, ok) ↦
          let (k, this, is) = named t v ok in typed t k no_list (Asks-in s t i) this is
    ]
      where
        no_list : (es : Elements) → at s (codes "anyOf") ≢ some (array es)
        no_list es g =
            let some_list : array_at (at s (codes "anyOf")) ≡ some (elements es) =
              array_at_of (at s (codes "anyOf")) es g in
            cc

    node_at : (v : Raw) → Allows Sub s v → node check s v p ≡ []
    unfolding node validate_any_of validate_types
    node_at v (by_any_of subs sub e i ok) =
        subst (λ o. validate_any_of check o s v p ≡ [])
          (sym (array_at_of (at s (codes "anyOf")) subs e))
          (rw (any_passes_at (elements subs) v p sub i ok) refl)
    node_at v (untyped no_list no_type) =
        subst (λ o. validate_any_of check o s v p ≡ []) (sym (no_array _ no_list))
          (subst (λ ts. validate_types check ts v p s ≡ []) (sym (none_asked s no_type)) refl)
    node_at v (typed t k no_list asks this is) =
        subst (λ o. validate_any_of check o s v p ≡ []) (sym (no_array _ no_list))
          (types_at (type_names (at s (codes "type"))) v t (Asks-of s t asks)
            (subst (λ x. HasType Sub s x v) (sym (type_name-of t k this)) is))

node-IsRight : (n : ℕ) → IsRight (validate_node n) (Accepts n)
unfolding validate_node node
node-IsRight zero = record { sound = λ s v p e. cc; whole = λ s v p no. elim no [ ] }
node-IsRight (suc n) = record {
  sound = λ s v p e. node_sound (validate_node n) (Accepts n) (node-IsRight n) s p _ v refl e;
  whole = λ s v p ok. node_at (validate_node n) (Accepts n) (node-IsRight n) s p v ok;
}

-- With fuel for the schema's depth, the check of a node finds nothing exactly in the values that the
-- schema allows: under "anyOf", one of the schemas there; else one of the types named, and for an object
-- its properties that are present and its required keys, for an array its items, for a text its
-- enumeration; null counts as the empty value of every type.
pub validate_node_iff :
    (n : ℕ) (s : Members) (v : Raw) (p : List Place) → (validate_node n s v p ≡ []) ↔ Accepts n s v
validate_node_iff n s v p = ((node-IsRight n).sound s v p, (node-IsRight n).whole s v p)
