-- ===== src/Schema.antt =====
-- schema/schema.go: the check of a JSON value against a part of JSON Schema. encoding/json is a parameter:
-- it gives the values below. Recursion runs on fuel; the size of the schema is enough (Schema/Fuel).
pub mod Fuel
pub mod Meaning
pub mod Decoding
pub mod Names
pub mod Verdicts
mod Tests
use egop.Prelude.{
  Text, codes, text_eq, Map, lookup, has, is_empty, ℕ, zero, suc, ◌+◌, if◌then◌else◌, Bool, true,
  false, not, ◌||◌, ◌&&◌, List, [], ◌∷◌, ◌++◌, Option, none, some,
}

-- A JSON number, by its conversion to float64: whether that succeeds, and whether the result is its own
-- conversion to int64 and back.
pub record Number : Type 0 where
  pub fits : Bool
  pub whole : Bool

mutual
  pub data Json : Type 0 where
    null : Json
    boolean : Bool → Json
    number : Number → Json
    string : Text → Json
    array : Elements → Json
    object : Members → Json

  pub data Elements : Type 0 where
    no_element : Elements
    element : Json → Elements → Elements

  pub data Members : Type 0 where
    no_member : Members
    member : Text → Json → Members → Members

unfoldable pub elements : Elements → List Json
elements no_element = []
elements (element j es) = j ∷ elements es

unfoldable pub members : Members → Map Json
members no_member = []
members (member k j ms) = (k, j) ∷ members ms

-- A json.RawMessage: of no bytes, no JSON, or a value.
pub data Raw : Type 0 where
  empty broken : Raw
  json : Json → Raw

-- json.Unmarshal into a map, a slice, a string, a float64 and a bool; null is none of these and leaves
-- the zero value, without an error.
unfoldable pub as_object : Raw → Option (Map Json)
as_object (json (object ms)) = some (members ms)
as_object (json null) = some []
as_object v = none

unfoldable pub as_array : Raw → Option (List Json)
as_array (json (array es)) = some (elements es)
as_array (json null) = some []
as_array v = none

unfoldable pub as_string : Raw → Option Text
as_string (json (string t)) = some t
as_string (json null) = some []
as_string v = none

unfoldable pub as_number : Raw → Option Number
as_number (json (number n)) = if n.fits then some n else none
as_number (json null) = some (record { fits = true; whole = true })
as_number v = none

unfoldable pub as_boolean : Raw → Option Bool
as_boolean (json (boolean b)) = some b
as_boolean (json null) = some false
as_boolean v = none

-- A path as its steps, and what is wrong there.
pub data Place : Type 0 where
  key : Text → Place
  index : ℕ → Place

pub data Problem : Type 0 where
  expected_object expected_array expected_string expected_integer expected_number expected_boolean :
      Problem
  matches_none bad_schema : Problem
  missing_field not_in_enum unsupported : Text → Problem
  expected_one_of : List Text → Problem

pub record Issue : Type 0 where
  pub path : List Place
  pub problem : Problem

-- The cases of the switch over a type's name.
pub data TypeName : Type 0 where
  object_type array_type string_type integer_type number_type boolean_type : TypeName
  other_type : Text → TypeName

unfoldable pub type_name : Text → TypeName
type_name t =
    if text_eq t (codes "object")
    then object_type
    else if text_eq t (codes "array")
    then array_type
    else if text_eq t (codes "string")
    then string_type
    else if text_eq t (codes "integer")
    then integer_type
    else if text_eq t (codes "number")
    then number_type
    else if text_eq t (codes "boolean")
    then boolean_type
    else other_type t

-- The assertions of the code on what a key of the schema holds.
unfoldable pub array_at : Option Json → Option (List Json)
array_at (some (array es)) = some (elements es)
array_at j = none

unfoldable pub object_at : Option Json → Option Members
object_at (some (object ms)) = some ms
object_at j = none

abbrev pub at : Members → Text → Option Json
at s k = lookup k (members s)

unfoldable pub strings : List Json → List Text
strings [] = []
strings (string t ∷ js) = t ∷ strings js
strings (j ∷ js) = strings js

unfoldable pub type_names : Option Json → List Text
type_names (some (string t)) = t ∷ []
type_names (some (array es)) = strings (elements es)
type_names j = []

unfoldable pub enum_contains : List Json → Text → Bool
enum_contains [] want = false
enum_contains (string s ∷ js) want = text_eq s want || enum_contains js want
enum_contains (j ∷ js) want = enum_contains js want

abbrev pub is_nil : List Issue → Bool
is_nil [] = true
is_nil (i ∷ is) = false

abbrev pub issue : List Place → Problem → List Issue
issue p e = record { path = p; problem = e } ∷ []

unfoldable pub check_required : List Json → Map Json → List Place → List Issue
check_required [] obj p = []
check_required (string name ∷ names) obj p =
    (if has name obj then [] else issue p (missing_field name)) ++ check_required names obj p
check_required (j ∷ names) obj p = check_required names obj p

unfoldable pub properties_of : Option Members → Map Json
properties_of none = []
properties_of (some ms) = members ms

unfoldable pub listed : Option (List Json) → List Json
listed none = []
listed (some js) = js

unfoldable pub check_enum : Option (List Json) → Text → List Place → List Issue
check_enum none t p = []
check_enum (some en) t p = if enum_contains en t then [] else issue p (not_in_enum t)

unfoldable pub validate_string : Option Text → Members → List Place → List Issue
validate_string none s p = issue p expected_string
validate_string (some t) s p = check_enum (array_at (at s (codes "enum"))) t p

unfoldable pub validate_integer : Option Number → List Place → List Issue
validate_integer none p = issue p expected_integer
validate_integer (some n) p = if n.whole then [] else issue p expected_integer

unfoldable pub expect : Problem → Bool → List Place → List Issue
expect e ok p = if ok then [] else issue p e

unfoldable pub decoded : {A : Type 0} → Option A → Bool
decoded none = false
decoded (some a) = true

module _ (check : Members → Raw → List Place → List Issue) where
  unfoldable pub any_passes : List Json → Raw → List Place → Bool
  any_passes [] v p = false
  any_passes (object sub ∷ subs) v p = is_nil (check sub v p) || any_passes subs v p
  any_passes (j ∷ subs) v p = any_passes subs v p

  unfoldable pub check_property : Members → Option Json → List Place → List Issue
  check_property sub none p = []
  check_property sub (some j) p = check sub (json j) p

  unfoldable pub check_properties : Map Json → Map Json → List Place → List Issue
  check_properties [] obj p = []
  check_properties ((k, object sub) ∷ props) obj p =
      check_property sub (lookup k obj) (p ++ key k ∷ []) ++ check_properties props obj p
  check_properties ((k, j) ∷ props) obj p = check_properties props obj p

  unfoldable pub validate_members : Option (Map Json) → Members → List Place → List Issue
  validate_members none s p = issue p expected_object
  validate_members (some obj) s p =
      check_properties (properties_of (object_at (at s (codes "properties")))) obj p
      ++ check_required (listed (array_at (at s (codes "required")))) obj p

  unfoldable pub validate_object : Raw → Members → List Place → List Issue
  validate_object empty s p = []
  validate_object v s p = validate_members (as_object v) s p

  unfoldable pub check_items : Members → ℕ → List Json → List Place → List Issue
  check_items items i [] p = []
  check_items items i (j ∷ js) p =
      check items (json j) (p ++ index i ∷ []) ++ check_items items (i + 1) js p

  unfoldable pub validate_items : Option Members → List Json → List Place → List Issue
  validate_items none js p = []
  validate_items (some items) js p = check_items items 0 js p

  unfoldable pub validate_array : Option (List Json) → Members → List Place → List Issue
  validate_array none s p = issue p expected_array
  validate_array (some js) s p = validate_items (object_at (at s (codes "items"))) js p

  unfoldable pub validate_type : TypeName → Raw → List Place → Members → List Issue
  validate_type object_type v p s = validate_object v s p
  validate_type array_type v p s = validate_array (as_array v) s p
  validate_type string_type v p s = validate_string (as_string v) s p
  validate_type integer_type v p s = validate_integer (as_number v) p
  validate_type number_type v p s = expect expected_number (decoded (as_number v)) p
  validate_type boolean_type v p s = expect expected_boolean (decoded (as_boolean v)) p
  validate_type (other_type t) v p s = issue p (unsupported t)

  unfoldable pub any_type : List Text → Raw → List Place → Members → Bool
  any_type [] v p s = false
  any_type (t ∷ types) v p s = is_nil (validate_type (type_name t) v p s) || any_type types v p s

  unfoldable pub validate_types : List Text → Raw → List Place → Members → List Issue
  validate_types [] v p s = []
  validate_types (t ∷ []) v p s = validate_type (type_name t) v p s
  validate_types (t ∷ u ∷ types) v p s =
      if any_type (t ∷ u ∷ types) v p s then [] else issue p (expected_one_of (t ∷ u ∷ types))

  unfoldable pub validate_any_of : Option (List Json) → Members → Raw → List Place → List Issue
  validate_any_of (some subs) s v p = if any_passes subs v p then [] else issue p matches_none
  validate_any_of none s v p = validate_types (type_names (at s (codes "type"))) v p s

  -- The body of validateNode; `check` is its recursive call.
  unfoldable pub node : Members → Raw → List Place → List Issue
  node s v p = validate_any_of (array_at (at s (codes "anyOf"))) s v p

unfoldable pub validate_node : ℕ → Members → Raw → List Place → List Issue
validate_node zero s v p = issue p bad_schema
validate_node (suc fuel) s v p = node (validate_node fuel) s v p

-- The size of a value, a bound of the recursion.
unfoldable mutual
  pub size : Json → ℕ
  size null = 1
  size (boolean b) = 1
  size (number n) = 1
  size (string t) = 1
  size (array es) = suc (elements_size es)
  size (object ms) = suc (members_size ms)

  pub elements_size : Elements → ℕ
  elements_size no_element = 0
  elements_size (element j es) = size j + elements_size es

  pub members_size : Members → ℕ
  members_size no_member = 0
  members_size (member k j ms) = size j + members_size ms

-- Unmarshal of the schema into `map[string]any` converts every number in it, and fails on one that a
-- float64 cannot hold.
unfoldable mutual
  pub fits : Json → Bool
  fits null = true
  fits (boolean b) = true
  fits (number n) = n.fits
  fits (string t) = true
  fits (array es) = elements_fit es
  fits (object ms) = members_fit ms

  pub elements_fit : Elements → Bool
  elements_fit no_element = true
  elements_fit (element j es) = fits j && elements_fit es

  pub members_fit : Members → Bool
  members_fit no_member = true
  members_fit (member k j ms) = fits j && members_fit ms

-- Validate, after the schema was read: of no bytes, no JSON object, null, or an object.
unfoldable pub validate : Raw → Raw → List Place → List Issue
validate empty v p = []
validate (json null) v p = []
validate (json (object s)) v p =
    if members_fit s then validate_node (suc (members_size s)) s v p else issue [] bad_schema
validate schema v p = issue [] bad_schema
