-- ===== src/Schema/Tests.antt =====
-- Checks of small values.
use egop.Prelude.{codes, false, text_eq, lookup, ◌<◌, [], ◌∷◌, ◌≡◌, ◌↔◌, refl, arith}
use egop.Schema.{
  null, number, fits, elements_fit, members_fit, bad_schema, string, array, object, Members,
  no_member, member, no_element, element, members, elements, Raw, json, key, missing_field,
  not_in_enum, validate, validate_node, node, validate_any_of, validate_types, validate_type,
  type_name, validate_object, validate_members, check_properties, check_property, check_required,
  properties_of, listed, array_at, object_at, type_names, as_object, as_string, validate_string,
  check_enum, enum_contains, members_size, size,
}
use egop.Schema.Meaning.{Passes}
use egop.Schema.Fuel.{validate_iff, raw_size}

-- `{"type":"object","required":["a"],"properties":{"b":{"type":"string","enum":["x"]}}}`
abbrev word_schema : Members
word_schema =
    member (codes "type") (string (codes "string"))
      (member (codes "enum") (array (element (string (codes "x")) no_element)) no_member)

abbrev small_schema : Members
small_schema = member (codes "type") (string (codes "object")) (
    member (codes "required") (array (element (string (codes "a")) no_element)) (
      member (codes "properties") (object (member (codes "b") (object word_schema) no_member))
        no_member))

abbrev small_value : Raw
small_value = json (object (member (codes "b") (string (codes "y")) no_member))

finds_both :
    validate (json (object small_schema)) small_value []
    ≡ record { path = key (codes "b") ∷ []; problem = not_in_enum (codes "y") }
      ∷ record { path = []; problem = missing_field (codes "a") }
      ∷ []
unfolding validate fits elements_fit members_fit validate_node node validate_any_of validate_types
    validate_type type_name validate_object validate_members check_properties check_property
    check_required properties_of listed array_at object_at type_names as_object as_string
    validate_string check_enum enum_contains members elements members_size size text_eq lookup
finds_both = refl

-- The value null passes for a text, where no enumeration forbids the empty one.
takes_null :
    validate
      (json (object (member (codes "type") (string (codes "string")) no_member)))
      (json null)
      []
    ≡ []
unfolding validate fits elements_fit members_fit validate_node node validate_any_of validate_types
    validate_type type_name array_at type_names as_string validate_string check_enum members
    members_size size text_eq lookup
takes_null = refl

small_enough : raw_size (json (object small_schema)) < 10
unfolding raw_size members_size size elements
small_enough = omega arith

-- A schema with a number that a float64 cannot hold is not read.
abbrev huge_schema : Members
huge_schema = member (codes "maximum") (number (record { fits = false; whole = false })) no_member

refuses_huge :
    validate (json (object huge_schema)) small_value []
    ≡ record { path = []; problem = bad_schema } ∷ []
unfolding validate fits elements_fit members_fit
refuses_huge = refl

validate_iff_example :
    (validate (json (object small_schema)) small_value [] ≡ [])
    ↔ Passes 10 small_value (json (object small_schema))
validate_iff_example = validate_iff (json (object small_schema)) small_value [] 10 small_enough
