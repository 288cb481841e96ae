-- ===== src/Schema/Meaning.antt =====
-- schema/schema.go: what a value has to be for the check to find nothing.
use egop.Prelude.{
  Text, codes, Map, lookup, has, ℕ, zero, suc, Bool, true, List, [], In, some, ◌≡◌, ◌≢◌,
}
use egop.Schema.{
  Number, Json, null, boolean, number, string, array, object, Elements, elements, Members, members,
  Raw, empty, json, TypeName, object_type, array_type, string_type, integer_type, number_type,
  boolean_type, at,
}

-- What a value is taken for, whatever the code's decoders: null is the empty value of every type.
pub data IsObject : Raw → Map Json → Type 0 where
  some_object : (ms : Members) → IsObject (json (object ms)) (members ms)
  null_object : IsObject (json null) []

pub data IsArray : Raw → List Json → Type 0 where
  some_array : (es : Elements) → IsArray (json (array es)) (elements es)
  null_array : IsArray (json null) []

pub data IsString : Raw → Text → Type 0 where
  some_string : (t : Text) → IsString (json (string t)) t
  null_string : IsString (json null) []

-- Numbers that a float64 holds, and among them the whole ones; null is 0.
pub data IsNumber : Raw → Type 0 where
  some_number : (n : Number) → n.fits ≡ true → IsNumber (json (number n))
  null_number : IsNumber (json null)

pub data IsInteger : Raw → Type 0 where
  some_integer : (n : Number) → n.fits ≡ true → n.whole ≡ true → IsInteger (json (number n))
  null_integer : IsInteger (json null)

pub data IsBoolean : Raw → Type 0 where
  some_boolean : (b : Bool) → IsBoolean (json (boolean b))
  null_boolean : IsBoolean (json null)

-- The names of the types.
pub data Names : Text → TypeName → Type 0 where
  names_object : Names (codes "object") object_type
  names_array : Names (codes "array") array_type
  names_string : Names (codes "string") string_type
  names_integer : Names (codes "integer") integer_type
  names_number : Names (codes "number") number_type
  names_boolean : Names (codes "boolean") boolean_type

-- "type" is one name, or a list with it.
pub data Asks (s : Members) (t : Text) : Type 0 where
  asks_one : at s (codes "type") ≡ some (string t) → Asks s t
  asks_any :
      (es : Elements)
      → at s (codes "type") ≡ some (array es)
      → In (string t) (elements es)
      → Asks s t

module _ (Sub : Members → Raw → Type 0) (s : Members) where
  -- A value that each part of the schema s for its type allows; `Sub` is what a schema inside allows.
  pub data HasType : TypeName → Raw → Type 0 where
    nothing : HasType object_type empty
    an_object :
        (v : Raw) (obj : Map Json)
        → IsObject v obj
        → ((props : Members) (k : Text) (sub : Members) (j : Json)
            → at s (codes "properties") ≡ some (object props)
            → In (k, object sub) (members props)
            → lookup k obj ≡ some j
            → Sub sub (json j))
        → ((required : Elements) (name : Text)
            → at s (codes "required") ≡ some (array required)
            → In (string name) (elements required)
            → has name obj ≡ true)
        → HasType object_type v
    an_array :
        (v : Raw) (js : List Json)
        → IsArray v js
        → ((items : Members) (j : Json)
            → at s (codes "items") ≡ some (object items)
            → In j js
            → Sub items (json j))
        → HasType array_type v
    a_string :
        (v : Raw) (t : Text)
        → IsString v t
        → ((enum : Elements)
            → at s (codes "enum") ≡ some (array enum)
            → In (string t) (elements enum))
        → HasType string_type v
    an_integer : (v : Raw) → IsInteger v → HasType integer_type v
    a_number : (v : Raw) → IsNumber v → HasType number_type v
    a_boolean : (v : Raw) → IsBoolean v → HasType boolean_type v

  -- A value that the schema s allows: one schema under "anyOf" does; or there is no list "anyOf", and
  -- the value has one of the types asked for, or none is.
  pub data Allows (v : Raw) : Type 0 where
    by_any_of :
        (subs : Elements) (sub : Members)
        → at s (codes "anyOf") ≡ some (array subs)
        → In (object sub) (elements subs)
        → Sub sub v
        → Allows v
    untyped :
        ((subs : Elements) → at s (codes "anyOf") ≢ some (array subs))
        → ((t : Text) → Asks s t → ⊥)
        → Allows v
    typed :
        (t : Text) (k : TypeName)
        → ((subs : Elements) → at s (codes "anyOf") ≢ some (array subs))
        → Asks s t
        → Names t k
        → HasType k v
        → Allows v

-- The meaning of a schema, to a depth.
abbrev pub Accepts : ℕ → Members → Raw → Type 0
Accepts zero s v = ⊥
Accepts (suc fuel) s v = Allows (Accepts fuel) s v

-- A value inside another.
pub data Inside (x : Json) : Json → Type 0 where
  itself : Inside x x
  in_array : (es : Elements) (j : Json) → In j (elements es) → Inside x j → Inside x (array es)
  in_object :
      (ms : Members) (k : Text) (j : Json)
      → In (k, j) (members ms)
      → Inside x j
      → Inside x (object ms)

-- A value that Validate lets pass by a schema: there is none, or it is null, or an object in which a
-- float64 holds every number, and which allows the value.
pub data Passes (n : ℕ) (v : Raw) : Raw → Type 0 where
  no_schema : Passes n v empty
  null_schema : Passes n v (json null)
  by_schema :
      (s : Members)
      → ((x : Number) → Inside (number x) (object s) → x.fits ≡ true)
      → Accepts n s v
      → Passes n v (json (object s))
