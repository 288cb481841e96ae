-- ===== src/Schema/Decoding.antt =====
-- schema/schema.go: the decoders and the loops over JSON lists, against what they stand for.
use egop.Prelude.{
  Text, text_eq, text_eq_sound, text_eq_refl, Map, has, if◌then◌else◌, Bool, or_cases, true, false,
  List, [], ◌∷◌, ◌++◌, In, In-cons_cases, here, there, none, some, ◌≡◌, refl, sym, subst, inl, inr,
  arith,
}
use egop.Schema.{
  Number, Json, null, boolean, number, string, array, object, Raw, empty, broken, json, as_object,
  as_array, as_string, as_number, as_boolean, decoded, Place, Issue, enum_contains, is_nil,
  check_required,
}
use egop.Schema.Meaning.{
  IsObject, some_object, null_object, IsArray, some_array, null_array, IsString, some_string,
  null_string, IsNumber, some_number, null_number, IsInteger, some_integer, null_integer, IsBoolean,
  some_boolean, null_boolean,
}

pub no_issue_left : (xs ys : List Issue) → xs ++ ys ≡ [] → (xs ≡ []) × (ys ≡ [])
no_issue_left [] ys e = (refl, e)
no_issue_left (x ∷ xs) ys e = cc

pub none_and_none : (xs ys : List Issue) → xs ≡ [] → ys ≡ [] → xs ++ ys ≡ []
none_and_none [] ys e f = f
none_and_none (x ∷ xs) ys e f = cc

pub nil_found : (xs : List Issue) → is_nil xs ≡ true → xs ≡ []
nil_found [] e = refl
nil_found (x ∷ xs) e = cc

-- A list member that is no object, or no text, is passed over.
pub enum_sound : (en : List Json) (t : Text) → enum_contains en t ≡ true → In (string t) en
unfolding enum_contains
enum_sound [] t e = cc
enum_sound (string s ∷ js) t e = elim (or_cases (text_eq s t) (enum_contains js t) e) [
  | inl same ↦ subst (λ x. In (string x) (string s ∷ js)) (text_eq_sound s t same) here
  | inr later ↦ there (enum_sound js t later)
]
enum_sound (j ∷ js) t e = there (enum_sound js t e)

pub enum_at : (en : List Json) (t : Text) → In (string t) en → enum_contains en t ≡ true
unfolding enum_contains
enum_at [] t i = elim i [ ]
enum_at (string s ∷ js) t i = elim (In-cons_cases i) [
  | inl e ↦ let same : t ≡ s = cc in rw (same, text_eq_refl s) refl
  | inr later ↦ rw (enum_at js t later) (ground arith)
]
enum_at (j ∷ js) t i = elim (In-cons_cases i) [ inl e ↦ cc | inr later ↦ enum_at js t later ]

pub required_sound :
    (names : List Json) (obj : Map Json) (p : List Place)
    → check_required names obj p ≡ []
    → (name : Text) → In (string name) names
    → has name obj ≡ true
unfolding check_required
required_sound [] obj p e name i = elim i [ ]
required_sound (string n ∷ names) obj p e name i =
    let (first, others) = no_issue_left _ _ e in
    elim (In-cons_cases i) [
      | inl same ↦ let key_same : name ≡ n = cc in rw key_same (ground arith)
      | inr later ↦ required_sound names obj p others name later
    ]
required_sound (j ∷ names) obj p e name i = elim (In-cons_cases i) [
  | inl same ↦ cc
  | inr later ↦ required_sound names obj p e name later
]

pub required_at :
    (names : List Json) (obj : Map Json) (p : List Place)
    → ((name : Text) → In (string name) names → has name obj ≡ true)
    → check_required names obj p ≡ []
unfolding check_required
required_at [] obj p all_there = refl
required_at (string n ∷ names) obj p all_there =
    none_and_none _ _ (ground (arith, all_there n here))
      (required_at names obj p (λ name i. all_there name (there i)))
required_at (j ∷ names) obj p all_there =
    required_at names obj p (λ name i. all_there name (there i))

some_same {ℓ} : {A : Type ℓ} {a b : A} → some a ≡ some b → a ≡ b
some_same e = cc

pub IsObject-sound : (v : Raw) (obj : Map Json) → as_object v ≡ some obj → IsObject v obj
unfolding as_object
IsObject-sound (json (object ms)) obj e =
    subst (IsObject (json (object ms))) (some_same e) (some_object ms)
IsObject-sound (json null) obj e = subst (IsObject (json null)) (some_same e) null_object
IsObject-sound empty obj e = cc
IsObject-sound broken obj e = cc
IsObject-sound (json j) obj e = cc

pub object_of : (v : Raw) (obj : Map Json) → IsObject v obj → as_object v ≡ some obj
unfolding as_object
object_of _ _ (some_object ms) = refl
object_of _ _ null_object = refl

pub IsArray-sound : (v : Raw) (js : List Json) → as_array v ≡ some js → IsArray v js
unfolding as_array
IsArray-sound (json (array es)) js e =
    subst (IsArray (json (array es))) (some_same e) (some_array es)
IsArray-sound (json null) js e = subst (IsArray (json null)) (some_same e) null_array
IsArray-sound empty js e = cc
IsArray-sound broken js e = cc
IsArray-sound (json j) js e = cc

pub array_of : (v : Raw) (js : List Json) → IsArray v js → as_array v ≡ some js
unfolding as_array
array_of _ _ (some_array es) = refl
array_of _ _ null_array = refl

pub IsString-sound : (v : Raw) (t : Text) → as_string v ≡ some t → IsString v t
unfolding as_string
IsString-sound (json (string x)) t e =
    subst (IsString (json (string x))) (some_same e) (some_string x)
IsString-sound (json null) t e = subst (IsString (json null)) (some_same e) null_string
IsString-sound empty t e = cc
IsString-sound broken t e = cc
IsString-sound (json j) t e = cc

pub string_of : (v : Raw) (t : Text) → IsString v t → as_string v ≡ some t
unfolding as_string
string_of _ _ (some_string t) = refl
string_of _ _ null_string = refl

of_fitting :
    (x n : Number) (b : Bool)
    → x.fits ≡ b
    → (if b then some x else none) ≡ some n
    → IsNumber (json (number x)) × (n.whole ≡ true → IsInteger (json (number x)))
of_fitting x n true f e =
    (some_number x f, λ w. some_integer x f (subst (λ y. y.whole ≡ true) (sym (some_same e)) w))
of_fitting x n false f e = cc

pub number_sound :
    (v : Raw) (n : Number) → as_number v ≡ some n → IsNumber v × (n.whole ≡ true → IsInteger v)
unfolding as_number
number_sound (json (number x)) n e = of_fitting x n x.fits refl e
number_sound (json null) n e = (null_number, λ w. null_integer)
number_sound empty n e = cc
number_sound broken n e = cc
number_sound (json j) n e = cc

pub number_of : (v : Raw) → IsNumber v → decoded (as_number v) ≡ true
unfolding as_number decoded
number_of _ (some_number n f) = ground (arith, f)
number_of _ null_number = refl

pub integer_of : (v : Raw) → IsInteger v → (n : Number) × (as_number v ≡ some n) × (n.whole ≡ true)
unfolding as_number
integer_of _ (some_integer n f w) = (n, ground (arith, f), w)
integer_of _ null_integer = (_, refl, refl)

pub IsBoolean-sound : (v : Raw) (b : Bool) → as_boolean v ≡ some b → IsBoolean v
unfolding as_boolean
IsBoolean-sound (json (boolean x)) b e = some_boolean x
IsBoolean-sound (json null) b e = null_boolean
IsBoolean-sound empty b e = cc
IsBoolean-sound broken b e = cc
IsBoolean-sound (json j) b e = cc

pub boolean_of : (v : Raw) → IsBoolean v → decoded (as_boolean v) ≡ true
unfolding as_boolean decoded
boolean_of _ (some_boolean b) = refl
boolean_of _ null_boolean = refl
