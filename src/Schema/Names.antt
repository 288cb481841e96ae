-- ===== src/Schema/Names.antt =====
-- schema/schema.go: what the keys of a schema hold, its type names, and the numbers in it.
use egop.Prelude.{
  Text, codes, text_eq, text_eq_sound, if◌then◌else◌, Bool-cases, and_left, and_right, and_intro,
  true, List, [], ◌∷◌, In, In-cons_cases, here, there, Option, none, some, ◌≡◌, ◌≢◌, ◌⊎◌, refl, sym,
  subst, ap, inl, inr,
}
use egop.Schema.{
  Number, Json, null, boolean, number, string, array, object, Elements, no_element, element,
  elements, Members, no_member, member, members, TypeName, other_type, type_name, array_at,
  object_at, at, type_names, strings, properties_of, listed, fits, elements_fit, members_fit,
}
use egop.Schema.Meaning.{
  Names, names_object, names_array, names_string, names_integer, names_number, names_boolean, Asks,
  asks_one, asks_any, Inside, itself, in_array, in_object,
}

pub object_at_sound :
    (o : Option Json) (ms : Members) → object_at o ≡ some ms → o ≡ some (object ms)
unfolding object_at
object_at_sound (some (object x)) ms e = cc
object_at_sound none ms e = cc
object_at_sound (some j) ms e = cc

pub object_at_of : (o : Option Json) (ms : Members) → o ≡ some (object ms) → object_at o ≡ some ms
unfolding object_at
object_at_of o ms e = subst (λ x. object_at x ≡ some ms) (sym e) refl

pub array_at_sound :
    (o : Option Json) (js : List Json)
    → array_at o ≡ some js
    → (es : Elements) × (o ≡ some (array es)) × (js ≡ elements es)
unfolding array_at
array_at_sound (some (array x)) js e = (x, refl, cc)
array_at_sound none js e = cc
array_at_sound (some j) js e = cc

pub array_at_of :
    (o : Option Json) (es : Elements) → o ≡ some (array es) → array_at o ≡ some (elements es)
unfolding array_at
array_at_of o es e = subst (λ x. array_at x ≡ some (elements es)) (sym e) refl

pub no_array : (o : Option Json) → ((es : Elements) → o ≢ some (array es)) → array_at o ≡ none
unfolding array_at
no_array (some (array x)) never = elim (never x refl) [ ]
no_array none never = refl
no_array (some j) never = refl

pub property_in :
    (o : Option Json) (x : Text × Json)
    → In x (properties_of (object_at o))
    → (props : Members) × (o ≡ some (object props)) × In x (members props)
unfolding properties_of object_at
property_in (some (object ms)) x i = (ms, refl, i)
property_in none x i = elim i [ ]
property_in (some j) x i = elim i [ ]

pub property_of :
    (o : Option Json) (props : Members) (x : Text × Json)
    → o ≡ some (object props)
    → In x (members props)
    → In x (properties_of (object_at o))
unfolding properties_of object_at
property_of o props x e i = subst (λ y. In x (properties_of (object_at y))) (sym e) i

pub listed_in :
    (o : Option Json) (x : Json)
    → In x (listed (array_at o))
    → (es : Elements) × (o ≡ some (array es)) × In x (elements es)
unfolding listed array_at
listed_in (some (array es)) x i = (es, refl, i)
listed_in none x i = elim i [ ]
listed_in (some j) x i = elim i [ ]

pub listed_of :
    (o : Option Json) (es : Elements) (x : Json)
    → o ≡ some (array es)
    → In x (elements es)
    → In x (listed (array_at o))
unfolding listed array_at
listed_of o es x e i = subst (λ y. In x (listed (array_at y))) (sym e) i

strings_in : (js : List Json) (t : Text) → In t (strings js) → In (string t) js
unfolding strings
strings_in [] t i = elim i [ ]
strings_in (string x ∷ js) t i = elim (In-cons_cases i) [
  | inl e ↦ subst (λ y. In (string t) (string y ∷ js)) e here
  | inr later ↦ there (strings_in js t later)
]
strings_in (j ∷ js) t i = there (strings_in js t i)

strings_of : (js : List Json) (t : Text) → In (string t) js → In t (strings js)
unfolding strings
strings_of [] t i = elim i [ ]
strings_of (string x ∷ js) t i = elim (In-cons_cases i) [
  | inl e ↦ let same : t ≡ x = cc in subst (λ y. In t (y ∷ strings js)) same here
  | inr later ↦ there (strings_of js t later)
]
strings_of (j ∷ js) t i = elim (In-cons_cases i) [ inl e ↦ cc | inr later ↦ strings_of js t later ]

asked :
    (s : Members) (o : Option Json) (t : Text)
    → at s (codes "type") ≡ o
    → In t (type_names o)
    → Asks s t
unfolding type_names
asked s (some (string x)) t e i = elim (In-cons_cases i) [
  | inl same ↦ asks_one (subst (λ y. at s (codes "type") ≡ some (string y)) (sym same) e)
  | inr later ↦ elim later [ ]
]
asked s (some (array es)) t e i = asks_any es e (strings_in (elements es) t i)
asked s none t e i = elim i [ ]
asked s (some j) t e i = elim i [ ]

pub Asks-in : (s : Members) (t : Text) → In t (type_names (at s (codes "type"))) → Asks s t
Asks-in s t i = asked s _ t refl i

pub Asks-of : (s : Members) (t : Text) → Asks s t → In t (type_names (at s (codes "type")))
unfolding type_names
Asks-of s t (asks_one e) = subst (λ o. In t (type_names o)) (sym e) here
Asks-of s t (asks_any es e i) =
    subst (λ o. In t (type_names o)) (sym e) (strings_of (elements es) t i)

pub none_asked : (s : Members) → ((t : Text) → Asks s t → ⊥) → type_names (at s (codes "type")) ≡ []
none_asked s never = emptied _ (λ t i. never t (Asks-in s t i))
  where
    emptied : (ts : List Text) → ((t : Text) → In t ts → ⊥) → ts ≡ []
    emptied [] nobody = refl
    emptied (t ∷ ts) nobody = elim (nobody t here) [ ]

pub type_name-of : (t : Text) (k : TypeName) → Names t k → type_name t ≡ k
unfolding type_name text_eq
type_name-of _ _ names_object = refl
type_name-of _ _ names_array = refl
type_name-of _ _ names_string = refl
type_name-of _ _ names_integer = refl
type_name-of _ _ names_number = refl
type_name-of _ _ names_boolean = refl

-- What a text has to be for the switch to choose its name.
chosen :
    (t word : Text) (k other goal : TypeName)
    → Names word k
    → ((other ≡ goal) → Names t goal ⊎ (goal ≡ other_type t))
    → (if text_eq t word then k else other) ≡ goal
    → Names t goal ⊎ (goal ≡ other_type t)
chosen t word k other goal named rest e = elim (Bool-cases (text_eq t word)) [
  | inl same ↦
      let this : k ≡ goal = cc in
      inl (
        subst (λ x. Names x goal) (sym (text_eq_sound t word same)) (subst (Names word) this named))
  | inr differs ↦ let that : other ≡ goal = cc in rest that
]

pub type_name-in : (t : Text) (k : TypeName) → type_name t ≡ k → Names t k ⊎ (k ≡ other_type t)
unfolding type_name
type_name-in t k e =
    chosen t _ _ _ k names_object
      (chosen t _ _ _ k names_array (
        chosen t _ _ _ k names_string (
          chosen t _ _ _ k names_integer (
            chosen t _ _ _ k names_number
              (chosen t _ _ _ k names_boolean (λ last. inr (sym last)))))))
      e

element_fits :
    (es : Elements) (j : Json) → elements_fit es ≡ true → In j (elements es) → fits j ≡ true
unfolding elements_fit elements
element_fits no_element j f i = elim i [ ]
element_fits (element y es) j f i = elim (In-cons_cases i) [
  | inl e ↦ subst (λ x. fits x ≡ true) (sym e) (and_left _ _ f)
  | inr later ↦ element_fits es j (and_right _ _ f) later
]

member_fits :
    (ms : Members) (k : Text) (j : Json)
    → members_fit ms ≡ true
    → In (k, j) (members ms)
    → fits j ≡ true
unfolding members_fit members
member_fits no_member k j f i = elim i [ ]
member_fits (member n y ms) k j f i = elim (In-cons_cases i) [
  | inl e ↦ subst (λ x. fits x ≡ true) (sym (ap (λ z. z.1) e)) (and_left _ _ f)
  | inr later ↦ member_fits ms k j (and_right _ _ f) later
]

fits-all : (x : Number) (j : Json) → fits j ≡ true → Inside (number x) j → x.fits ≡ true
unfolding fits
fits-all x _ f itself = f
fits-all x _ f (in_array es j i deep) = fits-all x j (element_fits es j f i) deep
fits-all x _ f (in_object ms k j i deep) = fits-all x j (member_fits ms k j f i) deep

mutual
  unfolding fits elements_fit members_fit elements members

  all-fit : (j : Json) → ((x : Number) → Inside (number x) j → x.fits ≡ true) → fits j ≡ true
  all-fit null each = refl
  all-fit (boolean b) each = refl
  all-fit (number n) each = each n itself
  all-fit (string t) each = refl
  all-fit (array es) each = all_elements-fit es (λ j i x deep. each x (in_array es j i deep))
  all-fit (object ms) each = all_members-fit ms (λ k j i x deep. each x (in_object ms k j i deep))

  all_elements-fit :
      (es : Elements)
      → ((j : Json) → In j (elements es) → (x : Number) → Inside (number x) j → x.fits ≡ true)
      → elements_fit es ≡ true
  all_elements-fit no_element each = refl
  all_elements-fit (element y es) each =
      and_intro (all-fit y (each y here)) (all_elements-fit es (λ j i. each j (there i)))

  pub all_members-fit :
      (ms : Members)
      → ((k : Text) (j : Json)
          → In (k, j) (members ms)
          → (x : Number) → Inside (number x) j
          → x.fits ≡ true)
      → members_fit ms ≡ true
  all_members-fit no_member each = refl
  all_members-fit (member n y ms) each =
      and_intro (all-fit y (each n y here)) (all_members-fit ms (λ k j i. each k j (there i)))

pub object_fit-of :
    (s : Members)
    → members_fit s ≡ true
    → (x : Number) → Inside (number x) (object s)
    → x.fits ≡ true
unfolding fits
object_fit-of s f x deep = fits-all x (object s) f deep
