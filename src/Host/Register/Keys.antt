-- ===== src/Host/Register/Keys.antt =====
-- host/register.go: the key space of functions, "id.fn".
use egop.Prelude.{
  Text, ℕ, true, false, ◌||◌, List, [], ◌∷◌, ◌++◌, ◌≡◌, refl, arith, none, inl, inr, In,
  In-cons_cases,
}
use egop.Contract.Glob.{has_byte}
use egop.Contract.Meta.{FuncSpec}
use egop.Host.Register.{fn_key}
use egop.Host.Check.{bad_function_name, check_functions}

has_byte-append : (c : ℕ) (s t : Text) → has_byte c (s ++ t) ≡ (has_byte c s || has_byte c t)
unfolding has_byte
has_byte-append c [] t = refl
has_byte-append c (d ∷ s) t = ground (arith, has_byte-append c s t)

-- The last '.' of a key is the one before the function's name.
fn_key_parts :
    (a b f g : Text)
    → has_byte b'.' f ≡ false
    → has_byte b'.' g ≡ false
    → a ++ (b'.' ∷ f) ≡ b ++ (b'.' ∷ g)
    → (a ≡ b) × (f ≡ g)
unfolding has_byte
fn_key_parts [] [] f g hf hg e = (refl, cc)
fn_key_parts [] (y ∷ b) f g hf hg e =
    let tail : f ≡ b ++ (b'.' ∷ g) = cc in
    let dotted : has_byte b'.' (b ++ (b'.' ∷ g)) ≡ true =
      ground (arith, has_byte-append b'.' b (b'.' ∷ g)) in
    let bad : has_byte b'.' f ≡ true = rw tail dotted in cc
fn_key_parts (x ∷ a) [] f g hf hg e =
    let tail : g ≡ a ++ (b'.' ∷ f) = cc in
    let dotted : has_byte b'.' (a ++ (b'.' ∷ f)) ≡ true =
      ground (arith, has_byte-append b'.' a (b'.' ∷ f)) in
    let bad : has_byte b'.' g ≡ true = rw tail dotted in cc
fn_key_parts (x ∷ a) (y ∷ b) f g hf hg e =
    let (same, names) = fn_key_parts a b f g hf hg (cc) in (cc, names)

-- A function name that the contract check lets through holds no '.'.
good_name : (f : FuncSpec) → bad_function_name f ≡ false → has_byte b'.' f.name ≡ false
unfolding bad_function_name
good_name f h = ground arith

check_functions_at :
    (id : Text) (fs : List FuncSpec)
    → check_functions id fs ≡ none
    → (f : FuncSpec) → In f fs
    → bad_function_name f ≡ false
unfolding check_functions
check_functions_at id [] h f m = elim m [ ]
check_functions_at id (g ∷ fs) h f m = elim (In-cons_cases m) [
  | inl e ↦ rw e (ground arith)
  | inr m' ↦ check_functions_at id fs (ground arith) f m'
]

-- Two functions whose declaring lists pass the name check share a key only if they have the same
-- plugin id and the same name.
pub fn_key-injective :
    (id id' : Text) (fs fs' : List FuncSpec) (f f' : FuncSpec)
    → check_functions id fs ≡ none
    → check_functions id' fs' ≡ none
    → In f fs
    → In f' fs'
    → fn_key id f.name ≡ fn_key id' f'.name
    → (id ≡ id') × (f.name ≡ f'.name)
unfolding fn_key
fn_key-injective id id' fs fs' f f' valid valid' m m' e =
    fn_key_parts id id' f.name f'.name (good_name f (check_functions_at id fs valid f m))
      (good_name f' (check_functions_at id' fs' valid' f' m')) e
