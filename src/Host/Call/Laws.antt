-- ===== src/Host/Call/Laws.antt =====
-- host/call.go: when a call returns a value.
use egop.Prelude.{
  Bool-cases, true, suc, inl, inr, sym, arith, Text, codes, lookup, Bool, List, [], ◌∷◌, Option,
  none, some, ◌≡◌, ◌↔◌, refl, subst, ap,
}
use egop.Schema.{Raw, Issue, key, validate}
use egop.Schema.Meaning.{Passes}
use egop.Schema.Fuel.{validate_iff, raw_size}
use egop.Host.State.{FnEntry, Host, Reply, replied, failed, panicked}
use egop.Host.Call.{
  returned, call_key, issues_of, check_output, finish_call, run_checked, call_entry, call,
}

-- A text that a schema lets pass: the host does not check, no schema is declared, or what the text reads
-- as passes by what the schema reads as, in the sense of Schema/Meaning.
pub data Fine (decode : Text → Raw) (unchecked : Bool) (schema value : Text) : Type 0 where
  not_checked : unchecked ≡ true → Fine decode unchecked schema value
  not_declared : schema ≡ [] → Fine decode unchecked schema value
  checked :
      Passes (suc (raw_size (decode schema))) (decode value) (decode schema)
      → Fine decode unchecked schema value

module _ (decode : Text → Raw) (unchecked : Bool) where
  -- A run of the function: it is in the catalogue, its input is fine, it answers the output, and that is
  -- fine.
  pub record IsCall (h : Host) (id fname input out : Text) : Type 0 where
    pub entry : FnEntry
    pub found : lookup (call_key id fname) h.fns ≡ some entry
    pub input_passes : Fine decode unchecked entry.spec.input input
    pub answers : entry.provider fname input ≡ replied out
    pub output_passes : Fine decode unchecked entry.spec.output out

  Fine-sound :
      (schema value root : Text)
      → issues_of decode unchecked schema value root ≡ []
      → Fine decode unchecked schema value
  unfolding issues_of
  Fine-sound [] value root e = not_declared refl
  Fine-sound (c ∷ s) value root e = elim (Bool-cases unchecked) [
    | inl off ↦ not_checked off
    | inr on ↦ checked (
        (validate_iff (decode (c ∷ s)) (decode value) (key root ∷ []) _ (omega arith)).0
          (ground (arith, on)))
  ]

  no_schema_fine : (value root : Text) → issues_of decode unchecked [] value root ≡ []
  unfolding issues_of
  no_schema_fine value root = ground arith

  Fine-at :
      (schema value root : Text)
      → Fine decode unchecked schema value
      → issues_of decode unchecked schema value root ≡ []
  unfolding issues_of
  Fine-at schema value root (not_checked off) = ground (arith, off)
  Fine-at schema value root (not_declared e) =
      subst (λ x. issues_of decode unchecked x value root ≡ []) (sym e) (no_schema_fine value root)
  Fine-at schema value root (checked ok) =
      let nothing : validate (decode schema) (decode value) (key root ∷ []) ≡ [] =
        (validate_iff (decode schema) (decode value) (key root ∷ []) _ (omega arith)).1 ok in
      ground (arith, nothing)

  output_sound :
      (id fname out out' : Text) (is : List Issue)
      → check_output decode unchecked id fname out' is ≡ returned out
      → (out' ≡ out) × (is ≡ [])
  unfolding check_output
  output_sound id fname out out' [] e = (cc, refl)
  output_sound id fname out out' (i ∷ is) e = cc

  finish_sound :
      (id fname schema out : Text) (r : Reply)
      → finish_call decode unchecked id fname schema r ≡ returned out
      → (r ≡ replied out) × (issues_of decode unchecked schema out (codes "output") ≡ [])
  unfolding finish_call
  finish_sound id fname schema out (replied x) e =
      let (same, none_found) =
        output_sound id fname out x (issues_of decode unchecked schema x (codes "output")) e in
      (
        ap replied same,
        subst (λ y. issues_of decode unchecked schema y (codes "output") ≡ []) same none_found,
      )
  finish_sound id fname schema out (failed msg) e = cc
  finish_sound id fname schema out (panicked p) e = cc

  run_sound :
      (h : Host) (id fname input out : Text) (x : FnEntry) (is : List Issue)
      → lookup (call_key id fname) h.fns ≡ some x
      → issues_of decode unchecked x.spec.input input (codes "input") ≡ is
      → run_checked decode unchecked id fname input x is ≡ returned out
      → IsCall h id fname input out
  unfolding run_checked
  run_sound h id fname input out x [] f g e =
      let (answer, passes) = finish_sound id fname x.spec.output out (x.provider fname input) e in
      record {
        entry = x;
        found = f;
        input_passes = Fine-sound x.spec.input input (codes "input") g;
        answers = answer;
        output_passes = Fine-sound x.spec.output out (codes "output") passes;
      }
  run_sound h id fname input out x (i ∷ is) f g e = cc

  returned_sound :
      (h : Host) (id fname input out : Text) (o : Option FnEntry)
      → lookup (call_key id fname) h.fns ≡ o
      → call_entry decode unchecked id fname input o ≡ returned out
      → IsCall h id fname input out
  unfolding call_entry
  returned_sound h id fname input out none f e = cc
  returned_sound h id fname input out (some x) f e = run_sound h id fname input out x _ f refl e

  returned_at :
      (h : Host) (id fname input out : Text)
      → IsCall h id fname input out
      → call decode unchecked h id fname input ≡ returned out
  unfolding call call_entry run_checked finish_call check_output
  returned_at h id fname input out v =
      rw
        (
          v.found,
          call_entry,
          Fine-at v.entry.spec.input input (codes "input") v.input_passes,
          run_checked,
          v.answers,
          finish_call,
          Fine-at v.entry.spec.output out (codes "output") v.output_passes,
          check_output,
        )
        refl

-- A call returns a value exactly if the function is in the catalogue, its input is fine, the function
-- answers with that value, and the value is fine. A text is fine if the host does not validate, if no
-- schema is declared for it, or if what it reads as passes by what the schema reads as.
pub call_iff :
    (decode : Text → Raw) (unchecked : Bool) (h : Host) (id fname input out : Text)
    → (call decode unchecked h id fname input ≡ returned out)
      ↔ IsCall decode unchecked h id fname input out
unfolding call
call_iff decode unchecked h id fname input out = (
  returned_sound decode unchecked h id fname input out (lookup (call_key id fname) h.fns) refl,
  returned_at decode unchecked h id fname input out,
)
