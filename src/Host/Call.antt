-- ===== src/Host/Call.antt =====
-- host/call.go: Call, with the checks of a function's input and output. The decoding of JSON is a
-- parameter, the context and its origin are left out.
pub mod Laws
mod Tests
use egop.Prelude.{
  Text, codes, is_empty, Map, lookup, if◌then◌else◌, Bool, true, false, ◌||◌, List, [], ◌∷◌, ◌++◌,
  Option, none, some,
}
use egop.Schema.{Raw, Issue, Place, key, validate}
use egop.Host.State.{FnEntry, Host, Reply, replied, failed, panicked}

pub data CallResult : Type 0 where
  returned : Text → CallResult
  unknown_function : (plugin name : Text) → CallResult
  bad_input bad_output : (plugin name : Text) → List Issue → CallResult
  call_failed call_panicked : Text → CallResult

abbrev pub call_key : Text → Text → Text
call_key id fname = id ++ codes "." ++ fname

module _ (decode : Text → Raw) (unchecked : Bool) where
  -- The issues of a value, where there is a schema and DisableFuncValidation is not set.
  unfoldable pub issues_of : Text → Text → Text → List Issue
  issues_of schema value root =
      if unchecked || is_empty schema
      then []
      else validate (decode schema) (decode value) (key root ∷ [])

  unfoldable pub check_output : Text → Text → Text → List Issue → CallResult
  check_output id fname out [] = returned out
  check_output id fname out (i ∷ is) = bad_output id fname (i ∷ is)

  unfoldable pub finish_call : Text → Text → Text → Reply → CallResult
  finish_call id fname schema (replied out) =
      check_output id fname out (issues_of schema out (codes "output"))
  finish_call id fname schema (failed msg) = call_failed msg
  finish_call id fname schema (panicked p) = call_panicked p

  unfoldable pub run_checked : Text → Text → Text → FnEntry → List Issue → CallResult
  run_checked id fname input e [] = finish_call id fname e.spec.output (e.provider fname input)
  run_checked id fname input e (i ∷ is) = bad_input id fname (i ∷ is)

  unfoldable pub call_entry : Text → Text → Text → Option FnEntry → CallResult
  call_entry id fname input none = unknown_function id fname
  call_entry id fname input (some e) =
      run_checked id fname input e (issues_of e.spec.input input (codes "input"))

  unfoldable pub call : Host → Text → Text → Text → CallResult
  call h id fname input = call_entry id fname input (lookup (call_key id fname) h.fns)
