-- ===== src/Remote/Frame.antt =====
-- loader/remote/stream.go, wire.go: the frame of a session and the result envelope inside it. The
-- JSON and base64 codecs are a parameter.
use egop.Prelude.{
  Text, codes, is_empty, Map, ℕ, Bool, true, false, not, if◌then◌else◌, [], Option, none, some,
}
use egop.Contract.Event.{Origin, EventFilter}

pub data Kind : Type 0 where
  register call_func tool hook apply_config host_call subscribe push_event shutdown ping : Kind
  other : Text → Kind

pub record Frame : Type 0 where
  pub id : ℕ
  pub reply : Bool
  pub kind : Kind
  pub error : Text
  pub payload : Text
  pub manifest : Text
  pub token : Text
  pub fname : Text
  pub input : Text
  pub name : Text
  pub tctx : Text
  pub hook_id : Text
  pub op : Text
  pub topic : Text
  pub sub_type : Text
  pub version : ℕ
  pub labels : Map Text
  pub source : Option Origin
  pub filter : Option EventFilter
  pub config : Text
  pub reason : Text
  pub origin : Option Origin

-- `Frame{}`
abbrev pub blank : Frame
blank = record {
  id = 0;
  reply = false;
  kind = other [];
  error = [];
  payload = [];
  manifest = [];
  token = [];
  fname = [];
  input = [];
  name = [];
  tctx = [];
  hook_id = [];
  op = [];
  topic = [];
  sub_type = [];
  version = 0;
  labels = [];
  source = none;
  filter = none;
  config = [];
  reason = [];
  origin = none;
}

pub record Envelope : Type 0 where
  pub ok : Bool
  pub result : Text
  pub result_b64 : Text
  pub error : Text
  pub type : Text
  pub at : ℕ
  pub meta : Text

-- `envelope{}`
abbrev pub empty_envelope : Envelope
empty_envelope = record {
  ok = false;
  result = [];
  result_b64 = [];
  error = [];
  type = [];
  at = 0;
  meta = [];
}

-- json.Marshal and json.Unmarshal of an envelope, and base64.StdEncoding.
pub record Codec : Type 0 where
  pub marshal : Envelope → Option Text
  pub parse : Text → Option Envelope
  pub b64_encode : Text → Text
  pub b64_decode : Text → Option Text

unfoldable pub must_marshal : Codec → Envelope → Text
must_marshal c e = elim (c.marshal e) [
  | none ↦ codes "{\"ok\":false,\"error\":\"marshal envelope\"}"
  | some b ↦ b
]

unfoldable pub ok_envelope : Codec → Text → Text
ok_envelope c raw = must_marshal c (record empty_envelope { ok = true; result = raw })

unfoldable pub b64_envelope : Codec → Text → Text
b64_envelope c b = must_marshal c (record empty_envelope { ok = true; result_b64 = c.b64_encode b })

unfoldable pub err_envelope : Codec → Text → Text
err_envelope c e = must_marshal c (record empty_envelope { error = e })

-- What a call across the channel ends with; `refused` carries the error's text, less the words that
-- the code puts before it.
pub data Outcome : Type 0 where
  answered refused : Text → Outcome
  bad_envelope bad_b64 : Outcome

unfoldable pub open_envelope : Codec → Envelope → Outcome
open_envelope c e =
    if not e.ok
    then refused e.error
    else if not (is_empty e.result_b64)
    then elim (c.b64_decode e.result_b64) [ none ↦ bad_b64 | some b ↦ answered b ]
    else answered e.result

unfoldable pub decode_envelope : Codec → Text → Outcome
decode_envelope c payload = elim (c.parse payload) [
  | none ↦ bad_envelope
  | some e ↦ open_envelope c e
]

-- requestPayload, from the reply on.
unfoldable pub read_reply : Codec → Frame → Outcome
read_reply c f = if not (is_empty f.error) then refused f.error else decode_envelope c f.payload
