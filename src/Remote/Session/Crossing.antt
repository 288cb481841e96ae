-- ===== src/Remote/Session/Crossing.antt =====
-- loader/remote/session.go, wire.go: what a handler ends with and what the caller on the other side
-- reads from its reply.
use egop.Prelude.{
  false, is_empty, Text, codes, ℕ, true, [], ◌++◌, Option, none, some, ◌≡◌, ◌≢◌, ◌∷◌,
}
use egop.Remote.Frame.{
  Frame, Envelope, empty_envelope, Codec, must_marshal, Outcome, answered, refused, read_reply,
}
use egop.Remote.Session.{Handled, returned, failed, panicked}

-- The envelopes of a result and of an error.
abbrev pub ok_of : Text → Envelope
ok_of raw = record empty_envelope { ok = true; result = raw }

abbrev pub err_of : Text → Envelope
err_of msg = record empty_envelope { error = msg }

-- A Frame as the receiver decodes it from the bytes of the sender; none where it cannot be encoded.
abbrev pub Carrier : Type 0
Carrier = Frame → Option Frame

-- encoding/json on envelopes and on frames. Marshal rewrites the raw result (`compact`) and the bytes of
-- a text that are no UTF-8 (`scrub`), fails only on raw bytes that are no JSON, and Unmarshal reads back
-- the rest. A raw payload that Marshal itself wrote goes through a frame unchanged.
pub record IsJson (compact scrub : Text → Text) (c : Codec) (carry : Carrier) : Type 0 where
  pub reads_ok :
      (raw b : Text) → c.marshal (ok_of raw) ≡ some b → c.parse b ≡ some (ok_of (compact raw))
  pub scrub_empty : scrub [] ≡ []
  pub scrub_text : (x : ℕ) (msg : Text) → is_empty (scrub (x ∷ msg)) ≡ false
  pub writes_err : (msg : Text) → c.marshal (err_of msg) ≢ none
  pub reads_err :
      (msg b : Text) → c.marshal (err_of msg) ≡ some b → c.parse b ≡ some (err_of (scrub msg))
  pub reads_fallback :
      c.parse (codes "{\"ok\":false,\"error\":\"marshal envelope\"}")
      ≡ some (err_of (codes "marshal envelope"))
  pub carries :
      (f : Frame) (e : Envelope)
      → f.payload ≡ must_marshal c e
      → (g : Frame) × (carry f ≡ some g)
        × (g.id ≡ f.id)
        × (g.reply ≡ f.reply)
        × (g.error ≡ scrub f.error)
        × (g.payload ≡ f.payload)

-- What the caller is to get: the result, or the text of the error.
abbrev pub crossed_result : (Text → Text) → Text → Option Text → Outcome
crossed_result compact raw none = refused (codes "marshal envelope")
crossed_result compact raw (some b) = answered (compact raw)

abbrev pub crossed : (Text → Text) → (Text → Text) → Codec → Handled → Outcome
crossed compact scrub c (returned raw) = crossed_result compact raw (c.marshal (ok_of raw))
crossed compact scrub c (failed msg) = refused (scrub msg)
crossed compact scrub c (panicked p) = refused (scrub (codes "remote: handler panic: " ++ p))

-- The reply arrives as a reply to the request `id`, and the caller reads `out` from it.
abbrev pub Arrives : Codec → Carrier → Frame → ℕ → Outcome → Type 0
Arrives c carry f id out =
    (g : Frame) × (carry f ≡ some g) × (g.id ≡ id) × (g.reply ≡ true) × (read_reply c g ≡ out)
