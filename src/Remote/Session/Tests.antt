-- ===== src/Remote/Session/Tests.antt =====
-- Runs of a session with a codec that writes the bare result or error.
use egop.Prelude.{Text, codes, ◌==◌, true, if◌then◌else◌, [], ◌∷◌, Option, none, some, ◌≡◌, refl}
use egop.Remote.Frame.{Frame, Kind, blank, Codec, Envelope}
use egop.Remote.Session.{
  unimplemented_peer, Session, new_session, set_dispatch_concurrency, handle_frame, begin_request,
  handle_request, dispatch_async, dispatch_to, send, reply_to, reply_err,
}
use egop.Remote.Session.Steps.{Step, Reach, starts, next}
use egop.Remote.Session.Table.{IsSession}
use egop.Remote.Session.Invariant.{Reach-IsSession}
use egop.Remote.Session.Counting.{ids_of}
use egop.Remote.Session.Crossing.{ok_of, err_of}

abbrev bare : Codec
bare = record {
  marshal = λ e. some (if e.ok then e.result else e.error);
  parse = λ b. some (ok_of b);
  b64_encode = λ b. b;
  b64_decode = λ b. some b;
}

abbrev ping_frame : Frame
ping_frame = record blank { id = 7; kind = Kind.ping }

abbrev call_frame : Frame
call_frame = record blank { id = 8; kind = Kind.call_func; fname = codes "f" }

-- With room for one handler, a ping is answered at once and a second call is refused.
abbrev one_at_a_time : Session
one_at_a_time = record (set_dispatch_concurrency 1 new_session) { peer = some unimplemented_peer }

abbrev after_calls : Session
after_calls =
    (handle_frame bare true (record call_frame { id = 9 })
      (handle_frame bare true call_frame (handle_frame bare true ping_frame one_at_a_time).0).0).0

answers_ping_and_refuses : ids_of after_calls.wire ≡ 7 ∷ 9 ∷ []
unfolding handle_frame handle_request dispatch_async dispatch_to send set_dispatch_concurrency
    reply_to reply_err
answers_ping_and_refuses = refl

running : Reach bare (handle_frame bare true call_frame (begin_request one_at_a_time).0).0
running =
    next (next (next (starts 1) (Step.sets_peer _ unimplemented_peer)) (Step.begins _))
      (Step.reads _ true call_frame)

Reach-IsSession_example :
    IsSession (handle_frame bare true call_frame (begin_request one_at_a_time).0).0
Reach-IsSession_example = Reach-IsSession bare running

-- A codec that marks a result and an error by their first byte.
parse_marked : Text → Option Envelope
parse_marked [] = none
parse_marked (b ∷ rest) =
    if b == 116
    then some (ok_of rest)
    else if b == 102
    then some (err_of rest)
    else some (err_of (codes "marshal envelope"))

abbrev marked : Codec
marked = record {
  marshal = λ e. some (if e.ok then 116 ∷ e.result else 102 ∷ e.error);
  parse = parse_marked;
  b64_encode = λ b. b;
  b64_decode = λ b. some b;
}
