-- ===== src/Remote/Session.antt =====
-- loader/remote/session.go: the engine of one stream. Each function is what the code does between two
-- points where another goroutine can act: under the session's mutex, or one turn of recvLoop. The
-- argument `works` of a function that writes says whether the frame is marshalled and written.
pub mod Steps
pub mod Table
pub mod Invariant
pub mod Counting
pub mod Balance
pub mod Answers
pub mod Crossing
mod Tests
use egop.Prelude.{
  Text, codes, filter, has, ℕ, suc, ◌+◌, ◌-◌, ◌==◌, leb, if◌then◌else◌, any, Bool, true, false, not,
  List, [], ◌∷◌, ◌++◌, Option, none, some,
}
use egop.Contract.Event.{Event, EventFilter, Origin}
use egop.Remote.Frame.{
  Kind, register, call_func, tool, hook, apply_config, host_call, subscribe, push_event, shutdown,
  ping, Frame, blank, Codec, ok_envelope, err_envelope,
}
use egop.Remote.Frame

-- What a handler of the peer ends with.
pub data Handled : Type 0 where
  returned failed panicked : Text → Handled

-- The entries of a Peer that answer requests.
pub record Peer : Type 0 where
  pub handle_call : Option Origin → Text → Text → Handled
  pub handle_tool : Text → Text → Text → Handled
  pub handle_hook : Option Origin → Text → Text → Handled
  pub handle_apply_config : Text → Handled
  pub handle_host_call : Text → Text → Handled

abbrev pub unimplemented_peer : Peer
unimplemented_peer = record {
  handle_call = λ origin fname input. failed (codes "remote: call not expected on this side");
  handle_tool = λ tool args tctx. failed (codes "remote: tool not expected on this side");
  handle_hook = λ origin id input. failed (codes "remote: hook not expected on this side");
  handle_apply_config = λ cfg. failed (codes "remote: apply_config not expected on this side");
  handle_host_call = λ op input. failed (codes "remote: host_call not expected on this side");
}

-- The calls that leave the session: of the peer, of the push handler, of the callbacks at its end.
pub data Effect : Type 0 where
  subscribed : Option EventFilter → Effect
  shut_down : Text → Effect
  pushed : Event → Effect
  stream_closed cleaned_up : Effect
  reported_closed : Option Text → Effect

-- `busy` is the number of tokens in dispSem. `jobs` are the requests that a goroutine works on, with
-- the peer it was given, `replies` the replies still to be written, `wire` the frames written, and
-- `answers` the replies put into the channel of their request.
pub record Session : Type 0 where
  pub peer : Option Peer
  pub pending : List ℕ
  pub next_id : ℕ
  pub done : Bool
  pub cleared : Bool
  pub push_handler : Bool
  pub limit : ℕ
  pub busy : ℕ
  pub jobs : List (Peer × Frame)
  pub replies : List Frame
  pub wire : List Frame
  pub answers : List Frame
  pub effects : List Effect

abbrev pub default_dispatch_concurrency : ℕ
default_dispatch_concurrency = 1024

abbrev pub new_session : Session
new_session = record {
  peer = none;
  pending = [];
  next_id = 0;
  done = false;
  cleared = false;
  push_handler = false;
  limit = default_dispatch_concurrency;
  busy = 0;
  jobs = [];
  replies = [];
  wire = [];
  answers = [];
  effects = [];
}

unfoldable pub set_dispatch_concurrency : ℕ → Session → Session
set_dispatch_concurrency n s = if leb 1 n then record s { limit = n; busy = 0 } else s

pub data SendError : Type 0 where
  session_closed write_failed : SendError

unfoldable pub send : Bool → Frame → Session → Session × Option SendError
send works f s =
    if s.done
    then (s, some session_closed)
    else if works
    then (record s { wire = s.wire ++ f ∷ [] }, none)
    else (s, some write_failed)

unfoldable pub without : ℕ → List ℕ → List ℕ
without id ids = filter (λ i. not (i == id)) ids

unfoldable pub holds : ℕ → List ℕ → Bool
holds id ids = any (λ i. i == id) ids

-- Request up to its entry in the table: the id, or nothing after the close.
unfoldable pub begin_request : Session → Session × Option ℕ
begin_request s =
    let id = s.next_id + 1 in
    if s.done
    then (record s { next_id = id }, none)
    else (record s { next_id = id; pending = s.pending ++ id ∷ [] }, some id)

-- The entry is taken out where the write fails, and where the caller's context ends.
unfoldable pub give_up : ℕ → Session → Session
give_up id s = record s { pending = without id s.pending }

unfoldable pub sent_or_given_up : ℕ → Session × Option SendError → Session × Option SendError
sent_or_given_up id (s, none) = (s, none)
sent_or_given_up id (s, some e) = (give_up id s, some e)

unfoldable pub write_request : Bool → ℕ → Frame → Session → Session × Option SendError
write_request works id f s = sent_or_given_up id (send works (record f { id = id }) s)

-- takePending, and the answer for the one who waits.
unfoldable pub deliver : Frame → Session → Session
deliver f s =
    if holds f.id s.pending
    then record s { pending = without f.id s.pending; answers = s.answers ++ f ∷ [] }
    else s

module _ (c : Codec) where
  unfoldable pub reply_to : ℕ → Text → Frame
  reply_to id payload = record blank { id = id; reply = true; payload = payload }

  unfoldable pub reply_err : ℕ → Text → Frame
  reply_err id msg = record blank {
    id = id;
    reply = true;
    error = msg;
    payload = err_envelope c msg;
  }

  -- peerCall and replyAction.
  unfoldable pub reply_action : ℕ → Handled → Frame
  reply_action id (returned out) = reply_to id (ok_envelope c out)
  reply_action id (failed msg) = reply_err id msg
  reply_action id (panicked p) = reply_err id (codes "remote: handler panic: " ++ p)

  unfoldable pub null_on_success : Handled → Handled
  null_on_success (returned out) = returned (codes "null")
  null_on_success h = h

  -- The reply of a request that was dispatched.
  unfoldable pub run_handler : Peer → Frame → Kind → Option Handled
  run_handler p f call_func = some (p.handle_call f.origin f.fname f.input)
  run_handler p f tool = some (p.handle_tool f.name f.input f.tctx)
  run_handler p f hook = some (p.handle_hook f.origin f.hook_id f.input)
  run_handler p f apply_config = some (null_on_success (p.handle_apply_config f.config))
  run_handler p f host_call = some (p.handle_host_call f.op f.input)
  run_handler p f k = none

  unfoldable pub execute_request : Peer → Frame → List Frame
  execute_request p f = elim (run_handler p f f.kind) [
    | none ↦ []
    | some h ↦ reply_action f.id h ∷ []
  ]

  unfoldable pub dispatch_to : Option Peer → Bool → Frame → Session → Session
  dispatch_to none works f s =
      (send works (reply_err f.id (codes "remote: request before handshake")) s).0
  dispatch_to (some p) works f s =
      if leb s.limit s.busy
      then (send works
          (reply_err f.id (codes "remote: dispatcher busy (too many concurrent requests)")) s).0
      else record s { busy = s.busy + 1; jobs = s.jobs ++ (p, f) ∷ [] }

  unfoldable pub dispatch_async : Bool → Frame → Session → Session
  dispatch_async works f s = dispatch_to s.peer works f s

  unfoldable pub handle_subscribe : Option Peer → Bool → Frame → Session → Session
  handle_subscribe none works f s =
      (send works (reply_err f.id (codes "remote: subscribe before handshake")) s).0
  handle_subscribe (some p) works f s =
      (send works (reply_to f.id (ok_envelope c (codes "null")))
        (record s { effects = s.effects ++ subscribed f.filter ∷ [] })).0

  -- A frame with an id that is no reply.
  unfoldable pub handle_request : Bool → Frame → Kind → Session → Session
  handle_request works f call_func s = dispatch_async works f s
  handle_request works f tool s = dispatch_async works f s
  handle_request works f hook s = dispatch_async works f s
  handle_request works f apply_config s = dispatch_async works f s
  handle_request works f host_call s = dispatch_async works f s
  handle_request works f subscribe s = handle_subscribe s.peer works f s
  handle_request works f ping s = (send works (reply_to f.id (ok_envelope c (codes "null"))) s).0
  handle_request works f k s =
      (send works (reply_err f.id (codes "remote: unsupported request frame")) s).0

  abbrev pub event_of : Frame → Event
  event_of f = record {
    type = f.topic;
    sub_type = f.sub_type;
    version = f.version;
    source = f.source;
    payload = f.payload;
    labels = f.labels;
  }

  unfoldable pub note_shutdown : Option Peer → Frame → Session → Session
  note_shutdown none f s = s
  note_shutdown (some p) f s = record s { effects = s.effects ++ shut_down f.reason ∷ [] }

  -- A frame without an id; the text is the error with which recvLoop ends.
  unfoldable pub handle_notice : Frame → Kind → Session → Session × Option Text
  handle_notice f push_event s =
      if s.push_handler
      then (record s { effects = s.effects ++ pushed (event_of f) ∷ [] }, none)
      else (s, none)
  handle_notice f shutdown s =
      (note_shutdown s.peer f s, some (codes "remote shutdown: " ++ f.reason))
  handle_notice f k s = (s, none)

  -- One turn of recvLoop after the frame was read.
  unfoldable pub handle_frame : Bool → Frame → Session → Session × Option Text
  handle_frame works f s =
      if f.reply
      then (deliver f s, none)
      else if not (f.id == 0)
      then (handle_request works f f.kind s, none)
      else handle_notice f f.kind s

  -- The end of a handler: the token is given back before the reply is written.
  unfoldable pub settle : Peer × Frame → List (Peer × Frame) → Session → Session
  settle (p, f) others s = record s {
    jobs = others;
    busy = s.busy - 1;
    replies = s.replies ++ execute_request p f;
  }

unfoldable pub write_reply : Bool → Frame → List Frame → Session → Session
write_reply works f others s = (send works f (record s { replies = others })).0

-- closeWith: first `done` is closed, then the table is emptied and the callbacks are called, those
-- that are set; closeOnce lets only one goroutine get here.
unfoldable pub close_begin : Session → Session
close_begin s = record s { done = true }

unfoldable pub close_finish : Option Text → Session → Session
close_finish err s = record s {
  pending = [];
  cleared = true;
  effects = s.effects ++ (stream_closed ∷ cleaned_up ∷ reported_closed err ∷ []);
}
