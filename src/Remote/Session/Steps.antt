-- ===== src/Remote/Session/Steps.antt =====
-- loader/remote/session.go: the runs of a session, and what holds in each of them.
use egop.Prelude.{ℕ, Bool, true, List, ◌∷◌, ◌++◌, Text, Option, some, ◌≡◌}
use egop.Remote.Frame.{Frame, Codec}
use egop.Remote.Session.{
  Peer, Session, new_session, set_dispatch_concurrency, begin_request, give_up, write_request,
  handle_frame, settle, write_reply, close_begin, close_finish,
}

-- What the goroutines of a session can do to it, in any order.
pub data Step (c : Codec) : Session → Session → Type 0 where
  sets_peer : (s : Session) (p : Peer) → Step c s (record s { peer = some p })
  sets_push_handler : (s : Session) → Step c s (record s { push_handler = true })
  begins : (s : Session) → Step c s (begin_request s).0
  writes_request :
      (s : Session) (works : Bool) (id : ℕ) (f : Frame) → Step c s (write_request works id f s).0
  gives_up : (s : Session) (id : ℕ) → Step c s (give_up id s)
  reads : (s : Session) (works : Bool) (f : Frame) → Step c s (handle_frame c works f s).0
  settles :
      (s : Session) (before after : List (Peer × Frame)) (job : Peer × Frame)
      → s.jobs ≡ before ++ job ∷ after
      → Step c s (settle c job (before ++ after) s)
  writes_reply :
      (s : Session) (works : Bool) (before after : List Frame) (f : Frame)
      → s.replies ≡ before ++ f ∷ after
      → Step c s (write_reply works f (before ++ after) s)
  begins_close : (s : Session) → Step c s (close_begin s)
  finishes_close : (s : Session) (err : Option Text) → s.done ≡ true → Step c s (close_finish err s)

-- The sessions that NewSession, SetDispatchConcurrency before the start, and steps lead to.
pub data Reach (c : Codec) : Session → Type 0 where
  starts : (n : ℕ) → Reach c (set_dispatch_concurrency n new_session)
  next : {s t : Session} → Reach c s → Step c s t → Reach c t
