-- ===== src/Remote/Session/Invariant.antt =====
-- loader/remote/session.go: the bookkeeping of a session through its steps.
use egop.Prelude.{
  count, length, length-append, leb, ◌==◌, ℕ, zero, suc, ◌+◌, Bool, Bool-cases, true, List, [], ◌∷◌,
  ◌++◌, codes, Option, none, some, ◌≡◌, refl, inl, inr, arith,
}
use egop.Remote.Frame
use egop.Remote.Frame.{Kind, Frame, Codec}
use egop.Remote.Session.{
  Peer, Session, new_session, set_dispatch_concurrency, send, deliver, dispatch_async, Effect,
  subscribed, shut_down, pushed, event_of, dispatch_to, handle_subscribe, handle_request,
  handle_notice, note_shutdown, handle_frame, settle, write_reply, close_begin, close_finish,
  reply_err,
}
use egop.Remote.Session.Steps.{
  Step, Reach, sets_peer, sets_push_handler, begins, writes_request, gives_up, reads, settles,
  writes_reply, begins_close, finishes_close, starts, next,
}
use egop.Remote.Session.Table.{
  IsSession, Alike-IsSession, send-Alike, give_up-IsSession, begin_request-IsSession,
  writes-IsSession, deliver-IsSession,
}

module _ (c : Codec) where
  sent-IsSession :
      (works : Bool) (f : Frame) (s : Session) → IsSession s → IsSession (send works f s).0
  sent-IsSession works f s v = Alike-IsSession s (send works f s).0 (send-Alike works f s) v

  dispatch_to-IsSession :
      (p : Option Peer) (works : Bool) (f : Frame) (s : Session)
      → IsSession s
      → IsSession (dispatch_to c p works f s)
  unfolding dispatch_to
  dispatch_to-IsSession none works f s v = sent-IsSession works _ s v
  dispatch_to-IsSession (some p) works f s v = elim (Bool-cases (leb s.limit s.busy)) [
    | inl full ↦
        let t : dispatch_to c (some p) works f s
            ≡ (send works
                (reply_err c f.id (codes "remote: dispatcher busy (too many concurrent requests)"))
                s).0 =
          ground arith in
        rw t (sent-IsSession works _ s v)
    | inr room ↦
        let t : dispatch_to c (some p) works f s
            ≡ record s { busy = s.busy + 1; jobs = s.jobs ++ (p, f) ∷ [] } =
          ground arith in
        rw t (record {
          counted = omega (arith, v.counted, length-append s.jobs ((p, f) ∷ []));
          bounded = ground (arith, v.bounded);
          single = v.single;
          fresh = v.fresh;
          emptied = v.emptied;
        })
  ]

  -- Effects are no part of the bookkeeping.
  noted-IsSession :
      (s : Session) (es : List Effect) → IsSession s → IsSession (record s { effects = es })
  noted-IsSession s es v = record {
    counted = v.counted;
    bounded = v.bounded;
    single = v.single;
    fresh = v.fresh;
    emptied = v.emptied;
  }

  subscribe-IsSession :
      (p : Option Peer) (works : Bool) (f : Frame) (s : Session)
      → IsSession s
      → IsSession (handle_subscribe c p works f s)
  unfolding handle_subscribe
  subscribe-IsSession none works f s v = sent-IsSession works _ s v
  subscribe-IsSession (some p) works f s v =
      sent-IsSession works _ _ (noted-IsSession s (s.effects ++ subscribed f.filter ∷ []) v)

  request-IsSession :
      (works : Bool) (f : Frame) (k : Kind) (s : Session)
      → IsSession s
      → IsSession (handle_request c works f k s)
  unfolding handle_request dispatch_async
  request-IsSession works f Frame.call_func s v = dispatch_to-IsSession s.peer works f s v
  request-IsSession works f Frame.tool s v = dispatch_to-IsSession s.peer works f s v
  request-IsSession works f Frame.hook s v = dispatch_to-IsSession s.peer works f s v
  request-IsSession works f Frame.apply_config s v = dispatch_to-IsSession s.peer works f s v
  request-IsSession works f Frame.host_call s v = dispatch_to-IsSession s.peer works f s v
  request-IsSession works f Frame.subscribe s v = subscribe-IsSession s.peer works f s v
  request-IsSession works f Frame.ping s v = sent-IsSession works _ s v
  request-IsSession works f Frame.register s v = sent-IsSession works _ s v
  request-IsSession works f Frame.push_event s v = sent-IsSession works _ s v
  request-IsSession works f Frame.shutdown s v = sent-IsSession works _ s v
  request-IsSession works f (Frame.other k) s v = sent-IsSession works _ s v

  shutdown-IsSession :
      (p : Option Peer) (f : Frame) (s : Session) → IsSession s → IsSession (note_shutdown c p f s)
  unfolding note_shutdown
  shutdown-IsSession none f s v = v
  shutdown-IsSession (some p) f s v = noted-IsSession s (s.effects ++ shut_down f.reason ∷ []) v

  notice-IsSession :
      (f : Frame) (k : Kind) (s : Session) → IsSession s → IsSession (handle_notice c f k s).0
  unfolding handle_notice
  notice-IsSession f Frame.push_event s v = elim (Bool-cases s.push_handler) [
    | inl there_is ↦
        let t : (handle_notice c f Frame.push_event s).0
            ≡ record s { effects = s.effects ++ pushed (event_of c f) ∷ [] } =
          ground arith in
        rw t (noted-IsSession s (s.effects ++ pushed (event_of c f) ∷ []) v)
    | inr absent ↦ let t : (handle_notice c f Frame.push_event s).0 ≡ s = ground arith in rw t v
  ]
  notice-IsSession f Frame.shutdown s v = shutdown-IsSession s.peer f s v
  notice-IsSession f Frame.call_func s v = v
  notice-IsSession f Frame.tool s v = v
  notice-IsSession f Frame.hook s v = v
  notice-IsSession f Frame.apply_config s v = v
  notice-IsSession f Frame.host_call s v = v
  notice-IsSession f Frame.subscribe s v = v
  notice-IsSession f Frame.ping s v = v
  notice-IsSession f Frame.register s v = v
  notice-IsSession f (Frame.other k) s v = v

  frame-IsSession :
      (works : Bool) (f : Frame) (s : Session)
      → IsSession s
      → IsSession (handle_frame c works f s).0
  unfolding handle_frame
  frame-IsSession works f s v = elim (Bool-cases f.reply) [
    | inl reply ↦
        let t : (handle_frame c works f s).0 ≡ deliver f s = ground arith in
        rw t (deliver-IsSession f s v)
    | inr request ↦ elim (Bool-cases (f.id == 0)) [
      | inl none_asked ↦
          let t : (handle_frame c works f s).0 ≡ (handle_notice c f f.kind s).0 = ground arith in
          rw t (notice-IsSession f f.kind s v)
      | inr asked ↦
          let t : (handle_frame c works f s).0 ≡ handle_request c works f f.kind s = ground arith in
          rw t (request-IsSession works f f.kind s v)
    ]
  ]

  settle-IsSession :
      (before after : List (Peer × Frame)) (job : Peer × Frame) (s : Session)
      → s.jobs ≡ before ++ job ∷ after
      → IsSession s
      → IsSession (settle c job (before ++ after) s)
  unfolding settle
  settle-IsSession before after (p, f) s at_work v =
      let one_less : length s.jobs ≡ suc (length (before ++ after)) =
        rw at_work
          (omega (arith, length-append before ((p, f) ∷ after), length-append before after)) in
      record {
        counted = omega (arith, v.counted, one_less);
        bounded = omega (arith, v.bounded);
        single = v.single;
        fresh = v.fresh;
        emptied = v.emptied;
      }

  write_reply-IsSession :
      (works : Bool) (f : Frame) (others : List Frame) (s : Session)
      → IsSession s
      → IsSession (write_reply works f others s)
  unfolding write_reply
  write_reply-IsSession works f others s v =
      sent-IsSession works f (record s { replies = others })
        (record {
          counted = v.counted;
          bounded = v.bounded;
          single = v.single;
          fresh = v.fresh;
          emptied = v.emptied;
        })

  Step-IsSession : {s t : Session} → Step c s t → IsSession s → IsSession t
  unfolding close_begin close_finish count
  Step-IsSession (sets_peer s p) v = record {
    counted = v.counted;
    bounded = v.bounded;
    single = v.single;
    fresh = v.fresh;
    emptied = v.emptied;
  }
  Step-IsSession (sets_push_handler s) v = record {
    counted = v.counted;
    bounded = v.bounded;
    single = v.single;
    fresh = v.fresh;
    emptied = v.emptied;
  }
  Step-IsSession (begins s) v = begin_request-IsSession s v
  Step-IsSession (writes_request s works id f) v = writes-IsSession works id f s v
  Step-IsSession (gives_up s id) v = give_up-IsSession id s v
  Step-IsSession (reads s works f) v = frame-IsSession works f s v
  Step-IsSession (settles s before after job at_work) v =
      settle-IsSession before after job s at_work v
  Step-IsSession (writes_reply s works before after f waits) v =
      write_reply-IsSession works f (before ++ after) s v
  Step-IsSession (begins_close s) v = record {
    counted = v.counted;
    bounded = v.bounded;
    single = v.single;
    fresh = v.fresh;
    emptied = λ e. let (d, p) = v.emptied e in (refl, p);
  }
  Step-IsSession (finishes_close s err closed) v = record {
    counted = v.counted;
    bounded = v.bounded;
    single = λ k. omega (arith, v.single k);
    fresh = λ k above. omega (arith, v.fresh k above);
    emptied = λ e. (closed, refl);
  }

  starts-IsSession : (n : ℕ) → IsSession (set_dispatch_concurrency n new_session)
  unfolding set_dispatch_concurrency count
  starts-IsSession zero = record {
    counted = refl;
    bounded = omega arith;
    single = λ k. omega arith;
    fresh = λ k above. refl;
    emptied = λ e. cc;
  }
  starts-IsSession (suc n) =
      let positive : leb 1 (suc n) ≡ true = ground arith in
      rw positive (record {
        counted = refl;
        bounded = omega arith;
        single = λ k. omega arith;
        fresh = λ k above. refl;
        emptied = λ e. cc;
      })

-- In every run of a session, whatever frames arrive and however its goroutines take turns: as many
-- dispatch tokens are taken as handlers run, and never more than the limit; no request has two
-- entries or two answers, or an answer and still an entry; and after the close none waits.
pub Reach-IsSession : (c : Codec) {s : Session} → Reach c s → IsSession s
Reach-IsSession c (starts n) = starts-IsSession c n
Reach-IsSession c (next r st) = Step-IsSession c st (Reach-IsSession c r)
