-- ===== src/Remote/Session/Balance.antt =====
-- loader/remote/session.go: the replies to the requests that arrive, on a stream that writes and stays
-- open.
use egop.Prelude.{
  count, codes, filter, ℕ, zero, suc, ◌+◌, ◌==◌, leb, ==_iff, if◌then◌else◌, Bool-cases, true,
  false, List, [], ◌∷◌, ◌++◌, In, In-append_cases, In-append_right, In-cons_cases, here, Option,
  none, some, ◌≡◌, ◌≢◌, refl, sym, subst, ap, inl, inr, arith,
}
use egop.Remote.Frame
use egop.Remote.Frame.{Kind, Frame, Codec}
use egop.Remote.Session.{
  Peer, Handled, subscribed, begin_request, Session, new_session, set_dispatch_concurrency, send,
  deliver, reply_to, reply_err, reply_action, null_on_success, run_handler, execute_request,
  dispatch_to, dispatch_async, handle_subscribe, without, holds, handle_request, handle_frame,
  settle, write_reply,
}
use egop.Remote.Session.Counting.{
  ids_of, job_ids, replies_in, accounted, job_ids-snoc, ids_of-snoc, job_ids-middle, ids_of-middle,
  In-middle, replies_in-snoc, wire-reply,
}

module _ (c : Codec) where
  -- The runs of a session whose stream writes and stays open, with the ids of the requests that have
  -- arrived.
  pub data Serves : List ℕ → Session → Type 0 where
    opens : (n : ℕ) → Serves [] (set_dispatch_concurrency n new_session)
    meets :
        {asked : List ℕ} {s : Session} (p : Peer)
        → Serves asked s
        → Serves asked (record s { peer = some p })
    arrives :
        {asked : List ℕ} {s : Session} (f : Frame)
        → Serves asked s
        → f.reply ≡ false
        → f.id ≢ 0
        → Serves (f.id ∷ asked) (handle_frame c true f s).0
    returns :
        {asked : List ℕ} {s : Session} (f : Frame)
        → Serves asked s
        → f.reply ≡ true
        → Serves asked (handle_frame c true f s).0
    asks : {asked : List ℕ} {s : Session} → Serves asked s → Serves asked (begin_request s).0
    writes :
        {asked : List ℕ} {s : Session} (f : Frame)
        → Serves asked s
        → f.reply ≡ false
        → Serves asked (send true f s).0
    settles :
        {asked : List ℕ} {s : Session} (before after : List (Peer × Frame)) (job : Peer × Frame)
        → Serves asked s
        → s.jobs ≡ before ++ job ∷ after
        → Serves asked (settle c job (before ++ after) s)
    replies :
        {asked : List ℕ} {s : Session} (before after : List Frame) (f : Frame)
        → Serves asked s
        → s.replies ≡ before ++ f ∷ after
        → Serves asked (write_reply true f (before ++ after) s)

  -- A request that a handler works on gets exactly one reply, with its id.
  abbrev pub IsAnswerable : Peer × Frame → Type 0
  IsAnswerable (p, f) =
      (r : Frame) × (execute_request c p f ≡ r ∷ []) × (r.id ≡ f.id) × (r.reply ≡ true)

  pub record Serving (asked : List ℕ) (s : Session) : Type 0 where
    pub live : s.done ≡ false
    pub balanced : (k : ℕ) → accounted k s ≡ count k asked
    pub answerable : (j : Peer × Frame) → In j s.jobs → IsAnswerable j
    pub true_replies : (f : Frame) → In f s.replies → f.reply ≡ true

  reply_action-reply :
      (id : ℕ) (h : Handled)
      → ((reply_action c id h).id ≡ id) × ((reply_action c id h).reply ≡ true)
  unfolding reply_action reply_to reply_err
  reply_action-reply id (Handled.returned out) = (refl, refl)
  reply_action-reply id (Handled.failed msg) = (refl, refl)
  reply_action-reply id (Handled.panicked p) = (refl, refl)

  handled-IsAnswerable :
      (p : Peer) (f : Frame) (h : Handled) → run_handler c p f f.kind ≡ some h → IsAnswerable (p, f)
  unfolding execute_request
  handled-IsAnswerable p f h e =
      let (same, reply) = reply_action-reply f.id h in
      (reply_action c f.id h, rw (e, execute_request) refl, same, reply)

  sent-Serving :
      (asked : List ℕ) (r : Frame) (s : Session)
      → r.reply ≡ true
      → Serving asked s
      → Serving (r.id ∷ asked) (send true r s).0
  unfolding send count
  sent-Serving asked r s reply v =
      let t : (send true r s).0 ≡ record s { wire = s.wire ++ r ∷ [] } = ground (arith, v.live) in
      rw t (record {
        live = v.live;
        balanced = λ k. omega (arith, wire-reply k s.wire r reply, v.balanced k);
        answerable = v.answerable;
        true_replies = v.true_replies;
      })

  dispatch-Serving :
      (p : Option Peer) (asked : List ℕ) (f : Frame) (s : Session)
      → ((q : Peer) → IsAnswerable (q, f))
      → Serving asked s
      → Serving (f.id ∷ asked) (dispatch_to c p true f s)
  unfolding dispatch_to reply_err count
  dispatch-Serving none asked f s can v = sent-Serving asked _ s refl v
  dispatch-Serving (some p) asked f s can v = elim (Bool-cases (leb s.limit s.busy)) [
    | inl full ↦
        let t : dispatch_to c (some p) true f s
            ≡ (send true
                (reply_err c f.id (codes "remote: dispatcher busy (too many concurrent requests)"))
                s).0 =
          ground arith in
        rw t (sent-Serving asked _ s refl v)
    | inr room ↦
        let t : dispatch_to c (some p) true f s
            ≡ record s { busy = s.busy + 1; jobs = s.jobs ++ (p, f) ∷ [] } =
          ground arith in
        rw t (record {
          live = v.live;
          balanced = λ k. omega (arith, job_ids-snoc k s.jobs p f, v.balanced k);
          answerable = λ j i. elim (In-append_cases s.jobs ((p, f) ∷ []) i) [
            | inl old ↦ v.answerable j old
            | inr last ↦ elim (In-cons_cases last) [
              | inl e ↦ subst (λ q. IsAnswerable q) (sym e) (can p)
              | inr none_left ↦ elim none_left [ ]
            ]
          ];
          true_replies = v.true_replies;
        })
  ]

  subscribe-Serving :
      (p : Option Peer) (asked : List ℕ) (f : Frame) (s : Session)
      → Serving asked s
      → Serving (f.id ∷ asked) (handle_subscribe c p true f s)
  unfolding handle_subscribe reply_to reply_err
  subscribe-Serving none asked f s v = sent-Serving asked _ s refl v
  subscribe-Serving (some p) asked f s v =
      sent-Serving asked _ (record s { effects = s.effects ++ subscribed f.filter ∷ [] }) refl
        (record {
          live = v.live;
          balanced = v.balanced;
          answerable = v.answerable;
          true_replies = v.true_replies;
        })

  request-Serving :
      (k : Kind) (asked : List ℕ) (f : Frame) (s : Session)
      → f.kind ≡ k
      → Serving asked s
      → Serving (f.id ∷ asked) (handle_request c true f k s)
  unfolding handle_request dispatch_async run_handler reply_to reply_err
  request-Serving Frame.call_func asked f s e v =
      dispatch-Serving s.peer asked f s
        (λ q. handled-IsAnswerable q f (q.handle_call f.origin f.fname f.input) (rw e refl)) v
  request-Serving Frame.tool asked f s e v =
      dispatch-Serving s.peer asked f s
        (λ q. handled-IsAnswerable q f (q.handle_tool f.name f.input f.tctx) (rw e refl)) v
  request-Serving Frame.hook asked f s e v =
      dispatch-Serving s.peer asked f s
        (λ q. handled-IsAnswerable q f (q.handle_hook f.origin f.hook_id f.input) (rw e refl)) v
  request-Serving Frame.apply_config asked f s e v =
      dispatch-Serving s.peer asked f s
        (λ q.
          handled-IsAnswerable q f (null_on_success c (q.handle_apply_config f.config)) (rw e refl))
        v
  request-Serving Frame.host_call asked f s e v =
      dispatch-Serving s.peer asked f s
        (λ q. handled-IsAnswerable q f (q.handle_host_call f.op f.input) (rw e refl)) v
  request-Serving Frame.subscribe asked f s e v = subscribe-Serving s.peer asked f s v
  request-Serving Frame.ping asked f s e v = sent-Serving asked _ s refl v
  request-Serving Frame.register asked f s e v = sent-Serving asked _ s refl v
  request-Serving Frame.push_event asked f s e v = sent-Serving asked _ s refl v
  request-Serving Frame.shutdown asked f s e v = sent-Serving asked _ s refl v
  request-Serving (Frame.other k) asked f s e v = sent-Serving asked _ s refl v

  settle-Serving :
      (before after : List (Peer × Frame)) (job : Peer × Frame) (asked : List ℕ) (s : Session)
      → s.jobs ≡ before ++ job ∷ after
      → Serving asked s
      → Serving asked (settle c job (before ++ after) s)
  unfolding settle count
  settle-Serving before after (p, f) asked s at_work v =
      let here_it_is : In (p, f) s.jobs = rw at_work (In-append_right before here) in
      let (r, run, same, reply) = v.answerable (p, f) here_it_is in
      record {
        live = v.live;
        balanced = λ k. rw run (
            omega (
              arith,
              v.balanced k,
              ap (λ t. count k (job_ids t)) at_work,
              job_ids-middle k before (p, f) after,
              ids_of-snoc k s.replies r,
              ap {B = ℕ} (λ (t : ℕ). if t == k then 1 else 0) same,
            ));
        answerable = λ j i. v.answerable j (rw at_work (In-middle before (p, f) after i));
        true_replies = λ g i. elim (In-append_cases s.replies (execute_request c p f) i) [
          | inl old ↦ v.true_replies g old
          | inr last ↦ elim (In-cons_cases (rw run at last)) [
            | inl e ↦ rw e reply
            | inr none_left ↦ elim none_left [ ]
          ]
        ];
      }

  written-Serving :
      (before after : List Frame) (f : Frame) (asked : List ℕ) (s : Session)
      → s.replies ≡ before ++ f ∷ after
      → Serving asked s
      → Serving asked (write_reply true f (before ++ after) s)
  unfolding write_reply send
  written-Serving before after f asked s waits v =
      let here_it_is : In f s.replies = rw waits (In-append_right before here) in
      let reply : f.reply ≡ true = v.true_replies f here_it_is in
      let t : write_reply true f (before ++ after) s
          ≡ record s { replies = before ++ after; wire = s.wire ++ f ∷ [] } =
        ground (arith, v.live) in
      rw t (record {
        live = v.live;
        balanced = λ k. omega (
          arith,
          wire-reply k s.wire f reply,
          v.balanced k,
          ap (λ t. count k (ids_of t)) waits,
          ids_of-middle k before f after,
        );
        answerable = v.answerable;
        true_replies = λ g i. v.true_replies g (rw waits (In-middle before f after i));
      })

  -- A frame that is no reply leaves the balance alone.
  asked-Serving :
      (asked : List ℕ) (f : Frame) (s : Session)
      → f.reply ≡ false
      → Serving asked s
      → Serving asked (send true f s).0
  unfolding send
  asked-Serving asked f s no_reply v =
      let t : (send true f s).0 ≡ record s { wire = s.wire ++ f ∷ [] } = ground (arith, v.live) in
      let shape : replies_in (s.wire ++ f ∷ []) ≡ replies_in s.wire =
        ground (arith, replies_in-snoc s.wire f) in
      rw t (record {
        live = v.live;
        balanced = λ k. rw shape (v.balanced k);
        answerable = v.answerable;
        true_replies = v.true_replies;
      })

  begun-Serving :
      (asked : List ℕ) (s : Session) → Serving asked s → Serving asked (begin_request s).0
  unfolding begin_request
  begun-Serving asked s v =
      let t : (begin_request s).0
          ≡ record s { next_id = s.next_id + 1; pending = s.pending ++ (s.next_id + 1) ∷ [] } =
        ground (arith, v.live) in
      rw t (record {
        live = v.live;
        balanced = v.balanced;
        answerable = v.answerable;
        true_replies = v.true_replies;
      })

  delivered-Serving :
      (asked : List ℕ) (f : Frame) (s : Session) → Serving asked s → Serving asked (deliver f s)
  unfolding deliver
  delivered-Serving asked f s v = elim (Bool-cases (holds f.id s.pending)) [
    | inr absent ↦ let t : deliver f s ≡ s = ground arith in rw t v
    | inl found ↦
        let t : deliver f s
            ≡ record s { pending = without f.id s.pending; answers = s.answers ++ f ∷ [] } =
          ground arith in
        rw t (record {
          live = v.live;
          balanced = v.balanced;
          answerable = v.answerable;
          true_replies = v.true_replies;
        })
  ]

  starts-Serving : (n : ℕ) → Serving [] (set_dispatch_concurrency n new_session)
  unfolding set_dispatch_concurrency count filter
  starts-Serving zero = record {
    live = refl;
    balanced = λ k. refl;
    answerable = λ j i. elim i [ ];
    true_replies = λ g i. elim i [ ];
  }
  starts-Serving (suc n) =
      let positive : leb 1 (suc n) ≡ true = ground arith in
      rw positive (record {
        live = refl;
        balanced = λ k. refl;
        answerable = λ j i. elim i [ ];
        true_replies = λ g i. elim i [ ];
      })

  pub Serves-Serving : {asked : List ℕ} {s : Session} → Serves asked s → Serving asked s
  unfolding handle_frame
  Serves-Serving (opens n) = starts-Serving n
  Serves-Serving (meets p r) =
      let v = Serves-Serving r in
      record {
        live = v.live;
        balanced = v.balanced;
        answerable = v.answerable;
        true_replies = v.true_replies;
      }
  Serves-Serving (arrives {asked} {s} f r request named) =
      let t : (handle_frame c true f s).0 ≡ handle_request c true f f.kind s =
        ground (arith, ==_iff f.id 0) in
      rw t (request-Serving f.kind asked f s refl (Serves-Serving r))
  Serves-Serving (returns {asked} {s} f r reply) =
      let t : (handle_frame c true f s).0 ≡ deliver f s = ground arith in
      rw t (delivered-Serving asked f s (Serves-Serving r))
  Serves-Serving (asks {asked} {s} r) = begun-Serving asked s (Serves-Serving r)
  Serves-Serving (writes {asked} {s} f r no_reply) =
      asked-Serving asked f s no_reply (Serves-Serving r)
  Serves-Serving (settles {asked} {s} before after job r at_work) =
      settle-Serving before after job asked s at_work (Serves-Serving r)
  Serves-Serving (replies {asked} {s} before after f r waits) =
      written-Serving before after f asked s waits (Serves-Serving r)
