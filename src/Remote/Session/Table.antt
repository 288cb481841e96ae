-- ===== src/Remote/Session/Table.antt =====
-- loader/remote/session.go: the counts of tokens, waiting requests and answers in a session.
use egop.Prelude.{
  count, count-append, filter, length, any, ◌==◌, ℕ, ◌+◌, ◌≤◌, ◌<◌, map, if◌then◌else◌, Bool,
  Bool-cases, true, List, [], ◌∷◌, ◌++◌, Option, none, some, ◌≡◌, refl, ap, inl, inr, arith,
}
use egop.Remote.Frame.{Frame}
use egop.Remote.Session.{
  Session, SendError, send, without, holds, begin_request, give_up, sent_or_given_up, write_request,
  deliver,
}

abbrev pub answered_ids : Session → List ℕ
answered_ids s = map (λ (f : Frame). f.id) s.answers

-- The bookkeeping of the dispatcher and of the table of requests: as many tokens are taken as
-- handlers run, and no more than the limit; no id has both a waiting entry and an answer, or two of
-- either; ids above the counter have none; after the close the table is empty.
pub record IsSession (s : Session) : Type 0 where
  pub counted : s.busy ≡ length s.jobs
  pub bounded : s.busy ≤ s.limit
  pub single : (k : ℕ) → count k s.pending + count k (answered_ids s) ≤ 1
  pub fresh : (k : ℕ) → s.next_id < k → count k s.pending + count k (answered_ids s) ≡ 0
  pub emptied : s.cleared ≡ true → (s.done ≡ true) × (s.pending ≡ [])

-- Two sessions with the same bookkeeping.
pub record Alike (s t : Session) : Type 0 where
  pub busy : t.busy ≡ s.busy
  pub limit : t.limit ≡ s.limit
  pub jobs : t.jobs ≡ s.jobs
  pub pending : t.pending ≡ s.pending
  pub answers : t.answers ≡ s.answers
  pub next_id : t.next_id ≡ s.next_id
  pub done : t.done ≡ s.done
  pub cleared : t.cleared ≡ s.cleared

pub Alike-IsSession : (s t : Session) → Alike s t → IsSession s → IsSession t
Alike-IsSession s t a v = record {
  counted = rw (a.busy, a.jobs) v.counted;
  bounded = rw (a.busy, a.limit) v.bounded;
  single = λ k. rw (a.pending, a.answers) (v.single k);
  fresh = λ k above. rw (a.pending, a.answers) (v.fresh k (rw a.next_id at above));
  emptied = λ e. rw (a.done, a.pending) (v.emptied (rw a.cleared at e));
}

Alike-refl : (s : Session) → Alike s s
Alike-refl s = record {
  busy = refl;
  limit = refl;
  jobs = refl;
  pending = refl;
  answers = refl;
  next_id = refl;
  done = refl;
  cleared = refl;
}

pub send-Alike : (works : Bool) (f : Frame) (s : Session) → Alike s (send works f s).0
unfolding send
send-Alike works f s = ground arith

-- Counting.
count-without :
    (k id : ℕ) (xs : List ℕ) → count k (without id xs) ≡ (if k == id then 0 else count k xs)
unfolding count without filter
count-without k id [] = ground arith
count-without k id (x ∷ xs) = ground (arith, count-without k id xs)

count-holds : (k : ℕ) (xs : List ℕ) → holds k xs ≡ true → 1 ≤ count k xs
unfolding count holds any
count-holds k [] e = cc
count-holds k (x ∷ xs) e = ground (arith, count-holds k xs)

pub map-append_ids :
    (xs ys : List Frame)
    → map (λ (f : Frame). f.id) (xs ++ ys)
      ≡ map (λ (f : Frame). f.id) xs ++ map (λ (f : Frame). f.id) ys
map-append_ids [] ys = refl
map-append_ids (x ∷ xs) ys = ap (λ t. x.id ∷ t) (map-append_ids xs ys)

without-nil : (id : ℕ) (xs : List ℕ) → xs ≡ [] → without id xs ≡ []
unfolding without filter
without-nil id xs e = rw e refl

pub give_up-IsSession : (id : ℕ) (s : Session) → IsSession s → IsSession (give_up id s)
unfolding give_up
give_up-IsSession id s v = record {
  counted = v.counted;
  bounded = v.bounded;
  single = λ k. ground (arith, count-without k id s.pending, v.single k);
  fresh = λ k above. ground (arith, count-without k id s.pending, v.fresh k above);
  emptied = λ e. let (d, p) = v.emptied e in (d, without-nil id s.pending p);
}

entered-count :
    (s : Session) (k : ℕ)
    → count k (s.pending ++ (s.next_id + 1) ∷ [])
      ≡ count k s.pending + (if s.next_id + 1 == k then 1 else 0)
unfolding count
entered-count s k = ground (arith, count-append k s.pending ((s.next_id + 1) ∷ []))

entered-single :
    (s : Session)
    → IsSession s
    → (k : ℕ) → count k (s.pending ++ (s.next_id + 1) ∷ []) + count k (answered_ids s) ≤ 1
entered-single s v k = ground (arith, entered-count s k, v.single k, v.fresh k)

entered-fresh :
    (s : Session)
    → IsSession s
    → (k : ℕ) → s.next_id + 1 < k
    → count k (s.pending ++ (s.next_id + 1) ∷ []) + count k (answered_ids s) ≡ 0
entered-fresh s v k above = ground (arith, entered-count s k, v.fresh k)

-- An answer takes the place of the entry that waits for it.
delivered-count :
    (f : Frame) (s : Session)
    → holds f.id s.pending ≡ true
    → (k : ℕ)
    → count k (without f.id s.pending) + count k (map (λ (g : Frame). g.id) (s.answers ++ f ∷ []))
      ≤ count k s.pending + count k (answered_ids s)
unfolding count
delivered-count f s found k =
    let ids = map-append_ids s.answers (f ∷ []) in
    rw (map-append_ids s.answers (f ∷ [])) (
      ground (
        arith,
        count-append k (answered_ids s) (f.id ∷ []),
        count-without k f.id s.pending,
        count-holds f.id s.pending found,
      ))

pub begin_request-IsSession : (s : Session) → IsSession s → IsSession (begin_request s).0
unfolding begin_request
begin_request-IsSession s v = elim (Bool-cases s.done) [
  | inl closed ↦
      let t : (begin_request s).0 ≡ record s { next_id = s.next_id + 1 } = ground arith in
      rw t (record {
        counted = v.counted;
        bounded = v.bounded;
        single = v.single;
        fresh = λ k above. v.fresh k (omega arith);
        emptied = v.emptied;
      })
  | inr live ↦
      let t : (begin_request s).0
          ≡ record s { next_id = s.next_id + 1; pending = s.pending ++ (s.next_id + 1) ∷ [] } =
        ground arith in
      rw t (record {
        counted = v.counted;
        bounded = v.bounded;
        single = λ k. entered-single s v k;
        fresh = λ k above. entered-fresh s v k above;
        emptied = λ e. let (d, p) = v.emptied e in cc;
      })
]

pub writes-IsSession :
    (works : Bool) (id : ℕ) (f : Frame) (s : Session)
    → IsSession s
    → IsSession (write_request works id f s).0
unfolding write_request sent_or_given_up
writes-IsSession works id f s v = go (send works (record f { id = id }) s) (
    Alike-IsSession s (send works (record f { id = id }) s).0
      (send-Alike works (record f { id = id }) s) v)
  where
    go : (r : Session × Option SendError) → IsSession r.0 → IsSession (sent_or_given_up id r).0
    go (t, none) w = w
    go (t, some e) w = give_up-IsSession id t w

pub deliver-IsSession : (f : Frame) (s : Session) → IsSession s → IsSession (deliver f s)
unfolding deliver
deliver-IsSession f s v = elim (Bool-cases (holds f.id s.pending)) [
  | inr absent ↦ let t : deliver f s ≡ s = ground arith in rw t v
  | inl found ↦
      let t : deliver f s
          ≡ record s { pending = without f.id s.pending; answers = s.answers ++ f ∷ [] } =
        ground arith in
      rw t (record {
        counted = v.counted;
        bounded = v.bounded;
        single = λ k. omega (arith, delivered-count f s found k, v.single k);
        fresh = λ k above. omega (arith, delivered-count f s found k, v.fresh k above);
        emptied = λ e. let (d, p) = v.emptied e in (d, without-nil f.id s.pending p);
      })
]
