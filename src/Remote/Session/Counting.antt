-- ===== src/Remote/Session/Counting.antt =====
-- loader/remote/session.go: counts of requests and replies by their ids.
use egop.Prelude.{
  count, count-append, filter, ℕ, ◌+◌, ◌==◌, map, if◌then◌else◌, true, List, [], ◌∷◌, ◌++◌, In,
  In-append_cases, In-append_left, In-append_right, there, ◌≡◌, inl, inr, arith,
}
use egop.Remote.Frame.{Frame}
use egop.Remote.Session.{Peer, Session}
use egop.Remote.Session.Table.{map-append_ids}

-- The ids of some frames, and of the requests that are worked on.
abbrev pub ids_of : List Frame → List ℕ
ids_of fs = map (λ (f : Frame). f.id) fs

abbrev pub job_ids : List (Peer × Frame) → List ℕ
job_ids jobs = map (λ (j : Peer × Frame). (j.1).id) jobs

-- The replies among some frames.
abbrev pub replies_in : List Frame → List Frame
replies_in fs = filter (λ (f : Frame). f.reply) fs

-- How often a request of this id is answered, by a reply that is written, waits to be written, or is
-- still worked on.
abbrev pub accounted : ℕ → Session → ℕ
accounted k s =
    count k (ids_of (replies_in s.wire)) + count k (ids_of s.replies) + count k (job_ids s.jobs)

pub job_ids-snoc :
    (k : ℕ) (jobs : List (Peer × Frame)) (p : Peer) (f : Frame)
    → count k (job_ids (jobs ++ (p, f) ∷ []))
      ≡ count k (job_ids jobs) + (if f.id == k then 1 else 0)
unfolding count
job_ids-snoc k [] p f = omega arith
job_ids-snoc k (j ∷ jobs) p f = omega (arith, job_ids-snoc k jobs p f)

pub ids_of-snoc :
    (k : ℕ) (fs : List Frame) (f : Frame)
    → count k (ids_of (fs ++ f ∷ [])) ≡ count k (ids_of fs) + (if f.id == k then 1 else 0)
unfolding count
ids_of-snoc k [] f = omega arith
ids_of-snoc k (g ∷ fs) f = omega (arith, ids_of-snoc k fs f)

pub job_ids-middle :
    (k : ℕ) (before : List (Peer × Frame)) (j : Peer × Frame) (after : List (Peer × Frame))
    → count k (job_ids (before ++ j ∷ after))
      ≡ count k (job_ids (before ++ after)) + (if (j.1).id == k then 1 else 0)
unfolding count
job_ids-middle k [] j after = omega arith
job_ids-middle k (i ∷ before) j after = omega (arith, job_ids-middle k before j after)

pub ids_of-middle :
    (k : ℕ) (before : List Frame) (f : Frame) (after : List Frame)
    → count k (ids_of (before ++ f ∷ after))
      ≡ count k (ids_of (before ++ after)) + (if f.id == k then 1 else 0)
unfolding count
ids_of-middle k [] f after = omega arith
ids_of-middle k (g ∷ before) f after = omega (arith, ids_of-middle k before f after)

pub In-middle {ℓ} :
    {A : Type ℓ} (before : List A) (x : A) (after : List A) {y : A}
    → In y (before ++ after)
    → In y (before ++ x ∷ after)
In-middle before x after i = elim (In-append_cases before after i) [
  | inl l ↦ In-append_left (x ∷ after) l
  | inr r ↦ In-append_right before (there r)
]

pub replies_in-snoc :
    (fs : List Frame) (f : Frame)
    → replies_in (fs ++ f ∷ []) ≡ (if f.reply then replies_in fs ++ f ∷ [] else replies_in fs)
unfolding filter
replies_in-snoc [] f = ground arith
replies_in-snoc (g ∷ fs) f = ground (arith, replies_in-snoc fs f)

-- A reply that is written counts once.
pub wire-reply :
    (k : ℕ) (fs : List Frame) (f : Frame)
    → f.reply ≡ true
    → count k (ids_of (replies_in (fs ++ f ∷ [])))
      ≡ count k (ids_of (replies_in fs)) + (if f.id == k then 1 else 0)
unfolding count
wire-reply k fs f e =
    let shape : replies_in (fs ++ f ∷ []) ≡ replies_in fs ++ f ∷ [] =
      ground (arith, replies_in-snoc fs f) in
    rw (shape, map-append_ids (replies_in fs) (f ∷ []))
      (ground (arith, count-append k (ids_of (replies_in fs)) (f.id ∷ [])))
