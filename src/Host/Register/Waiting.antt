-- ===== src/Host/Register/Waiting.antt =====
-- host/register.go: the queue of plugins that wait for their dependencies, through Register.
use egop.Prelude.{
  Text, text_eq, text_eq_iff, text_eq_sound, is_empty, contains, any, lookup, lookup-delete, has,
  delete, length, Map, ℕ, zero, suc, ◌+◌, ◌≤◌, ◌<◌, Bool-cases, Option-cases, true, false, List, [],
  ◌∷◌, Option, none, some, ◌≡◌, ◌∙◌, refl, inl, inr, arith,
}
use egop.Host.State.{Options, Plugin, Host, HostError, emit}
use egop.Host.State
use egop.Contract.Meta.{Meta}
use egop.Host.Check.{init_deps_satisfied, validate_contract}
use egop.Host.Register.{
  remove_first, remove_pending, enter, commit, register_functions, register_locked, announce,
  announced, register_one, finish_register, register_with, split_pending, after_retry,
  register_ready, retry, retry_pending, register,
}

-- Every waiting id has its plugin, and none waits twice.
abbrev pub IsWaiting : List Text → Map Plugin → Type 0
IsWaiting [] waiting = Unit
IsWaiting (id ∷ ids) waiting =
    (has id waiting ≡ true) × (contains ids id ≡ false) × IsWaiting ids waiting

abbrev pub IsQueued : Host → Type 0
IsQueued h = IsWaiting h.pending h.pending_plugins

delete-IsWaiting :
    (id : Text) (ids : List Text) (waiting : Map Plugin)
    → contains ids id ≡ false
    → IsWaiting ids waiting
    → IsWaiting ids (delete id waiting)
unfolding contains any
delete-IsWaiting id [] waiting out w = tt
delete-IsWaiting id (x ∷ ids) waiting out w = (
  ground (arith, lookup-delete id x waiting, text_eq_iff id x, text_eq_iff x id),
  w.1,
  delete-IsWaiting id ids waiting (ground arith) w.2,
)

remove_first-contains :
    (id k : Text) (ids : List Text)
    → contains ids k ≡ false
    → contains (remove_first id ids) k ≡ false
unfolding contains any remove_first
remove_first-contains id k [] h = refl
remove_first-contains id k (x ∷ ids) h = ground (arith, remove_first-contains id k ids)

remove_first-IsWaiting :
    (id : Text) (ids : List Text) (waiting : Map Plugin)
    → IsWaiting ids waiting
    → IsWaiting (remove_first id ids) (delete id waiting)
unfolding remove_first
remove_first-IsWaiting id [] waiting w = tt
remove_first-IsWaiting id (x ∷ ids) waiting w = elim (Bool-cases (text_eq x id)) [
  | inl e ↦
      let same : x ≡ id = text_eq_sound x id e in
      rw e (delete-IsWaiting id ids waiting (rw same at w.1) w.2)
  | inr e ↦
      let kept : has x (delete id waiting) ≡ true =
        ground (arith, lookup-delete id x waiting, text_eq_iff id x, text_eq_iff x id, w.0) in
      rw e (kept, remove_first-contains id x ids w.1, remove_first-IsWaiting id ids waiting w.2)
]

length-remove_first-le : (id : Text) (ids : List Text) → length (remove_first id ids) ≤ length ids
unfolding remove_first
length-remove_first-le id [] = omega arith
length-remove_first-le id (x ∷ ids) = ground (arith, length-remove_first-le id ids)

-- A queue that is in order and no longer than `bound`.
pub record Fits (bound : ℕ) (h : Host) : Type 0 where
  pub queued : IsQueued h
  pub short : length h.pending ≤ bound

remove_pending-Fits :
    (bound : ℕ) (id : Text) (h : Host) → Fits bound h → Fits bound (remove_pending id h)
unfolding remove_pending
remove_pending-Fits bound id h f = elim (Bool-cases (has id h.pending_plugins)) [
  | inl e ↦ rw e (record {
    queued = remove_first-IsWaiting id h.pending h.pending_plugins f.queued;
    short = omega (arith, length-remove_first-le id h.pending, f.short);
  })
  | inr e ↦ rw e f
]

module _ (bound : ℕ) (o : Options) (p : Plugin) where
  commit-Fits :
      (m : Meta) (h : Host) (r : Map State.FnEntry × Option HostError)
      → Fits bound h
      → Fits bound (commit p m h r).0
  unfolding commit enter
  commit-Fits m h (fns, some e) f = record { queued = f.queued; short = f.short }
  commit-Fits m h (fns, none) f = record { queued = f.queued; short = f.short }

  register_locked-Fits :
      (m : Meta) (h : Host) → Fits bound h → Fits bound (register_locked o p m h).0
  unfolding register_locked
  register_locked-Fits m h f = elim (Bool-cases (has m.id h.plugins)) [
    | inl e ↦ rw e f
    | inr e ↦
        let h' = remove_pending m.id h in
        let f' = remove_pending-Fits bound m.id h f in
        elim (Option-cases (validate_contract o h'.plugins h'.metas m)) [
          | inl valid ↦ rw (e, valid) (commit-Fits m h' (register_functions p m h'.fns) f')
          | inr (err, invalid) ↦ rw (e, invalid) f'
        ]
  ]

  announced-Fits :
      (m : Meta) (r : Host × Option HostError) → Fits bound r.0 → Fits bound (announced p m r).0
  unfolding announced announce emit
  announced-Fits m (h, some e) f = f
  announced-Fits m (h, none) f = record { queued = f.queued; short = f.short }

  register_one-Fits : (h : Host) → Fits bound h → Fits bound (register_one o p h).0
  unfolding register_one
  register_one-Fits h f = elim (Bool-cases (is_empty p.meta.id)) [
    | inl e ↦ rw e f
    | inr e ↦
        rw e
          (announced-Fits p.meta (register_locked o p p.meta h) (register_locked-Fits p.meta h f))
  ]

  after_retry-Fits : (r : Host × Option HostError) → Fits bound r.0 → Fits bound (after_retry p r)
  unfolding after_retry emit
  after_retry-Fits (h, none) f = f
  after_retry-Fits (h, some e) f = record { queued = f.queued; short = f.short }

-- A step that returns from every queue within the bound, with one within the bound.
abbrev pub Returns : ℕ → (Host → Option Host) → Type 0
Returns bound k = (h : Host) → Fits bound h → (h' : Host) × (k h ≡ some h') × Fits bound h'

module _ (bound : ℕ) (k : Host → Option Host) (returns : Returns bound k) (o : Options) where
  finish_register-Returns :
      (r : Host × Option HostError)
      → Fits bound r.0
      → (r' : Host × Option HostError) × (finish_register k r ≡ some r') × Fits bound r'.0
  unfolding finish_register
  finish_register-Returns (h, some e) f = ((h, some e), refl, f)
  finish_register-Returns (h, none) f =
      let (h', ran, f') = returns h f in ((h', none), rw (ran, finish_register), f')

  register_with-Returns :
      (p : Plugin) (h : Host)
      → Fits bound h
      → (r : Host × Option HostError) × (register_with k o p h ≡ some r) × Fits bound r.0
  unfolding register_with
  register_with-Returns p h f =
      finish_register-Returns (register_one o p h) (register_one-Fits bound o p h f)

  register_ready-Returns : (ps : List Plugin) → Returns bound (register_ready k o ps)
  unfolding register_ready
  register_ready-Returns [] h f = (h, refl, f)
  register_ready-Returns (p ∷ ps) h f =
      let (r, ran, f') = register_with-Returns p h f in
      let (h', rest, f'') =
        register_ready-Returns ps (after_retry p r) (after_retry-Fits bound o p r f') in
      (h', rw (ran, register_ready) rest, f'')

tail_out : (id k : Text) (ids : List Text) → contains (id ∷ ids) k ≡ false → contains ids k ≡ false
unfolding contains any
tail_out id k ids e = ground arith

head_out : (id k : Text) (ids : List Text) → contains (id ∷ ids) k ≡ false → text_eq id k ≡ false
unfolding contains any
head_out id k ids e = ground arith

delete_other :
    (id k : Text) (ids : List Text) (waiting : Map Plugin)
    → contains (id ∷ ids) k ≡ false
    → lookup k (delete id waiting) ≡ lookup k waiting
delete_other id k ids waiting e = rw (lookup-delete id k waiting, head_out id k ids e)

cons_out :
    (id k : Text) (ids : List Text)
    → text_eq id k ≡ false
    → contains ids k ≡ false
    → contains (id ∷ ids) k ≡ false
unfolding contains any
cons_out id k ids e f = ground arith

-- The split of the queue: it succeeds, keeps what is not ready in order, and loses no plugin.
record IsSplit (ids : List Text) (waiting : Map Plugin) (r : List Plugin × List Text × Map Plugin)
    : Type 0 where
  queued : IsWaiting r.1 r.2
  counts : length r.0 + length r.1 ≡ length ids
  fewer : (k : Text) → contains ids k ≡ false → contains r.1 k ≡ false
  others : (k : Text) → contains ids k ≡ false → lookup k r.2 ≡ lookup k waiting

module _ (o : Options) (h : Host) where
  split_pending-IsSplit :
      (ids : List Text) (waiting : Map Plugin)
      → IsWaiting ids waiting
      → (r : List Plugin × List Text × Map Plugin) × (split_pending o h ids waiting ≡ some r)
        × IsSplit ids waiting r
  unfolding split_pending
  split_pending-IsSplit [] waiting w = (
    ([], [], waiting),
    refl,
    record { queued = tt; counts = omega arith; fewer = λ k e. e; others = λ k e. refl },
  )
  split_pending-IsSplit (id ∷ ids) waiting w = elim (Option-cases (lookup id waiting)) [
    | inl missing ↦ let bad : false ≡ true = rw missing at w.0 in cc
    | inr (p, found) ↦
        elim (Bool-cases (init_deps_satisfied o h.plugins h.metas p.meta.requires.deps)) [
          | inl ready ↦
              let (r, ran, s) =
                split_pending-IsSplit ids (delete id waiting)
                  (delete-IsWaiting id ids waiting w.1 w.2) in
              (
                (p ∷ r.0, r.1, r.2),
                rw (found, ready, ran, split_pending),
                record {
                  queued = s.queued;
                  counts = omega (arith, s.counts);
                  fewer = λ k e. s.fewer k (tail_out id k ids e);
                  others =
                      λ k e. s.others k (tail_out id k ids e) ∙ delete_other id k ids waiting e;
                },
              )
          | inr not_ready ↦
              let (r, ran, s) = split_pending-IsSplit ids waiting w.2 in
              (
                (r.0, id ∷ r.1, r.2),
                rw (found, not_ready, ran, split_pending),
                record {
                  queued = (rw (s.others id w.1, found), s.fewer id w.1, s.queued);
                  counts = omega (arith, s.counts);
                  fewer = λ k e.
                      cons_out id k r.1 (head_out id k ids e) (s.fewer k (tail_out id k ids e));
                  others = λ k e. s.others k (tail_out id k ids e);
                },
              )
        ]
  ]

widen : (small large : ℕ) (h : Host) → small ≤ large → Fits small h → Fits large h
widen small large h le f = record { queued = f.queued; short = omega (arith, f.short) }

-- A round that registers something leaves fewer plugins, so the rounds left are enough for them.
module _ (fuel : ℕ) (o : Options) (returns : (b : ℕ) → b < fuel → Returns b (retry fuel o)) where
  ready_Returns :
      (ready : List Plugin) (bound : ℕ) (h : Host)
      → bound < suc fuel
      → length ready + length h.pending ≤ bound
      → IsQueued h
      → (h' : Host) × (register_ready (retry fuel o) o ready h ≡ some h') × Fits bound h'
  unfolding register_ready
  ready_Returns [] bound h lt le q = (h, refl, record { queued = q; short = omega (arith, le) })
  ready_Returns (p ∷ ps) bound h lt le q =
      let few = length h.pending in
      let (h', ran, f) =
        register_ready-Returns few (retry fuel o) (returns few (omega (arith, le))) o (p ∷ ps) h
          (record { queued = q; short = omega arith }) in
      (h', ran, widen few bound h' (omega (arith, le)) f)

retry-Returns : (fuel bound : ℕ) (o : Options) → bound < fuel → Returns bound (retry fuel o)
unfolding retry
retry-Returns zero bound o lt h f = elim lt [ ]
retry-Returns (suc fuel) bound o lt h f =
    let (r, ran, s) = split_pending-IsSplit o h h.pending h.pending_plugins f.queued in
    let rest = record h { pending = r.1; pending_plugins = r.2 } in
    let (h', done, f') =
      ready_Returns fuel o (λ b less. retry-Returns fuel b o less) r.0 bound rest lt
        (omega (arith, s.counts, f.short)) s.queued in
    (h', rw (ran, retry) done, f')

pub retry_pending-Returns : (bound : ℕ) (o : Options) → Returns bound (retry_pending o)
retry_pending-Returns bound o h f =
    let few = length h.pending in
    let (h', ran, f') =
      retry-Returns (suc few) few o (omega arith) h
        (record { queued = f.queued; short = omega arith }) in
    (h', ran, widen few bound h' f.short f')

-- Register returns whatever waits in the queue, and leaves the queue in order and no longer.
pub register-Returns :
    (o : Options) (p : Plugin) (h : Host)
    → IsQueued h
    → (r : Host × Option HostError) × (register o p h ≡ some r)
      × IsQueued (r.0)
      × (length (r.0).pending ≤ length h.pending)
unfolding register
register-Returns o p h q =
    let few = length h.pending in
    let (r, ran, f) =
      register_with-Returns few (retry_pending o) (retry_pending-Returns few o) o p h
        (record { queued = q; short = omega arith }) in
    (r, ran, f.queued, f.short)
