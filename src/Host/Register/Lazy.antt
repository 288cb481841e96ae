-- ===== src/Host/Register/Lazy.antt =====
-- host/register.go: the queue of waiting plugins through RegisterLazy.
use egop.Prelude.{
  Text, text_eq, text_eq_iff, text_eq_refl, is_empty, contains, any, lookup-insert, insert, has,
  Map, Bool-cases, false, List, [], ◌∷◌, ◌++◌, Option, none, some, ◌≡◌, refl, inl, inr, arith,
}
use egop.Host.State.{Options, Plugin, Host, HostError}
use egop.Host.State
use egop.Host.Check.{init_deps_satisfied}
use egop.Host.Register.{
  register_lazy, RegisterStatus, status_registered, status_pending, with_status,
}
use egop.Host.Register.Waiting.{IsWaiting, IsQueued, register-Returns}

insert-IsWaiting :
    (id : Text) (p : Plugin) (ids : List Text) (waiting : Map Plugin)
    → IsWaiting ids waiting
    → IsWaiting ids (insert id p waiting)
insert-IsWaiting id p [] waiting w = tt
insert-IsWaiting id p (x ∷ ids) waiting w =
    (ground (arith, lookup-insert id x p waiting, w.0), w.1, insert-IsWaiting id p ids waiting w.2)

contains_last :
    (id k : Text) (ids : List Text)
    → contains ids k ≡ false
    → text_eq id k ≡ false
    → contains (ids ++ id ∷ []) k ≡ false
unfolding contains any
contains_last id k [] out ne = ground arith
contains_last id k (x ∷ ids) out ne = ground (arith, contains_last id k ids)

not_waiting :
    (id : Text) (ids : List Text) (waiting : Map Plugin)
    → IsWaiting ids waiting
    → has id waiting ≡ false
    → contains ids id ≡ false
unfolding contains any
not_waiting id [] waiting w out = refl
not_waiting id (x ∷ ids) waiting w out =
    ground (arith, not_waiting id ids waiting w.2 out, text_eq_iff x id, w.0)

append-IsWaiting :
    (id : Text) (p : Plugin) (ids : List Text) (waiting : Map Plugin)
    → IsWaiting ids waiting
    → has id waiting ≡ false
    → IsWaiting (ids ++ id ∷ []) (insert id p waiting)
unfolding contains any
append-IsWaiting id p [] waiting w out =
    (ground (arith, lookup-insert id id p waiting, text_eq_refl id), refl, tt)
append-IsWaiting id p (x ∷ ids) waiting w out = (
  ground (arith, lookup-insert id x p waiting, w.0),
  contains_last id x ids w.1 (ground (arith, text_eq_iff id x, w.0)),
  append-IsWaiting id p ids waiting w.2 out,
)

-- A lazy registration that returns a host with its queue in order.
abbrev pub LazyReturns : Options → Plugin → Host → Type 0
LazyReturns o p h =
    (r : Host × RegisterStatus × Option HostError) × (register_lazy o p h ≡ some r) × IsQueued r.0

pub lazy-Returns : (o : Options) (p : Plugin) (h : Host) → IsQueued h → LazyReturns o p h
unfolding register_lazy with_status
lazy-Returns o p h q = elim (Bool-cases (is_empty p.meta.id)) [
  | inl e ↦ ((h, status_registered, some State.empty_id), rw e refl, q)
  | inr named ↦ elim (Bool-cases (has p.meta.id h.plugins)) [
    | inl e ↦ ((h, status_registered, some (State.duplicate_id p.meta.id)), rw (named, e) refl, q)
    | inr new ↦ elim (Bool-cases (init_deps_satisfied o h.plugins h.metas p.meta.requires.deps)) [
      | inl ready ↦
          let ((h', err), ran, q', _) = register-Returns o p h q in
          ((h', status_registered, err), rw (named, new, ready, ran, with_status) refl, q')
      | inr unready ↦ elim (Bool-cases (has p.meta.id h.pending_plugins)) [
        | inl again ↦ (
          (
            record h { pending_plugins = insert p.meta.id p h.pending_plugins },
            status_pending,
            none,
          ),
          rw (named, new, unready, again) refl,
          insert-IsWaiting p.meta.id p h.pending h.pending_plugins q,
        )
        | inr first ↦ (
          (
            record h {
              pending_plugins = insert p.meta.id p h.pending_plugins;
              pending = h.pending ++ p.meta.id ∷ [];
            },
            status_pending,
            none,
          ),
          rw (named, new, unready, first) refl,
          append-IsWaiting p.meta.id p h.pending h.pending_plugins q first,
        )
      ]
    ]
  ]
]
