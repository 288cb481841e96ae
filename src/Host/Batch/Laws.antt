-- ===== src/Host/Batch/Laws.antt =====
-- host/batch.go: the phases of RegisterMany put together.
use egop.Prelude.{
  contains, filter, length, suc, List, [], ◌∷◌, ◌++◌, Option, some, ◌≡◌, refl, arith,
}
use egop.Host.State.{Options, Plugin, Host}
use egop.Host.Register.Waiting.{IsQueued, register-Returns}
use egop.Host.Register.Lazy.{lazy-Returns}
use egop.Host.Batch.{RegisterFailure, RegisterReport, Pruning, index_batch}
use egop.Host.Batch.Run.{
  ids, cycle_failures, note_registered, note_waiting, register_order, defer_entries, finish_batch,
  start_pruning, register_batch, register_many,
}
use egop.Host.Batch.Rounds.{prune-Returns, sort-Returns}

-- Both loops over the sorted batch keep the queue in order.
abbrev pub Ends : Option (Host × RegisterReport) → Type 0
Ends r = (s : Host × RegisterReport) × (r ≡ some s) × IsQueued s.0

module _ (o : Options) where
  order-Returns :
      (ps : List Plugin) (h : Host) (rep : RegisterReport)
      → IsQueued h
      → Ends (register_order o ps (h, rep))
  unfolding register_order
  order-Returns [] h rep q = ((h, rep), refl, q)
  order-Returns (p ∷ ps) h rep q =
      let ((h', e), ran, q', _) = register-Returns o p h q in
      let (s, done, fine) = order-Returns ps h' (note_registered p.meta.id e rep) q' in
      (s, rw (ran, register_order) done, fine)

  defer-Returns :
      (ps : List Plugin) (h : Host) (rep : RegisterReport)
      → IsQueued h
      → Ends (defer_entries o ps (h, rep))
  unfolding defer_entries
  defer-Returns [] h rep q = ((h, rep), refl, q)
  defer-Returns (p ∷ ps) h rep q =
      let ((h', status, e), ran, q') = lazy-Returns o p h q in
      let (s, done, fine) = defer-Returns ps h' (note_waiting p.meta.id e rep) q' in
      (s, rw (ran, defer_entries) done, fine)

  finish-Returns :
      (entries live : List Plugin) (s : Pruning) (refused : List RegisterFailure)
      (order : List Plugin) (h : Host)
      → IsQueued h
      → Ends (finish_batch o entries live s refused order h)
  unfolding finish_batch
  finish-Returns entries live s refused order h q =
      let ((h', rep'), ran, q') =
        order-Returns order h
          (record {
            registered = [];
            waiting = [];
            failed = refused ++ (s.failed ++ cycle_failures (ids order) live);
          })
          q in
      let (r, done, fine) =
        defer-Returns (filter (λ p. contains s.deferred p.meta.id) entries) h' rep' q' in
      (r, rw (ran, finish_batch) done, fine)

length-ids : (ps : List Plugin) → length (ids ps) ≡ length ps
length-ids [] = refl
length-ids (p ∷ ps) = omega (arith, length-ids ps)

batch-Returns :
    (o : Options) (entries : List Plugin) (refused : List RegisterFailure) (h : Host)
    → IsQueued h
    → Ends (register_batch o (entries, refused) h)
unfolding register_batch start_pruning
batch-Returns o entries refused h q =
    let (s, pruned) =
      prune-Returns o h.metas entries (suc (length entries)) (start_pruning h entries)
        (omega (arith, length-ids entries)) in
    let live : List Plugin = filter (λ p. contains s.active p.meta.id) entries in
    let (order, sorted) = sort-Returns o h.metas live in
    let (r, done, fine) = finish-Returns o entries live s refused order h q in
    (r, rw (pruned, sorted, register_batch) done, fine)

-- RegisterMany returns on every batch if the queue of waiting plugins is in order, and leaves it in
-- order.
pub register_many-Returns :
    (o : Options) (plugs : List Plugin) (h : Host)
    → IsQueued h
    → (r : Host × RegisterReport) × (register_many o plugs h ≡ some r) × IsQueued r.0
unfolding register_many
register_many-Returns o plugs h q =
    batch-Returns o (index_batch [] plugs).0 (index_batch [] plugs).1 h q
