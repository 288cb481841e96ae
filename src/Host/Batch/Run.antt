-- ===== src/Host/Batch/Run.antt =====
-- host/batch.go: RegisterMany put together from its phases.
use egop.Prelude.{
  Text, contains, filter, length, suc, map, not, List, [], ◌∷◌, ◌++◌, Option, none, some,
}
use egop.Host.State.{Options, Plugin, HostError, Host}
use egop.Host.State
use egop.Host.Register.{register, register_lazy}
use egop.Host.Batch.{RegisterFailure, RegisterReport, Pruning, index_batch, pending_keys, prune}
use egop.Host.Batch.Sort.{sort_entries}

abbrev pub ids : List Plugin → List Text
ids ps = map (λ p. p.meta.id) ps

-- The active entries that the sort did not reach.
unfoldable pub cycle_failures : List Text → List Plugin → List RegisterFailure
cycle_failures emitted live =
    map (λ p. record { id = p.meta.id; err = State.cycle p.meta.id })
      (filter (λ p. not (contains emitted p.meta.id)) live)

unfoldable pub fail : Text → HostError → RegisterReport → RegisterReport
fail id e rep = record rep { failed = rep.failed ++ (record { id = id; err = e }) ∷ [] }

unfoldable pub note_registered : Text → Option HostError → RegisterReport → RegisterReport
note_registered id (some e) rep = fail id e rep
note_registered id none rep = record rep { registered = rep.registered ++ id ∷ [] }

unfoldable pub note_waiting : Text → Option HostError → RegisterReport → RegisterReport
note_waiting id (some e) rep = fail id e rep
note_waiting id none rep = record rep { waiting = rep.waiting ++ id ∷ [] }

unfoldable pub register_order :
    Options → List Plugin → Host × RegisterReport → Option (Host × RegisterReport)
register_order o [] s = some s
register_order o (p ∷ ps) (h, rep) = elim (register o p h) [
  | none ↦ none
  | some (h', e) ↦ register_order o ps (h', note_registered p.meta.id e rep)
]

unfoldable pub defer_entries :
    Options → List Plugin → Host × RegisterReport → Option (Host × RegisterReport)
defer_entries o [] s = some s
defer_entries o (p ∷ ps) (h, rep) = elim (register_lazy o p h) [
  | none ↦ none
  | some (h', status, e) ↦ defer_entries o ps (h', note_waiting p.meta.id e rep)
]

-- The last two phases, on the pruned batch in its order.
unfoldable pub finish_batch :
    Options
    → List Plugin
    → List Plugin
    → Pruning
    → List RegisterFailure
    → List Plugin
    → Host
    → Option (Host × RegisterReport)
finish_batch o entries live s refused order h =
    let rep : RegisterReport = record {
      registered = [];
      waiting = [];
      failed = refused ++ (s.failed ++ cycle_failures (ids order) live);
    } in
    elim (register_order o order (h, rep)) [
      | none ↦ none
      | some s' ↦ defer_entries o (filter (λ p. contains s.deferred p.meta.id) entries) s'
    ]

unfoldable pub start_pruning : Host → List Plugin → Pruning
start_pruning h entries = record {
  active = ids entries;
  deferred = [];
  eventually = pending_keys h.pending_plugins;
  failed = [];
}

-- The batch after its index, with the failures met so far.
unfoldable pub register_batch :
    Options → List Plugin × List RegisterFailure → Host → Option (Host × RegisterReport)
register_batch o (entries, refused) h =
    elim (prune o h.metas entries (suc (length entries)) (start_pruning h entries)) [
      | none ↦ none
      | some s ↦
          let live = filter (λ p. contains s.active p.meta.id) entries in
          elim (sort_entries o h.metas live) [
            | none ↦ none
            | some order ↦ finish_batch o entries live s refused order h
          ]
    ]

unfoldable pub register_many : Options → List Plugin → Host → Option (Host × RegisterReport)
register_many o plugs h = register_batch o (index_batch [] plugs) h
