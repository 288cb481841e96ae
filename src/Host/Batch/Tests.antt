-- ===== src/Host/Batch/Tests.antt =====
-- Batches of the small plugins of Host.Tests.
use egop.Prelude.{
  Text, codes, text_eq, contains, lookup, insert, any, filter, List, [], ◌∷◌, Option, none, some,
  ◌≡◌, refl,
}
use egop.Host.State.{Options, Plugin, Host, HostError}
use egop.Host.State
use egop.Contract.Glob.{strip_prefix}
use egop.Host.Check.{is_init}
use egop.Host.Slots.{find_slot, is_builtin}
use egop.Host.Register.Waiting.{IsQueued}
use egop.Host.Tests.{options, base, app, waiting, waiting-IsQueued}
use egop.Host.Batch.{
  RegisterReport, plugin_key, slot_key, need_key, need_keys, provide_keys, key_provided, refuse,
  keep, index_batch,
}
use egop.Host.Batch.Sort.{
  is_nil, open_needs, wanted, degrees_of, waiters, open_waiter, open_waiters, open_keys, visit,
  sort_entries,
}
use egop.Host.Batch.Run.{ids, register_many}
use egop.Host.Batch.Laws.{register_many-Returns}

abbrev in_order : Option (List Plugin) → List Text
in_order none = []
in_order (some ps) = ids ps

base_first : in_order (sort_entries options [] (app ∷ base ∷ [])) ≡ codes "base" ∷ codes "app" ∷ []
unfolding text_eq contains lookup insert any filter strip_prefix is_init find_slot is_builtin
    plugin_key slot_key need_key need_keys provide_keys key_provided is_nil open_needs wanted
    degrees_of waiters open_waiter open_waiters open_keys visit sort_entries
base_first = refl

base_once :
    index_batch [] (base ∷ base ∷ [])
    ≡ (base ∷ [], record { id = codes "base"; err = State.duplicate_in_batch (codes "base") } ∷ [])
unfolding text_eq contains any refuse keep index_batch
base_once = refl

register_many-Returns_example :
    (r : Host × RegisterReport) × (register_many options (app ∷ base ∷ base ∷ []) waiting ≡ some r)
    × IsQueued r.0
register_many-Returns_example =
    register_many-Returns options (app ∷ base ∷ base ∷ []) waiting waiting-IsQueued
