-- ===== src/Bus/Events.antt =====
-- host/memevents.go: the in-memory event bus. A callback is a value of `F`; `run` performs it on a
-- state of the world, also where it panics, since Dispatch recovers. The bus's lock is not modelled:
-- each method is one step, and callbacks run outside it.
pub mod Laws
use egop.Prelude.{
  Text, contains, filter, sort_by, ℕ, ◌+◌, ◌==◌, Bool, not, if◌then◌else◌, List, [], ◌∷◌, ◌++◌,
  Option, none, some,
}
use egop.Contract.Event.{Event, EventFilter, event_match}

pub record SubEntry (F : Type 0) : Type 0 where
  pub id : ℕ
  pub filter : EventFilter
  pub fn : F

pub record MemEvents (F : Type 0) : Type 0 where
  pub subs : List (SubEntry F)
  pub topics : List Text
  pub next : ℕ

-- The zero filter, for a nil pointer.
abbrev pub any_event : EventFilter
any_event = record {
  type = [];
  sub_type = [];
  source_id = [];
  source_version = [];
  source_kind = [];
  labels = [];
}

abbrev pub filter_of : Option EventFilter → EventFilter
filter_of none = any_event
filter_of (some f) = f

module _ {F : Type 0} where
  -- NewMemEvents
  abbrev pub empty_bus : MemEvents F
  empty_bus = record { subs = []; topics = []; next = 0 }

  -- Subscribe: the bus after it, and the id that its undo function deletes.
  unfoldable pub subscribe : MemEvents F → Option EventFilter → F → MemEvents F × ℕ
  subscribe m f fn =
      let id = m.next + 1 in
      (
        record m {
          next = id;
          subs = m.subs ++ record { id = id; filter = filter_of f; fn = fn } ∷ [];
        },
        id,
      )

  -- The undo function of a subscription.
  unfoldable pub unsubscribe : ℕ → MemEvents F → MemEvents F
  unsubscribe id m = record m { subs = filter (λ en. not (en.id == id)) m.subs }

  unfoldable pub ensure_topic : Text → MemEvents F → MemEvents F
  ensure_topic topic m =
      if contains m.topics topic then m else record m { topics = m.topics ++ topic ∷ [] }

  module _ {S : Type 0} (run : F → Event → S → S) where
    -- The loop over the entries.
    unfoldable pub deliver : Event → List (SubEntry F) → S → S
    deliver e [] s = s
    deliver e (en ∷ ens) s = deliver e ens (if event_match en.filter e then run en.fn e s else s)

    unfoldable pub dispatch : MemEvents F → Event → S → S
    dispatch m e s = deliver e (sort_by (λ en. en.id) m.subs) s
