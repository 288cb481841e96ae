-- ===== src/Bus/Tests.antt =====
-- Small buses, and the theorems about them at these inputs.
use egop.Prelude.{
  Text, codes, lookup, insert, sort_by, insert_by, Map, ℕ, ◌==◌, true, List, [], ◌∷◌, ◌++◌, none,
  some, ◌≡◌, refl, text_eq, if◌then◌else◌,
}
use egop.Contract.Glob.{
  split, push, has_byte, strip_prefix, has_suffix, glob_rest, glob_parts, glob_match,
}
use egop.Contract.Meta.{HookKind}
use egop.Contract.Event.{Event, EventFilter, event_match, labels_match}
use egop.Host.State.{HookDecl}
use egop.Bus.Events.{MemEvents, empty_bus, any_event, subscribe, deliver, dispatch}
use egop.Bus.Events.Laws.{start, subscribes, matching, run_in_order, dispatch_order}
use egop.Bus.Hooks.{
  HookReply, returned, panicked, MemHooks, no_result, entries_of, on, run_hooks, trigger,
  trigger_hook,
}
use egop.Bus.Hooks.Order
use egop.Bus.Hooks.Order.{Reach, registers}
use egop.Bus.Hooks.Laws.{run_callbacks, AreAnswers, IsObserved, trigger_hook_lem}

abbrev event_on : Text → Event
event_on topic = record {
  type = topic;
  sub_type = [];
  version = 1;
  source = none;
  payload = [];
  labels = [];
}

abbrev on_topic : Text → EventFilter
on_topic topic = record any_event { type = topic }

-- Callback `n` writes its number down.
abbrev note : ℕ → Event → List ℕ → List ℕ
note n e s = s ++ n ∷ []

abbrev two : MemEvents ℕ
two = (subscribe (subscribe empty_bus (some (on_topic (codes "a.*"))) 7).0 none 8).0

abbrev three : MemEvents ℕ
three = (subscribe two (some (on_topic (codes "b"))) 9).0

three_delivered : dispatch note three (event_on (codes "a.b")) [] ≡ 7 ∷ 8 ∷ []
unfolding dispatch deliver subscribe sort_by insert_by event_match labels_match glob_match has_byte
    split push strip_prefix glob_parts glob_rest has_suffix text_eq
three_delivered = refl

dispatch_order_example :
    dispatch note three (event_on (codes "a.b")) []
    ≡ run_in_order note (event_on (codes "a.b")) (matching (event_on (codes "a.b")) three.subs) []
dispatch_order_example =
    dispatch_order note (event_on (codes "a.b")) three
      (subscribes (some (on_topic (codes "b"))) 9
        (subscribes none 8 (subscribes (some (on_topic (codes "a.*"))) 7 start)))
      []

-- Callback 1 blocks, callback 2 panics.
abbrev answer : ℕ → Text → Text → List ℕ → List ℕ × HookReply
answer n hook input s = (
  s ++ n ∷ [],
  if n == 1 then returned (record no_result { block = true }) else panicked (codes "boom"),
)

abbrev hooks : MemHooks ℕ
hooks =
    (on (on (record { subs = []; next = 0 }) (codes "p") (codes "save") 1).0 (codes "q")
      (codes "save") 2).0

abbrev observers : Map HookDecl
observers = (codes "save", record { owner = codes "p"; kind = HookKind.observe }) ∷ []

observers_run : (trigger_hook answer observers hooks (codes "save") [] 5 []).0 ≡ 1 ∷ 2 ∷ []
unfolding trigger_hook trigger run_hooks on entries_of lookup insert sort_by insert_by text_eq
observers_run = refl

hooks-Reach : Reach ℕ hooks
hooks-Reach =
    registers (codes "q") (codes "save") 2 (registers (codes "p") (codes "save") 1 Order.start)

trigger_hook_lem_example :
    ((trigger_hook answer observers hooks (codes "save") [] 5 []).0
      ≡ run_callbacks answer (codes "save") [] (entries_of hooks (codes "save")) [])
    × AreAnswers answer
        (codes "save")
        []
        (IsObserved observers (codes "save"))
        5
        0
        (entries_of hooks (codes "save"))
        []
        (trigger_hook answer observers hooks (codes "save") [] 5 []).1
trigger_hook_lem_example =
    trigger_hook_lem answer observers hooks (codes "save") [] 5 [] hooks-Reach
