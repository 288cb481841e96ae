-- ===== src/Host/Slots.antt =====
-- host/register.go: slotSatisfiedLocked, slotSatisfiedExcludingLocked and the check of a plugin
-- against its slot's minimal contract.
pub mod Contracts
mod Tests
use egop.Prelude.{
  Text, text_eq, contains, Map, any, map, not, Bool, false, ◌&&◌, ◌||◌, if◌then◌else◌, List, [],
  ◌∷◌, ◌++◌, Option, none, some,
}
use egop.Contract.Meta.{Meta, SlotSpec}
use egop.Host.State

unfoldable pub find_slot : State.Options → Text → Option SlotSpec
find_slot o id = elim o.slot_lookup [ none ↦ none | some f ↦ f id ]

unfoldable pub is_builtin : Option SlotSpec → Bool
is_builtin none = false
is_builtin (some spec) = spec.builtin

unfoldable pub slot_satisfied : State.Options → Map Meta → Text → Bool
slot_satisfied o metas id = is_builtin (find_slot o id) || any (λ e. text_eq (e.1).slot id) metas

unfoldable pub slot_satisfied_excluding : State.Options → Map Meta → Text → Text → Bool
slot_satisfied_excluding o metas slot exclude =
    is_builtin (find_slot o slot)
    || any (λ e. not (text_eq e.0 exclude) && text_eq (e.1).slot slot) metas

-- One `for` loop of slotCheck: a line for each wanted name that is not there.
unfoldable pub missing : (Text → State.Miss) → (Text → Bool) → List Text → List State.Miss
missing line there [] = []
missing line there (p ∷ ps) =
    let rest = missing line there ps in if there p then rest else line p ∷ rest

unfoldable pub unavailable : Option (List Text) → List Text → List State.Miss
unavailable none tools = []
unavailable (some names) tools = missing State.unavailable_tool (contains names) tools

-- The lines that slotCheck reports for a plugin against its slot.
unfoldable pub slot_misses : State.Options → Map Meta → Meta → SlotSpec → List State.Miss
slot_misses o metas m spec =
    missing State.emitted_point (contains m.provides.points) spec.provides
    ++ (missing State.capability (contains m.provides.capabilities) spec.capabilities
        ++ (missing State.function (contains (map (λ f. f.name) m.provides.functions))
              spec.functions
            ++ (missing State.hook_point (contains (map (λ k. k.id) m.provides.hooks)) spec.hooks
                ++ (missing State.config_field (contains (map (λ c. c.key) m.provides.config))
                      spec.config
                    ++ (missing State.listened_point (contains m.requires.listens) spec.listens
                        ++ (missing State.event_topic (contains (map (λ e. e.id) m.provides.events))
                              spec.events
                            ++ (missing State.needed_slot (slot_satisfied o metas) spec.needs
                                ++ (missing State.needed_tool (contains m.requires.tools)
                                      spec.needs_tools
                                    ++ unavailable o.tool_names m.requires.tools))))))))

-- slotCheck: nothing for an unknown slot.
unfoldable pub slot_check : State.Options → Map Meta → Meta → Option (List State.Miss)
slot_check o metas m = elim (find_slot o m.slot) [
  | none ↦ none
  | some spec ↦ some (slot_misses o metas m spec)
]
