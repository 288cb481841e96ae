-- ===== src/Host/Slots/Tests.antt =====
-- The slot check of the base, which claims the slot "store".
use egop.Prelude.{is_empty, true, false, [], some, none, ◌≡◌, ◌↔◌, ◌⊎◌}
use egop.Contract.Meta.{SlotSpec}
use egop.Host.Slots.{find_slot}
use egop.Host.Check.{check_slot}
use egop.Host.Slots.Contracts.{Fulfils, check_slot_iff}
use egop.Host.Tests.{options, base}

check_slot_iff_example : (check_slot options [] [] base.meta ≡ none) ↔ (
    (is_empty base.meta.slot ≡ true)
    ⊎ ((is_empty base.meta.slot ≡ false)
        × (spec : SlotSpec) × (find_slot options base.meta.slot ≡ some spec)
        × Fulfils options [] base.meta spec))
check_slot_iff_example = check_slot_iff options [] [] base.meta
