-- ===== src/Slot.antt =====
-- src/new_payload.rs, `timestamp_to_slot`: the slot of a block's timestamp.
pub mod Bounds
use eleel.Common.{ℕ, ◌-◌, ◌/◌, Option, none, some, ltb, ◌==◌, if◌then◌else◌}
use eleel.Multiplexer.{Settings}

-- `checked_sub`, then `checked_div`; a `Slot` is its number.
unfoldable pub timestamp_to_slot : Settings → ℕ → Option ℕ
timestamp_to_slot self timestamp =
    if ltb timestamp self.genesis_time
    then none
    else if self.spec.seconds_per_slot == 0
    then none
    else some ((timestamp - self.genesis_time) / self.spec.seconds_per_slot)
