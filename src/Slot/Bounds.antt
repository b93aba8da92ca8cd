-- ===== src/Slot/Bounds.antt =====
-- src/new_payload.rs, `timestamp_to_slot`: the slot holds the timestamp.
use native.Mathlib.Nat.{div-mul-le_self, lt-div-mul-add}
use eleel.Common.{ℕ, ◌+◌, ◌*◌, ◌-◌, ◌/◌, ◌≤◌, ◌<◌, ◌≡◌, ◌↔◌, ◌⊎◌, none, some, arith}
use eleel.Multiplexer.{Settings}
use eleel.Slot.{timestamp_to_slot}

module _ (self : Settings) (timestamp : ℕ) where
  -- A timestamp has no slot exactly before genesis or if slots have no length.
  pub timestamp_to_slot-eq-none_iff :
      (timestamp_to_slot self timestamp ≡ none)
      ↔ ((timestamp < self.genesis_time) ⊎ (self.spec.seconds_per_slot ≡ 0))
  unfolding timestamp_to_slot
  timestamp_to_slot-eq-none_iff = ground arith

  slot_test :
      (slot : ℕ)
      → timestamp_to_slot self timestamp ≡ some slot
      → (self.genesis_time ≤ timestamp)
        × (0 < self.spec.seconds_per_slot)
        × ((timestamp - self.genesis_time) / self.spec.seconds_per_slot ≡ slot)
  unfolding timestamp_to_slot
  slot_test slot e = ground arith

  -- A timestamp's slot begins at or before the timestamp, and the next slot after it.
  pub timestamp_to_slot-bounds :
      (slot : ℕ)
      → timestamp_to_slot self timestamp ≡ some slot
      → (self.genesis_time + slot * self.spec.seconds_per_slot ≤ timestamp)
        × (timestamp < self.genesis_time + (slot + 1) * self.spec.seconds_per_slot)
  unfolding timestamp_to_slot
  timestamp_to_slot-bounds slot e =
      let n = self.spec.seconds_per_slot in
      let d = timestamp - self.genesis_time in
      let (started, long, same) = slot_test slot e in
      let below : slot * n ≤ d = rw same at (div-mul-le_self d n) in
      let above : d < slot * n + n = rw same at (lt-div-mul-add {a = d} long) in
      omega (arith, started, below, above)
