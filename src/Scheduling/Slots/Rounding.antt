-- ===== src/Scheduling/Slots/Rounding.antt =====
-- Rounding to the slots of backend/app/scheduling/solver.py.
use relay.Prelude.{ℕ, ◌+◌, ◌*◌, ◌%◌, ◌≤◌, ◌<◌, ◌≡◌, arith}
use relay.Scheduling.Sessions.{slot_minutes}
use relay.Scheduling.Slots.{minute, ceil_to_slot, floor_to_slot}

abbrev pub slot : ℕ
slot = slot_minutes * minute

-- Rounding up gives the first slot boundary at or after the instant.
pub ceil_to_slot_bounds :
    (moment : ℕ)
    → (moment ≤ ceil_to_slot moment)
      × (ceil_to_slot moment < moment + slot)
      × (ceil_to_slot moment % slot ≡ 0)
unfolding ceil_to_slot
ceil_to_slot_bounds moment = ground arith

-- Rounding down gives the last slot boundary at or before the instant.
pub floor_to_slot_bounds :
    (moment : ℕ)
    → (floor_to_slot moment ≤ moment)
      × (moment < floor_to_slot moment + slot)
      × (floor_to_slot moment % slot ≡ 0)
unfolding floor_to_slot
floor_to_slot_bounds moment = omega arith
