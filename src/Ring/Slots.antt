-- ===== src/Ring/Slots.antt =====
-- Positions and the slots that they share.
use cpp20_workflow_engine.Shared.{ℕ, ◌+◌, ◌<◌, ◌≡◌, ◌≢◌, arith}
use cpp20_workflow_engine.Ring.{slot_of}

pub slot-period : (capacity pos : ℕ) → slot_of capacity (pos + capacity) ≡ slot_of capacity pos
unfolding slot_of
slot-period capacity pos = grind arith

pub slot-ne :
    (capacity p q : ℕ) → p < q → q < p + capacity → slot_of capacity p ≢ slot_of capacity q
unfolding slot_of
slot-ne capacity p q h k e = grind arith

pub slot_below : (capacity p : ℕ) → p < capacity → slot_of capacity p ≡ p
unfolding slot_of
slot_below capacity p h = grind arith

pub slot-lt : (capacity p : ℕ) → 0 < capacity → slot_of capacity p < capacity
unfolding slot_of
slot-lt capacity p h = grind arith
