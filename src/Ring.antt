-- ===== src/Ring.antt =====
-- LockFreeRingBuffer (include/LockFreeRingBuffer.h): any number of producers and one consumer, whose
-- atomic operations interleave. Each operation takes effect at once: weaker memory orders are not
-- modelled. The type argument `T` of the buffer is a parameter.
pub mod Queue
pub mod Slots
pub mod Invariant
pub mod Produce
pub mod Claim
pub mod Consume
pub mod Steps
pub mod Refine
use cpp20_workflow_engine.Shared.{
  ℕ, ◌+◌, ◌%◌, ◌^◌, Bool, true, false, Option, none, some, List, [], ◌∷◌, ◌++◌, ◌==◌, ltb,
  if◌then◌else◌,
}
use cpp20_workflow_engine.Ring.Queue.{Event, pushed, popped}

-- `std::size_t` addition
abbrev pub add_size : ℕ → ℕ → ℕ
add_size a b = (a + b) % 2 ^ 64

-- `pos & kMask`, for a capacity that is a power of 2
unfoldable pub slot_of : ℕ → ℕ → ℕ
slot_of capacity pos = pos % capacity

-- A word as a signed number, moved up by 2^63.
abbrev pub biased : ℕ → ℕ
biased a = (a + 2 ^ 63) % 2 ^ 64

-- The sign of `ptrdiff_t(a) - ptrdiff_t(b)`, where that does not overflow.
abbrev pub diff_is_zero : ℕ → ℕ → Bool
diff_is_zero a b = biased a == biased b

abbrev pub diff_is_negative : ℕ → ℕ → Bool
diff_is_negative a b = ltb (biased a) (biased b)

-- `m[i] = v`
abbrev pub put_at : {A : Type 0} → (ℕ → A) → ℕ → A → ℕ → A
put_at m i v j = if j == i then v else m j

-- The members. `seq` and `items` are the two fields of `slots_`.
pub record Buffer (T : Type 0) : Type 0 where
  pub write_pos : ℕ
  pub read_pos : ℕ
  pub seq : ℕ → ℕ
  pub items : ℕ → T

-- Where a producer is in `push`: it has returned (or not begun); it is to load the sequence number of
-- the slot of `pos`; to load `write_pos_` again; to try the compare-exchange; to store the item; or
-- to store the sequence number.
pub data Producer (T : Type 0) : Type 0 where
  ready : Producer T
  full : Producer T
  look : T → ℕ → Producer T
  reload : T → Producer T
  claim : T → ℕ → Producer T
  store : T → ℕ → Producer T
  publish : T → ℕ → Producer T

-- Where the consumer is in `pop`: out of it; or to move the item out, to store the sequence number, or
-- to store `read_pos_`.
pub data Consumer (T : Type 0) : Type 0 where
  away : Consumer T
  move_out : ℕ → Consumer T
  free : T → ℕ → Consumer T
  leave : ℕ → Consumer T

-- `events` are the claims of slots and the releases, the newest last.
pub record Machine (T : Type 0) : Type 0 where
  pub buffer : Buffer T
  pub producers : ℕ → Producer T
  pub consumer : Consumer T
  pub events : List (Event T)

-- Which thread goes on. A producer out of `push` begins to push the item; `fails` is a spurious failure
-- of the weak compare-exchange; `left` is what the move leaves in the slot.
pub data Move (T : Type 0) : Type 0 where
  produce : ℕ → T → Bool → Move T
  consume : T → Move T

module _ {T : Type 0} (capacity : ℕ) where
  -- The constructor, with `blank` the default item.
  unfoldable pub construct : T → Machine T
  construct blank = record {
    buffer = record { write_pos = 0; read_pos = 0; seq = λ i. i; items = λ i. blank };
    producers = λ i. ready;
    consumer = away;
    events = [];
  }

  -- One atomic operation of `push`: the buffer, where the producer is then, and what it claimed.
  unfoldable pub push_step :
      Producer T → T → Bool → Buffer T → Buffer T × Producer T × List (Event T)
  unfolding slot_of
  push_step ready item fails b = (b, look item b.write_pos, [])
  push_step full item fails b = (b, look item b.write_pos, [])
  push_step (reload x) item fails b = (b, look x b.write_pos, [])
  push_step (look x pos) item fails b =
      let seq = b.seq (slot_of capacity pos) in
      if diff_is_zero seq pos
      then (b, claim x pos, [])
      else if diff_is_negative seq pos
      then (b, full, [])
      else (b, reload x, [])
  push_step (claim x pos) item true b = (b, look x b.write_pos, [])
  push_step (claim x pos) item false b =
      if b.write_pos == pos
      then (record b { write_pos = add_size pos 1 }, store x pos, pushed x ∷ [])
      else (b, look x b.write_pos, [])
  push_step (store x pos) item fails b =
      (record b { items = put_at b.items (slot_of capacity pos) x }, publish x pos, [])
  push_step (publish x pos) item fails b =
      (record b { seq = put_at b.seq (slot_of capacity pos) (add_size pos 1) }, ready, [])

  -- One atomic operation of `pop`.
  unfoldable pub pop_step : Consumer T → T → Buffer T → Buffer T × Consumer T × List (Event T)
  unfolding slot_of
  pop_step away left b =
      if diff_is_zero (b.seq (slot_of capacity b.read_pos)) (add_size b.read_pos 1)
      then (b, move_out b.read_pos, [])
      else (b, away, [])
  pop_step (move_out pos) left b =
      let i = slot_of capacity pos in
      (record b { items = put_at b.items i left }, free (b.items i) pos, [])
  pop_step (free x pos) left b = (
    record b { seq = put_at b.seq (slot_of capacity pos) (add_size pos capacity) },
    leave pos,
    popped x ∷ [],
  )
  pop_step (leave pos) left b = (record b { read_pos = add_size pos 1 }, away, [])

  unfoldable pub step : Move T → Machine T → Machine T
  unfolding push_step pop_step
  step (produce i item fails) m =
      let (b, p, es) = push_step (m.producers i) item fails m.buffer in
      record m { buffer = b; producers = put_at m.producers i p; events = m.events ++ es }
  step (consume left) m =
      let (b, c, es) = pop_step m.consumer left m.buffer in
      record m { buffer = b; consumer = c; events = m.events ++ es }

  unfoldable pub play : List (Move T) → Machine T → Machine T
  unfolding step
  play [] m = m
  play (mv ∷ mvs) m = play mvs (step mv m)

  -- `empty`
  unfoldable pub empty : Buffer T → Bool
  unfolding slot_of
  empty b = diff_is_negative (b.seq (slot_of capacity b.read_pos)) (add_size b.read_pos 1)
