-- ===== src/Ring/Queue.antt =====
-- What a bounded queue may do: the specification of LockFreeRingBuffer.
use cpp20_workflow_engine.Shared.{ℕ, ◌<◌, List, [], ◌∷◌, ◌++◌, length}

pub data Event (T : Type 0) : Type 0 where
  pushed : T → Event T
  popped : T → Event T

-- What a queue of at most `capacity` items holds after some events. `popped x` is allowed only if `x` is
-- the oldest item, and `pushed x` only if there is room: `Allowed` says that all were.
pub data Allowed {T : Type 0} (capacity : ℕ) : List (Event T) → List T → Type 0 where
  begin : Allowed capacity [] []
  push :
      {es : List (Event T)} {q : List T} (x : T)
      → Allowed capacity es q
      → length q < capacity
      → Allowed capacity (es ++ pushed x ∷ []) (q ++ x ∷ [])
  pop :
      {es : List (Event T)} {q : List T} (x : T)
      → Allowed capacity es (x ∷ q)
      → Allowed capacity (es ++ popped x ∷ []) q
