-- ===== src/Examples/Buffers.antt =====
-- The ring buffer and the logger: two items in a buffer of capacity 2.
use cpp20_workflow_engine.Shared.{
  ℕ, ◌<◌, ◌⊎◌, ◌≤◌, ◌≡◌, refl, arith, false, some, List, [], ◌∷◌, ◌++◌, map, length, Bytes, bytes,
}
use cpp20_workflow_engine.Ring.Queue.{Allowed}
use cpp20_workflow_engine.Ring.{slot_of, Move, produce, consume, construct, push_step, step, play}
use cpp20_workflow_engine.Ring.Refine.{play_refines_queue, push_step-full}
use cpp20_workflow_engine.Logger.{info, warn, LogEvent, buffer_capacity, format_event}
use cpp20_workflow_engine.Logger.Life.{
  Happens, logs_event, flushes, flush_called, constructed, live, destroy, events_of,
}
use cpp20_workflow_engine.Logger.Ends.{live-destroy}
use cpp20_workflow_engine.Logger.Order.{IsSublist}

-- One producer pushes an item, operation by operation.
abbrev push_item : ℕ → List (Move ℕ)
push_item x =
    produce 0 x false
    ∷ produce 0 x false
    ∷ produce 0 x false
    ∷ produce 0 x false
    ∷ produce 0 x false
    ∷ []

abbrev moves : List (Move ℕ)
moves = push_item 7 ++ (consume 0 ∷ consume 0 ∷ push_item 8)

play_refines_queue_example :
    (q : List ℕ) × Allowed 2 (play 2 moves (construct 2 0)).events q × (length q ≤ 2)
play_refines_queue_example = play_refines_queue 2 (omega arith) (omega arith) 0 moves (omega arith)

-- A third push begins while two items are in the buffer.
abbrev filling : List (Move ℕ)
filling = push_item 7 ++ (push_item 8 ++ (produce 0 9 false ∷ []))

push_step-full_example :
    (q : List ℕ) × Allowed 2 (play 2 filling (construct 2 0)).events q × (length q ≡ 2)
unfolding play step push_step slot_of construct
push_step-full_example =
    push_step-full 2 (omega arith) (omega arith) 0 filling (omega arith) 0 2 9 0 false refl refl

-- With a capacity of 1 a second push claims the slot of an item that nobody has taken.
one_slot : (play 1 (push_item 7 ++ push_item 8) (construct 1 0)).buffer.write_pos ≡ 2
unfolding play step push_step slot_of construct
one_slot = refl

abbrev local : ℕ → Bytes
local n = []

-- The flush thread begins a batch and writes the first event between two.
abbrev happened : List Happens
happened =
    logs_event info (bytes "a") 5 ∷ flushes ∷ flush_called ∷ logs_event warn (bytes "b") 6 ∷ []

live-destroy_example :
    (new : List LogEvent) × IsSublist new (events_of happened)
    × (destroy local 5000 (live local happened constructed)
        ≡ some (record { buffer = []; lines = map (format_event local) new }))
    × ((buffer_capacity < length (events_of happened)) ⊎ (new ≡ events_of happened))
live-destroy_example = live-destroy local happened 5000 (omega arith)
