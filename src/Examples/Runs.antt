-- ===== src/Examples/Runs.antt =====
-- Runs of two nodes, B after A.
use cpp20_workflow_engine.Shared.{
  ℕ, ◌+◌, ◌≤◌, ◌<◌, ◌≡◌, ◌⊎◌, ◌↔◌, refl, true, false, str_eq, some, List, arith, length, ◌==◌,
  if◌then◌else◌, Bytes, count, bytes,
}
use cpp20_workflow_engine.Dag.{has_edge, kahn_loop, roots, IsRanked}
use cpp20_workflow_engine.Node.{success, failed, cancelled}
use cpp20_workflow_engine.Engine.{edges, config_ids}
use cpp20_workflow_engine.Engine.Load.{install}
use cpp20_workflow_engine.Engine.Run.{Choice, begin, play, step, act, wait_for_completion}
use cpp20_workflow_engine.Engine.Run.Count.{total, count_downs, owns}
use cpp20_workflow_engine.Engine.Run.Invariant.{
  is_running, finals, state_of, has_run, is_final, waiting, spoilt,
}
use cpp20_workflow_engine.Engine.Run.Finish.{IsIdle, reached}
use cpp20_workflow_engine.Engine.Run.Outcome.{
  reached_safe, latch_counts, run_completes, run_outcome,
}
use cpp20_workflow_engine.Engine.Run.Measure.{run_terminates, AllGo, measure, CanGo}
use cpp20_workflow_engine.Engine.Run.Protocol.{AtMostOne, IsFinal, reached-AtMostOne}
use cpp20_workflow_engine.Engine.Run.Unique.{outcome_unique}
use cpp20_workflow_engine.Examples.{
  two_loaded, two_IsLoaded, two_IsRanked, b_last, schedule_1, schedule_2,
}

two_IsRanked' : IsRanked (edges two_loaded.node_configs) b_last
unfolding install str_eq kahn_loop roots
two_IsRanked' = two_IsRanked

IsIdle-1 : IsIdle (reached 0 two_loaded schedule_1).threads
unfolding install play step act begin str_eq kahn_loop roots
IsIdle-1 = tt

IsIdle-2 : IsIdle (reached 0 two_loaded schedule_2).threads
unfolding install play step act begin str_eq kahn_loop roots
IsIdle-2 = tt

b_known : 0 < count (bytes "B") (config_ids two_loaded.node_configs)
unfolding install str_eq kahn_loop roots
b_known = omega arith

run_completes_example :
    ((v : Bytes)
      → 0 < count v (config_ids two_loaded.node_configs)
      → is_final (state_of (reached 0 two_loaded schedule_1).engine v) ≡ 1)
    × (wait_for_completion (reached 0 two_loaded schedule_1).engine
        ≡ some (record (reached 0 two_loaded schedule_1).engine { running = false }))
run_completes_example =
    run_completes 0 two_loaded two_IsLoaded schedule_1 b_last two_IsRanked' IsIdle-1

run_outcome_example :
    ((has_run (state_of (reached 0 two_loaded schedule_1).engine (bytes "B")) ≡ 1) ↔ (
      waiting (edges two_loaded.node_configs) (reached 0 two_loaded schedule_1).engine (bytes "B")
      ≡ 0))
    × ((state_of (reached 0 two_loaded schedule_1).engine (bytes "B") ≡ cancelled) ↔ (
        0
        < spoilt
            (edges two_loaded.node_configs)
            (reached 0 two_loaded schedule_1).engine
            (bytes "B")))
run_outcome_example =
    run_outcome 0 two_loaded two_IsLoaded schedule_1 b_last two_IsRanked' IsIdle-1 (bytes "B")
      b_known

agree :
    (v : Bytes)
    → has_run (state_of (reached 0 two_loaded schedule_1).engine v) ≡ 1
    → has_run (state_of (reached 0 two_loaded schedule_2).engine v) ≡ 1
    → state_of (reached 0 two_loaded schedule_1).engine v
      ≡ state_of (reached 0 two_loaded schedule_2).engine v
unfolding install play step act begin str_eq kahn_loop roots
agree v h k = refl

outcome_unique_example :
    state_of (reached 0 two_loaded schedule_1).engine (bytes "B")
    ≡ state_of (reached 0 two_loaded schedule_2).engine (bytes "B")
outcome_unique_example =
    outcome_unique 0 two_loaded two_IsLoaded b_last two_IsRanked' schedule_1 schedule_2 IsIdle-1
      IsIdle-2 agree (bytes "B") b_known

reached_safe_example :
    (0 < has_run (state_of (reached 0 two_loaded schedule_1).engine (bytes "B"))
      → (u : Bytes) → has_edge (edges two_loaded.node_configs) u (bytes "B") ≡ true
      → state_of (reached 0 two_loaded schedule_1).engine u ≡ success)
    × (state_of (reached 0 two_loaded schedule_1).engine (bytes "B") ≡ cancelled
        → (u : Bytes) × (has_edge (edges two_loaded.node_configs) u (bytes "B") ≡ true)
          × ((state_of (reached 0 two_loaded schedule_1).engine u ≡ failed)
              ⊎ (state_of (reached 0 two_loaded schedule_1).engine u ≡ cancelled)))
    × (total (owns (bytes "B")) (reached 0 two_loaded schedule_1).threads ≡ (
        if is_running (state_of (reached 0 two_loaded schedule_1).engine (bytes "B")) == 1
        then 1
        else 0))
reached_safe_example = reached_safe 0 two_loaded two_IsLoaded schedule_1 (bytes "B")

reached-AtMostOne_example :
    ((c : Choice ℕ)
      → AtMostOne
          (state_of (reached 0 two_loaded schedule_1).engine (bytes "B"))
          (state_of (step c (reached 0 two_loaded schedule_1)).engine (bytes "B")))
    × ((more : List (Choice ℕ))
        → IsFinal (state_of (reached 0 two_loaded schedule_1).engine (bytes "B"))
        → state_of (play more (reached 0 two_loaded schedule_1)).engine (bytes "B")
          ≡ state_of (reached 0 two_loaded schedule_1).engine (bytes "B"))
reached-AtMostOne_example = reached-AtMostOne 0 two_loaded schedule_1 (bytes "B") two_IsLoaded

latch_counts_example :
    (left : ℕ) × ((reached 0 two_loaded schedule_1).engine.completion_latch ≡ some left)
    × (left + finals (reached 0 two_loaded schedule_1).engine (config_ids two_loaded.node_configs)
        ≡ length two_loaded.node_configs
          + total count_downs (reached 0 two_loaded schedule_1).threads)
    × (0 < total count_downs (reached 0 two_loaded schedule_1).threads → 0 < left)
latch_counts_example = latch_counts 0 two_loaded two_IsLoaded schedule_1

run_terminates_example :
    ((cs : List (Choice ℕ))
      → AllGo
          (edges two_loaded.node_configs)
          (config_ids two_loaded.node_configs)
          cs
          (begin 0 two_loaded)
      → length cs
        ≤ measure
            (edges two_loaded.node_configs)
            (config_ids two_loaded.node_configs)
            (begin 0 two_loaded).engine
            (begin 0 two_loaded).threads)
    × ((cs : List (Choice ℕ))
        → IsIdle (reached 0 two_loaded cs).threads
          ⊎ ((i : ℕ) × CanGo i (reached 0 two_loaded cs).threads))
run_terminates_example = run_terminates 0 two_loaded two_IsLoaded
