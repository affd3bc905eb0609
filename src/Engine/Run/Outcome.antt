-- ===== src/Engine/Run/Outcome.antt =====
-- What a run of WorkflowEngine promises, whatever the schedule and the behaviour of the nodes.
use cpp20_workflow_engine.Shared.{
  ℕ, zero, suc, ◌+◌, ◌≤◌, ◌<◌, ◌≡◌, ◌↔◌, ◌⊎◌, ◌∙◌, ap, inl, inr, true, false, some, List, [], arith,
  length, length-map, Bool-cases, ◌==◌, if◌then◌else◌, Bytes, count,
}
use cpp20_workflow_engine.Dag.{Edge, has_edge, IsRanked}
use cpp20_workflow_engine.Node.{success, failed, cancelled}
use cpp20_workflow_engine.Engine.{NodeConfig, Engine, edges, config_ids}
use cpp20_workflow_engine.Engine.Load.Validate.{IsLoaded}
use cpp20_workflow_engine.Engine.Run.{registry_error, Action, Choice, wait_for_completion}
use cpp20_workflow_engine.Engine.Run.Count.{total, owns, schedules, notifies, cancels, count_downs}
use cpp20_workflow_engine.Engine.Run.Invariant.{
  Inv, state_of, waiting, spoilt, finals, not_success, is_bad, has_run, is_final, is_running,
}
use cpp20_workflow_engine.Engine.Run.Steps.{latch_pos}
use cpp20_workflow_engine.Engine.Run.Finish.{
  into-source, into-pos, into_mono, bad-le, weigh-full, IsIdle, total-idle, all_succeeded,
  one_spoilt, known_of, reached, reached-Inv,
}

module _ {Ctx : Type 0} where
  module _ (cleared : Ctx) (e : Engine Ctx) (l : IsLoaded e) (cs : List (Choice Ctx)) where
    abbrev now : Engine Ctx
    now = (reached cleared e cs).engine

    abbrev graph : List Edge
    graph = edges e.node_configs

    -- From a loaded engine, after any schedule and whatever the nodes do: a node runs, or has run, only
    -- if all its dependencies succeeded; a cancelled node has a dependency that failed or was
    -- cancelled; and a node in state Running has one task that is to run it or to write its final
    -- state, any other has none.
    pub reached_safe :
        (v : Bytes)
        → (0 < has_run (state_of now v)
            → (u : Bytes) → has_edge graph u v ≡ true
            → state_of now u ≡ success)
          × (state_of now v ≡ cancelled
              → (u : Bytes) × (has_edge graph u v ≡ true)
                × ((state_of now u ≡ failed) ⊎ (state_of now u ≡ cancelled)))
          × (total (owns v) (reached cleared e cs).threads
              ≡ (if is_running (state_of now v) == 1 then 1 else 0))
    reached_safe v = (
      λ ran u edge. all_succeeded graph now u v (inv.ran v ran) edge,
      λ fell. one_spoilt graph now v (inv.fell v fell),
      ground (arith, inv.owner v),
    )
      where
        inv : Inv graph (config_ids e.node_configs) now (reached cleared e cs).threads
        inv = reached-Inv cleared e cs l

    -- From a loaded engine, after any schedule: the latch and the number of final nodes add up to the
    -- number of nodes and of count-downs that are still to come, and while one is to come the latch is
    -- not at zero, so that no count-down takes it below.
    pub latch_counts :
        (left : ℕ) × (now.completion_latch ≡ some left)
        × (left + finals now (config_ids e.node_configs)
            ≡ length e.node_configs + total count_downs (reached cleared e cs).threads)
        × (0 < total count_downs (reached cleared e cs).threads → 0 < left)
    latch_counts =
        let inv = reached-Inv cleared e cs l in
        (
          inv.left,
          inv.latch,
          omega (arith, inv.balance, length-map (λ (c : NodeConfig). c.id) e.node_configs),
          latch_pos graph (config_ids e.node_configs) l.distinct (known_of e) (registry_error [])
              cleared now (reached cleared e cs).threads [] inv,
        )

    module _ (rank : Bytes → ℕ) (r : IsRanked graph rank)
        (idle : IsIdle (reached cleared e cs).threads) where
      inv' : Inv graph (config_ids e.node_configs) now (reached cleared e cs).threads
      inv' = reached-Inv cleared e cs l

      nothing : (f : Action → ℕ) → total f (reached cleared e cs).threads ≡ 0
      nothing f = total-idle f (reached cleared e cs).threads idle

      -- Without work left, a node whose dependencies are final is final.
      final_of_deps :
          (v : Bytes)
          → 0 < count v (config_ids e.node_configs)
          → ((u : Bytes) → has_edge graph u v ≡ true → is_final (state_of now u) ≡ 1)
          → is_final (state_of now v) ≡ 1
      final_of_deps v node deps = elim (Bool-cases (waiting graph now v == 0)) [
        | inl open' ↦ ground (
          arith,
          inv'.ready v node,
          inv'.owner v,
          nothing (owns v),
          nothing (schedules v),
          nothing (notifies v),
        )
        | inr waits ↦
            let (u, edge, late) =
              into-source graph (λ x. not_success (state_of now x)) v (ground arith) in
            ground (
              arith,
              deps u edge,
              into-pos graph (λ x. is_bad (state_of now x)) u v edge,
              inv'.doomed v,
              inv'.owner v,
              nothing (owns v),
              nothing (cancels v),
            )
      ]

      final_below :
          (n : ℕ) (v : Bytes)
          → rank v < n
          → 0 < count v (config_ids e.node_configs)
          → is_final (state_of now v) ≡ 1
      final_below zero v h node = absurd (omega arith)
      final_below (suc n) v h node =
          final_of_deps v node
            (λ u edge. final_below n u (omega (arith, r.grows u v edge)) (l.known u v edge))

      all_final :
          (v : Bytes) → 0 < count v (config_ids e.node_configs) → is_final (state_of now v) ≡ 1
      all_final v = final_below (suc (rank v)) v (omega arith)

      latch_zero : now.completion_latch ≡ some 0
      latch_zero =
          inv'.latch
          ∙ ap some (
              omega (
                arith,
                inv'.balance,
                nothing count_downs,
                weigh-full (config_ids e.node_configs) (λ u. is_final (state_of now u)) all_final,
              ))

      -- From a loaded engine whose graph has a ranking, after any schedule that leaves no thread work:
      -- every node is final, and waitForCompletion returns and ends the run.
      pub run_completes :
          ((v : Bytes) → 0 < count v (config_ids e.node_configs) → is_final (state_of now v) ≡ 1)
          × (wait_for_completion now ≡ some (record now { running = false }))
      unfolding wait_for_completion
      run_completes = (all_final, simp (latch_zero, wait_for_completion))

      -- From a loaded engine whose graph has a ranking, after any schedule that leaves no thread work:
      -- a node was run exactly if all its dependencies succeeded, and cancelled exactly if one of them
      -- failed or was cancelled.
      pub run_outcome :
          (v : Bytes)
          → 0 < count v (config_ids e.node_configs)
          → ((has_run (state_of now v) ≡ 1) ↔ (waiting graph now v ≡ 0))
            × ((state_of now v ≡ cancelled) ↔ (0 < spoilt graph now v))
      run_outcome v node = (
        (
          λ ran. inv'.ran v (omega arith),
          λ w. ground (arith, all_final v node, inv'.fell v, spoilt-le),
        ),
        (inv'.fell v, λ s. ground (arith, all_final v node, inv'.ran v, spoilt-le)),
      )
        where
          spoilt-le : spoilt graph now v ≤ waiting graph now v
          spoilt-le =
              into_mono graph (λ x. is_bad (state_of now x)) (λ x. not_success (state_of now x)) v
                (λ u. bad-le (state_of now u))
