-- ===== src/Engine/Run/Unique.antt =====
-- Two runs of one engine compared (src/WorkflowEngine.cpp).
use cpp20_workflow_engine.Shared.{
  ℕ, zero, suc, ◌≤◌, ◌<◌, ◌≡◌, refl, ap, inl, inr, true, Bool-cases, List, [], ◌∷◌, arith, ◌==◌,
  Bytes, str_eq_refl, count,
}
use cpp20_workflow_engine.Dag.{Edge, has_edge, IsRanked}
use cpp20_workflow_engine.Node.{NodeState, cancelled}
use cpp20_workflow_engine.Engine.{Engine, edges, config_ids}
use cpp20_workflow_engine.Engine.Load.Validate.{IsLoaded}
use cpp20_workflow_engine.Engine.Run.{Choice}
use cpp20_workflow_engine.Engine.Run.Invariant.{
  into, state_of, waiting, not_success, has_run, is_final,
}
use cpp20_workflow_engine.Engine.Run.Finish.{IsIdle, reached}
use cpp20_workflow_engine.Engine.Run.Outcome.{run_outcome, run_completes}

into-on_edges :
    (es : List Edge) (w w' : Bytes → ℕ) (v : Bytes)
    → ((u : Bytes) → has_edge es u v ≡ true → w' u ≡ w u)
    → into es w' v ≡ into es w v
into-on_edges [] w w' v h = refl
into-on_edges ((d, x) ∷ es) w w' v h =
    ground (arith, into-on_edges es w w' v (λ u p. h u (ground arith)), h d, str_eq_refl d)

cancelled_of : (s : NodeState) → is_final s ≡ 1 → has_run s ≡ 0 → s ≡ cancelled
cancelled_of s f h = ground arith

has_run-le : (s : NodeState) → has_run s ≤ 1
has_run-le s = ground arith

module _ {Ctx : Type 0} (cleared : Ctx) (e : Engine Ctx) (l : IsLoaded e) (rank : Bytes → ℕ)
    (r : IsRanked (edges e.node_configs) rank) (cs ds : List (Choice Ctx))
    (idle : IsIdle (reached cleared e cs).threads) (idle' : IsIdle (reached cleared e ds).threads)
    (agree : (v : Bytes)
      → has_run (state_of (reached cleared e cs).engine v) ≡ 1
      → has_run (state_of (reached cleared e ds).engine v) ≡ 1
      → state_of (reached cleared e cs).engine v ≡ state_of (reached cleared e ds).engine v) where
  same_below :
      (n : ℕ) (v : Bytes)
      → rank v < n
      → 0 < count v (config_ids e.node_configs)
      → state_of (reached cleared e cs).engine v ≡ state_of (reached cleared e ds).engine v
  same_below zero v h node = absurd (omega arith)
  same_below (suc n) v h node =
      let first = run_outcome cleared e l cs rank r idle v node in
      let second = run_outcome cleared e l ds rank r idle' v node in
      let final = (run_completes cleared e l cs rank r idle).0 v node in
      let final' = (run_completes cleared e l ds rank r idle').0 v node in
      let waits =
        into-on_edges (edges e.node_configs)
          (λ u. not_success (state_of (reached cleared e ds).engine u))
          (λ u. not_success (state_of (reached cleared e cs).engine u)) v
          (λ u edge.
            ap not_success (same_below n u (omega (arith, r.grows u v edge)) (l.known u v edge))) in
      elim (Bool-cases (waiting (edges e.node_configs) (reached cleared e cs).engine v == 0)) [
        | inl ready ↦ agree v (first.0.1 (ground arith)) (second.0.1 (ground arith))
        | inr waiting' ↦ ground (
          arith,
          cancelled_of (state_of (reached cleared e cs).engine v) final,
          cancelled_of (state_of (reached cleared e ds).engine v) final',
          has_run-le (state_of (reached cleared e cs).engine v),
          has_run-le (state_of (reached cleared e ds).engine v),
          first.0.0,
          second.0.0,
        )
      ]

  -- From a loaded engine whose graph has a ranking: two runs with no work left, in which every node
  -- that both have run ended the same way, leave every node in the same state, whatever their
  -- schedules were.
  pub outcome_unique :
      (v : Bytes)
      → 0 < count v (config_ids e.node_configs)
      → state_of (reached cleared e cs).engine v ≡ state_of (reached cleared e ds).engine v
  outcome_unique v = same_below (suc (rank v)) v (omega arith)
