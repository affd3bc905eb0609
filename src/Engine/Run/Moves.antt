-- ===== src/Engine/Run/Moves.antt =====
-- A change of one node's state, seen in the sums over dependencies and over nodes.
use cpp20_workflow_engine.Shared.{
  ℕ, ◌+◌, ◌≡◌, ◌∙◌, ap, true, List, arith, Bytes, str_eq, str_eq_iff, count,
}
use cpp20_workflow_engine.Dag.{Edge, targets}
use cpp20_workflow_engine.Node.{NodeState}
use cpp20_workflow_engine.Engine.{Engine}
use cpp20_workflow_engine.Engine.Run.{set_state}
use cpp20_workflow_engine.Engine.Run.Count.{one}
use cpp20_workflow_engine.Engine.Run.Invariant.{
  state_of, into, into-eq, into-less, weigh, weigh-eq, weigh-less,
}

module _ {Ctx : Type 0} (e : Engine Ctx) (id : Bytes) (old new : NodeState)
    (was : state_of e id ≡ old) (w : NodeState → ℕ) where
  abbrev before : Bytes → ℕ
  before u = w (state_of e u)

  abbrev after : Bytes → ℕ
  after u = w (state_of (set_state e id new) u)

  at_id : (u : Bytes) → str_eq u id ≡ true → before u ≡ w old
  at_id u h = ap before ((str_eq_iff u id).0 h) ∙ ap w was

  kept_point : w old ≡ w new → (u : Bytes) → after u ≡ before u
  kept_point h u = ground (arith, at_id u)

  less_point : w old ≡ 1 → w new ≡ 0 → (u : Bytes) → before u ≡ one u id + after u
  less_point h k u = ground (arith, at_id u)

  more_point : w old ≡ 0 → w new ≡ 1 → (u : Bytes) → after u ≡ one u id + before u
  more_point h k u = ground (arith, at_id u)

  pub into_kept : (es : List Edge) (v : Bytes) → w old ≡ w new → into es after v ≡ into es before v
  into_kept es v h = into-eq es v (kept_point h)

  pub into_less :
      (es : List Edge) (v : Bytes)
      → w old ≡ 1
      → w new ≡ 0
      → into es before v ≡ count v (targets es id) + into es after v
  into_less es v h k = into-less es before after id v (less_point h k)

  pub into_more :
      (es : List Edge) (v : Bytes)
      → w old ≡ 0
      → w new ≡ 1
      → into es after v ≡ count v (targets es id) + into es before v
  into_more es v h k = into-less es after before id v (more_point h k)

  pub weigh_kept : (ks : List Bytes) → w old ≡ w new → weigh after ks ≡ weigh before ks
  weigh_kept ks h = weigh-eq ks (kept_point h)

  pub weigh_more :
      (ks : List Bytes) → w old ≡ 0 → w new ≡ 1 → weigh after ks ≡ count id ks + weigh before ks
  weigh_more ks h k = weigh-less ks after before id (more_point h k)
