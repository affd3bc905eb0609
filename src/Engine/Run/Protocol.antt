-- ===== src/Engine/Run/Protocol.antt =====
-- The states that a node goes through in a run (include/NodeState.h, src/WorkflowEngine.cpp).
use cpp20_workflow_engine.Shared.{
  ℕ, ◌≤◌, ◌<◌, ◌≡◌, ◌⊎◌, refl, ap, sym, subst, ◌∙◌, inl, inr, Bool-cases, List, [], ◌∷◌, arith,
  Bytes, str_eq, str_eq_iff, str_eq_refl, count, IsDistinct,
}
use cpp20_workflow_engine.Shared.Int.{ℤ, pred_ℤ}
use cpp20_workflow_engine.Dag.{Edge, targets}
use cpp20_workflow_engine.Node.{NodeState, pending, running, success, failed, cancelled}
use cpp20_workflow_engine.Engine.{Engine, edges, config_ids}
use cpp20_workflow_engine.Engine.Load.Validate.{IsLoaded}
use cpp20_workflow_engine.Engine.Run.{
  Action, schedule, execute, store_success, store_failed, tally_success, tally_failure,
  tally_cancelled, count_down, notify_each, cancel_each, cancel_stack, schedule_each, Attempt,
  is_pending, set_state, set_uncompleted, act, Thread, Machine, Choice, step, play,
}
use cpp20_workflow_engine.Engine.Run.Count.{total, owns, advance_cases}
use cpp20_workflow_engine.Engine.Run.Invariant.{Inv, state_of, is_running}
use cpp20_workflow_engine.Engine.Run.Light.{is_pending_iff}
use cpp20_workflow_engine.Engine.Run.Finish.{known_of, reached, reached-Inv, step-Inv}

-- What a node in one state may do next; one that succeeded, failed or was cancelled does nothing more.
pub data Transition : NodeState → NodeState → Type 0 where
  starts : Transition pending running
  succeeds : Transition running success
  fails : Transition running failed
  is_cancelled : Transition pending cancelled

-- At most one transition.
pub data AtMostOne : NodeState → NodeState → Type 0 where
  stays : {s : NodeState} → AtMostOne s s
  goes : {s t : NodeState} → Transition s t → AtMostOne s t

-- A final state.
abbrev pub IsFinal : NodeState → Type 0
IsFinal s = (s ≡ success) ⊎ (s ≡ failed) ⊎ (s ≡ cancelled)

abbrev Remains : NodeState → NodeState → Type 0
Remains s t = IsFinal s → t ≡ s

Transition-Remains : {s t : NodeState} → Transition s t → Remains s t
Transition-Remains starts h = absurd (ground arith)
Transition-Remains succeeds h = absurd (ground arith)
Transition-Remains fails h = absurd (ground arith)
Transition-Remains is_cancelled h = absurd (ground arith)

AtMostOne-Remains : {s t : NodeState} → AtMostOne s t → Remains s t
AtMostOne-Remains stays h = refl
AtMostOne-Remains (goes m) h = Transition-Remains m h

is_running_iff : (s : NodeState) → 0 < is_running s → s ≡ running
is_running_iff s h = ground arith

module _ {Ctx : Type 0} where
  -- Where one node makes a transition, every node does or stays.
  set_state-AtMostOne :
      (e : Engine Ctx) (id : Bytes) (s t : NodeState) (v : Bytes)
      → state_of e id ≡ s
      → Transition s t
      → AtMostOne (state_of e v) (state_of (set_state e id t) v)
  set_state-AtMostOne e id s t v was m = elim (Bool-cases (str_eq v id)) [
    | inl here ↦
        let at : state_of e v ≡ s = ap (state_of e) ((str_eq_iff v id).0 here) ∙ was in
        let now : state_of (set_state e id t) v ≡ t = ground (arith, here) in rw (now, at) (goes m)
    | inr there ↦
        let same : state_of (set_state e id t) v ≡ state_of e v = ground (arith, there) in
        rw same stays
  ]

  set_uncompleted-same :
      (e : Engine Ctx) (d : Bytes) (k : ℤ) (v : Bytes)
      → state_of (set_uncompleted e d k) v ≡ state_of e v
  set_uncompleted-same e d k v = ground (arith, str_eq_iff v d)

  module _ (es : List Edge) (ids : List Bytes) (e : Engine Ctx) (ts : List Thread)
      (h : Inv es ids e ts) (attempt : Attempt) (ctx : Ctx) where
    owner_runs : (id : Bytes) → 1 ≤ total (owns id) ts → state_of e id ≡ running
    owner_runs id p = is_running_iff (state_of e id) (omega (arith, h.owner id))

    act-AtMostOne :
        (a : Action) (v : Bytes)
        → ((f : Action → ℕ) → f a ≤ total f ts)
        → AtMostOne (state_of e v) (state_of (act attempt ctx a e).engine v)
    unfolding act
    act-AtMostOne (schedule id) v here = elim (Bool-cases (is_pending (state_of e id))) [
      | inl free ↦
          rw free (set_state-AtMostOne e id pending running v (is_pending_iff _ free) starts)
      | inr taken ↦ rw taken stays
    ]
    act-AtMostOne (execute id) v here = stays
    act-AtMostOne (store_success id) v here =
        set_state-AtMostOne e id running success v
          (owner_runs id (ground (arith, here (owns id), str_eq_refl id))) succeeds
    act-AtMostOne (store_failed id) v here =
        set_state-AtMostOne e id running failed v
          (owner_runs id (ground (arith, here (owns id), str_eq_refl id))) fails
    act-AtMostOne tally_success v here = stays
    act-AtMostOne tally_failure v here = stays
    act-AtMostOne tally_cancelled v here = stays
    act-AtMostOne count_down v here = rw h.latch stays
    act-AtMostOne (notify_each []) v here = stays
    act-AtMostOne (notify_each (d ∷ ds)) v here =
        rw (set_uncompleted-same e d (pred_ℤ (e.node_states d).uncompleted_deps) v) stays
    act-AtMostOne (cancel_each []) v here = stays
    act-AtMostOne (cancel_each (d ∷ ds)) v here = stays
    act-AtMostOne (cancel_stack []) v here = stays
    act-AtMostOne (cancel_stack (id ∷ stack)) v here =
        elim (Bool-cases (is_pending (state_of e id))) [
          | inl free ↦
              rw free
                (set_state-AtMostOne e id pending cancelled v (is_pending_iff _ free) is_cancelled)
          | inr taken ↦ rw taken stays
        ]
    act-AtMostOne (schedule_each []) v here = stays
    act-AtMostOne (schedule_each (d ∷ ds)) v here = stays

  module _ (es : List Edge) (ids : List Bytes) (distinct : IsDistinct ids)
      (known : (u v : Bytes) → 0 < count v (targets es u) → 0 < count v ids) where
    step-AtMostOne :
        (c : Choice Ctx) (m : Machine Ctx) (v : Bytes)
        → Inv es ids m.engine m.threads
        → AtMostOne (state_of m.engine v) (state_of (step c m).engine v)
    unfolding step
    step-AtMostOne c m v h = elim (advance_cases c.thread c.attempt c.ctx m.engine m.threads) [
      | inl same ↦ rw same stays
      | inr took ↦
          rw took.engine
            (act-AtMostOne es ids m.engine m.threads h c.attempt c.ctx took.action v took.present)
    ]

    play-Remains :
        (cs : List (Choice Ctx)) (m : Machine Ctx) (v : Bytes)
        → Inv es ids m.engine m.threads
        → Remains (state_of m.engine v) (state_of (play cs m).engine v)
    unfolding play
    play-Remains [] m v h final = refl
    play-Remains (c ∷ cs) m v h final =
        let same = AtMostOne-Remains (step-AtMostOne c m v h) final in
        play-Remains cs (step c m) v (step-Inv es ids distinct known c m h)
          (subst IsFinal (sym same) final)
        ∙ same

  -- From a loaded engine, after any schedule: one more step of any thread leaves the state of a node, or
  -- changes it from Pending to Running or Cancelled or from Running to Success or Failed, and in no
  -- other way; and if the node has succeeded, failed or been cancelled, its state stays so whatever the
  -- threads do from there on.
  pub reached-AtMostOne :
      (cleared : Ctx) (e : Engine Ctx) (cs : List (Choice Ctx)) (v : Bytes)
      → IsLoaded e
      → ((c : Choice Ctx)
          → AtMostOne
              (state_of (reached cleared e cs).engine v)
              (state_of (step c (reached cleared e cs)).engine v))
        × ((more : List (Choice Ctx))
            → IsFinal (state_of (reached cleared e cs).engine v)
            → state_of (play more (reached cleared e cs)).engine v
              ≡ state_of (reached cleared e cs).engine v)
  reached-AtMostOne cleared e cs v l =
      let es = edges e.node_configs in
      let ids = config_ids e.node_configs in
      let inv = reached-Inv cleared e cs l in
      (
        λ c. step-AtMostOne es ids l.distinct (known_of e) c (reached cleared e cs) v inv,
        λ more. play-Remains es ids l.distinct (known_of e) more (reached cleared e cs) v inv,
      )
