-- ===== src/Engine/Run/Light.antt =====
-- The operations that change no state of a node.
use cpp20_workflow_engine.Shared.{
  ℕ, ◌+◌, ◌≤◌, ◌≡◌, refl, inl, inr, true, false, Bool-cases, List, [], ◌∷◌, arith, Bytes, str_eq,
  str_eq_iff,
}
use cpp20_workflow_engine.Node.{NodeState, pending, running, success, failed, cancelled}
use cpp20_workflow_engine.Engine.{Engine}
use cpp20_workflow_engine.Engine.Run.{
  Action, schedule, execute, tally_success, tally_failure, tally_cancelled, notify_each,
  cancel_each, cancel_stack, schedule_each, Thread, Attempt, is_pending, act,
}
use cpp20_workflow_engine.Engine.Run.Count.{
  sum_of, total, owns, schedules, notifies, cancels, names, count_downs,
}
use cpp20_workflow_engine.Engine.Run.Invariant.{Lighter, state_of}

pub is_pending_iff : (s : NodeState) → is_pending s ≡ true → s ≡ pending
is_pending_iff pending h = refl
is_pending_iff running h = cc
is_pending_iff success h = cc
is_pending_iff failed h = cc
is_pending_iff cancelled h = cc

module _ {Ctx : Type 0} (attempt : Attempt) (ctx : Ctx) (e : Engine Ctx) where
  -- What one operation adds to a count.
  abbrev pub made : (Action → ℕ) → Action → ℕ
  made f a = sum_of f (act attempt ctx a e).front + total f (act attempt ctx a e).posted

  -- An operation that changes no state, and gives up only what no pending node needs.
  pub record IsLight (a : Action) : Type 0 where
    pub same : (act attempt ctx a e).engine.node_states ≡ e.node_states
    pub latches : (act attempt ctx a e).engine.completion_latch ≡ e.completion_latch
    pub downs : made count_downs a ≡ count_downs a
    pub named : (v : Bytes) → made (names v) a ≤ names v a
    pub owned : (v : Bytes) → made (owns v) a ≡ owns v a
    pub notified : (v : Bytes) → made (notifies v) a ≡ notifies v a
    pub scheduled : (v : Bytes) → made (schedules v) a ≤ schedules v a
    pub kept : (v : Bytes) → state_of e v ≡ pending → schedules v a ≤ made (schedules v) a
    pub cancelling : (v : Bytes) → made (cancels v) a ≤ cancels v a
    pub doomed : (v : Bytes) → state_of e v ≡ pending → cancels v a ≤ made (cancels v) a

  pub execute-IsLight : (id : Bytes) → IsLight (execute id)
  unfolding act
  execute-IsLight id = ground arith

  pub tally_success-IsLight : IsLight tally_success
  unfolding act
  tally_success-IsLight = ground arith

  pub tally_failure-IsLight : IsLight tally_failure
  unfolding act
  tally_failure-IsLight = ground arith

  pub tally_cancelled-IsLight : IsLight tally_cancelled
  unfolding act
  tally_cancelled-IsLight = ground arith

  pub notify_nil-IsLight : IsLight (notify_each [])
  unfolding act
  notify_nil-IsLight = ground arith

  pub cancel_each-IsLight : (ds : List Bytes) → IsLight (cancel_each ds)
  unfolding act
  cancel_each-IsLight [] = ground arith
  cancel_each-IsLight (d ∷ ds) = ground arith

  pub schedule_each-IsLight : (ds : List Bytes) → IsLight (schedule_each ds)
  unfolding act
  schedule_each-IsLight [] = ground arith
  schedule_each-IsLight (d ∷ ds) = ground arith

  pub stack_nil-IsLight : IsLight (cancel_stack [])
  unfolding act
  stack_nil-IsLight = ground arith

  -- A lost race on the state of a node.
  pub schedule_late-IsLight :
      (id : Bytes) → is_pending (state_of e id) ≡ false → IsLight (schedule id)
  unfolding act
  schedule_late-IsLight id h = record {
    same = ground arith;
    latches = ground arith;
    downs = ground arith;
    named = λ v. ground arith;
    owned = λ v. ground arith;
    notified = λ v. ground arith;
    scheduled = λ v. ground arith;
    kept = λ v p. ground (arith, str_eq_iff v id, other v p);
    cancelling = λ v. ground arith;
    doomed = λ v p. ground (arith, str_eq_iff v id, other v p);
  }
    where
      other : (v : Bytes) → state_of e v ≡ pending → str_eq v id ≡ false
      other v p = elim (Bool-cases (str_eq v id)) [
        | inl same ↦
            let q : is_pending (state_of e id) ≡ true = rw (← (str_eq_iff v id).0 same, p) refl in
            cc (q, h)
        | inr new ↦ new
      ]

  pub stack_late-IsLight :
      (id : Bytes) (st : List Bytes)
      → is_pending (state_of e id) ≡ false
      → IsLight (cancel_stack (id ∷ st))
  unfolding act
  stack_late-IsLight id st h = record {
    same = ground arith;
    latches = ground arith;
    downs = ground arith;
    named = λ v. ground arith;
    owned = λ v. ground arith;
    notified = λ v. ground arith;
    scheduled = λ v. ground arith;
    kept = λ v p. ground (arith, str_eq_iff v id, other v p);
    cancelling = λ v. ground arith;
    doomed = λ v p. ground (arith, str_eq_iff v id, other v p);
  }
    where
      other : (v : Bytes) → state_of e v ≡ pending → str_eq v id ≡ false
      other v p = elim (Bool-cases (str_eq v id)) [
        | inl same ↦
            let q : is_pending (state_of e id) ≡ true = rw (← (str_eq_iff v id).0 same, p) refl in
            cc (q, h)
        | inr new ↦ new
      ]

  pub IsLight-Lighter :
      {ts ts' : List Thread} (a : Action)
      → ((f : Action → ℕ) → total f ts' + f a ≡ total f ts + made f a)
      → IsLight a
      → Lighter e (act attempt ctx a e).engine ts ts'
  IsLight-Lighter a tot l = record {
    same = l.same;
    latches = l.latches;
    downs = omega (arith, tot count_downs, l.downs);
    named = λ v. omega (arith, tot (names v), l.named v);
    owned = λ v. omega (arith, tot (owns v), l.owned v);
    notified = λ v. omega (arith, tot (notifies v), l.notified v);
    scheduled = λ v. omega (arith, tot (schedules v), l.scheduled v);
    kept = λ v p. omega (arith, tot (schedules v), l.kept v p);
    cancelling = λ v. omega (arith, tot (cancels v), l.cancelling v);
    doomed = λ v p. omega (arith, tot (cancels v), l.doomed v p);
  }
