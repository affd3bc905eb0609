-- ===== src/Node/Wrapper.antt =====
-- NodeExecutionWrapper (include/NodeExecutionWrapper.h): sandboxed execution with retries.
use cpp20_workflow_engine.Shared.{
  ℕ, zero, suc, ◌≤◌, ◌<◌, ◌≡◌, refl, true, false, Option, none, some, ◌++◌, arith, if◌then◌else◌,
  Bytes, bytes,
}
use cpp20_workflow_engine.Shared.Int.{ℤ, pos, negsuc, suc_ℤ, rounds}
use cpp20_workflow_engine.Node.{
  NodeState, success, failed, NodeResult, monostate, error, make_node_success, make_node_error,
  node_result_ok,
}

-- How a call of the plugin's `execute` ends.
pub data Outcome : Type 0 where
  returned : Outcome
  std_exception : Bytes → Outcome
  unknown_exception : Outcome

-- A call of a node's `execute`, on the state of the world that it sees: the context, its own
-- fields, and whatever else decides how it ends.
pub record Called (S : Type 0) : Type 0 where
  pub outcome : Outcome
  pub world : S

abbrev pub Execute : Type 0 → Type 0
Execute S = S → Called S

-- The handlers of `executeOnce`.
unfoldable pub caught : Outcome → NodeResult
caught returned = make_node_success
caught (std_exception what) = make_node_error 2 (bytes "plugin exception: " ++ what)
caught unknown_exception = make_node_error 3 (bytes "plugin threw unknown exception")

ok_is_monostate : (r : NodeResult) → node_result_ok r ≡ true → r ≡ make_node_success
ok_is_monostate monostate h = refl
ok_is_monostate (error e) h = cc

module _ {S : Type 0} where
  -- `executeOnce`; `none` is a null node pointer.
  unfoldable pub execute_once : Option (Execute S) → S → NodeResult × S
  unfolding caught
  execute_once none w = (make_node_error 1 (bytes "null plugin node"), w)
  execute_once (some node) w = let c = node w in (caught c.outcome, c.world)

  -- The retry loop, with the attempts that are left and `last_result`.
  unfoldable pub attempts : Option (Execute S) → ℕ → NodeResult → S → NodeState × NodeResult × S
  attempts _ zero last w = (failed, last, w)
  attempts node (suc k) last w =
      let (r, w') = execute_once node w in
      let retry = attempts node k r w' in if node_result_ok r then (success, r, w') else retry

  -- `execute`: the final `state_`, the result, and the world left behind.
  unfoldable pub execute : Option (Execute S) → ℤ → S → NodeState × NodeResult × S
  unfolding attempts execute_once
  execute node max_retries w =
      attempts node (rounds (suc_ℤ max_retries)) (make_node_error 0 (bytes "not executed")) w

  -- The world after some failed or successful attempts.
  abbrev pub world_after : Option (Execute S) → ℕ → S → S
  world_after _ zero w = w
  world_after node (suc k) w = world_after node k (execute_once node w).1

  abbrev pub attempt : Option (Execute S) → ℕ → S → NodeResult
  attempt node k w = (execute_once node (world_after node k w)).0

  -- Each of the first `k` attempts fails.
  abbrev pub AllFail : Option (Execute S) → ℕ → S → Type 0
  AllFail node k w = (j : ℕ) → j < k → node_result_ok (attempt node j w) ≡ false

  attempts-success :
      (node : Option (Execute S)) (n k : ℕ) (last : NodeResult) (w : S)
      → k < n
      → AllFail node k w
      → node_result_ok (attempt node k w) ≡ true
      → attempts node n last w ≡ (success, make_node_success, world_after node (suc k) w)
  unfolding attempts
  attempts-success _ zero k last w lt f h = absurd (omega arith)
  attempts-success node (suc n) zero last w lt f h =
      rw (h, ok_is_monostate (execute_once node w).0 h) refl
  attempts-success node (suc n) (suc k) last w lt f h = rw (f 0 (omega arith)) (
      attempts-success node n k (execute_once node w).0 (execute_once node w).1 (omega arith)
        (λ j p. f (suc j) (omega arith)) h)

  attempts-failed :
      (node : Option (Execute S)) (n : ℕ) (last : NodeResult) (w : S)
      → AllFail node (suc n) w
      → attempts node (suc n) last w ≡ (failed, attempt node n w, world_after node (suc n) w)
  unfolding attempts
  attempts-failed impl zero last w f = rw (f 0 (omega arith)) refl
  attempts-failed impl (suc n) last w f = rw (f 0 (omega arith)) (
      attempts-failed impl n (execute_once impl w).0 (execute_once impl w).1
        (λ j p. f (suc j) (omega arith)))

  -- If attempt `k`, counted from 0, is the first to succeed and is within the retries, the node ends
  -- with success, and the world is the one after k + 1 calls.
  pub execute-success :
      (node : Option (Execute S)) (max_retries k : ℕ) (w : S)
      → k ≤ max_retries
      → AllFail node k w
      → node_result_ok (attempt node k w) ≡ true
      → execute node (pos max_retries) w ≡ (success, make_node_success, world_after node (suc k) w)
  unfolding execute
  execute-success node max_retries k w h f ok =
      attempts-success node (suc max_retries) k (make_node_error 0 (bytes "not executed")) w
        (omega arith) f ok

  -- If the first attempt and every retry fail, the node ends with failure and the result of the last
  -- attempt, and the world is the one after max_retries + 1 calls.
  pub execute-failed :
      (node : Option (Execute S)) (max_retries : ℕ) (w : S)
      → AllFail node (suc max_retries) w
      → execute node (pos max_retries) w
        ≡ (failed, attempt node max_retries w, world_after node (suc max_retries) w)
  unfolding execute
  execute-failed node max_retries w f =
      attempts-failed node max_retries (make_node_error 0 (bytes "not executed")) w f

  -- With a negative number of retries the node is never run, and counts as failed.
  pub execute-negative :
      (node : Option (Execute S)) (n : ℕ) (w : S)
      → execute node (negsuc n) w ≡ (failed, make_node_error 0 (bytes "not executed"), w)
  unfolding execute
  execute-negative _ zero w = refl
  execute-negative _ (suc n) w = refl
