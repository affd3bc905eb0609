-- ===== src/Engine/Run/Attempts.antt =====
-- The middle of WorkflowEngine::executeNode (src/WorkflowEngine.cpp): the registry creates a node
-- (core/PluginRegistry.cpp), and the wrapper runs it with its retries (include/NodeExecutionWrapper.h).
-- A factory throws standard exceptions only.
use cpp20_workflow_engine.Shared.{
  ℕ, zero, suc, ◌<◌, ◌≡◌, ◌⊎◌, ◌↔◌, refl, subst, inl, inr, true, false, Bool-cases, Option, [], ◌∷◌,
  ◌++◌, arith, Bytes, bytes,
}
use cpp20_workflow_engine.Shared.Int.{ℤ, suc_ℤ, rounds}
use cpp20_workflow_engine.Node.{NodeResult, make_node_error, node_result_ok}
use cpp20_workflow_engine.Node.Wrapper.{Execute, execute_once, attempts, execute, attempt}
use cpp20_workflow_engine.Registry.{made, threw, Created, created, unknown_type, Registry, create}
use cpp20_workflow_engine.Engine.{NodeRuntimeState, Engine}
use cpp20_workflow_engine.Engine.Run.{
  execute as execute_node, store_success, store_failed, Attempt, registry_error, finished,
  next_store, Thread, act,
}

-- The text of the exception of `create`.
abbrev unknown_node_type : Bytes → Bytes
unknown_node_type type =
    bytes "PluginRegistry: unknown node type '"
    ++ (type ++ bytes "'. Did you forget to register it?")

-- A node is the pointer that the factory returns; `S` is the state of the world that both see.
unfoldable pub attempt_node :
    {S : Type 0} → Registry S (Option (Execute S)) → NodeRuntimeState → S → Attempt × S
unfolding create execute
attempt_node r st w = elim (create st.type w r) [
  | unknown_type type ↦ (registry_error (unknown_node_type type), w)
  | created m ↦ elim m [
    | threw what ↦ (registry_error what, w)
    | made node ↦ let (state, result, w') = execute node st.max_retries w in (finished result, w')
  ]
]

module _ {S : Type 0} where
  -- One of the first `n` attempts ends without an error.
  abbrev pub SomeSucceeds : Option (Execute S) → ℕ → S → Type 0
  SomeSucceeds impl n w = (k : ℕ) × (k < n) × (node_result_ok (attempt impl k w) ≡ true)

  later :
      (impl : Option (Execute S)) (n k : ℕ) (w : S)
      → k < suc n
      → node_result_ok (attempt impl k w) ≡ true
      → node_result_ok (execute_once impl w).0 ≡ false
      → SomeSucceeds impl n (execute_once impl w).1
  later impl n zero w lt good bad = cc
  later impl n (suc k) w lt good bad = (k, omega arith, good)

  attempts_ok :
      (impl : Option (Execute S)) (n : ℕ) (last : NodeResult) (w : S)
      → node_result_ok last ≡ false
      → (node_result_ok (attempts impl n last w).1 ≡ true) ↔ SomeSucceeds impl n w
  unfolding attempts
  attempts_ok impl zero last w bad = (λ h. cc, λ (k, lt, h). absurd (omega arith))
  attempts_ok impl (suc n) last w bad = elim (Bool-cases (node_result_ok (execute_once impl w).0)) [
    | inl good ↦ rw (attempts, good) (λ h. (0, omega arith, good), λ h. good)
    | inr failed ↦
        let (there, back) =
          attempts_ok impl n (execute_once impl w).0 (execute_once impl w).1 failed in
        rw (attempts, failed)
          (
            λ h. let (k, lt, ok) = there h in (suc k, omega arith, ok),
            λ (k, lt, ok). back (later impl n k w lt ok failed),
          )
  ]

  execute_ok :
      (impl : Option (Execute S)) (max_retries : ℤ) (w : S)
      → (node_result_ok (execute impl max_retries w).1 ≡ true)
        ↔ SomeSucceeds impl (rounds (suc_ℤ max_retries)) w
  unfolding execute
  execute_ok impl max_retries w =
      attempts_ok impl (rounds (suc_ℤ max_retries)) (make_node_error 0 (bytes "not executed")) w
        refl

  -- The node that the registry makes succeeds within its retries.
  abbrev pub Succeeds : Registry S (Option (Execute S)) → NodeRuntimeState → S → Type 0
  Succeeds r st w =
      (impl : Option (Execute S)) × (create st.type w r ≡ created (made impl))
      × SomeSucceeds impl (rounds (suc_ℤ st.max_retries)) w

  -- What executeNode goes on to store after an attempt.
  abbrev Stores : Registry S (Option (Execute S)) → NodeRuntimeState → S → Bytes → Attempt → Type 0
  Stores r st w id a =
      ((◌≡◌ {A = Thread} (next_store id a ∷ []) (store_success id ∷ [])) ↔ Succeeds r st w)
      × ((◌≡◌ {A = Thread} (next_store id a ∷ []) (store_success id ∷ []))
          ⊎ (◌≡◌ {A = Thread} (next_store id a ∷ []) (store_failed id ∷ [])))

  Created-cases :
      (c : Created (Option (Execute S)))
      → ((type : Bytes) × (c ≡ unknown_type type))
        ⊎ (((what : Bytes) × (c ≡ created (threw what)))
            ⊎ ((impl : Option (Execute S)) × (c ≡ created (made impl))))
  Created-cases (unknown_type type) = inl (type, refl)
  Created-cases (created (threw what)) = inr (inl (what, refl))
  Created-cases (created (made impl)) = inr (inr (impl, refl))

  attempt_node-Stores :
      (r : Registry S (Option (Execute S))) (st : NodeRuntimeState) (w : S) (id : Bytes)
      → Stores r st w id (attempt_node r st w).0
  unfolding attempt_node
  attempt_node-Stores r st w id = elim (Created-cases (create st.type w r)) [
    | inl (type, e) ↦ rw (attempt_node, e) ((λ h. cc, λ (impl, e', s). cc), inr refl)
    | inr (inl (what, e)) ↦ rw (attempt_node, e) ((λ h. cc, λ (impl, e', s). cc), inr refl)
    | inr (inr (impl, e)) ↦ elim (Bool-cases (node_result_ok (execute impl st.max_retries w).1)) [
      | inl good ↦
          rw (attempt_node, e, good)
            ((λ h. (impl, refl, (execute_ok impl st.max_retries w).0 good), λ s. refl), inl refl)
      | inr bad ↦
          rw (attempt_node, e, bad)
            (
              (
                λ h. cc,
                λ (other, e', s).
                    let same : other ≡ impl = cc in
                    let n = rounds (suc_ℤ st.max_retries) in
                    let good =
                      (execute_ok impl st.max_retries w).1
                        (subst (λ o. SomeSucceeds o n w) same s) in
                    cc,
              ),
              inr refl,
            )
    ]
  ]

  -- The attempt of a node that the engine executes, made by the registry and the wrapper: the task that
  -- executes it goes on to store Success exactly if the registry has a factory for its type which makes
  -- a node, and one of its max_retries + 1 attempts ends without an error; else it stores Failed.
  pub attempt_node-store :
      {Ctx : Type 0} (r : Registry S (Option (Execute S))) (e : Engine Ctx) (ctx : Ctx) (id : Bytes)
      (w : S)
      → (((act (attempt_node r (e.node_states id) w).0 ctx (execute_node id) e).front
            ≡ store_success id ∷ [])
          ↔ Succeeds r (e.node_states id) w)
        × (((act (attempt_node r (e.node_states id) w).0 ctx (execute_node id) e).front
              ≡ store_success id ∷ [])
            ⊎ ((act (attempt_node r (e.node_states id) w).0 ctx (execute_node id) e).front
                ≡ store_failed id ∷ []))
  unfolding act
  attempt_node-store r e ctx id w = attempt_node-Stores r (e.node_states id) w id
