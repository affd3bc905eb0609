-- ===== src/Engine/Run.antt =====
-- WorkflowEngine::run, scheduleNode, executeNode, cancelNodeAndDownstream and waitForCompletion
-- (src/WorkflowEngine.cpp). A thread is the list of the atomic operations on shared state that it
-- still has to make; a schedule picks the thread that makes the next one. The pool starts every
-- task in a thread of its own, which allows all the interleavings of fewer workers.
-- Logging and times are left out.
pub mod Count
pub mod Invariant
pub mod Light
pub mod Moves
pub mod Stores
pub mod Steps
pub mod Begin
pub mod Finish
pub mod Outcome
pub mod Measure
pub mod Unique
pub mod Protocol
pub mod Attempts
use cpp20_workflow_engine.Shared.{
  ℕ, zero, suc, ◌-◌, Bool, true, false, Option, none, some, List, [], ◌∷◌, ◌++◌, length,
  if◌then◌else◌, Bytes, update,
}
use cpp20_workflow_engine.Shared.Int.{ℤ, pos, pred_ℤ, is_pos}
use cpp20_workflow_engine.Node.{
  NodeState, pending, running, success, failed, cancelled, NodeResult, node_result_ok,
  EngineMetrics, record_success, record_failure, record_cancelled,
}
use cpp20_workflow_engine.Engine.{NodeConfig, NodeRuntimeState, Engine}

-- `schedule` and `execute` are scheduleNode and the task that it posts. The `store`s are the writes
-- of a final state, with the rest of executeNode to follow. The `each`s are loops over lists of ids,
-- and `cancel_stack` is the loop of cancelNodeAndDownstream, the top of its stack first.
pub data Action : Type 0 where
  schedule : Bytes → Action
  execute : Bytes → Action
  store_success : Bytes → Action
  store_failed : Bytes → Action
  tally_success tally_failure tally_cancelled : Action
  count_down : Action
  notify_each : List Bytes → Action
  cancel_each : List Bytes → Action
  cancel_stack : List Bytes → Action
  schedule_each : List Bytes → Action

abbrev pub Thread : Type 0
Thread = List Action

-- How the creation and the wrapped execution of a node end.
pub data Attempt : Type 0 where
  registry_error : Bytes → Attempt
  finished : NodeResult → Attempt

-- The write that executeNode makes next.
abbrev pub next_store : Bytes → Attempt → Action
next_store id (registry_error what) = store_failed id
next_store id (finished r) = if node_result_ok r then store_success id else store_failed id

-- `compare_exchange_strong(Pending, …)`
abbrev pub is_pending : NodeState → Bool
is_pending pending = true
is_pending running = false
is_pending success = false
is_pending failed = false
is_pending cancelled = false

-- `stack.push_back` for each id of a list.
abbrev pub push_all : List Bytes → List Bytes → List Bytes
push_all [] stack = stack
push_all (d ∷ ds) stack = push_all ds (d ∷ stack)

-- What a thread does next to the shared state, what it has to do then, and the tasks it posts.
pub record Effect (Ctx : Type 0) : Type 0 where
  pub engine : Engine Ctx
  pub front : Thread
  pub posted : List Thread

pub record Machine (Ctx : Type 0) : Type 0 where
  pub engine : Engine Ctx
  pub threads : List Thread

-- A choice of the environment: the thread that goes on, and how a node that it starts ends.
pub record Choice (Ctx : Type 0) : Type 0 where
  pub thread : ℕ
  pub attempt : Attempt
  pub ctx : Ctx

-- `run`: the exceptions, or the state with the thread of the caller, which schedules the roots.
pub data Started (Ctx : Type 0) : Type 0 where
  no_nodes already_running : Started Ctx
  started : Machine Ctx → Started Ctx

-- The ids of the nodes without dependencies.
unfoldable pub root_ids : List NodeConfig → List Bytes
root_ids [] = []
root_ids (c ∷ cs) = elim c.dependencies [ [] ↦ c.id ∷ root_ids cs | _ ∷ _ ↦ root_ids cs ]

module _ {Ctx : Type 0} where
  abbrev pub set_state : Engine Ctx → Bytes → NodeState → Engine Ctx
  set_state e id s = record e {
    node_states = update e.node_states id (record (e.node_states id) { node_state = s });
  }

  abbrev pub set_uncompleted : Engine Ctx → Bytes → ℤ → Engine Ctx
  set_uncompleted e id k = record e {
    node_states = update e.node_states id (record (e.node_states id) { uncompleted_deps = k });
  }

  abbrev pub plain : Engine Ctx → Thread → Effect Ctx
  plain e front = record { engine = e; front = front; posted = [] }

  -- `attempt` and `ctx` are how the node runs and the context that it and the others leave.
  unfoldable pub act : Attempt → Ctx → Action → Engine Ctx → Effect Ctx
  act attempt ctx (schedule id) e =
      if is_pending (e.node_states id).node_state
      then record { engine = set_state e id running; front = []; posted = (execute id ∷ []) ∷ [] }
      else plain e []
  act attempt ctx (execute id) e =
      plain (record e { execution_ctx = ctx }) (next_store id attempt ∷ [])
  act attempt ctx (store_success id) e =
      plain (set_state e id success)
        (tally_success ∷ count_down ∷ notify_each (e.node_states id).downstream ∷ [])
  act attempt ctx (store_failed id) e =
      plain (set_state e id failed)
        (tally_failure ∷ count_down ∷ cancel_each (e.node_states id).downstream ∷ [])
  act attempt ctx tally_success e = plain (record e { metrics = record_success e.metrics }) []
  act attempt ctx tally_failure e = plain (record e { metrics = record_failure e.metrics }) []
  act attempt ctx tally_cancelled e = plain (record e { metrics = record_cancelled e.metrics }) []
  act attempt ctx count_down e =
      plain
        (elim e.completion_latch [
          | none ↦ e
          | some n ↦ record e { completion_latch = some (n - 1) }
        ])
        []
  act attempt ctx (notify_each []) e = plain e []
  act attempt ctx (notify_each (d ∷ ds)) e =
      let k = (e.node_states d).uncompleted_deps in
      plain (set_uncompleted e d (pred_ℤ k))
        (if is_pos 1 k then schedule d ∷ notify_each ds ∷ [] else notify_each ds ∷ [])
  act attempt ctx (cancel_each []) e = plain e []
  act attempt ctx (cancel_each (d ∷ ds)) e = plain e (cancel_stack (d ∷ []) ∷ cancel_each ds ∷ [])
  act attempt ctx (cancel_stack []) e = plain e []
  act attempt ctx (cancel_stack (id ∷ stack)) e =
      if is_pending (e.node_states id).node_state
      then plain (set_state e id cancelled) (
          tally_cancelled
          ∷ count_down
          ∷ cancel_stack (push_all (e.node_states id).downstream stack)
          ∷ [])
      else plain e (cancel_stack stack ∷ [])
  act attempt ctx (schedule_each []) e = plain e []
  act attempt ctx (schedule_each (d ∷ ds)) e = plain e (schedule d ∷ schedule_each ds ∷ [])

  -- Thread number `i` makes its next operation; without such a thread, or with nothing left to do
  -- for it, nothing happens.
  unfoldable pub advance : ℕ → Attempt → Ctx → Engine Ctx → List Thread → Machine Ctx
  advance i attempt ctx e [] = record { engine = e; threads = [] }
  advance zero attempt ctx e ([] ∷ ts) = record { engine = e; threads = [] ∷ ts }
  advance zero attempt ctx e ((a ∷ rest) ∷ ts) =
      let r = act attempt ctx a e in
      record { engine = r.engine; threads = (r.front ++ rest) ∷ ts ++ r.posted }
  advance (suc i) attempt ctx e (t ∷ ts) =
      let m = advance i attempt ctx e ts in record { engine = m.engine; threads = t ∷ m.threads }

  unfoldable pub step : Choice Ctx → Machine Ctx → Machine Ctx
  unfolding advance
  step c m = advance c.thread c.attempt c.ctx m.engine m.threads

  unfoldable pub play : List (Choice Ctx) → Machine Ctx → Machine Ctx
  play [] m = m
  play (c ∷ cs) m = play cs (step c m)

  -- The reset of the per-run state.
  unfoldable pub reset : List NodeConfig → Engine Ctx → Engine Ctx
  reset [] e = e
  reset (c ∷ cs) e = reset cs (record e {
    node_states = update e.node_states c.id (record (e.node_states c.id) {
      uncompleted_deps = pos (length c.dependencies);
      node_state = pending;
    });
  })

  -- `cleared` is an empty context.
  unfoldable pub begin : Ctx → Engine Ctx → Machine Ctx
  unfolding reset root_ids
  begin cleared e = record {
    engine =
        record (reset e.node_configs
          (record e { running = true; completion_latch = some (length e.node_configs) })) {
            execution_ctx = cleared;
          };
    threads = (schedule_each (root_ids e.node_configs) ∷ []) ∷ [];
  }

  unfoldable pub run : Ctx → Engine Ctx → Started Ctx
  unfolding begin
  run cleared e = elim e.node_configs [
    | [] ↦ no_nodes
    | _ ∷ _ ↦ if e.running then already_running else started (begin cleared e)
  ]

  -- `waitForCompletion`; `none` means that it blocks.
  unfoldable pub wait_for_completion : Engine Ctx → Option (Engine Ctx)
  wait_for_completion e = elim e.completion_latch [
    | none ↦ some (record e { running = false })
    | some zero ↦ some (record e { running = false })
    | some (suc _) ↦ none
  ]
