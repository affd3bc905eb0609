-- ===== src/Engine.antt =====
-- WorkflowEngine (include/WorkflowEngine.h, src/WorkflowEngine.cpp): its data. The member functions
-- are in the children: `Load` has loadConfig and validateDAG, `Run` the execution of a DAG.
pub mod Read
pub mod Load
pub mod Run
use cpp20_workflow_engine.Shared.{ℕ, Bool, Option, List, [], ◌∷◌, ◌++◌, map, Bytes}
use cpp20_workflow_engine.Shared.Int.{ℤ, pos}
use cpp20_workflow_engine.Node.{NodeState, pending, EngineMetrics}
use cpp20_workflow_engine.Dag.{Edge}

pub record NodeConfig : Type 0 where
  pub id : Bytes
  pub type : Bytes
  pub dependencies : List Bytes
  pub max_retries : ℤ

-- `enqueue_time`, which only the log reads, is left out.
pub record NodeRuntimeState : Type 0 where
  pub id : Bytes
  pub type : Bytes
  pub downstream : List Bytes
  pub uncompleted_deps : ℤ
  pub node_state : NodeState
  pub max_retries : ℤ

-- `std::make_unique<NodeRuntimeState>()`, also what `node_states` holds at an id that is no key.
abbrev pub blank_state : NodeRuntimeState
blank_state = record {
  id = [];
  type = [];
  downstream = [];
  uncompleted_deps = pos 0;
  node_state = pending;
  max_retries = pos 0;
}

-- `node_ids` are the keys of `node_states_`, in the order of their insertion. The execution context
-- is of any type: the engine only clears it and hands it to the nodes.
pub record Engine (Ctx : Type 0) : Type 0 where
  pub running : Bool
  pub execution_ctx : Ctx
  pub node_configs : List NodeConfig
  pub node_ids : List Bytes
  pub node_states : Bytes → NodeRuntimeState
  pub completion_latch : Option ℕ
  pub metrics : EngineMetrics

-- The edges (dependency, dependant) that the configuration declares.
abbrev pub edges : List NodeConfig → List Edge
edges [] = []
edges (c ∷ cs) = map (λ d. (d, c.id)) c.dependencies ++ edges cs

abbrev pub config_ids : List NodeConfig → List Bytes
config_ids = map (λ c. c.id)
