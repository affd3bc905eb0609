-- ===== src/Node.antt =====
-- The states of a node, what one execution of it yields, and the engine's counters:
-- include/NodeState.h and include/EngineMetrics.h.
pub mod Wrapper
use cpp20_workflow_engine.Shared.{ℕ, ◌+◌, ◌%◌, ◌^◌, Bool, true, false, Bytes}
use cpp20_workflow_engine.Shared.Int.{ℤ}

pub data NodeState : Type 0 where
  pending running success failed cancelled : NodeState

pub record NodeError : Type 0 where
  pub code : ℕ
  pub message : Bytes

-- `std::variant<std::monostate, NodeError>`, or `std::expected<void, NodeError>`.
pub data NodeResult : Type 0 where
  monostate : NodeResult
  error : NodeError → NodeResult

abbrev pub make_node_success : NodeResult
make_node_success = monostate

abbrev pub make_node_error : ℕ → Bytes → NodeResult
make_node_error code msg = error (record { code = code; message = msg })

abbrev pub node_result_ok : NodeResult → Bool
node_result_ok monostate = true
node_result_ok (error e) = false

-- `fetch_add` on a `uint64_t`.
abbrev pub add : ℕ → ℕ → ℕ
add value n = (value + n) % 2 ^ 64

pub record EngineMetrics : Type 0 where
  pub success_count : ℕ
  pub failed_count : ℕ
  pub cancelled_count : ℕ
  pub hot_reload_count : ℕ

abbrev pub record_success : EngineMetrics → EngineMetrics
record_success m = record m { success_count = add m.success_count 1 }

abbrev pub record_failure : EngineMetrics → EngineMetrics
record_failure m = record m { failed_count = add m.failed_count 1 }

abbrev pub record_cancelled : EngineMetrics → EngineMetrics
record_cancelled m = record m { cancelled_count = add m.cancelled_count 1 }

abbrev pub record_hot_reload : EngineMetrics → EngineMetrics
record_hot_reload m = record m { hot_reload_count = add m.hot_reload_count 1 }
