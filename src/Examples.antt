-- ===== src/Examples.antt =====
-- Small inputs on which the theorems apply: two nodes, B after A, and some commands and texts.
pub mod Runs
pub mod Loads
pub mod Printed
pub mod Parts
pub mod Client
pub mod Buffers
pub mod Texts
pub mod Analyzing
pub mod Edits
pub mod Editing
pub mod Edited
pub mod Sockets
pub mod Connecting
use cpp20_workflow_engine.Shared.{
  ℕ, ◌<◌, ◌≡◌, refl, sym, subst, true, false, Bool-cases, inl, inr, none, some, List, [], ◌∷◌, ◌++◌,
  arith, if◌then◌else◌, Bytes, str_eq, str_eq_iff, count, bytes,
}
use cpp20_workflow_engine.Shared.Int.{pos}
use cpp20_workflow_engine.Node.{EngineMetrics, make_node_success}
use cpp20_workflow_engine.Dag.{kahn_loop, roots, IsRanked}
use cpp20_workflow_engine.Engine.{NodeConfig, Engine, blank_state, edges}
use cpp20_workflow_engine.Engine.Load.{install}
use cpp20_workflow_engine.Engine.Load.Validate.{IsLoaded}
use cpp20_workflow_engine.Engine.Load.Correct.{install-IsLoaded}
use cpp20_workflow_engine.Engine.Run.{Choice, finished}

abbrev pub node_a : NodeConfig
node_a = record { id = bytes "A"; type = bytes "t"; dependencies = []; max_retries = pos 0 }

abbrev pub node_b : NodeConfig
node_b = record {
  id = bytes "B";
  type = bytes "t";
  dependencies = bytes "A" ∷ [];
  max_retries = pos 1;
}

-- The configuration in a ring: A after B as well.
abbrev pub node_a_after_b : NodeConfig
node_a_after_b = record node_a { dependencies = bytes "B" ∷ [] }

abbrev pub zeros : EngineMetrics
zeros = record { success_count = 0; failed_count = 0; cancelled_count = 0; hot_reload_count = 0 }

abbrev pub configured : List NodeConfig → Engine ℕ
configured cs = record {
  running = false;
  execution_ctx = 0;
  node_configs = cs;
  node_ids = [];
  node_states = λ _. blank_state;
  completion_latch = none;
  metrics = zeros;
}

abbrev pub as_inserted : List Bytes → List Bytes
as_inserted ks = ks

abbrev pub two : Engine ℕ
two = configured (node_a ∷ node_b ∷ [])

abbrev pub ring : Engine ℕ
ring = configured (node_a_after_b ∷ node_b ∷ [])

-- `two` after its loading, and `ring` after its refusal.
abbrev pub two_loaded : Engine ℕ
two_loaded = (install as_inserted two).0

abbrev pub ring_left : Engine ℕ
ring_left = (install as_inserted ring).0

pub two_installs : install as_inserted two ≡ (two_loaded, none)
unfolding install str_eq kahn_loop roots
two_installs = refl

pub two_IsLoaded : IsLoaded two_loaded
two_IsLoaded = (install-IsLoaded as_inserted two two_loaded (λ ks k. refl) two_installs).0

abbrev pub b_last : Bytes → ℕ
b_last v = if str_eq v (bytes "B") then 1 else 0

pub two_IsRanked : IsRanked (edges two.node_configs) b_last
two_IsRanked = record {
  grows = λ u v e.
      let from_a : u ≡ bytes "A" = (str_eq_iff u (bytes "A")).0 (ground arith) in
      let to_b : v ≡ bytes "B" = (str_eq_iff v (bytes "B")).0 (ground arith) in
      subst (λ t. b_last t < b_last v) (sym from_a)
        (subst (λ t. b_last (bytes "A") < b_last t) (sym to_b) a_first);
}
  where
    a_first : b_last (bytes "A") < b_last (bytes "B")
    a_first = unfold str_eq in omega arith

-- The next operation of thread `i`; a node that it executes succeeds.
abbrev pub go : ℕ → Choice ℕ
go i = record { thread = i; attempt = finished make_node_success; ctx = 7 }

-- A whole run of `two`, and one in which the thread of the caller ends last.
abbrev pub schedule_1 : List (Choice ℕ)
schedule_1 =
    go 0
    ∷ go 0
    ∷ go 0
    ∷ go 1
    ∷ go 1
    ∷ go 1
    ∷ go 1
    ∷ go 1
    ∷ go 1
    ∷ go 1
    ∷ go 2
    ∷ go 2
    ∷ go 2
    ∷ go 2
    ∷ go 2
    ∷ []

abbrev pub schedule_2 : List (Choice ℕ)
schedule_2 =
    go 0
    ∷ go 0
    ∷ go 1
    ∷ go 1
    ∷ go 1
    ∷ go 1
    ∷ go 1
    ∷ go 1
    ∷ go 1
    ∷ go 2
    ∷ go 2
    ∷ go 2
    ∷ go 2
    ∷ go 2
    ∷ go 0
    ∷ []
