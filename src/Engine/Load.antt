-- ===== src/Engine/Load.antt =====
-- WorkflowEngine::loadConfig, validateDAG and onConfigChanged (src/WorkflowEngine.cpp).
pub mod Degrees
pub mod States
pub mod Validate
pub mod Correct
use cpp20_workflow_engine.Shared.{
  ℕ, zero, suc, ◌+◌, ◌*◌, Bool, true, false, Option, none, some, List, [], ◌∷◌, ◌++◌, length, ◌==◌,
  ltb, if◌then◌else◌, Bytes, bytes, count, update,
}
use cpp20_workflow_engine.Shared.Int.{ℤ, pos}
use cpp20_workflow_engine.Node.{record_hot_reload}
use cpp20_workflow_engine.Json.{
  JsonValue, array, object, ok, throws, out_of_fuel, parse_value, get_field,
}
use cpp20_workflow_engine.Dag.{Kahn, kahn_loop, roots, stuck}
use cpp20_workflow_engine.Engine.{NodeConfig, NodeRuntimeState, blank_state, Engine, config_ids}
use cpp20_workflow_engine.Engine.Read.{
  LoadError, cannot_open, invalid_number, root_not_object, missing_nodes, duplicate_id,
  unknown_dependency, cycle, no_fuel, read_nodes,
}

abbrev pub new_state : NodeConfig → NodeRuntimeState
new_state c = record blank_state { id = c.id; type = c.type; max_retries = c.max_retries }

-- The initial in-degrees of `validateDAG`.
unfoldable pub degrees : List NodeConfig → (Bytes → ℤ) → Bytes → ℤ
degrees [] m = m
degrees (c ∷ cs) m = degrees cs (update m c.id (pos (length c.dependencies)))

pub data Verdict : Type 0 where
  valid : Verdict
  cyclic : List Bytes → Verdict
  endless : Verdict

module _ {Ctx : Type 0} where
  -- `node_states_.count(id) != 0`
  abbrev pub has_node : Engine Ctx → Bytes → Bool
  has_node e k = ltb 0 (count k e.node_ids)

  -- The loop that makes the runtime states.
  unfoldable pub build_states : List NodeConfig → Engine Ctx → Engine Ctx × Option LoadError
  build_states [] e = (e, none)
  build_states (c ∷ cs) e =
      let rest = build_states cs (record e {
        node_ids = e.node_ids ++ c.id ∷ [];
        node_states = update e.node_states c.id (new_state c);
      }) in
      if has_node e c.id then (e, some (duplicate_id c.id)) else rest

  -- The loops that look for an unknown dependency.
  unfoldable pub unknown_in : Engine Ctx → Bytes → List Bytes → Option LoadError
  unknown_in e id [] = none
  unknown_in e id (d ∷ ds) =
      if has_node e d then unknown_in e id ds else some (unknown_dependency id d)

  unfoldable pub unknown_deps : Engine Ctx → List NodeConfig → Option LoadError
  unfolding unknown_in
  unknown_deps e [] = none
  unknown_deps e (c ∷ cs) = elim (unknown_in e c.id c.dependencies) [
    | none ↦ unknown_deps e cs
    | some err ↦ some err
  ]

  -- `node_states_.at(dep)->downstream.push_back(cfg.id)`
  abbrev pub push_downstream : Bytes → Bytes → Engine Ctx → Engine Ctx
  push_downstream id d e =
      let s = e.node_states d in
      record e {
        node_states = update e.node_states d (record s { downstream = s.downstream ++ id ∷ [] });
      }

  unfoldable pub link_node : Bytes → List Bytes → Engine Ctx → Engine Ctx
  link_node id [] e = e
  link_node id (d ∷ ds) e = link_node id ds (push_downstream id d e)

  unfoldable pub link : List NodeConfig → Engine Ctx → Engine Ctx
  unfolding link_node
  link [] e = e
  link (c ∷ cs) e = link cs (link_node c.id c.dependencies e)

  -- `order` lists the keys of the map of in-degrees as the container iterates over them.
  unfoldable pub validate_dag : (List Bytes → List Bytes) → Engine Ctx → Verdict
  unfolding degrees
  validate_dag order e =
      let in_degree = degrees e.node_configs (λ _. pos 0) in
      let keys = order (config_ids e.node_configs) in
      let start : Kahn = record {
        in_degree = in_degree;
        queue = roots in_degree keys;
        visited = 0;
      } in
      elim (kahn_loop (λ u. (e.node_states u).downstream) (length e.node_configs) start) [
        | none ↦ endless
        | some t ↦
            if t.visited == length e.node_configs then valid else cyclic (stuck t.in_degree keys)
      ]

  -- `loadConfig` from "build NodeRuntimeState map" on.
  unfoldable pub install : (List Bytes → List Bytes) → Engine Ctx → Engine Ctx × Option LoadError
  unfolding build_states unknown_deps link validate_dag
  install order e =
      let (e1, err) =
        build_states e.node_configs (record e { node_ids = []; node_states = λ _. blank_state }) in
      elim err [
        | some x ↦ (e1, some x)
        | none ↦ elim (unknown_deps e1 e1.node_configs) [
          | some x ↦ (e1, some x)
          | none ↦
              let e2 = link e1.node_configs e1 in
              elim (validate_dag order e2) [
                | valid ↦ (e2, none)
                | cyclic ids ↦ (e2, some (cycle ids))
                | endless ↦ (e2, some no_fuel)
              ]
        ]
      ]

  module _ {N : Type 0} (stod : Bytes → Option N) (to_int : N → ℤ)
      (order : List Bytes → List Bytes) where
    unfoldable pub load_nodes : Option (JsonValue N) → Engine Ctx → Engine Ctx × Option LoadError
    unfolding read_nodes install
    load_nodes (some (array xs)) e =
        let (cs, err) = read_nodes to_int xs in
        let e1 = record e { node_configs = cs } in
        elim err [ some x ↦ (e1, some x) | none ↦ install order e1 ]
    load_nodes v e = (e, some missing_nodes)

    unfoldable pub load_root : JsonValue N → Engine Ctx → Engine Ctx × Option LoadError
    unfolding load_nodes
    load_root (object fs) e = load_nodes (get_field fs (bytes "nodes")) e
    load_root v e = (e, some root_not_object)

    -- `file` is the content of the configuration file, if it can be opened.
    unfoldable pub load_config : Option Bytes → Engine Ctx → Engine Ctx × Option LoadError
    unfolding load_root
    load_config none e = (e, some cannot_open)
    load_config (some text) e = elim (parse_value stod (suc (2 * length text)) text) [
      | throws ↦ (e, some invalid_number)
      | out_of_fuel ↦ (e, some no_fuel)
      | ok root rest ↦ load_root root e
    ]

    -- `onConfigChanged`: every exception is caught and logged.
    unfoldable pub on_config_changed : Option Bytes → Engine Ctx → Engine Ctx
    unfolding load_config
    on_config_changed file e =
        let (e1, err) = load_config file e in
        elim err [ none ↦ record e1 { metrics = record_hot_reload e1.metrics } | some x ↦ e1 ]
