-- ===== src/Engine/Read.antt =====
-- The loop of WorkflowEngine::loadConfig over the "nodes" array (src/WorkflowEngine.cpp).
use cpp20_workflow_engine.Shared.{Option, none, some, List, [], ◌∷◌, Bytes, bytes}
use cpp20_workflow_engine.Shared.Int.{ℤ, pos}
use cpp20_workflow_engine.Json.{
  JsonValue, number, string, array, object, Items, nil, cons, Fields, get_field,
}
use cpp20_workflow_engine.Engine.{NodeConfig}

-- The exceptions of `loadConfig`, with what their texts name. `no_fuel` is the model's own.
pub data LoadError : Type 0 where
  cannot_open invalid_number root_not_object missing_nodes missing_id : LoadError
  missing_type : Bytes → LoadError
  duplicate_id : Bytes → LoadError
  unknown_dependency : Bytes → Bytes → LoadError
  cycle : List Bytes → LoadError
  no_fuel : LoadError

unfoldable pub text_of : {N : Type 0} → Option (JsonValue N) → Option Bytes
text_of none = none
text_of (some (string t)) = some t
text_of (some v) = none

unfoldable pub texts : {N : Type 0} → Items N → List Bytes
texts nil = []
texts (cons (string t) vs) = t ∷ texts vs
texts (cons v vs) = texts vs

unfoldable pub dependencies_of : {N : Type 0} → Option (JsonValue N) → List Bytes
unfolding texts
dependencies_of none = []
dependencies_of (some (array xs)) = texts xs
dependencies_of (some v) = []

-- `to_int` is the conversion of a `double` to `int`.
unfoldable pub retries_of : {N : Type 0} → (N → ℤ) → Option (JsonValue N) → ℤ
retries_of to_int none = pos 0
retries_of to_int (some (number n)) = to_int n
retries_of to_int (some v) = pos 0

-- One round of the loop over the "nodes" array.
pub data ReadNode : Type 0 where
  node : NodeConfig → ReadNode
  skipped : ReadNode
  bad : LoadError → ReadNode

unfoldable pub read_fields : {N : Type 0} → (N → ℤ) → Fields N → ReadNode
unfolding text_of dependencies_of retries_of get_field
read_fields to_int fs = elim (text_of (get_field fs (bytes "id"))) [
  | none ↦ bad missing_id
  | some id ↦ elim (text_of (get_field fs (bytes "type"))) [
    | none ↦ bad (missing_type id)
    | some type ↦ node (record {
      id = id;
      type = type;
      dependencies = dependencies_of (get_field fs (bytes "dependencies"));
      max_retries = retries_of to_int (get_field fs (bytes "max_retries"));
    })
  ]
]

unfoldable pub read_node : {N : Type 0} → (N → ℤ) → JsonValue N → ReadNode
unfolding read_fields
read_node to_int (object fs) = read_fields to_int fs
read_node to_int v = skipped

-- The configurations pushed before the loop ended, and the exception that ended it.
unfoldable pub read_nodes : {N : Type 0} → (N → ℤ) → Items N → List NodeConfig × Option LoadError
unfolding read_node
read_nodes to_int nil = ([], none)
read_nodes to_int (cons v vs) =
    let (cs, e) = read_nodes to_int vs in
    elim (read_node to_int v) [
      | node c ↦ (c ∷ cs, e)
      | skipped ↦ (cs, e)
      | bad err ↦ ([], some err)
    ]
