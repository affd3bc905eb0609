-- ===== src/Examples/Loads.antt =====
-- Configurations that are accepted and refused.
use cpp20_workflow_engine.Shared.{
  ℕ, zero, suc, ◌<◌, ◌≤◌, ◌≡◌, ◌≢◌, ◌↔◌, ◌⊎◌, refl, true, Option, none, some, List, [], ◌∷◌, arith,
  if◌then◌else◌, str_eq, str_eq_iff, Bytes, bytes, count,
}
use cpp20_workflow_engine.Dag.{has_edge, kahn_loop, roots, stuck, IsRanked}
use cpp20_workflow_engine.Engine.{edges, config_ids}
use cpp20_workflow_engine.Engine.Read.{cycle}
use cpp20_workflow_engine.Engine.Load.{valid, cyclic, validate_dag, install}
use cpp20_workflow_engine.Engine.Load.Validate.{IsLoaded, validate_dag-valid, validate_dag-cyclic}
use cpp20_workflow_engine.Engine.Load.Correct.{
  linked, install-IsLoaded, install-keeps-cycle, install_accepts,
}
use cpp20_workflow_engine.Json.{out_of_fuel, parse_value}
use cpp20_workflow_engine.Json.Progress.{parse_value-terminates}
use cpp20_workflow_engine.Builder.{
  Reader, Tables, good, fails, no_tables, collect, wire, check_cycles, Checked, Flow, build_nodes,
}
use cpp20_workflow_engine.Builder
use cpp20_workflow_engine.Registry.{Registry, made}
use cpp20_workflow_engine.Builder.Tasks.{AllRegistered, ArcsAre}
use cpp20_workflow_engine.Builder.Arcs.{ids_of, build_nodes-flow}
use cpp20_workflow_engine.Builder.Edges.{declared}
use cpp20_workflow_engine.Builder.Cycles.{check_cycles-decides}
use cpp20_workflow_engine.Examples.{
  as_inserted, two, two_loaded, two_installs, two_IsLoaded, two_IsRanked, b_last, ring, ring_left,
}

abbrev both : List Bytes
both = bytes "A" ∷ bytes "B" ∷ []

validate_dag-valid_example :
    (validate_dag as_inserted two_loaded ≡ valid)
    ↔ ((rank : Bytes → ℕ) × IsRanked (edges two_loaded.node_configs) rank)
validate_dag-valid_example = validate_dag-valid as_inserted (λ ks k. refl) two_loaded two_IsLoaded

install-IsLoaded_example :
    IsLoaded two_loaded
    × (two_loaded.node_configs ≡ two.node_configs)
    × ((rank : Bytes → ℕ) × IsRanked (edges two_loaded.node_configs) rank)
install-IsLoaded_example = install-IsLoaded as_inserted two two_loaded (λ ks k. refl) two_installs

ring_refused : install as_inserted ring ≡ (ring_left, some (cycle both))
unfolding install str_eq kahn_loop roots stuck
ring_refused = refl

install-keeps-cycle_example :
    IsLoaded ring_left
    × (ring_left.node_configs ≡ ring.node_configs)
    × ¬ ((rank : Bytes → ℕ) × IsRanked (edges ring_left.node_configs) rank)
install-keeps-cycle_example =
    install-keeps-cycle as_inserted ring ring_left both (λ ks k. refl) ring_refused

ring_IsLoaded : IsLoaded ring_left
ring_IsLoaded = (install-keeps-cycle as_inserted ring ring_left both (λ ks k. refl) ring_refused).0

ring_cyclic : validate_dag as_inserted ring_left ≡ cyclic both
unfolding install validate_dag str_eq kahn_loop roots stuck
ring_cyclic = refl

validate_dag-cyclic_example :
    (both ≢ [])
    × ((v : Bytes)
        → 0 < count v both
        → (u : Bytes) × (has_edge (edges ring_left.node_configs) u v ≡ true) × (0 < count u both))
validate_dag-cyclic_example =
    validate_dag-cyclic as_inserted (λ ks k. refl) ring_left ring_IsLoaded both ring_cyclic

two_distinct : (k : Bytes) → count k (config_ids two.node_configs) ≤ 1
two_distinct k = ground (arith, str_eq_iff k (bytes "A"), str_eq_iff k (bytes "B"))

two_known :
    (u v : Bytes)
    → has_edge (edges two.node_configs) u v ≡ true
    → 0 < count u (config_ids two.node_configs)
two_known u v e = ground arith

install_accepts_example : install as_inserted two ≡ (linked two, none)
install_accepts_example =
    install_accepts as_inserted two b_last (λ ks k. refl) two_distinct two_known two_IsRanked

abbrev no_number : Bytes → Option ℕ
no_number s = none

parse_value-terminates_example : parse_value no_number 5 (bytes "[1") ≢ out_of_fuel
parse_value-terminates_example = parse_value-terminates no_number refl 5 (bytes "[1") (omega arith)

-- Two descriptors, as numbers: 0 is A, and 1 is B after A; 2 is the text "A".
abbrev name_of : ℕ → Option Bytes
name_of zero = some (bytes "A")
name_of (suc zero) = some (bytes "B")
name_of (suc (suc n)) = some (bytes "A")

abbrev deps_of : ℕ → Option (List ℕ)
deps_of zero = none
deps_of (suc n) = some (2 ∷ [])

abbrev reader : Reader ℕ
reader = record {
  parse = λ s. some 0;
  items = λ n. some (0 ∷ 1 ∷ []);
  id_of = name_of;
  type_of = λ n. some (bytes "t");
  deps = deps_of;
  text = name_of;
}

abbrev described : List ℕ
described = 0 ∷ 1 ∷ []

abbrev outcome : {A : Type 0} → A → Checked A → A
outcome other (good a) = a
outcome other (fails err) = other

abbrev collected : Tables
collected = outcome no_tables (collect reader described no_tables)

abbrev wired : Tables
wired = outcome no_tables (wire reader described collected)

collects : collect reader described no_tables ≡ good collected
unfolding collect str_eq
collects = refl

wires : wire reader described collected ≡ good wired
unfolding wire collect str_eq
wires = refl

check_cycles-decides_example :
    ((check_cycles reader as_inserted described ≡ good wired)
      × ((rank : Bytes → ℕ) × IsRanked (declared reader described) rank))
    ⊎ ((ids : List Bytes) × (check_cycles reader as_inserted described ≡ fails (Builder.cycle ids))
        × ¬ ((rank : Bytes → ℕ) × IsRanked (declared reader described) rank))
check_cycles-decides_example =
    check_cycles-decides reader as_inserted (λ ks k. refl) described collected wired collects wires

-- A registry with the one type, and the flow of the two descriptors.
abbrev registry : Registry ℕ ℕ
registry = λ type. if str_eq type (bytes "t") then some (λ w. made w) else none

abbrev flow : Flow
flow = record {
  tasks =
      record { name = bytes "A"; type = bytes "t" }
      ∷ record { name = bytes "B"; type = bytes "t" }
      ∷ [];
  arcs = (0, 1) ∷ [];
}

builds : build_nodes reader as_inserted registry described ≡ good flow
unfolding build_nodes collect wire kahn_loop roots str_eq
builds = refl

build_nodes-flow_example :
    (both ≡ ids_of reader described)
    × AllRegistered registry flow.tasks
    × ArcsAre flow.tasks flow.arcs (declared reader described)
    × ((rank : Bytes → ℕ) × IsRanked (declared reader described) rank)
build_nodes-flow_example =
    build_nodes-flow reader registry as_inserted described flow (λ ks k. refl) builds
