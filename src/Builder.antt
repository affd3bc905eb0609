-- ===== src/Builder.antt =====
-- GraphBuilder (core/GraphBuilder.cpp). nlohmann::json is a parameter, and a tf::Taskflow is the
-- list of the calls that the builder makes on it.
pub mod Edges
pub mod Cycles
pub mod Tasks
pub mod Arcs
use cpp20_workflow_engine.Shared.{
  ℕ, zero, suc, ◌+◌, Bool, true, false, Option, none, some, List, [], ◌∷◌, ◌++◌, length, ◌==◌,
  if◌then◌else◌, Bytes, bytes, count, update,
}
use cpp20_workflow_engine.Shared.Int.{ℤ, pos, suc_ℤ}
use cpp20_workflow_engine.Dag.{Edge, Kahn, kahn_loop, roots, stuck}
use cpp20_workflow_engine.Registry.{Registry, has}

-- What the builder uses of nlohmann::json: `none` is an exception of the library, except that
-- `items` is `none` on a value that is no array and `deps` is `none` where the key is absent.
pub record Reader (J : Type 0) : Type 0 where
  pub parse : Bytes → Option J
  pub items : J → Option (List J)
  pub id_of : J → Option Bytes
  pub type_of : J → Option Bytes
  pub deps : J → Option (List J)
  pub text : J → Option Bytes

pub data BuildError : Type 0 where
  parse_error not_array bad_value endless : BuildError
  unknown_dependency : Bytes → Bytes → BuildError
  cycle : List Bytes → BuildError
  unregistered : Bytes → BuildError
  no_task : Bytes → BuildError

pub data Checked (A : Type 0) : Type 0 where
  good : A → Checked A
  fails : BuildError → Checked A

abbrev pub then_do : {A B : Type 0} → Checked A → (A → Checked B) → Checked B
then_do (good a) f = f a
then_do (fails err) f = fails err

-- The maps `in_degree` and `adj` of `check_cycles`, and their keys.
pub record Tables : Type 0 where
  pub ids : List Bytes
  pub in_degree : Bytes → ℤ
  pub adj : Bytes → List Bytes

abbrev pub no_tables : Tables
no_tables = record { ids = []; in_degree = λ _. pos 0; adj = λ _. [] }

-- `in_degree.emplace(id, 0); adj.emplace(id, {})`: nothing for a key that is there.
unfoldable pub emplace : Bytes → Tables → Tables
emplace id t =
    if count id t.ids == 0
    then record {
      ids = t.ids ++ id ∷ [];
      in_degree = update t.in_degree id (pos 0);
      adj = update t.adj id [];
    }
    else t

-- `adj[dep].push_back(id); in_degree[id]++;`
unfoldable pub add_edge : Bytes → Bytes → Tables → Tables
add_edge dep id t = record t {
  adj = update t.adj dep (t.adj dep ++ id ∷ []);
  in_degree = update t.in_degree id (suc_ℤ (t.in_degree id));
}

-- A task of the flow: `flow.emplace` and `task.name`.
pub record Task : Type 0 where
  pub name : Bytes
  pub type : Bytes

-- The flow: its tasks, and the calls of `precede` on their positions.
pub record Flow : Type 0 where
  pub tasks : List Task
  pub arcs : List (ℕ × ℕ)

module _ {J : Type 0} (R : Reader J) where
  -- The first loop of `check_cycles`.
  unfoldable pub collect : List J → Tables → Checked Tables
  unfolding emplace
  collect [] t = good t
  collect (n ∷ ns) t = elim (R.id_of n) [
    | none ↦ fails bad_value
    | some id ↦ collect ns (emplace id t)
  ]

  -- The loop over the dependencies of one node.
  unfoldable pub add_deps : Bytes → List J → Tables → Checked Tables
  unfolding add_edge
  add_deps id [] t = good t
  add_deps id (d ∷ ds) t = elim (R.text d) [
    | none ↦ fails bad_value
    | some dep ↦
        if count dep t.ids == 0
        then fails (unknown_dependency id dep)
        else add_deps id ds (add_edge dep id t)
  ]

  unfoldable pub wire : List J → Tables → Checked Tables
  unfolding add_deps
  wire [] t = good t
  wire (n ∷ ns) t = elim (R.id_of n) [
    | none ↦ fails bad_value
    | some id ↦ elim (R.deps n) [
      | none ↦ wire ns t
      | some ds ↦ then_do (add_deps id ds t) (wire ns)
    ]
  ]

  -- The sort and its verdict; the containers iterate over their keys in the order `order`.
  unfoldable pub sort : (List Bytes → List Bytes) → Tables → Checked Tables
  sort order t =
      let keys = order t.ids in
      let start : Kahn = record {
        in_degree = t.in_degree;
        queue = roots t.in_degree keys;
        visited = 0;
      } in
      elim (kahn_loop t.adj (length t.ids) start) [
        | none ↦ fails endless
        | some s ↦
            if s.visited == length t.ids then good t else fails (cycle (stuck s.in_degree keys))
      ]

  unfoldable pub check_cycles : (List Bytes → List Bytes) → List J → Checked Tables
  unfolding collect wire sort
  check_cycles order ns = then_do (collect ns no_tables) (λ t. then_do (wire ns t) (sort order))

  -- The types are looked up before any task is made.
  unfoldable pub check_types :
      {World Node : Type 0} → Registry World Node → List J → Option BuildError
  unfolding has
  check_types r [] = none
  check_types r (n ∷ ns) = elim (R.type_of n) [
    | none ↦ some bad_value
    | some type ↦ if has type r then check_types r ns else some (unregistered type)
  ]

  -- The loop that makes the tasks; `tasks[id]` is the position of the newest task of that id.
  unfoldable pub make_tasks :
      List J → Flow → (Bytes → Option ℕ) → Checked (Flow × (Bytes → Option ℕ))
  make_tasks [] f at = good (f, at)
  make_tasks (n ∷ ns) f at = elim (R.id_of n) [
    | none ↦ fails bad_value
    | some id ↦ elim (R.type_of n) [
      | none ↦ fails bad_value
      | some type ↦
          make_tasks ns (record f { tasks = f.tasks ++ record { name = id; type = type } ∷ [] })
            (update at id (some (length f.tasks)))
    ]
  ]

  -- `tasks.at(dep).precede(tasks.at(id))` for the dependencies of one node.
  unfoldable pub precede : (Bytes → Option ℕ) → Bytes → List J → Flow → Checked Flow
  precede at id [] f = good f
  precede at id (d ∷ ds) f = elim (R.text d) [
    | none ↦ fails bad_value
    | some dep ↦ elim (at dep) [
      | none ↦ fails (no_task dep)
      | some i ↦ elim (at id) [
        | none ↦ fails (no_task id)
        | some j ↦ precede at id ds (record f { arcs = f.arcs ++ (i, j) ∷ [] })
      ]
    ]
  ]

  unfoldable pub precede_all : (Bytes → Option ℕ) → List J → Flow → Checked Flow
  unfolding precede
  precede_all at [] f = good f
  precede_all at (n ∷ ns) f = elim (R.deps n) [
    | none ↦ precede_all at ns f
    | some ds ↦ elim (R.id_of n) [
      | none ↦ fails bad_value
      | some id ↦ then_do (precede at id ds f) (precede_all at ns)
    ]
  ]

  -- `build` once the text is an array.
  unfoldable pub build_nodes :
      {World Node : Type 0}
      → (List Bytes → List Bytes)
      → Registry World Node
      → List J
      → Checked Flow
  unfolding check_cycles check_types make_tasks precede_all
  build_nodes order r ns = then_do (check_cycles order ns) (λ _. elim (check_types r ns) [
    | some err ↦ fails err
    | none ↦
        then_do (make_tasks ns (record { tasks = []; arcs = [] }) (λ _. none))
          (λ made. precede_all (made.1) ns (made.0))
  ])

  unfoldable pub build :
      {World Node : Type 0} → (List Bytes → List Bytes) → Registry World Node → Bytes → Checked Flow
  unfolding build_nodes
  build order r json_str = elim (R.parse json_str) [
    | none ↦ fails parse_error
    | some nodes ↦ elim (R.items nodes) [
      | none ↦ fails not_array
      | some ns ↦ build_nodes order r ns
    ]
  ]
