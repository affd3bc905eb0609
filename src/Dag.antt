-- ===== src/Dag.antt =====
-- Kahn's algorithm, as WorkflowEngine::validateDAG (src/WorkflowEngine.cpp) and
-- GraphBuilder::check_cycles (core/GraphBuilder.cpp) both write it, over the list of the edges
-- (dependency, dependant).
pub mod Bag
pub mod Relax
pub mod Loop
pub mod Order
use cpp20_workflow_engine.Shared.{
  ℕ, zero, suc, ◌+◌, ◌<◌, ◌≡◌, Bool, true, false, ◌&&◌, ◌||◌, Option, none, some, List, [], ◌∷◌,
  ◌++◌, ◌==◌, if◌then◌else◌, Bytes, str_eq, count, update,
}
use cpp20_workflow_engine.Shared.Int.{ℤ, pos, negsuc, pred_ℤ, is_pos}

abbrev pub Edge : Type 0
Edge = Bytes × Bytes

-- The successors of `u`, in the order of the edges: what the adjacency lists hold.
abbrev pub targets : List Edge → Bytes → List Bytes
targets [] u = []
targets ((d, v) ∷ es) u = if str_eq d u then v ∷ targets es u else targets es u

abbrev pub has_edge : List Edge → Bytes → Bytes → Bool
has_edge [] u v = false
has_edge ((d, w) ∷ es) u v = str_eq u d && str_eq v w || has_edge es u v

-- The edges into `v` whose source is not in `seen`.
abbrev pub open_in : List Bytes → List Edge → Bytes → ℕ
open_in seen [] v = 0
open_in seen ((d, w) ∷ es) v =
    (if str_eq v w then (if count d seen == 0 then 1 else 0) else 0) + open_in seen es v

pub record Kahn : Type 0 where
  pub in_degree : Bytes → ℤ
  pub queue : List Bytes
  pub visited : ℕ

-- `if (--in_degree[ds_id] == 0) q.push(ds_id);`
unfoldable pub relax : Kahn → Bytes → Kahn
relax s t =
    let d = pred_ℤ (s.in_degree t) in
    record s {
      in_degree = update s.in_degree t d;
      queue = if is_pos 0 d then s.queue ++ t ∷ [] else s.queue;
    }

unfoldable pub relax_all : Kahn → List Bytes → Kahn
relax_all s [] = s
relax_all s (t ∷ ts) = relax_all (relax s t) ts

-- The `while (!q.empty())` loop; `none` means that the fuel ran out.
unfoldable pub kahn_loop : (Bytes → List Bytes) → ℕ → Kahn → Option Kahn
unfolding relax relax_all
kahn_loop succs zero s = elim s.queue [ [] ↦ some s | _ ∷ _ ↦ none ]
kahn_loop succs (suc fuel) s = elim s.queue [
  | [] ↦ some s
  | cur ∷ rest ↦
      kahn_loop succs fuel
        (relax_all (record s { queue = rest; visited = suc s.visited }) (succs cur))
]

-- `for (const auto& [id, deg] : in_degree) if (deg == 0) q.push(id);`, `keys` being the keys of the
-- map in its order of iteration, each once.
unfoldable pub roots : (Bytes → ℤ) → List Bytes → List Bytes
roots in_degree [] = []
roots in_degree (k ∷ ks) =
    if is_pos 0 (in_degree k) then k ∷ roots in_degree ks else roots in_degree ks

-- The ids with `deg > 0`, which the error message of a cycle lists.
unfoldable pub stuck : (Bytes → ℤ) → List Bytes → List Bytes
stuck in_degree [] = []
stuck in_degree (k ∷ ks) = elim (in_degree k) [
  | pos (suc _) ↦ k ∷ stuck in_degree ks
  | _ ↦ stuck in_degree ks
]

-- Every id of a run comes after all its dependencies; the newest id stands first.
abbrev pub IsTopological : List Edge → List Bytes → Type 0
IsTopological es [] = Unit {0}
IsTopological es (v ∷ seen) =
    ((u : Bytes) → has_edge es u v ≡ true → 0 < count u seen) × IsTopological es seen

-- A number for each id that grows along every edge: there is no cycle.
pub record IsRanked (es : List Edge) (rank : Bytes → ℕ) : Type 0 where
  pub grows : (u v : Bytes) → has_edge es u v ≡ true → rank u < rank v
