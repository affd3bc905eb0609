-- ===== src/Engine/Load/Degrees.antt =====
-- The in-degrees and the first queue of `validateDAG`, against the edges of the configuration.
use cpp20_workflow_engine.Shared.{
  ℕ, ◌+◌, ◌<◌, ◌≡◌, refl, true, ◌||◌, List, [], ◌∷◌, ◌++◌, map, arith, length, ◌==◌, if◌then◌else◌,
  Bytes, str_eq, str_eq_iff, count, update, IsDistinct,
}
use cpp20_workflow_engine.Shared.Int.{ℤ, pos, is_pos}
use cpp20_workflow_engine.Dag.{Edge, targets, has_edge, open_in, roots, stuck}
use cpp20_workflow_engine.Engine.{NodeConfig, edges, config_ids}
use cpp20_workflow_engine.Engine.Load.{degrees}

pub open_in-append :
    (seen : List Bytes) (xs ys : List Edge) (v : Bytes)
    → open_in seen (xs ++ ys) v ≡ open_in seen xs v + open_in seen ys v
open_in-append seen [] ys v = omega arith
open_in-append seen ((d, w) ∷ xs) ys v = omega (arith, open_in-append seen xs ys v)

open_in-node :
    (id : Bytes) (ds : List Bytes) (v : Bytes)
    → open_in [] (map (λ d. (d, id)) ds) v ≡ (if str_eq v id then length ds else 0)
open_in-node id [] v = ground arith
open_in-node id (d ∷ ds) v = ground (arith, open_in-node id ds v)

pub open_in-edges :
    (c : NodeConfig) (cs : List NodeConfig) (v : Bytes)
    → open_in [] (edges (c ∷ cs)) v
      ≡ (if str_eq v c.id then length c.dependencies else 0) + open_in [] (edges cs) v
open_in-edges c cs v = omega (
  arith,
  open_in-append [] (map (λ d. (d, c.id)) c.dependencies) (edges cs) v,
  open_in-node c.id c.dependencies v,
)

-- Only ids of the configuration have edges into them.
pub open_in-none :
    (cs : List NodeConfig) (v : Bytes) → count v (config_ids cs) ≡ 0 → open_in [] (edges cs) v ≡ 0
open_in-none [] v h = refl
open_in-none (c ∷ cs) v h = ground (arith, open_in-edges c cs v, open_in-none cs v)

pub degrees-eq :
    (cs : List NodeConfig) (m : Bytes → ℤ) (v : Bytes)
    → IsDistinct (config_ids cs)
    → degrees cs m v ≡ (if count v (config_ids cs) == 0 then m v else pos (open_in [] (edges cs) v))
unfolding degrees
degrees-eq [] m v d = refl
degrees-eq (c ∷ cs) m v d = ground (
  arith,
  degrees-eq cs (update m c.id (pos (length c.dependencies))) v (λ k. omega (arith, d k)),
  open_in-edges c cs v,
  open_in-none cs v,
  d v,
)

pub count-roots :
    (m : Bytes → ℤ) (keys : List Bytes) (v : Bytes)
    → count v (roots m keys) ≡ (if is_pos 0 (m v) then count v keys else 0)
unfolding roots
count-roots m [] v = ground arith
count-roots m (k ∷ keys) v = ground (arith, count-roots m keys v, str_eq_iff v k)

-- The reported ids are the keys with a positive in-degree.
pub count-stuck :
    (m : Bytes → ℤ) (k : Bytes → ℕ) (keys : List Bytes) (v : Bytes)
    → ((u : Bytes) → m u ≡ pos (k u))
    → count v (stuck m keys) ≡ (if k v == 0 then 0 else count v keys)
unfolding stuck
count-stuck m k [] v h = ground arith
count-stuck m k (u ∷ keys) v h = ground (arith, count-stuck m k keys v h, str_eq_iff v u, h u)

pub targets-append :
    (xs ys : List Edge) (u : Bytes) → targets (xs ++ ys) u ≡ targets xs u ++ targets ys u
targets-append [] ys u = refl
targets-append ((d, w) ∷ xs) ys u = ground (arith, targets-append xs ys u)

pub has_edge-append :
    (xs ys : List Edge) (u v : Bytes)
    → has_edge (xs ++ ys) u v ≡ (has_edge xs u v || has_edge ys u v)
has_edge-append [] ys u v = refl
has_edge-append ((d, w) ∷ xs) ys u v = ground (arith, has_edge-append xs ys u v)

pub has_edge-node :
    (id : Bytes) (ds : List Bytes) (u v : Bytes)
    → has_edge (map (λ d. (d, id)) ds) u v ≡ true
    → 0 < count u ds
has_edge-node id [] u v h = cc
has_edge-node id (d ∷ ds) u v h = ground (arith, has_edge-node id ds u v)
