-- ===== src/Engine/Load/Validate.antt =====
-- The loaded engine, and the verdict of validateDAG on it (src/WorkflowEngine.cpp).
use cpp20_workflow_engine.Shared.{
  ℕ, ◌<◌, ◌≡◌, ◌≢◌, ◌↔◌, refl, ap, true, Option, some, List, [], ◌∷◌, arith, length, length-map,
  ◌==◌, if◌then◌else◌, Bytes, count, IsDistinct,
}
use cpp20_workflow_engine.Shared.Int.{pos}
use cpp20_workflow_engine.Node.{pending}
use cpp20_workflow_engine.Dag.{
  Edge, targets, has_edge, open_in, Kahn, kahn_loop, roots, stuck, IsRanked,
}
use cpp20_workflow_engine.Dag.Loop.{Inv, kahn_loop-ends}
use cpp20_workflow_engine.Dag.Order.{
  rank_of, IsRanked-of_visited, visited_of_ranked, visited_of_closed, waits_for_stuck,
}
use cpp20_workflow_engine.Engine.{NodeConfig, Engine, edges, config_ids}
use cpp20_workflow_engine.Engine.Load.{degrees, valid, cyclic, endless, validate_dag}
use cpp20_workflow_engine.Engine.Load.Degrees.{degrees-eq, count-roots, count-stuck, open_in-none}
use cpp20_workflow_engine.Engine.Load.States.{Describes}

-- The containers iterate over each key once, in any order.
abbrev pub IsIteration : (List Bytes → List Bytes) → Type 0
IsIteration order = (ks : List Bytes) (k : Bytes) → count k (order ks) ≡ count k ks

-- No graph edge has an end that is no node.
pub open_in-known :
    (cs : List NodeConfig) (v : Bytes) → 0 < open_in [] (edges cs) v → 0 < count v (config_ids cs)
open_in-known cs v h = ground (arith, open_in-none cs v)

pub open_in_of_edge : (es : List Edge) (u v : Bytes) → has_edge es u v ≡ true → 0 < open_in [] es v
open_in_of_edge [] u v h = cc
open_in_of_edge ((d, w) ∷ es) u v h = ground (arith, open_in_of_edge es u v)

module _ {Ctx : Type 0} where
  -- The engine holds the graph that its configuration declares.
  pub record IsLoaded (e : Engine Ctx) : Type 0 where
    pub ids : e.node_ids ≡ config_ids e.node_configs
    pub distinct : IsDistinct (config_ids e.node_configs)
    pub known :
        (u v : Bytes)
        → has_edge (edges e.node_configs) u v ≡ true
        → 0 < count u (config_ids e.node_configs)
    pub lists : (u : Bytes) → (e.node_states u).downstream ≡ targets (edges e.node_configs) u
    pub described : Describes e.node_configs e.node_states
    pub others :
        (u : Bytes)
        → count u (config_ids e.node_configs) ≡ 0
        → ((e.node_states u).node_state ≡ pending) × ((e.node_states u).uncompleted_deps ≡ pos 0)

  module _ (order : List Bytes → List Bytes) (each : IsIteration order) (e : Engine Ctx)
      (l : IsLoaded e) where
    abbrev cs : List NodeConfig
    cs = e.node_configs

    abbrev first : Kahn
    first = record {
      in_degree = degrees cs (λ _. pos 0);
      queue = roots (degrees cs (λ _. pos 0)) (order (config_ids cs));
      visited = 0;
    }

    first-Inv : Inv (edges cs) (config_ids cs) [] first
    first-Inv = record {
      settled = record {
        degree = λ v. ground (arith, degrees-eq cs (λ _. pos 0) v l.distinct, open_in-none cs v);
        tally = λ v. ground (
          arith,
          degrees-eq cs (λ _. pos 0) v l.distinct,
          open_in-none cs v,
          count-roots (degrees cs (λ _. pos 0)) (order (config_ids cs)) v,
          each (config_ids cs) v,
        );
      };
      visited = refl;
      order = tt;
    }

    abbrev loop : Option Kahn
    loop = kahn_loop (λ u. (e.node_states u).downstream) (length cs) first

    -- The loop ends, with every queued id done.
    loop-ends :
        (t : Kahn) × (done : List Bytes) × (loop ≡ some t)
        × Inv (edges cs) (config_ids cs) done t
        × (t.queue ≡ [])
    loop-ends =
        kahn_loop-ends (edges cs) (config_ids cs) l.distinct
          (λ v p. omega (arith, open_in-known cs v p, l.distinct v))
          (λ u. (e.node_states u).downstream) l.lists (length cs) [] first
          (omega (arith, length-map (λ (c : NodeConfig). c.id) cs)) first-Inv

    target_known : (u v : Bytes) → has_edge (edges cs) u v ≡ true → 0 < count v (config_ids cs)
    target_known u v h = open_in-known cs v (open_in_of_edge (edges cs) u v h)

    same_length : length (config_ids cs) ≡ length cs
    same_length = length-map (λ (c : NodeConfig). c.id) cs

    -- On a loaded engine, in any order of iteration: the check accepts exactly the graphs whose ids can
    -- be ranked so that every dependency has a smaller rank than the node that declares it.
    pub validate_dag-valid :
        (validate_dag order e ≡ valid) ↔ ((rank : Bytes → ℕ) × IsRanked (edges cs) rank)
    unfolding validate_dag
    validate_dag-valid =
        let (t, done, ends, inv, empty) = loop-ends in
        (
          λ h. (
            rank_of done,
            IsRanked-of_visited (edges cs) (config_ids cs) done t inv empty l.distinct target_known
                (omega (arith, accepted t ends h, same_length)),
          ),
          λ (rank, r).
              let full =
                visited_of_ranked (edges cs) (config_ids cs) done t inv empty l.distinct l.known
                  rank r in
              ground (arith, ends, full, same_length),
        )
      where
        accepted : (t : Kahn) → loop ≡ some t → validate_dag order e ≡ valid → t.visited ≡ length cs
        accepted t ends h = ground (arith, ends)

    pub validate_dag-ends : validate_dag order e ≢ endless
    unfolding validate_dag
    validate_dag-ends h = let (t, done, ends, inv, empty) = loop-ends in ground (arith, ends)

    -- On a loaded engine, in any order of iteration: where the check reports ids, there is at least one,
    -- and every reported id depends on a reported id.
    pub validate_dag-cyclic :
        (ids : List Bytes)
        → validate_dag order e ≡ cyclic ids
        → (ids ≢ [])
          × ((v : Bytes)
              → 0 < count v ids
              → (u : Bytes) × (has_edge (edges cs) u v ≡ true) × (0 < count u ids))
    unfolding validate_dag
    validate_dag-cyclic ids h =
        let (t, done, ends, inv, empty) = loop-ends in
        let reported : stuck t.in_degree (order (config_ids cs)) ≡ ids = ground (arith, ends) in
        let listed = λ (v : Bytes). count_reported t done inv ids reported v in
        (
          λ none_left.
              let full =
                visited_of_closed (edges cs) (config_ids cs) done t inv empty l.distinct
                  (λ v p. ground (arith, listed v, ap (count v) none_left)) in
              ground (arith, ends, same_length),
          λ v p.
              let (u, edge, is_node, waiting) =
                waits_for_stuck (edges cs) (config_ids cs) done t inv empty l.distinct l.known v
                  (ground (arith, listed v)) in
              (u, edge, ground (arith, listed u)),
        )
      where
        count_reported :
            (t : Kahn) (done : List Bytes)
            → Inv (edges cs) (config_ids cs) done t
            → (ids : List Bytes) → stuck t.in_degree (order (config_ids cs)) ≡ ids
            → (v : Bytes)
            → count v ids ≡ (if open_in done (edges cs) v == 0 then 0 else count v (config_ids cs))
        count_reported t done inv ids e v = ground (
          arith,
          ap (count v) e,
          count-stuck t.in_degree (open_in done (edges cs)) (order (config_ids cs)) v
              inv.settled.degree,
          each (config_ids cs) v,
        )
