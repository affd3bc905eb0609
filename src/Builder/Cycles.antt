-- ===== src/Builder/Cycles.antt =====
-- The verdict of GraphBuilder::check_cycles (core/GraphBuilder.cpp).
use cpp20_workflow_engine.Shared.{
  ℕ, ◌<◌, ◌≡◌, refl, ◌⊎◌, inl, inr, true, some, List, [], arith, length, Bytes, count,
}
use cpp20_workflow_engine.Dag.{Edge, has_edge, Kahn, kahn_loop, roots, stuck, IsRanked}
use cpp20_workflow_engine.Dag.Loop.{Inv, kahn_loop-ends}
use cpp20_workflow_engine.Dag.Order.{rank_of, IsRanked-of_visited, visited_of_ranked}
use cpp20_workflow_engine.Engine.Load.Degrees.{count-roots}
use cpp20_workflow_engine.Engine.Load.Validate.{IsIteration, open_in_of_edge}
use cpp20_workflow_engine.Builder.{
  Reader, BuildError, cycle, good, fails, Tables, no_tables, collect, wire, sort, check_cycles,
}
use cpp20_workflow_engine.Builder.Edges.{Checked-cases, declared, IsTables, tables_of}

module _ {J : Type 0} (R : Reader J) (order : List Bytes → List Bytes)
    (each : IsIteration order) where
  module _ (es : List Edge) (t : Tables) (h : IsTables R es t) where
    abbrev first : Kahn
    first = record { in_degree = t.in_degree; queue = roots t.in_degree (order t.ids); visited = 0 }

    first-Inv : Inv es t.ids [] first
    first-Inv = record {
      settled = record {
        degree = h.degree;
        tally =
            λ v. ground (arith, h.degree v, count-roots t.in_degree (order t.ids) v, each t.ids v);
      };
      visited = refl;
      order = tt;
    }

    loop-ends :
        (s : Kahn) × (done : List Bytes) × (kahn_loop t.adj (length t.ids) first ≡ some s)
        × Inv es t.ids done s
        × (s.queue ≡ [])
    loop-ends =
        kahn_loop-ends es t.ids h.distinct (λ v p. omega (arith, h.goals v p, h.distinct v)) t.adj
          h.lists (length t.ids) [] first (omega arith) first-Inv

    goal_known : (u v : Bytes) → has_edge es u v ≡ true → 0 < count v t.ids
    goal_known u v e = h.goals v (open_in_of_edge es u v e)

    sort-good : (t' : Tables) → sort R order t ≡ good t' → (rank : Bytes → ℕ) × IsRanked es rank
    unfolding sort
    sort-good t' g =
        let (s, done, ends, inv, empty) = loop-ends in
        (
          rank_of done,
          IsRanked-of_visited es t.ids done s inv empty h.distinct goal_known
              (ground (arith, ends)),
        )

    sort-fails :
        (err : BuildError)
        → sort R order t ≡ fails err
        → (ids : List Bytes) × (err ≡ cycle ids) × ¬ ((rank : Bytes → ℕ) × IsRanked es rank)
    unfolding sort
    sort-fails err g =
        let (s, done, ends, inv, empty) = loop-ends in
        (
          stuck s.in_degree (order t.ids),
          ground (arith, ends),
          λ (rank, r).
              let full = visited_of_ranked es t.ids done s inv empty h.distinct h.sources rank r in
              ground (arith, ends),
        )

  -- Where the check of a list of descriptors raises no exception, in whatever order of iteration, the
  -- ids can be ranked so that every dependency has a smaller rank than the node that declares it.
  pub check_cycles-good :
      (ns : List J) (t : Tables)
      → check_cycles R order ns ≡ good t
      → (rank : Bytes → ℕ) × IsRanked (declared R ns) rank
  unfolding check_cycles
  check_cycles-good ns t g = elim (Checked-cases (collect R ns no_tables)) [
    | inr (err, failed) ↦ absurd (ground (arith, failed))
    | inl (t1, collected) ↦ elim (Checked-cases (wire R ns t1)) [
      | inr (err, failed) ↦ absurd (ground (arith, collected, failed))
      | inl (t2, wired) ↦
          sort-good (declared R ns) t2 (tables_of R ns t1 t2 collected wired) t
            (ground (arith, collected, wired))
    ]
  ]

  -- Where the two loops that fill the tables raise no exception, the check ends: it accepts, and the
  -- ids can be ranked so that every declared dependency has a smaller rank than its node, or it reports
  -- a cycle and there is no such ranking.
  pub check_cycles-decides :
      (ns : List J) (t1 t2 : Tables)
      → collect R ns no_tables ≡ good t1
      → wire R ns t1 ≡ good t2
      → ((check_cycles R order ns ≡ good t2) × ((rank : Bytes → ℕ) × IsRanked (declared R ns) rank))
        ⊎ ((ids : List Bytes) × (check_cycles R order ns ≡ fails (cycle ids))
            × ¬ ((rank : Bytes → ℕ) × IsRanked (declared R ns) rank))
  unfolding check_cycles
  check_cycles-decides ns t1 t2 collected wired = elim (Checked-cases (sort R order t2)) [
    | inl (t, sorted) ↦
        let e : check_cycles R order ns ≡ good t2 =
          ground (arith, collected, wired, sorted, same t sorted) in
        inl (e, check_cycles-good ns t2 e)
    | inr (err, failed) ↦
        let (ids, e, cyclic) =
          sort-fails (declared R ns) t2 (tables_of R ns t1 t2 collected wired) err failed in
        inr (ids, ground (arith, collected, wired, failed, e), cyclic)
  ]
    where
      same : (t : Tables) → sort R order t2 ≡ good t → t2 ≡ t
      same t g = unfold sort in ground arith
