-- ===== src/Dag/Order.antt =====
-- What the end of Kahn's loop says of the graph.
use cpp20_workflow_engine.Shared.{
  ℕ, zero, suc, ◌≤◌, ◌<◌, ◌≡◌, ap, inl, inr, true, List, [], ◌∷◌, arith, length, ◌==◌,
  if◌then◌else◌, Bytes, Bool-cases, str_eq, str_eq_iff, count, IsDistinct,
}
use cpp20_workflow_engine.Dag.{Edge, has_edge, open_in, Kahn, IsTopological, IsRanked}
use cpp20_workflow_engine.Dag.Bag.{length-le_of_count, count-eq_of_length}
use cpp20_workflow_engine.Dag.Relax.{source_of_open}
use cpp20_workflow_engine.Dag.Loop.{Inv}

-- The place of an id in a run, counted from its oldest id.
unfoldable pub rank_of : List Bytes → Bytes → ℕ
rank_of [] v = 0
rank_of (x ∷ seen) v = if str_eq v x then suc (length seen) else rank_of seen v

rank_of-le : (seen : List Bytes) (v : Bytes) → rank_of seen v ≤ length seen
unfolding rank_of
rank_of-le [] v = omega arith
rank_of-le (x ∷ seen) v = ground (arith, rank_of-le seen v)

module _ (es : List Edge) where
  earlier :
      (seen : List Bytes) (u v : Bytes)
      → IsTopological es seen
      → 0 < count v seen
      → has_edge es u v ≡ true
      → 0 < count u seen
  earlier [] u v t p e = absurd (omega arith)
  earlier (x ∷ seen) u v t p e = elim (Bool-cases (str_eq v x)) [
    | inl same ↦ omega (arith, t.0 u (rw (← (str_eq_iff v x).0 same) e))
    | inr other ↦ omega (arith, earlier seen u v t.1 (ground arith) e)
  ]

  tail-IsDistinct : (x : Bytes) (seen : List Bytes) → IsDistinct (x ∷ seen) → IsDistinct seen
  tail-IsDistinct x seen d v = omega (arith, d v)

  rank_of-lt :
      (seen : List Bytes) (u v : Bytes)
      → IsTopological es seen
      → IsDistinct seen
      → 0 < count v seen
      → has_edge es u v ≡ true
      → rank_of seen u < rank_of seen v
  unfolding rank_of
  rank_of-lt [] u v t d p e = absurd (omega arith)
  rank_of-lt (x ∷ seen) u v t d p e = elim (Bool-cases (str_eq v x)) [
    | inl same ↦
        let before = t.0 u (rw (← (str_eq_iff v x).0 same) e) in
        ground (arith, d u, rank_of-le seen u)
    | inr other ↦
        let below = rank_of-lt seen u v t.1 (tail-IsDistinct x seen d) (ground arith) e in
        let before = earlier seen u v t.1 (ground arith) e in ground (arith, d u)
  ]

  module _ (ids done : List Bytes) (t : Kahn) (inv : Inv es ids done t) (empty : t.queue ≡ [])
      (distinct : IsDistinct ids) where
    tally : (v : Bytes) → count v done ≡ (if open_in done es v == 0 then count v ids else 0)
    tally v = ground (arith, inv.settled.tally v, ap (count v) empty)

    done-le : (v : Bytes) → count v done ≤ count v ids
    done-le v = ground (arith, tally v)

    -- With as many rounds as ids, every id is done, and the order of the rounds is a rank.
    pub IsRanked-of_visited :
        ((u v : Bytes) → has_edge es u v ≡ true → 0 < count v ids)
        → t.visited ≡ length ids
        → IsRanked es (rank_of done)
    IsRanked-of_visited known full = record {
      grows = λ u v e.
          rank_of-lt done u v inv.order (λ w. omega (arith, done-le w, distinct w))
            (omega (
              arith,
              known u v e,
              count-eq_of_length done ids done-le (omega (arith, inv.visited)) v,
            ))
            e;
    }

    -- On a graph with a rank no id keeps an open edge.
    closed_of_ranked :
        ((u v : Bytes) → has_edge es u v ≡ true → 0 < count u ids)
        → (rank : Bytes → ℕ) → IsRanked es rank
        → (n : ℕ) (v : Bytes) → rank v < n
        → open_in done es v ≡ 0
    closed_of_ranked known rank r zero v h = absurd (omega arith)
    closed_of_ranked known rank r (suc n) v h = elim (Bool-cases (open_in done es v == 0)) [
      | inl closed ↦ ground arith
      | inr open' ↦
          let (u, e, new) = source_of_open done es v (ground arith) in
          let ih = closed_of_ranked known rank r n u (omega (arith, r.grows u v e)) in
          absurd (ground (arith, tally u, known u v e))
    ]

    pub visited_of_closed :
        ((v : Bytes) → 0 < count v ids → open_in done es v ≡ 0) → t.visited ≡ length ids
    visited_of_closed all = omega (
      arith,
      inv.visited,
      length-le_of_count done ids done-le,
      length-le_of_count ids done (λ v. ground (arith, tally v, all v)),
    )

    pub visited_of_ranked :
        ((u v : Bytes) → has_edge es u v ≡ true → 0 < count u ids)
        → (rank : Bytes → ℕ) → IsRanked es rank
        → t.visited ≡ length ids
    visited_of_ranked known rank r =
        visited_of_closed (λ v p. closed_of_ranked known rank r (suc (rank v)) v (omega arith))

    -- An id that is left waits for another that is left.
    pub waits_for_stuck :
        ((u v : Bytes) → has_edge es u v ≡ true → 0 < count u ids)
        → (v : Bytes) → 0 < open_in done es v
        → (u : Bytes) × (has_edge es u v ≡ true) × (0 < count u ids) × (0 < open_in done es u)
    waits_for_stuck known v h =
        let (u, e, new) = source_of_open done es v h in
        (u, e, known u v e, ground (arith, tally u, known u v e))
