-- ===== src/Dag/Loop.antt =====
-- The whole of Kahn's loop: it ends within one round for each id, and what it leaves behind.
use cpp20_workflow_engine.Shared.{
  ℕ, zero, suc, ◌+◌, ◌≤◌, ◌<◌, ◌≡◌, ap, ◌∙◌, inl, inr, some, List, [], ◌∷◌, ◌++◌, arith, length,
  length-append, List-cases, Bytes, str_eq_refl, count, count-append, IsDistinct,
}
use cpp20_workflow_engine.Dag.{Edge, targets, open_in, Kahn, relax_all, kahn_loop, IsTopological}
use cpp20_workflow_engine.Dag.Bag.{length-le_of_count}
use cpp20_workflow_engine.Dag.Relax.{
  IsSettled, relax_all-IsSettled, visited-relax_all, open_in-cons, count-targets-le, seen_of_closed,
}

-- Between two rounds, with `seen` the ids that left the queue, the newest first.
pub record Inv (es : List Edge) (ids seen : List Bytes) (s : Kahn) : Type 0 where
  pub settled : IsSettled ids (open_in seen es) seen s
  pub visited : s.visited ≡ length seen
  pub order : IsTopological es seen

module _ (es : List Edge) (ids : List Bytes) (distinct : IsDistinct ids)
    (known : (v : Bytes) → 0 < open_in [] es v → count v ids ≡ 1) (succs : Bytes → List Bytes)
    (same : (u : Bytes) → succs u ≡ targets es u) where
  fresh :
      (seen : List Bytes) (s : Kahn) (cur : Bytes) (rest : List Bytes)
      → s.queue ≡ cur ∷ rest
      → Inv es ids seen s
      → (count cur seen ≡ 0) × (open_in seen es cur ≡ 0)
  fresh seen s cur rest e h =
      ground (arith, h.settled.tally cur, ap (count cur) e, str_eq_refl cur, distinct cur)

  round-Inv :
      (seen : List Bytes) (s : Kahn) (cur : Bytes) (rest : List Bytes)
      → s.queue ≡ cur ∷ rest
      → Inv es ids seen s
      → Inv es ids
          (cur ∷ seen)
          (relax_all (record s { queue = rest; visited = suc s.visited }) (succs cur))
  round-Inv seen s cur rest e h = rw (same cur) (record {
    settled =
        relax_all-IsSettled ids (open_in (cur ∷ seen) es) (cur ∷ seen) (targets es cur) s0
          (λ v p. known v (omega (arith, count-targets-le cur es v)))
          (record {
            degree = λ v. rw (open_in-cons cur seen es v new.0) (h.settled.degree v);
            tally = λ v.
                rw (open_in-cons cur seen es v new.0)
                  (omega (arith, h.settled.tally v, ap (count v) e));
          });
    visited = visited-relax_all s0 (targets es cur) ∙ ap suc h.visited;
    order = (λ u p. seen_of_closed seen es u cur new.1 p, h.order);
  })
    where
      s0 : Kahn
      s0 = record s { queue = rest; visited = suc s.visited }

      new : (count cur seen ≡ 0) × (open_in seen es cur ≡ 0)
      new = fresh seen s cur rest e h

  -- What is done or queued is among the ids.
  room :
      (seen : List Bytes) (s : Kahn) → Inv es ids seen s → length seen + length s.queue ≤ length ids
  room seen s h = omega (
    arith,
    length-append seen s.queue,
    length-le_of_count (seen ++ s.queue) ids
        (λ v. ground (arith, h.settled.tally v, count-append v seen s.queue)),
  )

  pub kahn_loop-ends :
      (fuel : ℕ) (seen : List Bytes) (s : Kahn)
      → length ids ≤ fuel + length seen
      → Inv es ids seen s
      → (t : Kahn) × (done : List Bytes) × (kahn_loop succs fuel s ≡ some t)
        × Inv es ids done t
        × (t.queue ≡ [])
  unfolding kahn_loop
  kahn_loop-ends zero seen s f h = elim (List-cases s.queue) [
    | inl e ↦ (s, seen, simp (e, kahn_loop), h, e)
    | inr (cur, rest, e) ↦ absurd (omega (arith, room seen s h, ap length e))
  ]
  kahn_loop-ends (suc fuel) seen s f h = elim (List-cases s.queue) [
    | inl e ↦ (s, seen, simp (e, kahn_loop), h, e)
    | inr (cur, rest, e) ↦
        let (t, done, ends, inv, empty) =
          kahn_loop-ends fuel (cur ∷ seen)
            (relax_all (record s { queue = rest; visited = suc s.visited }) (succs cur))
            (omega arith) (round-Inv seen s cur rest e h) in
        (t, done, simp (e, kahn_loop) ends, inv, empty)
  ]
