-- ===== src/Dag/Relax.antt =====
-- One round of Kahn's loop: what the in-degrees and the queue hold after it.
use cpp20_workflow_engine.Shared.{
  Bool-cases, inl, inr, ◌&&◌, ℕ, ◌+◌, ◌≤◌, ◌<◌, ◌≡◌, refl, true, List, [], ◌∷◌, arith, ◌==◌,
  if◌then◌else◌, Bytes, str_eq, str_eq_iff, str_eq_refl, count, count-append,
}
use cpp20_workflow_engine.Shared.Int.{pos}
use cpp20_workflow_engine.Dag.{Edge, targets, has_edge, open_in, Kahn, relax, relax_all}

-- The in-degrees are `k`, and what is done or queued is exactly what has in-degree 0.
pub record IsSettled (ids : List Bytes) (k : Bytes → ℕ) (seen : List Bytes) (s : Kahn)
    : Type 0 where
  pub degree : (v : Bytes) → s.in_degree v ≡ pos (k v)
  pub tally : (v : Bytes) → count v seen + count v s.queue ≡ (if k v == 0 then count v ids else 0)

relax-IsSettled :
    (ids : List Bytes) (k k' : Bytes → ℕ) (seen : List Bytes) (t : Bytes) (s : Kahn)
    → ((v : Bytes) → k v ≡ (if str_eq v t then 1 else 0) + k' v)
    → count t ids ≡ 1
    → IsSettled ids k seen s
    → IsSettled ids k' seen (relax s t)
unfolding relax
relax-IsSettled ids k k' seen t s e known h = record {
  degree = λ v. ground (arith, e v, e t, h.degree v, h.degree t, str_eq_iff v t, str_eq_refl t);
  tally = λ v. ground (
    arith,
    e v,
    e t,
    h.tally v,
    h.tally t,
    h.degree t,
    str_eq_iff v t,
    str_eq_refl t,
    count-append v s.queue (t ∷ []),
  );
}

pub relax_all-IsSettled :
    (ids : List Bytes) (k : Bytes → ℕ) (seen ts : List Bytes) (s : Kahn)
    → ((v : Bytes) → 0 < count v ts → count v ids ≡ 1)
    → IsSettled ids (λ v. count v ts + k v) seen s
    → IsSettled ids k seen (relax_all s ts)
unfolding relax_all
relax_all-IsSettled ids k seen [] s known h = record {
  degree = λ v. ground (arith, h.degree v);
  tally = λ v. ground (arith, h.tally v);
}
relax_all-IsSettled ids k seen (t ∷ ts) s known h =
    relax_all-IsSettled ids k seen ts (relax s t) (λ v p. known v (omega arith))
      (relax-IsSettled ids (λ v. count v (t ∷ ts) + k v) (λ v. count v ts + k v) seen t s
        (λ v. omega arith) (known t (ground (arith, str_eq_refl t))) h)

pub visited-relax_all : (s : Kahn) (ts : List Bytes) → (relax_all s ts).visited ≡ s.visited
unfolding relax_all relax
visited-relax_all s [] = refl
visited-relax_all s (t ∷ ts) = visited-relax_all (relax s t) ts

-- Once `u` is done, its edges count no longer.
pub open_in-cons :
    (u : Bytes) (seen : List Bytes) (es : List Edge) (v : Bytes)
    → count u seen ≡ 0
    → count v (targets es u) + open_in (u ∷ seen) es v ≡ open_in seen es v
open_in-cons u seen [] v h = omega arith
open_in-cons u seen ((d, w) ∷ es) v h =
    ground (arith, open_in-cons u seen es v h, str_eq_iff d u, str_eq_iff v w)

pub count-targets-le :
    (u : Bytes) (es : List Edge) (v : Bytes) → count v (targets es u) ≤ open_in [] es v
count-targets-le u [] v = omega arith
count-targets-le u ((d, w) ∷ es) v = ground (arith, count-targets-le u es v)

-- With no open edge every source is done.
pub seen_of_closed :
    (seen : List Bytes) (es : List Edge) (u v : Bytes)
    → open_in seen es v ≡ 0
    → has_edge es u v ≡ true
    → 0 < count u seen
seen_of_closed seen [] u v h e = cc
seen_of_closed seen ((d, w) ∷ es) u v h e =
    ground (arith, seen_of_closed seen es u v, str_eq_iff u d, str_eq_iff v w)

-- An open edge has a source that is not done.
pub source_of_open :
    (seen : List Bytes) (es : List Edge) (v : Bytes)
    → 0 < open_in seen es v
    → (u : Bytes) × (has_edge es u v ≡ true) × (count u seen ≡ 0)
source_of_open seen [] v h = absurd (omega arith)
source_of_open seen ((d, w) ∷ es) v h = elim (Bool-cases (str_eq v w && count d seen == 0)) [
  | inl here ↦ (d, ground (arith, str_eq_refl d), ground arith)
  | inr there ↦ let (u, e, c) = source_of_open seen es v (ground arith) in (u, ground arith, c)
]
