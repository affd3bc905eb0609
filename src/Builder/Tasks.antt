-- ===== src/Builder/Tasks.antt =====
-- The tasks of a flow, their names and their arcs, as tasks are added (core/GraphBuilder.cpp).
use cpp20_workflow_engine.Shared.{
  ℕ, zero, suc, ◌≡◌, refl, ap, inl, inr, true, Bool-cases, Option, none, some, List, [], ◌∷◌, ◌++◌,
  length, arith, Bytes, str_eq, str_eq_iff, update,
}
use cpp20_workflow_engine.Dag.{Edge}
use cpp20_workflow_engine.Registry.{Registry, has}
use cpp20_workflow_engine.Builder.{Task}

-- The name of the task at a position.
abbrev pub name_at : List Task → ℕ → Option Bytes
name_at [] i = none
name_at (t ∷ ts) zero = some t.name
name_at (t ∷ ts) (suc i) = name_at ts i

-- The arcs between positions are the edges between names, in order.
abbrev pub ArcsAre : List Task → List (ℕ × ℕ) → List Edge → Type 0
ArcsAre tasks [] [] = Unit {0}
ArcsAre tasks [] (e ∷ es) = ⊥
ArcsAre tasks (a ∷ arcs) [] = ⊥
ArcsAre tasks ((i, j) ∷ arcs) ((u, v) ∷ es) =
    (name_at tasks i ≡ some u) × (name_at tasks j ≡ some v) × ArcsAre tasks arcs es

-- Every task has a type for which the registry has a factory.
abbrev pub AllRegistered : {World Node : Type 0} → Registry World Node → List Task → Type 0
AllRegistered r [] = Unit {0}
AllRegistered r (t ∷ ts) = (has t.type r ≡ true) × AllRegistered r ts

-- The table of tasks leads to tasks of the right name.
abbrev pub IsNamed : List Task → (Bytes → Option ℕ) → Type 0
IsNamed tasks at = (id : Bytes) (i : ℕ) → at id ≡ some i → name_at tasks i ≡ some id

name_at-snoc_old :
    (ts : List Task) (t : Task) (i : ℕ) {id : Bytes}
    → name_at ts i ≡ some id
    → name_at (ts ++ t ∷ []) i ≡ some id
name_at-snoc_old [] t i e = cc
name_at-snoc_old (x ∷ ts) t zero e = e
name_at-snoc_old (x ∷ ts) t (suc i) e = name_at-snoc_old ts t i e

name_at-snoc_new : (ts : List Task) (t : Task) → name_at (ts ++ t ∷ []) (length ts) ≡ some t.name
name_at-snoc_new [] t = refl
name_at-snoc_new (x ∷ ts) t = name_at-snoc_new ts t

pub IsNamed-snoc :
    (ts : List Task) (t : Task) (at : Bytes → Option ℕ)
    → IsNamed ts at
    → IsNamed (ts ++ t ∷ []) (update at t.name (some (length ts)))
IsNamed-snoc ts t at h id i e = elim (Bool-cases (str_eq id t.name)) [
  | inl same ↦
      let here : length ts ≡ i = ground (arith, same) in
      let name : id ≡ t.name = (str_eq_iff id t.name).0 same in
      rw (← here, name) (name_at-snoc_new ts t)
  | inr other ↦ name_at-snoc_old ts t i (h id i (ground (arith, other)))
]

pub ArcsAre-snoc :
    (ts : List Task) (arcs : List (ℕ × ℕ)) (es : List Edge) (i j : ℕ) (u v : Bytes)
    → ArcsAre ts arcs es
    → name_at ts i ≡ some u
    → name_at ts j ≡ some v
    → ArcsAre ts (arcs ++ (i, j) ∷ []) (es ++ (u, v) ∷ [])
ArcsAre-snoc ts [] [] i j u v h p q = (p, q, tt)
ArcsAre-snoc ts [] (e ∷ es) i j u v h p q = absurd h
ArcsAre-snoc ts (a ∷ arcs) [] i j u v h p q = absurd h
ArcsAre-snoc ts ((k, l) ∷ arcs) ((x, y) ∷ es) i j u v (a, b, h) p q =
    (a, b, ArcsAre-snoc ts arcs es i j u v h p q)

pub AllRegistered-snoc :
    {World Node : Type 0} (r : Registry World Node) (ts : List Task) (t : Task)
    → AllRegistered r ts
    → has t.type r ≡ true
    → AllRegistered r (ts ++ t ∷ [])
AllRegistered-snoc r [] t h p = (p, tt)
AllRegistered-snoc r (x ∷ ts) t (q, h) p = (q, AllRegistered-snoc r ts t h p)

abbrev pub names : List Task → List Bytes
names [] = []
names (t ∷ ts) = t.name ∷ names ts

pub names-snoc : (ts : List Task) (t : Task) → names (ts ++ t ∷ []) ≡ names ts ++ t.name ∷ []
names-snoc [] t = refl
names-snoc (x ∷ ts) t = ap (λ ns. x.name ∷ ns) (names-snoc ts t)
