-- ===== src/Builder/Arcs.antt =====
-- The flow that GraphBuilder::build makes, against the descriptors (core/GraphBuilder.cpp).
use cpp20_workflow_engine.Shared.{
  ℕ, ◌≡◌, refl, sym, ap, subst, ◌∙◌, ◌⊎◌, inl, inr, true, Option-cases, Option, none, some, List,
  [], ◌∷◌, ◌++◌, length, arith, append-nil, append_assoc, Bytes, update,
}
use cpp20_workflow_engine.Dag.{Edge, IsRanked}
use cpp20_workflow_engine.Registry.{Registry, has}
use cpp20_workflow_engine.Engine.Load.Validate.{IsIteration}
use cpp20_workflow_engine.Builder.{
  Reader, good, Task, Flow, check_cycles, check_types, make_tasks, precede, precede_all,
  build_nodes,
}
use cpp20_workflow_engine.Builder.Edges.{Checked-cases, deps_edges, declared}
use cpp20_workflow_engine.Builder.Cycles.{check_cycles-good}
use cpp20_workflow_engine.Builder.Tasks.{
  ArcsAre, AllRegistered, IsNamed, IsNamed-snoc, ArcsAre-snoc, AllRegistered-snoc, names,
  names-snoc,
}

abbrev empty : Flow
empty = record { tasks = []; arcs = [] }

module _ {J : Type 0} (R : Reader J) where
  -- The ids of the descriptors, in order.
  abbrev pub ids_of : List J → List Bytes
  ids_of [] = []
  ids_of (n ∷ ns) = let rest = ids_of ns in elim (R.id_of n) [ none ↦ rest | some id ↦ id ∷ rest ]

  precede-ArcsAre :
      (at : Bytes → Option ℕ) (id : Bytes) (ds : List J) (f f' : Flow) (es : List Edge)
      → IsNamed f.tasks at
      → ArcsAre f.tasks f.arcs es
      → precede R at id ds f ≡ good f'
      → (f'.tasks ≡ f.tasks) × ArcsAre f.tasks f'.arcs (es ++ deps_edges R id ds)
  unfolding precede
  precede-ArcsAre at id [] f f' es h a e =
      let same : f ≡ f' = ground arith in rw (← same, append-nil es) (refl, a)
  precede-ArcsAre at id (d ∷ ds) f f' es h a e = elim (Option-cases (R.text d)) [
    | inl absent ↦ absurd (ground (arith, absent))
    | inr (dep, found) ↦ elim (Option-cases (at dep)) [
      | inl missing ↦ absurd (ground (arith, found, missing))
      | inr (i, p) ↦ elim (Option-cases (at id)) [
        | inl missing ↦ absurd (ground (arith, found, p, missing))
        | inr (j, q) ↦
            let (kept, arcs) =
              precede-ArcsAre at id ds (record f { arcs = f.arcs ++ (i, j) ∷ [] }) f'
                (es ++ (dep, id) ∷ []) h
                (ArcsAre-snoc f.tasks f.arcs es i j dep id a (h dep i p) (h id j q))
                (ground (arith, found, p, q)) in
            let cons : deps_edges R id (d ∷ ds) ≡ (dep, id) ∷ deps_edges R id ds =
              ground (arith, found) in
            (
              kept,
              subst (ArcsAre f.tasks f'.arcs)
                  (append_assoc es ((dep, id) ∷ []) (deps_edges R id ds)
                    ∙ ap (λ xs. es ++ xs) (sym cons))
                  arcs,
            )
      ]
    ]
  ]

  precede_all-ArcsAre :
      (at : Bytes → Option ℕ) (ns : List J) (f f' : Flow) (es : List Edge)
      → IsNamed f.tasks at
      → ArcsAre f.tasks f.arcs es
      → precede_all R at ns f ≡ good f'
      → (f'.tasks ≡ f.tasks) × ArcsAre f.tasks f'.arcs (es ++ declared R ns)
  unfolding precede_all
  precede_all-ArcsAre at [] f f' es h a e =
      let same : f ≡ f' = ground arith in rw (← same, append-nil es) (refl, a)
  precede_all-ArcsAre at (n ∷ ns) f f' es h a e = elim (Option-cases (R.deps n)) [
    | inl leaf ↦
        let bare : declared R (n ∷ ns) ≡ declared R ns =
          no_edges n ns leaf (Option-cases (R.id_of n)) in
        let (kept, arcs) = precede_all-ArcsAre at ns f f' es h a (ground (arith, leaf)) in
        (kept, subst (λ xs. ArcsAre f.tasks f'.arcs (es ++ xs)) (sym bare) arcs)
    | inr (ds, has_deps) ↦ elim (Option-cases (R.id_of n)) [
      | inl absent ↦ absurd (ground (arith, has_deps, absent))
      | inr (id, found) ↦ elim (Checked-cases (precede R at id ds f)) [
        | inr (err, failed) ↦ absurd (ground (arith, has_deps, found, failed))
        | inl (f1, done) ↦
            let (same, arcs) = precede-ArcsAre at id ds f f1 es h a done in
            let (kept, all) =
              precede_all-ArcsAre at ns f1 f' (es ++ deps_edges R id ds)
                (subst (λ ts. IsNamed ts at) (sym same) h)
                (subst (λ ts. ArcsAre ts f1.arcs (es ++ deps_edges R id ds)) (sym same) arcs)
                (ground (arith, has_deps, found, done)) in
            let cons : declared R (n ∷ ns) ≡ deps_edges R id ds ++ declared R ns =
              ground (arith, found, has_deps) in
            (
              kept ∙ same,
              subst (λ ts. ArcsAre ts f'.arcs (es ++ declared R (n ∷ ns))) same
                  (subst (ArcsAre f1.tasks f'.arcs)
                    (append_assoc es (deps_edges R id ds) (declared R ns)
                      ∙ ap (λ xs. es ++ xs) (sym cons))
                    all),
            )
      ]
    ]
  ]
    where
      no_edges :
          (n : J) (ns : List J)
          → R.deps n ≡ none
          → (R.id_of n ≡ none) ⊎ ((id : Bytes) × (R.id_of n ≡ some id))
          → declared R (n ∷ ns) ≡ declared R ns
      no_edges n ns leaf (inl absent) = ground (arith, absent)
      no_edges n ns leaf (inr (id, found)) = ground (arith, found, leaf)

  module _ {World Node : Type 0} (r : Registry World Node) where
    -- What the making of tasks leaves: named tasks of registered types.
    abbrev Made : Flow → List J → Flow × (Bytes → Option ℕ) → Type 0
    Made f ns (f', at') =
        IsNamed f'.tasks at'
        × AllRegistered r f'.tasks
        × (names f'.tasks ≡ names f.tasks ++ ids_of ns)
        × (f'.arcs ≡ f.arcs)

    check_types-cons :
        (n : J) (ns : List J) (type : Bytes)
        → R.type_of n ≡ some type
        → check_types R r (n ∷ ns) ≡ none
        → (has type r ≡ true) × (check_types R r ns ≡ none)
    unfolding check_types
    check_types-cons n ns type e c = (ground (arith, e), ground (arith, e))

    make_tasks-Made :
        (ns : List J) (f f' : Flow) (at at' : Bytes → Option ℕ)
        → IsNamed f.tasks at
        → AllRegistered r f.tasks
        → check_types R r ns ≡ none
        → make_tasks R ns f at ≡ good (f', at')
        → Made f ns (f', at')
    unfolding make_tasks
    make_tasks-Made [] f f' at at' h g c e =
        let same : f ≡ f' = ground arith in
        let same_at : at ≡ at' = ground arith in
        rw (← same, ← same_at) (h, g, sym (append-nil (names f.tasks)), refl)
    make_tasks-Made (n ∷ ns) f f' at at' h g c e = elim (Option-cases (R.id_of n)) [
      | inl absent ↦ absurd (ground (arith, absent))
      | inr (id, found) ↦ elim (Option-cases (R.type_of n)) [
        | inl absent ↦ absurd (ground (arith, found, absent))
        | inr (type, typed) ↦
            let t : Task = record { name = id; type = type } in
            let (known, rest) = check_types-cons n ns type typed c in
            let (h', g', all, arcs) =
              make_tasks-Made ns (record f { tasks = f.tasks ++ t ∷ [] }) f'
                (update at id (some (length f.tasks))) at' (IsNamed-snoc f.tasks t at h)
                (AllRegistered-snoc r f.tasks t g known) rest (ground (arith, found, typed)) in
            let cons : ids_of (n ∷ ns) ≡ id ∷ ids_of ns = ground (arith, found) in
            (
              h',
              g',
              all
                  ∙ ap (λ xs. xs ++ ids_of ns) (names-snoc f.tasks t)
                  ∙ append_assoc (names f.tasks) (id ∷ []) (ids_of ns)
                  ∙ ap (λ xs. names f.tasks ++ xs) (sym cons),
              arcs,
            )
      ]
    ]

    -- A flow that build returns has a task for each descriptor, in order, of a registered type; its
    -- arcs are the declared dependencies, in order, and have no cycle. The order in which unordered
    -- maps iterate is any.
    pub build_nodes-flow :
        (order : List Bytes → List Bytes) (ns : List J) (f : Flow)
        → IsIteration order
        → build_nodes R order r ns ≡ good f
        → (names f.tasks ≡ ids_of ns)
          × AllRegistered r f.tasks
          × ArcsAre f.tasks f.arcs (declared R ns)
          × ((rank : Bytes → ℕ) × IsRanked (declared R ns) rank)
    unfolding build_nodes
    build_nodes-flow order ns f each e = elim (Checked-cases (check_cycles R order ns)) [
      | inr (err, failed) ↦ absurd (ground (arith, failed))
      | inl (t, checked) ↦ elim (Option-cases (check_types R r ns)) [
        | inr (err, failed) ↦ absurd (ground (arith, checked, failed))
        | inl typed ↦ elim (Checked-cases (make_tasks R ns empty (λ k. none))) [
          | inr (err, failed) ↦ absurd (ground (arith, checked, typed, failed))
          | inl ((f1, at1), made) ↦
              let (h, g, all, bare) =
                make_tasks-Made ns empty f1 (λ k. none) at1 (λ id i a. cc) tt typed made in
              let start : ArcsAre f1.tasks f1.arcs [] = rw bare tt in
              let (kept, arcs) =
                precede_all-ArcsAre at1 ns f1 f [] h start (ground (arith, checked, typed, made)) in
              (
                ap names kept ∙ all,
                subst (AllRegistered r) (sym kept) g,
                subst (λ ts. ArcsAre ts f.arcs (declared R ns)) (sym kept) arcs,
                check_cycles-good R order each ns t checked,
              )
        ]
      ]
    ]
