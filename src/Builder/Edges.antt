-- ===== src/Builder/Edges.antt =====
-- The tables of check_cycles against the edges that the descriptors declare.
use cpp20_workflow_engine.Shared.{
  ◌≤◌, ◌<◌, ◌≡◌, refl, sym, ap, subst, ◌∙◌, ◌⊎◌, inl, inr, true, Bool-cases, Option-cases, none,
  some, List, [], ◌∷◌, ◌++◌, arith, append-nil, append_assoc, ◌==◌, if◌then◌else◌, Bytes, str_eq,
  str_eq_iff, str_eq_refl, count, count-append, IsDistinct,
}
use cpp20_workflow_engine.Shared.Int.{pos}
use cpp20_workflow_engine.Dag.{Edge, targets, has_edge, open_in}
use cpp20_workflow_engine.Engine.Load.Degrees.{open_in-append, has_edge-append}
use cpp20_workflow_engine.Builder.{
  Reader, BuildError, good, fails, Checked, Tables, no_tables, emplace, add_edge, collect, add_deps,
  wire,
}

targets-snoc :
    (es : List Edge) (d v u : Bytes)
    → targets (es ++ (d, v) ∷ []) u ≡ (if str_eq d u then targets es u ++ v ∷ [] else targets es u)
targets-snoc [] d v u = ground arith
targets-snoc ((x, y) ∷ es) d v u = ground (arith, targets-snoc es d v u)

pub Checked-cases :
    {A : Type 0} (c : Checked A) → ((a : A) × (c ≡ good a)) ⊎ ((err : BuildError) × (c ≡ fails err))
Checked-cases (good a) = inl (a, refl)
Checked-cases (fails err) = inr (err, refl)

module _ {J : Type 0} (R : Reader J) where
  -- The edges that the descriptors declare, in order.
  abbrev pub deps_edges : Bytes → List J → List Edge
  deps_edges id [] = []
  deps_edges id (d ∷ ds) = elim (R.text d) [
    | none ↦ deps_edges id ds
    | some dep ↦ (dep, id) ∷ deps_edges id ds
  ]

  abbrev pub node_edges : J → List Edge
  node_edges n = elim (R.id_of n) [
    | none ↦ []
    | some id ↦ elim (R.deps n) [ none ↦ [] | some ds ↦ deps_edges id ds ]
  ]

  abbrev pub declared : List J → List Edge
  declared [] = []
  declared (n ∷ ns) = node_edges n ++ declared ns

  -- The tables describe the edges `es` between the ids.
  pub record IsTables (es : List Edge) (t : Tables) : Type 0 where
    pub distinct : IsDistinct t.ids
    pub lists : (u : Bytes) → t.adj u ≡ targets es u
    pub degree : (v : Bytes) → t.in_degree v ≡ pos (open_in [] es v)
    pub sources : (u v : Bytes) → has_edge es u v ≡ true → 0 < count u t.ids
    pub goals : (v : Bytes) → 0 < open_in [] es v → 0 < count v t.ids

  emplace-IsTables : (id : Bytes) (t : Tables) → IsTables [] t → IsTables [] (emplace id t)
  unfolding emplace
  emplace-IsTables id t h = elim (Bool-cases (count id t.ids == 0)) [
    | inl new ↦ rw new (record {
      distinct = λ k. ground (arith, h.distinct k, count-append k t.ids (id ∷ []), str_eq_iff k id);
      lists = λ u. ground (arith, h.lists u);
      degree = λ v. ground (arith, h.degree v);
      sources = λ u v e. cc;
      goals = λ v p. absurd (omega arith);
    })
    | inr old ↦ rw old h
  ]

  count-emplace :
      (id k : Bytes) (t : Tables)
      → (count k t.ids ≤ count k (emplace id t).ids) × (0 < count id (emplace id t).ids)
  unfolding emplace
  count-emplace id k t = (
    ground (arith, count-append k t.ids (id ∷ [])),
    ground (arith, count-append id t.ids (id ∷ []), str_eq_refl id),
  )

  -- Every descriptor has an id among the keys.
  abbrev pub AllNamed : Tables → List J → Type 0
  AllNamed t [] = Unit {0}
  AllNamed t (n ∷ ns) = ((id : Bytes) → R.id_of n ≡ some id → 0 < count id t.ids) × AllNamed t ns

  collect-IsTables :
      (ns : List J) (t t' : Tables)
      → IsTables [] t
      → collect R ns t ≡ good t'
      → IsTables [] t' × ((k : Bytes) → count k t.ids ≤ count k t'.ids) × AllNamed t' ns
  unfolding collect
  collect-IsTables [] t t' h e =
      let same : t ≡ t' = ground arith in rw (← same) (h, λ k. omega arith, tt)
  collect-IsTables (n ∷ ns) t t' h e = elim (Option-cases (R.id_of n)) [
    | inl absent ↦ absurd (ground (arith, absent))
    | inr (id, found) ↦
        let (tables, more, named) =
          collect-IsTables ns (emplace id t) t' (emplace-IsTables id t h) (ground (arith, found)) in
        (
          tables,
          λ k. omega (arith, more k, (count-emplace id k t).0),
          (λ j same. ground (arith, more id, (count-emplace id id t).1, found, same), named),
        )
  ]

  add_edge-IsTables :
      (es : List Edge) (dep id : Bytes) (t : Tables)
      → 0 < count dep t.ids
      → 0 < count id t.ids
      → IsTables es t
      → IsTables (es ++ (dep, id) ∷ []) (add_edge dep id t)
  unfolding add_edge
  add_edge-IsTables es dep id t p q h = record {
    distinct = h.distinct;
    lists = λ u. ground (
      arith,
      h.lists u,
      h.lists dep,
      targets-snoc es dep id u,
      str_eq_iff u dep,
      str_eq_iff dep u,
    );
    degree = λ v.
        ground (
          arith,
          h.degree v,
          h.degree id,
          open_in-append [] es ((dep, id) ∷ []) v,
          str_eq_iff v id,
        );
    sources = λ u v e.
        ground (arith, h.sources u v, has_edge-append es ((dep, id) ∷ []) u v, str_eq_iff u dep);
    goals =
        λ v k. ground (arith, h.goals v, open_in-append [] es ((dep, id) ∷ []) v, str_eq_iff v id);
  }

  add_deps-IsTables :
      (ds : List J) (id : Bytes) (es : List Edge) (t t' : Tables)
      → 0 < count id t.ids
      → IsTables es t
      → add_deps R id ds t ≡ good t'
      → IsTables (es ++ deps_edges id ds) t' × (t'.ids ≡ t.ids)
  unfolding add_deps
  add_deps-IsTables [] id es t t' p h e =
      let same : t ≡ t' = ground arith in rw (← same, append-nil es) (h, refl)
  add_deps-IsTables (d ∷ ds) id es t t' p h e = elim (Option-cases (R.text d)) [
    | inl absent ↦ absurd (ground (arith, absent))
    | inr (dep, found) ↦
        let known : 0 < count dep t.ids = ground (arith, found) in
        let (tables, same) =
          add_deps-IsTables ds id (es ++ (dep, id) ∷ []) (add_edge dep id t) t' p
            (add_edge-IsTables es dep id t known p h) (ground (arith, found)) in
        let cons : deps_edges id (d ∷ ds) ≡ (dep, id) ∷ deps_edges id ds = ground (arith, found) in
        (
          subst (λ xs. IsTables xs t')
              (append_assoc es ((dep, id) ∷ []) (deps_edges id ds) ∙ ap (λ xs. es ++ xs) (sym cons))
              tables,
          same,
        )
  ]

  rename : (ns : List J) (t t' : Tables) → t'.ids ≡ t.ids → AllNamed t ns → AllNamed t' ns
  rename [] t t' same n = tt
  rename (x ∷ ns) t t' same n = (λ id found. rw same (n.0 id found), rename ns t t' same n.1)

  wire-IsTables :
      (ns : List J) (es : List Edge) (t t' : Tables)
      → AllNamed t ns
      → IsTables es t
      → wire R ns t ≡ good t'
      → IsTables (es ++ declared ns) t' × (t'.ids ≡ t.ids)
  unfolding wire
  wire-IsTables [] es t t' n h e =
      let same : t ≡ t' = ground arith in rw (← same, append-nil es) (h, refl)
  wire-IsTables (x ∷ ns) es t t' n h e = elim (Option-cases (R.id_of x)) [
    | inl absent ↦ absurd (ground (arith, absent))
    | inr (id, found) ↦ elim (Option-cases (R.deps x)) [
      | inl leaf ↦
          let (all, kept) = wire-IsTables ns es t t' n.1 h (ground (arith, found, leaf)) in
          let bare : declared (x ∷ ns) ≡ declared ns = ground (arith, found, leaf) in
          (subst (λ xs. IsTables (es ++ xs) t') (sym bare) all, kept)
      | inr (ds, has_deps) ↦ elim (Checked-cases (add_deps R id ds t)) [
        | inl (t1, added) ↦
            let (tables, same) = add_deps-IsTables ds id es t t1 (n.0 id found) h added in
            let (all, kept) =
              wire-IsTables ns (es ++ deps_edges id ds) t1 t' (rename ns t t1 same n.1) tables
                (ground (arith, found, has_deps, added)) in
            let cons : declared (x ∷ ns) ≡ deps_edges id ds ++ declared ns =
              ground (arith, found, has_deps) in
            (
              subst (λ xs. IsTables xs t')
                  (append_assoc es (deps_edges id ds) (declared ns)
                    ∙ ap (λ xs. es ++ xs) (sym cons))
                  all,
              kept ∙ same,
            )
        | inr (err, failed) ↦ absurd (ground (arith, found, has_deps, failed))
      ]
    ]
  ]

  -- What the two loops of `check_cycles` leave behind, where they raise no exception.
  pub tables_of :
      (ns : List J) (t t' : Tables)
      → collect R ns no_tables ≡ good t
      → wire R ns t ≡ good t'
      → IsTables (declared ns) t'
  tables_of ns t t' c w =
      let (tables, more, named) = collect-IsTables ns no_tables t none_yet c in
      (wire-IsTables ns [] t t' named tables w).0
    where
      none_yet : IsTables [] no_tables
      none_yet = record {
        distinct = λ k. omega arith;
        lists = λ u. refl;
        degree = λ v. refl;
        sources = λ u v e. cc;
        goals = λ v p. absurd (omega arith);
      }
