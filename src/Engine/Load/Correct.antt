-- ===== src/Engine/Load/Correct.antt =====
-- What loadConfig leaves behind, whatever its verdict (src/WorkflowEngine.cpp).
use cpp20_workflow_engine.Shared.{
  ℕ, ◌<◌, ◌≡◌, refl, sym, ap, ◌∙◌, true, none, some, List, [], ◌++◌, arith, Bytes, count,
  IsDistinct,
}
use cpp20_workflow_engine.Dag.{targets, has_edge, IsRanked}
use cpp20_workflow_engine.Engine.{Engine, blank_state, edges, config_ids}
use cpp20_workflow_engine.Engine.Read.{cycle}
use cpp20_workflow_engine.Engine.Load.{
  valid, cyclic, build_states, unknown_deps, link, validate_dag, install,
}
use cpp20_workflow_engine.Engine.Load.States.{
  build_states-IsBuilt, build_states-none, build_states_ne_cycle, unknown_deps_ne_cycle,
  unknown_deps_of_known, unknown_deps-none, link-IsLinked, Describes-link,
}
use cpp20_workflow_engine.Engine.Load.Validate.{IsIteration, IsLoaded, validate_dag-valid}

module _ {Ctx : Type 0} where
  abbrev pub emptied : Engine Ctx → Engine Ctx
  emptied e = record e { node_ids = []; node_states = λ _. blank_state }

  abbrev pub built : Engine Ctx → Engine Ctx
  built e = (build_states e.node_configs (emptied e)).0

  linked-IsLoaded :
      (e : Engine Ctx)
      → (build_states e.node_configs (emptied e)).1 ≡ none
      → unknown_deps (built e) (built e).node_configs ≡ none
      → IsLoaded (link (built e).node_configs (built e))
        × ((link (built e).node_configs (built e)).node_configs ≡ e.node_configs)
  linked-IsLoaded e none_thrown all_known =
      let b =
        build_states-IsBuilt e.node_configs (emptied e) (built e) (λ k. omega arith) (λ u. refl)
          (λ i. ((built e), none_thrown i)) in
      let l = link-IsLinked (built e).node_configs (built e) in
      let same : (link (built e).node_configs (built e)).node_configs ≡ e.node_configs =
        l.configs ∙ b.configs in
      (
        record {
          ids = l.ids ∙ b.ids ∙ ap config_ids (sym same);
          distinct = rw (same, ← b.ids) b.distinct;
          known = λ u v edge.
              rw (same, ← b.ids)
                (unknown_deps-none (built e) (built e).node_configs u v all_known
                  (ap (λ cs. has_edge (edges cs) u v) (sym l.configs) ∙ edge));
          lists = λ u.
              l.lists u
              ∙ ap (λ xs. xs ++ targets (edges (built e).node_configs) u) (b.unlinked u)
              ∙ ap (λ cs. targets (edges cs) u) (sym l.configs);
          described = rw same (Describes-link e.node_configs l b.described);
          others = λ u p.
              let out = b.rest u (rw same at p) in
              (
                l.statuses u ∙ ap (λ s. s.node_state) out,
                l.counters u ∙ ap (λ s. s.uncompleted_deps) out,
              );
        },
        same,
      )

  abbrev pub linked : Engine Ctx → Engine Ctx
  linked e = link (built e).node_configs (built e)

  install-valid :
      (order : List Bytes → List Bytes) (e t : Engine Ctx)
      → install order e ≡ (t, none)
      → ((build_states e.node_configs (emptied e)).1 ≡ none)
        × (unknown_deps (built e) (built e).node_configs ≡ none)
        × (t ≡ linked e)
        × (validate_dag order (linked e) ≡ valid)
  unfolding install
  install-valid order e t h = (ground arith, ground arith, ground arith, ground arith)

  install-cyclic :
      (order : List Bytes → List Bytes) (e t : Engine Ctx) (ids : List Bytes)
      → install order e ≡ (t, some (cycle ids))
      → ((build_states e.node_configs (emptied e)).1 ≡ none)
        × (unknown_deps (built e) (built e).node_configs ≡ none)
        × (t ≡ linked e)
        × (validate_dag order (linked e) ≡ cyclic ids)
  unfolding install
  install-cyclic order e t ids h = (
    ground (
      arith,
      build_states_ne_cycle e.node_configs (emptied e) ids,
      unknown_deps_ne_cycle (built e) (built e).node_configs ids,
    ),
    ground (
      arith,
      build_states_ne_cycle e.node_configs (emptied e) ids,
      unknown_deps_ne_cycle (built e) (built e).node_configs ids,
    ),
    ground (
      arith,
      build_states_ne_cycle e.node_configs (emptied e) ids,
      unknown_deps_ne_cycle (built e) (built e).node_configs ids,
    ),
    ground (
      arith,
      build_states_ne_cycle e.node_configs (emptied e) ids,
      unknown_deps_ne_cycle (built e) (built e).node_configs ids,
    ),
  )

  -- Where the loading ends without an exception, the engine holds the graph that its configuration
  -- declares, the configuration is unchanged, and the graph has a ranking.
  pub install-IsLoaded :
      (order : List Bytes → List Bytes) (e t : Engine Ctx)
      → IsIteration order
      → install order e ≡ (t, none)
      → IsLoaded t
        × (t.node_configs ≡ e.node_configs)
        × ((rank : Bytes → ℕ) × IsRanked (edges t.node_configs) rank)
  install-IsLoaded order e t each h =
      let (thrown, unknown, same, verdict) = install-valid order e t h in
      let (loaded, configs) = linked-IsLoaded e thrown unknown in
      rw same (loaded, configs, (validate_dag-valid order each (linked e) loaded).0 verdict)

  -- Where the loading ends with the exception for a cycle, the engine holds the graph of the refused
  -- configuration, and that graph has no ranking.
  pub install-keeps-cycle :
      (order : List Bytes → List Bytes) (e t : Engine Ctx) (ids : List Bytes)
      → IsIteration order
      → install order e ≡ (t, some (cycle ids))
      → IsLoaded t
        × (t.node_configs ≡ e.node_configs)
        × ¬ ((rank : Bytes → ℕ) × IsRanked (edges t.node_configs) rank)
  install-keeps-cycle order e t ids each h =
      let (thrown, unknown, same, verdict) = install-cyclic order e t ids h in
      let (loaded, configs) = linked-IsLoaded e thrown unknown in
      rw same (loaded, configs, λ r. cc ((validate_dag-valid order each (linked e) loaded).1 r))

  -- A configuration whose ids are distinct, whose dependencies are ids and whose graph has a ranking
  -- is loaded without an exception.
  pub install_accepts :
      (order : List Bytes → List Bytes) (e : Engine Ctx) (rank : Bytes → ℕ)
      → IsIteration order
      → IsDistinct (config_ids e.node_configs)
      → ((u v : Bytes)
          → has_edge (edges e.node_configs) u v ≡ true
          → 0 < count u (config_ids e.node_configs))
      → IsRanked (edges e.node_configs) rank
      → install order e ≡ (linked e, none)
  unfolding install
  install_accepts order e rank each d known r =
      let thrown = build_states-none e.node_configs (emptied e) d in
      let b =
        build_states-IsBuilt e.node_configs (emptied e) (built e) (λ k. omega arith) (λ u. refl)
          (λ i. (built e, thrown i)) in
      let unknown =
        unknown_deps_of_known (built e) (built e).node_configs (rw (b.configs, b.ids) known) in
      let (loaded, configs) = linked-IsLoaded e thrown unknown in
      let verdict = (validate_dag-valid order each (linked e) loaded).1 (rank, rw configs r) in
      ground (arith, thrown, unknown, verdict)
