-- ===== src/Engine/Load/States.antt =====
-- What the loops of loadConfig leave in the runtime states.
use mathlib.Core.List.{append_assoc, append-nil}
use cpp20_workflow_engine.Shared.{
  ◌<◌, ◌≡◌, refl, sym, subst, ◌≢◌, ◌∙◌, inl, inr, true, Bool-cases, none, some, List, [], ◌∷◌, ◌++◌,
  map, arith, Bytes, str_eq_iff, str_eq_refl, count, count-append, update, IsDistinct,
}
use cpp20_workflow_engine.Dag.{Edge, targets, has_edge}
use cpp20_workflow_engine.Engine.{NodeConfig, NodeRuntimeState, Engine, edges, config_ids}
use cpp20_workflow_engine.Engine.Read.{cycle}
use cpp20_workflow_engine.Engine.Load.{
  new_state, has_node, build_states, unknown_in, unknown_deps, push_downstream, link_node, link,
}
use cpp20_workflow_engine.Engine.Load.Degrees.{targets-append, has_edge-append, has_edge-node}

-- The static fields of the runtime states are those of the configuration.
abbrev pub Describes : List NodeConfig → (Bytes → NodeRuntimeState) → Type 0
Describes [] m = Unit {0}
Describes (c ∷ cs) m =
    ((m c.id).type ≡ c.type) × ((m c.id).max_retries ≡ c.max_retries) × Describes cs m

module _ {Ctx : Type 0} where
  abbrev pub Unlinked : Engine Ctx → Type 0
  Unlinked e = (u : Bytes) → (e.node_states u).downstream ≡ []

  abbrev added : NodeConfig → Engine Ctx → Engine Ctx
  added c e = record e {
    node_ids = e.node_ids ++ c.id ∷ [];
    node_states = update e.node_states c.id (new_state c);
  }

  -- The states of a build without exception.
  pub record IsBuilt (cs : List NodeConfig) (e t : Engine Ctx) : Type 0 where
    pub ids : t.node_ids ≡ e.node_ids ++ config_ids cs
    pub configs : t.node_configs ≡ e.node_configs
    pub distinct : IsDistinct t.node_ids
    pub unlinked : Unlinked t
    pub old : (k : Bytes) → 0 < count k e.node_ids → t.node_states k ≡ e.node_states k
    pub rest : (k : Bytes) → count k (config_ids cs) ≡ 0 → t.node_states k ≡ e.node_states k
    pub described : Describes cs t.node_states

  pub build_states-IsBuilt :
      (cs : List NodeConfig) (e t : Engine Ctx)
      → IsDistinct e.node_ids
      → Unlinked e
      → build_states cs e ≡ (t, none)
      → IsBuilt cs e t
  unfolding build_states
  build_states-IsBuilt [] e t d u h = record {
    ids = ground (arith, append-nil e.node_ids);
    configs = ground arith;
    distinct = λ k. ground (arith, d k);
    unlinked = λ k. ground (arith, u k);
    old = λ k p. ground arith;
    rest = λ k p. ground arith;
    described = tt;
  }
  build_states-IsBuilt (c ∷ cs) e t d u h = elim (Bool-cases (has_node e c.id)) [
    | inl known ↦ absurd (ground arith)
    | inr new ↦
        let ih =
          build_states-IsBuilt cs (added c e) t
            (λ k. ground (arith, d k, count-append k e.node_ids (c.id ∷ []), str_eq_iff k c.id))
            (λ k. ground (arith, u k)) (rw new at h) in
        let here =
          ih.old c.id
            (ground (arith, count-append c.id e.node_ids (c.id ∷ []), str_eq_refl c.id)) in
        record {
          ids = ih.ids ∙ append_assoc e.node_ids (c.id ∷ []) (config_ids cs);
          configs = ih.configs;
          distinct = ih.distinct;
          unlinked = ih.unlinked;
          old = λ k p.
              ground (arith, ih.old k, count-append k e.node_ids (c.id ∷ []), str_eq_iff k c.id);
          rest = λ k p. ground (arith, ih.rest k);
          described = (
            ground (arith, here, str_eq_refl c.id),
            ground (arith, here, str_eq_refl c.id),
            ih.described,
          );
        }
  ]

  -- Distinct ids are all built.
  pub build_states-none :
      (cs : List NodeConfig) (e : Engine Ctx)
      → IsDistinct (e.node_ids ++ config_ids cs)
      → (build_states cs e).1 ≡ none
  unfolding build_states
  build_states-none [] e d = refl
  build_states-none (c ∷ cs) e d = ground (
    arith,
    build_states-none cs (added c e)
        (subst IsDistinct (sym (append_assoc e.node_ids (c.id ∷ []) (config_ids cs))) d),
    d c.id,
    count-append c.id e.node_ids (c.id ∷ config_ids cs),
    str_eq_refl c.id,
  )

  pub build_states_ne_cycle :
      (cs : List NodeConfig) (e : Engine Ctx) (ids : List Bytes)
      → (build_states cs e).1 ≢ some (cycle ids)
  unfolding build_states
  build_states_ne_cycle [] e ids h = cc
  build_states_ne_cycle (c ∷ cs) e ids h = ground (arith, build_states_ne_cycle cs (added c e) ids)

  unknown_in_ne_cycle :
      (e : Engine Ctx) (id : Bytes) (ds ids : List Bytes) → unknown_in e id ds ≢ some (cycle ids)
  unfolding unknown_in
  unknown_in_ne_cycle e id [] ids h = cc
  unknown_in_ne_cycle e id (d ∷ ds) ids h = ground (arith, unknown_in_ne_cycle e id ds ids)

  pub unknown_deps_ne_cycle :
      (e : Engine Ctx) (cs : List NodeConfig) (ids : List Bytes)
      → unknown_deps e cs ≢ some (cycle ids)
  unfolding unknown_deps
  unknown_deps_ne_cycle e [] ids h = cc
  unknown_deps_ne_cycle e (c ∷ cs) ids h =
      ground (arith, unknown_in_ne_cycle e c.id c.dependencies ids, unknown_deps_ne_cycle e cs ids)

  unknown_in_of_known :
      (e : Engine Ctx) (id : Bytes) (ds : List Bytes)
      → ((u : Bytes) → has_edge (map (λ d. (d, id)) ds) u id ≡ true → 0 < count u e.node_ids)
      → unknown_in e id ds ≡ none
  unfolding unknown_in
  unknown_in_of_known e id [] h = refl
  unknown_in_of_known e id (d ∷ ds) h = ground (
    arith,
    h d,
    unknown_in_of_known e id ds (λ u p. h u (ground arith)),
    str_eq_refl d,
    str_eq_refl id,
  )

  -- If every declared dependency is a node, none is reported.
  pub unknown_deps_of_known :
      (e : Engine Ctx) (cs : List NodeConfig)
      → ((u v : Bytes) → has_edge (edges cs) u v ≡ true → 0 < count u e.node_ids)
      → unknown_deps e cs ≡ none
  unfolding unknown_deps
  unknown_deps_of_known e [] h = refl
  unknown_deps_of_known e (c ∷ cs) h =
      let split =
        λ (u v : Bytes). has_edge-append (map (λ d. (d, c.id)) c.dependencies) (edges cs) u v in
      ground (
        arith,
        unknown_in_of_known e c.id c.dependencies (λ u p. h u c.id (ground (arith, split u c.id))),
        unknown_deps_of_known e cs (λ u v p. h u v (ground (arith, split u v))),
      )

  unknown_in-none :
      (e : Engine Ctx) (id : Bytes) (ds : List Bytes) (u : Bytes)
      → unknown_in e id ds ≡ none
      → 0 < count u ds
      → 0 < count u e.node_ids
  unfolding unknown_in
  unknown_in-none e id [] u h p = absurd (omega arith)
  unknown_in-none e id (d ∷ ds) u h p = ground (arith, unknown_in-none e id ds u, str_eq_iff u d)

  -- Without exception every dependency is the id of a node.
  pub unknown_deps-none :
      (e : Engine Ctx) (cs : List NodeConfig) (u v : Bytes)
      → unknown_deps e cs ≡ none
      → has_edge (edges cs) u v ≡ true
      → 0 < count u e.node_ids
  unfolding unknown_deps
  unknown_deps-none e [] u v h p = cc
  unknown_deps-none e (c ∷ cs) u v h p = ground (
    arith,
    has_edge-append (map (λ d. (d, c.id)) c.dependencies) (edges cs) u v,
    has_edge-node c.id c.dependencies u v,
    unknown_in-none e c.id c.dependencies u,
    unknown_deps-none e cs u v,
  )

  -- `link` changes nothing but the adjacency lists, and appends the declared edges to them.
  pub record IsLinked (es : List Edge) (e t : Engine Ctx) : Type 0 where
    pub ids : t.node_ids ≡ e.node_ids
    pub configs : t.node_configs ≡ e.node_configs
    pub types : (u : Bytes) → (t.node_states u).type ≡ (e.node_states u).type
    pub retries : (u : Bytes) → (t.node_states u).max_retries ≡ (e.node_states u).max_retries
    pub statuses : (u : Bytes) → (t.node_states u).node_state ≡ (e.node_states u).node_state
    pub counters :
        (u : Bytes) → (t.node_states u).uncompleted_deps ≡ (e.node_states u).uncompleted_deps
    pub lists :
        (u : Bytes) → (t.node_states u).downstream ≡ (e.node_states u).downstream ++ targets es u

  link_node-IsLinked :
      (id : Bytes) (ds : List Bytes) (e : Engine Ctx)
      → IsLinked (map (λ d. (d, id)) ds) e (link_node id ds e)
  unfolding link_node
  link_node-IsLinked id [] e = record {
    ids = refl;
    configs = refl;
    types = λ u. refl;
    retries = λ u. refl;
    statuses = λ u. refl;
    counters = λ u. refl;
    lists = λ u. sym (append-nil (e.node_states u).downstream);
  }
  link_node-IsLinked id (d ∷ ds) e =
      let ih = link_node-IsLinked id ds (push_downstream id d e) in
      record {
        ids = ih.ids;
        configs = ih.configs;
        types = λ u. ground (arith, ih.types u, str_eq_iff u d);
        retries = λ u. ground (arith, ih.retries u, str_eq_iff u d);
        statuses = λ u. ground (arith, ih.statuses u, str_eq_iff u d);
        counters = λ u. ground (arith, ih.counters u, str_eq_iff u d);
        lists = λ u. ground (
          arith,
          ih.lists u,
          str_eq_iff u d,
          str_eq_iff d u,
          append_assoc (e.node_states d).downstream (id ∷ []) (targets (map (λ b. (b, id)) ds) u),
        );
      }

  pub link-IsLinked : (cs : List NodeConfig) (e : Engine Ctx) → IsLinked (edges cs) e (link cs e)
  unfolding link
  link-IsLinked [] e = unfold link_node in link_node-IsLinked [] [] e
  link-IsLinked (c ∷ cs) e =
      let first = link_node-IsLinked c.id c.dependencies e in
      let ih = link-IsLinked cs (link_node c.id c.dependencies e) in
      record {
        ids = ih.ids ∙ first.ids;
        configs = ih.configs ∙ first.configs;
        types = λ u. ih.types u ∙ first.types u;
        retries = λ u. ih.retries u ∙ first.retries u;
        statuses = λ u. ih.statuses u ∙ first.statuses u;
        counters = λ u. ih.counters u ∙ first.counters u;
        lists = λ u. ground (
          arith,
          ih.lists u,
          first.lists u,
          targets-append (map (λ d. (d, c.id)) c.dependencies) (edges cs) u,
          append_assoc (e.node_states u).downstream
              (targets (map (λ d. (d, c.id)) c.dependencies) u) (targets (edges cs) u),
        );
      }

  pub Describes-link :
      (cs : List NodeConfig) {es : List Edge} {e t : Engine Ctx}
      → IsLinked es e t
      → Describes cs e.node_states
      → Describes cs t.node_states
  Describes-link [] l d = tt
  Describes-link (c ∷ cs) l d = (l.types c.id ∙ d.0, l.retries c.id ∙ d.1, Describes-link cs l d.2)
