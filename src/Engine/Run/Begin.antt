-- ===== src/Engine/Run/Begin.antt =====
-- `run` sets up a state in which the invariant holds.
use cpp20_workflow_engine.Shared.{
  ℕ, ◌≡◌, refl, ◌∙◌, ap, inl, inr, true, some, List, [], ◌∷◌, arith, length, length-map, List-cases,
  ◌==◌, if◌then◌else◌, Bytes, str_eq_iff, count, update, IsDistinct,
}
use cpp20_workflow_engine.Shared.Int.{pos}
use cpp20_workflow_engine.Dag.{Edge, open_in}
use cpp20_workflow_engine.Node.{pending}
use cpp20_workflow_engine.Engine.{NodeConfig, Engine, edges, config_ids}
use cpp20_workflow_engine.Engine.Load.Degrees.{open_in-edges, open_in-none}
use cpp20_workflow_engine.Engine.Load.Validate.{IsLoaded}
use cpp20_workflow_engine.Engine.Run.{reset, root_ids, begin}
use cpp20_workflow_engine.Engine.Run.Invariant.{
  Inv, state_of, into, weigh, not_success, is_bad, is_final,
}

into-ones :
    (es : List Edge) {w : Bytes → ℕ} (v : Bytes)
    → ((u : Bytes) → w u ≡ 1)
    → into es w v ≡ open_in [] es v
into-ones [] v h = refl
into-ones ((d, x) ∷ es) v h = ground (arith, into-ones es v h, h d)

into-zeros :
    (es : List Edge) {w : Bytes → ℕ} (v : Bytes) → ((u : Bytes) → w u ≡ 0) → into es w v ≡ 0
into-zeros [] v h = refl
into-zeros ((d, x) ∷ es) v h = ground (arith, into-zeros es v h, h d)

weigh-zeros : (ks : List Bytes) {w : Bytes → ℕ} → ((u : Bytes) → w u ≡ 0) → weigh w ks ≡ 0
weigh-zeros [] h = refl
weigh-zeros (k ∷ ks) h = omega (arith, weigh-zeros ks h, h k)

-- The roots are the ids without an edge into them.
count-root_ids :
    (cs : List NodeConfig) (v : Bytes)
    → IsDistinct (config_ids cs)
    → count v (root_ids cs) ≡ (if open_in [] (edges cs) v == 0 then count v (config_ids cs) else 0)
unfolding root_ids
count-root_ids [] v d = ground arith
count-root_ids (c ∷ cs) v d =
    let ih = count-root_ids cs v (λ k. omega (arith, d k)) in
    elim (List-cases c.dependencies) [
      | inl e ↦
          rw (e, root_ids)
            (ground (arith, ih, open_in-edges c cs v, ap length e, open_in-none cs v, d v))
      | inr (x, xs, e) ↦
          rw (e, root_ids)
            (ground (arith, ih, open_in-edges c cs v, ap length e, open_in-none cs v, d v))
    ]

module _ {Ctx : Type 0} where
  -- What `reset` leaves of a runtime state.
  record IsReset (cs : List NodeConfig) (e t : Engine Ctx) : Type 0 where
    latches : t.completion_latch ≡ e.completion_latch
    lists : (v : Bytes) → (t.node_states v).downstream ≡ (e.node_states v).downstream
    states :
        (v : Bytes)
        → state_of t v ≡ (if count v (config_ids cs) == 0 then state_of e v else pending)
    counters :
        (v : Bytes)
        → (t.node_states v).uncompleted_deps ≡ (
            if count v (config_ids cs) == 0
            then (e.node_states v).uncompleted_deps
            else pos (open_in [] (edges cs) v))

  reset-IsReset :
      (cs : List NodeConfig) (e : Engine Ctx)
      → IsDistinct (config_ids cs)
      → IsReset cs e (reset cs e)
  unfolding reset
  reset-IsReset [] e d = record {
    latches = refl;
    lists = λ v. refl;
    states = λ v. refl;
    counters = λ v. refl;
  }
  reset-IsReset (c ∷ cs) e d =
      let e1 : Engine Ctx = record e {
        node_states = update e.node_states c.id (record (e.node_states c.id) {
          uncompleted_deps = pos (length c.dependencies);
          node_state = pending;
        });
      } in
      let ih = reset-IsReset cs e1 (λ k. omega (arith, d k)) in
      record {
        latches = ih.latches;
        lists = λ v. ground (arith, ih.lists v, str_eq_iff v c.id);
        states = λ v. ground (arith, ih.states v, d v);
        counters = λ v. ground (arith, ih.counters v, d v, open_in-edges c cs v, open_in-none cs v);
      }

  -- A loaded engine starts its run in a state that satisfies the invariant.
  pub begin-Inv :
      (cleared : Ctx) (e : Engine Ctx)
      → IsLoaded e
      → Inv
          (edges e.node_configs)
          (config_ids e.node_configs)
          (begin cleared e).engine
          (begin cleared e).threads
  unfolding begin
  begin-Inv cleared e l = record {
    left = length e.node_configs;
    latch = r.latches;
    balance = omega (
      arith,
      length-map (λ (c : NodeConfig). c.id) e.node_configs,
      weigh-zeros (config_ids e.node_configs) (λ u. ap is_final (fresh u)),
    );
    lists = λ u. r.lists u ∙ l.lists u;
    inside = λ v p. ground (arith, roots v);
    outside = λ v p. fresh v;
    owner = λ v. ground (arith, fresh v);
    counter = λ v. ground (arith, r.counters v, waits v, l.others v, open_in-none e.node_configs v);
    ready = λ v p q w. ground (arith, roots v, waits v);
    granted = λ v p. ground (arith, roots v, waits v);
    ran = λ v p. ground (arith, fresh v);
    doomed = λ v p q. ground (arith, spoils v);
    blamed = λ v p. ground arith;
    fell = λ v p. ground (arith, fresh v);
  }
    where
      e0 : Engine Ctx
      e0 = record e { running = true; completion_latch = some (length e.node_configs) }

      r : IsReset e.node_configs e0 (reset e.node_configs e0)
      r = reset-IsReset e.node_configs e0 l.distinct

      fresh : (v : Bytes) → state_of (reset e.node_configs e0) v ≡ pending
      fresh v = ground (arith, r.states v, l.others v)

      waits :
          (v : Bytes)
          → into (edges e.node_configs) (λ u. not_success (state_of (reset e.node_configs e0) u)) v
            ≡ open_in [] (edges e.node_configs) v
      waits v = into-ones (edges e.node_configs) v (λ u. ap not_success (fresh u))

      spoils :
          (v : Bytes)
          → into (edges e.node_configs) (λ u. is_bad (state_of (reset e.node_configs e0) u)) v ≡ 0
      spoils v = into-zeros (edges e.node_configs) v (λ u. ap is_bad (fresh u))

      roots :
          (v : Bytes)
          → count v (root_ids e.node_configs) ≡ (
              if open_in [] (edges e.node_configs) v == 0
              then count v (config_ids e.node_configs)
              else 0)
      roots v = count-root_ids e.node_configs v l.distinct
