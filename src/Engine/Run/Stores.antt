-- ===== src/Engine/Run/Stores.antt =====
-- Starting a node and storing how it ended keep the invariant of a run.
use cpp20_workflow_engine.Shared.{
  ℕ, ◌+◌, ◌≤◌, ◌<◌, ◌≡◌, refl, ap, inl, inr, true, Bool-cases, List, arith, ◌==◌, Bytes, str_eq,
  str_eq_iff, str_eq_refl, count, IsDistinct,
}
use cpp20_workflow_engine.Dag.{Edge, targets}
use cpp20_workflow_engine.Node.{pending, running, success, failed}
use cpp20_workflow_engine.Engine.{Engine}
use cpp20_workflow_engine.Engine.Run.{
  Action, schedule, store_success, store_failed, Thread, Attempt, set_state, act,
}
use cpp20_workflow_engine.Engine.Run.Count.{
  total, owns, schedules, notifies, cancels, names, count_downs,
}
use cpp20_workflow_engine.Engine.Run.Invariant.{Inv, state_of, not_success, is_bad, is_final}
use cpp20_workflow_engine.Engine.Run.Light.{made}
use cpp20_workflow_engine.Engine.Run.Moves.{into_kept, into_less, into_more, weigh_kept, weigh_more}

module _ (es : List Edge) (ids : List Bytes) (distinct : IsDistinct ids)
    (known : (u v : Bytes) → 0 < count v (targets es u) → 0 < count v ids) {Ctx : Type 0}
    (attempt : Attempt) (ctx : Ctx) (e : Engine Ctx) (ts ts' : List Thread)
    (h : Inv es ids e ts) where
  abbrev pub Totals : Action → Type 0
  Totals a = (f : Action → ℕ) → total f ts' + f a ≡ total f ts + made attempt ctx e f a

  abbrev pub Present : Action → Type 0
  Present a = (f : Action → ℕ) → f a ≤ total f ts

  -- A node that an operation names is a node of the graph.
  pub named : (id : Bytes) → 0 < total (names id) ts → count id ids ≡ 1
  named id p = elim (Bool-cases (count id ids == 0)) [
    | inl none_of ↦ absurd (ground (arith, h.inside id))
    | inr some_of ↦ ground (arith, distinct id)
  ]

  pub count_at : (id v : Bytes) → str_eq v id ≡ true → count v ids ≡ count id ids
  count_at id v p = ap (λ x. count x ids) ((str_eq_iff v id).0 p)

  pub schedule-Inv :
      (id : Bytes)
      → state_of e id ≡ pending
      → Totals (schedule id)
      → Present (schedule id)
      → Inv es ids (set_state e id running) ts'
  unfolding act
  schedule-Inv id was tot here =
      let self = str_eq_refl id in
      let node = named id (ground (arith, here (names id), self)) in
      record {
        left = h.left;
        latch = h.latch;
        balance = ground (
          arith,
          weigh_kept e id pending running was is_final ids refl,
          h.balance,
          tot count_downs,
        );
        lists = λ u. ground (arith, h.lists u, str_eq_iff u id);
        inside = λ v p. ground (arith, h.inside v p, tot (names v));
        outside = λ v p. ground (arith, h.outside v p, str_eq_iff v id, count_at id v, node);
        owner = λ v. ground (arith, h.owner v, tot (owns v), str_eq_iff v id);
        counter = λ v. ground (
          arith,
          h.counter v,
          h.counter id,
          tot (notifies v),
          str_eq_iff v id,
          into_kept e id pending running was not_success es v refl,
        );
        ready = λ v p q r. ground (
          arith,
          h.ready v p,
          tot (schedules v),
          tot (notifies v),
          str_eq_iff v id,
          into_kept e id pending running was not_success es v refl,
        );
        granted = λ v p. ground (
          arith,
          h.granted v,
          tot (schedules v),
          into_kept e id pending running was not_success es v refl,
        );
        ran = λ v p. ground (
          arith,
          h.ran v,
          h.granted id,
          here (schedules id),
          self,
          str_eq_iff v id,
          into_kept e id pending running was not_success es v refl,
        );
        doomed = λ v p q. ground (
          arith,
          h.doomed v,
          tot (cancels v),
          str_eq_iff v id,
          into_kept e id pending running was is_bad es v refl,
        );
        blamed = λ v p. ground (
          arith,
          h.blamed v,
          tot (cancels v),
          into_kept e id pending running was is_bad es v refl,
        );
        fell = λ v p.
            ground (
              arith,
              h.fell v,
              str_eq_iff v id,
              into_kept e id pending running was is_bad es v refl,
            );
      }

  running_of_owner : (id : Bytes) → 0 < total (owns id) ts → state_of e id ≡ running
  running_of_owner id p = ground (arith, h.owner id)

  pub store_success-Inv :
      (id : Bytes)
      → Totals (store_success id)
      → Present (store_success id)
      → Inv es ids (set_state e id success) ts'
  unfolding act
  store_success-Inv id tot here =
      let self = str_eq_refl id in
      let was = running_of_owner id (ground (arith, here (owns id), self)) in
      let node = named id (ground (arith, here (names id), self)) in
      let waits = λ (v : Bytes). into_less e id running success was not_success es v refl refl in
      let spoils = λ (v : Bytes). into_kept e id running success was is_bad es v refl in
      record {
        left = h.left;
        latch = h.latch;
        balance = ground (
          arith,
          weigh_more e id running success was is_final ids refl refl,
          h.balance,
          node,
          tot count_downs,
        );
        lists = λ u. ground (arith, h.lists u, str_eq_iff u id);
        inside = λ v p. ground (arith, h.inside v p, tot (names v), known id v, h.lists id);
        outside = λ v p. ground (arith, h.outside v p, str_eq_iff v id, count_at id v, node);
        owner = λ v. ground (arith, h.owner v, tot (owns v), str_eq_iff v id, was);
        counter = λ v. ground (
          arith,
          h.counter v,
          h.counter id,
          tot (notifies v),
          str_eq_iff v id,
          ap (count v) (h.lists id),
          waits v,
        );
        ready = λ v p q r. ground (
          arith,
          h.ready v p,
          tot (schedules v),
          tot (notifies v),
          str_eq_iff v id,
          ap (count v) (h.lists id),
          waits v,
        );
        granted = λ v p. ground (arith, h.granted v, tot (schedules v), waits v);
        ran = λ v p. ground (arith, h.ran v, was, str_eq_iff v id, waits v);
        doomed = λ v p q. ground (arith, h.doomed v, tot (cancels v), str_eq_iff v id, spoils v);
        blamed = λ v p. ground (arith, h.blamed v, tot (cancels v), spoils v);
        fell = λ v p. ground (arith, h.fell v, str_eq_iff v id, spoils v);
      }

  pub store_failed-Inv :
      (id : Bytes)
      → Totals (store_failed id)
      → Present (store_failed id)
      → Inv es ids (set_state e id failed) ts'
  unfolding act
  store_failed-Inv id tot here =
      let self = str_eq_refl id in
      let was = running_of_owner id (ground (arith, here (owns id), self)) in
      let node = named id (ground (arith, here (names id), self)) in
      let waits = λ (v : Bytes). into_kept e id running failed was not_success es v refl in
      let spoils = λ (v : Bytes). into_more e id running failed was is_bad es v refl refl in
      record {
        left = h.left;
        latch = h.latch;
        balance = ground (
          arith,
          weigh_more e id running failed was is_final ids refl refl,
          h.balance,
          node,
          tot count_downs,
        );
        lists = λ u. ground (arith, h.lists u, str_eq_iff u id);
        inside = λ v p. ground (arith, h.inside v p, tot (names v), known id v, h.lists id);
        outside = λ v p. ground (arith, h.outside v p, str_eq_iff v id, count_at id v, node);
        owner = λ v. ground (arith, h.owner v, tot (owns v), str_eq_iff v id, was);
        counter = λ v.
            ground (arith, h.counter v, h.counter id, tot (notifies v), str_eq_iff v id, waits v);
        ready = λ v p q r.
            ground
              (arith, h.ready v p, tot (schedules v), tot (notifies v), str_eq_iff v id, waits v);
        granted = λ v p. ground (arith, h.granted v, tot (schedules v), waits v);
        ran = λ v p. ground (arith, h.ran v, was, str_eq_iff v id, waits v);
        doomed = λ v p q. ground (
          arith,
          h.doomed v,
          tot (cancels v),
          str_eq_iff v id,
          ap (count v) (h.lists id),
          spoils v,
        );
        blamed =
            λ v p. ground (arith, h.blamed v, tot (cancels v), ap (count v) (h.lists id), spoils v);
        fell = λ v p. ground (arith, h.fell v, str_eq_iff v id, spoils v);
      }
