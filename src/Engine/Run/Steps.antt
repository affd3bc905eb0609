-- ===== src/Engine/Run/Steps.antt =====
-- Every operation keeps the invariant of a run.
use cpp20_workflow_engine.Shared.{
  ℕ, ◌-◌, ◌≤◌, ◌<◌, ◌≡◌, refl, ◌∙◌, ap, inl, inr, true, Bool-cases, some, List, [], ◌∷◌, arith,
  length, Bytes, str_eq, str_eq_iff, str_eq_refl, count, IsDistinct,
}
use cpp20_workflow_engine.Shared.Int.{pred_ℤ}
use cpp20_workflow_engine.Dag.{Edge, targets}
use cpp20_workflow_engine.Node.{NodeState, pending, cancelled}
use cpp20_workflow_engine.Engine.{Engine}
use cpp20_workflow_engine.Engine.Run.{
  Action, schedule, execute, store_success, store_failed, tally_success, tally_failure,
  tally_cancelled, count_down, notify_each, cancel_each, cancel_stack, schedule_each, Thread,
  Attempt, is_pending, set_state, set_uncompleted, act,
}
use cpp20_workflow_engine.Engine.Run.Count.{
  total, owns, schedules, notifies, cancels, names, count_downs, count-push_all,
}
use cpp20_workflow_engine.Engine.Run.Invariant.{
  into-eq, weigh-eq, Inv, Lighter-Inv, state_of, waiting, weigh, not_success, is_bad, is_final,
}
use cpp20_workflow_engine.Engine.Run.Light.{
  is_pending_iff, IsLight, IsLight-Lighter, execute-IsLight, tally_success-IsLight,
  tally_failure-IsLight, tally_cancelled-IsLight, notify_nil-IsLight, cancel_each-IsLight,
  schedule_each-IsLight, stack_nil-IsLight, schedule_late-IsLight, stack_late-IsLight,
}
use cpp20_workflow_engine.Engine.Run.Stores.{
  Totals, Present, named, count_at, schedule-Inv, store_success-Inv, store_failed-Inv,
}
use cpp20_workflow_engine.Engine.Run.Moves.{into_kept, into_more, weigh_more}

-- No more nodes are final than there are.
weigh-le : (w : Bytes → ℕ) (ks : List Bytes) → ((k : Bytes) → w k ≤ 1) → weigh w ks ≤ length ks
weigh-le w [] h = omega arith
weigh-le w (k ∷ ks) h = omega (arith, h k, weigh-le w ks h)

is_final-le : (s : NodeState) → is_final s ≤ 1
is_final-le s = ground arith

module _ (es : List Edge) (ids : List Bytes) (distinct : IsDistinct ids)
    (known : (u v : Bytes) → 0 < count v (targets es u) → 0 < count v ids) {Ctx : Type 0}
    (attempt : Attempt) (ctx : Ctx) (e : Engine Ctx) (ts ts' : List Thread)
    (h : Inv es ids e ts) where
  abbrev Total' : Action → Type 0
  Total' a = Totals es ids distinct known attempt ctx e ts ts' h a

  abbrev Present' : Action → Type 0
  Present' a = Present es ids distinct known attempt ctx e ts ts' h a

  -- The latch is never counted down below zero.
  pub latch_pos : 0 < total count_downs ts → 0 < h.left
  latch_pos p = omega (
    arith,
    h.balance,
    weigh-le (λ u. is_final (state_of e u)) ids (λ k. is_final-le (state_of e k)),
  )

  count_down-Inv :
      Total' count_down
      → Present' count_down
      → Inv es ids (record e { completion_latch = some (h.left - 1) }) ts'
  unfolding act
  count_down-Inv tot here = record {
    left = h.left - 1;
    latch = refl;
    balance = omega (arith, h.balance, tot count_downs, here count_downs, latch_pos);
    lists = h.lists;
    inside = λ v p. omega (arith, h.inside v p, tot (names v));
    outside = h.outside;
    owner = λ v. ground (arith, h.owner v, tot (owns v));
    counter = λ v. ground (arith, h.counter v, tot (notifies v));
    ready = λ v p q r. ground (arith, h.ready v p, tot (schedules v), tot (notifies v));
    granted = λ v p. ground (arith, h.granted v, tot (schedules v));
    ran = h.ran;
    doomed = λ v p q. ground (arith, h.doomed v, tot (cancels v));
    blamed = λ v p. ground (arith, h.blamed v, tot (cancels v));
    fell = h.fell;
  }

  notify-Inv :
      (d : Bytes) (ds : List Bytes)
      → Total' (notify_each (d ∷ ds))
      → Present' (notify_each (d ∷ ds))
      → Inv es ids (set_uncompleted e d (pred_ℤ (e.node_states d).uncompleted_deps)) ts'
  unfolding act
  notify-Inv d ds tot here =
      let self = str_eq_refl d in
      let waits = λ (v : Bytes). into-eq es v (λ u. ap not_success (same u)) in
      let spoils = λ (v : Bytes). into-eq es v (λ u. ap is_bad (same u)) in
      record {
        left = h.left;
        latch = h.latch;
        balance =
            ground (arith, h.balance, tot count_downs, weigh-eq ids (λ u. ap is_final (same u)));
        lists = λ u. ground (arith, h.lists u, str_eq_iff u d);
        inside = λ v p. ground (arith, h.inside v p, tot (names v), h.counter d, here (notifies d));
        outside = λ v p. same v ∙ h.outside v p;
        owner = λ v. ground (arith, h.owner v, tot (owns v), same v);
        counter = λ v. ground (
          arith,
          h.counter v,
          h.counter d,
          tot (notifies v),
          here (notifies d),
          self,
          str_eq_iff v d,
          waits v,
        );
        ready = λ v p q r. ground (
          arith,
          h.ready v p,
          same v,
          h.counter d,
          tot (schedules v),
          tot (notifies v),
          here (notifies d),
          self,
          at_d v,
          waits v,
        );
        granted = λ v p. ground (
          arith,
          h.granted v,
          h.counter d,
          tot (schedules v),
          here (notifies d),
          self,
          str_eq_iff v d,
          waits v,
        );
        ran = λ v p. ground (arith, h.ran v, same v, waits v);
        doomed = λ v p q. ground (arith, h.doomed v, same v, tot (cancels v), spoils v);
        blamed = λ v p. ground (arith, h.blamed v, tot (cancels v), spoils v);
        fell = λ v p. ground (arith, h.fell v, same v, spoils v);
      }
    where
      same :
          (u : Bytes)
          → state_of (set_uncompleted e d (pred_ℤ (e.node_states d).uncompleted_deps)) u
            ≡ state_of e u
      same u = ground (arith, str_eq_iff u d)

      at_d :
          (v : Bytes)
          → str_eq v d ≡ true
          → (total (notifies v) ts ≡ total (notifies d) ts) × (waiting es e v ≡ waiting es e d)
      at_d v q =
          let eq = (str_eq_iff v d).0 q in
          (ap (λ x. total (notifies x) ts) eq, ap (waiting es e) eq)

  cancel-Inv :
      (id : Bytes) (st : List Bytes)
      → state_of e id ≡ pending
      → Total' (cancel_stack (id ∷ st))
      → Present' (cancel_stack (id ∷ st))
      → Inv es ids (set_state e id cancelled) ts'
  unfolding act
  cancel-Inv id st was tot here =
      let self = str_eq_refl id in
      let node =
        named es ids distinct known attempt ctx e ts ts' h id
          (ground (arith, here (names id), self)) in
      let waits = λ (v : Bytes). into_kept e id pending cancelled was not_success es v refl in
      let spoils = λ (v : Bytes). into_more e id pending cancelled was is_bad es v refl refl in
      let pushed = λ (v : Bytes). count-push_all v (e.node_states id).downstream st in
      record {
        left = h.left;
        latch = h.latch;
        balance = ground (
          arith,
          weigh_more e id pending cancelled was is_final ids refl refl,
          h.balance,
          node,
          tot count_downs,
        );
        lists = λ u. ground (arith, h.lists u, str_eq_iff u id);
        inside = λ v p.
            ground
              (arith, h.inside v p, tot (names v), pushed v, known id v, ap (count v) (h.lists id));
        outside = λ v p. ground (
          arith,
          h.outside v p,
          str_eq_iff v id,
          count_at es ids distinct known attempt ctx e ts ts' h id v,
          node,
        );
        owner = λ v. ground (arith, h.owner v, tot (owns v), str_eq_iff v id, was);
        counter = λ v.
            ground (arith, h.counter v, h.counter id, tot (notifies v), str_eq_iff v id, waits v);
        ready = λ v p q r.
            ground
              (arith, h.ready v p, tot (schedules v), tot (notifies v), str_eq_iff v id, waits v);
        granted = λ v p. ground (arith, h.granted v, tot (schedules v), waits v);
        ran = λ v p. ground (arith, h.ran v, str_eq_iff v id, waits v);
        doomed = λ v p q. ground (
          arith,
          h.doomed v,
          tot (cancels v),
          pushed v,
          str_eq_iff v id,
          ap (count v) (h.lists id),
          spoils v,
        );
        blamed = λ v p. ground (
          arith,
          h.blamed v,
          tot (cancels v),
          pushed v,
          str_eq_iff v id,
          ap (count v) (h.lists id),
          spoils v,
        );
        fell = λ v p.
            ground
              (arith, h.fell v, h.blamed id, here (cancels id), self, str_eq_iff v id, spoils v);
      }

  light :
      (a : Action)
      → Total' a
      → IsLight attempt ctx e a
      → Inv es ids (act attempt ctx a e).engine ts'
  light a tot l = Lighter-Inv (IsLight-Lighter attempt ctx e a tot l) h

  pub act-Inv : (a : Action) → Total' a → Present' a → Inv es ids (act attempt ctx a e).engine ts'
  unfolding act
  act-Inv (schedule id) tot here = elim (Bool-cases (is_pending (state_of e id))) [
    | inl free ↦ rw free (
        schedule-Inv es ids distinct known attempt ctx e ts ts' h id (is_pending_iff _ free) tot
          here)
    | inr taken ↦ light (schedule id) tot (schedule_late-IsLight attempt ctx e id taken)
  ]
  act-Inv (execute id) tot here = light (execute id) tot (execute-IsLight attempt ctx e id)
  act-Inv (store_success id) tot here =
      store_success-Inv es ids distinct known attempt ctx e ts ts' h id tot here
  act-Inv (store_failed id) tot here =
      store_failed-Inv es ids distinct known attempt ctx e ts ts' h id tot here
  act-Inv tally_success tot here = light tally_success tot (tally_success-IsLight attempt ctx e)
  act-Inv tally_failure tot here = light tally_failure tot (tally_failure-IsLight attempt ctx e)
  act-Inv tally_cancelled tot here =
      light tally_cancelled tot (tally_cancelled-IsLight attempt ctx e)
  act-Inv count_down tot here = rw h.latch (count_down-Inv tot here)
  act-Inv (notify_each []) tot here = light (notify_each []) tot (notify_nil-IsLight attempt ctx e)
  act-Inv (notify_each (d ∷ ds)) tot here = notify-Inv d ds tot here
  act-Inv (cancel_each ds) tot here =
      light (cancel_each ds) tot (cancel_each-IsLight attempt ctx e ds)
  act-Inv (cancel_stack []) tot here = light (cancel_stack []) tot (stack_nil-IsLight attempt ctx e)
  act-Inv (cancel_stack (id ∷ st)) tot here = elim (Bool-cases (is_pending (state_of e id))) [
    | inl free ↦ rw free (cancel-Inv id st (is_pending_iff _ free) tot here)
    | inr taken ↦ light (cancel_stack (id ∷ st)) tot (stack_late-IsLight attempt ctx e id st taken)
  ]
  act-Inv (schedule_each ds) tot here =
      light (schedule_each ds) tot (schedule_each-IsLight attempt ctx e ds)
