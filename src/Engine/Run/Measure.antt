-- ===== src/Engine/Run/Measure.antt =====
-- The work left in a run, as a number (src/WorkflowEngine.cpp).
use cpp20_workflow_engine.Shared.{
  ℕ, zero, suc, ◌+◌, ◌*◌, ◌≤◌, ◌<◌, ◌≡◌, ◌⊎◌, refl, ap, inl, inr, true, false, Bool-cases, List, [],
  ◌∷◌, arith, length, if◌then◌else◌, Bytes, str_eq, str_eq_iff, str_eq_refl, count, IsDistinct,
}
use cpp20_workflow_engine.Shared.Int.{pred_ℤ, is_pos}
use cpp20_workflow_engine.Dag.{Edge, targets}
use cpp20_workflow_engine.Node.{NodeState, pending, running, success, failed, cancelled}
use cpp20_workflow_engine.Engine.{Engine, edges, config_ids}
use cpp20_workflow_engine.Engine.Load.Validate.{IsLoaded}
use cpp20_workflow_engine.Engine.Run.{
  Action, schedule, execute, store_success, store_failed, tally_success, tally_failure,
  tally_cancelled, count_down, notify_each, cancel_each, cancel_stack, schedule_each, Thread,
  Attempt, set_uncompleted, is_pending, set_state, act, advance, step, play, begin, Machine, Choice,
}
use cpp20_workflow_engine.Engine.Run.Count.{
  owns, Took, first-Took, later-Took, total, names, length-push_all,
}
use cpp20_workflow_engine.Engine.Run.Invariant.{Inv, state_of, weigh, weigh-eq}
use cpp20_workflow_engine.Engine.Run.Light.{made, is_pending_iff}
use cpp20_workflow_engine.Engine.Run.Finish.{IsIdle, reached, known_of, step-Inv}
use cpp20_workflow_engine.Engine.Run.Begin.{begin-Inv}

-- The work that operations and pending nodes stand for, `size` being the number of dependants.
abbrev pub work : (Bytes → ℕ) → Action → ℕ
work size (schedule i) = 1
work size (execute i) = 3 * size i + 5
work size (store_success i) = 3 * size i + 4
work size (store_failed i) = 3 * size i + 4
work size tally_success = 1
work size tally_failure = 1
work size tally_cancelled = 1
work size count_down = 1
work size (notify_each is) = 2 * length is + 1
work size (cancel_each is) = 3 * length is + 1
work size (cancel_stack is) = length is + 1
work size (schedule_each is) = 2 * length is + 1

-- The thread number `i` has an operation to make.
abbrev pub CanGo : ℕ → List Thread → Type 0
CanGo i [] = ⊥
CanGo zero ([] ∷ ts) = ⊥
CanGo zero ((a ∷ t) ∷ ts) = Unit {0}
CanGo (suc i) (t ∷ ts) = CanGo i ts

-- A run that is not over can go on.
pub can_go : (ts : List Thread) → IsIdle ts ⊎ ((i : ℕ) × CanGo i ts)
can_go [] = inl tt
can_go ((a ∷ t) ∷ ts) = inr (0, tt)
can_go ([] ∷ ts) = elim (can_go ts) [ inl idle ↦ inl idle | inr (i, go) ↦ inr (suc i, go) ]

abbrev pub size : List Edge → Bytes → ℕ
size es u = length (targets es u)

module _ {Ctx : Type 0} (es : List Edge) (ids : List Bytes) where
  abbrev reserve : Engine Ctx → Bytes → ℕ
  reserve e u = if is_pending (state_of e u) then 3 * size es u + 5 else 0

  abbrev pub measure : Engine Ctx → List Thread → ℕ
  measure e ts = weigh (reserve e) ids + total (work (size es)) ts

  moved-le :
      (e : Engine Ctx) (id : Bytes) (new : NodeState) (ks : List Bytes)
      → is_pending new ≡ false
      → weigh (reserve (set_state e id new)) ks ≤ weigh (reserve e) ks
  moved-le e id new [] free = omega arith
  moved-le e id new (k ∷ ks) free = ground (arith, moved-le e id new ks free)

  -- Starting or cancelling a pending node frees its reserve.
  freed :
      (e : Engine Ctx) (id : Bytes) (new : NodeState) (ks : List Bytes)
      → state_of e id ≡ pending
      → is_pending new ≡ false
      → 0 < count id ks
      → 3 * size es id + 5 + weigh (reserve (set_state e id new)) ks ≤ weigh (reserve e) ks
  freed e id new [] was free p = absurd (omega arith)
  freed e id new (k ∷ ks) was free p = elim (Bool-cases (str_eq id k)) [
    | inl here ↦
        rw (← (str_eq_iff id k).0 here) (ground (arith, moved-le e id new ks free, str_eq_refl id))
    | inr there ↦ ground (arith, freed e id new ks was free, str_eq_iff k id, str_eq_iff id k)
  ]

  same_reserve :
      (e e' : Engine Ctx) (ks : List Bytes)
      → ((u : Bytes) → is_pending (state_of e' u) ≡ is_pending (state_of e u))
      → weigh (reserve e') ks ≡ weigh (reserve e) ks
  same_reserve e e' ks same = weigh-eq ks (λ u. ground (arith, same u))

  abbrev Spends : Attempt → Ctx → Engine Ctx → Action → Type 0
  Spends attempt ctx e a =
      weigh (reserve (act attempt ctx a e).engine) ids + made attempt ctx e (work (size es)) a
      < weigh (reserve e) ids + work (size es) a

  module _ (attempt : Attempt) (ctx : Ctx) (e : Engine Ctx) (ts : List Thread)
      (h : Inv es ids e ts) where
    node_of : (id : Bytes) → 0 < total (names id) ts → 0 < count id ids
    node_of id p = ground (arith, h.inside id)

    schedule-Spends : (id : Bytes) → 0 < total (names id) ts → Spends attempt ctx e (schedule id)
    unfolding act
    schedule-Spends id p = elim (Bool-cases (is_pending (state_of e id))) [
      | inl free ↦ rw free (
          omega (
            arith,
            freed e id running ids (is_pending_iff (state_of e id) free) refl (node_of id p),
          ))
      | inr taken ↦ rw taken (omega arith)
    ]

    cancel-Spends :
        (id : Bytes) (st : List Bytes)
        → 0 < total (names id) ts
        → Spends attempt ctx e (cancel_stack (id ∷ st))
    unfolding act
    cancel-Spends id st p = elim (Bool-cases (is_pending (state_of e id))) [
      | inl free ↦ rw free (
          omega (
            arith,
            freed e id cancelled ids (is_pending_iff (state_of e id) free) refl (node_of id p),
            length-push_all (e.node_states id).downstream st,
            ap length (h.lists id),
          ))
      | inr taken ↦ rw taken (omega arith)
    ]

    stored :
        (id : Bytes) (new : NodeState)
        → 0 < total (owns id) ts
        → is_pending new ≡ false
        → weigh (reserve (set_state e id new)) ids ≡ weigh (reserve e) ids
    stored id new p free =
        same_reserve e (set_state e id new) ids (λ u. ground (arith, h.owner id, at_id u))
      where
        at_id : (u : Bytes) → str_eq u id ≡ true → state_of e u ≡ state_of e id
        at_id u q = ap (state_of e) ((str_eq_iff u id).0 q)

    act-Spends : (a : Action) → ((f : Action → ℕ) → f a ≤ total f ts) → Spends attempt ctx e a
    unfolding act
    act-Spends (schedule id) here =
        schedule-Spends id (ground (arith, here (names id), str_eq_refl id))
    act-Spends (execute id) here = ground arith
    act-Spends (store_success id) here = omega (
      arith,
      stored id success (ground (arith, here (owns id), str_eq_refl id)) refl,
      ap length (h.lists id),
    )
    act-Spends (store_failed id) here = omega (
      arith,
      stored id failed (ground (arith, here (owns id), str_eq_refl id)) refl,
      ap length (h.lists id),
    )
    act-Spends tally_success here = omega arith
    act-Spends tally_failure here = omega arith
    act-Spends tally_cancelled here = omega arith
    act-Spends count_down here = rw h.latch (omega arith)
    act-Spends (notify_each []) here = omega arith
    act-Spends (notify_each (d ∷ ds)) here =
        let k = (e.node_states d).uncompleted_deps in
        let same =
          same_reserve e (set_uncompleted e d (pred_ℤ k)) ids
            (λ u. ground (arith, str_eq_iff u d)) in
        elim (Bool-cases (is_pos 1 k)) [
          | inl last ↦ rw last (omega (arith, same))
          | inr more ↦ rw more (omega (arith, same))
        ]
    act-Spends (cancel_each []) here = omega arith
    act-Spends (cancel_each (d ∷ ds)) here = omega arith
    act-Spends (cancel_stack []) here = omega arith
    act-Spends (cancel_stack (id ∷ st)) here =
        cancel-Spends id st (ground (arith, here (names id), str_eq_refl id))
    act-Spends (schedule_each []) here = omega arith
    act-Spends (schedule_each (d ∷ ds)) here = omega arith

  advance-Took :
      (i : ℕ) (attempt : Attempt) (ctx : Ctx) (e : Engine Ctx) (ts : List Thread)
      → CanGo i ts
      → Took attempt ctx e ts
          (advance i attempt ctx e ts).engine
          (advance i attempt ctx e ts).threads
  unfolding advance
  advance-Took i attempt ctx e [] go = absurd go
  advance-Took zero attempt ctx e ([] ∷ ts) go = absurd go
  advance-Took zero attempt ctx e ((a ∷ rest) ∷ ts) go = first-Took attempt ctx e a rest ts
  advance-Took (suc i) attempt ctx e (t ∷ ts) go = later-Took t (advance-Took i attempt ctx e ts go)

  -- An operation that a thread can make uses up some of the work.
  step-less :
      (c : Choice Ctx) (m : Machine Ctx)
      → Inv es ids m.engine m.threads
      → CanGo c.thread m.threads
      → measure (step c m).engine (step c m).threads < measure m.engine m.threads
  unfolding step
  step-less c m h go =
      let took = advance-Took c.thread c.attempt c.ctx m.engine m.threads go in
      let spent = act-Spends c.attempt c.ctx m.engine m.threads h took.action took.present in
      rw took.engine (omega (arith, took.totals (work (size es)), spent))

  -- Every choice of a schedule picks a thread that can go on.
  abbrev pub AllGo : List (Choice Ctx) → Machine Ctx → Type 0
  AllGo [] m = Unit {0}
  AllGo (c ∷ cs) m = CanGo c.thread m.threads × AllGo cs (step c m)

  pub play-bound :
      (distinct : IsDistinct ids)
      (known : (u v : Bytes) → 0 < count v (targets es u) → 0 < count v ids)
      (cs : List (Choice Ctx)) (m : Machine Ctx)
      → Inv es ids m.engine m.threads
      → AllGo cs m
      → length cs + measure (play cs m).engine (play cs m).threads ≤ measure m.engine m.threads
  unfolding play
  play-bound distinct known [] m h go = omega arith
  play-bound distinct known (c ∷ cs) m h go = omega (
    arith,
    step-less c m h go.0,
    play-bound distinct known cs (step c m) (step-Inv es ids distinct known c m h) go.1,
  )

-- From a loaded engine, a schedule that picks threads with work left is no longer than a bound that
-- only the graph gives; and after any schedule no thread has work left, or some thread can go on.
pub run_terminates :
    {Ctx : Type 0} (cleared : Ctx) (e : Engine Ctx)
    → IsLoaded e
    → ((cs : List (Choice Ctx))
        → AllGo (edges e.node_configs) (config_ids e.node_configs) cs (begin cleared e)
        → length cs
          ≤ measure
              (edges e.node_configs)
              (config_ids e.node_configs)
              (begin cleared e).engine
              (begin cleared e).threads)
      × ((cs : List (Choice Ctx))
          → IsIdle (reached cleared e cs).threads
            ⊎ ((i : ℕ) × CanGo i (reached cleared e cs).threads))
run_terminates cleared e l = (
  λ cs go. omega (
    arith,
    play-bound (edges e.node_configs) (config_ids e.node_configs) l.distinct (known_of e) cs
        (begin cleared e) (begin-Inv cleared e l) go,
  ),
  λ cs. can_go (reached cleared e cs).threads,
)
