-- ===== src/Engine/Run/Count.antt =====
-- What the threads still have to do, counted; and one operation of one of them.
use cpp20_workflow_engine.Shared.{
  ℕ, zero, suc, ◌+◌, ◌≤◌, ◌≡◌, refl, ◌⊎◌, inl, inr, List, [], ◌∷◌, ◌++◌, arith, length,
  if◌then◌else◌, Bytes, str_eq, count,
}
use cpp20_workflow_engine.Engine.{Engine}
use cpp20_workflow_engine.Engine.Run.{
  Action, schedule, execute, store_success, store_failed, tally_success, tally_failure,
  tally_cancelled, count_down, notify_each, cancel_each, cancel_stack, schedule_each, Thread,
  Attempt, push_all, act, advance,
}

abbrev pub sum_of : (Action → ℕ) → Thread → ℕ
sum_of f [] = 0
sum_of f (a ∷ t) = f a + sum_of f t

abbrev pub total : (Action → ℕ) → List Thread → ℕ
total f [] = 0
total f (t ∷ ts) = sum_of f t + total f ts

abbrev pub one : Bytes → Bytes → ℕ
one v i = if str_eq v i then 1 else 0

-- The operations that run node `v`, or store how it ended.
abbrev pub owns : Bytes → Action → ℕ
owns v (execute i) = one v i
owns v (store_success i) = one v i
owns v (store_failed i) = one v i
owns v (schedule i) = 0
owns v tally_success = 0
owns v tally_failure = 0
owns v tally_cancelled = 0
owns v count_down = 0
owns v (notify_each is) = 0
owns v (cancel_each is) = 0
owns v (cancel_stack is) = 0
owns v (schedule_each is) = 0

-- The attempts to start node `v`.
abbrev pub schedules : Bytes → Action → ℕ
schedules v (execute i) = 0
schedules v (store_success i) = 0
schedules v (store_failed i) = 0
schedules v (schedule i) = one v i
schedules v tally_success = 0
schedules v tally_failure = 0
schedules v tally_cancelled = 0
schedules v count_down = 0
schedules v (notify_each is) = 0
schedules v (cancel_each is) = 0
schedules v (cancel_stack is) = 0
schedules v (schedule_each is) = count v is

-- The decrements of the counter of node `v`.
abbrev pub notifies : Bytes → Action → ℕ
notifies v (execute i) = 0
notifies v (store_success i) = 0
notifies v (store_failed i) = 0
notifies v (schedule i) = 0
notifies v tally_success = 0
notifies v tally_failure = 0
notifies v tally_cancelled = 0
notifies v count_down = 0
notifies v (notify_each is) = count v is
notifies v (cancel_each is) = 0
notifies v (cancel_stack is) = 0
notifies v (schedule_each is) = 0

-- The attempts to cancel node `v`.
abbrev pub cancels : Bytes → Action → ℕ
cancels v (execute i) = 0
cancels v (store_success i) = 0
cancels v (store_failed i) = 0
cancels v (schedule i) = 0
cancels v tally_success = 0
cancels v tally_failure = 0
cancels v tally_cancelled = 0
cancels v count_down = 0
cancels v (notify_each is) = 0
cancels v (cancel_each is) = count v is
cancels v (cancel_stack is) = count v is
cancels v (schedule_each is) = 0

-- The operations that name node `v` at all.
abbrev pub names : Bytes → Action → ℕ
names v (execute i) = one v i
names v (store_success i) = one v i
names v (store_failed i) = one v i
names v (schedule i) = one v i
names v tally_success = 0
names v tally_failure = 0
names v tally_cancelled = 0
names v count_down = 0
names v (notify_each is) = count v is
names v (cancel_each is) = count v is
names v (cancel_stack is) = count v is
names v (schedule_each is) = count v is

-- The decrements of the latch.
abbrev pub count_downs : Action → ℕ
count_downs (execute i) = 0
count_downs (store_success i) = 0
count_downs (store_failed i) = 0
count_downs (schedule i) = 0
count_downs tally_success = 0
count_downs tally_failure = 0
count_downs tally_cancelled = 0
count_downs count_down = 1
count_downs (notify_each is) = 0
count_downs (cancel_each is) = 0
count_downs (cancel_stack is) = 0
count_downs (schedule_each is) = 0

-- The updates of the counters of finished nodes.
abbrev pub tallies : Action → ℕ
tallies (execute i) = 0
tallies (store_success i) = 0
tallies (store_failed i) = 0
tallies (schedule i) = 0
tallies tally_success = 1
tallies tally_failure = 1
tallies tally_cancelled = 1
tallies count_down = 0
tallies (notify_each is) = 0
tallies (cancel_each is) = 0
tallies (cancel_stack is) = 0
tallies (schedule_each is) = 0

pub sum_of-append : (f : Action → ℕ) (s t : Thread) → sum_of f (s ++ t) ≡ sum_of f s + sum_of f t
sum_of-append f [] t = omega arith
sum_of-append f (a ∷ s) t = omega (arith, sum_of-append f s t)

pub total-append : (f : Action → ℕ) (s t : List Thread) → total f (s ++ t) ≡ total f s + total f t
total-append f [] t = omega arith
total-append f (a ∷ s) t = omega (arith, total-append f s t)

pub count-push_all :
    (v : Bytes) (ds st : List Bytes) → count v (push_all ds st) ≡ count v ds + count v st
count-push_all v [] st = omega arith
count-push_all v (d ∷ ds) st = omega (arith, count-push_all v ds (d ∷ st))

pub length-push_all : (ds st : List Bytes) → length (push_all ds st) ≡ length ds + length st
length-push_all [] st = omega arith
length-push_all (d ∷ ds) st = omega (arith, length-push_all ds (d ∷ st))

module _ {Ctx : Type 0} where
  -- One operation `action` of some thread leads to the engine `e'` and the threads `ts'`.
  pub record Took (attempt : Attempt) (ctx : Ctx) (e : Engine Ctx) (ts : List Thread)
      (e' : Engine Ctx) (ts' : List Thread) : Type 0 where
    pub action : Action
    pub engine : e' ≡ (act attempt ctx action e).engine
    pub present : (f : Action → ℕ) → f action ≤ total f ts
    pub totals :
        (f : Action → ℕ)
        → total f ts' + f action
          ≡ total f ts
            + sum_of f (act attempt ctx action e).front
            + total f (act attempt ctx action e).posted

  -- The first thread goes on.
  pub first-Took :
      (attempt : Attempt) (ctx : Ctx) (e : Engine Ctx) (a : Action) (rest : Thread)
      (ts : List Thread)
      → Took attempt ctx e
          ((a ∷ rest) ∷ ts)
          (act attempt ctx a e).engine
          (((act attempt ctx a e).front ++ rest) ∷ ts ++ (act attempt ctx a e).posted)
  first-Took attempt ctx e a rest ts = record {
    action = a;
    engine = refl;
    present = λ f. omega arith;
    totals = λ f. omega (
      arith,
      sum_of-append f (act attempt ctx a e).front rest,
      total-append f ts (act attempt ctx a e).posted,
    );
  }

  -- A later thread goes on.
  pub later-Took :
      {attempt : Attempt} {ctx : Ctx} {e e' : Engine Ctx} {ts ts' : List Thread} (t : Thread)
      → Took attempt ctx e ts e' ts'
      → Took attempt ctx e (t ∷ ts) e' (t ∷ ts')
  later-Took t took = record {
    action = took.action;
    engine = took.engine;
    present = λ f. omega (arith, took.present f);
    totals = λ f. omega (arith, took.totals f);
  }

  pub advance_cases :
      (i : ℕ) (attempt : Attempt) (ctx : Ctx) (e : Engine Ctx) (ts : List Thread)
      → (advance i attempt ctx e ts ≡ record { engine = e; threads = ts })
        ⊎ Took attempt ctx e ts
            (advance i attempt ctx e ts).engine
            (advance i attempt ctx e ts).threads
  unfolding advance
  advance_cases i attempt ctx e [] = inl refl
  advance_cases zero attempt ctx e ([] ∷ ts) = inl refl
  advance_cases zero attempt ctx e ((a ∷ rest) ∷ ts) = inr (first-Took attempt ctx e a rest ts)
  advance_cases (suc i) attempt ctx e (t ∷ ts) = elim (advance_cases i attempt ctx e ts) [
    | inl same ↦ inl (rw same)
    | inr took ↦ inr (later-Took t took)
  ]
