-- ===== src/Logger/Ends.antt =====
-- What a logger has written when it ends (include/AsyncLogger.h).
use cpp20_workflow_engine.Shared.{
  ℕ, zero, suc, ◌+◌, ◌≤◌, ◌<◌, ◌≡◌, ◌⊎◌, refl, ap, sym, subst, append-nil, ◌∙◌, inl, inr, Bool,
  true, false, Bool-cases, some, List, [], ◌∷◌, ◌++◌, map, length, arith, ltb, Bytes,
}
use cpp20_workflow_engine.Logger.{
  LogEvent, buffer_capacity, Logger, log, format_event, take_one, drain_all, LogStep, logs, takes,
  play_log,
}
use cpp20_workflow_engine.Logger.Order.{logged, IsSublist, play_log-drain_all}
use cpp20_workflow_engine.Logger.Life.{
  Flusher, checking, draining, sleeping, ended, Life, batch, constructed, Happens, logs_event,
  flushes, flush_called, new_event, is_ended, flush_step, live, join, destroy, events_of,
}

module _ (local : ℕ → Bytes) where
  -- The steps of the flush thread that are left to it once it is to stop, at most.
  abbrev rank : Flusher → ℕ
  rank checking = 1
  rank (draining n) = n + 3
  rank sleeping = 2
  rank ended = 0

  -- What a step of the flush thread does: to the logger nothing, or one `pop`.
  record Flushed (s s' : Life) : Type 0 where
    logger : (s'.logger ≡ s.logger) ⊎ (s'.logger ≡ (take_one local s.logger).1)
    stop : s'.stop ≡ s.stop
    bounded : rank s.flusher ≤ batch + 3 → rank s'.flusher ≤ batch + 3
    nearer : s.stop ≡ true → is_ended s.flusher ≡ false → rank s'.flusher < rank s.flusher

  flush_step-Flushed : (s : Life) → Flushed s (flush_step local s)
  unfolding flush_step
  flush_step-Flushed s = from s.logger s.flusher s.stop
    where
      from :
          (l : Logger) (f : Flusher) (b : Bool)
          → Flushed
              (record { logger = l; flusher = f; stop = b })
              (flush_step local (record { logger = l; flusher = f; stop = b }))
      from l checking true = record {
        logger = inl refl;
        stop = refl;
        bounded = λ h. omega arith;
        nearer = λ h k. omega arith;
      }
      from l checking false = record {
        logger = inl refl;
        stop = refl;
        bounded = λ h. omega arith;
        nearer = λ h k. cc;
      }
      from l (draining zero) b = record {
        logger = inl refl;
        stop = refl;
        bounded = λ h. omega arith;
        nearer = λ h k. omega arith;
      }
      from l (draining (suc n)) b = record {
        logger = inr refl;
        stop = refl;
        bounded = λ h. ground arith;
        nearer = λ h k. ground arith;
      }
      from l sleeping b = record {
        logger = inl refl;
        stop = refl;
        bounded = λ h. omega arith;
        nearer = λ h k. omega arith;
      }
      from l ended b = record {
        logger = inl refl;
        stop = refl;
        bounded = λ h. h;
        nearer = λ h k. cc;
      }

  -- A logger that is left by pushes and pops, with these events pushed or discarded.
  abbrev Plays : List LogEvent → Logger → Logger → Type 0
  Plays evs l l' = (ss : List LogStep) × (l' ≡ play_log local ss l) × (logged ss ≡ evs)

  Plays-flush :
      (s : Life) (evs : List LogEvent) (l' : Logger)
      → Plays evs (flush_step local s).logger l'
      → Plays evs s.logger l'
  unfolding play_log
  Plays-flush s evs l' (ss, e, same) = elim (flush_step-Flushed s).logger [
    | inl kept ↦ (ss, e ∙ ap (play_log local ss) kept, same)
    | inr popped ↦ (takes ∷ ss, e ∙ ap (play_log local ss) popped, same)
  ]

  live-Plays :
      (xs : List Happens) (s : Life) → Plays (events_of xs) s.logger (live local xs s).logger
  unfolding live play_log
  live-Plays [] s = ([], refl, refl)
  live-Plays (logs_event level message now ∷ xs) s =
      let (ss, e, same) = live-Plays xs (record s { logger = log level message now s.logger }) in
      (logs level message now ∷ ss, e, ap (λ evs. new_event level message now ∷ evs) same)
  live-Plays (flushes ∷ xs) s =
      Plays-flush s (events_of xs) (live local xs (flush_step local s)).logger
        (live-Plays xs (flush_step local s))
  live-Plays (flush_called ∷ xs) s =
      let (ss, e, same) = live-Plays xs (record s { logger = (take_one local s.logger).1 }) in
      (takes ∷ ss, e, same)

  live-bounded :
      (xs : List Happens) (s : Life)
      → rank s.flusher ≤ batch + 3
      → rank (live local xs s).flusher ≤ batch + 3
  unfolding live
  live-bounded [] s h = h
  live-bounded (logs_event level message now ∷ xs) s h =
      live-bounded xs (record s { logger = log level message now s.logger }) h
  live-bounded (flushes ∷ xs) s h =
      live-bounded xs (flush_step local s) ((flush_step-Flushed s).bounded h)
  live-bounded (flush_called ∷ xs) s h =
      live-bounded xs (record s { logger = (take_one local s.logger).1 }) h

  -- The flush thread ends once it is to stop.
  join-ends :
      (fuel : ℕ) (s : Life)
      → s.stop ≡ true
      → rank s.flusher < fuel
      → (s' : Life) × (join local fuel s ≡ some s') × Plays [] s.logger s'.logger
  unfolding join play_log
  join-ends zero s h k = absurd (omega arith)
  join-ends (suc fuel) s h k = elim (Bool-cases (is_ended s.flusher)) [
    | inl there ↦ rw (join, there) (s, refl, ([], refl, refl))
    | inr going ↦
        let flushed = flush_step-Flushed s in
        let (s', e, p) =
          join-ends fuel (flush_step local s) (flushed.stop ∙ h)
            (omega (arith, flushed.nearer h going)) in
        rw (join, going) (s', e, Plays-flush s [] s'.logger p)
  ]

  play_log-append :
      (ss ts : List LogStep) (l : Logger)
      → play_log local (ss ++ ts) l ≡ play_log local ts (play_log local ss l)
  unfolding play_log
  play_log-append [] ts l = refl
  play_log-append (logs level message now ∷ ss) ts l =
      play_log-append ss ts (log level message now l)
  play_log-append (takes ∷ ss) ts l = play_log-append ss ts (take_one local l).1

  logged-append : (ss ts : List LogStep) → logged (ss ++ ts) ≡ logged ss ++ logged ts
  logged-append [] ts = refl
  logged-append (logs level message now ∷ ss) ts =
      ap (λ evs. new_event level message now ∷ evs) (logged-append ss ts)
  logged-append (takes ∷ ss) ts = logged-append ss ts

  -- A new logger to which threads log, and on which they call flush, while its flush thread runs, in any
  -- order of their steps, if no two pops with the writes of their lines overlap, and that is then
  -- destroyed, with fuel for one round more than its buffer is long: the destructor ends, and the sink has been given lines of logged events in the order of logging, each once, and of all of them
  -- unless there are more than the buffer can hold.
  pub live-destroy :
      (xs : List Happens) (fuel : ℕ)
      → buffer_capacity < fuel
      → (new : List LogEvent) × IsSublist new (events_of xs)
        × (destroy local fuel (live local xs constructed)
            ≡ some (record { buffer = []; lines = map (format_event local) new }))
        × ((buffer_capacity < length (events_of xs)) ⊎ (new ≡ events_of xs))
  unfolding destroy
  live-destroy xs fuel h =
      let s = live local xs constructed in
      let (ss, e, same) = live-Plays xs constructed in
      let (s', joined, (ts, e', none_logged)) =
        join-ends fuel (record s { stop = true }) refl
          (omega (arith, live-bounded xs constructed (omega arith))) in
      let (new, sub, drained, whole) = play_log-drain_all local (ss ++ ts) fuel h in
      let all : logged (ss ++ ts) ≡ events_of xs =
        logged-append ss ts
        ∙ ap (λ evs. logged ss ++ evs) none_logged
        ∙ append-nil (logged ss)
        ∙ same in
      let start : Logger = record { buffer = []; lines = [] } in
      let at : s'.logger ≡ play_log local (ss ++ ts) start =
        e' ∙ ap (play_log local ts) e ∙ sym (play_log-append ss ts start) in
      (
        new,
        subst (IsSublist new) all sub,
        rw (destroy, joined) (ap (drain_all local fuel) at ∙ drained),
        elim (Bool-cases (ltb buffer_capacity (length (events_of xs)))) [
          | inl more ↦ inl (ground arith)
          | inr fits ↦ inr (whole (ground (arith, ap length all)) ∙ all)
        ],
      )
