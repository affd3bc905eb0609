-- ===== src/Logger/Order.antt =====
-- The lines that AsyncLogger writes (include/AsyncLogger.h).
use cpp20_workflow_engine.Shared.{
  ℕ, zero, suc, ◌+◌, ◌≤◌, ◌<◌, ◌≡◌, refl, ap, sym, ◌∙◌, inl, inr, true, false, Bool-cases, some,
  List, [], ◌∷◌, ◌++◌, map, length, length-append, append-nil, append_assoc, arith, ltb, Bytes,
  List-cases,
}
use cpp20_workflow_engine.Logger.{
  LogLevel, LogEvent, buffer_capacity, Logger, log, format_event, take_one, drain_all, LogStep,
  logs, takes, play_log,
}

-- The events that are logged, whether there is room for them or not.
abbrev pub logged : List LogStep → List LogEvent
logged [] = []
logged (logs level message now ∷ ss) =
    record { level = level; message = message; timestamp = now } ∷ logged ss
logged (takes ∷ ss) = logged ss

-- Some of the events of a list, in its order.
pub data IsSublist : List LogEvent → List LogEvent → Type 0 where
  done : IsSublist [] []
  kept : {ev : LogEvent} {xs ys : List LogEvent} → IsSublist xs ys → IsSublist (ev ∷ xs) (ev ∷ ys)
  lost : {ev : LogEvent} {xs ys : List LogEvent} → IsSublist xs ys → IsSublist xs (ev ∷ ys)

map-snoc :
    {A B : Type 0} (f : A → B) (xs : List A) (x : A) → map f (xs ++ x ∷ []) ≡ map f xs ++ f x ∷ []
map-snoc f [] x = refl
map-snoc f (y ∷ xs) x = ap (λ r. f y ∷ r) (map-snoc f xs x)

module _ (local : ℕ → Bytes) where
  -- `drainAll` ends and leaves nothing behind.
  pub drain_all_lem :
      (fuel : ℕ) (q : List LogEvent) (ls : List Bytes)
      → length q < fuel
      → drain_all local fuel (record { buffer = q; lines = ls })
        ≡ some (record { buffer = []; lines = ls ++ map (format_event local) q })
  unfolding drain_all take_one
  drain_all_lem zero q ls h = absurd (omega arith)
  drain_all_lem (suc fuel) [] ls h =
      ap (λ xs. some (record { buffer = []; lines = xs })) (sym (append-nil ls))
  drain_all_lem (suc fuel) (ev ∷ q) ls h =
      drain_all_lem fuel q (ls ++ format_event local ev ∷ []) (omega arith)
      ∙ ap (λ xs. some (record { buffer = []; lines = xs }))
          (append_assoc ls (format_event local ev ∷ []) (map (format_event local) q))

  -- The lines that were written and those that the buffer stands for.
  abbrev total : Logger → List Bytes
  total l = l.lines ++ map (format_event local) l.buffer

  total-take_one :
      (l : Logger)
      → (total (take_one local l).1 ≡ total l)
        × (length (take_one local l).1.buffer ≤ length l.buffer)
  unfolding take_one
  total-take_one l = elim (List-cases l.buffer) [
    | inl e ↦
        rw (e, take_one) (ap (λ q. l.lines ++ map (format_event local) q) e, ground (arith, e))
    | inr (ev, rest, e) ↦
        rw (e, take_one)
          (
            append_assoc l.lines (format_event local ev ∷ []) (map (format_event local) rest),
            omega arith,
          )
  ]

  abbrev new_event : LogLevel → Bytes → ℕ → LogEvent
  new_event level message now = record { level = level; message = message; timestamp = now }

  total-log :
      (level : LogLevel) (message : Bytes) (now : ℕ) (l : Logger)
      → length l.buffer < buffer_capacity
      → (total (log level message now l)
          ≡ total l ++ format_event local (new_event level message now) ∷ [])
        × (length (log level message now l).buffer ≡ suc (length l.buffer))
  unfolding log
  total-log level message now l h =
      let e : ltb (length l.buffer) buffer_capacity ≡ true = ground arith in
      rw e (
        ap (λ xs. l.lines ++ xs)
              (map-snoc (format_event local) l.buffer (new_event level message now))
            ∙ sym (
                append_assoc l.lines (map (format_event local) l.buffer)
                  (format_event local (new_event level message now) ∷ [])),
        ground (arith, length-append l.buffer (new_event level message now ∷ [])),
      )

  log-full :
      (level : LogLevel) (message : Bytes) (now : ℕ) (l : Logger)
      → buffer_capacity ≤ length l.buffer
      → log level message now l ≡ l
  unfolding log
  log-full level message now l h =
      let e : ltb (length l.buffer) buffer_capacity ≡ false = ground arith in rw e refl

  -- What a run adds to them.
  ordered :
      (ss : List LogStep) (l : Logger)
      → (new : List LogEvent) × IsSublist new (logged ss)
        × (total (play_log local ss l) ≡ total l ++ map (format_event local) new)
        × (length l.buffer + length (logged ss) ≤ buffer_capacity → new ≡ logged ss)
  unfolding play_log
  ordered [] l = ([], done, sym (append-nil (total l)), λ h. refl)
  ordered (takes ∷ ss) l =
      let (same, shorter) = total-take_one l in
      let (new, sub, all, whole) = ordered ss (take_one local l).1 in
      (new, sub, rw (← same) all, λ h. whole (omega arith))
  ordered (logs level message now ∷ ss) l =
      elim (Bool-cases (ltb (length l.buffer) buffer_capacity)) [
        | inl room ↦
            let (longer, one) = total-log level message now l (ground arith) in
            let (new, sub, all, whole) = ordered ss (log level message now l) in
            (
              new_event level message now ∷ new,
              kept sub,
              all
                  ∙ ap (λ xs. xs ++ map (format_event local) new) longer
                  ∙ append_assoc (total l) (format_event local (new_event level message now) ∷ [])
                      (map (format_event local) new),
              λ h. ap (λ xs. new_event level message now ∷ xs) (whole (omega arith)),
            )
        | inr full ↦
            let (new, sub, all, whole) = ordered ss l in
            (
              new,
              lost sub,
              ap (λ k. total (play_log local ss k)) (log-full level message now l (ground arith))
                  ∙ all,
              λ h. absurd (ground arith),
            )
      ]

  log-le :
      (level : LogLevel) (message : Bytes) (now : ℕ) (l : Logger)
      → length l.buffer ≤ buffer_capacity
      → length (log level message now l).buffer ≤ buffer_capacity
  log-le level message now l h = elim (Bool-cases (ltb (length l.buffer) buffer_capacity)) [
    | inl room ↦ ground (arith, (total-log level message now l (ground arith)).1)
    | inr full ↦ rw (log-full level message now l (ground arith)) h
  ]

  bounded :
      (ss : List LogStep) (l : Logger)
      → length l.buffer ≤ buffer_capacity
      → length (play_log local ss l).buffer ≤ buffer_capacity
  unfolding play_log
  bounded [] l h = h
  bounded (takes ∷ ss) l h = bounded ss (take_one local l).1 (omega (arith, (total-take_one l).1))
  bounded (logs level message now ∷ ss) l h =
      bounded ss (log level message now l) (log-le level message now l h)

  -- A new logger that threads use in any order and that is then destroyed, with fuel for one round more
  -- than its buffer is long: the lines that it has written are those of logged events in the order of
  -- logging, and of all of them if there are no more than the buffer can hold.
  pub play_log-drain_all :
      (ss : List LogStep) (fuel : ℕ)
      → buffer_capacity < fuel
      → (new : List LogEvent) × IsSublist new (logged ss)
        × (drain_all local fuel (play_log local ss (record { buffer = []; lines = [] }))
            ≡ some (record { buffer = []; lines = map (format_event local) new }))
        × (length (logged ss) ≤ buffer_capacity → new ≡ logged ss)
  play_log-drain_all ss fuel h =
      let start : Logger = record { buffer = []; lines = [] } in
      let l = play_log local ss start in
      let (new, sub, all, whole) = ordered ss start in
      (
        new,
        sub,
        drain_all_lem fuel l.buffer l.lines (omega (arith, bounded ss start (omega arith)))
            ∙ ap (λ xs. some (record { buffer = []; lines = xs })) all,
        λ k. whole (omega arith),
      )
