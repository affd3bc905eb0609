-- ===== src/Logger/Life.antt =====
-- The life of an AsyncLogger: its flush thread, flush() and its destructor (include/AsyncLogger.h). A pop
-- and the write of its line are one step, so that no two of them overlap, as they do if flush() is
-- called while the flush thread pops; and no thread logs or flushes any more when the destructor runs.
use cpp20_workflow_engine.Shared.{
  ℕ, zero, suc, Bool, true, false, Option, none, some, List, [], ◌∷◌, if◌then◌else◌, Bytes,
}
use cpp20_workflow_engine.Logger.{LogLevel, LogEvent, Logger, log, take_one, drain_all}

-- Where the flush thread is: at the test of `flushLoop`, in a round of `drainBatch` with more to come, in
-- its sleep, or at its end.
pub data Flusher : Type 0 where
  checking : Flusher
  draining : ℕ → Flusher
  sleeping : Flusher
  ended : Flusher

pub record Life : Type 0 where
  pub logger : Logger
  pub flusher : Flusher
  pub stop : Bool

abbrev pub batch : ℕ
batch = 256

-- The constructor, which starts the thread.
abbrev pub constructed : Life
constructed = record {
  logger = record { buffer = []; lines = [] };
  flusher = checking;
  stop = false;
}

-- What happens: a thread logs, the flush thread goes on, or a thread in `flush` goes on by a round of
-- its loop.
pub data Happens : Type 0 where
  logs_event : LogLevel → Bytes → ℕ → Happens
  flushes : Happens
  flush_called : Happens

abbrev pub is_ended : Flusher → Bool
is_ended checking = false
is_ended (draining n) = false
is_ended sleeping = false
is_ended ended = true

abbrev pub new_event : LogLevel → Bytes → ℕ → LogEvent
new_event level message now = record { level = level; message = message; timestamp = now }

-- The events that are logged.
abbrev pub events_of : List Happens → List LogEvent
events_of [] = []
events_of (logs_event level message now ∷ xs) = new_event level message now ∷ events_of xs
events_of (flushes ∷ xs) = events_of xs
events_of (flush_called ∷ xs) = events_of xs

module _ (local : ℕ → Bytes) where
  -- One step of `flushLoop`.
  unfoldable pub flush_step : Life → Life
  unfolding take_one
  flush_step s = elim s.flusher [
    | checking ↦
        if s.stop then record s { flusher = ended } else record s { flusher = draining batch }
    | draining n ↦ elim n [
      | zero ↦ record s { flusher = sleeping }
      | suc left ↦
          let (more, l) = take_one local s.logger in
          record s { logger = l; flusher = if more then draining left else sleeping }
    ]
    | sleeping ↦ record s { flusher = checking }
    | ended ↦ s
  ]

  unfoldable pub live_step : Happens → Life → Life
  unfolding flush_step log take_one
  live_step (logs_event level message now) s = record s { logger = log level message now s.logger }
  live_step flushes s = flush_step s
  live_step flush_called s = record s { logger = (take_one local s.logger).1 }

  unfoldable pub live : List Happens → Life → Life
  unfolding live_step
  live [] s = s
  live (x ∷ xs) s = live xs (live_step x s)

  -- `flush_thread_.join()`; `none` means that the fuel ran out.
  unfoldable pub join : ℕ → Life → Option Life
  unfolding flush_step
  join zero s = none
  join (suc fuel) s =
      let rest = join fuel (flush_step s) in if is_ended s.flusher then some s else rest

  -- `~AsyncLogger`
  unfoldable pub destroy : ℕ → Life → Option Logger
  unfolding join drain_all
  destroy fuel s = elim (join fuel (record s { stop = true })) [
    | none ↦ none
    | some s' ↦ drain_all local fuel s'.logger
  ]
