-- ===== src/Logger.antt =====
-- AsyncLogger (include/AsyncLogger.h). Its buffer is the bounded queue that LockFreeRingBuffer
-- implements; each `push` and `pop` is one step. A time is given in milliseconds since the epoch, and
-- `local` is localtime_r and strftime.
pub mod Order
pub mod Life
pub mod Ends
use cpp20_workflow_engine.Shared.{
  ℕ, zero, suc, ◌+◌, ◌/◌, ◌%◌, Bool, true, false, Option, none, some, List, [], ◌∷◌, ◌++◌, length,
  ltb, if◌then◌else◌, Bytes, bytes,
}

pub data LogLevel : Type 0 where
  debug info warn error : LogLevel

pub record LogEvent : Type 0 where
  pub level : LogLevel
  pub message : Bytes
  pub timestamp : ℕ

abbrev pub buffer_capacity : ℕ
buffer_capacity = 4096

abbrev pub level_name : LogLevel → Bytes
level_name debug = bytes "DEBUG"
level_name info = bytes "INFO "
level_name warn = bytes "WARN "
level_name error = bytes "ERROR"

-- "%03d" for a number below 1000
abbrev pub three_digits : ℕ → Bytes
three_digits n = (48 + n / 100) ∷ (48 + n / 10 % 10) ∷ (48 + n % 10) ∷ []

-- `lines` are the calls of the sink.
pub record Logger : Type 0 where
  pub buffer : List LogEvent
  pub lines : List Bytes

-- An event that finds the buffer full is discarded.
unfoldable pub log : LogLevel → Bytes → ℕ → Logger → Logger
log level message now l =
    if ltb (length l.buffer) buffer_capacity
    then record l {
      buffer = l.buffer ++ record { level = level; message = message; timestamp = now } ∷ [];
    }
    else l

module _ (local : ℕ → Bytes) where
  unfoldable pub format_event : LogEvent → Bytes
  format_event ev =
      local (ev.timestamp / 1000)
      ++ (b'.' ∷ three_digits (ev.timestamp % 1000)
          ++ (bytes " [" ++ (level_name ev.level ++ (bytes "] " ++ (ev.message ++ 10 ∷ [])))))

  -- `buffer_.pop()`, and the sink for what it returns; with whether it returned an event.
  unfoldable pub take_one : Logger → Bool × Logger
  unfolding format_event
  take_one l = elim l.buffer [
    | [] ↦ (false, l)
    | ev ∷ rest ↦ (true, record l { buffer = rest; lines = l.lines ++ format_event ev ∷ [] })
  ]

  -- The loop of `drainBatch`, `n` rounds from its end.
  unfoldable pub drain_rounds : ℕ → Logger → Logger
  unfolding take_one
  drain_rounds zero l = l
  drain_rounds (suc n) l =
      let (more, l') = take_one l in let rest = drain_rounds n l' in if more then rest else l'

  unfoldable pub drain_batch : Logger → Logger
  unfolding drain_rounds
  drain_batch = drain_rounds 256

  -- The loop of `drainAll`, of `flush` and of the destructor; `none` means that the fuel ran out.
  unfoldable pub drain_all : ℕ → Logger → Option Logger
  unfolding take_one
  drain_all zero l = none
  drain_all (suc fuel) l =
      let (more, l') = take_one l in let rest = drain_all fuel l' in if more then rest else some l'

-- What threads do, in the order of their calls of `push` and `pop`.
pub data LogStep : Type 0 where
  logs : LogLevel → Bytes → ℕ → LogStep
  takes : LogStep

unfoldable pub play_log : (ℕ → Bytes) → List LogStep → Logger → Logger
unfolding log take_one
play_log local [] l = l
play_log local (logs level message now ∷ ss) l = play_log local ss (log level message now l)
play_log local (takes ∷ ss) l = play_log local ss (take_one local l).1
