-- ===== src/Watcher.antt =====
-- ConfigWatcher (src/ConfigWatcher.cpp): its descriptors and its loop. What inotify and `poll` answer
-- is an argument; the callback is a function of the state that it changes.
use cpp20_workflow_engine.Shared.{
  ℕ, zero, suc, ◌+◌, ◌≡◌, refl, ap, sym, ◌∙◌, Bool, true, false, ◌&&◌, Option, none, some, List, [],
  ◌∷◌, ◌++◌, arith, if◌then◌else◌, Bytes, str_eq, count, Bool-cases, inl, inr,
}

pub data Resource : Type 0 where
  inotify watch event : Resource

pub data Operation : Type 0 where
  opens closes : Resource → Operation

abbrev pub Log : Type 0
Log = List Operation

-- The constructor, by whether each of the three calls succeeds: whether it returns, and its calls.
unfoldable pub construct : Bool → Bool → Bool → Bool × Log
construct false _ _ = (false, [])
construct true false _ = (false, opens inotify ∷ closes inotify ∷ [])
construct true true false =
    (false, opens inotify ∷ opens watch ∷ closes watch ∷ closes inotify ∷ [])
construct true true true = (true, opens inotify ∷ opens watch ∷ opens event ∷ [])

abbrev pub destroy : Log
destroy = closes watch ∷ closes inotify ∷ closes event ∷ []

-- An `inotify_event`: whether its mask has IN_CLOSE_WRITE, and its name if it has one.
pub record Event : Type 0 where
  pub close_write : Bool
  pub name : Option Bytes

-- One round of the loop: a stop that was requested before it, the failures of `poll`, the event
-- descriptor, a `read` that fails or nothing to read, and the events that were read.
pub data Round : Type 0 where
  stop_requested poll_interrupted poll_failed cancelled not_read : Round
  events : List Event → Round

unfoldable pub matches : Bytes → Event → Bool
matches filename ev = elim ev.name [ none ↦ false | some n ↦ ev.close_write && str_eq filename n ]

module _ {S : Type 0} (filename : Bytes) (callback : S → S) where
  unfoldable pub handle_events : List Event → S → S
  unfolding matches
  handle_events [] w = w
  handle_events (ev ∷ evs) w = handle_events evs (if matches filename ev then callback w else w)

  -- `watchLoop`; `none` means that more rounds follow.
  unfoldable pub watch_loop : List Round → S → Option S
  unfolding handle_events
  watch_loop [] w = none
  watch_loop (stop_requested ∷ rs) w = some w
  watch_loop (poll_failed ∷ rs) w = some w
  watch_loop (cancelled ∷ rs) w = some w
  watch_loop (poll_interrupted ∷ rs) w = watch_loop rs w
  watch_loop (not_read ∷ rs) w = watch_loop rs w
  watch_loop (events evs ∷ rs) w = watch_loop rs (handle_events evs w)

abbrev pub same : Resource → Resource → Bool
same inotify inotify = true
same watch watch = true
same event event = true
same _ _ = false

-- How often a resource was opened, and how often it was closed.
abbrev pub opened : Resource → Log → ℕ
opened r [] = 0
opened r (opens q ∷ log) = (if same r q then 1 else 0) + opened r log
opened r (closes q ∷ log) = opened r log

abbrev pub closed : Resource → Log → ℕ
closed r [] = 0
closed r (opens q ∷ log) = closed r log
closed r (closes q ∷ log) = (if same r q then 1 else 0) + closed r log

-- Whichever call fails, the constructor has closed what it opened; and if none fails, the destructor
-- closes all of it.
pub construct_lem :
    (a b c : Bool) (r : Resource)
    → opened r ((construct a b c).1 ++ (if (construct a b c).0 then destroy else []))
      ≡ closed r ((construct a b c).1 ++ (if (construct a b c).0 then destroy else []))
unfolding construct
construct_lem false b c r = refl
construct_lem true false c inotify = refl
construct_lem true false c watch = refl
construct_lem true false c event = refl
construct_lem true true false inotify = refl
construct_lem true true false watch = refl
construct_lem true true false event = refl
construct_lem true true true inotify = refl
construct_lem true true true watch = refl
construct_lem true true true event = refl

abbrev pub times : {S : Type 0} → ℕ → (S → S) → S → S
times zero f w = w
times (suc n) f w = times n f (f w)

-- The names of the files that were closed after a write.
abbrev pub written_names : List Event → List Bytes
written_names [] = []
written_names (ev ∷ evs) =
    let rest = written_names evs in
    elim ev.name [ none ↦ rest | some n ↦ if ev.close_write then n ∷ rest else rest ]

-- How often the file was written.
abbrev pub writes : Bytes → List Event → ℕ
writes filename evs = count filename (written_names evs)

-- The code's test of an event and the names of the written files agree.
matches-writes :
    (filename : Bytes) (ev : Event) (evs : List Event)
    → writes filename (ev ∷ evs) ≡ (if matches filename ev then 1 else 0) + writes filename evs
unfolding matches
matches-writes filename ev evs = from ev.close_write ev.name
  where
    from :
        (b : Bool) (o : Option Bytes)
        → writes filename (record { close_write = b; name = o } ∷ evs)
          ≡ (if matches filename (record { close_write = b; name = o }) then 1 else 0)
            + writes filename evs
    from true (some n) = refl
    from true none = omega arith
    from false (some n) = omega arith
    from false none = omega arith

-- The rounds that bring some events each, `none` for an interrupted one.
abbrev pub rounds_of : List (Option (List Event)) → List Round → List Round
rounds_of [] after = after
rounds_of (none ∷ es) after = poll_interrupted ∷ rounds_of es after
rounds_of (some evs ∷ es) after = events evs ∷ rounds_of es after

abbrev pub all_events : List (Option (List Event)) → List Event
all_events [] = []
all_events (none ∷ es) = all_events es
all_events (some evs ∷ es) = evs ++ all_events es

times-add : {S : Type 0} (m n : ℕ) (f : S → S) (w : S) → times n f (times m f w) ≡ times (m + n) f w
times-add zero n f w = let e : n ≡ 0 + n = omega arith in ap (λ k. times k f w) e
times-add (suc m) n f w =
    let e : suc (m + n) ≡ suc m + n = omega arith in times-add m n f (f w) ∙ ap (λ k. times k f w) e

writes-append :
    (filename : Bytes) (xs ys : List Event)
    → writes filename (xs ++ ys) ≡ writes filename xs + writes filename ys
writes-append filename [] ys = omega arith
writes-append filename (x ∷ xs) ys = omega (
  arith,
  writes-append filename xs ys,
  matches-writes filename x xs,
  matches-writes filename x (xs ++ ys),
)

module _ {S : Type 0} (filename : Bytes) (callback : S → S) where
  handle_events_lem :
      (evs : List Event) (w : S)
      → handle_events filename callback evs w ≡ times (writes filename evs) callback w
  unfolding handle_events
  handle_events_lem [] w = refl
  handle_events_lem (ev ∷ evs) w = elim (Bool-cases (matches filename ev)) [
    | inl hit ↦
        let e : suc (writes filename evs) ≡ writes filename (ev ∷ evs) =
          ground (arith, matches-writes filename ev evs) in
        rw hit (handle_events_lem evs (callback w) ∙ ap (λ k. times k callback w) e)
    | inr miss ↦
        let e : writes filename evs ≡ writes filename (ev ∷ evs) =
          ground (arith, matches-writes filename ev evs) in
        rw miss (handle_events_lem evs w ∙ ap (λ k. times k callback w) e)
  ]

  -- However the events are spread over the rounds, and however often `poll` is interrupted: when the
  -- loop is cancelled the callback has run as often as the name of the file is among the names of
  -- the events that tell of the end of a write.
  pub watch_loop_lem :
      (es : List (Option (List Event))) (after : List Round) (w : S)
      → watch_loop filename callback (rounds_of es (cancelled ∷ after)) w
        ≡ some (times (writes filename (all_events es)) callback w)
  unfolding watch_loop
  watch_loop_lem [] after w = refl
  watch_loop_lem (none ∷ es) after w = watch_loop_lem es after w
  watch_loop_lem (some evs ∷ es) after w =
      watch_loop_lem es after (handle_events filename callback evs w)
      ∙ ap (λ v. some (times (writes filename (all_events es)) callback v))
          (handle_events_lem evs w)
      ∙ ap some (times-add (writes filename evs) (writes filename (all_events es)) callback w)
      ∙ ap (λ n. some (times n callback w)) (sym (writes-append filename evs (all_events es)))
