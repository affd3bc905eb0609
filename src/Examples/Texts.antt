-- ===== src/Examples/Texts.antt =====
-- The texts of the text analyzer and the commands of the program.
use cpp20_workflow_engine.Shared.{
  ℕ, zero, suc, ◌^◌, ◌≡◌, refl, ◌-◌, arith, inl, true, false, not, ◌||◌, Option, none, some, List,
  [], ◌∷◌, ◌++◌, Bytes, bytes, str_eq,
}
use cpp20_workflow_engine.Shared.Int.{pos}
use cpp20_workflow_engine.Analyzer.Text.{find, starts_with, json_escape, json_extract_string}
use cpp20_workflow_engine.Analyzer.Escape.{json_extract_string-json_escape}
use cpp20_workflow_engine.Analyzer.Http.{size_text, read_chunk, unchunk_from, unchunk}
use cpp20_workflow_engine.Analyzer.Chunks.{encode, payload, unchunk-encode}
use cpp20_workflow_engine.Engine.{blank_state}
use cpp20_workflow_engine.Control.{
  handle_session, is_space, got, upper, trim_front, trim_back, to_upper,
}
use cpp20_workflow_engine.Main.{World, Turn, asleep, session, handlers, main_loop, is_stopping}
use cpp20_workflow_engine.Plugins.{reload}
use cpp20_workflow_engine.Main.Reload.{reloaded, handle_session-reloaded}
use cpp20_workflow_engine.Main.Stops.{is_none, any_stop, is_stop, main_loop-any_stop}

-- a"b in a field behind a brace
json_extract_string-json_escape_example :
    json_extract_string
      (bytes "{"
        ++ ((34 ∷ (bytes "text" ++ 34 ∷ []))
            ++ (58 ∷ 34 ∷ (json_escape (97 ∷ 34 ∷ 98 ∷ []) ++ 34 ∷ bytes "}"))))
      (bytes "text")
    ≡ 97 ∷ 34 ∷ 98 ∷ []
json_extract_string-json_escape_example =
    json_extract_string-json_escape (bytes "{") (bytes "text") (97 ∷ 34 ∷ 98 ∷ []) (bytes "}")
      (omega arith, tt) (inl (omega arith), (inl (omega arith), (inl (omega arith), tt)))

abbrev stoul : Bytes → Option ℕ
stoul [] = none
stoul (c ∷ s) = some (c - 48)

abbrev pieces : List (Bytes × Bytes)
pieces = (bytes "3;x", bytes "abc") ∷ (bytes "2", bytes "de") ∷ []

unchunk-encode_example :
    unchunk stoul 3 (encode pieces (bytes "0" ++ 13 ∷ 10 ∷ [])) ≡ some (payload pieces)
unfolding encode size_text find starts_with
unchunk-encode_example =
    unchunk-encode stoul pieces 3 (bytes "0") [] (omega arith) (omega arith)
      (
        (omega arith, (omega arith, (omega arith, tt))),
        refl,
        omega arith,
        ((omega arith, tt), refl, omega arith, tt),
      )
      (omega arith, tt) refl

abbrev world : World ℕ
world = record {
  example_pm = record { current = none; retired = []; destroyed = []; closed = [] };
  engine = record {
    running = false;
    execution_ctx = 0;
    node_configs = [];
    node_ids = [];
    node_states = λ _. blank_state;
    completion_latch = none;
    metrics = record {
      success_count = 0;
      failed_count = 0;
      cancelled_count = 0;
      hot_reload_count = 0;
    };
  };
  stop = false;
  signalled = false;
  lib = none;
  file = none;
}

abbrev turns : List Turn
turns = session (got (bytes "status\n")) ∷ asleep ∷ session (got (bytes " Stop\n")) ∷ []

abbrev number : Bytes → Option ℕ
number s = none

main_loop-any_stop_example :
    is_none (
      main_loop
        (bytes "w.json")
        (bytes "w.json")
        (λ r. bytes "no library")
        number
        (λ n. pos n)
        (λ ids. ids)
        turns
        world)
    ≡ not (is_stopping world || any_stop turns)
main_loop-any_stop_example =
    main_loop-any_stop (bytes "w.json") (bytes "w.json") (λ r. bytes "no library") number
      (λ n. pos n) (λ ids. ids) turns world

stops : any_stop turns ≡ true
unfolding is_stop str_eq upper to_upper trim_back trim_front is_space
stops = refl

-- A library that can be loaded, and no configuration file.
abbrev refused : World ℕ
refused = record world {
  lib = some (record { handle = 1; has_create = true; has_destroy = true; node = some 5 });
}

handle_session-reloaded_example :
    handle_session
      (got ([] ++ (bytes "Reload" ++ 10 ∷ [])))
      (handlers
        (bytes "w.json")
        (bytes "w.json")
        (λ r. bytes "no library")
        number
        (λ n. pos n)
        (λ ids. ids))
      refused
    ≡ reloaded
        (bytes "w.json")
        (bytes "w.json")
        (λ r. bytes "no library")
        number
        (λ n. pos n)
        (λ ids. ids)
        (reload refused.lib refused.example_pm).0
        refused
unfolding upper to_upper is_space trim_back
handle_session-reloaded_example =
    handle_session-reloaded (bytes "w.json") (bytes "w.json") (λ r. bytes "no library") number
      (λ n. pos n) (λ ids. ids) [] (bytes "Reload") (10 ∷ []) refused tt (refl, refl) (refl, tt)
      refl

-- The body of a response whose one size is read as 2^64 - 20: behind its line the position wraps to 2,
-- and from there to 2 again.
abbrev wrapping : Bytes
wrapping = bytes "  FFFFFFFFFFFFFFEC" ++ 13 ∷ 10 ∷ []

abbrev huge : Bytes → Option ℕ
huge s = some (2 ^ 64 - 20)

ends_never : (fuel : ℕ) (result : Bytes) → unchunk_from huge fuel wrapping 2 result ≡ none
unfolding unchunk_from read_chunk size_text find starts_with
ends_never zero result = refl
ends_never (suc fuel) result = ends_never fuel (result ++ [])
