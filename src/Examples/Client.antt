-- ===== src/Examples/Client.antt =====
-- The client, the watcher and the splitting of texts.
use cpp20_workflow_engine.Shared.{
  ℕ, ◌⊎◌, refl, if◌then◌else◌, str_eq, false, ◌+◌, ◌≡◌, arith, ◌↔◌, suc, true, Option, none, some,
  List, [], ◌∷◌, ◌++◌, Bytes, bytes,
}
use cpp20_workflow_engine.Control.{
  Handled, replied, Handlers, upper, dispatch, got, handle_session, trim_back, is_space,
}
use cpp20_workflow_engine.Control.Laws.{IsTrimmed}
use cpp20_workflow_engine.Cli.{
  Sending, write_interrupted, wrote, read_ended, help, request, Exit, parse_arguments, send_all,
  main, rounds_of, chunks,
}
use cpp20_workflow_engine.Cli.Connect.{
  Network, connect_socket, in_progress, opened, shut_write, closed,
}
use cpp20_workflow_engine.Cli.Session.{open_after, Answered, asked, main-exits}
use cpp20_workflow_engine.Cli.Served.{main-dispatch}
use cpp20_workflow_engine.Segments.{split_text, join, AllWithin, split_text_lem}
use cpp20_workflow_engine.Watcher
use cpp20_workflow_engine.Watcher.{
  Event, cancelled, watch_loop, all_events, writes, times, watch_loop_lem,
}

abbrev sending : List Sending
sending = wrote 2 ∷ write_interrupted ∷ wrote 4 ∷ []

abbrev pieces : List (Option Bytes)
pieces = some (bytes "O") ∷ none ∷ some (bytes "K\n") ∷ []

abbrev network : Network
network = record {
  socket = some 3;
  connect = λ path. in_progress;
  poll_ready = true;
  sock_err = false;
}

abbrev typed : List Bytes
typed = bytes "-s" ∷ bytes "/s" ∷ bytes "status" ∷ []

abbrev exit_of : Bytes → Exit
exit_of response = record {
  code = 0;
  sent = bytes "STATUS";
  printed = response;
  calls = opened 3 ∷ shut_write 3 ∷ closed 3 ∷ [];
}

main-typed :
    main typed network sending (rounds_of pieces (read_ended ∷ [])) ≡ some (exit_of (bytes "OK\n"))
unfolding main str_eq
main-typed = refl

main-exits_example :
    (open_after [] (exit_of (bytes "OK\n")).calls ≡ [])
    × (((exit_of (bytes "OK\n")).code ≡ 0) ↔ (
        (asked typed ≡ help)
        ⊎ ((path : Bytes) × (command : Bytes) × (asked typed ≡ request path command)
            × Answered (upper command) (exit_of (bytes "OK\n")))))
main-exits_example =
    main-exits typed network sending (rounds_of pieces (read_ended ∷ [])) (exit_of (bytes "OK\n"))
      main-typed

-- A server that counts the calls of STATUS.
abbrev counting : ℕ → Handled × ℕ
counting n = (replied (bytes "OK"), suc n)

abbrev served : Handlers ℕ
served k = if str_eq k (bytes "STATUS") then some counting else none

served_status : served (bytes "STATUS") ≡ some counting
unfolding str_eq
served_status = refl

status_session : handle_session (got (bytes "STATUS")) served 4 ≡ (some (chunks pieces), 5)
unfolding handle_session str_eq
status_session = refl

status-IsTrimmed : IsTrimmed (bytes "STATUS")
unfolding trim_back is_space
status-IsTrimmed = (refl, refl)

main-dispatch_example :
    (x : Exit) × (main typed network sending (rounds_of pieces (read_ended ∷ [])) ≡ some x)
    × (x.code ≡ 0)
    × (x.sent ≡ upper (bytes "status"))
    × (x.printed ≡ (dispatch (bytes "status") served 4).0 ++ 10 ∷ [])
    × (suc 4 ≡ (dispatch (bytes "status") served 4).1)
unfolding parse_arguments str_eq connect_socket send_all upper
main-dispatch_example =
    main-dispatch typed network (bytes "/s") (bytes "status") 3 sending served 4 5 counting pieces
      [] refl refl refl status-IsTrimmed (omega arith) served_status status_session

abbrev written : Event
written = record { close_write = true; name = some (bytes "f") }

abbrev other_file : Event
other_file = record { close_write = true; name = some (bytes "g") }

abbrev changes : List (Option (List Event))
changes = some (written ∷ other_file ∷ []) ∷ none ∷ some (written ∷ []) ∷ []

watch_loop_lem_example :
    watch_loop (bytes "f") suc (Watcher.rounds_of changes (cancelled ∷ [])) 0
    ≡ some (times (writes (bytes "f") (all_events changes)) suc 0)
watch_loop_lem_example = watch_loop_lem (bytes "f") suc changes [] 0

split_text_lem_example :
    (chunks : List Bytes) × (split_text 3 (bytes "ab. cd. e") ≡ some chunks)
    × (join chunks ≡ bytes "ab. cd. e")
    × AllWithin (3 + 3) chunks
split_text_lem_example = split_text_lem 3 (bytes "ab. cd. e") (omega arith)
