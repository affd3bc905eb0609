-- ===== src/Cli.antt =====
-- workflow-cli (tools/workflow-cli.cpp): arguments, sending, receiving and main. What the operating system
-- answers to `poll`, `write` and `read` is a list of answers in order; `none` is a list too short.
pub mod Connect
pub mod Session
pub mod Served
use cpp20_workflow_engine.Shared.{
  ℕ, zero, suc, ◌≡◌, ◌↔◌, refl, ap, sym, ◌∙◌, Bool, true, false, ◌||◌, Option, none, some, List, [],
  ◌∷◌, ◌++◌, append_assoc, append-nil, take, drop, if◌then◌else◌, Bytes, bytes, str_eq,
}
use cpp20_workflow_engine.Cli.Connect.{Call, shut_write, closed, Network, connect_socket}
use cpp20_workflow_engine.Control.{Handled, Handlers, upper, dispatch}
use cpp20_workflow_engine.Control.Laws.{upper_idem}

-- One round of `send_all`: `poll` fails or times out, or `write` answers.
pub data Sending : Type 0 where
  not_ready write_interrupted write_failed : Sending
  wrote : ℕ → Sending

-- One round of `recv_response`: an end, an interrupted `poll`, or the bytes of a `read`.
pub data Receiving : Type 0 where
  timed_out poll_failed read_ended poll_interrupted : Receiving
  received : Bytes → Receiving

-- The result, and the bytes that were written.
pub record Sent : Type 0 where
  pub result : Option Bool
  pub written : Bytes

unfoldable pub send_all : List Sending → Bytes → Sent
send_all ts [] = record { result = some true; written = [] }
send_all [] (b ∷ data') = record { result = none; written = [] }
send_all (not_ready ∷ ts) (b ∷ data') = record { result = some false; written = [] }
send_all (write_failed ∷ ts) (b ∷ data') = record { result = some false; written = [] }
send_all (write_interrupted ∷ ts) (b ∷ data') = send_all ts (b ∷ data')
send_all (wrote n ∷ ts) (b ∷ data') =
    let rest = send_all ts (drop n (b ∷ data')) in
    record rest { written = take n (b ∷ data') ++ rest.written }

unfoldable pub recv_response : List Receiving → Bytes → Option Bytes
recv_response [] response = none
recv_response (timed_out ∷ rs) response = some response
recv_response (poll_failed ∷ rs) response = some response
recv_response (read_ended ∷ rs) response = some response
recv_response (poll_interrupted ∷ rs) response = recv_response rs response
recv_response (received chunk ∷ rs) response = recv_response rs (response ++ chunk)

pub data Arguments : Type 0 where
  usage help : Arguments
  request : Bytes → Bytes → Arguments

-- The loop over `argv`, with `socket_path` and `command` so far, and the test after it.
unfoldable pub parse_arguments : List Bytes → Bytes → Bytes → Arguments
parse_arguments [] socket_path [] = usage
parse_arguments [] socket_path (c ∷ command) = request socket_path (c ∷ command)
parse_arguments (arg ∷ []) socket_path command =
    if str_eq arg (bytes "--socket") || str_eq arg (bytes "-s")
    then usage
    else if str_eq arg (bytes "--help") || str_eq arg (bytes "-h")
    then help
    else parse_arguments [] socket_path arg
parse_arguments (arg ∷ next ∷ args) socket_path command =
    let skipped = parse_arguments args next command in
    let taken = parse_arguments (next ∷ args) socket_path arg in
    if str_eq arg (bytes "--socket") || str_eq arg (bytes "-s")
    then skipped
    else if str_eq arg (bytes "--help") || str_eq arg (bytes "-h")
    then help
    else taken

-- The exit code, the bytes sent, the response that is printed, and the calls on descriptors.
pub record Exit : Type 0 where
  pub code : ℕ
  pub sent : Bytes
  pub printed : Bytes
  pub calls : List Call

unfoldable pub finish : Bytes → Bytes → List Call → Exit
finish sent [] calls = record { code = 1; sent = sent; printed = []; calls = calls }
finish sent (b ∷ response) calls = record {
  code = 0;
  sent = sent;
  printed = b ∷ response;
  calls = calls;
}

-- `main` from the sending of the command on, over the connected descriptor.
unfoldable pub converse : ℕ → List Call → Bytes → List Sending → List Receiving → Option Exit
unfolding send_all recv_response finish
converse fd calls command ts rs =
    let s = send_all ts command in
    elim s.result [
      | none ↦ none
      | some false ↦
          some
            (record { code = 1; sent = s.written; printed = []; calls = calls ++ closed fd ∷ [] })
      | some true ↦ elim (recv_response rs []) [
        | none ↦ none
        | some response ↦ some (finish s.written response (calls ++ shut_write fd ∷ closed fd ∷ []))
      ]
    ]

abbrev pub default_socket : Bytes
default_socket = bytes "/tmp/workflow.sock"

unfoldable pub main : List Bytes → Network → List Sending → List Receiving → Option Exit
unfolding parse_arguments connect_socket converse upper
main args net ts rs = elim (parse_arguments args default_socket []) [
  | usage ↦ some (record { code = 1; sent = []; printed = []; calls = [] })
  | help ↦ some (record { code = 0; sent = []; printed = []; calls = [] })
  | request socket_path command ↦
      let (socket, calls) = connect_socket net socket_path in
      elim socket [
        | none ↦ some (record { code = 1; sent = []; printed = []; calls = calls })
        | some fd ↦ converse fd calls (upper command) ts rs
      ]
]

pub take-drop : (n : ℕ) (s : Bytes) → take n s ++ drop n s ≡ s
take-drop zero s = refl
take-drop (suc n) [] = refl
take-drop (suc n) (b ∷ s) = ap (λ r. b ∷ r) (take-drop n s)

-- Whatever the system answers: what `send_all` has written is the start of the data, and it reports
-- success exactly if nothing is left.
pub send_all_lem :
    (ts : List Sending) (s : Bytes)
    → (rest : Bytes) × ((send_all ts s).written ++ rest ≡ s)
      × (((send_all ts s).result ≡ some true) ↔ (rest ≡ []))
unfolding send_all
send_all_lem ts [] = ([], refl, (λ _. refl, λ _. refl))
send_all_lem [] (b ∷ s) = (b ∷ s, refl, (λ h. cc, λ h. cc))
send_all_lem (not_ready ∷ ts) (b ∷ s) = (b ∷ s, refl, (λ h. cc, λ h. cc))
send_all_lem (write_failed ∷ ts) (b ∷ s) = (b ∷ s, refl, (λ h. cc, λ h. cc))
send_all_lem (write_interrupted ∷ ts) (b ∷ s) = send_all_lem ts (b ∷ s)
send_all_lem (wrote n ∷ ts) (b ∷ s) =
    let (rest, whole, all) = send_all_lem ts (drop n (b ∷ s)) in
    (
      rest,
      append_assoc (take n (b ∷ s)) (send_all ts (drop n (b ∷ s))).written rest
          ∙ ap (λ r. take n (b ∷ s) ++ r) whole
          ∙ take-drop n (b ∷ s),
      all,
    )

-- The rounds in which nothing ends: an interrupted `poll`, or some bytes.
abbrev pub rounds_of : List (Option Bytes) → List Receiving → List Receiving
rounds_of [] after = after
rounds_of (none ∷ cs) after = poll_interrupted ∷ rounds_of cs after
rounds_of (some chunk ∷ cs) after = received chunk ∷ rounds_of cs after

abbrev pub chunks : List (Option Bytes) → Bytes
chunks [] = []
chunks (none ∷ cs) = chunks cs
chunks (some chunk ∷ cs) = chunk ++ chunks cs

-- Whatever chunks arrive, and however often `poll` is interrupted: at a time-out or the end of the
-- stream the response is the chunks in their order.
pub recv_response_lem :
    (cs : List (Option Bytes)) (after : List Receiving) (response : Bytes)
    → (recv_response (rounds_of cs (timed_out ∷ after)) response ≡ some (response ++ chunks cs))
      × (recv_response (rounds_of cs (read_ended ∷ after)) response ≡ some (response ++ chunks cs))
unfolding recv_response
recv_response_lem [] after response =
    (ap some (sym (append-nil response)), ap some (sym (append-nil response)))
recv_response_lem (none ∷ cs) after response = recv_response_lem cs after response
recv_response_lem (some chunk ∷ cs) after response =
    let (timed, ended) = recv_response_lem cs after (response ++ chunk) in
    (
      timed ∙ ap some (append_assoc response chunk (chunks cs)),
      ended ∙ ap some (append_assoc response chunk (chunks cs)),
    )

-- A command for which the server has a handler gets the same answer in the upper case in which the
-- client sends it.
pub dispatch-upper :
    {S : Type 0} (cmd : Bytes) (hs : Handlers S) (w : S) (h : S → Handled × S)
    → hs (upper cmd) ≡ some h
    → dispatch (upper cmd) hs w ≡ dispatch cmd hs w
unfolding dispatch
dispatch-upper cmd hs w h e = rw (dispatch, upper_idem cmd, e) refl
