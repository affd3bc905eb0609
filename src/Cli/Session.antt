-- ===== src/Cli/Session.antt =====
-- How a call of workflow-cli ends (tools/workflow-cli.cpp).
use cpp20_workflow_engine.Shared.{
  ℕ, ◌≡◌, ◌≢◌, ◌⊎◌, ◌↔◌, refl, ap, sym, ◌∙◌, inl, inr, true, false, Option, none, some,
  Option-cases, subst, List, [], ◌∷◌, ◌++◌, arith, ◌==◌, if◌then◌else◌, append-nil, Bytes,
}
use cpp20_workflow_engine.Control.{upper}
use cpp20_workflow_engine.Cli.Connect.{Call, opened, shut_write, closed, Network, connect_socket}
use cpp20_workflow_engine.Cli.{
  Sending, Receiving, send_all, recv_response, Arguments, usage, help, request, parse_arguments,
  Exit, finish, converse, default_socket, main, send_all_lem,
}

abbrev remove : ℕ → List ℕ → List ℕ
remove fd [] = []
remove fd (x ∷ xs) = if x == fd then xs else x ∷ remove fd xs

-- The descriptors that are open after some calls.
abbrev pub open_after : List ℕ → List Call → List ℕ
open_after fds [] = fds
open_after fds (opened fd ∷ cs) = open_after (fd ∷ fds) cs
open_after fds (shut_write fd ∷ cs) = open_after fds cs
open_after fds (closed fd ∷ cs) = open_after (remove fd fds) cs

-- What connect_socket leaves open is what it returns.
abbrev IsConnect : Option ℕ × List Call → Type 0
IsConnect (none, calls) = open_after [] calls ≡ []
IsConnect (some fd, calls) = calls ≡ opened fd ∷ []

connect_socket-IsConnect : (net : Network) (path : Bytes) → IsConnect (connect_socket net path)
unfolding connect_socket
connect_socket-IsConnect net path = ground arith

-- The response arrived after all of a command was written.
pub record Answered (command : Bytes) (x : Exit) : Type 0 where
  pub all_sent : x.sent ≡ command
  pub some_printed : x.printed ≢ []

-- Nothing stays open, and the exit code is 0 exactly if it was answered.
abbrev Ends : Bytes → Option Exit → Type 0
Ends command none = Unit {0}
Ends command (some x) = (open_after [] x.calls ≡ []) × ((x.code ≡ 0) ↔ Answered command x)

finish-Ends :
    (command sent response : Bytes) (fd : ℕ)
    → sent ≡ command
    → Ends command (some (finish sent response (opened fd ∷ shut_write fd ∷ closed fd ∷ [])))
unfolding finish
finish-Ends command sent [] fd e =
    (ground arith, (λ h. absurd (omega arith), λ a. absurd (a.some_printed refl)))
finish-Ends command sent (b ∷ response) fd e =
    (ground arith, (λ h. record { all_sent = e; some_printed = λ n. cc }, λ a. refl))

pub all_written :
    (ts : List Sending) (command : Bytes)
    → (send_all ts command).result ≡ some true
    → (send_all ts command).written ≡ command
all_written ts command e =
    let (rest, whole, success) = send_all_lem ts command in
    sym (append-nil (send_all ts command).written)
    ∙ ap (λ r. (send_all ts command).written ++ r) (sym (success.0 e))
    ∙ whole

converse-Ends :
    (fd : ℕ) (command : Bytes) (ts : List Sending) (rs : List Receiving)
    → Ends command (converse fd (opened fd ∷ []) command ts rs)
unfolding converse
converse-Ends fd command ts rs = elim (Option-cases (send_all ts command).result) [
  | inl e ↦ rw (converse, e) tt
  | inr (false, e) ↦
      rw (converse, e)
        (ground arith, (λ h. absurd (omega arith), λ a. absurd (a.some_printed refl)))
  | inr (true, e) ↦ elim (Option-cases (recv_response rs [])) [
    | inl e' ↦ rw (converse, e, e') tt
    | inr (response, e') ↦
        rw (converse, e, e')
          (finish-Ends command (send_all ts command).written response fd (all_written ts command e))
  ]
]

abbrev pub asked : List Bytes → Arguments
asked args = parse_arguments args default_socket []

-- How a call for these arguments may exit.
abbrev Exits : Arguments → Option Exit → Type 0
Exits a none = Unit {0}
Exits a (some x) =
    (open_after [] x.calls ≡ [])
    × ((x.code ≡ 0) ↔ (
        (a ≡ help)
        ⊎ ((path : Bytes) × (command : Bytes) × (a ≡ request path command)
            × Answered (upper command) x)))

Ends-Exits :
    (path command : Bytes) (r : Option Exit)
    → Ends (upper command) r
    → Exits (request path command) r
Ends-Exits path command none h = tt
Ends-Exits path command (some x) (all_closed, answered) = (
  all_closed,
  (
    λ h. inr (path, command, refl, answered.0 h),
    λ h. elim h [ inl e ↦ cc | inr (p, c, e, a) ↦ answered.1 (same_command c e a) ],
  ),
)
  where
    same_command :
        (c : Bytes)
        → {p : Bytes} → request path command ≡ request p c
        → Answered (upper c) x
        → Answered (upper command) x
    same_command c e a = record {
      all_sent = a.all_sent ∙ ap upper (cc);
      some_printed = a.some_printed;
    }

main-Exits :
    (args : List Bytes) (net : Network) (ts : List Sending) (rs : List Receiving)
    → Exits (asked args) (main args net ts rs)
unfolding main
main-Exits args net ts rs = from (asked args)
  where
    reached :
        (path command : Bytes) (c : Option ℕ × List Call)
        → IsConnect c
        → Exits (request path command) (elim c.0 [
          | none ↦ some (record { code = 1; sent = []; printed = []; calls = c.1 })
          | some fd ↦ converse fd c.1 (upper command) ts rs
        ])
    reached path command (none, calls) h =
        Ends-Exits path command (some (record { code = 1; sent = []; printed = []; calls = calls }))
          (h, (λ k. absurd (omega arith), λ a. absurd (a.some_printed refl)))
    reached path command (some fd, calls) h =
        rw h (Ends-Exits path command _ (converse-Ends fd (upper command) ts rs))

    from :
        (a : Arguments)
        → Exits a (elim a [
          | usage ↦ some (record { code = 1; sent = []; printed = []; calls = [] })
          | help ↦ some (record { code = 0; sent = []; printed = []; calls = [] })
          | request socket_path command ↦
              let (socket, calls) = connect_socket net socket_path in
              elim socket [
                | none ↦ some (record { code = 1; sent = []; printed = []; calls = calls })
                | some fd ↦ converse fd calls (upper command) ts rs
              ]
        ])
    from usage =
        (refl, (λ h. absurd (omega arith), λ h. elim h [ inl e ↦ cc | inr (p, c, e, a) ↦ cc ]))
    from help = (refl, (λ h. inl refl, λ h. refl))
    from (request path command) =
        reached path command (connect_socket net path) (connect_socket-IsConnect net path)

-- Whatever the arguments and the answers of the system, when the client exits: it has closed every
-- descriptor that it opened, and its exit code is 0 exactly if help was asked for, or a command was
-- given, all of it was written in upper case, and a response was printed.
pub main-exits :
    (args : List Bytes) (net : Network) (ts : List Sending) (rs : List Receiving) (x : Exit)
    → main args net ts rs ≡ some x
    → (open_after [] x.calls ≡ [])
      × ((x.code ≡ 0) ↔ (
          (asked args ≡ help)
          ⊎ ((path : Bytes) × (command : Bytes) × (asked args ≡ request path command)
              × Answered (upper command) x)))
main-exits args net ts rs x e = subst (Exits (asked args)) e (main-Exits args net ts rs)
