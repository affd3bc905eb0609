-- ===== src/Cli/Served.antt =====
-- A call of workflow-cli together with a session of ControlPlane (tools/workflow-cli.cpp,
-- core/ControlPlane.cpp).
use cpp20_workflow_engine.Shared.{
  ℕ, ◌≤◌, ◌≡◌, ◌≢◌, refl, ap, sym, ◌∙◌, true, Option, some, List, [], ◌∷◌, ◌++◌, length, append-nil,
  Bytes,
}
use cpp20_workflow_engine.Control.{Handled, Handlers, upper, dispatch, got, handle_session}
use cpp20_workflow_engine.Control.Laws.{IsTrimmed, handle_session-dispatch}
use cpp20_workflow_engine.Cli.Connect.{Call, shut_write, closed, Network, connect_socket}
use cpp20_workflow_engine.Cli.{
  Sending, Receiving, read_ended, send_all, request, Exit, finish, converse, main, rounds_of,
  chunks, recv_response_lem, dispatch-upper,
}
use cpp20_workflow_engine.Cli.Session.{all_written, asked}

snoc_ne : (d : Bytes) → d ++ 10 ∷ [] ≢ []
snoc_ne [] e = cc
snoc_ne (c ∷ d) e = cc

finish-some :
    (sent response : Bytes) (calls : List Call)
    → response ≢ []
    → finish sent response calls
      ≡ record { code = 0; sent = sent; printed = response; calls = calls }
unfolding finish
finish-some sent [] calls h = absurd (h refl)
finish-some sent (b ∷ response) calls h = refl

-- Where all of a command is sent and an answer with a line end arrives in chunks, it is printed.
converse-answers :
    (fd : ℕ) (calls : List Call) (command : Bytes) (ts : List Sending) (cs : List (Option Bytes))
    (after : List Receiving) (d : Bytes)
    → (send_all ts command).result ≡ some true
    → chunks cs ≡ d ++ 10 ∷ []
    → (x : Exit) × (converse fd calls command ts (rounds_of cs (read_ended ∷ after)) ≡ some x)
      × (x.code ≡ 0)
      × (x.sent ≡ command)
      × (x.printed ≡ d ++ 10 ∷ [])
unfolding converse
converse-answers fd calls command ts cs after d sent arrives =
    let (timed, ended) = recv_response_lem cs after [] in
    let some_response : chunks cs ≢ [] = λ e. snoc_ne d (sym arrives ∙ e) in
    let calls' = calls ++ shut_write fd ∷ closed fd ∷ [] in
    (
      record {
        code = 0;
        sent = (send_all ts command).written;
        printed = chunks cs;
        calls = calls';
      },
      rw (converse, sent, ended)
          (ap some (finish-some (send_all ts command).written (chunks cs) calls' some_response)),
      refl,
      all_written ts command sent,
      arrives,
    )

-- A client that connects and writes its command in whole, and a session that receives exactly that and
-- has a handler for it: if what the session writes reaches the client in chunks, however often it is
-- interrupted, the client prints what the server's dispatch answers to the command as it was typed, and
-- a line end, and exits with 0; and the server is left as dispatch leaves it.
pub main-dispatch :
    {S : Type 0} (args : List Bytes) (net : Network) (path command : Bytes) (fd : ℕ)
    (ts : List Sending) (hs : Handlers S) (w w' : S) (h : S → Handled × S)
    (cs : List (Option Bytes)) (after : List Receiving)
    → asked args ≡ request path command
    → (connect_socket net path).0 ≡ some fd
    → (send_all ts (upper command)).result ≡ some true
    → IsTrimmed (upper command)
    → length (upper command) ≤ 256
    → hs (upper command) ≡ some h
    → handle_session (got (upper command)) hs w ≡ (some (chunks cs), w')
    → (x : Exit) × (main args net ts (rounds_of cs (read_ended ∷ after)) ≡ some x)
      × (x.code ≡ 0)
      × (x.sent ≡ upper command)
      × (x.printed ≡ (dispatch command hs w).0 ++ 10 ∷ [])
      × (w' ≡ (dispatch command hs w).1)
unfolding main
main-dispatch args net path command fd ts hs w w' h cs after given connects sent trim short known
      session =
    let served = handle_session-dispatch [] (upper command) [] hs w tt trim tt short in
    let same =
      sym session
      ∙ ap (λ t. handle_session (got t) hs w) (sym (append-nil (upper command)))
      ∙ served
      ∙ ap (λ r. (some (r.0 ++ 10 ∷ []), r.1)) (dispatch-upper command hs w h known) in
    let printed : chunks cs ≡ (dispatch command hs w).0 ++ 10 ∷ [] = cc in
    let left : w' ≡ (dispatch command hs w).1 = ap (λ r. r.1) same in
    let (x, exits, code, all_sent, shown) =
      converse-answers fd (connect_socket net path).1 (upper command) ts cs after
        (dispatch command hs w).0 sent printed in
    (x, rw (main, given, connects) exits, code, all_sent, shown, left)
