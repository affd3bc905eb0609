-- ===== src/Control.antt =====
-- ControlPlane (core/ControlPlane.h, core/ControlPlane.cpp): the commands and one session. The
-- socket is a parameter: what it delivers is an argument of the session.
pub mod Laws
pub mod Life
use cpp20_workflow_engine.Shared.{
  ℕ, zero, suc, ◌+◌, ◌-◌, Bool, true, false, not, ◌&&◌, ◌||◌, Option, none, some, List, [], ◌∷◌,
  ◌++◌, map, length, ◌==◌, ltb, leb, if◌then◌else◌, Bytes, bytes, str_eq, update,
}

-- `std::toupper` and `std::isspace` on a byte, in the "C" locale.
unfoldable pub to_upper : ℕ → ℕ
to_upper c = if leb b'a' c && leb c b'z' then c - 32 else c

unfoldable pub is_space : ℕ → Bool
is_space c = c == 32 || leb 9 c && leb c 13

-- The `std::transform` that makes a key.
unfoldable pub upper : Bytes → Bytes
unfolding to_upper
upper s = map to_upper s

-- How a handler ends.
pub data Handled : Type 0 where
  replied : Bytes → Handled
  threw : Bytes → Handled
  threw_unknown : Handled

-- `handlers_`, the handlers as functions of the state that they see and change.
abbrev pub Handlers : Type 0 → Type 0
Handlers S = Bytes → Option (S → Handled × S)

-- The text that `dispatch` answers for a handler.
unfoldable pub answer : Handled → Bytes
answer (replied s) = s
answer (threw what) = bytes "ERROR: handler threw: " ++ what
answer threw_unknown = bytes "ERROR: handler threw unknown exception"

unfoldable pub unknown_command : Bytes → Bytes
unknown_command cmd =
    bytes "ERROR: unknown command '" ++ cmd ++ bytes "'. Known commands: RELOAD, STOP, STATUS"

-- `cmd.erase(cmd.begin(), find_if(…, not_space))`
unfoldable pub trim_front : Bytes → Bytes
unfolding is_space
trim_front [] = []
trim_front (c ∷ s) = if is_space c then trim_front s else c ∷ s

-- `cmd.erase(find_if(cmd.rbegin(), …).base(), cmd.end())`
unfoldable pub trim_back : Bytes → Bytes
unfolding is_space
trim_back [] = []
trim_back (c ∷ s) = elim (trim_back s) [
  | [] ↦ if is_space c then [] else c ∷ []
  | d ∷ r ↦ c ∷ d ∷ r
]

-- What the one read of a session delivers: an error, or the bytes.
pub data Read : Type 0 where
  not_blocking timed_out failed : Read
  got : Bytes → Read

module _ {S : Type 0} where
  unfoldable pub register_command : Bytes → (S → Handled × S) → Handlers S → Handlers S
  unfolding upper
  register_command cmd h hs = update hs (upper cmd) (some h)

  unfoldable pub dispatch : Bytes → Handlers S → S → Bytes × S
  unfolding upper answer unknown_command
  dispatch cmd hs w = elim (hs (upper cmd)) [
    | none ↦ (unknown_command cmd, w)
    | some h ↦ let (r, w') = h w in (answer r, w')
  ]

  -- A session after its command was read and trimmed.
  unfoldable pub reply : Bytes → Handlers S → S → Option Bytes × S
  unfolding dispatch
  reply cmd hs w =
      let (response, w') = dispatch cmd hs w in
      if length cmd == 0
      then (some (bytes "ERROR: empty command" ++ 10 ∷ []), w)
      else if ltb 256 (length cmd)
      then (some (bytes "ERROR: command too long" ++ 10 ∷ []), w)
      else (some (response ++ 10 ∷ []), w')

  -- `handle_session`: what it writes to the socket, if anything.
  unfoldable pub handle_session : Read → Handlers S → S → Option Bytes × S
  unfolding reply trim_front trim_back
  handle_session not_blocking hs w = (none, w)
  handle_session timed_out hs w = (some (bytes "ERROR: timeout waiting for command" ++ 10 ∷ []), w)
  handle_session failed hs w = (some (bytes "ERROR: failed to receive command" ++ 10 ∷ []), w)
  handle_session (got []) hs w = (none, w)
  handle_session (got (c ∷ s)) hs w = reply (trim_back (trim_front (c ∷ s))) hs w
