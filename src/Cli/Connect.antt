-- ===== src/Cli/Connect.antt =====
-- connect_socket of workflow-cli (tools/workflow-cli.cpp). What the system answers is a `Network`, and
-- the calls that open and close descriptors are written down.
use cpp20_workflow_engine.Shared.{
  ℕ, Bool, not, ◌||◌, Option, none, some, List, [], ◌∷◌, length, leb, if◌then◌else◌, Bytes,
}

pub data Call : Type 0 where
  opened : ℕ → Call
  shut_write : ℕ → Call
  closed : ℕ → Call

-- What `connect` answers: 0, EINPROGRESS, or another error.
pub data Connecting : Type 0 where
  connected in_progress refused : Connecting

-- `poll_ready` tells whether `poll` is positive, and `sock_err` whether SO_ERROR is not zero after it.
pub record Network : Type 0 where
  pub socket : Option ℕ
  pub connect : Bytes → Connecting
  pub poll_ready : Bool
  pub sock_err : Bool

-- `sizeof(sockaddr_un::sun_path)`
abbrev sun_path_size : ℕ
sun_path_size = 108

-- The descriptor, `none` for -1, and the calls so far.
unfoldable pub connect_socket : Network → Bytes → Option ℕ × List Call
connect_socket net socket_path = elim net.socket [
  | none ↦ (none, [])
  | some fd ↦
      let given_up : Option ℕ × List Call = (none, opened fd ∷ closed fd ∷ []) in
      let established : Option ℕ × List Call = (some fd, opened fd ∷ []) in
      if leb sun_path_size (length socket_path) then given_up else elim (net.connect socket_path) [
        | connected ↦ established
        | refused ↦ given_up
        | in_progress ↦ if not net.poll_ready || net.sock_err then given_up else established
      ]
]
