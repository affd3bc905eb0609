-- ===== src/Examples/Sockets.antt =====
-- A control plane that answers one session and is stopped.
use cpp20_workflow_engine.Shared.{
  ℕ, ◌≡◌, refl, true, false, none, some, List, [], ◌∷◌, ◌++◌, Bytes, bytes, update,
}
use cpp20_workflow_engine.Control.{Handlers, got}
use cpp20_workflow_engine.Control.Life.{
  Host, Plane, Fails, Accept, session, stopped, construct, destroy, atexit_handler,
  start_control_plane, IsClean, start_control_plane-cleans,
}

abbrev path : Bytes
path = bytes "s"

abbrev host : Host
host = record { files = λ file. true; instance_ = none }

abbrev works : Fails
works = record { open_fails = false; bind_fails = false; listen_fails = false }

-- The plane and the host after the constructor.
abbrev plane : Plane
plane = record { object = 1; socket_path = path; is_open = true }

abbrev built : Host
unfolding construct
built = (construct 1 path works host).1

abbrev handlers : Handlers ℕ
handlers = λ cmd. none

abbrev events : List Accept
events = session (got (bytes " ")) ∷ stopped ∷ []

abbrev left : Host
left = record { files = update built.files path false; instance_ = none }

constructs : construct 1 path works host ≡ (some plane, built)
unfolding construct
constructs = refl

runs :
    start_control_plane plane events handlers 0 built
    ≡ some (
      some (bytes "ERROR: empty command" ++ 10 ∷ []) ∷ [],
      0,
      record plane { is_open = false },
      left,
    )
unfolding start_control_plane construct
runs = refl

start_control_plane-cleans_example :
    IsClean path host (destroy (record plane { is_open = false }) left)
    × ((destroy (record plane { is_open = false }) left).instance_ ≡ none)
    × (false ≡ false)
    × IsClean path host (atexit_handler built)
start_control_plane-cleans_example =
    start_control_plane-cleans 1 path works host built left plane (record plane { is_open = false })
      events handlers 0 0 (some (bytes "ERROR: empty command" ++ 10 ∷ []) ∷ []) constructs runs
