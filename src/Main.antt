-- ===== src/Main.antt =====
-- The program (src/main.cpp): the commands, the callback of the watcher and the main loop. Sessions and
-- changes of the configuration are handled one at a time.
pub mod Commands
pub mod Stops
pub mod Reload
use cpp20_workflow_engine.Shared.{
  ℕ, Bool, true, false, ◌||◌, Option, none, some, List, [], ◌∷◌, ◌++◌, if◌then◌else◌, Bytes, bytes,
  utf8,
}
use cpp20_workflow_engine.Shared.Int.{ℤ, pos, to_string}
use cpp20_workflow_engine.Node.{EngineMetrics}
use cpp20_workflow_engine.Plugins.{
  Opened, Manager, Reloaded, installed, dlopen_failed, symbols_missing, null_node, reload,
}
use cpp20_workflow_engine.Engine.{Engine}
use cpp20_workflow_engine.Engine.Load.{load_config, on_config_changed}
use cpp20_workflow_engine.Watcher.{Event, handle_events}
use cpp20_workflow_engine.Control.{
  Handled, replied, Handlers, register_command, Read, handle_session,
}

-- The objects of `main`, and outside them what the next `dlopen` gives and the configuration file.
-- `stop` is `engine_stop_requested`, and `signalled` is `g_shutdown_requested`.
pub record World (Ctx : Type 0) : Type 0 where
  pub example_pm : Manager
  pub engine : Engine Ctx
  pub stop : Bool
  pub signalled : Bool
  pub lib : Option Opened
  pub file : Option Bytes

-- How the start of the program ends: an exception leaves `main`, `main` returns, or it runs on.
pub data Startup (Ctx : Type 0) : Type 0 where
  terminated : Startup Ctx
  returned : ℕ → Startup Ctx
  running : World Ctx → Startup Ctx

-- What happens between two checks of the main loop.
pub data Turn : Type 0 where
  asleep : Turn
  signal : Turn
  outside : Option Opened → Option Bytes → Turn
  changed : List Event → Turn
  session : Read → Turn

unfoldable pub status_text : EngineMetrics → Bytes
unfolding to_string
status_text m =
    bytes "STATUS: workflow-engine running\n"
    ++ (bytes "  success_count    : " ++ (to_string (pos m.success_count) ++ (10 ∷ [])))
    ++ (bytes "  failed_count     : " ++ (to_string (pos m.failed_count) ++ (10 ∷ [])))
    ++ (bytes "  cancelled_count  : " ++ (to_string (pos m.cancelled_count) ++ (10 ∷ [])))
    ++ (bytes "  hot_reload_count : " ++ (to_string (pos m.hot_reload_count) ++ (10 ∷ [])))

-- What the main loop checks.
abbrev pub is_stopping : {Ctx : Type 0} → World Ctx → Bool
is_stopping w = w.signalled || w.stop

-- `what` gives the messages of the exceptions; the other parameters are those of `load_config`.
module _ {Ctx N : Type 0} (config_path filename : Bytes) (what : Reloaded → Bytes)
    (stod : Bytes → Option N) (to_int : N → ℤ) (order : List Bytes → List Bytes) where
  unfoldable reload_plugin : World Ctx → Reloaded × World Ctx
  unfolding reload
  reload_plugin w = let (r, m) = reload w.lib w.example_pm in (r, record w { example_pm = m })

  unfoldable change_config : World Ctx → World Ctx
  unfolding on_config_changed
  change_config w = record w { engine = on_config_changed stod to_int order w.file w.engine }

  -- The handlers of RELOAD, STOP and STATUS
  unfoldable pub reload_command : World Ctx → Handled × World Ctx
  unfolding reload_plugin change_config
  reload_command w =
      let (r, w') = reload_plugin w in
      elim r [
        | installed ↦
            (replied (bytes "OK: reloaded plugin and DAG from " ++ config_path), change_config w')
        | problem ↦ (replied (bytes "ERROR: reload failed: " ++ what problem), w')
      ]

  unfoldable pub stop_command : World Ctx → Handled × World Ctx
  stop_command w =
      (replied (utf8 "OK: stop signal sent — engine will exit shortly"), record w { stop = true })

  unfoldable pub status_command : World Ctx → Handled × World Ctx
  unfolding status_text
  status_command w = (replied (status_text w.engine.metrics), w)

  -- The callback of the watcher, which goes on when the plugin cannot be loaded.
  unfoldable pub on_change : World Ctx → World Ctx
  unfolding reload_plugin change_config
  on_change w = let (r, w') = reload_plugin w in change_config w'

  unfoldable pub handlers : Handlers (World Ctx)
  unfolding register_command reload_command stop_command status_command
  handlers = register_command (bytes "STATUS") status_command (
      register_command (bytes "STOP") stop_command
        (register_command (bytes "RELOAD") reload_command (λ _. none)))

  -- `main` up to its loop. The first load of the plugin is outside every `try`.
  unfoldable pub start : World Ctx → Startup Ctx
  unfolding reload_plugin load_config
  start w =
      let (r, w') = reload_plugin w in
      let (e, err) = load_config stod to_int order w'.file w'.engine in
      elim r [
        | installed ↦ elim err [ none ↦ running (record w' { engine = e }) | some x ↦ returned 1 ]
        | _ ↦ terminated
      ]

  unfoldable pub take_turn : Turn → World Ctx → World Ctx
  unfolding handle_events on_change handle_session handlers
  take_turn asleep w = w
  take_turn signal w = record w { signalled = true }
  take_turn (outside lib file) w = record w { lib = lib; file = file }
  take_turn (changed evs) w = handle_events filename on_change evs w
  take_turn (session r) w = (handle_session r handlers w).1

  -- The loop; `none` means that it is still waiting after the last turn.
  unfoldable pub main_loop : List Turn → World Ctx → Option (World Ctx)
  unfolding take_turn
  main_loop [] w = if is_stopping w then some w else none
  main_loop (t ∷ ts) w =
      let rest = main_loop ts (take_turn t w) in if is_stopping w then some w else rest
