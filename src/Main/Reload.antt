-- ===== src/Main/Reload.antt =====
-- The command RELOAD, from the socket to the plugin and the engine (src/main.cpp).
use cpp20_workflow_engine.Shared.{
  ◌≡◌, refl, ap, sym, ◌∙◌, inl, inr, some, Option, List, [], ◌∷◌, ◌++◌, length, arith, Bytes, bytes,
  str_eq,
}
use cpp20_workflow_engine.Shared.Int.{ℤ}
use cpp20_workflow_engine.Plugins.{Reloaded, installed, reload}
use cpp20_workflow_engine.Engine.Load.{on_config_changed}
use cpp20_workflow_engine.Control.{upper, answer, dispatch, got, handle_session}
use cpp20_workflow_engine.Control.Laws.{AllSpace, IsTrimmed, handle_session-dispatch}
use cpp20_workflow_engine.Main.{World, reload_plugin, change_config, reload_command, handlers}
use cpp20_workflow_engine.Main.Commands.{Reloaded-cases, length-upper, dispatch-handlers}

module _ {Ctx N : Type 0} (config_path filename : Bytes) (what : Reloaded → Bytes)
    (stod : Bytes → Option N) (to_int : N → ℤ) (order : List Bytes → List Bytes) where
  -- The answer to RELOAD and the program after it, by how the load of the plugin ended.
  abbrev pub reloaded : Reloaded → World Ctx → Option Bytes × World Ctx
  unfolding reload on_config_changed
  reloaded installed w = (
    some ((bytes "OK: reloaded plugin and DAG from " ++ config_path) ++ 10 ∷ []),
    record w {
      example_pm = (reload w.lib w.example_pm).1;
      engine = on_config_changed stod to_int order w.file w.engine;
    },
  )
  reloaded problem w = (
    some ((bytes "ERROR: reload failed: " ++ what problem) ++ 10 ∷ []),
    record w { example_pm = (reload w.lib w.example_pm).1 },
  )

  dispatch-reload :
      (cmd : Bytes) (w : World Ctx)
      → upper cmd ≡ bytes "RELOAD"
      → dispatch cmd (handlers config_path filename what stod to_int order) w ≡ (
        answer (reload_command config_path filename what stod to_int order w).0,
        (reload_command config_path filename what stod to_int order w).1,
      )
  unfolding str_eq
  dispatch-reload cmd w h =
      rw (dispatch-handlers config_path filename what stod to_int order cmd w, h) refl

  answer-reloaded :
      (w : World Ctx)
      → (
        some (answer (reload_command config_path filename what stod to_int order w).0 ++ 10 ∷ []),
        (reload_command config_path filename what stod to_int order w).1,
      )
        ≡ reloaded (reload w.lib w.example_pm).0 w
  unfolding reload_command reload_plugin change_config answer reloaded
  answer-reloaded w = elim (Reloaded-cases (reload w.lib w.example_pm).0) [
    | inl e ↦ rw (reload_command, reload_plugin, e) refl
    | inr (inl e) ↦ rw (reload_command, reload_plugin, e) refl
    | inr (inr (inl e)) ↦ rw (reload_command, reload_plugin, e) refl
    | inr (inr (inr e)) ↦ rw (reload_command, reload_plugin, e) refl
  ]

  -- A session with the command RELOAD, in any spelling and with any white space around it, loads the
  -- plugin, and only if that succeeds the configuration; it then answers OK, even if the engine refuses
  -- the configuration, and otherwise the error of the plugin, with the engine as it was.
  pub handle_session-reloaded :
      (p cmd q : Bytes) (w : World Ctx)
      → AllSpace p
      → IsTrimmed cmd
      → AllSpace q
      → upper cmd ≡ bytes "RELOAD"
      → handle_session
          (got (p ++ (cmd ++ q)))
          (handlers config_path filename what stod to_int order)
          w
        ≡ reloaded (reload w.lib w.example_pm).0 w
  handle_session-reloaded p cmd q w hp h hq e =
      let n : length cmd ≡ 6 = sym (length-upper cmd) ∙ ap length e in
      handle_session-dispatch p cmd q (handlers config_path filename what stod to_int order) w hp h
        hq (omega (arith, n))
      ∙ ap (λ r. (some (r.0 ++ 10 ∷ []), r.1)) (dispatch-reload cmd w e)
      ∙ answer-reloaded w
