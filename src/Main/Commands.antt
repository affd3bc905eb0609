-- ===== src/Main/Commands.antt =====
-- The commands that the program registers (src/main.cpp).
use cpp20_workflow_engine.Shared.{
  suc, ◌≡◌, ◌⊎◌, inl, inr, refl, ap, none, Option, List, [], ◌∷◌, length, if◌then◌else◌, Bytes,
  bytes, str_eq,
}
use cpp20_workflow_engine.Shared.Int.{ℤ}
use cpp20_workflow_engine.Plugins.{Reloaded, installed, dlopen_failed, symbols_missing, null_node}
use cpp20_workflow_engine.Control.{
  to_upper, upper, answer, Handled, Handlers, dispatch, register_command,
}
use cpp20_workflow_engine.Control.Laws.{dispatch-register_command}
use cpp20_workflow_engine.Main.{World, reload_command, stop_command, status_command, handlers}

pub length-upper : (s : Bytes) → length (upper s) ≡ length s
unfolding upper
length-upper [] = refl
length-upper (c ∷ s) = ap suc (length-upper s)

upper_status : upper (bytes "STATUS") ≡ bytes "STATUS"
unfolding upper to_upper
upper_status = refl

upper_stop : upper (bytes "STOP") ≡ bytes "STOP"
unfolding upper to_upper
upper_stop = refl

upper_reload : upper (bytes "RELOAD") ≡ bytes "RELOAD"
unfolding upper to_upper
upper_reload = refl

pub Reloaded-cases :
    (r : Reloaded) → (r ≡ installed) ⊎ (r ≡ dlopen_failed) ⊎ (r ≡ symbols_missing) ⊎ (r ≡ null_node)
Reloaded-cases installed = inl refl
Reloaded-cases dlopen_failed = inr (inl refl)
Reloaded-cases symbols_missing = inr (inr (inl refl))
Reloaded-cases null_node = inr (inr (inr refl))

module _ {Ctx N : Type 0} (config_path filename : Bytes) (what : Reloaded → Bytes)
    (stod : Bytes → Option N) (to_int : N → ℤ) (order : List Bytes → List Bytes) where
  -- Which handler answers a command.
  pub dispatch-handlers :
      (cmd : Bytes) (w : World Ctx)
      → dispatch cmd (handlers config_path filename what stod to_int order) w ≡ (
          let run : (World Ctx → Handled × World Ctx) → Bytes × World Ctx =
            λ h. (answer (h w).0, (h w).1) in
          if str_eq (upper cmd) (bytes "STATUS")
          then run (status_command config_path filename what stod to_int order)
          else if str_eq (upper cmd) (bytes "STOP")
          then run (stop_command config_path filename what stod to_int order)
          else if str_eq (upper cmd) (bytes "RELOAD")
          then run (reload_command config_path filename what stod to_int order)
          else dispatch cmd (λ _. none) w)
  unfolding handlers
  dispatch-handlers cmd w =
      let reload : World Ctx → Handled × World Ctx =
        reload_command config_path filename what stod to_int order in
      let stop : World Ctx → Handled × World Ctx =
        stop_command config_path filename what stod to_int order in
      let status : World Ctx → Handled × World Ctx =
        status_command config_path filename what stod to_int order in
      let first : Handlers (World Ctx) = register_command (bytes "RELOAD") reload (λ _. none) in
      let second : Handlers (World Ctx) = register_command (bytes "STOP") stop first in
      rw
        (
          handlers,
          dispatch-register_command (bytes "STATUS") cmd status second w,
          dispatch-register_command (bytes "STOP") cmd stop first w,
          dispatch-register_command (bytes "RELOAD") cmd reload (λ _. none) w,
          upper_status,
          upper_stop,
          upper_reload,
        )
        refl
