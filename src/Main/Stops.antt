-- ===== src/Main/Stops.antt =====
-- When the program stops (src/main.cpp).
use cpp20_workflow_engine.Shared.{
  ◌≡◌, refl, ap, sym, ◌∙◌, inl, inr, Bool, true, false, not, ◌||◌, Bool-cases, Option, none, some,
  List, [], ◌∷◌, length, arith, ltb, ◌==◌, if◌then◌else◌, Bytes, bytes, str_eq, str_eq_iff,
}
use cpp20_workflow_engine.Shared.Int.{ℤ}
use cpp20_workflow_engine.Plugins.{Reloaded, reload}
use cpp20_workflow_engine.Watcher.{Event, matches, handle_events}
use cpp20_workflow_engine.Control.{
  upper, dispatch, trim_front, trim_back, not_blocking, timed_out, failed, got, reply,
  handle_session,
}
use cpp20_workflow_engine.Main.Commands.{Reloaded-cases, length-upper, dispatch-handlers}
use cpp20_workflow_engine.Main.{
  World, Turn, asleep, signal, outside, changed, session, reload_command, stop_command,
  status_command, on_change, handlers, take_turn, is_stopping, main_loop,
}

-- A signal, or a session whose command is STOP in any spelling, with white space around it.
unfoldable pub is_stop : Turn → Bool
unfolding str_eq upper trim_back trim_front
is_stop signal = true
is_stop (session (got s)) = str_eq (upper (trim_back (trim_front s))) (bytes "STOP")
is_stop _ = false

abbrev pub any_stop : List Turn → Bool
any_stop [] = false
any_stop (t ∷ ts) = is_stop t || any_stop ts

abbrev pub is_none : {A : Type 0} → Option A → Bool
is_none none = true
is_none (some a) = false

-- A command that is spelt STOP has four bytes.
stop_length : (cmd : Bytes) → str_eq (upper cmd) (bytes "STOP") ≡ true → length cmd ≡ 4
stop_length cmd h = sym (length-upper cmd) ∙ ap length ((str_eq_iff (upper cmd) (bytes "STOP")).0 h)

or-false : (b : Bool) → b ≡ (b || false)
or-false true = refl
or-false false = refl

or-true : (b : Bool) → true ≡ (b || true)
or-true true = refl
or-true false = refl

-- A text that is another command is not STOP.
not_stop :
    (s k : Bytes)
    → str_eq s k ≡ true
    → str_eq k (bytes "STOP") ≡ false
    → str_eq s (bytes "STOP") ≡ false
not_stop s k e h = let q = (str_eq_iff s k).0 e in rw q h

-- The one of four handlers that answers a command, by what it leaves for the loop to check.
chosen :
    {Ctx : Type 0} (s : Bytes) (f : Bool) (status stop reload unknown : Bytes × World Ctx)
    → is_stopping status.1 ≡ f
    → is_stopping stop.1 ≡ true
    → is_stopping reload.1 ≡ f
    → is_stopping unknown.1 ≡ f
    → is_stopping
        (if str_eq s (bytes "STATUS")
          then status
          else if str_eq s (bytes "STOP")
          then stop
          else if str_eq s (bytes "RELOAD")
          then reload
          else unknown).1
      ≡ (f || str_eq s (bytes "STOP"))
unfolding str_eq
chosen s f status stop reload unknown a b c d = elim (Bool-cases (str_eq s (bytes "STATUS"))) [
  | inl e ↦ rw (e, not_stop s (bytes "STATUS") e refl) (a ∙ or-false f)
  | inr e ↦ elim (Bool-cases (str_eq s (bytes "STOP"))) [
    | inl e' ↦ rw (e, e') (b ∙ or-true f)
    | inr e' ↦ elim (Bool-cases (str_eq s (bytes "RELOAD"))) [
      | inl g ↦ rw (e, e', g) (c ∙ or-false f)
      | inr g ↦ rw (e, e', g) (d ∙ or-false f)
    ]
  ]
]

module _ {Ctx N : Type 0} (config_path filename : Bytes) (what : Reloaded → Bytes)
    (stod : Bytes → Option N) (to_int : N → ℤ) (order : List Bytes → List Bytes) where
  reload-stopping :
      (w : World Ctx)
      → is_stopping (reload_command config_path filename what stod to_int order w).1 ≡ is_stopping w
  unfolding reload_command
  reload-stopping w = elim (Reloaded-cases (reload w.lib w.example_pm).0) [
    | inl e ↦ rw (reload_command, e) refl
    | inr (inl e) ↦ rw (reload_command, e) refl
    | inr (inr (inl e)) ↦ rw (reload_command, e) refl
    | inr (inr (inr e)) ↦ rw (reload_command, e) refl
  ]

  on_change-stopping :
      (w : World Ctx)
      → is_stopping (on_change config_path filename what stod to_int order w) ≡ is_stopping w
  unfolding on_change
  on_change-stopping w = refl

  events-stopping :
      (evs : List Event) (w : World Ctx)
      → is_stopping
          (handle_events filename (on_change config_path filename what stod to_int order) evs w)
        ≡ is_stopping w
  unfolding handle_events on_change
  events-stopping [] w = refl
  events-stopping (ev ∷ evs) w = elim (Bool-cases (matches filename ev)) [
    | inl e ↦
        rw (handle_events, e)
          (events-stopping evs (on_change config_path filename what stod to_int order w))
    | inr e ↦ rw (handle_events, e) (events-stopping evs w)
  ]

  status-stopping :
      (w : World Ctx)
      → is_stopping (status_command config_path filename what stod to_int order w).1 ≡ is_stopping w
  unfolding status_command
  status-stopping w = refl

  stop-stopping :
      (w : World Ctx)
      → is_stopping (stop_command config_path filename what stod to_int order w).1 ≡ true
  unfolding stop_command
  stop-stopping w = sym (or-true w.signalled)

  none-stopping :
      (cmd : Bytes) (w : World Ctx) → is_stopping (dispatch cmd (λ _. none) w).1 ≡ is_stopping w
  unfolding dispatch
  none-stopping cmd w = refl

  dispatch-stopping :
      (cmd : Bytes) (w : World Ctx)
      → is_stopping (dispatch cmd (handlers config_path filename what stod to_int order) w).1
        ≡ (is_stopping w || str_eq (upper cmd) (bytes "STOP"))
  dispatch-stopping cmd w =
      rw (dispatch-handlers config_path filename what stod to_int order cmd w) (
        chosen (upper cmd) (is_stopping w) _ _ _ _ (status-stopping w) (stop-stopping w)
          (reload-stopping w) (none-stopping cmd w))

  reply-stopping :
      (cmd : Bytes) (w : World Ctx)
      → is_stopping (reply cmd (handlers config_path filename what stod to_int order) w).1
        ≡ (is_stopping w || str_eq (upper cmd) (bytes "STOP"))
  unfolding reply
  reply-stopping cmd w = elim (Bool-cases (str_eq (upper cmd) (bytes "STOP"))) [
    | inl e ↦
        let n = stop_length cmd e in
        let some_bytes : (length cmd == 0) ≡ false = ground (arith, n) in
        let few : ltb 256 (length cmd) ≡ false = ground (arith, n) in
        rw (reply, some_bytes, few) (dispatch-stopping cmd w)
    | inr e ↦ elim (Bool-cases (length cmd == 0)) [
      | inl f ↦ rw (reply, f, e) (or-false (is_stopping w))
      | inr f ↦ elim (Bool-cases (ltb 256 (length cmd))) [
        | inl g ↦ rw (reply, f, g, e) (or-false (is_stopping w))
        | inr g ↦ rw (reply, f, g) (dispatch-stopping cmd w)
      ]
    ]
  ]

  take_turn-stopping :
      (t : Turn) (w : World Ctx)
      → is_stopping (take_turn config_path filename what stod to_int order t w)
        ≡ (is_stopping w || is_stop t)
  unfolding take_turn handle_session is_stop
  take_turn-stopping asleep w = or-false (is_stopping w)
  take_turn-stopping signal w = or-true (is_stopping w)
  take_turn-stopping (outside lib file) w = or-false (is_stopping w)
  take_turn-stopping (changed evs) w = events-stopping evs w ∙ or-false (is_stopping w)
  take_turn-stopping (session not_blocking) w = or-false (is_stopping w)
  take_turn-stopping (session timed_out) w = or-false (is_stopping w)
  take_turn-stopping (session failed) w = or-false (is_stopping w)
  take_turn-stopping (session (got [])) w = or-false (is_stopping w)
  take_turn-stopping (session (got (c ∷ s))) w = reply-stopping (trim_back (trim_front (c ∷ s))) w

  -- After any turns the main loop is still waiting exactly if the program was not to stop before and none
  -- of the turns was a signal or a session with the command STOP, in any spelling and with any white
  -- space around it: no other command, change of the configuration or failed load of the plugin ends it.
  pub main_loop-any_stop :
      (ts : List Turn) (w : World Ctx)
      → is_none (main_loop config_path filename what stod to_int order ts w)
        ≡ not (is_stopping w || any_stop ts)
  unfolding main_loop
  main_loop-any_stop [] w = elim (Bool-cases (is_stopping w)) [
    | inl e ↦ rw e refl
    | inr e ↦ rw e refl
  ]
  main_loop-any_stop (t ∷ ts) w = elim (Bool-cases (is_stopping w)) [
    | inl e ↦ rw (main_loop, e) refl
    | inr e ↦
        let next = take_turn config_path filename what stod to_int order t w in
        rw (main_loop, e)
          (main_loop-any_stop ts next
            ∙ ap (λ b. not (b || any_stop ts)) (take_turn-stopping t w)
            ∙ ap (λ b. not ((b || is_stop t) || any_stop ts)) e)
  ]
