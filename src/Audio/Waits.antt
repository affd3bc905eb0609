-- ===== src/Audio/Waits.antt =====
-- The waiting of runCommand for a child ends (plugins/llm_audio_editor_plugin.cpp).
use cpp20_workflow_engine.Shared.{
  ℕ, zero, suc, ◌+◌, ◌-◌, ◌*◌, ◌/◌, ◌≤◌, ◌<◌, ◌≡◌, refl, ◌⊎◌, inl, inr, Bool-cases, Option, none,
  some, List, [], ◌∷◌, arith, leb, Bytes,
}
use cpp20_workflow_engine.Shared.Int.{ℤ}
use cpp20_workflow_engine.Analyzer.Settings.{◌>>=◌}
use cpp20_workflow_engine.Audio.Process.Keeps.{Answer-cases}
use cpp20_workflow_engine.Audio.Process.{
  Machine, Stream, out, err, Waited, running, exited, signaled, failed, read_all, await,
  run_command,
}

Waited-cases :
    (a : Waited)
    → ((status : ℤ) × (a ≡ exited status)) ⊎ (a ≡ signaled) ⊎ (a ≡ failed) ⊎ (a ≡ running)
Waited-cases running = inr (inr (inr refl))
Waited-cases (exited status) = inl (status, refl)
Waited-cases signaled = inr (inl refl)
Waited-cases failed = inr (inr (inl refl))

-- A call returns.
abbrev pub Returns : {A : Type 0} → Option A → Type 0
Returns none = ⊥
Returns (some a) = Unit {0}

module _ {W : Type 0} (m : Machine W) where
  -- The steady clock: a sleep takes the 100 milliseconds that were asked for, and nothing goes back.
  pub record Ticks : Type 0 where
    pub on_sleep : (w : W) → m.now w + 100000000 ≤ m.now (m.sleep w)
    pub on_waitpid : (w : W) (child : ℕ) → m.now w ≤ m.now (m.waitpid w child).1

  -- A round returns if the round after it does, in case there is one.
  round-Returns :
      (k child timeout_s start : ℕ) (w : W)
      → ((m.now (m.waitpid w child).1 - start) / 1000000000 < timeout_s
          → Returns (await m k child timeout_s start (m.sleep (m.waitpid w child).1)))
      → Returns (await m (suc k) child timeout_s start w)
  unfolding await
  round-Returns k child timeout_s start w again = elim (Waited-cases (m.waitpid w child).0) [
    | inl (status, e) ↦ rw (await, e) tt
    | inr (inl e) ↦ rw (await, e) tt
    | inr (inr (inl e)) ↦ rw (await, e) tt
    | inr (inr (inr e)) ↦
        elim (Bool-cases (leb timeout_s ((m.now (m.waitpid w child).1 - start) / 1000000000))) [
          | inl g ↦ rw (await, e, g) tt
          | inr g ↦ rw (await, e, g) (again (ground arith))
        ]
  ]

  await-Returns :
      (k child timeout_s start : ℕ) (w : W)
      → Ticks
      → start ≤ m.now w
      → timeout_s * 1000000000 + start ≤ m.now w + k * 100000000
      → Returns (await m (suc k) child timeout_s start w)
  await-Returns zero child timeout_s start w ticks begun bound =
      round-Returns zero child timeout_s start w
        (λ short. absurd (omega (arith, ticks.on_waitpid w child)))
  await-Returns (suc k) child timeout_s start w ticks begun bound =
      round-Returns (suc k) child timeout_s start w (λ short.
        let later = ticks.on_waitpid w child in
        let slept = ticks.on_sleep (m.waitpid w child).1 in
        await-Returns k child timeout_s start (m.sleep (m.waitpid w child).1) ticks
          (omega (arith, later, slept)) (omega (arith, later, slept)))

  -- After the output of a child has ended, at most 10 * timeout_s + 1 rounds wait for it.
  pub await-ends :
      (child timeout_s : ℕ) (w : W)
      → Ticks
      → Returns (await m (suc (10 * timeout_s)) child timeout_s (m.now w) w)
  await-ends child timeout_s w ticks =
      await-Returns (10 * timeout_s) child timeout_s (m.now w) w ticks (omega arith) (omega arith)

-- The output of every child ends: both streams are read with the fuel.
abbrev pub Reads : {W : Type 0} → Machine W → ℕ → Type 0
Reads {W} m fuel = (child : ℕ) (fd : Stream) (w : W) → Returns (read_all m fuel child fd w)

pub Returns-bind :
    {A B : Type 0} (r : Option A) (f : A → Option B)
    → Returns r
    → ((a : A) → Returns (f a))
    → Returns (r >>= f)
Returns-bind none f h k = h
Returns-bind (some a) f h k = k a

module _ {W : Type 0} (m : Machine W) (fuel : ℕ) (ticks : Ticks m) (reads : Reads m fuel) where
  await-Returns_fuel :
      (k child timeout_s : ℕ) (w : W)
      → k ≡ fuel
      → 10 * timeout_s < fuel
      → Returns (await m k child timeout_s (m.now w) w)
  await-Returns_fuel zero child timeout_s w e h = absurd (omega arith)
  await-Returns_fuel (suc k) child timeout_s w e h =
      await-Returns m k child timeout_s (m.now w) w ticks (omega arith) (omega arith)

  -- A command returns, with ten rounds of fuel for each second that it may take.
  pub run_command-Returns :
      (args : List Bytes) (timeout_s : ℕ) (w : W)
      → 10 * timeout_s < fuel
      → Returns (run_command m fuel args timeout_s w)
  unfolding run_command
  run_command-Returns [] timeout_s w h = tt
  run_command-Returns (a ∷ args) timeout_s w h = elim (Answer-cases (m.spawn w (a ∷ args)).0) [
    | inl (message, e) ↦ rw (run_command, e) tt
    | inr (child, e) ↦
        rw (run_command, e)
          (Returns-bind _ _ (reads child out _) (λ (output, w2).
            Returns-bind _ _ (reads child err w2) (λ (errors, w3).
              Returns-bind _ _ (await-Returns_fuel fuel child timeout_s w3 refl h)
                (λ (code, note, w4). tt))))
  ]
