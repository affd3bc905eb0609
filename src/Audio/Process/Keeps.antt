-- ===== src/Audio/Process/Keeps.antt =====
-- What runCommand keeps of the world, if its calls of the machine keep it
-- (plugins/llm_audio_editor_plugin.cpp).
use cpp20_workflow_engine.Shared.{
  ℕ, zero, suc, ◌≡◌, ◌⊎◌, inl, inr, refl, Bool, true, false, Option, none, some, List, [], ◌∷◌,
  ◌++◌, length, arith, ◌==◌, if◌then◌else◌, Bytes,
}
use cpp20_workflow_engine.Shared.Int.{ℤ}
use cpp20_workflow_engine.Analyzer.Totals.{Gives, Gives-bind, choose}
use cpp20_workflow_engine.Audio.Process.{
  Doubles, Machine, Stream, out, err, read_all, await, run_command, get_audio_duration,
}

pub Answer-cases :
    (a : Bytes ⊎ ℕ) → ((message : Bytes) × (a ≡ inl message)) ⊎ ((child : ℕ) × (a ≡ inr child))
Answer-cases (inl message) = inl (message, refl)
Answer-cases (inr child) = inr (child, refl)

pub choose_on :
    {A : Type 0} (P : A → Type 0) (b : Bool) {x y : A}
    → (b ≡ true → P x)
    → (b ≡ false → P y)
    → P (if b then x else y)
choose_on P true p q = p refl
choose_on P false p q = q refl

module _ {W : Type 0} (m : Machine W) (P : W → Type 0) where
  -- The calls that follow the start of a process.
  pub record Watches : Type 0 where
    pub on_read : (w : W) (child : ℕ) (fd : Stream) → P w → P (m.read w child fd).1
    pub on_waitpid : (w : W) (child : ℕ) → P w → P (m.waitpid w child).1
    pub on_sleep : (w : W) → P w → P (m.sleep w)
    pub on_kill : (w : W) (child : ℕ) → P w → P (m.kill w child)

  abbrev pub Starts : List Bytes → Type 0
  Starts args = (w : W) → P w → P (m.spawn w args).1

  abbrev pub Holds : {A : Type 0} → A × W → Type 0
  Holds (a, w) = P w

  module _ (watches : Watches) where
    read_all-Keeps :
        (fuel child : ℕ) (fd : Stream) (w : W) → P w → Gives Holds (read_all m fuel child fd w)
    unfolding read_all
    read_all-Keeps zero child fd w h = tt
    read_all-Keeps (suc fuel) child fd w h =
        let after = watches.on_read w child fd h in
        choose (Gives Holds) (length (m.read w child fd).0 == 0) _ _ after (
          gather (m.read w child fd).0 _ (read_all-Keeps fuel child fd (m.read w child fd).1 after))
      where
        gather :
            (chunk : Bytes) (rest : Option (Bytes × W))
            → Gives Holds rest
            → Gives Holds
                (elim rest [ none ↦ none | some (result, w'') ↦ some (chunk ++ result, w'') ])
        gather chunk none h = tt
        gather chunk (some (result, w'')) h = h

    abbrev Holds3 : ℤ × Bytes × W → Type 0
    Holds3 (code, note, w) = P w

    await-Keeps :
        (fuel child timeout_s start : ℕ) (w : W)
        → P w
        → Gives Holds3 (await m fuel child timeout_s start w)
    unfolding await
    await-Keeps zero child timeout_s start w h = tt
    await-Keeps (suc fuel) child timeout_s start w h =
        let after = watches.on_waitpid w child h in
        let killed = watches.on_waitpid _ child (watches.on_kill _ child after) in
        let later = await-Keeps fuel child timeout_s start _ (watches.on_sleep _ after) in
        ground arith

    spawned-Keeps :
        (fuel : ℕ) (a : Bytes) (args : List Bytes) (timeout_s : ℕ) (w : W)
        → P (m.spawn w (a ∷ args)).1
        → Gives Holds (run_command m fuel (a ∷ args) timeout_s w)
    unfolding run_command
    spawned-Keeps fuel a args timeout_s w h = elim (Answer-cases (m.spawn w (a ∷ args)).0) [
      | inl (message, e) ↦ rw (run_command, e) h
      | inr (child, e) ↦
          rw (run_command, e)
            (Gives-bind Holds Holds _ _ (read_all-Keeps fuel child out _ h) (λ (output, w2) h2.
              Gives-bind Holds Holds _ _ (read_all-Keeps fuel child err w2 h2) (λ (errors, w3) h3.
                Gives-bind Holds3 Holds _ _ (await-Keeps fuel child timeout_s (m.now w3) w3 h3)
                  (λ (code, note, w4) h4. h4))))
    ]

    pub run_command-Keeps :
        (fuel : ℕ) (args : List Bytes) (timeout_s : ℕ) (w : W)
        → Starts args
        → P w
        → Gives Holds (run_command m fuel args timeout_s w)
    unfolding run_command
    run_command-Keeps fuel [] timeout_s w starts h = h
    run_command-Keeps fuel (a ∷ args) timeout_s w starts h =
        spawned-Keeps fuel a args timeout_s w (starts w h)

    pub get_audio_duration-Keeps :
        {D : Type 0} (d : Doubles D) (fuel : ℕ) (ffprobe file : Bytes) (w : W)
        → ((args : List Bytes) → Starts (ffprobe ∷ args))
        → P w
        → Gives Holds (get_audio_duration m d fuel ffprobe file w)
    unfolding get_audio_duration
    get_audio_duration-Keeps d fuel ffprobe file w starts h =
        Gives-bind Holds Holds _ _ (run_command-Keeps fuel _ 30 w (starts _) h) (λ (res, w') h'. h')
