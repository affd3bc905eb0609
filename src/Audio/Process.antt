-- ===== src/Audio/Process.antt =====
-- Processes and the duration of a file, as the audio editor asks for them
-- (plugins/llm_audio_editor_plugin.cpp). What lies outside the program is a `Machine`; `none` for an
-- outcome means that the fuel ran out.
pub mod Keeps
use cpp20_workflow_engine.Shared.{
  ℕ, zero, suc, ◌+◌, ◌-◌, ◌/◌, ◌⊎◌, inl, inr, Bool, Option, none, some, List, [], ◌∷◌, ◌++◌, length,
  drop, ◌==◌, leb, if◌then◌else◌, Bytes, bytes,
}
use cpp20_workflow_engine.Shared.Int.{ℤ, pos, negsuc, is_pos, to_string}
use cpp20_workflow_engine.Analyzer.Settings.{◌>>=◌}
use cpp20_workflow_engine.Audio.Json.{is_at, find_from, skip_ws_at}

-- `double`, with what the standard library does on it.
pub record Doubles (D : Type 0) : Type 0 where
  pub null : D
  pub one : D
  pub half : D
  pub two : D
  pub lt : D → D → Bool
  pub le : D → D → Bool
  pub add : D → D → D
  pub sub : D → D → D
  pub mul : D → D → D
  pub div : D → D → D
  pub stod : Bytes → Option D
  pub to_text : D → Bytes

pub data Stream : Type 0 where
  out : Stream
  err : Stream

-- What `waitpid` answers: a child that goes on, its status, or a failure.
pub data Waited : Type 0 where
  running : Waited
  exited : ℤ → Waited
  signaled : Waited
  failed : Waited

-- `spawn` forks and executes, and gives the message of a failure or the child; `read` is one answer of
-- a pipe of the child, empty at its end or after a failure; `now` counts nanoseconds. `write` opens a
-- file, emptied, and says whether it could; `size` is that of an existing file, if it can be told.
pub record Machine (W : Type 0) : Type 0 where
  pub spawn : W → List Bytes → (Bytes ⊎ ℕ) × W
  pub read : W → ℕ → Stream → Bytes × W
  pub waitpid : W → ℕ → Waited × W
  pub now : W → ℕ
  pub sleep : W → W
  pub kill : W → ℕ → W
  pub exists : W → Bytes → Bool
  pub size : W → Bytes → Option ℕ
  pub write : W → Bytes → Bytes → Bool × W
  pub unlink : W → Bytes → W
  pub temp_file : Bytes → Bytes
  pub pid : ℕ
  pub is_absolute : Bytes → Bool
  pub within : Bytes → Bytes → Bytes

pub record CommandResult : Type 0 where
  pub exit_code : ℤ
  pub stdout_output : Bytes
  pub stderr_output : Bytes

abbrev pub probe_args : Bytes → Bytes → List Bytes
probe_args ffprobe file =
    ffprobe
    ∷ bytes "-v"
    ∷ bytes "quiet"
    ∷ bytes "-print_format"
    ∷ bytes "json"
    ∷ bytes "-show_streams"
    ∷ file
    ∷ []

module _ {W : Type 0} (m : Machine W) where
  -- `readAll`
  unfoldable pub read_all : ℕ → ℕ → Stream → W → Option (Bytes × W)
  read_all zero child fd w = none
  read_all (suc fuel) child fd w =
      let (chunk, w') = m.read w child fd in
      let rest = read_all fuel child fd w' in
      if length chunk == 0
      then some ([], w')
      else (elim rest [ none ↦ none | some (result, w'') ↦ some (chunk ++ result, w'') ])

  -- The loop around `waitpid`: the exit code, what it adds to the errors, and the world.
  unfoldable pub await : ℕ → ℕ → ℕ → ℕ → W → Option (ℤ × Bytes × W)
  unfolding to_string
  await zero child timeout_s start w = none
  await (suc fuel) child timeout_s start w =
      let (answer, w') = m.waitpid w child in
      let elapsed : ℕ = (m.now w' - start) / 1000000000 in
      let rest = await fuel child timeout_s start (m.sleep w') in
      elim answer [
        | exited status ↦ some (status, [], w')
        | signaled ↦ some (negsuc 0, [], w')
        | failed ↦ some (negsuc 0, [], w')
        | running ↦
            if leb timeout_s elapsed
            then some (
              negsuc 0,
              10 ∷ (bytes "[timeout after " ++ (to_string (pos timeout_s) ++ bytes "s]")),
              (m.waitpid (m.kill w' child) child).1,
            )
            else rest
      ]

  -- `runCommand`
  unfoldable pub run_command : ℕ → List Bytes → ℕ → W → Option (CommandResult × W)
  unfolding read_all await
  run_command fuel [] timeout_s w =
      some
        (record { exit_code = negsuc 0; stdout_output = []; stderr_output = bytes "empty args" }, w)
  run_command fuel (a ∷ args) timeout_s w =
      let (answer, w1) = m.spawn w (a ∷ args) in
      elim answer [
        | inl message ↦ some (
          record {
            exit_code = negsuc 0;
            stdout_output = [];
            stderr_output = bytes "fork failed: " ++ message;
          },
          w1,
        )
        | inr child ↦ do
          (output, w2) ← read_all fuel child out w1
          (errors, w3) ← read_all fuel child err w2
          (code, note, w4) ← await fuel child timeout_s (m.now w3) w3
          some (
            record { exit_code = code; stdout_output = output; stderr_output = errors ++ note },
            w4,
          )
      ]

  -- The duration that the output of ffprobe names.
  unfoldable pub duration_in : {D : Type 0} → Doubles D → Bytes → D
  unfolding find_from skip_ws_at
  duration_in d s = elim (find_from s 0 (bytes "\"duration\"")) [
    | none ↦ d.null
    | some found ↦
        let at = skip_ws_at s (found + 10) in
        let value = skip_ws_at s (if is_at s at b':' then at + 1 else at) in
        let number : ℕ = if is_at s value 34 then value + 1 else value in
        elim (d.stod (drop number s)) [ none ↦ d.null | some v ↦ v ]
  ]

  -- `getAudioDuration`
  unfoldable pub get_audio_duration :
      {D : Type 0} → Doubles D → ℕ → Bytes → Bytes → W → Option (D × W)
  unfolding run_command duration_in
  get_audio_duration d fuel ffprobe file w = do
    (res, w') ← run_command fuel (probe_args ffprobe file) 30 w
    some (if is_pos 0 res.exit_code then duration_in d res.stdout_output else d.null, w')
