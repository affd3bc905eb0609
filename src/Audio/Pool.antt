-- ===== src/Audio/Pool.antt =====
-- The worker threads of LlmAudioEditorNode (plugins/llm_audio_editor_plugin.cpp). A command is executed
-- in one step: what it leaves in the counters is atomic, and the list of outputs is locked.
use cpp20_workflow_engine.Shared.{
  ℕ, zero, suc, ◌+◌, ◌%◌, ◌^◌, Bool, true, false, ◌||◌, not, Option, none, some, List, [], ◌∷◌,
  ◌++◌, length, ltb, ◌==◌, if◌then◌else◌, Bytes, str_eq,
}
use cpp20_workflow_engine.Shared.Int.{ℤ}
use cpp20_workflow_engine.Analyzer.Settings.{◌>>=◌}
use cpp20_workflow_engine.Analyzer.Workers.{get_elem?, set_elem, n_par}
use cpp20_workflow_engine.Audio.Commands.{EditCommand}
use cpp20_workflow_engine.Audio.Process.{Doubles, Machine, get_audio_duration}
use cpp20_workflow_engine.Audio.Edit.{Options, skip, execute_edit_command}

-- A thread is to take a file, has commands of one still to execute, or has ended.
pub data Worker (D : Type 0) : Type 0 where
  ready : Worker D
  busy : ℕ → List (EditCommand D) → Worker D
  gone : Worker D

pub record Totals (D : Type 0) : Type 0 where
  pub executed : ℕ
  pub failed : ℕ
  pub skipped : ℕ
  pub output_duration : D
  pub output_bytes : ℕ
  pub output_files : List Bytes

-- `processed` are the commands in the order in which they were executed, with the index of their file.
pub record Pool (W D : Type 0) : Type 0 where
  pub file_idx : ℕ
  pub workers : List (Worker D)
  pub totals : Totals D
  pub world : W
  pub processed : List (ℕ × EditCommand D)

abbrev pub all_ready : {D : Type 0} → ℕ → List (Worker D)
all_ready zero = []
all_ready (suc n) = ready ∷ all_ready n

-- The threads have ended, and can be joined.
abbrev pub all_gone : {D : Type 0} → List (Worker D) → Bool
all_gone [] = true
all_gone (gone ∷ workers) = all_gone workers
all_gone (ready ∷ workers) = false
all_gone (busy i cmds ∷ workers) = false

-- `total_commands`
abbrev pub total_of : {A : Type 0} → List (List A) → ℕ
total_of [] = 0
total_of (cmds ∷ rest) = length cmds + total_of rest

abbrev pub has_slash : Bytes → Bool
has_slash [] = false
has_slash (c ∷ s) = c == b'/' || c == 92 || has_slash s

module _ {W D : Type 0} (m : Machine W) (d : Doubles D) (o : Options) (parallel : ℤ) (fuel : ℕ)
    (all_file_cmds : List (List (EditCommand D))) where
  -- What is known of an output that was written, unless its name has a folder.
  unfoldable pub track : EditCommand D → Totals D → W → Option (Totals D × W)
  unfolding get_audio_duration
  track cmd totals w =
      let out_full = m.within o.output_dir cmd.output in
      if has_slash cmd.output || not (m.exists w out_full) then some (totals, w) else do
        (dur, w') ← get_audio_duration m d fuel o.ffprobe out_full w
        some (
          record totals {
            output_bytes =
                totals.output_bytes + (elim (m.size w out_full) [ none ↦ 0 | some sz ↦ sz ]);
            output_duration = d.add totals.output_duration dur;
            output_files = totals.output_files ++ out_full ∷ [];
          },
          w',
        )

  -- One command of a file, and the counter that its answer raises.
  unfoldable pub perform : EditCommand D → Totals D → W → Option (Totals D × W)
  unfolding execute_edit_command track str_eq
  perform cmd totals w = execute_edit_command m d o fuel cmd w >>= λ (answer, w').
      if str_eq answer skip
      then some (record totals { skipped = totals.skipped + 1 }, w')
      else if length answer == 0
      then track cmd (record totals { executed = totals.executed + 1 }) w'
      else some (record totals { failed = totals.failed + 1 }, w')

  abbrev pub threads : ℕ
  threads =
      if ltb (length all_file_cmds) (n_par parallel) then length all_file_cmds else n_par parallel

  -- `std::min(n_par, all_file_cmds.size())` threads are started.
  unfoldable pub start : W → Pool W D
  start w = record {
    file_idx = 0;
    workers = all_ready threads;
    totals = record {
      executed = 0;
      failed = 0;
      skipped = 0;
      output_duration = d.null;
      output_bytes = 0;
      output_files = [];
    };
    world = w;
    processed = [];
  }

  -- A thread takes the next file, or ends; an index out of range is undefined, `none`.
  unfoldable pub take_file : ℕ → Pool W D → Option (Pool W D)
  take_file k p =
      let next = (p.file_idx + 1) % 2 ^ 64 in
      if ltb p.file_idx (length all_file_cmds)
      then (elim (get_elem? p.file_idx all_file_cmds) [
        | none ↦ none
        | some cmds ↦
            some
              (record p { file_idx = next; workers = set_elem k (busy p.file_idx cmds) p.workers })
      ])
      else some (record p { file_idx = next; workers = set_elem k gone p.workers })

  -- Thread `k` goes on.
  unfoldable pub advance : ℕ → Pool W D → Option (Pool W D)
  unfolding perform take_file
  advance k p = elim (get_elem? k p.workers) [
    | none ↦ some p
    | some gone ↦ some p
    | some ready ↦ take_file k p
    | some (busy i []) ↦ some (record p { workers = set_elem k ready p.workers })
    | some (busy i (cmd ∷ cmds)) ↦ do
      (totals', world') ← perform cmd p.totals p.world
      some (record p {
        workers = set_elem k (busy i cmds) p.workers;
        totals = totals';
        world = world';
        processed = p.processed ++ (i, cmd) ∷ [];
      })
  ]

  -- The threads go on in the order of `moves`.
  unfoldable pub work : List ℕ → Pool W D → Option (Pool W D)
  unfolding advance
  work [] p = some p
  work (k ∷ moves) p = advance k p >>= work moves
