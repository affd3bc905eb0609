-- ===== src/Audio/Node.antt =====
-- LlmAudioEditorNode::execute (plugins/llm_audio_editor_plugin.cpp). What it prints is left out.
use cpp20_workflow_engine.Shared.{
  ℕ, Bool, ◌&&◌, ◌||◌, Option, none, some, List, [], ◌∷◌, ◌++◌, length, ltb, ◌==◌, if◌then◌else◌,
  Bytes, bytes,
}
use cpp20_workflow_engine.Shared.Int.{ℤ, pos, is_pos}
use cpp20_workflow_engine.Context.{Context, ctx_set_double}
use cpp20_workflow_engine.Analyzer.Settings.{◌>>=◌, c_str, is_on, read_text, get_str, get_int}
use cpp20_workflow_engine.Analyzer.Node.{pieces, is_one_of, is_empty, text_at, int_at, lines}
use cpp20_workflow_engine.Audio.Commands.{EditCommand, extract_json_commands, parse_edit_commands}
use cpp20_workflow_engine.Audio.Process.{Doubles, Machine, run_command}
use cpp20_workflow_engine.Audio.Edit.{Options}
use cpp20_workflow_engine.Audio.Pool.{Totals, total_of, all_gone, start, work}

-- The files that the node reads. `create_directories` says whether it failed; `entries` are the regular
-- files of a directory, with those below it or without.
pub record Folders (W : Type 0) : Type 0 where
  pub create_directories : W → Bytes → Bool × W
  pub is_file : W → Bytes → Bool
  pub is_directory : W → Bytes → Bool
  pub entries : W → Bool → Bytes → List Bytes
  pub contents : W → Bytes → Option Bytes
  pub extension : Bytes → Bytes
  pub sort : List Bytes → List Bytes

-- The parameters of the node; those of the edits are `options`.
pub record Settings : Type 0 where
  pub input_path : Bytes
  pub options : Options
  pub recursive : Bool
  pub cmd_marker : Bytes
  pub file_exts : Bytes
  pub parallel : ℤ

-- `file_exts` is cut at its commas, and blanks and tabs fall off at both ends.
abbrev pub strip_front : Bytes → Bytes
strip_front [] = []
strip_front (c ∷ s) = let rest = strip_front s in if c == 32 || c == 9 then rest else c ∷ s

abbrev pub strip_back : Bytes → Bytes
strip_back [] = []
strip_back (c ∷ s) =
    let rest = strip_back s in if (length rest == 0) && (c == 32 || c == 9) then [] else c ∷ rest

abbrev pub stripped : List Bytes → List Bytes
stripped [] = []
stripped (tok ∷ toks) =
    let rest = stripped toks in
    let name = strip_back (strip_front tok) in if length name == 0 then rest else name ∷ rest

abbrev pub fail_with : {D : Type 0} → Bytes → Option (Context D) → Option (Context D)
fail_with message ctx =
    text_at (bytes "aed_error") message (text_at (bytes "aed_status") (bytes "failed") ctx)

unfoldable pub status_of : ℕ → ℕ → Bytes
status_of ec fc =
    if (fc == 0) && ltb 0 ec
    then bytes "success"
    else if ltb 0 ec && ltb 0 fc
    then bytes "partial"
    else if ltb 0 fc
    then bytes "failed"
    else bytes "success"

-- The parameters that may be missing, from the context.
unfoldable pub read_settings : {D : Type 0} → Context D → Bytes → Bytes → Option Settings
unfolding get_str get_int
read_settings ctx input audio = do
  output ← get_str ctx (bytes "aed_output_dir") (bytes "./audio_edited")
  ffmpeg_path ← get_str ctx (bytes "aed_ffmpeg_path") (bytes "ffmpeg")
  ffprobe_path ← get_str ctx (bytes "aed_ffprobe_path") (bytes "ffprobe")
  overwrite_s ← get_str ctx (bytes "aed_overwrite") (bytes "false")
  recursive_s ← get_str ctx (bytes "aed_recursive") (bytes "true")
  dry_run_s ← get_str ctx (bytes "aed_dry_run") (bytes "false")
  marker ← get_str ctx (bytes "aed_command_marker") (bytes "EDIT_COMMANDS")
  exts ← get_str ctx (bytes "aed_file_extensions") (bytes ".json,.md,.txt")
  some (record {
    input_path = input;
    options = record {
      audio_dir = audio;
      output_dir = output;
      ffmpeg = ffmpeg_path;
      ffprobe = ffprobe_path;
      overwrite = is_on overwrite_s;
      dry_run = is_on dry_run_s;
      sample_rate = get_int ctx (bytes "aed_sample_rate") (pos 0);
      channels = get_int ctx (bytes "aed_channels") (pos 0);
      bit_depth = get_int ctx (bytes "aed_bit_depth") (pos 16);
    };
    recursive = is_on recursive_s;
    cmd_marker = marker;
    file_exts = exts;
    parallel = get_int ctx (bytes "aed_parallel") (pos 2);
  })

module _ {W : Type 0} (files : Folders W) where
  unfoldable match_ext : List Bytes → Bytes → Bool
  match_ext exts file = is_empty exts || is_one_of (files.extension file) exts

  unfoldable pub matching : List Bytes → List Bytes → List Bytes
  unfolding match_ext
  matching exts [] = []
  matching exts (file ∷ entries) =
      let rest = matching exts entries in if match_ext exts file then file ∷ rest else rest

  -- The instruction files in order; `none` when there is no such path.
  unfoldable pub collect : Settings → W → Option (List Bytes)
  unfolding pieces matching
  collect st w =
      let exts = stripped (pieces st.file_exts) in
      if files.is_file w st.input_path
      then some (files.sort (matching exts (st.input_path ∷ [])))
      else if files.is_directory w st.input_path
      then some (files.sort (matching exts (files.entries w st.recursive st.input_path)))
      else none

  -- The commands of the files that have some.
  unfoldable pub parse_files :
      {D : Type 0} → Doubles D → ℕ → Bytes → List Bytes → W → Option (List (List (EditCommand D)))
  unfolding extract_json_commands parse_edit_commands
  parse_files d fuel marker [] w = some []
  parse_files d fuel marker (f ∷ fs) w =
      let rest = parse_files d fuel marker fs w in
      elim (files.contents w f) [
        | none ↦ rest
        | some content ↦
            let json_str = extract_json_commands content marker in
            if length json_str == 0
            then rest
            else (parse_edit_commands d.stod d.null d.one fuel json_str >>= λ cmds.
                rest >>= λ others. some (if length cmds == 0 then others else cmds ∷ others))
      ]

module _ {W D : Type 0} (m : Machine W) (d : Doubles D) (files : Folders W) where
  unfoldable pub write_results : Bytes → ℕ → Totals D → Option (Context D) → Option (Context D)
  unfolding ctx_set_double status_of
  write_results output_dir total_commands totals c0 =
      let c1 = int_at (bytes "aed_total_commands") (pos total_commands) c0 in
      let c2 = int_at (bytes "aed_executed_count") (pos totals.executed) c1 in
      let c3 = int_at (bytes "aed_failed_count") (pos totals.failed) c2 in
      let c4 = int_at (bytes "aed_skipped_count") (pos totals.skipped) c3 in
      let c5 =
        ctx_set_double (some (bytes "aed_total_output_duration")) totals.output_duration c4 in
      let c6 = int_at (bytes "aed_total_output_bytes") (pos totals.output_bytes) c5 in
      let c7 = text_at (bytes "aed_output_path") output_dir c6 in
      let c8 = text_at (bytes "aed_output_files") (c_str (lines [] totals.output_files)) c7 in
      text_at (bytes "aed_status") (status_of totals.executed totals.failed) c8

  -- The execution of the commands; the threads go on in the order of `moves`, and `none` is also the
  -- outcome when that leaves a thread that has not ended.
  unfoldable pub execute_all :
      ℕ
      → List ℕ
      → Settings
      → List (List (EditCommand D))
      → Context D
      → W
      → Option (Option (Context D) × W)
  unfolding start work write_results
  execute_all fuel moves st all_file_cmds ctx w = do
    pool ←
        work m d st.options st.parallel fuel all_file_cmds moves
          (start m d st.options st.parallel fuel all_file_cmds w)
    joined ← if all_gone pool.workers then some pool else none
    some (
      write_results st.options.output_dir (total_of all_file_cmds) joined.totals (some ctx),
      joined.world,
    )

  -- What follows the reading of the parameters.
  unfoldable pub edit_all : ℕ → List ℕ → Settings → Context D → W → Option (Option (Context D) × W)
  unfolding run_command collect parse_files execute_all
  edit_all fuel moves st ctx w = do
    (res, w1) ← run_command m fuel (st.options.ffmpeg ∷ bytes "-version" ∷ []) 10 w
    let (failed, w2) = files.create_directories w1 st.options.output_dir
    if is_pos 0 res.exit_code
        then (if failed
            then some (
              fail_with (bytes "Cannot create output_dir: " ++ st.options.output_dir) (some ctx),
              w2,
            )
            else elim (collect files st w2) [
              | none ↦
                  some (fail_with (bytes "input_path not found: " ++ st.input_path) (some ctx), w2)
              | some instr_files ↦
                  parse_files files d fuel st.cmd_marker instr_files w2 >>= λ all_file_cmds.
                  execute_all fuel moves st all_file_cmds ctx w2
            ])
        else some (fail_with (bytes "ffmpeg not found at: " ++ st.options.ffmpeg) (some ctx), w1)

  -- `execute`
  unfoldable pub execute : ℕ → List ℕ → Context D → W → Option (Option (Context D) × W)
  unfolding read_text read_settings edit_all
  execute fuel moves ctx w = do
    path ← read_text ctx 4096 (bytes "aed_input_path")
    elim path [
      | none ↦ some (fail_with (bytes "aed_input_path is required") (some ctx), w)
      | some input_path ↦ do
        dir ← read_text ctx 4096 (bytes "aed_audio_dir")
        elim dir [
          | none ↦ some (fail_with (bytes "aed_audio_dir is required") (some ctx), w)
          | some audio_dir ↦ do
            st ← read_settings ctx input_path audio_dir
            edit_all fuel moves st ctx w
        ]
    ]
