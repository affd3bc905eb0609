-- ===== src/Audio/Edit.antt =====
-- executeEditCommand (plugins/llm_audio_editor_plugin.cpp). The answer is the empty text, "SKIP" or the
-- message of an error; `none` means that the fuel ran out. What a dry run prints is left out.
use cpp20_workflow_engine.Shared.{
  ℕ, Bool, not, ◌&&◌, Option, none, some, List, [], ◌∷◌, ◌++◌, length, take, ◌==◌, if◌then◌else◌,
  Bytes, bytes, str_eq,
}
use cpp20_workflow_engine.Shared.Int.{ℤ, pos, negsuc, is_pos, to_string}
use cpp20_workflow_engine.Segments.{join}
use cpp20_workflow_engine.Analyzer.Settings.{◌>>=◌}
use cpp20_workflow_engine.Audio.Commands.{EditCommand, codec_args}
use cpp20_workflow_engine.Audio.Process.{Doubles, Machine, run_command, get_audio_duration}
use cpp20_workflow_engine.Audio.Filters.{delete_filter, speed_filter, fade_filter}

-- What executeEditCommand is given beside the command.
pub record Options : Type 0 where
  pub audio_dir : Bytes
  pub output_dir : Bytes
  pub ffmpeg : Bytes
  pub ffprobe : Bytes
  pub overwrite : Bool
  pub dry_run : Bool
  pub sample_rate : ℤ
  pub channels : ℤ
  pub bit_depth : ℤ

abbrev pub skip : Bytes
skip = bytes "SKIP"

-- `int sr`, with the conversion of the sample rate to `int` where it fits.
abbrev pub silence_rate : ℤ → Bytes
unfolding to_string
silence_rate (pos n) = if n == 0 then bytes "44100" else to_string (pos n)
silence_rate (negsuc n) = bytes "44100"

abbrev pub ch_layout : ℤ → Bytes
ch_layout channels =
    if is_pos 1 channels
    then bytes "mono"
    else if is_pos 2 channels
    then bytes "stereo"
    else bytes "mono"

abbrev pub file_line : Bytes → Bytes
file_line file = join (bytes "file '" ∷ file ∷ bytes "'\n" ∷ [])

module _ {W D : Type 0} (m : Machine W) (d : Doubles D) (o : Options) (fuel : ℕ) where
  -- `resolveSrc` and `resolveOut`
  abbrev pub resolve : Bytes → Bytes → Bytes
  resolve dir file =
      if length file == 0 then [] else if m.is_absolute file then file else m.within dir file

  -- The codec and the output behind the arguments of a filter or of inputs.
  abbrev pub command_line : List Bytes → Bytes → List Bytes
  unfolding codec_args
  command_line middle target =
      o.ffmpeg
      ∷ (if o.overwrite then bytes "-y" else bytes "-n")
      ∷ (middle ++ (codec_args o.bit_depth o.sample_rate o.channels ++ target ∷ []))

  abbrev pub temp_name : Bytes → Bytes → Bytes
  unfolding to_string
  temp_name name ext = name ++ (to_string (pos m.pid) ++ ext)

  abbrev pub temp : Bytes → Bytes → Bytes
  temp name ext = m.temp_file (temp_name name ext)

  -- The start of ffmpeg, unless it is a dry run, and the message when it fails.
  unfoldable pub convert : Bytes → List Bytes → Bytes → W → Option (Bytes × W)
  unfolding run_command
  convert what middle target w = if o.dry_run then some ([], w) else do
    (res, w') ← run_command m fuel (command_line middle target) 300 w
    some (if is_pos 0 res.exit_code then [] else what ++ take 512 res.stderr_output, w')

  unfoldable pub cut : EditCommand D → Bytes → W → Option (Bytes × W)
  unfolding convert
  cut cmd target w =
      convert (bytes "ffmpeg cut failed: ")
        (bytes "-i"
          ∷ resolve o.audio_dir cmd.source
          ∷ bytes "-ss"
          ∷ d.to_text cmd.start
          ∷ bytes "-to"
          ∷ d.to_text cmd.end
          ∷ [])
        target w

  abbrev pub concat_of : Bytes → List Bytes
  concat_of list_path =
      bytes "-f" ∷ bytes "concat" ∷ bytes "-safe" ∷ bytes "0" ∷ bytes "-i" ∷ list_path ∷ []

  abbrev pub file_lines : List Bytes → Bytes
  file_lines [] = []
  file_lines (src ∷ sources) =
      let rest = file_lines sources in file_line (resolve o.audio_dir src) ++ rest

  -- The conversion of the files that a list file names; the list file is removed behind it.
  unfoldable pub concat : Bytes → Bytes → Bytes → Bytes → Bytes → W → Option (Bytes × W)
  unfolding convert
  concat refused what list_path list target w =
      let (opened, w1) = m.write w list_path list in
      if not opened then some (refused, w1) else do
        (answer, w2) ← convert what (concat_of list_path) target w1
        some (answer, m.unlink w2 list_path)

  abbrev pub two_sources : List Bytes → Option (Bytes × Bytes)
  two_sources (s1 ∷ s2 ∷ []) = some (s1, s2)
  two_sources _ = none

  unfoldable pub merge_all : EditCommand D → Bytes → W → Option (Bytes × W)
  unfolding concat
  merge_all cmd target w =
      let list_path = temp (bytes "llm_aed_merge_") (bytes ".txt") in
      concat (bytes "Cannot write concat list: " ++ list_path) (bytes "ffmpeg merge failed: ")
        list_path (file_lines cmd.sources) target w

  unfoldable pub merge : EditCommand D → Bytes → W → Option (Bytes × W)
  unfolding merge_all convert str_eq
  merge cmd target w = elim (two_sources cmd.sources) [
    | none ↦ merge_all cmd target w
    | some (s1, s2) ↦
        if str_eq cmd.transition (bytes "crossfade")
        then convert (bytes "ffmpeg merge(crossfade) failed: ")
            (bytes "-i"
              ∷ resolve o.audio_dir s1
              ∷ bytes "-i"
              ∷ resolve o.audio_dir s2
              ∷ bytes "-filter_complex"
              ∷ join (
                  bytes "acrossfade=d="
                  ∷ d.to_text cmd.crossfade_duration
                  ∷ bytes ":c1=tri:c2=tri"
                  ∷ [])
              ∷ [])
            target w
        else merge_all cmd target w
  ]

  abbrev pub sil_args : EditCommand D → Bytes → List Bytes
  unfolding codec_args
  sil_args cmd silence_path =
      o.ffmpeg
      ∷ bytes "-y"
      ∷ bytes "-f"
      ∷ bytes "lavfi"
      ∷ bytes "-i"
      ∷ join (
          bytes "anullsrc=r="
          ∷ silence_rate o.sample_rate
          ∷ bytes ":cl="
          ∷ ch_layout o.channels
          ∷ [])
      ∷ bytes "-t"
      ∷ d.to_text cmd.duration
      ∷ (codec_args o.bit_depth o.sample_rate o.channels ++ silence_path ∷ [])

  -- The generation of the silence: the message when it fails.
  unfoldable pub make_silence : EditCommand D → Bytes → W → Option (Option Bytes × W)
  unfolding run_command codec_args
  make_silence cmd silence_path w = if o.dry_run then some (none, w) else do
    (res, w') ← run_command m fuel (sil_args cmd silence_path) 300 w
    some (
      if is_pos 0 res.exit_code
          then none
          else some (bytes "ffmpeg silence gen failed: " ++ take 256 res.stderr_output),
      w',
    )

  unfoldable pub silence : EditCommand D → Bytes → W → Option (Bytes × W)
  unfolding make_silence concat
  silence cmd target w =
      let silence_path = temp (bytes "llm_aed_silence_") (bytes ".wav") in
      let list_path = temp (bytes "llm_aed_sil_list_") (bytes ".txt") in
      let quiet = file_line silence_path in
      let sound = file_line (resolve o.audio_dir cmd.source) in
      make_silence cmd silence_path w >>= λ (message, w1). elim message [
        | some error ↦ some (error, w1)
        | none ↦ do
          (answer, w2) ←
              concat (bytes "Cannot write silence list") (bytes "ffmpeg silence insert failed: ")
                list_path (if d.le cmd.position d.null then quiet ++ sound else sound ++ quiet)
                target w1
          some (answer, m.unlink w2 silence_path)
      ]

  -- The conversion of a single source by a filter.
  abbrev pub filtered : Bytes → EditCommand D → Bytes → Bytes → W → Option (Bytes × W)
  unfolding convert
  filtered what cmd filter target w =
      convert what (bytes "-i" ∷ resolve o.audio_dir cmd.source ∷ bytes "-af" ∷ filter ∷ []) target
        w

  unfoldable pub delete : EditCommand D → Bytes → W → Option (Bytes × W)
  unfolding delete_filter convert
  delete cmd target w = elim cmd.segments [
    | [] ↦ some (bytes "delete: no segments specified", w)
    | s ∷ segments ↦
        filtered (bytes "ffmpeg delete failed: ") cmd (delete_filter d (s ∷ segments)) target w
  ]

  unfoldable pub speed : EditCommand D → Bytes → W → Option (Bytes × W)
  unfolding speed_filter convert
  speed cmd target w = speed_filter d fuel cmd.factor >>= λ filter.
      filtered (bytes "ffmpeg speed failed: ") cmd filter target w

  unfoldable pub fade : EditCommand D → Bytes → W → Option (Bytes × W)
  unfolding get_audio_duration fade_filter convert
  fade cmd target w =
      get_audio_duration m d fuel o.ffprobe (resolve o.audio_dir cmd.source) w >>= λ (dur, w').
      elim (fade_filter d cmd dur) [
        | none ↦ some (bytes "fade: neither fade_in nor fade_out specified", w')
        | some filter ↦ filtered (bytes "ffmpeg fade failed: ") cmd filter target w'
      ]

  unfoldable pub volume : EditCommand D → Bytes → W → Option (Bytes × W)
  unfolding convert
  volume cmd target w =
      filtered (bytes "ffmpeg volume failed: ") cmd (bytes "volume=" ++ d.to_text cmd.level) target
        w

  unfoldable pub normalize : EditCommand D → Bytes → W → Option (Bytes × W)
  unfolding convert
  normalize cmd target w =
      filtered (bytes "ffmpeg normalize failed: ") cmd (bytes "loudnorm") target w

  -- What a command does by its type, unless its output is skipped; `none` for an unknown type.
  unfoldable pub edit_of : Bytes → Option (EditCommand D → Bytes → W → Option (Bytes × W))
  unfolding str_eq cut merge silence delete speed fade volume normalize
  edit_of type =
      if str_eq type (bytes "cut")
      then some cut
      else if str_eq type (bytes "merge")
      then some merge
      else if str_eq type (bytes "silence")
      then some silence
      else if str_eq type (bytes "delete")
      then some delete
      else if str_eq type (bytes "speed")
      then some speed
      else if str_eq type (bytes "fade")
      then some fade
      else if str_eq type (bytes "volume")
      then some volume
      else if str_eq type (bytes "normalize")
      then some normalize
      else none

  -- `executeEditCommand`
  unfoldable pub execute_edit_command : EditCommand D → W → Option (Bytes × W)
  unfolding edit_of
  execute_edit_command cmd w =
      let target = resolve o.output_dir cmd.output in
      elim (edit_of cmd.type) [
        | none ↦ some (bytes "Unknown command type: " ++ cmd.type, w)
        | some edit ↦
            if not o.overwrite && m.exists w target then some (skip, w) else edit cmd target w
      ]
