-- ===== src/Audio/Returns.antt =====
-- Every edit command returns (plugins/llm_audio_editor_plugin.cpp).
use cpp20_workflow_engine.Shared.{
  ℕ, ◌<◌, inl, inr, not, ◌&&◌, Option, none, some, Option-cases, List, List-cases, ◌++◌, arith,
  if◌then◌else◌, Bytes, bytes, str_eq,
}
use cpp20_workflow_engine.Shared.Int.{is_pos}
use cpp20_workflow_engine.Analyzer.Totals.{choose}
use cpp20_workflow_engine.Audio.Commands.{EditCommand}
use cpp20_workflow_engine.Audio.Process.{
  Doubles, Machine, run_command, get_audio_duration, duration_in, probe_args,
}
use cpp20_workflow_engine.Audio.Filters.{speed_filter, fade_filter}
use cpp20_workflow_engine.Audio.Edit.{
  Options, skip, resolve, command_line, sil_args, temp, convert, cut, concat, two_sources,
  merge_all, merge, make_silence, silence, delete, speed, fade, volume, normalize, edit_of,
  execute_edit_command,
}
use cpp20_workflow_engine.Audio.Waits.{Returns, Returns-bind, Ticks, Reads, run_command-Returns}

module _ {W D : Type 0} (m : Machine W) (d : Doubles D) (o : Options) (fuel : ℕ) (ticks : Ticks m)
    (reads : Reads m fuel) (enough : 3000 < fuel) where
  convert-Returns :
      (what : Bytes) (middle : List Bytes) (target : Bytes) (w : W)
      → Returns (convert m d o fuel what middle target w)
  unfolding convert
  convert-Returns what middle target w = choose Returns o.dry_run _ _ tt (
      Returns-bind (run_command m fuel (command_line m d o fuel middle target) 300 w) _
        (run_command-Returns m fuel ticks reads _ 300 w (omega arith)) (λ (res, w'). tt))

  concat-Returns :
      (refused what list_path list target : Bytes) (w : W)
      → Returns (concat m d o fuel refused what list_path list target w)
  unfolding concat
  concat-Returns refused what list_path list target w =
      choose Returns (not (m.write w list_path list).0) _ _ tt
        (Returns-bind _ _ (convert-Returns what _ target _) (λ (answer, w2). tt))

  merge_all-Returns :
      (cmd : EditCommand D) (target : Bytes) (w : W) → Returns (merge_all m d o fuel cmd target w)
  unfolding merge_all
  merge_all-Returns cmd target w = concat-Returns _ (bytes "ffmpeg merge failed: ") _ _ target w

  merge-Returns :
      (cmd : EditCommand D) (target : Bytes) (w : W) → Returns (merge m d o fuel cmd target w)
  unfolding merge
  merge-Returns cmd target w = elim (Option-cases (two_sources m d o fuel cmd.sources)) [
    | inl e ↦ rw (merge, e) (merge_all-Returns cmd target w)
    | inr ((s1, s2), e) ↦
        rw (merge, e)
          (choose Returns (str_eq cmd.transition (bytes "crossfade")) _ _
            (convert-Returns (bytes "ffmpeg merge(crossfade) failed: ") _ target w)
            (merge_all-Returns cmd target w))
  ]

  make_silence-Returns :
      (cmd : EditCommand D) (path : Bytes) (w : W) → Returns (make_silence m d o fuel cmd path w)
  unfolding make_silence
  make_silence-Returns cmd path w = choose Returns o.dry_run _ _ tt (
      Returns-bind (run_command m fuel (sil_args m d o fuel cmd path) 300 w) _
        (run_command-Returns m fuel ticks reads (sil_args m d o fuel cmd path) 300 w (omega arith))
        (λ (res, w'). tt))

  silence-Returns :
      (cmd : EditCommand D) (target : Bytes) (w : W) → Returns (silence m d o fuel cmd target w)
  unfolding silence
  silence-Returns cmd target w =
      Returns-bind _ _
        (make_silence-Returns cmd (temp m d o fuel (bytes "llm_aed_silence_") (bytes ".wav")) w)
        (λ (message, w1). elim (Option-cases message) [
          | inr (error, e) ↦ rw e tt
          | inl e ↦ rw e (
              Returns-bind _ _
                (concat-Returns _ (bytes "ffmpeg silence insert failed: ") _ _ target w1)
                (λ (answer, w2). tt))
        ])

  delete-Returns :
      (cmd : EditCommand D) (target : Bytes) (w : W) → Returns (delete m d o fuel cmd target w)
  unfolding delete
  delete-Returns cmd target w = elim (List-cases cmd.segments) [
    | inl e ↦ rw (delete, e) tt
    | inr (s, segments, e) ↦
        rw (delete, e) (convert-Returns (bytes "ffmpeg delete failed: ") _ target w)
  ]

  -- The chain of filters for the factor of a command ends.
  abbrev pub Chains : EditCommand D → Type 0
  Chains cmd = Returns (speed_filter d fuel cmd.factor)

  speed-Returns :
      (cmd : EditCommand D) (target : Bytes) (w : W)
      → Chains cmd
      → Returns (speed m d o fuel cmd target w)
  unfolding speed
  speed-Returns cmd target w h =
      Returns-bind _ _ h (λ filter. convert-Returns (bytes "ffmpeg speed failed: ") _ target w)

  pub get_audio_duration-Returns :
      (file : Bytes) (w : W) → Returns (get_audio_duration m d fuel o.ffprobe file w)
  unfolding get_audio_duration
  get_audio_duration-Returns file w =
      Returns-bind (run_command m fuel (probe_args o.ffprobe file) 30 w)
        (λ (res, w').
          some (if is_pos 0 res.exit_code then duration_in m d res.stdout_output else d.null, w'))
        (run_command-Returns m fuel ticks reads (probe_args o.ffprobe file) 30 w (omega arith))
        (λ (res, w'). tt)

  fade-Returns :
      (cmd : EditCommand D) (target : Bytes) (w : W) → Returns (fade m d o fuel cmd target w)
  unfolding fade
  fade-Returns cmd target w =
      Returns-bind _ _ (get_audio_duration-Returns (resolve m d o fuel o.audio_dir cmd.source) w)
        (λ (dur, w'). elim (Option-cases (fade_filter d cmd dur)) [
          | inl e ↦ rw e tt
          | inr (filter, e) ↦ rw e (convert-Returns (bytes "ffmpeg fade failed: ") _ target w')
        ])

  cut-Returns :
      (cmd : EditCommand D) (target : Bytes) (w : W) → Returns (cut m d o fuel cmd target w)
  unfolding cut
  cut-Returns cmd target w = convert-Returns (bytes "ffmpeg cut failed: ") _ target w

  volume-Returns :
      (cmd : EditCommand D) (target : Bytes) (w : W) → Returns (volume m d o fuel cmd target w)
  unfolding volume
  volume-Returns cmd target w = convert-Returns (bytes "ffmpeg volume failed: ") _ target w

  normalize-Returns :
      (cmd : EditCommand D) (target : Bytes) (w : W) → Returns (normalize m d o fuel cmd target w)
  unfolding normalize
  normalize-Returns cmd target w = convert-Returns (bytes "ffmpeg normalize failed: ") _ target w

  abbrev AllReturn : Option (EditCommand D → Bytes → W → Option (Bytes × W)) → Type 0
  AllReturn none = Unit {0}
  AllReturn (some edit) =
      (cmd : EditCommand D) (target : Bytes) (w : W) → Chains cmd → Returns (edit cmd target w)

  edit_of-AllReturn : (type : Bytes) → AllReturn (edit_of m d o fuel type)
  unfolding edit_of
  edit_of-AllReturn type =
      choose AllReturn (str_eq type (bytes "cut")) _ _ (λ c t w h. cut-Returns c t w)
        (choose AllReturn (str_eq type (bytes "merge")) _ _ (λ c t w h. merge-Returns c t w)
          (choose AllReturn (str_eq type (bytes "silence")) _ _ (λ c t w h. silence-Returns c t w)
            (choose AllReturn (str_eq type (bytes "delete")) _ _ (λ c t w h. delete-Returns c t w)
              (choose AllReturn (str_eq type (bytes "speed")) _ _ speed-Returns (
                choose AllReturn (str_eq type (bytes "fade")) _ _ (λ c t w h. fade-Returns c t w)
                  (choose AllReturn (str_eq type (bytes "volume")) _ _
                    (λ c t w h. volume-Returns c t w)
                    (choose AllReturn (str_eq type (bytes "normalize")) _ _
                      (λ c t w h. normalize-Returns c t w) tt)))))))

  -- If the clock goes on while the program sleeps or waits, the output of every child ends, the fuel is
  -- more than 3000, and the chain of tempo filters ends for the factor of the command, then the command
  -- returns, whatever the machine answers: an edit, a dry run and a refusal alike.
  pub execute_edit_command-Returns :
      (cmd : EditCommand D) (w : W) → Chains cmd → Returns (execute_edit_command m d o fuel cmd w)
  unfolding execute_edit_command
  execute_edit_command-Returns cmd w h =
      run_edit (edit_of m d o fuel cmd.type) (edit_of-AllReturn cmd.type)
    where
      target : Bytes
      target = resolve m d o fuel o.output_dir cmd.output

      run_edit :
          (e : Option (EditCommand D → Bytes → W → Option (Bytes × W)))
          → AllReturn e
          → Returns {A = Bytes × W} (elim e [
            | none ↦ some (bytes "Unknown command type: " ++ cmd.type, w)
            | some edit ↦
                if not o.overwrite && m.exists w target then some (skip, w) else edit cmd target w
          ])
      run_edit none k = tt
      run_edit (some edit) k =
          choose Returns (not o.overwrite && m.exists w target) _ _ tt (k cmd target w h)
