-- ===== src/Audio/Keeps.antt =====
-- What executeEditCommand keeps of the world, if its calls of the machine keep it
-- (plugins/llm_audio_editor_plugin.cpp).
use cpp20_workflow_engine.Shared.{
  ℕ, ◌≡◌, inl, inr, false, not, ◌&&◌, Option, none, some, Option-cases, List, List-cases, [], ◌∷◌,
  ◌++◌, if◌then◌else◌, Bytes, bytes, str_eq,
}
use cpp20_workflow_engine.Analyzer.Totals.{Gives, Gives-any, Gives-bind, choose}
use cpp20_workflow_engine.Audio.Commands.{EditCommand}
use cpp20_workflow_engine.Audio.Process.{Doubles, Machine, run_command}
use cpp20_workflow_engine.Audio.Filters.{speed_filter, fade_filter}
use cpp20_workflow_engine.Audio.Edit.{
  Options, resolve, command_line, sil_args, temp_name, temp, convert, cut, concat, two_sources,
  merge_all, merge, make_silence, silence, delete, speed, fade, volume, normalize, skip, edit_of,
  execute_edit_command,
}
use cpp20_workflow_engine.Audio.Process.Keeps.{
  choose_on, Watches, Starts, Holds, run_command-Keeps, get_audio_duration-Keeps,
}

-- What the calls of a command keep: a process that is not ffprobe is started only in an edit that is
-- not a dry run.
pub record Calls {W : Type 0} (m : Machine W) (o : Options) (P : W → Type 0) : Type 0 where
  pub watches : Watches m P
  pub on_probe : (args : List Bytes) → Starts m P (o.ffprobe ∷ args)
  pub on_start : o.dry_run ≡ false → (args : List Bytes) → Starts m P args
  pub on_unlink : (w : W) (name : Bytes) → P w → P (m.unlink w (m.temp_file name))

module _ {W D : Type 0} (m : Machine W) (d : Doubles D) (o : Options) (fuel : ℕ) (P : W → Type 0)
    (calls : Calls m o P) where
  abbrev Keeps : Option (Bytes × W) → Type 0
  Keeps r = Gives (Holds m P) r

  pub convert-Keeps :
      (what : Bytes) (middle : List Bytes) (target : Bytes) (w : W)
      → P w
      → Keeps (convert m d o fuel what middle target w)
  unfolding convert
  convert-Keeps what middle target w h =
      choose_on (Gives (Holds m P)) o.dry_run (λ e. h)
        (λ e.
          Gives-bind (Holds m P) (Holds m P)
            (run_command m fuel (command_line m d o fuel middle target) 300 w) _
            (run_command-Keeps m P calls.watches fuel (command_line m d o fuel middle target) 300 w
              (calls.on_start e _) h)
            (λ (res, w') h'. h'))

  -- A conversion of listed files, whose list is a temporary file.
  abbrev pub Concats : Type 0
  Concats =
      (refused what name list target : Bytes) (w : W)
      → P w
      → Keeps (concat m d o fuel refused what (m.temp_file name) list target w)

  module _ (concats : Concats) where
    merge_all-Keeps :
        (cmd : EditCommand D) (target : Bytes) (w : W)
        → P w
        → Keeps (merge_all m d o fuel cmd target w)
    unfolding merge_all
    merge_all-Keeps cmd target w h = concats _ (bytes "ffmpeg merge failed: ") _ _ target w h

    merge-Keeps :
        (cmd : EditCommand D) (target : Bytes) (w : W) → P w → Keeps (merge m d o fuel cmd target w)
    unfolding merge
    merge-Keeps cmd target w h = elim (Option-cases (two_sources m d o fuel cmd.sources)) [
      | inl e ↦ rw (merge, e) (merge_all-Keeps cmd target w h)
      | inr ((s1, s2), e) ↦
          rw (merge, e)
            (choose (Gives (Holds m P)) (str_eq cmd.transition (bytes "crossfade")) _ _
              (convert-Keeps (bytes "ffmpeg merge(crossfade) failed: ") _ target w h)
              (merge_all-Keeps cmd target w h))
    ]

    make_silence-Keeps :
        (cmd : EditCommand D) (silence_path : Bytes) (w : W)
        → P w
        → Gives (Holds m P) (make_silence m d o fuel cmd silence_path w)
    unfolding make_silence
    make_silence-Keeps cmd silence_path w h =
        choose_on (Gives (Holds m P)) o.dry_run (λ e. h)
          (λ e.
            Gives-bind (Holds m P) (Holds m P)
              (run_command m fuel (sil_args m d o fuel cmd silence_path) 300 w) _
              (run_command-Keeps m P calls.watches fuel (sil_args m d o fuel cmd silence_path) 300 w
                (calls.on_start e _) h)
              (λ (res, w') h'. h'))

    silence-Keeps :
        (cmd : EditCommand D) (target : Bytes) (w : W)
        → P w
        → Keeps (silence m d o fuel cmd target w)
    unfolding silence
    silence-Keeps cmd target w h =
        Gives-bind (Holds m P) (Holds m P) _ _
          (make_silence-Keeps cmd (temp m d o fuel (bytes "llm_aed_silence_") (bytes ".wav")) w h)
          (λ (message, w1) h1. elim (Option-cases message) [
            | inr (error, e) ↦ rw e h1
            | inl e ↦ rw e (
                Gives-bind (Holds m P) (Holds m P {A = Bytes}) _
                  (λ (answer, w2). some (
                    answer,
                    m.unlink w2 (temp m d o fuel (bytes "llm_aed_silence_") (bytes ".wav")),
                  ))
                  (concats _ (bytes "ffmpeg silence insert failed: ") _ _ target w1 h1)
                  (λ (answer, w2) h2.
                    calls.on_unlink w2
                      (temp_name m d o fuel (bytes "llm_aed_silence_") (bytes ".wav")) h2))
          ])

    delete-Keeps :
        (cmd : EditCommand D) (target : Bytes) (w : W)
        → P w
        → Keeps (delete m d o fuel cmd target w)
    unfolding delete
    delete-Keeps cmd target w h = elim (List-cases cmd.segments) [
      | inl e ↦ rw (delete, e) h
      | inr (s, segments, e) ↦
          rw (delete, e) (convert-Keeps (bytes "ffmpeg delete failed: ") _ target w h)
    ]

    speed-Keeps :
        (cmd : EditCommand D) (target : Bytes) (w : W) → P w → Keeps (speed m d o fuel cmd target w)
    unfolding speed
    speed-Keeps cmd target w h =
        Gives-bind (λ f. Unit {0}) (Holds m P) _ _ (Gives-any (speed_filter d fuel cmd.factor))
          (λ filter u. convert-Keeps (bytes "ffmpeg speed failed: ") _ target w h)

    fade-Keeps :
        (cmd : EditCommand D) (target : Bytes) (w : W) → P w → Keeps (fade m d o fuel cmd target w)
    unfolding fade
    fade-Keeps cmd target w h =
        Gives-bind (Holds m P) (Holds m P) _ _
          (get_audio_duration-Keeps m P calls.watches d fuel o.ffprobe
            (resolve m d o fuel o.audio_dir cmd.source) w calls.on_probe h)
          (λ (dur, w') h'. elim (Option-cases (fade_filter d cmd dur)) [
            | inl e ↦ rw e h'
            | inr (filter, e) ↦ rw e (convert-Keeps (bytes "ffmpeg fade failed: ") _ target w' h')
          ])

    -- Every edit keeps what its calls keep.
    abbrev Edits : Option (EditCommand D → Bytes → W → Option (Bytes × W)) → Type 0
    Edits none = Unit {0}
    Edits (some edit) =
        (cmd : EditCommand D) (target : Bytes) (w : W) → P w → Keeps (edit cmd target w)

    cut-Keeps :
        (cmd : EditCommand D) (target : Bytes) (w : W) → P w → Keeps (cut m d o fuel cmd target w)
    unfolding cut
    cut-Keeps cmd target w h =
        convert-Keeps (bytes "ffmpeg cut failed: ")
          (bytes "-i"
            ∷ resolve m d o fuel o.audio_dir cmd.source
            ∷ bytes "-ss"
            ∷ d.to_text cmd.start
            ∷ bytes "-to"
            ∷ d.to_text cmd.end
            ∷ [])
          target w h

    volume-Keeps :
        (cmd : EditCommand D) (target : Bytes) (w : W)
        → P w
        → Keeps (volume m d o fuel cmd target w)
    unfolding volume
    volume-Keeps cmd target w h =
        convert-Keeps (bytes "ffmpeg volume failed: ")
          (bytes "-i"
            ∷ resolve m d o fuel o.audio_dir cmd.source
            ∷ bytes "-af"
            ∷ (bytes "volume=" ++ d.to_text cmd.level)
            ∷ [])
          target w h

    normalize-Keeps :
        (cmd : EditCommand D) (target : Bytes) (w : W)
        → P w
        → Keeps (normalize m d o fuel cmd target w)
    unfolding normalize
    normalize-Keeps cmd target w h =
        convert-Keeps (bytes "ffmpeg normalize failed: ")
          (bytes "-i"
            ∷ resolve m d o fuel o.audio_dir cmd.source
            ∷ bytes "-af"
            ∷ bytes "loudnorm"
            ∷ [])
          target w h

    edit_of-Keeps : (type : Bytes) → Edits (edit_of m d o fuel type)
    unfolding edit_of
    edit_of-Keeps type = choose Edits (str_eq type (bytes "cut")) _ _ cut-Keeps (
        choose Edits (str_eq type (bytes "merge")) _ _ merge-Keeps (
          choose Edits (str_eq type (bytes "silence")) _ _ silence-Keeps (
            choose Edits (str_eq type (bytes "delete")) _ _ delete-Keeps (
              choose Edits (str_eq type (bytes "speed")) _ _ speed-Keeps (
                choose Edits (str_eq type (bytes "fade")) _ _ fade-Keeps (
                  choose Edits (str_eq type (bytes "volume")) _ _ volume-Keeps
                    (choose Edits (str_eq type (bytes "normalize")) _ _ normalize-Keeps tt)))))))

    pub execute_edit_command-Keeps :
        (cmd : EditCommand D) (w : W) → P w → Keeps (execute_edit_command m d o fuel cmd w)
    unfolding execute_edit_command
    execute_edit_command-Keeps cmd w h =
        run_edit (edit_of m d o fuel cmd.type) (edit_of-Keeps cmd.type)
      where
        target : Bytes
        target = resolve m d o fuel o.output_dir cmd.output

        run_edit :
            (e : Option (EditCommand D → Bytes → W → Option (Bytes × W)))
            → Edits e
            → Keeps (elim e [
              | none ↦ some (bytes "Unknown command type: " ++ cmd.type, w)
              | some edit ↦
                  if not o.overwrite && m.exists w target then some (skip, w) else edit cmd target w
            ])
        run_edit none k = h
        run_edit (some edit) k =
            choose (Gives (Holds m P)) (not o.overwrite && m.exists w target) _ _ h
              (k cmd target w h)
