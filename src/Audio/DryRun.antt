-- ===== src/Audio/DryRun.antt =====
-- A dry run of LlmAudioEditorNode over all files (plugins/llm_audio_editor_plugin.cpp).
use cpp20_workflow_engine.Shared.{
  ℕ, ◌+◌, ◌≡◌, true, not, ◌||◌, some, Option-cases, inl, inr, List, [], ◌∷◌, length, ◌==◌, ltb,
  str_eq,
}
use cpp20_workflow_engine.Shared.Int.{ℤ}
use cpp20_workflow_engine.Analyzer.Totals.{Gives, Gives-bind, Gives-some, choose}
use cpp20_workflow_engine.Analyzer.Workers.{get_elem?}
use cpp20_workflow_engine.Audio.Commands.{EditCommand}
use cpp20_workflow_engine.Audio.Process.{Doubles, Machine}
use cpp20_workflow_engine.Audio.Edit.{Options, skip}
use cpp20_workflow_engine.Audio.Pool.{
  Pool, Totals, has_slash, track, perform, start, take_file, advance, work,
}
use cpp20_workflow_engine.Audio.Process.Keeps.{Holds, get_audio_duration-Keeps}
use cpp20_workflow_engine.Audio.Keeps.{Calls, Concats, execute_edit_command-Keeps}
use cpp20_workflow_engine.Audio.Trace.{
  Call, traced, All, IsHarmless, Harmless, dry-Calls, dry-Concats,
}
use cpp20_workflow_engine.Audio.Work.{Worker-cases}

-- What the calls of the machine keep, all threads keep.
module _ {W D : Type 0} (m : Machine W) (d : Doubles D) (o : Options) (parallel : ℤ) (fuel : ℕ)
    (files : List (List (EditCommand D))) (P : W → Type 0) (calls : Calls m o P)
    (concats : Concats m d o fuel P calls) where
  track-Keeps :
      (cmd : EditCommand D) (t : Totals D) (w : W)
      → P w
      → Gives (Holds m P) (track m d o parallel fuel files cmd t w)
  unfolding track
  track-Keeps cmd t w h =
      choose (Gives (Holds m P))
        (has_slash cmd.output || not (m.exists w (m.within o.output_dir cmd.output))) _ _ h
        (Gives-bind (Holds m P) (Holds m P) _ _
          (get_audio_duration-Keeps m P calls.watches d fuel o.ffprobe
            (m.within o.output_dir cmd.output) w calls.on_probe h)
          (λ (dur, w') h'. h'))

  perform-Keeps :
      (cmd : EditCommand D) (t : Totals D) (w : W)
      → P w
      → Gives (Holds m P) (perform m d o parallel fuel files cmd t w)
  unfolding perform
  perform-Keeps cmd t w h =
      Gives-bind (Holds m P) (Holds m P) _ _
        (execute_edit_command-Keeps m d o fuel P calls concats cmd w h)
        (λ (answer, w') h'. choose (Gives (Holds m P)) (str_eq answer skip) _ _ h' (
          choose (Gives (Holds m P)) (length answer == 0) _ _
            (track-Keeps cmd (record t { executed = t.executed + 1 }) w' h') h'))

  abbrev Kept : Pool W D → Type 0
  Kept p = P p.world

  take_file-Keeps :
      (k : ℕ) (p : Pool W D) → Kept p → Gives Kept (take_file m d o parallel fuel files k p)
  unfolding take_file
  take_file-Keeps k p h = elim (Option-cases (get_elem? p.file_idx files)) [
    | inl e ↦ rw e (choose (Gives Kept) (ltb p.file_idx (length files)) _ _ tt h)
    | inr (cmds, e) ↦ rw e (choose (Gives Kept) (ltb p.file_idx (length files)) _ _ h h)
  ]

  advance-Keeps :
      (k : ℕ) (p : Pool W D) → Kept p → Gives Kept (advance m d o parallel fuel files k p)
  unfolding advance
  advance-Keeps k p h = elim (Worker-cases (get_elem? k p.workers)) [
    | inl e ↦ rw (advance, e) h
    | inr (inr (inl e)) ↦ rw (advance, e) h
    | inr (inl e) ↦ rw (advance, e) (take_file-Keeps k p h)
    | inr (inr (inr (inl (i, e)))) ↦ rw (advance, e) h
    | inr (inr (inr (inr (i, cmd, cmds, e)))) ↦
        rw (advance, e)
          (Gives-bind (Holds m P) Kept _ _ (perform-Keeps cmd p.totals p.world h) (λ (t, w) h'. h'))
  ]

  pub work-Keeps :
      (moves : List ℕ) (p : Pool W D) → Kept p → Gives Kept (work m d o parallel fuel files moves p)
  unfolding work
  work-Keeps [] p h = h
  work-Keeps (k ∷ moves) p h =
      Gives-bind Kept Kept _ _ (advance-Keeps k p h) (λ q after. work-Keeps moves q after)

module _ {W D : Type 0} (m : Machine W) (d : Doubles D) (o : Options) (parallel : ℤ) (fuel : ℕ)
    (files : List (List (EditCommand D))) where
  -- However the threads interleave, a dry run over all files has made harmless calls only, wherever the
  -- threads have got to.
  pub work-dry_run :
      (moves : List ℕ) (w : W) (p : Pool (W × List Call) D)
      → o.dry_run ≡ true
      → work
          (traced m)
          d
          o
          parallel
          fuel
          files
          moves
          (start (traced m) d o parallel fuel files (w, []))
        ≡ some p
      → All (IsHarmless m o) p.world.1
  unfolding start
  work-dry_run moves w p dry e =
      Gives-some (λ (q : Pool (W × List Call) D). Harmless m o q.world) _
        (work-Keeps (traced m) d o parallel fuel files (Harmless m o) (dry-Calls m o dry)
          (dry-Concats m o d fuel dry) moves _ tt)
        e
