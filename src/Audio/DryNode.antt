-- ===== src/Audio/DryNode.antt =====
-- A dry run of LlmAudioEditorNode after the reading of its parameters
-- (plugins/llm_audio_editor_plugin.cpp).
use cpp20_workflow_engine.Shared.{
  ℕ, ◌≡◌, refl, inr, true, none, some, Option, List, [], ◌∷◌, ◌++◌, Bytes, bytes,
}
use cpp20_workflow_engine.Shared.Int.{is_pos}
use cpp20_workflow_engine.Context.{Context}
use cpp20_workflow_engine.Analyzer.Settings.{◌>>=◌}
use cpp20_workflow_engine.Analyzer.Totals.{Gives, Gives-any, Gives-bind, Gives-some, choose}
use cpp20_workflow_engine.Audio.Commands.{EditCommand}
use cpp20_workflow_engine.Audio.Process.{Doubles, Machine}
use cpp20_workflow_engine.Audio.Pool.{Pool, all_gone, start}
use cpp20_workflow_engine.Audio.Node.{
  Folders, Settings, fail_with, collect, parse_files, execute_all, edit_all,
}
use cpp20_workflow_engine.Audio.Process.Keeps.{run_command-Keeps}
use cpp20_workflow_engine.Audio.Trace.{
  Call, started, created, traced, All, All-snoc, IsHarmless, Harmless, dry-Calls, dry-Concats,
}
use cpp20_workflow_engine.Audio.DryRun.{work-Keeps}

-- The folders with the list of the calls; the creation of a directory is one.
abbrev pub traced_folders : {W : Type 0} → Folders W → Folders (W × List Call)
traced_folders files = record {
  create_directories = λ (w, log) dir.
      let (failed, w') = files.create_directories w dir in (failed, (w', log ++ created dir ∷ []));
  is_file = λ (w, log) path. files.is_file w path;
  is_directory = λ (w, log) path. files.is_directory w path;
  entries = λ (w, log) recursive dir. files.entries w recursive dir;
  contents = λ (w, log) path. files.contents w path;
  extension = files.extension;
  sort = files.sort;
}

module _ {W D : Type 0} (m : Machine W) (d : Doubles D) (files : Folders W) (fuel : ℕ)
    (moves : List ℕ) (st : Settings) (dry : st.options.dry_run ≡ true) where
  abbrev AllHarmless : {A : Type 0} → A × (W × List Call) → Type 0
  AllHarmless (a, w) = Harmless m st.options w

  execute_all-AllHarmless :
      (cmds : List (List (EditCommand D))) (ctx : Context D) (w : W × List Call)
      → Harmless m st.options w
      → Gives AllHarmless (execute_all (traced m) d (traced_folders files) fuel moves st cmds ctx w)
  unfolding execute_all start
  execute_all-AllHarmless cmds ctx w h =
      let P = Harmless m st.options in
      let Kept = λ (p : Pool (W × List Call) D). P p.world in
      Gives-bind Kept AllHarmless _ _
        (work-Keeps (traced m) d st.options st.parallel fuel cmds P (dry-Calls m st.options dry)
          (dry-Concats m st.options d fuel dry) moves _ h)
        (λ pool k.
          Gives-bind Kept AllHarmless _ _
            (choose (Gives Kept) (all_gone pool.workers) (some pool) none k tt) (λ joined j. j))

  collected-AllHarmless :
      (o : Option (List Bytes)) (ctx : Context D) (w : W × List Call)
      → Harmless m st.options w
      → Gives {A = Option (Context D) × (W × List Call)} AllHarmless (elim o [
        | none ↦ some (fail_with (bytes "input_path not found: " ++ st.input_path) (some ctx), w)
        | some instr_files ↦
            parse_files (traced_folders files) d fuel st.cmd_marker instr_files w >>= λ cmds.
            execute_all (traced m) d (traced_folders files) fuel moves st cmds ctx w
      ])
  collected-AllHarmless none ctx w h = h
  collected-AllHarmless (some instr_files) ctx w h =
      Gives-bind (λ a. Unit {0}) AllHarmless _ _
        (Gives-any (parse_files (traced_folders files) d fuel st.cmd_marker instr_files w))
        (λ cmds u. execute_all-AllHarmless cmds ctx w h)

  edit_all-AllHarmless :
      (ctx : Context D) (w : W × List Call)
      → Harmless m st.options w
      → Gives AllHarmless (edit_all (traced m) d (traced_folders files) fuel moves st ctx w)
  unfolding edit_all
  edit_all-AllHarmless ctx w h =
      let version = st.options.ffmpeg ∷ bytes "-version" ∷ [] in
      Gives-bind AllHarmless AllHarmless _ _
        (run_command-Keeps (traced m) (Harmless m st.options) (dry-Calls m st.options dry).watches
          fuel version 10 w
          (λ v k. All-snoc (IsHarmless m st.options) v.1 (started version) k (inr refl)) h)
        (λ (res, w1) k.
          let made =
            All-snoc (IsHarmless m st.options) w1.1 (created st.options.output_dir) k refl in
          let w2 : W × List Call = (
            (files.create_directories w1.0 st.options.output_dir).1,
            w1.1 ++ created st.options.output_dir ∷ [],
          ) in
          choose (Gives AllHarmless) (is_pos 0 res.exit_code) _ _
            (choose (Gives AllHarmless) (files.create_directories w1.0 st.options.output_dir).0 _ _
              made (collected-AllHarmless (collect (traced_folders files) st w2) ctx w2 made))
            k)

  -- A dry run, from the reading of the parameters on and however its threads interleave, has started no
  -- program but ffprobe and `ffmpeg -version`, has created no directory but that of the outputs, and has
  -- written and removed temporary files only.
  pub edit_all-dry_run :
      (ctx : Context D) (w w' : W) (log : List Call) (out : Option (Context D))
      → edit_all (traced m) d (traced_folders files) fuel moves st ctx (w, [])
        ≡ some (out, (w', log))
      → All (IsHarmless m st.options) log
  edit_all-dry_run ctx w w' log out e =
      Gives-some AllHarmless
        (edit_all (traced m) d (traced_folders files) fuel moves st ctx (w, []))
        (edit_all-AllHarmless ctx (w, []) tt) e
