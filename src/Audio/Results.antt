-- ===== src/Audio/Results.antt =====
-- The results of LlmAudioEditorNode in the context (plugins/llm_audio_editor_plugin.cpp).
use cpp20_workflow_engine.Shared.{
  ℕ, true, ◌+◌, ◌^◌, ◌<◌, ◌≡◌, refl, ap, inl, inr, none, some, Option, Option-cases, Bool-cases,
  List, length, arith, ◌==◌, if◌then◌else◌, Bytes, bytes, str_eq,
}
use cpp20_workflow_engine.Shared.Int.{pos}
use cpp20_workflow_engine.Context.{
  Context, set, get_int64, get_text, ctx_set_string, ctx_set_int64, ctx_set_double,
}
use cpp20_workflow_engine.Analyzer.Totals.{Gives, Gives-some}
use cpp20_workflow_engine.Analyzer.Node.{text_at, int_at}
use cpp20_workflow_engine.Audio.Commands.{EditCommand}
use cpp20_workflow_engine.Audio.Process.{Doubles, Machine}
use cpp20_workflow_engine.Audio.Pool.{Pool, Totals, total_of, all_gone, start, work}
use cpp20_workflow_engine.Audio.Work.{work-all_executed}
use cpp20_workflow_engine.Audio.Answers.{Counts, work-answers}
use cpp20_workflow_engine.Audio.Node.{Folders, Settings, status_of, write_results, execute_all}

-- The context has the counters `t` of `total` commands and their status.
abbrev pub Shows : {D : Type 0} → ℕ → Totals D → Option (Context D) → Type 0
Shows total t none = ⊥
Shows total t (some c) =
    (get_int64 (bytes "aed_total_commands") c ≡ some (pos total))
    × (get_int64 (bytes "aed_executed_count") c ≡ some (pos t.executed))
    × (get_int64 (bytes "aed_failed_count") c ≡ some (pos t.failed))
    × (get_int64 (bytes "aed_skipped_count") c ≡ some (pos t.skipped))
    × (get_text (bytes "aed_status") c
        ≡ some (
            if t.failed == 0
            then bytes "success"
            else if t.executed == 0
            then bytes "failed"
            else bytes "partial"))

status_of_lem :
    (ec fc : ℕ)
    → status_of ec fc
      ≡ (if fc == 0 then bytes "success" else if ec == 0 then bytes "failed" else bytes "partial")
unfolding status_of
status_of_lem ec fc = ground arith

module _ {W D : Type 0} (m : Machine W) (d : Doubles D) (folders : Folders W) where
  write_results-Shows :
      (output_dir : Bytes) (total : ℕ) (t : Totals D) (c : Context D)
      → Shows total t (write_results m d folders output_dir total t (some c))
  unfolding write_results text_at int_at set get_int64 get_text ctx_set_string ctx_set_int64
      ctx_set_double str_eq
  write_results-Shows output_dir total t c =
      (refl, refl, refl, refl, ap some (status_of_lem t.executed t.failed))

  -- The context shows the commands of the files and the counters of `p`, a run of the threads over the
  -- files from the world `w`, all of which have ended; the counters are those of the answers to the
  -- commands, and add up.
  abbrev pub ShowsRun :
      ℕ → List ℕ → Settings → List (List (EditCommand D)) → W → Option (Context D) → Type 0
  ShowsRun fuel moves st files w out =
      (p : Pool W D) × (work m d st.options st.parallel fuel files moves
          (start m d st.options st.parallel fuel files w)
        ≡ some p)
      × (all_gone p.workers ≡ true)
      × Counts m d st.options st.parallel fuel files p
      × Shows (total_of files) p.totals out
      × (p.totals.executed + p.totals.failed + p.totals.skipped ≡ total_of files)

  abbrev Reports :
      ℕ → List ℕ → Settings → List (List (EditCommand D)) → W → Option (Context D) × W → Type 0
  Reports fuel moves st files w (out, w') = ShowsRun fuel moves st files w out

  execute_all-Reports :
      (fuel : ℕ) (moves : List ℕ) (st : Settings) (files : List (List (EditCommand D)))
      (ctx : Context D) (w : W)
      → length files < 2 ^ 63
      → Gives (Reports fuel moves st files w) (execute_all m d folders fuel moves st files ctx w)
  unfolding execute_all
  execute_all-Reports fuel moves st files ctx w small =
      let begun = start m d st.options st.parallel fuel files w in
      elim (Option-cases (work m d st.options st.parallel fuel files moves begun)) [
        | inl f ↦ rw (execute_all, f) tt
        | inr (p, f) ↦ elim (Bool-cases (all_gone p.workers)) [
          | inr g ↦ rw (execute_all, f, g) tt
          | inl g ↦
              let (order, all, sum) =
                work-all_executed m d st.options st.parallel fuel files moves w p small f g in
              rw (execute_all, f, g)
                (
                  p,
                  f,
                  g,
                  work-answers m d st.options st.parallel fuel files moves w p f,
                  write_results-Shows st.options.output_dir (total_of files) p.totals ctx,
                  sum,
                )
        ]
      ]

  -- When the execution returns, there is a run of the threads over the files, fewer than 2^63, in which
  -- all threads have ended, every command has been executed and answered, and counted as executed for
  -- the empty answer, as skipped for the answer that says so, and as failed for any other; and the
  -- context has the number of the commands, the counters of that run, which add up to it, and the
  -- status: "success" when none failed, "failed" when some failed and none was executed, else "partial".
  pub execute_all-ShowsRun :
      (fuel : ℕ) (moves : List ℕ) (st : Settings) (files : List (List (EditCommand D)))
      (ctx : Context D) (w w' : W) (out : Option (Context D))
      → length files < 2 ^ 63
      → execute_all m d folders fuel moves st files ctx w ≡ some (out, w')
      → ShowsRun fuel moves st files w out
  execute_all-ShowsRun fuel moves st files ctx w w' out small e =
      Gives-some (Reports fuel moves st files w) _
        (execute_all-Reports fuel moves st files ctx w small) e
