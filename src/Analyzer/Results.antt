-- ===== src/Analyzer/Results.antt =====
-- The results of LlmTextAnalyzerNode in the context (plugins/llm_text_analyzer_plugin.cpp).
use cpp20_workflow_engine.Shared.{
  ℕ, Bool, true, false, ◌+◌, ◌^◌, ◌<◌, ◌≡◌, refl, ap, ◌∙◌, [], not, ◌||◌, none, some, Option, List,
  length, arith, ◌==◌, if◌then◌else◌, Bytes, bytes, str_eq,
}
use cpp20_workflow_engine.Shared.Int.{pos}
use cpp20_workflow_engine.Context.{Context, set, get_int64, get_text, ctx_set_string, ctx_set_int64}
use cpp20_workflow_engine.Analyzer.Text.{replace_all}
use cpp20_workflow_engine.Analyzer.Settings.{Settings, ◌>>=◌}
use cpp20_workflow_engine.Analyzer.Session.{System, Totals, ask}
use cpp20_workflow_engine.Analyzer.Workers.{all_gone, Pool, start, work}
use cpp20_workflow_engine.Analyzer.Totals.{
  IsSame, IsSame-refl, Gives, Gives-any, Gives-bind, Gives-some, choose, ask-Keeps,
}
use cpp20_workflow_engine.Analyzer.Shares.{work-all_gone}
use cpp20_workflow_engine.Analyzer.Node.{
  is_empty, text_at, int_at, status_of, lines, merge_outputs, all_results, write_results,
  analyse_all,
}

-- The status of a run with these counts of analyzed and failed files.
abbrev pub status_for : ℕ → ℕ → Bytes
status_for analyzed failed =
    if analyzed == 0
    then bytes "failed"
    else if failed == 0
    then bytes "success"
    else bytes "partial"

-- The context has the counters `t` of `total` files and their status.
abbrev pub Shows : {D : Type 0} → ℕ → Totals → Option (Context D) → Type 0
Shows total t none = ⊥
Shows total t (some c) =
    (get_int64 (bytes "llm_total_found") c ≡ some (pos total))
    × (get_int64 (bytes "llm_analyzed_count") c ≡ some (pos t.analyzed))
    × (get_int64 (bytes "llm_failed_count") c ≡ some (pos t.failed))
    × (get_int64 (bytes "llm_skipped_count") c ≡ some (pos t.skipped))
    × (get_text (bytes "llm_status") c ≡ some (status_for t.analyzed t.failed))

status_of_lem : (t : Totals) → status_of t ≡ status_for t.analyzed t.failed
unfolding status_of
status_of_lem t = ground arith

Gives-self : {A : Type 0} (m : Option A) → Gives (λ a. m ≡ some a) m
Gives-self none = tt
Gives-self (some a) = refl

Gives-only :
    {A : Type 0} (b : Bool) (a : A) → Gives (λ x. (x ≡ a) × (b ≡ true)) (if b then some a else none)
Gives-only true a = (refl, refl)
Gives-only false a = tt

module _ {W D : Type 0} (sys : System W) (fuel : ℕ) (st : Settings) where
  write_results-Shows :
      (total : ℕ) (t : Totals) (c : Context D)
      → Shows total t (write_results sys st total t (some c))
  unfolding write_results text_at int_at set get_int64 get_text ctx_set_string ctx_set_int64 str_eq
  write_results-Shows total t c = (refl, refl, refl, refl, ap some (status_of_lem t))

  -- The merging leaves a context, and changes no counter of files.
  abbrev Merged : Totals → Option (Context D) × Totals × W → Type 0
  Merged t (ctx, t', w) = ((c : Context D) × (ctx ≡ some c)) × IsSame t t'

  merge_outputs-Merged :
      (c : Context D) (t : Totals) (w : W)
      → Gives (Merged t) (merge_outputs sys st fuel (some c) t w)
  unfolding merge_outputs text_at ctx_set_string
  merge_outputs-Merged c t w =
      choose (Gives (Merged t)) (not st.merge || is_empty t.output_files) (some (some c, t, w)) _
        ((c, refl), IsSame-refl t)
        (Gives-bind (λ a. Unit {0}) (Merged t)
          (replace_all fuel st.merge_prompt (bytes "{all_results}")
            (all_results sys w t.output_files))
          _
          (Gives-any (
            replace_all fuel st.merge_prompt (bytes "{all_results}")
              (all_results sys w t.output_files)))
          (λ merge_user u.
            Gives-bind (λ r. IsSame t r.1) (Merged t) (ask sys st fuel merge_user t w) _
              (ask-Keeps sys st fuel merge_user t w)
              (λ (reply, asked, w1) same.
                (choose (λ o. (d : Context D) × (o ≡ some d)) _ _ _ (_, refl) (c, refl), same))))

  -- The context shows `total` files and the counters and outputs of `p`, a run of the threads over the
  -- files from the world `w`, all of which have ended; the counters add up.
  abbrev pub ShowsRun : List Bytes → List ℕ → W → Option (Context D) → Type 0
  ShowsRun input_files moves w out =
      (p : Pool W) × (work sys st fuel input_files moves (start sys st fuel input_files w) ≡ some p)
      × (all_gone p.workers ≡ true)
      × Shows (length input_files) p.totals out
      × ((c : Context D) × (out ≡ some c)
          × (get_text (bytes "llm_output_files") c ≡ some (lines [] p.totals.output_files)))
      × (p.totals.analyzed + p.totals.failed + p.totals.skipped ≡ length input_files)

  Shows-same :
      (total : ℕ) (t t' : Totals) (c : Context D)
      → IsSame t t'
      → Shows total t (write_results sys st total t' (some c))
        × ((e : Context D) × (write_results sys st total t' (some c) ≡ some e)
            × (get_text (bytes "llm_output_files") e ≡ some (lines [] t.output_files)))
  unfolding write_results text_at int_at set get_text ctx_set_string ctx_set_int64 str_eq
  Shows-same total t t' c (p, q, r, s) =
      let (a, b, f, k, status) = write_results-Shows total t' c in
      (
        (
          a,
          b ∙ ap (λ n. some (pos n)) p,
          f ∙ ap (λ n. some (pos n)) q,
          k ∙ ap (λ n. some (pos n)) r,
          status
              ∙ ap some (ap (λ n. status_for n t'.failed) p ∙ ap (λ n. status_for t.analyzed n) q),
        ),
        (_, refl, ap (λ fs. some (lines [] fs)) s),
      )

  abbrev Reports : List Bytes → List ℕ → W → Option (Context D) × W → Type 0
  Reports input_files moves w (out, w') = ShowsRun input_files moves w out

  merged-Reports :
      (input_files : List Bytes) (moves : List ℕ) (w : W) (c : Context D) (p : Pool W)
      → length input_files < 2 ^ 63
      → work sys st fuel input_files moves (start sys st fuel input_files w) ≡ some p
      → all_gone p.workers ≡ true
      → Gives (Reports input_files moves w) (do
        (merged, totals, w2) ← merge_outputs sys st fuel (some c) p.totals p.world
        some (write_results sys st (length input_files) totals merged, w2))
  merged-Reports input_files moves w c p small e gone =
      let (once, all, sum, outputs) =
        work-all_gone sys st fuel input_files moves w p small e gone in
      Gives-bind (Merged p.totals) (Reports input_files moves w)
        (merge_outputs sys st fuel (some c) p.totals p.world) _
        (merge_outputs-Merged c p.totals p.world)
        (λ (merged, t', w2) ((d, is_d), same).
          let (shows, listed) = Shows-same (length input_files) p.totals t' d same in
          rw is_d (p, e, gone, shows, listed, sum))

  analysed-Reports :
      (input_files : List Bytes) (moves : List ℕ) (ctx : Context D) (w : W)
      → length input_files < 2 ^ 63
      → (sys.create_directories w st.output_dir).0 ≡ none
      → Gives
          (Reports input_files moves (sys.create_directories w st.output_dir).1)
          (analyse_all sys fuel moves st input_files ctx w)
  unfolding analyse_all int_at ctx_set_int64
  analysed-Reports input_files moves ctx w small made =
      let w1 = (sys.create_directories w st.output_dir).1 in
      let started = start sys st fuel input_files w1 in
      let ok = Reports input_files moves w1 in
      rw (made, analyse_all)
        (Gives-bind (λ p. work sys st fuel input_files moves started ≡ some p) ok
          (work sys st fuel input_files moves started) _
          (Gives-self (work sys st fuel input_files moves started))
          (λ pool e.
            Gives-bind (λ joined. (joined ≡ pool) × (all_gone pool.workers ≡ true)) ok
              (if all_gone pool.workers then some pool else none) _
              (Gives-only (all_gone pool.workers) pool)
              (λ joined (same, gone).
                merged-Reports input_files moves w1 _ joined small (rw same e) (rw same gone))))

  -- When the output directory can be created and the execution returns, there is a run of the threads
  -- over the files, fewer than 2^63, from what that creation left, in which all threads have ended and
  -- every file has been counted once, as analyzed, failed or skipped; and the context has the number of
  -- the files, the counters and the list of outputs of that run, and the status that fits them.
  pub analyse_all-ShowsRun :
      (input_files : List Bytes) (moves : List ℕ) (ctx : Context D) (w w' : W)
      (out : Option (Context D))
      → length input_files < 2 ^ 63
      → (sys.create_directories w st.output_dir).0 ≡ none
      → analyse_all sys fuel moves st input_files ctx w ≡ some (out, w')
      → ShowsRun input_files moves (sys.create_directories w st.output_dir).1 out
  analyse_all-ShowsRun input_files moves ctx w w' out small made e =
      Gives-some (Reports input_files moves (sys.create_directories w st.output_dir).1)
        (analyse_all sys fuel moves st input_files ctx w)
        (analysed-Reports input_files moves ctx w small made) e
