-- ===== src/Analyzer/Placed.antt =====
-- The outputs that LlmTextAnalyzerNode writes and renames (plugins/llm_text_analyzer_plugin.cpp).
use cpp20_workflow_engine.Shared.{
  ℕ, suc, ◌+◌, ◌^◌, ◌<◌, ◌≡◌, inl, inr, refl, ap, true, not, ◌&&◌, Option, none, some, Option-cases,
  List, [], ◌∷◌, ◌++◌, length, arith, ◌==◌, if◌then◌else◌, Bytes, bytes, str_eq_refl,
}
use cpp20_workflow_engine.Shared.Int.{is_pos}
use cpp20_workflow_engine.Segments.{split_text}
use cpp20_workflow_engine.Analyzer.Text.{replace_all}
use cpp20_workflow_engine.Analyzer.Http.{HttpResponse}
use cpp20_workflow_engine.Analyzer.Settings.{Settings, ◌>>=◌}
use cpp20_workflow_engine.Analyzer.Session.{
  System, Totals, actual_endpoint, extra_headers, request_body, size_of_limit, ask, call_llm,
  call_segments, analyse,
}
use cpp20_workflow_engine.Analyzer.Files.{count_failed, out_file, save, process_file}
use cpp20_workflow_engine.Analyzer.Workers.{get_elem?, Pool, all_gone, start, advance, work}
use cpp20_workflow_engine.Analyzer.Totals.{Gives, Gives-any, Gives-bind, Gives-some, choose}
use cpp20_workflow_engine.Analyzer.Tally.{times}
use cpp20_workflow_engine.Analyzer.Traced.{Trace, traced, post-Kept}
use cpp20_workflow_engine.Analyzer.Shares.{Worker-cases, work-all_gone}

module _ {W : Type 0} (sys : System W) (st : Settings) (fuel : ℕ) where
  -- The outputs that are counted are the files that have been placed.
  abbrev AllPlaced : {A : Type 0} → A × Totals × (W × Trace) → Type 0
  AllPlaced (a, t, w) = t.output_files ≡ w.1.placed

  ask-AllPlaced :
      (user_prompt : Bytes) (t : Totals) (w : W × Trace)
      → t.output_files ≡ w.1.placed
      → Gives AllPlaced (ask (traced sys) st fuel user_prompt t w)
  unfolding ask
  ask-AllPlaced user_prompt t w h =
      Gives-bind (λ (r : HttpResponse × (W × Trace)). t.output_files ≡ (r.1).1.placed) AllPlaced _ _
        (post-Kept (λ (w' : W × Trace). t.output_files ≡ w'.1.placed) sys.stoi sys.stoul fuel
          (traced sys).exchange w (actual_endpoint st) (extra_headers st)
          (request_body st user_prompt) st.timeout_s
          (λ target request. elim (Option-cases (sys.exchange w.0 target st.timeout_s request)) [
            | inl e ↦ rw e tt
            | inr (r, e) ↦ rw e h
          ])
          h)
        (λ (resp, after) k. choose AllPlaced (is_pos 200 resp.status_code) _ _ k k)

  call_llm-AllPlaced :
      (content filename : Bytes) (t : Totals) (w : W × Trace)
      → t.output_files ≡ w.1.placed
      → Gives AllPlaced (call_llm (traced sys) st fuel content filename t w)
  unfolding call_llm
  call_llm-AllPlaced content filename t w h =
      Gives-bind (λ a. Unit {0}) AllPlaced _ _
        (Gives-any (replace_all fuel st.user_tmpl (bytes "{content}") content))
        (λ with_content u.
          Gives-bind (λ a. Unit {0}) AllPlaced _ _
            (Gives-any (replace_all fuel with_content (bytes "{filename}") filename))
            (λ user_prompt v. ask-AllPlaced user_prompt t w h))

  call_segments-AllPlaced :
      (segments : List Bytes) (filename : Bytes) (i : ℕ) (t : Totals) (w : W × Trace)
      → t.output_files ≡ w.1.placed
      → Gives AllPlaced (call_segments (traced sys) st fuel segments filename i t w)
  unfolding call_segments
  call_segments-AllPlaced [] filename i t w h = h
  call_segments-AllPlaced (segment ∷ segments) filename i t w h =
      Gives-bind AllPlaced AllPlaced _ _ (call_llm-AllPlaced segment filename t w h)
        (λ (r, t', w') k.
          Gives-bind AllPlaced AllPlaced _ _
            (choose (Gives AllPlaced) (length r == 0) (some (none, t', w'))
              (call_segments (traced sys) st fuel segments filename (suc i) t' w') k
              (call_segments-AllPlaced segments filename (suc i) t' w' k))
            (λ (rest, t'', w'') j. j))

  merging-AllPlaced :
      (filename : Bytes) (all : Option Bytes) (t : Totals) (w : W × Trace)
      → t.output_files ≡ w.1.placed
      → Gives AllPlaced (elim all [
        | none ↦ some ([], t, w)
        | some all_segs ↦ do
          (merged, t'', w'') ← call_llm (traced sys) st fuel all_segs filename t w
          some (if length merged == 0 then all_segs else merged, t'', w'')
      ])
  merging-AllPlaced filename none t w h = h
  merging-AllPlaced filename (some all_segs) t w h =
      Gives-bind AllPlaced AllPlaced _ _ (call_llm-AllPlaced all_segs filename t w h)
        (λ (merged, t'', w'') k. k)

  analyse-AllPlaced :
      (content filename : Bytes) (t : Totals) (w : W × Trace)
      → t.output_files ≡ w.1.placed
      → Gives AllPlaced (analyse (traced sys) st fuel content filename t w)
  unfolding analyse
  analyse-AllPlaced content filename t w h =
      Gives-bind (λ a. Unit {0}) AllPlaced _ _
        (Gives-any (split_text (size_of_limit st.max_input_chars) content))
        (λ segments u.
          choose (Gives AllPlaced) (length segments == 1)
            (call_llm (traced sys) st fuel content filename t w) _
            (call_llm-AllPlaced content filename t w h)
            (Gives-bind AllPlaced AllPlaced _ _ (call_segments-AllPlaced segments filename 0 t w h)
              (λ (all, t', w') k. merging-AllPlaced filename all t' w' k)))

  abbrev Written : Totals × (W × Trace) → Type 0
  Written (t, w) = t.output_files ≡ w.1.placed

  save-Written :
      (target filename analysis_result : Bytes) (t : Totals) (w : W × Trace)
      → t.output_files ≡ w.1.placed
      → Written (save (traced sys) st target filename analysis_result t w)
  unfolding save
  save-Written target filename analysis_result t w h =
      ground (arith, str_eq_refl (target ++ bytes ".tmp"), ap (λ fs. fs ++ target ∷ []) h)

  reading-Written :
      (file_path : Bytes) (t : Totals) (w : W × Trace) (o : Option Bytes)
      → t.output_files ≡ w.1.placed
      → Gives Written (elim o [
        | none ↦ some (count_failed t, w)
        | some content ↦ do
          let read = record t { input_chars = t.input_chars + length content }
          (result, t', w') ← analyse (traced sys) st fuel content (sys.filename file_path) read w
          some (
              if length result == 0
              then (count_failed t', w')
              else save
                  (traced sys)
                  st
                  (out_file (traced sys) st file_path)
                  (sys.filename file_path)
                  result
                  t'
                  w')
      ])
  reading-Written file_path t w none h = h
  reading-Written file_path t w (some content) h =
      let read = record t { input_chars = t.input_chars + length content } in
      let target = out_file (traced sys) st file_path in
      Gives-bind AllPlaced Written _ _ (analyse-AllPlaced content (sys.filename file_path) read w h)
        (λ (result, t', w') k.
          choose Written (length result == 0) (count_failed t', w') _ k
            (save-Written target (sys.filename file_path) result t' w' k))

  process_file-Written :
      (file_path : Bytes) (t : Totals) (w : W × Trace)
      → t.output_files ≡ w.1.placed
      → Gives Written (process_file (traced sys) st fuel file_path t w)
  unfolding process_file
  process_file-Written file_path t w h =
      choose (Gives Written)
        (not st.overwrite && sys.exists w.0 (out_file (traced sys) st file_path)) _ _ h
        (reading-Written file_path t w (sys.read w.0 file_path) h)

  module _ (input_files : List Bytes) where
    abbrev Outputs : Pool (W × Trace) → Type 0
    Outputs p = p.totals.output_files ≡ p.world.1.placed

    advance-Outputs :
        (k : ℕ) (p : Pool (W × Trace))
        → Outputs p
        → Gives Outputs (advance (traced sys) st fuel input_files k p)
    unfolding advance
    advance-Outputs k p h = elim (Worker-cases (get_elem? k p.workers)) [
      | inl e ↦ rw (advance, e) h
      | inr (inl e) ↦ rw (advance, e) h
      | inr (inr (inl e)) ↦ rw (advance, e) h
      | inr (inr (inr (i, e))) ↦
          rw (advance, e)
            (Gives-bind (λ a. Unit {0}) Outputs _ _ (Gives-any (get_elem? i input_files))
              (λ file_path u.
                Gives-bind Written Outputs _ _ (process_file-Written file_path p.totals p.world h)
                  (λ (t, w) k'. k')))
    ]

    work-Outputs :
        (moves : List ℕ) (p : Pool (W × Trace))
        → Outputs p
        → Gives Outputs (work (traced sys) st fuel input_files moves p)
    unfolding work
    work-Outputs [] p h = h
    work-Outputs (k ∷ moves) p h =
        Gives-bind Outputs Outputs _ _ (advance-Outputs k p h) (λ q h'. work-Outputs moves q h')

    -- However the threads interleave, when all have ended each file has been processed exactly once and
    -- has been counted as analyzed, failed or skipped, and the list of outputs has one for each analyzed
    -- file and is the list of the files that have been placed, each opened, written and renamed to its
    -- name, if there are fewer than 2^63 files.
    pub work-places :
        (moves : List ℕ) (w : W) (p : Pool (W × Trace))
        → length input_files < 2 ^ 63
        → work
            (traced sys)
            st
            fuel
            input_files
            moves
            (start (traced sys) st fuel input_files (w, record { written = none; placed = [] }))
          ≡ some p
        → all_gone p.workers ≡ true
        → ((i : ℕ) → i < length input_files → times i p.processed ≡ 1)
          × (p.totals.analyzed + p.totals.failed + p.totals.skipped ≡ length input_files)
          × (length p.totals.output_files ≡ p.totals.analyzed)
          × (p.totals.output_files ≡ p.world.1.placed)
    unfolding start
    work-places moves w p small e gone =
        let (once, all, sum, outputs) =
          work-all_gone (traced sys) st fuel input_files moves
            (w, record { written = none; placed = [] }) p small e gone in
        (once, sum, outputs, Gives-some Outputs _ (work-Outputs moves _ refl) e)
