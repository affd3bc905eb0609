-- ===== src/Analyzer/Node.antt =====
-- LlmTextAnalyzerNode::execute (plugins/llm_text_analyzer_plugin.cpp).
use cpp20_workflow_engine.Shared.{
  ℕ, Bool, true, false, not, ◌&&◌, ◌||◌, Option, none, some, List, [], ◌∷◌, ◌++◌, length, ltb, ◌==◌,
  if◌then◌else◌, Bytes, bytes, utf8, str_eq,
}
use cpp20_workflow_engine.Shared.Int.{ℤ, pos}
use cpp20_workflow_engine.Context.{Context, ctx_set_string, ctx_set_int64}
use cpp20_workflow_engine.Segments.{join}
use cpp20_workflow_engine.Analyzer.Text.{trim, replace_all}
use cpp20_workflow_engine.Analyzer.Settings.{Settings, ◌>>=◌, read_text, read_settings}
use cpp20_workflow_engine.Analyzer.Session.{System, Totals, ask}
use cpp20_workflow_engine.Analyzer.Workers.{all_gone, start, work}

-- `std::getline(iss, tok, ',')` until it fails: a last piece that is empty is not read.
unfoldable pub pieces : Bytes → List Bytes
pieces [] = []
pieces (c ∷ s) =
    let rest = pieces s in
    if c == b','
    then [] ∷ rest
    else elim rest [ [] ↦ (c ∷ []) ∷ [] | tok ∷ toks ↦ (c ∷ tok) ∷ toks ]

abbrev trimmed : List Bytes → List Bytes
unfolding trim
trimmed [] = []
trimmed (tok ∷ toks) =
    let rest = trimmed toks in if length (trim tok) == 0 then rest else trim tok ∷ rest

abbrev pub is_one_of : Bytes → List Bytes → Bool
unfolding str_eq
is_one_of s [] = false
is_one_of s (e ∷ es) = str_eq e s || is_one_of s es

abbrev pub is_empty : List Bytes → Bool
is_empty [] = true
is_empty (x ∷ xs) = false

unfoldable pub text_at : {D : Type 0} → Bytes → Bytes → Option (Context D) → Option (Context D)
unfolding ctx_set_string
text_at key value ctx = ctx_set_string (some key) (some value) ctx

unfoldable pub int_at : {D : Type 0} → Bytes → ℤ → Option (Context D) → Option (Context D)
unfolding ctx_set_int64
int_at key value ctx = ctx_set_int64 (some key) value ctx

unfoldable pub status_of : Totals → Bytes
status_of totals =
    let ac = totals.analyzed in
    let fc = totals.failed in
    if (fc == 0) && ltb 0 ac
    then bytes "success"
    else if ltb 0 ac && ltb 0 fc
    then bytes "partial"
    else bytes "failed"

-- `files_list`: the first file that is not the empty text has no line feed before it.
abbrev pub lines : Bytes → List Bytes → Bytes
lines files_list [] = files_list
lines files_list (f ∷ fs) = lines (if length files_list == 0 then f else files_list ++ 10 ∷ f) fs

module _ {W : Type 0} (sys : System W) where
  unfoldable match_ext : List Bytes → Bytes → Bool
  match_ext exts file = is_empty exts || is_one_of (sys.extension file) exts

  abbrev matching : List Bytes → List Bytes → List Bytes
  unfolding match_ext
  matching exts [] = []
  matching exts (file ∷ files) =
      let rest = matching exts files in if match_ext exts file then file ∷ rest else rest

  -- The input files in order; `none` when there is no such path.
  unfoldable collect : Settings → Bytes → W → Option (List Bytes)
  unfolding pieces
  collect st input_path w =
      let exts = trimmed (pieces st.file_exts) in
      if sys.is_file w input_path
      then some (sys.sort (matching exts (input_path ∷ [])))
      else if sys.is_directory w input_path
      then some (sys.sort (matching exts (sys.entries w st.recursive input_path)))
      else none

  abbrev pub all_results : W → List Bytes → Bytes
  all_results w [] = []
  all_results w (of ∷ ofs) =
      let rest = all_results w ofs in
      elim (sys.read w of) [
        | none ↦ rest
        | some content ↦
            join
              (bytes "=== " ∷ sys.filename of ∷ bytes " ===\n" ∷ content ∷ bytes "\n\n" ∷ rest ∷ [])
      ]

  -- The report over all results. The renaming is tried even if the file could not be opened.
  unfoldable pub merge_outputs :
      {D : Type 0}
      → Settings
      → ℕ
      → Option (Context D)
      → Totals
      → W
      → Option (Option (Context D) × Totals × W)
  unfolding ask replace_all
  merge_outputs st fuel ctx totals w =
      if not st.merge || is_empty totals.output_files then some (ctx, totals, w) else do
        let results = all_results w totals.output_files
        merge_user ← replace_all fuel st.merge_prompt (bytes "{all_results}") results
        (reply, asked, w1) ← ask sys st fuel merge_user totals w
        let merge_result : Bytes = if length reply == 0 then results else reply
        let mf = sys.within st.output_dir (bytes "_merged_report.md")
        let mf_tmp : Bytes = mf ++ bytes ".tmp"
        let report : Bytes = utf8 "# 综合分析报告\n\n" ++ (merge_result ++ bytes "\n")
        let (opened, w2) = sys.write w1 mf_tmp report
        let (renamed, w3) = sys.rename w2 mf_tmp mf
        some (if renamed then text_at (bytes "llm_merged_output_file") mf ctx else ctx, asked, w3)

  unfoldable pub write_results :
      {D : Type 0} → Settings → ℕ → Totals → Option (Context D) → Option (Context D)
  unfolding status_of
  write_results st total_found totals c0 =
      let c1 = int_at (bytes "llm_total_found") (pos total_found) c0 in
      let c2 = int_at (bytes "llm_analyzed_count") (pos totals.analyzed) c1 in
      let c3 = int_at (bytes "llm_failed_count") (pos totals.failed) c2 in
      let c4 = int_at (bytes "llm_skipped_count") (pos totals.skipped) c3 in
      let c5 = int_at (bytes "llm_total_input_chars") (pos totals.input_chars) c4 in
      let c6 = int_at (bytes "llm_total_output_chars") (pos totals.output_chars) c5 in
      let c7 = int_at (bytes "llm_total_tokens_used") totals.tokens c6 in
      let c8 = text_at (bytes "llm_output_path") st.output_dir c7 in
      let c9 = text_at (bytes "llm_output_files") (lines [] totals.output_files) c8 in
      text_at (bytes "llm_status") (status_of totals) c9

  abbrev pub fail_with : {D : Type 0} → Bytes → Option (Context D) → Option (Context D)
  fail_with message ctx =
      text_at (bytes "llm_error") message (text_at (bytes "llm_status") (bytes "failed") ctx)

  -- What follows the collection of the input files; the threads go on in the order of `moves`, and
  -- `none` is also the outcome when that leaves a thread that has not ended.
  unfoldable pub analyse_all :
      {D : Type 0}
      → ℕ
      → List ℕ
      → Settings
      → List Bytes
      → Context D
      → W
      → Option (Option (Context D) × W)
  unfolding start work merge_outputs write_results
  analyse_all fuel moves st input_files ctx w =
      let found = int_at (bytes "llm_total_found") (pos (length input_files)) (some ctx) in
      let (error, w1) = sys.create_directories w st.output_dir in
      elim error [
        | some message ↦ some (
          fail_with
              (join
                (bytes "Cannot create output_dir: " ∷ st.output_dir ∷ bytes ": " ∷ message ∷ []))
              found,
          w1,
        )
        | none ↦ do
          pool ← work sys st fuel input_files moves (start sys st fuel input_files w1)
          joined ← if all_gone pool.workers then some pool else none
          (merged, totals, w2) ← merge_outputs st fuel found joined.totals joined.world
          some (write_results st (length input_files) totals merged, w2)
      ]

  -- `execute`; `show` prints a double and `usual` is 0.3.
  unfoldable execute :
      {D : Type 0} → (D → Bytes) → D → ℕ → List ℕ → Context D → W → Option (Option (Context D) × W)
  unfolding read_text read_settings collect analyse_all
  execute show usual fuel moves ctx w = do
    path ← read_text ctx 4096 (bytes "llm_input_path")
    elim path [
      | none ↦ some (fail_with (bytes "llm_input_path is required") (some ctx), w)
      | some input_path ↦ do
        key ← read_text ctx 1024 (bytes "llm_api_key")
        elim key [
          | none ↦ some (fail_with (bytes "llm_api_key is required") (some ctx), w)
          | some api_key ↦ do
            st ← read_settings show usual ctx api_key
            elim (collect st input_path w) [
              | none ↦ some (fail_with (bytes "input_path not found: " ++ input_path) (some ctx), w)
              | some input_files ↦ analyse_all fuel moves st input_files ctx w
            ]
        ]
    ]
