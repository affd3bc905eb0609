-- ===== src/Analyzer/Files.antt =====
-- The processing of one file by LlmTextAnalyzerNode (plugins/llm_text_analyzer_plugin.cpp).
use cpp20_workflow_engine.Shared.{
  ℕ, ◌+◌, not, ◌&&◌, Option, none, some, [], ◌∷◌, ◌++◌, length, ◌==◌, if◌then◌else◌, Bytes, bytes,
  utf8, str_eq,
}
use cpp20_workflow_engine.Segments.{join}
use cpp20_workflow_engine.Analyzer.Text.{json_escape}
use cpp20_workflow_engine.Analyzer.Settings.{Settings, ◌>>=◌}
use cpp20_workflow_engine.Analyzer.Session.{System, Totals, analyse}

abbrev pub count_failed : Totals → Totals
count_failed totals = record totals { failed = totals.failed + 1 }

-- The text that is written for a result.
unfoldable pub output_content : Settings → Bytes → Bytes → Bytes → Bytes
unfolding str_eq json_escape
output_content st filename time_buf analysis_result =
    if str_eq st.out_format (bytes "markdown")
    then join (
        utf8 "# 文本分析报告\n\n**源文件**: "
        ∷ filename
        ∷ utf8 "\n**分析时间**: "
        ∷ time_buf
        ∷ utf8 "\n**模型**: "
        ∷ st.model
        ∷ bytes "\n\n---\n\n"
        ∷ analysis_result
        ∷ bytes "\n"
        ∷ [])
    else if str_eq st.out_format (bytes "json")
    then join (
        bytes "{\n  \"source_file\": \""
        ∷ json_escape filename
        ∷ bytes "\",\n  \"analysis_time\": \""
        ∷ time_buf
        ∷ bytes "\",\n  \"model\": \""
        ∷ json_escape st.model
        ∷ bytes "\",\n  \"result\": \""
        ∷ json_escape analysis_result
        ∷ bytes "\"\n}\n"
        ∷ [])
    else join (
        utf8 "源文件: "
        ∷ filename
        ∷ utf8 "\n分析时间: "
        ∷ time_buf
        ∷ utf8 "\n模型: "
        ∷ st.model
        ∷ bytes "\n\n"
        ∷ analysis_result
        ∷ bytes "\n"
        ∷ [])

abbrev pub out_ext : Bytes → Bytes
unfolding str_eq
out_ext out_format =
    if str_eq out_format (bytes "json")
    then bytes ".json"
    else if str_eq out_format (bytes "txt")
    then bytes ".txt"
    else bytes ".md"

module _ {W : Type 0} (sys : System W) (st : Settings) where
  abbrev pub out_file : Bytes → Bytes
  out_file file_path =
      sys.within st.output_dir (sys.stem file_path ++ (bytes "_analysis" ++ out_ext st.out_format))

  -- The write to a temporary file and its renaming.
  unfoldable pub save : Bytes → Bytes → Bytes → Totals → W → Totals × W
  unfolding output_content
  save target filename analysis_result totals w =
      let tmp_file : Bytes = target ++ bytes ".tmp" in
      let content = output_content st filename (sys.time w) analysis_result in
      let written = record totals { output_chars = totals.output_chars + length analysis_result } in
      let (opened, w') = sys.write w tmp_file content in
      let (renamed, w'') = sys.rename w' tmp_file target in
      if not opened
      then (count_failed written, w')
      else if not renamed
      then (count_failed written, sys.remove w'' tmp_file)
      else (
        record written {
          analyzed = written.analyzed + 1;
          output_files = written.output_files ++ target ∷ [];
        },
        w'',
      )

  -- `processFile`
  unfoldable pub process_file : ℕ → Bytes → Totals → W → Option (Totals × W)
  unfolding analyse save
  process_file fuel file_path totals w =
      let filename = sys.filename file_path in
      let target = out_file file_path in
      if not st.overwrite && sys.exists w target
      then some (record totals { skipped = totals.skipped + 1 }, w)
      else elim (sys.read w file_path) [
        | none ↦ some (count_failed totals, w)
        | some content ↦ do
          let read = record totals { input_chars = totals.input_chars + length content }
          (analysis_result, totals', w') ← analyse sys st fuel content filename read w
          some (
              if length analysis_result == 0
              then (count_failed totals', w')
              else save target filename analysis_result totals' w')
      ]
