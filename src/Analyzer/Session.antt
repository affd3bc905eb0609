-- ===== src/Analyzer/Session.antt =====
-- The requests of LlmTextAnalyzerNode and the analysis of one text
-- (plugins/llm_text_analyzer_plugin.cpp). What lies outside is a `System`.
use cpp20_workflow_engine.Shared.{
  ℕ, suc, ◌-◌, ◌^◌, ◌⊎◌, Bool, Option, none, some, List, [], ◌∷◌, ◌++◌, length, ◌==◌, if◌then◌else◌,
  Bytes, bytes, utf8, str_eq,
}
use cpp20_workflow_engine.Shared.Int.{ℤ, pos, negsuc, is_pos, to_string}
use cpp20_workflow_engine.Segments.{split_text, join}
use cpp20_workflow_engine.Analyzer.Text.{replace_all, json_escape}
use cpp20_workflow_engine.Analyzer.Http.{Target, post}
use cpp20_workflow_engine.Analyzer.Reply.{extract_llm_content, extract_tokens_used, add_ℤ}
use cpp20_workflow_engine.Analyzer.Settings.{Settings, ◌>>=◌}

-- The network, the files, the clock and the standard library's conversions. `write` opens a file,
-- emptied, and writes to it, and says whether it could be opened; `rename` says whether it succeeded;
-- `entries` are the regular files of a directory, with those below it or without.
pub record System (W : Type 0) : Type 0 where
  pub exchange : W → Target → ℤ → Bytes → Option ((Bytes ⊎ List Bytes) × W)
  pub exists : W → Bytes → Bool
  pub is_file : W → Bytes → Bool
  pub is_directory : W → Bytes → Bool
  pub entries : W → Bool → Bytes → List Bytes
  pub create_directories : W → Bytes → Option Bytes × W
  pub read : W → Bytes → Option Bytes
  pub write : W → Bytes → Bytes → Bool × W
  pub rename : W → Bytes → Bytes → Bool × W
  pub remove : W → Bytes → W
  pub time : W → Bytes
  pub filename : Bytes → Bytes
  pub stem : Bytes → Bytes
  pub extension : Bytes → Bytes
  pub within : Bytes → Bytes → Bytes
  pub sort : List Bytes → List Bytes
  pub stoi : Bytes → Option ℤ
  pub stoll : Bytes → Option ℤ
  pub stoul : Bytes → Option ℕ

-- The counters, and the files that were written.
pub record Totals : Type 0 where
  pub analyzed : ℕ
  pub failed : ℕ
  pub skipped : ℕ
  pub input_chars : ℕ
  pub output_chars : ℕ
  pub tokens : ℤ
  pub output_files : List Bytes

abbrev messages : Settings → Bytes → Bytes
messages st user_prompt = join (
    bytes "\"messages\":[{\"role\":\"system\",\"content\":\""
    ∷ json_escape st.sys_prompt
    ∷ bytes "\"},{\"role\":\"user\",\"content\":\""
    ∷ json_escape user_prompt
    ∷ bytes "\"}]"
    ∷ [])

abbrev limits : Settings → Bytes
unfolding to_string
limits st = join (
    bytes "\"max_tokens\":"
    ∷ to_string st.max_tokens
    ∷ bytes ",\"temperature\":"
    ∷ st.temperature
    ∷ [])

unfoldable pub request_body : Settings → Bytes → Bytes
unfolding str_eq json_escape to_string
request_body st user_prompt =
    let named : Bytes = bytes "{\"model\":\"" ++ (json_escape st.model ++ bytes "\",") in
    if str_eq st.provider (bytes "dashscope")
    then join (
        named
        ∷ bytes "\"input\":{"
        ∷ messages st user_prompt
        ∷ bytes "},\"parameters\":{"
        ∷ limits st
        ∷ bytes "}}"
        ∷ [])
    else if str_eq st.provider (bytes "ollama")
    then join (named ∷ messages st user_prompt ∷ bytes ",\"stream\":false}" ∷ [])
    else join (named ∷ messages st user_prompt ∷ bytes "," ∷ limits st ∷ bytes "}" ∷ [])

abbrev pub actual_endpoint : Settings → Bytes
unfolding str_eq
actual_endpoint st =
    if str_eq st.provider (bytes "dashscope")
    then bytes "https://dashscope.aliyuncs.com/api/v1/services/aigc/text-generation/generation"
    else st.endpoint

abbrev pub extra_headers : Settings → Bytes
unfolding str_eq
extra_headers st =
    if str_eq st.provider (bytes "ollama")
    then []
    else bytes "Authorization: Bearer " ++ (st.api_key ++ 13 ∷ 10 ∷ [])

abbrev pub size_of_limit : ℤ → ℕ
size_of_limit (pos n) = n
size_of_limit (negsuc n) = 2 ^ 64 - suc n

module _ {W : Type 0} (sys : System W) (st : Settings) (fuel : ℕ) where
  -- The request with a user prompt, and what it leaves in the counters: the reply, empty unless the
  -- status is 200.
  unfoldable pub ask : Bytes → Totals → W → Option (Bytes × Totals × W)
  unfolding post request_body extract_llm_content extract_tokens_used add_ℤ
  ask user_prompt totals w = do
    (resp, after) ←
        post sys.stoi sys.stoul sys.exchange fuel w (actual_endpoint st) (extra_headers st)
          (request_body st user_prompt) st.timeout_s
    some (
        if is_pos 200 resp.status_code
        then (
          extract_llm_content resp.body st.provider,
          record totals { tokens = add_ℤ totals.tokens (extract_tokens_used sys.stoll resp.body) },
          after,
        )
        else ([], totals, after))

  -- `callLlm`
  unfoldable pub call_llm : Bytes → Bytes → Totals → W → Option (Bytes × Totals × W)
  unfolding ask replace_all
  call_llm content filename totals w = do
    with_content ← replace_all fuel st.user_tmpl (bytes "{content}") content
    user_prompt ← replace_all fuel with_content (bytes "{filename}") filename
    ask user_prompt totals w

  -- The results of the segments, with their headings; the inner `none` when a reply is empty.
  unfoldable pub call_segments :
      List Bytes → Bytes → ℕ → Totals → W → Option (Option Bytes × Totals × W)
  unfolding call_llm to_string
  call_segments [] filename i totals w = some (some [], totals, w)
  call_segments (segment ∷ segments) filename i totals w = do
    (r, totals', w') ← call_llm segment filename totals w
    (rest, totals'', w'') ←
        if length r == 0
        then some (none, totals', w')
        else call_segments segments filename (suc i) totals' w'
    some (
      elim rest [
        | none ↦ none
        | some all ↦ some (
            join (
              utf8 "=== 第"
              ∷ to_string (pos (suc i))
              ∷ utf8 "段分析结果 ===\n"
              ∷ r
              ∷ bytes "\n\n"
              ∷ all
              ∷ []))
      ],
      totals'',
      w'',
    )

  -- The analysis of a text; empty when it fails.
  unfoldable pub analyse : Bytes → Bytes → Totals → W → Option (Bytes × Totals × W)
  unfolding split_text call_llm call_segments
  analyse content filename totals w = do
    segments ← split_text (size_of_limit st.max_input_chars) content
    if length segments == 1 then call_llm content filename totals w else do
      (all, totals', w') ← call_segments segments filename 0 totals w
      elim all [
        | none ↦ some ([], totals', w')
        | some all_segs ↦ do
          (merged, totals'', w'') ← call_llm all_segs filename totals' w'
          some (if length merged == 0 then all_segs else merged, totals'', w'')
      ]
