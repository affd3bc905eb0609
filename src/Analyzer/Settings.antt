-- ===== src/Analyzer/Settings.antt =====
-- The prompts and the parameters of LlmTextAnalyzerNode (plugins/llm_text_analyzer_plugin.cpp), which
-- are read through the C interface of the context.
use cpp20_workflow_engine.Shared.{
  ℕ, zero, suc, Bool, ◌||◌, Option, none, some, [], ◌∷◌, ◌==◌, if◌then◌else◌, Bytes, bytes, utf8,
  str_eq,
}
use cpp20_workflow_engine.Shared.Int.{ℤ, pos, negsuc}
use cpp20_workflow_engine.Context.{Context, ctx_get_string, ctx_get_int64, ctx_get_double}

infixl 5 ◌>>=◌ ◌>>◌
abbrev pub ◌>>=◌ : {A B : Type 0} → Option A → (A → Option B) → Option B
none >>= f = none
some a >>= f = f a

abbrev pub ◌>>◌ : {A B : Type 0} → Option A → Option B → Option B
m >> k = m >>= λ _. k

abbrev pub summary_prompt : Bytes
summary_prompt = utf8 "请对以下文本进行分析，输出：\n1. 核心摘要（200字以内）\n2. 关键要点（列表形式）\n3. 内容分类\n\n{content}"

abbrev pub keywords_prompt : Bytes
keywords_prompt = utf8 "从以下文本中提取关键词和短语，按重要性排序，输出 JSON 数组格式：\n\n{content}"

abbrev pub sentiment_prompt : Bytes
sentiment_prompt = utf8 "分析以下文本的情感倾向，输出：情感标签(正面/负面/中性)、置信度(0-1)、关键情感词：\n\n{content}"

abbrev pub classification_prompt : Bytes
classification_prompt = utf8 "将以下文本分类到合适的类别中，输出类别名称和理由：\n\n{content}"

abbrev pub qa_extract_prompt : Bytes
qa_extract_prompt = utf8 "从以下文本中提取所有的问答对(Q&A)，输出结构化的问题和答案：\n\n{content}"

pub record Settings : Type 0 where
  pub api_key : Bytes
  pub output_dir : Bytes
  pub endpoint : Bytes
  pub model : Bytes
  pub provider : Bytes
  pub sys_prompt : Bytes
  pub out_format : Bytes
  pub recursive : Bool
  pub overwrite : Bool
  pub merge : Bool
  pub merge_prompt : Bytes
  pub file_exts : Bytes
  pub max_tokens : ℤ
  pub max_input_chars : ℤ
  pub parallel : ℤ
  pub timeout_s : ℤ
  -- what `std::to_string` prints for the temperature
  pub temperature : Bytes
  pub user_tmpl : Bytes

-- The text in a buffer, up to its NUL.
abbrev pub c_str : Bytes → Bytes
c_str [] = []
c_str (c ∷ buf) = let rest = c_str buf in if c == 0 then [] else c ∷ rest

abbrev zeros : ℕ → Bytes
zeros zero = []
zeros (suc n) = 0 ∷ zeros n

-- A text of the context in a buffer of `room` bytes; the outer `none` is undefined behaviour.
unfoldable pub read_text : {D : Type 0} → Context D → ℕ → Bytes → Option (Option Bytes)
unfolding ctx_get_string
read_text ctx room key =
    elim (ctx_get_string (some ctx) (some key) (some (zeros room)) (pos room)) [
      | none ↦ none
      | some answer ↦ some (elim answer.code [
        | negsuc n ↦ none
        | pos n ↦ elim answer.out [ none ↦ none | some buf ↦ some (c_str buf) ]
      ])
    ]

-- `getStr`, `getInt` and `getDbl`
unfoldable pub get_str : {D : Type 0} → Context D → Bytes → Bytes → Option Bytes
unfolding read_text
get_str ctx key def = elim (read_text ctx 4096 key) [
  | none ↦ none
  | some none ↦ some def
  | some (some s) ↦ some s
]

unfoldable pub get_int : {D : Type 0} → Context D → Bytes → ℤ → ℤ
unfolding ctx_get_int64
get_int ctx key def = elim ((ctx_get_int64 (some ctx) (some key) (some def)).out) [
  | none ↦ def
  | some v ↦ v
]

unfoldable pub get_dbl : {D : Type 0} → Context D → Bytes → D → D
unfolding ctx_get_double
get_dbl ctx key def = elim ((ctx_get_double (some ctx) (some key) (some def)).out) [
  | none ↦ def
  | some v ↦ v
]

abbrev pub is_on : Bytes → Bool
unfolding str_eq
is_on s = str_eq s (bytes "true") || str_eq s (bytes "1")

-- The prompt of a task type, `none` for one that takes its prompt from the context.
unfoldable pub template_of : Bytes → Option Bytes
unfolding str_eq
template_of task_type =
    if str_eq task_type (bytes "summary")
    then some summary_prompt
    else if str_eq task_type (bytes "keywords")
    then some keywords_prompt
    else if str_eq task_type (bytes "sentiment")
    then some sentiment_prompt
    else if str_eq task_type (bytes "classification")
    then some classification_prompt
    else if str_eq task_type (bytes "qa_extract")
    then some qa_extract_prompt
    else none

-- `show` is `std::to_string` of a double, and `usual` is 0.3.
unfoldable pub read_settings : {D : Type 0} → (D → Bytes) → D → Context D → Bytes → Option Settings
unfolding get_str get_int get_dbl template_of
read_settings show usual ctx api_key = do
  output_dir ← get_str ctx (bytes "llm_output_dir") (bytes "./llm_output")
  endpoint ←
      get_str ctx (bytes "llm_api_endpoint") (bytes "https://api.openai.com/v1/chat/completions")
  model ← get_str ctx (bytes "llm_model") (bytes "gpt-4o")
  provider ← get_str ctx (bytes "llm_provider") (bytes "openai")
  sys_prompt ← get_str ctx (bytes "llm_system_prompt") (utf8 "你是一个专业的文本分析助手。")
  task_type ← get_str ctx (bytes "llm_task_type") (bytes "summary")
  out_format ← get_str ctx (bytes "llm_output_format") (bytes "markdown")
  recursive_s ← get_str ctx (bytes "llm_recursive") (bytes "true")
  overwrite_s ← get_str ctx (bytes "llm_overwrite") (bytes "false")
  merge_s ← get_str ctx (bytes "llm_merge_output") (bytes "false")
  merge_prompt ←
      get_str ctx (bytes "llm_merge_prompt") (utf8 "以下是多篇文本的分析结果，请综合所有内容生成一份总结报告：\n\n{all_results}")
  file_exts ← get_str ctx (bytes "llm_file_extensions") (bytes ".txt")
  user_tmpl ← elim (template_of task_type) [
    | some prompt ↦ some prompt
    | none ↦
        get_str ctx (bytes "llm_user_prompt_template")
          (utf8 "请分析以下文本内容，提供摘要、关键词和情感倾向：\n\n{content}")
  ]
  some (record {
    api_key = api_key;
    output_dir = output_dir;
    endpoint = endpoint;
    model = model;
    provider = provider;
    sys_prompt = sys_prompt;
    out_format = out_format;
    recursive = is_on recursive_s;
    overwrite = is_on overwrite_s;
    merge = is_on merge_s;
    merge_prompt = merge_prompt;
    file_exts = file_exts;
    max_tokens = get_int ctx (bytes "llm_max_tokens") (pos 4096);
    max_input_chars = get_int ctx (bytes "llm_max_input_chars") (pos 32000);
    parallel = get_int ctx (bytes "llm_parallel") (pos 2);
    timeout_s = get_int ctx (bytes "llm_timeout") (pos 120);
    temperature = show (get_dbl ctx (bytes "llm_temperature") usual);
    user_tmpl = user_tmpl;
  })
