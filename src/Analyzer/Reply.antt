-- ===== src/Analyzer/Reply.antt =====
-- What the text analyzer takes from a reply (plugins/llm_text_analyzer_plugin.cpp).
use cpp20_workflow_engine.Shared.{
  suc, ◌+◌, ◌-◌, Bool, false, Option, none, some, [], ◌∷◌, ◌++◌, length, ◌==◌, ltb, leb,
  if◌then◌else◌, Bytes, bytes, str_eq,
}
use cpp20_workflow_engine.Shared.Int.{ℤ, pos, negsuc}
use cpp20_workflow_engine.Analyzer.Text.{find, value_of, json_extract_string}

-- `json_body.substr(json_body.find(mark))`
unfoldable pub from_mark : Bytes → Bytes → Option Bytes
unfolding find
from_mark mark s = elim (find mark s) [ none ↦ none | some (before, from) ↦ some from ]

abbrev pub quoted : Bytes → Bytes
quoted key = 34 ∷ (key ++ 34 ∷ [])

-- `stoll` is the standard library's; `none` is an exception.
unfoldable pub json_extract_int : (Bytes → Option ℤ) → Bytes → Bytes → ℤ → ℤ
unfolding value_of
json_extract_int stoll json key def = elim (value_of json key) [
  | none ↦ def
  | some [] ↦ def
  | some (c ∷ s) ↦ elim (stoll (c ∷ s)) [ none ↦ def | some v ↦ v ]
]

-- The text of a field behind a mark, the empty text when the mark is not there.
abbrev field_behind : Bytes → Bytes → Bytes → Bytes
unfolding from_mark json_extract_string
field_behind mark key json_body = elim (from_mark (quoted mark) json_body) [
  | none ↦ []
  | some sub ↦ json_extract_string sub key
]

-- choices[0].message.content
unfoldable pub extract_openai : Bytes → Bytes
unfolding from_mark json_extract_string
extract_openai json_body = elim (from_mark (quoted (bytes "choices")) json_body) [
  | none ↦ []
  | some sub ↦ field_behind (bytes "message") (bytes "content") sub
]

unfoldable pub extract_llm_content : Bytes → Bytes → Bytes
unfolding str_eq from_mark json_extract_string extract_openai
extract_llm_content json_body provider =
    let native : Bytes =
      if str_eq provider (bytes "dashscope")
      then field_behind (bytes "output") (bytes "text") json_body
      else if str_eq provider (bytes "ollama")
      then field_behind (bytes "message") (bytes "content") json_body
      else [] in
    if length native == 0 then extract_openai json_body else native

abbrev is_above_zero : ℤ → Bool
is_above_zero (pos n) = ltb 0 n
is_above_zero (negsuc n) = false

-- `a + b`
unfoldable pub add_ℤ : ℤ → ℤ → ℤ
add_ℤ (pos m) (pos n) = pos (m + n)
add_ℤ (pos m) (negsuc n) = if leb (suc n) m then pos (m - suc n) else negsuc (n - m)
add_ℤ (negsuc m) (pos n) = if leb (suc m) n then pos (n - suc m) else negsuc (m - n)
add_ℤ (negsuc m) (negsuc n) = negsuc (suc (m + n))

unfoldable pub extract_tokens_used : (Bytes → Option ℤ) → Bytes → ℤ
unfolding from_mark json_extract_int add_ℤ
extract_tokens_used stoll json_body = elim (from_mark (quoted (bytes "usage")) json_body) [
  | none ↦ pos 0
  | some sub ↦
      let t = json_extract_int stoll sub (bytes "total_tokens") (pos 0) in
      if is_above_zero t
      then t
      else add_ℤ (json_extract_int stoll sub (bytes "input_tokens") (pos 0))
          (json_extract_int stoll sub (bytes "output_tokens") (pos 0))
]
