-- ===== src/Analyzer/Text.antt =====
-- The text helpers of the text analyzer (plugins/llm_text_analyzer_plugin.cpp): trim, replaceAll,
-- jsonEscape and the extraction of JSON fields. Positions are the texts that are left.
use cpp20_workflow_engine.Shared.{
  ℕ, zero, suc, ◌+◌, ◌/◌, ◌%◌, Bool, true, false, ◌&&◌, ◌||◌, Option, none, some, [], ◌∷◌, ◌++◌,
  length, drop, ◌==◌, ltb, if◌then◌else◌, Bytes,
}

-- A text that begins with another.
unfoldable pub starts_with : Bytes → Bytes → Bool
starts_with [] s = true
starts_with (a ∷ p) [] = false
starts_with (a ∷ p) (b ∷ s) = (a == b) && starts_with p s

-- `s.find(p)`: the text before the first occurrence, and the text from there on.
unfoldable pub find : Bytes → Bytes → Option (Bytes × Bytes)
unfolding starts_with
find p [] = if starts_with p [] then some ([], []) else none
find p (b ∷ s) =
    let later = find p s in
    if starts_with p (b ∷ s)
    then some ([], b ∷ s)
    else elim later [ none ↦ none | some (before, from) ↦ some (b ∷ before, from) ]

abbrev pub is_blank : ℕ → Bool
is_blank c = c == 32 || c == 9 || c == 13 || c == 10

unfoldable pub skip_blank : Bytes → Bytes
skip_blank [] = []
skip_blank (c ∷ s) = if is_blank c then skip_blank s else c ∷ s

-- `s.find_last_not_of(…)`: the text without the blanks at its end.
unfoldable pub drop_blank : Bytes → Bytes
drop_blank [] = []
drop_blank (c ∷ s) = elim (drop_blank s) [
  | [] ↦ if is_blank c then [] else c ∷ []
  | d ∷ r ↦ c ∷ d ∷ r
]

unfoldable pub trim : Bytes → Bytes
unfolding skip_blank drop_blank
trim s = drop_blank (skip_blank s)

-- `replaceAll`; `none` means that the fuel ran out. With an empty `from` the loop does not end.
unfoldable pub replace_all : ℕ → Bytes → Bytes → Bytes → Option Bytes
unfolding find
replace_all zero s from to = none
replace_all (suc fuel) s from to = elim (find from s) [
  | none ↦ some s
  | some (before, rest) ↦ elim (replace_all fuel (drop (length from) rest) from to) [
    | none ↦ none
    | some done ↦ some (before ++ (to ++ done))
  ]
]

-- "%x" for a number below 16
abbrev pub hex_digit : ℕ → ℕ
hex_digit n = if ltb n 10 then 48 + n else 87 + n

unfoldable pub escape_byte : ℕ → Bytes
escape_byte c =
    if c == 34
    then 92 ∷ 34 ∷ []
    else if c == 92
    then 92 ∷ 92 ∷ []
    else if c == 10
    then 92 ∷ b'n' ∷ []
    else if c == 13
    then 92 ∷ b'r' ∷ []
    else if c == 9
    then 92 ∷ b't' ∷ []
    else if ltb c 32
    then 92 ∷ b'u' ∷ 48 ∷ 48 ∷ hex_digit (c / 16) ∷ hex_digit (c % 16) ∷ []
    else c ∷ []

unfoldable pub json_escape : Bytes → Bytes
unfolding escape_byte
json_escape [] = []
json_escape (c ∷ s) = escape_byte c ++ json_escape s

-- `(json[pos] == ' ' || json[pos] == ':' || json[pos] == '\t')`
unfoldable pub skip_colon : Bytes → Bytes
skip_colon [] = []
skip_colon (c ∷ s) = if c == 32 || c == 58 || c == 9 then skip_colon s else c ∷ s

abbrev pub unescaped : ℕ → ℕ
unescaped c = if c == b'n' then 10 else if c == b't' then 9 else if c == b'r' then 13 else c

-- The loop that reads a string behind its quote.
unfoldable pub read_quoted : Bytes → Bytes
read_quoted [] = []
read_quoted (c ∷ []) = if c == 34 then [] else c ∷ []
read_quoted (c ∷ d ∷ s) =
    let after_escape = read_quoted s in
    let after_byte = read_quoted (d ∷ s) in
    if c == 34 then [] else if c == 92 then unescaped d ∷ after_escape else c ∷ after_byte

-- The text behind the first `"key"` and the blanks and colons that follow it.
unfoldable pub value_of : Bytes → Bytes → Option Bytes
unfolding find skip_colon
value_of json key =
    let search = 34 ∷ (key ++ 34 ∷ []) in
    elim (find search json) [
      | none ↦ none
      | some (before, from) ↦ some (skip_colon (drop (length search) from))
    ]

unfoldable pub json_extract_string : Bytes → Bytes → Bytes
unfolding value_of read_quoted
json_extract_string json key = elim (value_of json key) [
  | none ↦ []
  | some [] ↦ []
  | some (c ∷ s) ↦ if c == 34 then read_quoted s else []
]
