-- ===== src/Audio/Json.antt =====
-- The JSON helpers of the audio editor (plugins/llm_audio_editor_plugin.cpp). A position is counted
-- from the start of the text; `none` is npos. `D` is `double`.
use cpp20_workflow_engine.Shared.{
  ℕ, suc, ◌+◌, ◌-◌, Bool, true, false, not, ◌&&◌, ◌||◌, Option, none, some, [], ◌∷◌, ◌++◌, length,
  take, drop, ◌==◌, ltb, leb, if◌then◌else◌, Bytes, bytes, str_eq,
}
use cpp20_workflow_engine.Analyzer.Text.{find}

-- `s[pos]`
abbrev pub byte_at : Bytes → ℕ → Option ℕ
byte_at s at = elim (drop at s) [ [] ↦ none | c ∷ rest ↦ some c ]

abbrev pub is_at : Bytes → ℕ → ℕ → Bool
is_at s at c = elim (byte_at s at) [ none ↦ false | some b ↦ b == c ]

-- `s.find(p, pos)`
unfoldable pub find_from : Bytes → ℕ → Bytes → Option ℕ
unfolding find
find_from s at p = elim (find p (drop at s)) [
  | none ↦ none
  | some (before, from) ↦ some (at + length before)
]

-- `s.substr(from, to - from)`
abbrev pub between : Bytes → ℕ → ℕ → Bytes
between s from to = take (to - from) (drop from s)

abbrev leading_blanks : Bytes → ℕ
leading_blanks [] = 0
leading_blanks (c ∷ s) =
    let rest = leading_blanks s in if c == 32 || c == 9 || c == 13 || c == 10 then suc rest else 0

unfoldable pub skip_ws_at : Bytes → ℕ → ℕ
skip_ws_at s at = at + leading_blanks (drop at s)

abbrev unescaped : ℕ → ℕ
unescaped c =
    if c == 34
    then 34
    else if c == 92
    then 92
    else if c == b'n'
    then 10
    else if c == b'r'
    then 13
    else if c == b't'
    then 9
    else if c == b'/'
    then b'/'
    else c

-- The string behind its quote, and how many bytes it takes with the quote at its end; `escaped` is
-- whether a backslash stands before.
unfoldable pub string_body : Bool → Bytes → Bytes × ℕ
string_body escaped [] = ([], 0)
string_body escaped (c ∷ s) =
    let escapes = not escaped && (c == 92) && not (length s == 0) in
    let (result, n) = string_body escapes s in
    if escaped
    then (unescaped c ∷ result, n + 1)
    else if c == 34
    then ([], 1)
    else if escapes
    then (result, n + 1)
    else (c ∷ result, n + 1)

-- The string at a position, and the position behind it.
unfoldable pub parse_json_string : Bytes → ℕ → Bytes × ℕ
unfolding string_body
parse_json_string s at =
    let (result, n) = string_body false (drop (at + 1) s) in
    if is_at s at 34 then (result, at + 1 + n) else ([], at)

abbrev is_number_byte : ℕ → Bool
is_number_byte c =
    leb b'0' c && leb c b'9' || c == b'.' || c == b'e' || c == b'E' || c == b'+' || c == b'-'

abbrev number_length : Bytes → ℕ
number_length [] = 0
number_length (c ∷ s) = let rest = number_length s in if is_number_byte c then suc rest else 0

-- The number at a position, and the position behind it; a text that `stod` refuses is 0.
unfoldable pub parse_json_number : {D : Type 0} → (Bytes → Option D) → D → Bytes → ℕ → D × ℕ
parse_json_number stod null s at =
    let start : ℕ = if is_at s at b'-' then at + 1 else at in
    let end : ℕ = start + number_length (drop start s) in
    (elim (stod (between s at end)) [ none ↦ null | some v ↦ v ], end)

unfoldable pub find_key : Bytes → ℕ → Bytes → Option ℕ
unfolding find_from skip_ws_at
find_key s start key =
    let search : Bytes = 34 ∷ (key ++ 34 ∷ []) in
    elim (find_from s start search) [
      | none ↦ none
      | some found ↦
          let at = skip_ws_at s (found + length search) in
          some (if is_at s at b':' then skip_ws_at s (at + 1) else at)
    ]

unfoldable pub get_str_field : Bytes → ℕ → Bytes → Bytes → Bytes
unfolding find_key parse_json_string
get_str_field s obj_start key def = elim (find_key s obj_start key) [
  | none ↦ def
  | some at ↦ if is_at s at 34 then (parse_json_string s at).0 else def
]

unfoldable pub get_dbl_field : {D : Type 0} → (Bytes → Option D) → D → Bytes → ℕ → Bytes → D → D
unfolding find_key parse_json_number
get_dbl_field stod null s obj_start key def = elim (find_key s obj_start key) [
  | none ↦ def
  | some at ↦ let (v, p) = parse_json_number stod null s at in if ltb at p then v else def
]

unfoldable pub get_bool_field : Bytes → ℕ → Bytes → Bool → Bool
unfolding find_key str_eq
get_bool_field s obj_start key def = elim (find_key s obj_start key) [
  | none ↦ def
  | some at ↦
      if str_eq (take 4 (drop at s)) (bytes "true")
      then true
      else if str_eq (take 5 (drop at s)) (bytes "false")
      then false
      else def
]

-- The position of the brace that brings the depth back to 0, from a text at position `at`.
unfoldable pub closing : ℕ → ℕ → Bytes → Option ℕ
closing at depth [] = none
closing at depth (c ∷ s) =
    let below : ℕ = if c == b'{' then suc depth else if c == b'}' then depth - 1 else depth in
    let rest = closing (suc at) below s in if (c == b'}') && (depth == 1) then some at else rest
