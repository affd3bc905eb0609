-- ===== src/Json.antt =====
-- The JSON parser of src/WorkflowEngine.cpp. The text that is left to read stands for the pair of
-- `s` and `pos`: a position at or past the end is the empty text.
-- Doubles are a parameter: `stod` is the standard function, `none` its exception.
pub mod Progress
pub mod Print
pub mod RoundTrip
use cpp20_workflow_engine.Shared.{
  ℕ, zero, suc, Bool, true, false, ◌&&◌, ◌||◌, Option, none, some, List, [], ◌∷◌, ◌++◌, drop, ◌==◌,
  leb, if◌then◌else◌, Bytes, str_eq,
}

mutual
  pub data JsonValue (N : Type 0) : Type 0 where
    null : JsonValue N
    boolean : Bool → JsonValue N
    number : N → JsonValue N
    string : Bytes → JsonValue N
    array : Items N → JsonValue N
    object : Fields N → JsonValue N

  pub data Items (N : Type 0) : Type 0 where
    nil : Items N
    cons : JsonValue N → Items N → Items N

  pub data Fields (N : Type 0) : Type 0 where
    end : Fields N
    field : Bytes → JsonValue N → Fields N → Fields N

-- What a parsing function yields: a value and the text after it, or the exception of `stod`.
-- `out_of_fuel` is the model's own.
pub data Parsed (A : Type 0) : Type 0 where
  ok : A → Bytes → Parsed A
  throws : Parsed A
  out_of_fuel : Parsed A

abbrev pub and_then : {A B : Type 0} → Parsed A → (A → Bytes → Parsed B) → Parsed B
and_then (ok a s) k = k a s
and_then throws k = throws
and_then out_of_fuel k = out_of_fuel

unfoldable pub is_ws : ℕ → Bool
is_ws c = c == b' ' || c == 9 || c == 10 || c == 13

unfoldable pub skip_ws : Bytes → Bytes
skip_ws [] = []
skip_ws (c ∷ s) = if is_ws c then skip_ws s else c ∷ s

-- `if (pos < s.size() && s[pos] == c) ++pos;`
unfoldable pub skip_char : ℕ → Bytes → Bytes
skip_char c [] = []
skip_char c (d ∷ s) = if d == c then s else d ∷ s

-- The `switch` of `parseString`; every other character stands for itself.
unfoldable pub unescape : ℕ → ℕ
unescape c = if c == b'n' then 10 else if c == b'r' then 13 else if c == b't' then 9 else c

-- `parseString` after the opening quote: the text read, and what follows the closing quote.
unfoldable pub read_string : Bytes → Bytes × Bytes
read_string [] = ([], [])
read_string (c ∷ []) = if c == 34 then ([], []) else (c ∷ [], [])
read_string (c ∷ d ∷ s) =
    let escaped : Bytes × Bytes = (let (r, rest) = read_string s in (unescape d ∷ r, rest)) in
    let plain : Bytes × Bytes = (let (r, rest) = read_string (d ∷ s) in (c ∷ r, rest)) in
    if c == 34 then ([], d ∷ s) else if c == 92 then escaped else plain

unfoldable pub is_number_char : ℕ → Bool
is_number_char c =
    leb b'0' c && leb c b'9' || c == b'.' || c == b'-' || c == b'+' || c == b'e' || c == b'E'

-- The characters of a number, and what follows them.
unfoldable pub read_number : Bytes → Bytes × Bytes
read_number [] = ([], [])
read_number (c ∷ s) =
    let (r, rest) = read_number s in if is_number_char c then (c ∷ r, rest) else ([], c ∷ s)

module _ {N : Type 0} (stod : Bytes → Option N) where
  unfoldable pub parse_number : Bytes → Parsed (JsonValue N)
  unfolding is_number_char read_number
  parse_number s =
      let (r, rest) = read_number s in elim (stod r) [ none ↦ throws | some n ↦ ok (number n) rest ]

  -- `parseValue`, and the loops of `parseObject` and `parseArray` after the opening bracket.
  unfoldable mutual
    unfolding is_ws skip_ws skip_char unescape read_string parse_number

    pub parse_value : ℕ → Bytes → Parsed (JsonValue N)
    parse_value zero s = out_of_fuel
    parse_value (suc fuel) s = elim (skip_ws s) [
      | [] ↦ ok null []
      | c ∷ r ↦
          let members : Parsed (JsonValue N) =
            and_then (parse_object fuel (skip_ws r)) (λ fs rest. ok (object fs) rest) in
          let elements : Parsed (JsonValue N) =
            and_then (parse_array fuel (skip_ws r)) (λ xs rest. ok (array xs) rest) in
          let text : Parsed (JsonValue N) = (let (t, rest) = read_string r in ok (string t) rest) in
          if c == 34
          then text
          else if c == b'{'
          then members
          else if c == b'['
          then elements
          else if c == b't'
          then ok (boolean true) (drop 3 r)
          else if c == b'f'
          then ok (boolean false) (drop 4 r)
          else if c == b'n'
          then ok null (drop 3 r)
          else parse_number (c ∷ r)
    ]

    -- A character that is no quote where a key should stand ends the object, and is skipped.
    pub parse_object : ℕ → Bytes → Parsed (Fields N)
    parse_object zero s = out_of_fuel
    parse_object (suc fuel) s = elim s [
      | [] ↦ ok end []
      | c ∷ r ↦
          let members : Parsed (Fields N) = elim (skip_ws (c ∷ r)) [
            | [] ↦ ok end []
            | d ∷ r' ↦
                let entry : Parsed (Fields N) =
                  (let (key, s1) = read_string r' in
                    and_then (parse_value fuel (skip_char b':' (skip_ws s1))) (λ v s2.
                      and_then (parse_object fuel (skip_ws (skip_char b',' (skip_ws s2))))
                        (λ fs rest. ok (field key v fs) rest))) in
                if d == 34 then entry else ok end r'
          ] in
          if c == b'}' then ok end r else members
    ]

    pub parse_array : ℕ → Bytes → Parsed (Items N)
    parse_array zero s = out_of_fuel
    parse_array (suc fuel) s = elim s [
      | [] ↦ ok nil []
      | c ∷ r ↦
          let elements : Parsed (Items N) = and_then (parse_value fuel (c ∷ r)) (λ v s2.
            and_then (parse_array fuel (skip_ws (skip_char b',' (skip_ws s2))))
              (λ vs rest. ok (cons v vs) rest)) in
          if c == b']' then ok nil r else elements
    ]

-- `JsonValue::get`: the first field of that name.
unfoldable pub get_field : {N : Type 0} → Fields N → Bytes → Option (JsonValue N)
get_field end key = none
get_field (field k v fs) key = if str_eq k key then some v else get_field fs key

unfoldable pub get : {N : Type 0} → JsonValue N → Bytes → Option (JsonValue N)
unfolding get_field
get (object fs) key = get_field fs key
get null key = none
get (boolean b) key = none
get (number n) key = none
get (string t) key = none
get (array xs) key = none
