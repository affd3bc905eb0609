-- ===== src/Json/RoundTrip.antt =====
-- The parser in src/WorkflowEngine.cpp reads printed values back.
use cpp20_workflow_engine.Shared.{
  ℕ, zero, suc, ◌+◌, ◌≤◌, ◌≡◌, refl, ap, sym, ◌∙◌, true, false, Option, some, [], ◌∷◌, ◌++◌, arith,
  ◌==◌, Bytes,
}
use cpp20_workflow_engine.Json.{
  JsonValue, null, boolean, number, string, array, object, Items, nil, cons, Fields, end, field, ok,
  is_ws, skip_ws, skip_char, is_number_char, parse_number, parse_value, parse_object, parse_array,
}
use cpp20_workflow_engine.Json.Print.{
  AllNumber, Printer, print, print_items, more_items, print_fields, more_fields, Stops,
  read_string-quoted, read_number-show,
}

-- The calls that the parser makes in a row for a value.
unfoldable mutual
  pub weight : {N : Type 0} → JsonValue N → ℕ
  weight null = 1
  weight (boolean b) = 1
  weight (number n) = 1
  weight (string t) = 1
  weight (array xs) = suc (weight_items xs)
  weight (object fs) = suc (weight_fields fs)

  pub weight_items : {N : Type 0} → Items N → ℕ
  weight_items nil = 1
  weight_items (cons v vs) = suc (weight v + weight_items vs)

  pub weight_fields : {N : Type 0} → Fields N → ℕ
  weight_fields end = 1
  weight_fields (field k v fs) = suc (weight v + weight_fields fs)

skip_ws-cons : (c : ℕ) (s : Bytes) → is_ws c ≡ false → skip_ws (c ∷ s) ≡ c ∷ s
unfolding skip_ws
skip_ws-cons c s h = rw h refl

-- A character of numbers begins no other value.
number_char :
    (c : ℕ)
    → is_number_char c ≡ true
    → (is_ws c ≡ false)
      × ((c == 34) ≡ false)
      × ((c == b'{') ≡ false)
      × ((c == b'[') ≡ false)
      × ((c == b't') ≡ false)
      × ((c == b'f') ≡ false)
      × ((c == b'n') ≡ false)
unfolding is_ws is_number_char
number_char c h = (
  ground arith,
  ground arith,
  ground arith,
  ground arith,
  ground arith,
  ground arith,
  ground arith,
)

module _ {N : Type 0} (stod : Bytes → Option N) (p : Printer stod) where
  open p use {show, reads, digits, some_digit}

  -- The first character of a printed value is no blank and ends no array.
  abbrev Begins : Bytes → Type 0
  Begins s = (c : ℕ) × (r : Bytes) × (s ≡ c ∷ r) × (is_ws c ≡ false) × ((c == b']') ≡ false)

  digit-Begins : (s rest : Bytes) → AllNumber s → (s ≡ [] → ⊥) → Begins (s ++ rest)
  unfolding is_ws is_number_char
  digit-Begins [] rest h ne = absurd (ne refl)
  digit-Begins (c ∷ s) rest (h, hs) ne = (c, s ++ rest, refl, ground arith, ground arith)

  print-Begins : (v : JsonValue N) (rest : Bytes) → Begins (print show v rest)
  unfolding print is_ws
  print-Begins null rest = (_, _, refl, refl, refl)
  print-Begins (boolean true) rest = (_, _, refl, refl, refl)
  print-Begins (boolean false) rest = (_, _, refl, refl, refl)
  print-Begins (number n) rest = digit-Begins (show n) rest (digits n) (some_digit n)
  print-Begins (string t) rest = (_, _, refl, refl, refl)
  print-Begins (array xs) rest = (_, _, refl, refl, refl)
  print-Begins (object fs) rest = (_, _, refl, refl, refl)

  skip_ws-print : (v : JsonValue N) (rest : Bytes) → skip_ws (print show v rest) ≡ print show v rest
  skip_ws-print v rest =
      let (c, r, e, blank, bracket) = print-Begins v rest in rw e (skip_ws-cons c r blank)

  -- What is read behind an element, or a member, is the rest of them.
  comma-items :
      (vs : Items N) (rest : Bytes)
      → skip_ws (skip_char b',' (skip_ws (more_items show vs rest))) ≡ print_items show vs rest
  unfolding more_items print_items skip_ws skip_char is_ws
  comma-items nil rest = refl
  comma-items (cons v vs) rest = skip_ws-print v (more_items show vs rest)

  comma-fields :
      (fs : Fields N) (rest : Bytes)
      → skip_ws (skip_char b',' (skip_ws (more_fields show fs rest))) ≡ print_fields show fs rest
  unfolding more_fields print_fields skip_ws skip_char is_ws
  comma-fields end rest = refl
  comma-fields (field k v fs) rest = refl

  more_items-Stops : (vs : Items N) (rest : Bytes) → Stops (more_items show vs rest)
  unfolding more_items is_number_char
  more_items-Stops nil rest = refl
  more_items-Stops (cons v vs) rest = refl

  more_fields-Stops : (fs : Fields N) (rest : Bytes) → Stops (more_fields show fs rest)
  unfolding more_fields is_number_char
  more_fields-Stops end rest = refl
  more_fields-Stops (field k v fs) rest = refl

  skip_ws-items :
      (xs : Items N) (rest : Bytes) → skip_ws (print_items show xs rest) ≡ print_items show xs rest
  unfolding print_items skip_ws is_ws
  skip_ws-items nil rest = refl
  skip_ws-items (cons v vs) rest = skip_ws-print v (more_items show vs rest)

  skip_ws-fields :
      (fs : Fields N) (rest : Bytes)
      → skip_ws (print_fields show fs rest) ≡ print_fields show fs rest
  unfolding print_fields skip_ws is_ws
  skip_ws-fields end rest = refl
  skip_ws-fields (field k v fs) rest = refl

  read_as_number :
      (s rest : Bytes) (n : N)
      → AllNumber s
      → stod s ≡ some n
      → Stops rest
      → parse_number stod (s ++ rest) ≡ ok (number n) rest
  unfolding parse_number
  read_as_number s rest n h e k =
      let split = read_number-show s rest h k in rw (parse_number, split, e, split) refl

  digits-RoundTrip :
      (fuel : ℕ) (s rest : Bytes) (n : N)
      → AllNumber s
      → (s ≡ [] → ⊥)
      → stod s ≡ some n
      → Stops rest
      → parse_value stod (suc fuel) (s ++ rest) ≡ ok (number n) rest
  unfolding parse_value
  digits-RoundTrip fuel [] rest n h ne e k = absurd (ne refl)
  digits-RoundTrip fuel (c ∷ s) rest n (h, hs) ne e k =
      let (blank, quote, brace, bracket, t, f, n') = number_char c h in
      let front : skip_ws (c ∷ (s ++ rest)) ≡ c ∷ (s ++ rest) = skip_ws-cons c (s ++ rest) blank in
      rw (front, parse_value, quote, brace, bracket, t, f, n')
        (read_as_number (c ∷ s) rest n (h, hs) e k)

  mutual
    unfolding parse_value weight print

    value-RoundTrip :
        (fuel : ℕ) (v : JsonValue N) (rest : Bytes)
        → weight v ≤ fuel
        → Stops rest
        → parse_value stod fuel (print show v rest) ≡ ok v rest
    value-RoundTrip zero null rest h k = absurd (omega arith)
    value-RoundTrip zero (boolean b) rest h k = absurd (omega arith)
    value-RoundTrip zero (number n) rest h k = absurd (omega arith)
    value-RoundTrip zero (string t) rest h k = absurd (omega arith)
    value-RoundTrip zero (array xs) rest h k = absurd (omega arith)
    value-RoundTrip zero (object fs) rest h k = absurd (omega arith)
    value-RoundTrip (suc fuel) null rest h k = refl
    value-RoundTrip (suc fuel) (boolean true) rest h k = refl
    value-RoundTrip (suc fuel) (boolean false) rest h k = refl
    value-RoundTrip (suc fuel) (number n) rest h k =
        digits-RoundTrip fuel (show n) rest n (digits n) (some_digit n) (reads n) k
    value-RoundTrip (suc fuel) (string t) rest h k = rw (read_string-quoted t rest) refl
    value-RoundTrip (suc fuel) (array xs) rest h k =
        rw (skip_ws-items xs rest, items-RoundTrip fuel xs rest (omega arith)) refl
    value-RoundTrip (suc fuel) (object fs) rest h k =
        rw (skip_ws-fields fs rest, fields-RoundTrip fuel fs rest (omega arith)) refl

    items-RoundTrip :
        (fuel : ℕ) (xs : Items N) (rest : Bytes)
        → weight_items xs ≤ fuel
        → parse_array stod fuel (print_items show xs rest) ≡ ok xs rest
    items-RoundTrip zero nil rest h = absurd (omega arith)
    items-RoundTrip zero (cons v vs) rest h = absurd (omega arith)
    items-RoundTrip (suc fuel) nil rest h = refl
    items-RoundTrip (suc fuel) (cons v vs) rest h =
        let more = more_items show vs rest in
        let (c, r, e, blank, bracket) = print-Begins v more in
        let first : parse_value stod fuel (c ∷ r) ≡ ok v more =
          ap (parse_value stod fuel) (sym e)
          ∙ value-RoundTrip fuel v more (omega arith) (more_items-Stops vs rest) in
        rw (e, bracket, first, comma-items vs rest, items-RoundTrip fuel vs rest (omega arith)) refl

    fields-RoundTrip :
        (fuel : ℕ) (fs : Fields N) (rest : Bytes)
        → weight_fields fs ≤ fuel
        → parse_object stod fuel (print_fields show fs rest) ≡ ok fs rest
    fields-RoundTrip zero end rest h = absurd (omega arith)
    fields-RoundTrip zero (field k v fs) rest h = absurd (omega arith)
    fields-RoundTrip (suc fuel) end rest h = refl
    fields-RoundTrip (suc fuel) (field k v fs) rest h =
        let more = more_fields show fs rest in
        rw
          (
            read_string-quoted k (b':' ∷ print show v more),
            value-RoundTrip fuel v more (omega arith) (more_fields-Stops fs rest),
            comma-fields fs rest,
            fields-RoundTrip fuel fs rest (omega arith),
          )
          refl

  -- A value that is printed as JSON, with numbers that stod reads back, is read as itself, and what
  -- stands behind it is left, if that does not go on with a number and the fuel covers the calls.
  pub parse_value-print :
      (fuel : ℕ) (v : JsonValue N) (rest : Bytes)
      → weight v ≤ fuel
      → Stops rest
      → parse_value stod fuel (print show v rest) ≡ ok v rest
  parse_value-print fuel v rest enough stops = value-RoundTrip fuel v rest enough stops
