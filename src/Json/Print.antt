-- ===== src/Json/Print.antt =====
-- Values printed as JSON, for the parser in src/WorkflowEngine.cpp to read.
use cpp20_workflow_engine.Shared.{
  ℕ, ◌≡◌, ◌≢◌, refl, ap, sym, ◌∙◌, inl, inr, Bool-cases, true, false, Option, none, some, [], ◌∷◌,
  ◌++◌, ◌==◌, ==_iff, if◌then◌else◌, Bytes, bytes,
}
use cpp20_workflow_engine.Json.{
  JsonValue, null, boolean, number, string, array, object, Items, nil, cons, Fields, end, field,
  unescape, read_string, is_number_char, read_number,
}

-- The character that stands for one behind a backslash, if it has to.
abbrev escape : ℕ → Option ℕ
escape c =
    if c == 34
    then some 34
    else if c == 92
    then some 92
    else if c == 10
    then some b'n'
    else if c == 13
    then some b'r'
    else if c == 9
    then some b't'
    else none

-- A text behind its quote, with the quote at its end, before a rest.
abbrev pub quoted : Bytes → Bytes → Bytes
quoted [] rest = 34 ∷ rest
quoted (c ∷ t) rest =
    let more = quoted t rest in elim (escape c) [ none ↦ c ∷ more | some e ↦ 92 ∷ e ∷ more ]

-- How doubles are printed: `stod` reads them back, and they are made of characters of numbers.
abbrev pub AllNumber : Bytes → Type 0
AllNumber [] = Unit {0}
AllNumber (c ∷ s) = (is_number_char c ≡ true) × AllNumber s

pub record Printer {N : Type 0} (stod : Bytes → Option N) : Type 0 where
  pub show : N → Bytes
  pub reads : (n : N) → stod (show n) ≡ some n
  pub digits : (n : N) → AllNumber (show n)
  pub some_digit : (n : N) → show n ≢ []

module _ {N : Type 0} (show : N → Bytes) where
  unfoldable mutual
    -- A value before a rest; the elements of an array, and the members of an object, with the bracket at
    -- their end.
    pub print : JsonValue N → Bytes → Bytes
    print null rest = bytes "null" ++ rest
    print (boolean true) rest = bytes "true" ++ rest
    print (boolean false) rest = bytes "false" ++ rest
    print (number n) rest = show n ++ rest
    print (string t) rest = 34 ∷ quoted t rest
    print (array xs) rest = b'[' ∷ print_items xs rest
    print (object fs) rest = b'{' ∷ print_fields fs rest

    pub print_items : Items N → Bytes → Bytes
    print_items nil rest = b']' ∷ rest
    print_items (cons v vs) rest = print v (more_items vs rest)

    pub more_items : Items N → Bytes → Bytes
    more_items nil rest = b']' ∷ rest
    more_items (cons v vs) rest = b',' ∷ print v (more_items vs rest)

    pub print_fields : Fields N → Bytes → Bytes
    print_fields end rest = b'}' ∷ rest
    print_fields (field k v fs) rest = 34 ∷ quoted k (b':' ∷ print v (more_fields fs rest))

    pub more_fields : Fields N → Bytes → Bytes
    more_fields end rest = b'}' ∷ rest
    more_fields (field k v fs) rest = b',' ∷ 34 ∷ quoted k (b':' ∷ print v (more_fields fs rest))

-- A rest that does not go on with a number.
abbrev pub Stops : Bytes → Type 0
Stops [] = Unit {0}
Stops (c ∷ s) = is_number_char c ≡ false

quoted-cons : (t rest : Bytes) → (d : ℕ) × (s : Bytes) × (quoted t rest ≡ d ∷ s)
quoted-cons [] rest = (34, rest, refl)
quoted-cons (c ∷ t) rest = from (escape c)
  where
    from :
        (e : Option ℕ)
        → (d : ℕ) × (s : Bytes) × ((elim e [
          | none ↦ c ∷ quoted t rest
          | some x ↦ 92 ∷ x ∷ quoted t rest
        ])
            ≡ d ∷ s)
    from none = (c, quoted t rest, refl)
    from (some x) = (92, x ∷ quoted t rest, refl)

read_string-step :
    (c d : ℕ) (s : Bytes)
    → read_string (c ∷ d ∷ s) ≡ (
        if c == 34
        then ([], d ∷ s)
        else if c == 92
        then (unescape d ∷ (read_string s).0, (read_string s).1)
        else (c ∷ (read_string (d ∷ s)).0, (read_string (d ∷ s)).1))
unfolding read_string
read_string-step c d s = refl

read_string-plain :
    (c d : ℕ) (s t rest : Bytes)
    → (c == 34) ≡ false
    → (c == 92) ≡ false
    → read_string (d ∷ s) ≡ (t, rest)
    → read_string (c ∷ d ∷ s) ≡ (c ∷ t, rest)
read_string-plain c d s t rest p q h = rw (read_string-step c d s, p, q, h) refl

-- A character is escaped as one that is read as it, or is neither a quote nor a backslash.
abbrev IsEscaped : ℕ → Option ℕ → Type 0
unfolding unescape
IsEscaped c (some e) = unescape e ≡ c
IsEscaped c none = ((c == 34) ≡ false) × ((c == 92) ≡ false)

escape-IsEscaped : (c : ℕ) → IsEscaped c (escape c)
unfolding unescape IsEscaped
escape-IsEscaped c = elim (Bool-cases (c == 34)) [
  | inl a ↦ rw a (sym ((==_iff c 34).0 a))
  | inr a ↦ elim (Bool-cases (c == 92)) [
    | inl b ↦ rw (a, b) (sym ((==_iff c 92).0 b))
    | inr b ↦ elim (Bool-cases (c == 10)) [
      | inl d ↦ rw (a, b, d) (sym ((==_iff c 10).0 d))
      | inr d ↦ elim (Bool-cases (c == 13)) [
        | inl e ↦ rw (a, b, d, e) (sym ((==_iff c 13).0 e))
        | inr e ↦ elim (Bool-cases (c == 9)) [
          | inl f ↦ rw (a, b, d, e, f) (sym ((==_iff c 9).0 f))
          | inr f ↦ rw (a, b, d, e, f) (a, b)
        ]
      ]
    ]
  ]
]

pub read_string-quoted : (t rest : Bytes) → read_string (quoted t rest) ≡ (t, rest)
unfolding read_string unescape IsEscaped
read_string-quoted [] [] = refl
read_string-quoted [] (c ∷ rest) = refl
read_string-quoted (c ∷ t) rest =
    from (escape c) (escape-IsEscaped c) (read_string-quoted t rest) (quoted-cons t rest)
  where
    from :
        (o : Option ℕ)
        → IsEscaped c o
        → read_string (quoted t rest) ≡ (t, rest)
        → (d : ℕ) × (s : Bytes) × (quoted t rest ≡ d ∷ s)
        → read_string (elim o [ none ↦ c ∷ quoted t rest | some x ↦ 92 ∷ x ∷ quoted t rest ])
          ≡ (c ∷ t, rest)
    from none (p, q) h (d, s, e) =
        rw e (read_string-plain c d s t rest p q (ap read_string (sym e) ∙ h))
    from (some x) same h (d, s, e) = rw (h, same) refl

pub read_number-show :
    (s rest : Bytes) → AllNumber s → Stops rest → read_number (s ++ rest) ≡ (s, rest)
unfolding read_number
read_number-show [] [] h k = refl
read_number-show [] (c ∷ rest) h k = rw k refl
read_number-show (c ∷ s) rest (h, hs) k = rw (read_number-show s rest hs k, h) refl
