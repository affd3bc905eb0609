-- ===== src/Analyzer/Escape.antt =====
-- jsonEscape against jsonExtractString (plugins/llm_text_analyzer_plugin.cpp).
use cpp20_workflow_engine.Shared.{
  ℕ, ◌≤◌, ◌≡◌, ◌≢◌, ◌⊎◌, refl, ap, ◌∙◌, inl, inr, true, false, Bool-cases, some, [], ◌∷◌, ◌++◌,
  append_assoc, length, drop, arith, ◌==◌, Bytes,
}
use cpp20_workflow_engine.Analyzer.Text.{
  starts_with, find, escape_byte, json_escape, skip_colon, read_quoted, value_of,
  json_extract_string,
}

-- No byte is a control character, but for tab, line feed and carriage return.
abbrev pub IsPlain : Bytes → Type 0
IsPlain [] = Unit {0}
IsPlain (c ∷ s) = ((32 ≤ c) ⊎ (c ≡ 9) ⊎ (c ≡ 10) ⊎ (c ≡ 13)) × IsPlain s

abbrev pub NoQuote : Bytes → Type 0
NoQuote [] = Unit {0}
NoQuote (c ∷ s) = (c ≢ 34) × NoQuote s

starts_with-append : (p s : Bytes) → starts_with p (p ++ s) ≡ true
unfolding starts_with
starts_with-append [] s = refl
starts_with-append (a ∷ p) s = ground (arith, starts_with-append p s)

drop-append : (p s : Bytes) → drop (length p) (p ++ s) ≡ s
drop-append [] s = refl
drop-append (a ∷ p) s = drop-append p s

-- A text that begins with a quote is found behind a text without one.
find-append :
    (p key s : Bytes)
    → NoQuote p
    → find (34 ∷ key) (p ++ ((34 ∷ key) ++ s)) ≡ some (p, (34 ∷ key) ++ s)
unfolding find starts_with
find-append [] key s h = ground (arith, starts_with-append key s)
find-append (c ∷ p) key s (ne, h) =
    let off : (34 == c) ≡ false = ground arith in rw (find-append p key s h, off) refl

read_quoted-byte : (c : ℕ) (t : Bytes) → c ≢ 34 → c ≢ 92 → read_quoted (c ∷ t) ≡ c ∷ read_quoted t
unfolding read_quoted
read_quoted-byte c [] h k = ground arith
read_quoted-byte c (d ∷ t) h k = ground arith

escape_byte-IsSelf : (c : ℕ) → 32 ≤ c → c ≢ 34 → c ≢ 92 → escape_byte c ≡ c ∷ []
unfolding escape_byte
escape_byte-IsSelf c h q b = ground arith

read_quoted-escape_byte-plain :
    (c : ℕ) (t : Bytes) → 32 ≤ c → read_quoted (escape_byte c ++ t) ≡ c ∷ read_quoted t
read_quoted-escape_byte-plain c t h = elim (Bool-cases (c == 34)) [
  | inl e ↦ let p : c ≡ 34 = ground arith in rw p (unfold escape_byte in unfold read_quoted in refl)
  | inr e ↦ elim (Bool-cases (c == 92)) [
    | inl e' ↦
        let p : c ≡ 92 = ground arith in rw p (unfold escape_byte in unfold read_quoted in refl)
    | inr e' ↦
        let q : c ≢ 34 = ground arith in
        let b : c ≢ 92 = ground arith in rw (escape_byte-IsSelf c h q b) (read_quoted-byte c t q b)
  ]
]

read_quoted-escape_byte :
    (c : ℕ) (t : Bytes)
    → (32 ≤ c) ⊎ (c ≡ 9) ⊎ (c ≡ 10) ⊎ (c ≡ 13)
    → read_quoted (escape_byte c ++ t) ≡ c ∷ read_quoted t
read_quoted-escape_byte c t (inl h) = read_quoted-escape_byte-plain c t h
read_quoted-escape_byte c t (inr (inl p)) = rw p (unfold escape_byte in unfold read_quoted in refl)
read_quoted-escape_byte c t (inr (inr (inl p))) =
    rw p (unfold escape_byte in unfold read_quoted in refl)
read_quoted-escape_byte c t (inr (inr (inr p))) =
    rw p (unfold escape_byte in unfold read_quoted in refl)

read_quoted-json_escape :
    (s rest : Bytes) → IsPlain s → read_quoted (json_escape s ++ 34 ∷ rest) ≡ s
unfolding json_escape
read_quoted-json_escape [] [] h = unfold read_quoted in refl
read_quoted-json_escape [] (b ∷ rest) h = unfold read_quoted in refl
read_quoted-json_escape (c ∷ s) rest (h, hs) =
    ap read_quoted (append_assoc (escape_byte c) (json_escape s) (34 ∷ rest))
    ∙ read_quoted-escape_byte c (json_escape s ++ 34 ∷ rest) h
    ∙ ap (λ r. c ∷ r) (read_quoted-json_escape s rest hs)

-- The first field of a text is found, and the value is what follows its colons and blanks.
pub value_of-append :
    (before key tail : Bytes)
    → NoQuote before
    → value_of (before ++ ((34 ∷ (key ++ 34 ∷ [])) ++ tail)) key ≡ some (skip_colon tail)
unfolding value_of
value_of-append before key tail h =
    rw (value_of, find-append before (key ++ 34 ∷ []) tail h)
      (ap (λ t. some (skip_colon t)) (drop-append (34 ∷ (key ++ 34 ∷ [])) tail))

-- A field whose value is an escaped text is read back as that text, behind any text without quotes, if
-- the text has no control characters but tabs, line feeds and carriage returns.
pub json_extract_string-json_escape :
    (before key s rest : Bytes)
    → NoQuote before
    → IsPlain s
    → json_extract_string
        (before ++ ((34 ∷ (key ++ 34 ∷ [])) ++ (58 ∷ 34 ∷ (json_escape s ++ 34 ∷ rest))))
        key
      ≡ s
unfolding json_extract_string
json_extract_string-json_escape before key s rest h k =
    rw (json_extract_string, value_of-append before key (58 ∷ 34 ∷ (json_escape s ++ 34 ∷ rest)) h)
      (unfold skip_colon in read_quoted-json_escape s rest k)
