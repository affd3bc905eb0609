-- ===== src/Segments.antt =====
-- The splitting of long texts in the text analyzer (plugins/llm_text_analyzer_plugin.cpp). `start` is
-- not kept: the text that is left stands for it, and positions count from there.
use cpp20_workflow_engine.Shared.{
  ℕ, zero, suc, ◌+◌, ◌≤◌, ◌<◌, ◌≡◌, refl, ap, ◌∙◌, Bool, false, ◌&&◌, Bool-cases, inl, inr, Option,
  none, some, Option-cases, List, [], ◌∷◌, ◌++◌, append-nil, length, length-take, length-drop, take,
  drop, arith, ◌==◌, leb, ltb, if◌then◌else◌, Bytes,
}
use cpp20_workflow_engine.Cli.{take-drop}

abbrev pub is_break : Bytes → Bool
is_break (a ∷ b ∷ s) = (a == 10) && (b == 10)
is_break _ = false

abbrev pub is_byte : ℕ → Bytes → Bool
is_byte c [] = false
is_byte c (b ∷ s) = b == c

-- The last position up to `limit` at which `test` holds, as of `rfind`.
unfoldable pub rfind : (Bytes → Bool) → ℕ → Bytes → Option ℕ
rfind test limit [] = none
rfind test zero (b ∷ s) = if test (b ∷ s) then some 0 else none
rfind test (suc n) (b ∷ s) = elim (rfind test n s) [
  | some p ↦ some (suc p)
  | none ↦ if test (b ∷ s) then some 0 else none
]

-- `pos != npos && pos > start`
abbrev pub beyond_start : Option ℕ → Option ℕ
beyond_start none = none
beyond_start (some zero) = none
beyond_start (some (suc p)) = some (suc p)

-- The three bytes of the Chinese full stop.
abbrev pub is_full_stop : Bytes → Bool
is_full_stop (a ∷ b ∷ c ∷ s) = (a == 227) && (b == 128) && (c == 130)
is_full_stop _ = false

-- `best`: behind the last '.', or behind a Chinese full stop that lies beyond that.
unfoldable pub sentence_end : ℕ → Bytes → Option ℕ
unfolding rfind
sentence_end max_chars s =
    let sent = beyond_start (rfind (is_byte b'.') max_chars s) in
    let best : Option ℕ = elim sent [ none ↦ none | some p ↦ some (p + 1) ] in
    elim (beyond_start (rfind (is_byte 227) max_chars s)) [
      | none ↦ best
      | some q ↦
          let least : ℕ = elim best [ none ↦ 0 | some p ↦ p ] in
          if ltb least q && is_full_stop (drop q s) then some (q + 3) else best
    ]

-- The length of the next chunk.
unfoldable pub chunk_end : ℕ → Bytes → ℕ
unfolding rfind sentence_end
chunk_end max_chars s = elim (beyond_start (rfind is_break max_chars s)) [
  | some p ↦ p + 2
  | none ↦ elim (sentence_end max_chars s) [ some p ↦ p | none ↦ max_chars ]
]

-- The loop; `none` means that the fuel ran out.
unfoldable pub split_loop : ℕ → ℕ → Bytes → Option (List Bytes)
unfolding chunk_end
split_loop max_chars zero s = none
split_loop max_chars (suc fuel) [] = some []
split_loop max_chars (suc fuel) (b ∷ s) =
    let end = chunk_end max_chars (b ∷ s) in
    let rest = split_loop max_chars fuel (drop end (b ∷ s)) in
    if leb (length (b ∷ s)) max_chars
    then some ((b ∷ s) ∷ [])
    else elim rest [ none ↦ none | some chunks ↦ some (take end (b ∷ s) ∷ chunks) ]

unfoldable pub split_text : ℕ → Bytes → Option (List Bytes)
unfolding split_loop
split_text max_chars text =
    if leb (length text) max_chars
    then some (text ∷ [])
    else split_loop max_chars (suc (length text)) text

abbrev pub join : List Bytes → Bytes
join [] = []
join (s ∷ ss) = s ++ join ss

-- No chunk is longer than `n`.
abbrev pub AllWithin : ℕ → List Bytes → Type 0
AllWithin n [] = Unit {0}
AllWithin n (s ∷ ss) = (length s ≤ n) × AllWithin n ss

rfind-le :
    (test : Bytes → Bool) (limit : ℕ) (s : Bytes) (p : ℕ) → rfind test limit s ≡ some p → p ≤ limit
unfolding rfind
rfind-le test limit [] p e = cc
rfind-le test zero (b ∷ s) p e = ground arith
rfind-le test (suc n) (b ∷ s) p e = elim (Option-cases (rfind test n s)) [
  | inl none_there ↦ ground (arith, none_there)
  | inr (q, there) ↦ ground (arith, there, rfind-le test n s q there)
]

beyond_start-le :
    (o : Option ℕ) (limit p : ℕ)
    → ((q : ℕ) → o ≡ some q → q ≤ limit)
    → beyond_start o ≡ some p
    → p ≤ limit
beyond_start-le none limit p h e = cc
beyond_start-le (some zero) limit p h e = cc
beyond_start-le (some (suc q)) limit p h e = ground (arith, h (suc q) refl)

sentence_end-le :
    (max_chars : ℕ) (s : Bytes) (p : ℕ) → sentence_end max_chars s ≡ some p → p ≤ max_chars + 3
unfolding sentence_end
sentence_end-le max_chars s p e =
    elim (Option-cases (beyond_start (rfind (is_byte b'.') max_chars s))) [
      | inl no_dot ↦ elim (Option-cases (beyond_start (rfind (is_byte 227) max_chars s))) [
        | inl no_stop ↦ ground (arith, no_dot, no_stop)
        | inr (q, stop) ↦ ground (arith, no_dot, stop, within (is_byte 227) q stop)
      ]
      | inr (d, dot) ↦ elim (Option-cases (beyond_start (rfind (is_byte 227) max_chars s))) [
        | inl no_stop ↦ ground (arith, dot, no_stop, within (is_byte b'.') d dot)
        | inr (q, stop) ↦
            ground (arith, dot, stop, within (is_byte b'.') d dot, within (is_byte 227) q stop)
      ]
    ]
  where
    within :
        (test : Bytes → Bool) (q : ℕ)
        → beyond_start (rfind test max_chars s) ≡ some q
        → q ≤ max_chars
    within test q = beyond_start-le (rfind test max_chars s) max_chars q (rfind-le test max_chars s)

chunk_end-le : (max_chars : ℕ) (s : Bytes) → chunk_end max_chars s ≤ max_chars + 3
unfolding chunk_end
chunk_end-le max_chars s = elim (Option-cases (beyond_start (rfind is_break max_chars s))) [
  | inr (p, e) ↦ ground (
    arith,
    e,
    beyond_start-le (rfind is_break max_chars s) max_chars p (rfind-le is_break max_chars s) e,
  )
  | inl no_break ↦ elim (Option-cases (sentence_end max_chars s)) [
    | inl e ↦ ground (arith, no_break, e)
    | inr (p, e) ↦ ground (arith, no_break, e, sentence_end-le max_chars s p e)
  ]
]

sentence_end-positive :
    (max_chars : ℕ) (s : Bytes) (p : ℕ) → sentence_end max_chars s ≡ some p → 0 < p
unfolding sentence_end
sentence_end-positive max_chars s p e = ground arith

chunk_end-positive : (max_chars : ℕ) (s : Bytes) → 0 < max_chars → 0 < chunk_end max_chars s
unfolding chunk_end
chunk_end-positive max_chars s h = elim (Option-cases (sentence_end max_chars s)) [
  | inl e ↦ ground (arith, e)
  | inr (p, e) ↦ ground (arith, e, sentence_end-positive max_chars s p e)
]

split_loop_lem :
    (max_chars fuel : ℕ) (s : Bytes)
    → 0 < max_chars
    → length s < fuel
    → (chunks : List Bytes) × (split_loop max_chars fuel s ≡ some chunks)
      × (join chunks ≡ s)
      × AllWithin (max_chars + 3) chunks
unfolding split_loop
split_loop_lem max_chars zero s h f = absurd (omega arith)
split_loop_lem max_chars (suc fuel) [] h f = ([], refl, refl, tt)
split_loop_lem max_chars (suc fuel) (b ∷ s) h f =
    elim (Bool-cases (leb (length (b ∷ s)) max_chars)) [
      | inl small ↦ ((b ∷ s) ∷ [], rw small refl, append-nil (b ∷ s), (ground arith, tt))
      | inr large ↦
          let end = chunk_end max_chars (b ∷ s) in
          let (chunks, e, whole, short) =
            split_loop_lem max_chars fuel (drop end (b ∷ s)) h
              (omega (arith, length-drop end (b ∷ s), chunk_end-positive max_chars (b ∷ s) h)) in
          (
            take end (b ∷ s) ∷ chunks,
            rw (large, e) refl,
            ap (λ r. take end (b ∷ s) ++ r) whole ∙ take-drop end (b ∷ s),
            (omega (arith, length-take end (b ∷ s), chunk_end-le max_chars (b ∷ s)), short),
          )
    ]

-- For a positive limit the splitting of any text ends, the chunks joined are the text, and none is
-- longer than the limit by more than three bytes.
pub split_text_lem :
    (max_chars : ℕ) (text : Bytes)
    → 0 < max_chars
    → (chunks : List Bytes) × (split_text max_chars text ≡ some chunks)
      × (join chunks ≡ text)
      × AllWithin (max_chars + 3) chunks
unfolding split_text
split_text_lem max_chars text h = elim (Bool-cases (leb (length text) max_chars)) [
  | inl small ↦ (text ∷ [], rw small refl, append-nil text, (ground arith, tt))
  | inr large ↦
      let (chunks, e, whole, short) =
        split_loop_lem max_chars (suc (length text)) text h (omega arith) in
      (chunks, rw (large, e) refl, whole, short)
]
