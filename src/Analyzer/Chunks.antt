-- ===== src/Analyzer/Chunks.antt =====
-- The chunked transfer encoding and its decoding (`unchunk` of plugins/llm_text_analyzer_plugin.cpp).
use cpp20_workflow_engine.Shared.{
  ℕ, zero, suc, ◌+◌, ◌%◌, ◌^◌, ◌<◌, ◌≡◌, ◌≢◌, refl, ap, sym, ◌∙◌, true, false, Option, none, some,
  List, [], ◌∷◌, ◌++◌, append-nil, append_assoc, length, length-append, length-drop, drop-drop,
  take, drop, arith, ◌==◌, ltb, Bytes,
}
use cpp20_workflow_engine.Analyzer.Text.{starts_with, find}
use cpp20_workflow_engine.Analyzer.Http.{crlf, size_text, read_chunk, unchunk_from, unchunk}

-- No byte is a carriage return.
abbrev pub NoCr : Bytes → Type 0
NoCr [] = Unit {0}
NoCr (c ∷ s) = (c ≢ 13) × NoCr s

-- Chunks as a server sends them: the text of the size, extensions included, and the data.
unfoldable pub encode : List (Bytes × Bytes) → Bytes → Bytes
encode [] last = last
encode ((size_str, chunk) ∷ chunks) last =
    size_str ++ 13 ∷ 10 ∷ (chunk ++ 13 ∷ 10 ∷ encode chunks last)

abbrev pub payload : List (Bytes × Bytes) → Bytes
payload [] = []
payload ((size_str, chunk) ∷ chunks) = chunk ++ payload chunks

-- Every size text has no carriage return and is read as the length of its chunk, which is not 0.
abbrev pub IsSized : (Bytes → Option ℕ) → List (Bytes × Bytes) → Type 0
unfolding size_text
IsSized stoul [] = Unit {0}
IsSized stoul ((size_str, chunk) ∷ chunks) =
    NoCr size_str
    × (stoul (size_text size_str) ≡ some (length chunk))
    × (0 < length chunk)
    × IsSized stoul chunks

find-crlf : (t u : Bytes) → NoCr t → find crlf (t ++ 13 ∷ 10 ∷ u) ≡ some (t, 13 ∷ 10 ∷ u)
unfolding find starts_with
find-crlf [] u h = refl
find-crlf (c ∷ t) u (ne, h) =
    let off : (13 == c) ≡ false = ground arith in rw (find-crlf t u h, off) refl

take-append : (s t : Bytes) → take (length s) (s ++ t) ≡ s
take-append [] t = refl
take-append (c ∷ s) t = ap (λ r. c ∷ r) (take-append s t)

drop_append : (s t : Bytes) → drop (length s) (s ++ t) ≡ t
drop_append [] t = refl
drop_append (c ∷ s) t = drop_append s t

-- What is left behind a text and two more bytes.
drop_line :
    (s : Bytes) (at : ℕ) (t u : Bytes) (a b : ℕ)
    → drop at s ≡ t ++ a ∷ b ∷ u
    → drop (at + length t + 2) s ≡ u
drop_line s at t u a b h =
    drop-drop (at + length t) 2 s
    ∙ ap (drop 2) (drop-drop at (length t) s ∙ ap (drop (length t)) h ∙ drop_append t (a ∷ b ∷ u))

drop-length : (at : ℕ) (s t : Bytes) → drop at s ≡ t → 0 < length t → at + length t ≡ length s
drop-length at s t h some_left = omega (arith, length-drop at s, ap length h)

module _ (stoul : Bytes → Option ℕ) (s : Bytes) (at : ℕ) (size_str rest : Bytes)
    (small : length s < 2 ^ 64) (here : drop at s ≡ size_str ++ 13 ∷ 10 ∷ rest)
    (no_cr : NoCr size_str) where
  some_left : 0 < length (size_str ++ 13 ∷ 10 ∷ rest)
  some_left = omega (arith, length-append size_str (13 ∷ 10 ∷ rest))

  line_end : at + length size_str + 2 + length rest ≡ length s
  line_end = omega (
    arith,
    drop-length at s (size_str ++ 13 ∷ 10 ∷ rest) here some_left,
    length-append size_str (13 ∷ 10 ∷ rest),
  )

  in_bounds : ltb at (length s) ≡ true
  in_bounds = ground (arith, line_end)

  found : find crlf (drop at s) ≡ some (size_str, 13 ∷ 10 ∷ rest)
  found = ap (find crlf) here ∙ find-crlf size_str rest no_cr

  read_chunk-last : stoul (size_text size_str) ≡ some 0 → read_chunk stoul s at ≡ none
  unfolding read_chunk
  read_chunk-last h = rw (read_chunk, in_bounds, found, h) refl

  read_chunk-data :
      (chunk more : Bytes)
      → stoul (size_text size_str) ≡ some (length chunk)
      → 0 < length chunk
      → rest ≡ chunk ++ 13 ∷ 10 ∷ more
      → read_chunk stoul s at ≡ some (at + length size_str + 2 + length chunk + 2, chunk)
  unfolding read_chunk
  read_chunk-data chunk more h positive split =
      let size : length rest ≡ length chunk + 2 + length more =
        omega (arith, ap length split, length-append chunk (13 ∷ 10 ∷ more)) in
      let start : ℕ = at + length size_str + 2 in
      let whole : (start + length chunk) % 2 ^ 64 ≡ start + length chunk =
        omega (arith, line_end) in
      let next : (start + length chunk + 2) % 2 ^ 64 ≡ start + length chunk + 2 =
        omega (arith, line_end) in
      let nonempty : (length chunk == 0) ≡ false = ground arith in
      let inside : ltb (length s) (start + length chunk) ≡ false = ground (arith, line_end) in
      let text : take (length chunk) (drop start s) ≡ chunk =
        ap (take (length chunk)) (drop_line s at size_str rest 13 10 here ∙ split)
        ∙ take-append chunk (13 ∷ 10 ∷ more) in
      rw (read_chunk, in_bounds, found, h, nonempty, whole, inside, next, text) refl

unchunk_from-encode :
    (stoul : Bytes → Option ℕ) (s : Bytes) (chunks : List (Bytes × Bytes)) (at fuel : ℕ)
    (result size_str rest : Bytes)
    → length s < 2 ^ 64
    → length chunks < fuel
    → drop at s ≡ encode chunks (size_str ++ 13 ∷ 10 ∷ rest)
    → IsSized stoul chunks
    → NoCr size_str
    → stoul (size_text size_str) ≡ some 0
    → unchunk_from stoul fuel s at result ≡ some (result ++ payload chunks)
unfolding unchunk_from encode
unchunk_from-encode stoul s chunks at zero result size_str rest small enough here sized no_cr
      zero_size =
    ground arith
unchunk_from-encode stoul s [] at (suc fuel) result size_str rest small enough here sized no_cr
      zero_size =
    rw (unchunk_from, read_chunk-last stoul s at size_str rest small here no_cr zero_size)
      (ap some (sym (append-nil result)))
unchunk_from-encode stoul s ((t, chunk) ∷ chunks) at (suc fuel) result size_str rest small enough
      here (cr, size, positive, sized) no_cr zero_size =
    let more = encode chunks (size_str ++ 13 ∷ 10 ∷ rest) in
    let next : ℕ = at + length t + 2 + length chunk + 2 in
    let left : length chunks < fuel = omega arith in
    let there : drop next s ≡ more =
      drop_line s (at + length t + 2) chunk more 13 10
        (drop_line s at t (chunk ++ 13 ∷ 10 ∷ more) 13 10 here) in
    rw
      (
        unchunk_from,
        read_chunk-data stoul s at t (chunk ++ 13 ∷ 10 ∷ more) small here cr chunk more size
            positive refl,
      )
      (unchunk_from-encode stoul s chunks next fuel (result ++ chunk) size_str rest small left there
          sized no_cr zero_size
        ∙ ap some (append_assoc result chunk (payload chunks)))

-- Chunks that are encoded with the right sizes and ended by a chunk of size 0 are decoded to their
-- data, whatever follows the last chunk's line, if no size text has a carriage return, no chunk before the last is empty and the
-- encoding is shorter than 2^64 bytes; one round more than there are chunks is fuel enough.
pub unchunk-encode :
    (stoul : Bytes → Option ℕ) (chunks : List (Bytes × Bytes)) (fuel : ℕ) (size_str rest : Bytes)
    → length (encode chunks (size_str ++ 13 ∷ 10 ∷ rest)) < 2 ^ 64
    → length chunks < fuel
    → IsSized stoul chunks
    → NoCr size_str
    → stoul (size_text size_str) ≡ some 0
    → unchunk stoul fuel (encode chunks (size_str ++ 13 ∷ 10 ∷ rest)) ≡ some (payload chunks)
unfolding unchunk
unchunk-encode stoul chunks fuel size_str rest small enough sized no_cr zero_size =
    unchunk_from-encode stoul (encode chunks (size_str ++ 13 ∷ 10 ∷ rest)) chunks 0 fuel [] size_str
      rest small enough refl sized no_cr zero_size
