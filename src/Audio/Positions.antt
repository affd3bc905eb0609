-- ===== src/Audio/Positions.antt =====
-- Positions in the text of edit commands, and the end of the loop over sources
-- (plugins/llm_audio_editor_plugin.cpp).
use cpp20_workflow_engine.Shared.{
  ℕ, zero, suc, ◌+◌, ◌-◌, ◌≤◌, ◌<◌, ◌≡◌, refl, ap, sym, ◌∙◌, inl, inr, Bool, true, false, ◌||◌,
  Bool-cases, none, some, Option-cases, List, [], ◌∷◌, ◌++◌, List-cases, length, drop-drop, take,
  drop, arith, ◌==◌, leb, ==_iff, if◌then◌else◌, Bytes,
}
use cpp20_workflow_engine.Analyzer.Text.{find}
use cpp20_workflow_engine.Audio.Json.{
  is_at, find_from, between, skip_ws_at, parse_json_string, find_key, closing,
}
use cpp20_workflow_engine.Audio.Commands.{read_sources}
use cpp20_workflow_engine.Audio.Braces.{closing-open, closing-later, closing-inner}

pub skip_ws_at-le : (s : Bytes) (at : ℕ) → at ≤ skip_ws_at s at
unfolding skip_ws_at
skip_ws_at-le s at = omega arith

parse_json_string-lt : (s : Bytes) (at : ℕ) → is_at s at 34 ≡ true → at < (parse_json_string s at).1
unfolding parse_json_string
parse_json_string-lt s at h = rw (parse_json_string, h) (omega arith)

abbrev pub stops : Bytes → ℕ → ℕ → ℕ → Bool
stops json end from at = leb end from || leb end at || is_at json at b']'

pub read_sources-ends :
    (fuel : ℕ) (json : Bytes) (obj_end src_pos : ℕ)
    → obj_end - src_pos < fuel
    → (l : List Bytes) × (read_sources fuel json obj_end src_pos ≡ some l)
unfolding read_sources
read_sources-ends zero json obj_end src_pos h = absurd (omega arith)
read_sources-ends (suc fuel) json obj_end src_pos h =
    let at = skip_ws_at json src_pos in
    let on = skip_ws_at-le json src_pos in
    elim (Bool-cases (stops json obj_end src_pos at)) [
      | inl e ↦ ([], rw (read_sources, e) refl)
      | inr e ↦ elim (Bool-cases (is_at json at 34)) [
        | inl q ↦
            let (l, r) =
              read_sources-ends fuel json obj_end (parse_json_string json at).1
                (ground (arith, e, on, parse_json_string-lt json at q)) in
            ((parse_json_string json at).0 ∷ l, rw (read_sources, e, q, r) refl)
        | inr q ↦
            let (l, r) = read_sources-ends fuel json obj_end (at + 1) (ground (arith, e, on)) in
            (l, rw (read_sources, e, q, r) refl)
      ]
    ]

take-nil : (n : ℕ) → take {A = ℕ} n [] ≡ []
take-nil zero = refl
take-nil (suc n) = refl

drop-take : (a n : ℕ) (s : Bytes) → drop a (take (a + n) s) ≡ take n (drop a s)
drop-take zero n s = let e : 0 + n ≡ n = omega arith in ap (λ k. take k s) e
drop-take (suc a) n [] = ap (drop (suc a)) (take-nil (suc a + n)) ∙ sym (take-nil n)
drop-take (suc a) n (c ∷ s) =
    let e : suc a + n ≡ suc (a + n) = omega arith in
    ap (λ k. drop (suc a) (take k (c ∷ s))) e ∙ drop-take a n s

-- A brace opens at a position.
opening :
    (json : Bytes) (at c : ℕ) → is_at json at c ≡ true → (rest : Bytes) × (drop at json ≡ c ∷ rest)
opening json at c h = elim (List-cases (drop at json)) [
  | inl e ↦ let none_there : is_at json at c ≡ false = rw (is_at, e) refl in cc
  | inr (b, rest, e) ↦
      let there : is_at json at c ≡ (b == c) = rw (is_at, e) refl in
      let same : b ≡ c = (==_iff b c).0 (sym there ∙ h) in (rest, e ∙ ap (λ x. x ∷ rest) same)
]

one_more : (d : ℕ) → 1 + d ≡ suc d
one_more d = omega arith

-- A brace inside the braces of a command is closed before their end.
pub inside :
    (json : Bytes) (obj_start obj_end at : ℕ)
    → is_at json obj_start b'{' ≡ true
    → closing obj_start 0 (drop obj_start json) ≡ some obj_end
    → obj_start < at
    → at < obj_end
    → is_at json at b'{' ≡ true
    → (i : ℕ) × (closing at 0 (drop at (between json 0 obj_end)) ≡ some i)
inside json obj_start obj_end at o h lo hi q =
    let (rest, e) = opening json obj_start b'{' o in
    let (rest', e') = opening json at b'{' q in
    let from_open : closing obj_start 0 (b'{' ∷ rest) ≡ some obj_end =
      ap (closing obj_start 0) (sym e) ∙ h in
    let k : ℕ = at - suc obj_start in
    let there : at ≡ obj_start + suc k = omega arith in
    let here : drop k rest ≡ b'{' ∷ rest' =
      sym (ap (drop (suc k)) e)
      ∙ sym (drop-drop obj_start (suc k) json)
      ∙ ap (λ n. drop n json) (sym there)
      ∙ e' in
    let (d, positive, on_way) =
      closing-later k (suc obj_start) 1 rest obj_end at (omega arith)
        (sym (closing-open obj_start 0 rest) ∙ from_open) (omega arith) (omega arith) in
    let deeper : closing (suc at) (suc d) rest' ≡ some obj_end =
      sym (closing-open at d rest') ∙ ap (closing at d) (sym here) ∙ on_way in
    let m : ℕ = obj_end - suc at in
    let (j, found) =
      closing-inner m 1 d (suc at) rest' obj_end positive (omega arith)
        (ap (λ n. closing (suc at) n rest') (one_more d) ∙ deeper) (omega arith) in
    let length_left : obj_end - 0 ≡ at + suc m = omega arith in
    let text : drop at (between json 0 obj_end) ≡ b'{' ∷ take m rest' =
      ap (λ n. drop at (take n json)) length_left
      ∙ drop-take at (suc m) json
      ∙ ap (take (suc m)) e' in
    (j, ap (closing at 0) text ∙ closing-open at 0 (take m rest') ∙ found)

find_from-le : (s : Bytes) (at p : ℕ) (mark : Bytes) → find_from s at mark ≡ some p → at ≤ p
unfolding find_from
find_from-le s at p mark h = elim (Option-cases (find mark (drop at s))) [
  | inl e ↦ let none_found : find_from s at mark ≡ none = rw (find_from, e) refl in absurd (cc)
  | inr ((before, from), e) ↦
      let found : find_from s at mark ≡ some (at + length before) = rw (find_from, e) refl in
      let same : at + length before ≡ p = cc in omega (arith, same)
]

pub find_key-le :
    (s : Bytes) (start p : ℕ) (key : Bytes) → find_key s start key ≡ some p → start ≤ p
unfolding find_key
find_key-le s start p key h =
    let search : Bytes = 34 ∷ (key ++ 34 ∷ []) in
    elim (Option-cases (find_from s start search)) [
      | inl e ↦ let none_found : find_key s start key ≡ none = rw (find_key, e) refl in absurd (cc)
      | inr (q, e) ↦
          let at = skip_ws_at s (q + length search) in
          let found : find_key s start key
              ≡ some (if is_at s at b':' then skip_ws_at s (at + 1) else at) =
            rw (find_key, e) refl in
          let same : (if is_at s at b':' then skip_ws_at s (at + 1) else at) ≡ p = cc in
          ground (
            arith,
            same,
            find_from-le s start q search e,
            skip_ws_at-le s (q + length search),
            skip_ws_at-le s (at + 1),
          )
    ]
