-- ===== src/Audio/Braces.antt =====
-- The matching of braces in the audio editor (plugins/llm_audio_editor_plugin.cpp).
use cpp20_workflow_engine.Shared.{
  ℕ, zero, suc, ◌+◌, ◌-◌, ◌≤◌, ◌<◌, ◌≡◌, refl, ap, sym, ◌∙◌, ◌⊎◌, inl, inr, Bool, true, false, ◌&&◌,
  Bool-cases, some, [], ◌∷◌, length, take, drop, arith, ◌==◌, if◌then◌else◌, Bytes,
}
use cpp20_workflow_engine.Audio.Json.{closing}

-- What a byte does to the depth, and whether the search ends at it.
abbrev below : ℕ → ℕ → ℕ
below c depth = if c == b'{' then suc depth else if c == b'}' then depth - 1 else depth

abbrev closes : ℕ → ℕ → Bool
closes c depth = (c == b'}') && (depth == 1)

closing-step :
    (at depth c : ℕ) (s : Bytes)
    → closing at depth (c ∷ s)
      ≡ (if closes c depth then some at else closing (suc at) (below c depth) s)
unfolding closing
closing-step at depth c s = refl

-- How a search that succeeds goes on at a byte.
closing-cases :
    (at depth c : ℕ) (s : Bytes) (i : ℕ)
    → closing at depth (c ∷ s) ≡ some i
    → ((closes c depth ≡ true) × (at ≡ i))
      ⊎ ((closes c depth ≡ false) × (closing (suc at) (below c depth) s ≡ some i))
closing-cases at depth c s i h = elim (Bool-cases (closes c depth)) [
  | inl e ↦
      let here : closing at depth (c ∷ s) ≡ some at = rw (closing-step at depth c s, e) refl in
      inl (e, cc)
  | inr e ↦
      let later : closing at depth (c ∷ s) ≡ closing (suc at) (below c depth) s =
        rw (closing-step at depth c s, e) refl in
      inr (e, sym later ∙ h)
]

pub closing-bounds :
    (at depth : ℕ) (s : Bytes) (i : ℕ)
    → closing at depth s ≡ some i
    → (at ≤ i) × (i < at + length s)
unfolding closing
closing-bounds at depth [] i h = cc
closing-bounds at depth (c ∷ s) i h = elim (closing-cases at depth c s i h) [
  | inl (e, p) ↦ (omega (arith, p), omega (arith, p))
  | inr (e, later) ↦
      let (low, high) = closing-bounds (suc at) (below c depth) s i later in
      (omega (arith, low), omega (arith, high))
]

-- From a position on the way, at some depth, the search finds the same brace.
pub closing-later :
    (k at depth : ℕ) (s : Bytes) (i to : ℕ)
    → 1 ≤ depth
    → closing at depth s ≡ some i
    → to ≡ at + k
    → to ≤ i
    → (depth' : ℕ) × (1 ≤ depth') × (closing to depth' (drop k s) ≡ some i)
unfolding closing
closing-later zero at depth s i to d h e le =
    let same : to ≡ at = omega (arith, e) in (depth, d, rw same h)
closing-later (suc k) at depth [] i to d h e le = cc
closing-later (suc k) at depth (c ∷ s) i to d h e le = elim (closing-cases at depth c s i h) [
  | inl (f, p) ↦ absurd (omega (arith, p, e))
  | inr (f, later) ↦
      closing-later k (suc at) (below c depth) s i to (ground (arith, f)) later (omega (arith, e))
        le
]

-- A search from a lower depth ends before one that has `d` levels more to come back.
pub closing-inner :
    (m e d at : ℕ) (s : Bytes) (i : ℕ)
    → 1 ≤ d
    → 1 ≤ e
    → closing at (e + d) s ≡ some i
    → i ≡ at + m
    → (j : ℕ) × (closing at e (take m s) ≡ some j)
unfolding closing
closing-inner m e d at [] i hd he h p = cc
closing-inner zero e d at (c ∷ s) i hd he h p = elim (closing-cases at (e + d) c s i h) [
  | inl (f, q) ↦ absurd (ground (arith, f))
  | inr (f, later) ↦ absurd (omega (arith, p, closing-bounds (suc at) (below c (e + d)) s i later))
]
closing-inner (suc m) e d at (c ∷ s) i hd he h p = elim (closing-cases at (e + d) c s i h) [
  | inl (f, q) ↦ absurd (omega (arith, p, q))
  | inr (f, later) ↦ elim (Bool-cases (closes c e)) [
    | inl g ↦ (at, rw (closing-step at e c (take m s), g) refl)
    | inr g ↦
        let step : below c (e + d) ≡ below c e + d = ground (arith, g) in
        let (j, r) =
          closing-inner m (below c e) d (suc at) s i hd (ground (arith, g))
            (ap (λ n. closing (suc at) n s) (sym step) ∙ later) (omega (arith, p)) in
        (j, rw (closing-step at e c (take m s), g) r)
  ]
]

-- An opening brace raises the depth.
pub closing-open :
    (at depth : ℕ) (s : Bytes) → closing at depth (b'{' ∷ s) ≡ closing (suc at) (suc depth) s
unfolding closing
closing-open at depth s = refl
