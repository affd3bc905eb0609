-- ===== src/Analyzer/Tally.antt =====
-- Counting the worker threads of LlmTextAnalyzerNode by what they do
-- (plugins/llm_text_analyzer_plugin.cpp).
use cpp20_workflow_engine.Shared.{
  ℕ, zero, suc, ◌+◌, ◌≤◌, ◌<◌, ◌≡◌, refl, ap, true, some, List, [], ◌∷◌, ◌++◌, length, arith, ◌==◌,
  if◌then◌else◌,
}
use cpp20_workflow_engine.Shared.Int.{ℤ, pos, negsuc}
use cpp20_workflow_engine.Analyzer.Workers.{
  n_par, get_elem?, set_elem, Worker, ready, busy, gone, all_ready, all_gone,
}

-- How often a number is in a list.
abbrev pub times : ℕ → List ℕ → ℕ
times i [] = 0
times i (x ∷ xs) = (if x == i then 1 else 0) + times i xs

abbrev pub tally : {A : Type 0} → (A → ℕ) → List A → ℕ
tally f [] = 0
tally f (x ∷ xs) = f x + tally f xs

abbrev pub is_gone : Worker → ℕ
is_gone gone = 1
is_gone _ = 0

abbrev pub is_busy : Worker → ℕ
is_busy (busy j) = 1
is_busy _ = 0

abbrev pub is_at : ℕ → Worker → ℕ
is_at i (busy j) = if j == i then 1 else 0
is_at i _ = 0

pub tally-set_elem :
    {A : Type 0} (f : A → ℕ) (k : ℕ) (x y : A) (ws : List A)
    → get_elem? k ws ≡ some x
    → tally f (set_elem k y ws) + f x ≡ tally f ws + f y
tally-set_elem f k x y [] h = cc
tally-set_elem f zero x y (w ∷ ws) h = let e : f w ≡ f x = ap f (cc) in omega (arith, e)
tally-set_elem f (suc k) x y (w ∷ ws) h = omega (arith, tally-set_elem f k x y ws h)

pub length-set_elem :
    {A : Type 0} (k : ℕ) (y : A) (ws : List A) → length (set_elem k y ws) ≡ length ws
length-set_elem k y [] = refl
length-set_elem zero y (w ∷ ws) = refl
length-set_elem (suc k) y (w ∷ ws) = ap suc (length-set_elem k y ws)

pub times-snoc :
    (i x : ℕ) (xs : List ℕ) → times i (xs ++ x ∷ []) ≡ times i xs + (if x == i then 1 else 0)
times-snoc i x [] = omega arith
times-snoc i x (y ∷ xs) = omega (arith, times-snoc i x xs)

pub tally_gone-le : (ws : List Worker) → tally is_gone ws ≤ length ws
tally_gone-le [] = omega arith
tally_gone-le (ready ∷ ws) = omega (arith, tally_gone-le ws)
tally_gone-le (busy i ∷ ws) = omega (arith, tally_gone-le ws)
tally_gone-le (gone ∷ ws) = omega (arith, tally_gone-le ws)

-- When all threads have ended, none is at a file.
pub all_gone-tally :
    (ws : List Worker)
    → all_gone ws ≡ true
    → (tally is_gone ws ≡ length ws) × (tally is_busy ws ≡ 0) × ((i : ℕ) → tally (is_at i) ws ≡ 0)
all_gone-tally [] h = (refl, refl, λ i. refl)
all_gone-tally (ready ∷ ws) h = cc
all_gone-tally (busy j ∷ ws) h = cc
all_gone-tally (gone ∷ ws) h =
    let (a, b, c) = all_gone-tally ws h in
    (omega (arith, a), omega (arith, b), λ i. omega (arith, c i))

pub all_ready-tally :
    (m : ℕ)
    → (length (all_ready m) ≡ m)
      × (tally is_gone (all_ready m) ≡ 0)
      × (tally is_busy (all_ready m) ≡ 0)
      × ((i : ℕ) → tally (is_at i) (all_ready m) ≡ 0)
all_ready-tally zero = (refl, refl, refl, λ i. refl)
all_ready-tally (suc m) =
    let (a, b, c, d) = all_ready-tally m in
    (ap suc a, omega (arith, b), omega (arith, c), λ i. omega (arith, d i))

pub tally_at :
    (k i : ℕ) (ws : List Worker) → get_elem? k ws ≡ some (busy i) → 0 < tally (is_at i) ws
tally_at k i [] h = cc
tally_at zero i (w ∷ ws) h =
    let same : w ≡ busy i = cc in
    let e : is_at i w ≡ is_at i (busy i) = ap (is_at i) same in ground (arith, e)
tally_at (suc k) i (w ∷ ws) h = omega (arith, tally_at k i ws h)

pub n_par-lt : (parallel : ℤ) → 0 < n_par parallel
n_par-lt (pos zero) = omega arith
n_par-lt (pos (suc n)) = omega arith
n_par-lt (negsuc n) = omega arith
