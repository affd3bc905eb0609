-- ===== src/Shared/Int.antt =====
-- `int` as an unbounded signed integer: the values here are sizes and counters, far below 2^31.
use Prim.Native.Nat.{ℕ, zero, suc, ◌+◌, ◌/◌, ◌%◌}
use mathlib.Core.Bool.{Bool, false}
use mathlib.Core.List.{[], ◌∷◌, ◌++◌}
use cpp20_workflow_engine.Shared.Tests.{◌==◌, ltb, if◌then◌else◌}
use cpp20_workflow_engine.Shared.Text.{Bytes}

-- `negsuc n` is -(n + 1).
pub data ℤ : Type 0 where
  pos : ℕ → ℤ
  negsuc : ℕ → ℤ

-- `--x`
abbrev pub pred_ℤ : ℤ → ℤ
pred_ℤ (pos (suc n)) = pos n
pred_ℤ (pos zero) = negsuc 0
pred_ℤ (negsuc n) = negsuc (suc n)

-- `x + 1`
abbrev pub suc_ℤ : ℤ → ℤ
suc_ℤ (pos n) = pos (suc n)
suc_ℤ (negsuc zero) = pos 0
suc_ℤ (negsuc (suc n)) = negsuc n

-- `x == k` for a natural number k
abbrev pub is_pos : ℕ → ℤ → Bool
is_pos k (pos n) = n == k
is_pos k (negsuc n) = false

-- The rounds of `for (int i = 0; i < x; ++i)`.
abbrev pub rounds : ℤ → ℕ
rounds (pos n) = n
rounds (negsuc n) = 0

-- `std::to_string` for numbers of at most 20 digits
unfoldable digits : ℕ → ℕ → Bytes
digits zero n = []
digits (suc fuel) n =
    let front = digits fuel (n / 10) in
    if ltb n 10 then (48 + n) ∷ [] else front ++ (48 + n % 10) ∷ []

unfoldable pub to_string : ℤ → Bytes
unfolding digits
to_string (pos n) = digits 20 n
to_string (negsuc n) = b'-' ∷ digits 20 (suc n)
