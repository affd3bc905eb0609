-- ===== src/Context.antt =====
-- ExecutionContext (include/ExecutionContext.h, src/ExecutionContext.cpp) and its C interface. The
-- locks make each operation one step, and boost's flat_map is a function of the key.
pub mod Laws
use cpp20_workflow_engine.Shared.{
  ℕ, zero, suc, ◌+◌, ◌-◌, ◌%◌, ◌^◌, Bool, true, false, Option, none, some, List, [], ◌∷◌, ◌++◌,
  length, take, drop, leb, ltb, if◌then◌else◌, Bytes, update,
}
use cpp20_workflow_engine.Shared.Int.{ℤ, pos, negsuc}

-- A `std::any`, by the type that it holds; `D` is `double`.
pub data Value (D : Type 0) : Type 0 where
  text : Bytes → Value D
  int64 : ℤ → Value D
  double : D → Value D
  other : Value D

-- `data_`
abbrev pub Context : Type 0 → Type 0
Context D = Bytes → Option (Value D)

-- What a C function returns, and what it leaves in the memory that it was given.
pub record Answer (A : Type 0) : Type 0 where
  pub code : ℤ
  pub out : A

-- The `memcpy` of `n` bytes and the NUL after them.
abbrev pub put : ℕ → Bytes → Bytes → Bytes
put n s buf = take n s ++ 0 ∷ drop (suc n) buf

-- A size that `int` cannot hold becomes a negative length, for which `memcpy` is undefined: `none`.
unfoldable pub copy_out : Bytes → Bytes → ℕ → Option (Answer Bytes)
copy_out s buf room =
    let len = length s % 2 ^ 32 in
    let n = if leb len room then len else room in
    if ltb len (2 ^ 31) then some (record { code = pos n; out = put n s buf }) else none

module _ {D : Type 0} where
  unfoldable pub set : Bytes → Value D → Context D → Context D
  set key value c = update c key (some value)

  unfoldable pub remove : Bytes → Context D → Context D
  remove key c = update c key none

  unfoldable pub clear : Context D → Context D
  clear c = λ _. none

  unfoldable pub has : Bytes → Context D → Bool
  has key c = elim (c key) [ none ↦ false | some _ ↦ true ]

  -- `get<std::string>`, `get<int64_t>` and `get<double>`
  unfoldable pub get_text : Bytes → Context D → Option Bytes
  get_text key c = elim (c key) [ some (text s) ↦ some s | _ ↦ none ]

  unfoldable pub get_int64 : Bytes → Context D → Option ℤ
  get_int64 key c = elim (c key) [ some (int64 n) ↦ some n | _ ↦ none ]

  unfoldable pub get_double : Bytes → Context D → Option D
  get_double key c = elim (c key) [ some (double x) ↦ some x | _ ↦ none ]

  -- The C interface. A pointer is `none` where it is null; a `const char*` is the bytes before its
  -- NUL. `ctx` points to the context, which each function hands back.
  unfoldable pub ctx_set_string :
      Option Bytes → Option Bytes → Option (Context D) → Option (Context D)
  unfolding set
  ctx_set_string (some key) (some value) (some c) = some (set key (text value) c)
  ctx_set_string key value ctx = ctx

  unfoldable pub ctx_set_int64 : Option Bytes → ℤ → Option (Context D) → Option (Context D)
  unfolding set
  ctx_set_int64 (some key) value (some c) = some (set key (int64 value) c)
  ctx_set_int64 key value ctx = ctx

  unfoldable pub ctx_set_double : Option Bytes → D → Option (Context D) → Option (Context D)
  unfolding set
  ctx_set_double (some key) value (some c) = some (set key (double value) c)
  ctx_set_double key value ctx = ctx

  -- `buf` points to the bytes `mem`, of which `buf_len` may be written.
  unfoldable pub ctx_get_string :
      Option (Context D) → Option Bytes → Option Bytes → ℤ → Option (Answer (Option Bytes))
  unfolding get_text copy_out
  ctx_get_string (some c) (some key) (some mem) (pos (suc room)) = elim (get_text key c) [
    | none ↦ some (record { code = negsuc 0; out = some mem })
    | some s ↦ elim (copy_out s mem room) [
      | none ↦ none
      | some a ↦ some (record { code = a.code; out = some a.out })
    ]
  ]
  ctx_get_string ctx key buf buf_len = some (record { code = negsuc 0; out = buf })

  unfoldable pub ctx_get_int64 : Option (Context D) → Option Bytes → Option ℤ → Answer (Option ℤ)
  unfolding get_int64
  ctx_get_int64 (some c) (some key) (some old) = elim (get_int64 key c) [
    | none ↦ record { code = negsuc 0; out = some old }
    | some n ↦ record { code = pos 0; out = some n }
  ]
  ctx_get_int64 ctx key out = record { code = negsuc 0; out = out }

  unfoldable pub ctx_get_double : Option (Context D) → Option Bytes → Option D → Answer (Option D)
  unfolding get_double
  ctx_get_double (some c) (some key) (some old) = elim (get_double key c) [
    | none ↦ record { code = negsuc 0; out = some old }
    | some x ↦ record { code = pos 0; out = some x }
  ]
  ctx_get_double ctx key out = record { code = negsuc 0; out = out }

  unfoldable pub ctx_has : Option (Context D) → Option Bytes → ℕ
  unfolding has
  ctx_has (some c) (some key) = if has key c then 1 else 0
  ctx_has ctx key = 0

  unfoldable pub ctx_remove : Option Bytes → Option (Context D) → Option (Context D)
  unfolding remove
  ctx_remove (some key) (some c) = some (remove key c)
  ctx_remove key ctx = ctx
