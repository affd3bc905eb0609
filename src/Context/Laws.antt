-- ===== src/Context/Laws.antt =====
-- Reading and writing through the C interface of ExecutionContext (src/ExecutionContext.cpp).
use cpp20_workflow_engine.Shared.{
  ℕ, zero, suc, ◌%◌, ◌^◌, ◌≤◌, ◌<◌, ◌≡◌, refl, sym, ap, ◌∙◌, inl, inr, Bool-cases, some, [], ◌∷◌,
  ◌++◌, length, length-append, length-take, length-drop, arith, take, drop, leb, ◌==◌,
  if◌then◌else◌, Bytes, str_eq, str_eq_refl,
}
use cpp20_workflow_engine.Shared.Int.{ℤ, pos, negsuc}
use cpp20_workflow_engine.Context.{
  Value, text, int64, Context, set, remove, has, get_text, get_int64, ctx_set_string, ctx_set_int64,
  put, copy_out, ctx_get_string, ctx_get_int64, ctx_has, ctx_remove,
}

-- The C string at the start of a buffer.
unfoldable pub c_str : Bytes → Bytes
c_str [] = []
c_str (b ∷ bs) = if b == 0 then [] else b ∷ c_str bs

abbrev pub NoNul : Bytes → Type 0
NoNul [] = Unit {0}
NoNul (b ∷ bs) = (0 < b) × NoNul bs

c_str-put : (s buf : Bytes) (n : ℕ) → NoNul s → c_str (take n s ++ 0 ∷ buf) ≡ take n s
unfolding c_str
c_str-put [] buf zero h = refl
c_str-put [] buf (suc n) h = refl
c_str-put (b ∷ s) buf zero h = refl
c_str-put (b ∷ s) buf (suc n) h = ground (arith, c_str-put s buf n h.1)

small : (n : ℕ) → n < 2 ^ 31 → n % 2 ^ 32 ≡ n
small n h = omega arith

take_all : (s : Bytes) (n : ℕ) → length s ≤ n → take n s ≡ s
take_all [] zero h = refl
take_all [] (suc n) h = refl
take_all (b ∷ s) zero h = absurd (omega arith)
take_all (b ∷ s) (suc n) h = ap (λ r. b ∷ r) (take_all s n (omega arith))

-- The number of bytes that `ctx_get_string` copies.
abbrev pub copied : Bytes → ℕ → ℕ
copied s room = if leb (length s) room then length s else room

take-copied : (s : Bytes) (room : ℕ) → take (copied s room) s ≡ take room s
take-copied s room = elim (Bool-cases (leb (length s) room)) [
  | inl fits ↦ rw fits (take_all s (length s) (omega arith) ∙ sym (take_all s room (ground arith)))
  | inr cut ↦ rw cut refl
]

length-put :
    (s buf : Bytes) (room : ℕ)
    → suc room ≤ length buf
    → length (put (copied s room) s buf) ≡ length buf
length-put s buf room h = ground (
  arith,
  length-append (take (copied s room) s) (0 ∷ drop (suc (copied s room)) buf),
  length-take (copied s room) s,
  length-drop (suc (copied s room)) buf,
)

copy_out_lem :
    (s buf : Bytes) (room : ℕ)
    → length s < 2 ^ 31
    → copy_out s buf room
      ≡ some (record { code = pos (copied s room); out = put (copied s room) s buf })
unfolding copy_out
copy_out_lem s buf room h = rw (small (length s) h) (ground arith)

module _ {D : Type 0} where
  stored : (c : Context D) (key : Bytes) (v : Value D) → set key v c key ≡ some v
  unfolding set
  stored c key v = rw (str_eq_refl key) refl

  found :
      (c : Context D) (key s buf : Bytes) (room : ℕ)
      → c key ≡ some (text s)
      → length s < 2 ^ 31
      → ctx_get_string (some c) (some key) (some buf) (pos (suc room))
        ≡ some (record { code = pos (copied s room); out = some (put (copied s room) s buf) })
  unfolding ctx_get_string get_text
  found c key s buf room e h = rw (e, ctx_get_string, copy_out_lem s buf room h) refl

  wrong_type :
      (c : Context D) (key buf : Bytes) (n : ℤ) (room : ℕ)
      → c key ≡ some (int64 n)
      → ctx_get_string (some c) (some key) (some buf) (pos (suc room))
        ≡ some (record { code = negsuc 0; out = some buf })
  unfolding ctx_get_string get_text
  wrong_type c key buf n room e = rw (e, ctx_get_string) refl

  -- A string that the C interface stores can be read back through it, if `int` can hold its size: the
  -- call reports the number of bytes copied, and the buffer, which keeps its size, starts with the
  -- C string of the value cut to what fits.
  pub ctx_get_string-ctx_set_string :
      (c : Context D) (key value buf : Bytes) (room : ℕ)
      → NoNul value
      → length value < 2 ^ 31
      → suc room ≤ length buf
      → (out : Bytes) × (ctx_get_string
            (ctx_set_string (some key) (some value) (some c))
            (some key)
            (some buf)
            (pos (suc room))
          ≡ some (record { code = pos (copied value room); out = some out }))
        × (length out ≡ length buf)
        × (c_str out ≡ take room value)
  unfolding ctx_set_string
  ctx_get_string-ctx_set_string c key value buf room h s r = (
    put (copied value room) value buf,
    found (set key (text value) c) key value buf room (stored c key (text value)) s,
    length-put value buf room r,
    c_str-put value (drop (suc (copied value room)) buf) (copied value room) h
        ∙ take-copied value room,
  )

  -- An integer that is stored is read back, but not as a string: the types have to agree.
  pub ctx_get_int64-ctx_set_int64 :
      (c : Context D) (key buf : Bytes) (n old buf_len : ℤ)
      → (ctx_get_int64 (ctx_set_int64 (some key) n (some c)) (some key) (some old)
          ≡ record { code = pos 0; out = some n })
        × (ctx_get_string (ctx_set_int64 (some key) n (some c)) (some key) (some buf) buf_len
            ≡ some (record { code = negsuc 0; out = some buf }))
  unfolding ctx_get_int64 ctx_set_int64 set get_int64
  ctx_get_int64-ctx_set_int64 c key buf n old buf_len =
      (rw (str_eq_refl key, ctx_get_int64) refl, no_text buf_len)
    where
      no_text :
          (len : ℤ)
          → ctx_get_string (ctx_set_int64 (some key) n (some c)) (some key) (some buf) len
            ≡ some (record { code = negsuc 0; out = some buf })
      no_text (negsuc _) = unfold ctx_get_string ctx_set_int64 in refl
      no_text (pos zero) = unfold ctx_get_string ctx_set_int64 in refl
      no_text (pos (suc room)) =
          unfold ctx_set_int64 in
          wrong_type (set key (int64 n) c) key buf n room (stored c key (int64 n))

  -- A removal takes away exactly its key, and storing brings back exactly its key.
  ctx_has-ctx_remove :
      (c : Context D) (key other value : Bytes)
      → (ctx_has (ctx_remove (some key) (some c)) (some other)
          ≡ (if str_eq other key then 0 else ctx_has (some c) (some other)))
        × (ctx_has (ctx_set_string (some key) (some value) (some c)) (some other)
            ≡ (if str_eq other key then 1 else ctx_has (some c) (some other)))
  unfolding ctx_has ctx_remove ctx_set_string set remove has
  ctx_has-ctx_remove c key other value = elim (Bool-cases (str_eq other key)) [
    | inl same ↦ rw (same, has) (refl, refl)
    | inr different ↦ rw (different, has) (refl, refl)
  ]
