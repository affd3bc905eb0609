-- ===== src/Json/Progress.antt =====
-- How much of the text each call of the parser in src/WorkflowEngine.cpp reads.
use cpp20_workflow_engine.Shared.{
  ℕ, zero, suc, ◌+◌, ◌-◌, ◌*◌, ◌≤◌, ◌<◌, ◌≡◌, ◌≢◌, ap, inl, inr, Bool, true, false, Option, none,
  some, [], ◌∷◌, arith, length, length-drop, drop, List-cases, Option-cases, ◌==◌, if◌then◌else◌,
  Bytes,
}
use cpp20_workflow_engine.Json.{
  JsonValue, null, boolean, number, string, array, object, nil, cons, end, field, Parsed, ok,
  throws, out_of_fuel, and_then, skip_ws, skip_char, read_string, read_number, parse_number,
  parse_value, parse_object, parse_array,
}

-- The parse ends, and leaves at most `n` characters.
pub data Ends {A : Type 0} (n : ℕ) : Parsed A → Type 0 where
  ends : (a : A) (s : Bytes) → length s ≤ n → Ends n (ok a s)
  thrown : Ends n throws

and_then-Ends :
    {A B : Type 0} {m n : ℕ} {r : Parsed A} (k : A → Bytes → Parsed B)
    → Ends m r
    → ((a : A) (s : Bytes) → length s ≤ m → Ends n (k a s))
    → Ends n (and_then r k)
and_then-Ends k (ends a s h) f = f a s h
and_then-Ends k thrown f = thrown

if-Ends :
    {A : Type 0} {n : ℕ} (b : Bool) {x y : Parsed A}
    → Ends n x
    → Ends n y
    → Ends n (if b then x else y)
if-Ends true p q = p
if-Ends false p q = q

pub length-skip_ws : (s : Bytes) → length (skip_ws s) ≤ length s
unfolding skip_ws
length-skip_ws [] = omega arith
length-skip_ws (c ∷ s) = ground (arith, length-skip_ws s)

length-skip_char : (c : ℕ) (s : Bytes) → length (skip_char c s) ≤ length s
unfolding skip_char
length-skip_char c [] = omega arith
length-skip_char c (d ∷ s) = ground arith

after_comma : (s : Bytes) → length (skip_ws (skip_char b',' (skip_ws s))) ≤ length s
after_comma s = omega (
  arith,
  length-skip_ws s,
  length-skip_char b',' (skip_ws s),
  length-skip_ws (skip_char b',' (skip_ws s)),
)

after_colon : (s : Bytes) → length (skip_char b':' (skip_ws s)) ≤ length s
after_colon s = omega (arith, length-skip_ws s, length-skip_char b':' (skip_ws s))

Ends-mono : {A : Type 0} {m n : ℕ} {r : Parsed A} → m ≤ n → Ends m r → Ends n r
Ends-mono h (ends a s p) = ends a s (omega arith)
Ends-mono h thrown = thrown

pub length-read_string : (s : Bytes) → length (read_string s).1 ≤ length s
unfolding read_string
length-read_string [] = omega arith
length-read_string (c ∷ []) = ground arith
length-read_string (c ∷ d ∷ s) = ground (arith, length-read_string s, length-read_string (d ∷ s))

length-read_number : (s : Bytes) → length (read_number s).0 + length (read_number s).1 ≡ length s
unfolding read_number
length-read_number [] = omega arith
length-read_number (c ∷ s) = ground (arith, length-read_number s)

module _ {N : Type 0} (stod : Bytes → Option N) (stod-nil : stod [] ≡ none) where
  number-Ends : (s : Bytes) → Ends (length s - 1) (parse_number stod s)
  unfolding parse_number
  number-Ends s = go (read_number s).0 (read_number s).1 (length-read_number s)
    where
      go :
          (r rest : Bytes)
          → length r + length rest ≡ length s
          → Ends (length s - 1) (elim (stod r) [ none ↦ throws | some n ↦ ok (number n) rest ])
      go [] rest h = rw stod-nil thrown
      go (c ∷ r) rest h = elim (Option-cases (stod (c ∷ r))) [
        | inl e ↦ rw e thrown
        | inr (v, e) ↦ rw e (ends (number v) rest (omega arith))
      ]

  mutual
    unfolding parse_value

    value-Ends :
        (fuel : ℕ) (s : Bytes) → 2 * length s < fuel → Ends (length s - 1) (parse_value stod fuel s)
    value-Ends zero s h = absurd (omega arith)
    value-Ends (suc fuel) s h = elim (List-cases (skip_ws s)) [
      | inl e ↦ rw (e, parse_value) (ends null [] (omega arith))
      | inr (c, r, e) ↦
          let shorter : length r < length s = omega (arith, length-skip_ws s, ap length e) in
          let inner : 2 * length (skip_ws r) + 1 < fuel = omega (arith, length-skip_ws r) in
          rw (e, parse_value)
            (if-Ends (c == 34)
              (ends (string (read_string r).0) (read_string r).1
                (omega (arith, length-read_string r)))
              (if-Ends (c == b'{')
                (and_then-Ends (λ fs rest. ok (object fs) rest) (object-Ends fuel (skip_ws r) inner)
                  (λ fs rest p. ends (object fs) rest (omega (arith, length-skip_ws r))))
                (if-Ends (c == b'[')
                  (and_then-Ends (λ xs rest. ok (array xs) rest) (array-Ends fuel (skip_ws r) inner)
                    (λ xs rest p. ends (array xs) rest (omega (arith, length-skip_ws r))))
                  (if-Ends (c == b't')
                    (ends (boolean true) (drop 3 r) (omega (arith, length-drop 3 r)))
                    (if-Ends (c == b'f')
                      (ends (boolean false) (drop 4 r) (omega (arith, length-drop 4 r)))
                      (if-Ends (c == b'n') (ends null (drop 3 r) (omega (arith, length-drop 3 r)))
                        (Ends-mono (omega arith) (number-Ends (c ∷ r)))))))))
    ]

    object-Ends :
        (fuel : ℕ) (s : Bytes)
        → 2 * length s + 1 < fuel
        → Ends (length s) (parse_object stod fuel s)
    object-Ends zero s h = absurd (omega arith)
    object-Ends (suc fuel) [] h = ends end [] (omega arith)
    object-Ends (suc fuel) (c ∷ r) h =
        if-Ends (c == b'}') (ends end r (omega arith)) (elim (List-cases (skip_ws (c ∷ r))) [
          | inl e ↦ rw e (ends end [] (omega arith))
          | inr (d, r', e) ↦
              let shorter : length r' ≤ length r =
                omega (arith, length-skip_ws (c ∷ r), ap length e) in
              let s1 : Bytes = (read_string r').1 in
              let s1_le : length s1 ≤ length r' = length-read_string r' in
              rw e (
                if-Ends (d == 34)
                  (and_then-Ends
                    (λ v s2.
                      and_then (parse_object stod fuel (skip_ws (skip_char b',' (skip_ws s2))))
                        (λ fs rest. ok (field (read_string r').0 v fs) rest))
                    (value-Ends fuel (skip_char b':' (skip_ws s1)) (omega (arith, after_colon s1)))
                    (λ v s2 p.
                      and_then-Ends (λ fs rest. ok (field (read_string r').0 v fs) rest)
                        (object-Ends fuel (skip_ws (skip_char b',' (skip_ws s2)))
                          (omega (arith, after_colon s1, after_comma s2)))
                        (λ fs rest q.
                          ends (field (read_string r').0 v fs) rest
                            (omega (arith, after_colon s1, after_comma s2)))))
                  (ends end r' (omega arith)))
        ])

    array-Ends :
        (fuel : ℕ) (s : Bytes) → 2 * length s + 1 < fuel → Ends (length s) (parse_array stod fuel s)
    array-Ends zero s h = absurd (omega arith)
    array-Ends (suc fuel) [] h = ends nil [] (omega arith)
    array-Ends (suc fuel) (c ∷ r) h = if-Ends (c == b']') (ends nil r (omega arith)) (
        and_then-Ends
          (λ v s2.
            and_then (parse_array stod fuel (skip_ws (skip_char b',' (skip_ws s2))))
              (λ vs rest. ok (cons v vs) rest))
          (value-Ends fuel (c ∷ r) (omega arith))
          λ v s2 p.
            and_then-Ends (λ vs rest. ok (cons v vs) rest)
              (array-Ends fuel (skip_ws (skip_char b',' (skip_ws s2)))
                (omega (arith, after_comma s2)))
              (λ vs rest q. ends (cons v vs) rest (omega (arith, after_comma s2))))

  -- If `stod` refuses the empty text, fuel for two calls a character is enough for `parse_value` to
  -- return a value or throw the exception of `stod`, whatever the text.
  pub parse_value-terminates :
      (fuel : ℕ) (s : Bytes) → 2 * length s < fuel → parse_value stod fuel s ≢ out_of_fuel
  parse_value-terminates fuel s h e = go (value-Ends fuel s h) e
    where
      go : {n : ℕ} {r : Parsed (JsonValue N)} → Ends n r → r ≡ out_of_fuel → ⊥
      go (ends a t p) q = cc
      go thrown q = cc
