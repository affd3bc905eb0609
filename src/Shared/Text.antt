-- ===== src/Shared/Text.antt =====
-- A `std::string` is the list of its bytes. Node ids are such texts; maps keyed by them are
-- functions, changed by `update`.
use Prim.Native.Nat.{ℕ, ◌+◌, ◌/◌, ◌%◌, ◌≤◌}
use Prim.Native.Char.{code}
use Prim.Native.String.{String}
use mathlib.Core.Path.{◌≡◌, refl}
use mathlib.Core.Logic.{◌↔◌}
use mathlib.Core.Bool.{Bool, true, false, ◌&&◌}
use mathlib.Core.List.{List, [], ◌∷◌, ◌++◌}
use native.Mathlib.Omega.{arith}
use cpp20_workflow_engine.Shared.Tests.{◌==◌, ltb, if◌then◌else◌}

abbrev pub Bytes : Type 0
Bytes = List ℕ

-- The bytes of an ASCII literal.
abbrev pub bytes : String → Bytes
bytes String.[] = []
bytes (String.◌∷◌ c s) = code c ∷ bytes s

-- The bytes of a literal in UTF-8, for characters below U+10000.
abbrev utf8_char : ℕ → Bytes
utf8_char c =
    if ltb c 128
    then c ∷ []
    else if ltb c 2048
    then (192 + c / 64) ∷ (128 + c % 64) ∷ []
    else (224 + c / 4096) ∷ (128 + c / 64 % 64) ∷ (128 + c % 64) ∷ []

abbrev pub utf8 : String → Bytes
utf8 String.[] = []
utf8 (String.◌∷◌ c s) = utf8_char (code c) ++ utf8 s

unfoldable pub str_eq : Bytes → Bytes → Bool
str_eq [] [] = true
str_eq (a ∷ x) (b ∷ y) = (a == b) && str_eq x y
str_eq _ _ = false

pub str_eq_iff : (x y : Bytes) → (str_eq x y ≡ true) ↔ (x ≡ y)
unfolding str_eq
str_eq_iff [] [] = (λ _. refl, λ _. refl)
str_eq_iff [] (b ∷ y) = (λ h. cc, λ h. cc)
str_eq_iff (a ∷ x) [] = (λ h. cc, λ h. cc)
str_eq_iff (a ∷ x) (b ∷ y) = ground (arith, str_eq_iff x y)

pub str_eq_refl : (x : Bytes) → str_eq x x ≡ true
str_eq_refl x = (str_eq_iff x x).1 refl

-- How often a text stands in a list.
abbrev pub count : Bytes → List Bytes → ℕ
count k [] = 0
count k (x ∷ xs) = (if str_eq k x then 1 else 0) + count k xs

pub count-append : (k : Bytes) (xs ys : List Bytes) → count k (xs ++ ys) ≡ count k xs + count k ys
count-append k [] ys = omega arith
count-append k (x ∷ xs) ys = omega (arith, count-append k xs ys)

-- `m[k] = v` on a map that is a function of its key.
abbrev pub update {ℓ} : {V : Type ℓ} → (Bytes → V) → Bytes → V → Bytes → V
update m k v j = if str_eq j k then v else m j

-- No text stands twice.
abbrev pub IsDistinct : List Bytes → Type 0
IsDistinct xs = (k : Bytes) → count k xs ≤ 1
