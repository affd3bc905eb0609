-- ===== src/Dag/Bag.antt =====
-- Lists compared by how often they hold each text.
use cpp20_workflow_engine.Shared.{
  suc, ◌+◌, ◌≤◌, ◌<◌, ◌≡◌, List, [], ◌∷◌, arith, length, if◌then◌else◌, Bytes, str_eq, str_eq_iff,
  str_eq_refl, count,
}

remove : Bytes → List Bytes → List Bytes
remove k [] = []
remove k (x ∷ xs) = if str_eq k x then xs else x ∷ remove k xs

length-remove :
    (k : Bytes) (xs : List Bytes) → 0 < count k xs → suc (length (remove k xs)) ≡ length xs
unfolding remove
length-remove k [] h = absurd (omega arith)
length-remove k (x ∷ xs) h = ground (arith, length-remove k xs)

count-remove :
    (k j : Bytes) (xs : List Bytes)
    → 0 < count k xs
    → (if str_eq j k then 1 else 0) + count j (remove k xs) ≡ count j xs
unfolding remove
count-remove k j [] h = absurd (omega arith)
count-remove k j (x ∷ xs) h =
    ground (arith, count-remove k j xs, str_eq_iff k x, str_eq_iff j x, str_eq_iff j k)

-- A list that another covers is no longer.
pub length-le_of_count :
    (xs ys : List Bytes) → ((k : Bytes) → count k xs ≤ count k ys) → length xs ≤ length ys
length-le_of_count [] ys h = omega arith
length-le_of_count (x ∷ xs) ys h =
    omega (arith, length-le_of_count xs (remove x ys) rest, length-remove x ys here)
  where
    here : 0 < count x ys
    here = ground (arith, h x, str_eq_refl x)

    rest : (k : Bytes) → count k xs ≤ count k (remove x ys)
    rest k = omega (arith, h k, count-remove x k ys here)

-- If it is as long, it holds the same texts, as often.
pub count-eq_of_length :
    (xs ys : List Bytes)
    → ((k : Bytes) → count k xs ≤ count k ys)
    → length ys ≤ length xs
    → (k : Bytes) → count k ys ≤ count k xs
count-eq_of_length [] [] h l k = omega arith
count-eq_of_length [] (y ∷ ys) h l k = absurd (omega arith)
count-eq_of_length (x ∷ xs) ys h l k = omega (
  arith,
  count-eq_of_length xs (remove x ys) rest (omega (arith, length-remove x ys here)) k,
  count-remove x k ys here,
)
  where
    here : 0 < count x ys
    here = ground (arith, h x, str_eq_refl x)

    rest : (j : Bytes) → count j xs ≤ count j (remove x ys)
    rest j = omega (arith, h j, count-remove x j ys here)
