-- ===== src/Examples/Printed.antt =====
-- A value that is printed and read again.
use cpp20_workflow_engine.Shared.{
  ◌≡◌, ◌≢◌, refl, Bool, true, false, Option, none, some, [], ◌∷◌, arith, if◌then◌else◌, str_eq,
  Bytes, bytes,
}
use cpp20_workflow_engine.Json.{
  JsonValue, null, boolean, number, string, array, object, nil, cons, end, field, ok,
  is_number_char, parse_value,
}
use cpp20_workflow_engine.Json.Print.{AllNumber, Printer, print}
use cpp20_workflow_engine.Json.RoundTrip.{weight, parse_value-print}

-- Two doubles.
abbrev show_two : Bool → Bytes
show_two false = bytes "0.5"
show_two true = bytes "-2e3"

abbrev read_two : Bytes → Option Bool
read_two s =
    if str_eq s (bytes "0.5")
    then some false
    else if str_eq s (bytes "-2e3")
    then some true
    else none

reads_two : (b : Bool) → read_two (show_two b) ≡ some b
unfolding str_eq
reads_two false = refl
reads_two true = refl

show_two-AllNumber : (b : Bool) → AllNumber (show_two b)
unfolding is_number_char
show_two-AllNumber false = (refl, (refl, (refl, tt)))
show_two-AllNumber true = (refl, (refl, (refl, (refl, tt))))

show_two-nonempty : (b : Bool) → show_two b ≢ []
show_two-nonempty false e = grind arith
show_two-nonempty true e = grind arith

abbrev two_doubles : Printer read_two
two_doubles = record {
  show = show_two;
  reads = reads_two;
  digits = show_two-AllNumber;
  some_digit = show_two-nonempty;
}

-- {"a\n\"":[null,true,0.5,[]],"b":{"c":-2e3,"d":"\\"}}
abbrev nested : JsonValue Bool
nested = object (
    field (97 ∷ 10 ∷ 34 ∷ [])
      (array (cons null (cons (boolean true) (cons (number false) (cons (array nil) nil)))))
      (field (bytes "b")
        (object (field (bytes "c") (number true) (field (bytes "d") (string (92 ∷ [])) end))) end))

parse_value-print_example :
    parse_value read_two 30 (print show_two nested (bytes ", x")) ≡ ok nested (bytes ", x")
parse_value-print_example =
    parse_value-print read_two two_doubles 30 nested (bytes ", x") (unfold weight in omega arith)
      (unfold is_number_char in refl)
