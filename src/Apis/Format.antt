-- ===== src/Apis/Format.antt =====
-- The formats of `fmt.Sprintf` that the names use: "%s" followed by a text, and "%d".
pub mod Distinct
use Prim.Native.String.{◌++◌}
use tor_controller.Base.{
  ℕ, zero, suc, ◌/◌, ◌%◌, String, ◌≡◌, refl, true, false, ltb, ◌==◌, if◌then◌else◌, str_eq,
  append-ne-empty,
}

-- `fmt.Sprintf("%s" + suffix, name)`
unfoldable pub suffixed : String → String → String
suffixed name suffix = name ++ suffix

abbrev digit : ℕ → String
digit d =
    if d == 0
    then "0"
    else if d == 1
    then "1"
    else if d == 2
    then "2"
    else if d == 3
    then "3"
    else if d == 4
    then "4"
    else if d == 5
    then "5"
    else if d == 6
    then "6"
    else if d == 7
    then "7"
    else if d == 8
    then "8"
    else "9"

decimal_digits : ℕ → ℕ → String
decimal_digits zero n = ""
decimal_digits (suc f) n = elim (ltb n 10) [
  | true ↦ digit n
  | false ↦ decimal_digits f (n / 10) ++ digit (n % 10)
]

-- `fmt.Sprintf("%d", n)`: a number has no more digits than its value and one.
unfoldable pub decimal : ℕ → String
unfolding decimal_digits
decimal n = decimal_digits (suc n) n

decimal_test : decimal 9053 ≡ "9053"
unfolding decimal
decimal_test = refl

-- A name made by a format with a nonempty ending is not empty.
pub suffixed-ne-empty :
    (name suffix : String) → str_eq suffix "" ≡ false → str_eq (suffixed name suffix) "" ≡ false
unfolding suffixed
suffixed-ne-empty name suffix h = append-ne-empty name suffix h
