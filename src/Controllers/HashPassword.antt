-- ===== src/Controllers/HashPassword.antt =====
-- doHashPassword of controllers/tor/util.go: a salted password hash as `tor --hash-password` prints.
pub mod Stretch
pub mod Hex
pub mod Unhex
pub mod RoundTrip
use Prim.Native.Nat.{bit_and}
use Prim.Native.Char.{code}
use Prim.Native.String.{◌++◌ as ◌<>◌}
use Prim.Native.String
use tor_controller.Base.{
  ℕ, zero, suc, ◌+◌, ◌-◌, ◌*◌, ◌/◌, ◌%◌, ◌^◌, String, true, false, List, [], ◌∷◌, ◌++◌, Option,
  none, some, ltb, ◌==◌, if◌then◌else◌, length, take,
}
use tor_controller.Base.Bytes.{bytes}
use tor_controller.Kube.Client.{Kube}

abbrev prepend : List ℕ → Option (List ℕ) → Option (List ℕ)
prepend xs none = none
prepend xs (some ys) = some (xs ++ ys)

-- The bytes that the loop over `count` hands to the digest, in order; `none` if the fuel runs out.
pub stretch : ℕ → List ℕ → ℕ → Option (List ℕ)
stretch zero tmp count = none
stretch (suc fuel) tmp count = elim (ltb 0 count) [
  | false ↦ some []
  | true ↦ elim (ltb (length tmp) count) [
    | true ↦ prepend tmp (stretch fuel tmp (count - length tmp))
    | false ↦ some (take count tmp)
  ]
]

abbrev pub specifier_len : ℕ
specifier_len = 9

abbrev pub iterations : ℕ
iterations = 96

-- (16 + (c & 15)) << ((c >> 4) + expbias)
abbrev pub byte_count : ℕ
byte_count = (16 + bit_and iterations 15) * 2 ^ (iterations / 16 + 6)

-- One upper-case hexadecimal digit.
abbrev pub hex_digit : ℕ → String
hex_digit d =
    if d == 0
    then "0"
    else if d == 1
    then "1"
    else if d == 2
    then "2"
    else if d == 3
    then "3"
    else if d == 4
    then "4"
    else if d == 5
    then "5"
    else if d == 6
    then "6"
    else if d == 7
    then "7"
    else if d == 8
    then "8"
    else if d == 9
    then "9"
    else if d == 10
    then "A"
    else if d == 11
    then "B"
    else if d == 12
    then "C"
    else if d == 13
    then "D"
    else if d == 14
    then "E"
    else "F"

-- strings.ToUpper(hex.EncodeToString(b))
pub hex_upper : List ℕ → String
hex_upper [] = ""
hex_upper (b ∷ bs) = hex_digit (b / 16) <> (hex_digit (b % 16) <> hex_upper bs)

-- fmt.Sprintf("16:%s%s%s", …)
abbrev pub print_hash : (List ℕ → List ℕ) → List ℕ → Option (List ℕ) → Option String
print_hash sha1 salt none = none
print_hash sha1 salt (some written) =
    some ("16:" <> (hex_upper salt <> (hex_upper (iterations ∷ []) <> hex_upper (sha1 written))))

-- The hash of a password under a salt, with the digest as a parameter.
unfoldable pub hash_with_salt : (List ℕ → List ℕ) → List ℕ → String → Option String
unfolding stretch hex_upper
hash_with_salt sha1 salt input =
    print_hash sha1 salt (stretch (suc byte_count) (salt ++ bytes input) byte_count)

-- doHashPassword: `none` is the error that the random source reports.
unfoldable pub do_hash_password : (K : Kube) → String → K.State → Option String × K.State
unfolding hash_with_salt
do_hash_password K input s =
    let (salt, s') = K.read_random (specifier_len - 1) s in
    (elim salt [ none ↦ none | some r ↦ hash_with_salt K.sha1 r input ], s')
