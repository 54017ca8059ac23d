-- ===== src/Controllers/HashPassword/Unhex.antt =====
-- Upper-case hexadecimal text, read back as the bytes that it was printed from.
use Prim.Native.String.{◌++◌ as ◌<>◌}
use tor_controller.Base.{
  ℕ, zero, suc, ◌+◌, ◌-◌, ◌*◌, ◌/◌, ◌%◌, ◌<◌, ◌≡◌, refl, List, [], ◌∷◌, Option, none, some, ◌&&◌,
  leb, if◌then◌else◌, arith, length,
}
use tor_controller.Base.Bytes.{bytes, bytes-append}
use tor_controller.Controllers.HashPassword.{hex_digit, hex_upper}

abbrev pub IsBytes : List ℕ → Type 0
IsBytes [] = Unit {0}
IsBytes (b ∷ bs) = (b < 256) × IsBytes bs

-- The value of a digit between 0 and 9 or A and F.
abbrev digit_value : ℕ → Option ℕ
digit_value c =
    if leb b'0' c && leb c b'9'
    then some (c - b'0')
    else if leb b'A' c && leb c b'F'
    then some (c - 55)
    else none

abbrev join : Option ℕ → Option ℕ → Option (List ℕ) → Option (List ℕ)
join (some hi) (some lo) (some bs) = some ((16 * hi + lo) ∷ bs)
join none lo bs = none
join (some hi) none bs = none
join (some hi) (some lo) none = none

-- The bytes of a text of pairs of digits, or `none` if it is no such text.
unfoldable pub unhex : List ℕ → Option (List ℕ)
unhex [] = some []
unhex (a ∷ []) = none
unhex (a ∷ b ∷ cs) = join (digit_value a) (digit_value b) (unhex cs)

abbrev hex_code : ℕ → ℕ
hex_code d = if leb d 9 then b'0' + d else 55 + d

bytes-hex_digit : (d : ℕ) → d < 16 → bytes (hex_digit d) ≡ hex_code d ∷ []
bytes-hex_digit zero h = refl
bytes-hex_digit (suc zero) h = refl
bytes-hex_digit (suc (suc zero)) h = refl
bytes-hex_digit (suc (suc (suc zero))) h = refl
bytes-hex_digit (suc (suc (suc (suc zero)))) h = refl
bytes-hex_digit (suc (suc (suc (suc (suc zero))))) h = refl
bytes-hex_digit (suc (suc (suc (suc (suc (suc zero)))))) h = refl
bytes-hex_digit (suc (suc (suc (suc (suc (suc (suc zero))))))) h = refl
bytes-hex_digit (suc (suc (suc (suc (suc (suc (suc (suc zero)))))))) h = refl
bytes-hex_digit (suc (suc (suc (suc (suc (suc (suc (suc (suc zero))))))))) h = refl
bytes-hex_digit (suc (suc (suc (suc (suc (suc (suc (suc (suc (suc zero)))))))))) h = refl
bytes-hex_digit (suc (suc (suc (suc (suc (suc (suc (suc (suc (suc (suc zero))))))))))) h = refl
bytes-hex_digit (suc (suc (suc (suc (suc (suc (suc (suc (suc (suc (suc (suc zero)))))))))))) h =
    refl
bytes-hex_digit (suc (suc (suc (suc (suc (suc (suc (suc (suc (suc (suc (suc (suc zero)))))))))))))
      h =
    refl
bytes-hex_digit
      (suc (suc (suc (suc (suc (suc (suc (suc (suc (suc (suc (suc (suc (suc zero)))))))))))))) h =
    refl
bytes-hex_digit
      (suc (suc (suc (suc (suc (suc (suc (suc (suc (suc (suc (suc (suc (suc (suc zero)))))))))))))))
      h =
    refl
bytes-hex_digit
      (suc
        (suc (suc (suc (suc (suc (suc (suc (suc (suc (suc (suc (suc (suc (suc (suc d))))))))))))))))
      h =
    absurd (omega arith)

digit_value-hex_code : (d : ℕ) → d < 16 → digit_value (hex_code d) ≡ some d
digit_value-hex_code d h = ground arith

pub bytes-hex_upper :
    (b : ℕ) (bs : List ℕ)
    → b < 256
    → bytes (hex_upper (b ∷ bs)) ≡ hex_code (b / 16) ∷ hex_code (b % 16) ∷ bytes (hex_upper bs)
unfolding hex_upper
bytes-hex_upper b bs h =
    rw
      (
        bytes-append (hex_digit (b / 16)) (hex_digit (b % 16) <> hex_upper bs),
        bytes-append (hex_digit (b % 16)) (hex_upper bs),
        bytes-hex_digit (b / 16) (omega arith),
        bytes-hex_digit (b % 16) (omega arith),
      )
      refl

-- Reading the text gives back the bytes.
pub unhex-hex_upper : (bs : List ℕ) → IsBytes bs → unhex (bytes (hex_upper bs)) ≡ some bs
unfolding unhex
unhex-hex_upper [] h = unfold hex_upper in refl
unhex-hex_upper (b ∷ bs) (small, rest) =
    let e : 16 * (b / 16) + b % 16 ≡ b = omega arith in
    rw
      (
        bytes-hex_upper b bs small,
        digit_value-hex_code (b / 16) (omega arith),
        digit_value-hex_code (b % 16) (omega arith),
        unhex-hex_upper bs rest,
        e,
      )
      refl

-- There are two digits for each byte.
pub length-hex_upper : (bs : List ℕ) → IsBytes bs → length (bytes (hex_upper bs)) ≡ 2 * length bs
length-hex_upper [] h = unfold hex_upper in refl
length-hex_upper (b ∷ bs) (small, rest) =
    rw (bytes-hex_upper b bs small) (omega (arith, length-hex_upper bs rest))
