-- ===== src/Apis/Format/Distinct.antt =====
-- Different numbers are printed differently.
use Prim.Native.String.{◌++◌ as ◌<>◌}
use tor_controller.Base.{
  ℕ, zero, suc, ◌+◌, ◌-◌, ◌*◌, ◌/◌, ◌%◌, ◌<◌, ◌≡◌, refl, ap, sym, ◌∙◌, List, [], ◌∷◌, ◌++◌, arith,
  ltb, true, false, Bool-cases, inl, inr,
}
use tor_controller.Base.Bytes.{bytes, bytes-append}
use tor_controller.Apis.Format.{digit, decimal_digits, decimal}

-- The number that a row of digits stands for, after the number before them.
abbrev number_from : ℕ → List ℕ → ℕ
number_from n [] = n
number_from n (c ∷ cs) = number_from (10 * n + (c - b'0')) cs

number_from-append :
    (n : ℕ) (xs ys : List ℕ) → number_from n (xs ++ ys) ≡ number_from (number_from n xs) ys
number_from-append n [] ys = refl
number_from-append n (x ∷ xs) ys = number_from-append (10 * n + (x - b'0')) xs ys

bytes-digit : (d : ℕ) → d < 10 → bytes (digit d) ≡ (b'0' + d) ∷ []
bytes-digit zero h = refl
bytes-digit (suc zero) h = refl
bytes-digit (suc (suc zero)) h = refl
bytes-digit (suc (suc (suc zero))) h = refl
bytes-digit (suc (suc (suc (suc zero)))) h = refl
bytes-digit (suc (suc (suc (suc (suc zero))))) h = refl
bytes-digit (suc (suc (suc (suc (suc (suc zero)))))) h = refl
bytes-digit (suc (suc (suc (suc (suc (suc (suc zero))))))) h = refl
bytes-digit (suc (suc (suc (suc (suc (suc (suc (suc zero)))))))) h = refl
bytes-digit (suc (suc (suc (suc (suc (suc (suc (suc (suc zero))))))))) h = refl
bytes-digit (suc (suc (suc (suc (suc (suc (suc (suc (suc (suc d)))))))))) h = absurd (omega arith)

decimal_digits-small : (f n : ℕ) → ltb n 10 ≡ true → decimal_digits (suc f) n ≡ digit n
unfolding decimal_digits
decimal_digits-small f n h = rw (h, decimal_digits)

decimal_digits-more :
    (f n : ℕ)
    → ltb n 10 ≡ false
    → decimal_digits (suc f) n ≡ decimal_digits f (n / 10) <> digit (n % 10)
unfolding decimal_digits
decimal_digits-more f n h = rw (h, decimal_digits)

number_from-decimal_digits : (f n : ℕ) → n < f → number_from 0 (bytes (decimal_digits f n)) ≡ n
number_from-decimal_digits zero n h = absurd (omega arith)
number_from-decimal_digits (suc f) n h = elim (Bool-cases (ltb n 10)) [
  | inl small ↦
      let lt : n < 10 = ground arith in
      rw (decimal_digits-small f n small, bytes-digit n lt) (omega arith)
  | inr more ↦
      let many : 9 < n = ground arith in
      rw
        (
          decimal_digits-more f n more,
          bytes-append (decimal_digits f (n / 10)) (digit (n % 10)),
          number_from-append 0 (bytes (decimal_digits f (n / 10))) (bytes (digit (n % 10))),
          number_from-decimal_digits f (n / 10) (omega arith),
          bytes-digit (n % 10) (omega arith),
        )
        (omega arith)
]

-- Reading a printed number gives it back.
pub number_from-decimal : (n : ℕ) → number_from 0 (bytes (decimal n)) ≡ n
unfolding decimal
number_from-decimal n = number_from-decimal_digits (suc n) n (omega arith)

pub decimal_inj : (m n : ℕ) → decimal m ≡ decimal n → m ≡ n
decimal_inj m n h =
    sym (number_from-decimal m) ∙ (ap (λ t. number_from 0 (bytes t)) h ∙ number_from-decimal n)
