-- ===== src/Text/Decimal.antt =====
-- `String(n)` on natural numbers, and `Number(s)` on strings of decimal digits.
pub mod Reading
use parimit.Common.{
  ℕ, zero, suc, ◌+◌, ◌-◌, ◌*◌, ◌/◌, ◌%◌, ◌≤◌, ◌<◌, ◌≡◌, refl, ◌∙◌, inl, inr, Bool, true, false,
  ◌&&◌, [], ◌∷◌, ◌++◌, arith, ltb, leb, all, Bool-cases,
}
use parimit.Text.{Text, is_digit}

-- Fuel above the number is enough: `digits-number`.
pub digits : ℕ → ℕ → Text
digits zero n = []
digits (suc f) n = elim (ltb n 10) [
  | true ↦ (b'0' + n) ∷ []
  | false ↦ digits f (n / 10) ++ (b'0' + n % 10) ∷ []
]

unfoldable pub decimal : ℕ → Text
unfolding digits
decimal n = digits (suc n) n

number_from : ℕ → Text → ℕ
number_from acc [] = acc
number_from acc (c ∷ s) = number_from (acc * 10 + (c - b'0')) s

unfoldable pub number : Text → ℕ
unfolding number_from
number s = number_from 0 s

-- `/^[1-9][0-9]*$/`.
unfoldable pub is_positive_decimal : Text → Bool
is_positive_decimal [] = false
is_positive_decimal (c ∷ s) = (leb b'1' c && leb c b'9') && all is_digit s

number_from-append :
    (acc : ℕ) (s t : Text) → number_from acc (s ++ t) ≡ number_from (number_from acc s) t
unfolding number_from
number_from-append acc [] t = refl
number_from-append acc (c ∷ s) t = number_from-append (acc * 10 + (c - b'0')) s t

digits-number : (f n : ℕ) → n < f → number_from 0 (digits f n) ≡ n
unfolding digits number_from
digits-number zero n h = elim h [ ]
digits-number (suc f) n h = elim (Bool-cases (ltb n 10)) [
  | inl small ↦ rw (small, digits) (omega arith)
  | inr large ↦
      rw (large, digits)
        (number_from-append 0 (digits f (n / 10)) ((b'0' + n % 10) ∷ [])
          ∙ ground (arith, digits-number f (n / 10)))
]

-- Reading a printed number gives it back.
pub number-decimal : (n : ℕ) → number (decimal n) ≡ n
unfolding number decimal
number-decimal n = digits-number (suc n) n (omega arith)

pub all-append_digit :
    (s : Text) (d : ℕ) → d < 10 → all is_digit s ≡ true → all is_digit (s ++ (b'0' + d) ∷ []) ≡ true
all-append_digit [] d h a = ground arith
all-append_digit (c ∷ s) d h a = ground (arith, all-append_digit s d h)

is_positive_decimal-append :
    (s : Text) (d : ℕ)
    → d < 10
    → is_positive_decimal s ≡ true
    → is_positive_decimal (s ++ (b'0' + d) ∷ []) ≡ true
unfolding is_positive_decimal
is_positive_decimal-append [] d h p = cc
is_positive_decimal-append (c ∷ s) d h p = ground (arith, all-append_digit s d h)

digits_positive : (f n : ℕ) → n < f → 0 < n → is_positive_decimal (digits f n) ≡ true
unfolding digits
digits_positive zero n h p = elim h [ ]
digits_positive (suc f) n h p = elim (Bool-cases (ltb n 10)) [
  | inl small ↦ rw (small, digits) (unfold is_positive_decimal in ground arith)
  | inr large ↦
      rw (large, digits)
        (is_positive_decimal-append (digits f (n / 10)) (n % 10) (omega arith)
          (digits_positive f (n / 10) (ground arith) (ground arith)))
]

-- A positive number is printed without a sign, a leading zero or any other character.
pub decimal_positive : (n : ℕ) → 0 < n → is_positive_decimal (decimal n) ≡ true
unfolding decimal
decimal_positive n p = digits_positive (suc n) n (omega arith) p

number_from_le : (acc : ℕ) (s : Text) → acc ≤ number_from acc s
unfolding number_from
number_from_le acc [] = omega arith
number_from_le acc (c ∷ s) = omega (arith, number_from_le (acc * 10 + (c - b'0')) s)

-- Digits that do not begin with 0 read as a positive number.
pub number_positive : (s : Text) → is_positive_decimal s ≡ true → 1 ≤ number s
unfolding number is_positive_decimal
number_positive [] h = cc
number_positive (c ∷ s) h = ground (arith, number_from_le (0 * 10 + (c - b'0')) s)
