-- ===== src/Text/Decimal/Reading.antt =====
-- A printed number can be read in one way only, where no digit stands behind it.
use parimit.Common.{
  ℕ, zero, suc, ◌/◌, ◌<◌, ◌≡◌, refl, sym, ap, ◌∙◌, Bool, true, false, [], ◌∷◌, ◌++◌, arith, ltb,
  all, Bool-cases, inl, inr,
}
use mathlib.Core.List.{append_assoc}
use parimit.Text.{Text, is_digit}
use parimit.Text.Decimal.{digits, decimal, number, number-decimal, all-append_digit}

abbrev pub starts_digit : Text → Bool
starts_digit [] = false
starts_digit (c ∷ t) = is_digit c

digits-digits : (f n : ℕ) → all is_digit (digits f n) ≡ true
unfolding digits
digits-digits zero n = refl
digits-digits (suc f) n = elim (Bool-cases (ltb n 10)) [
  | inl small ↦ rw (small, digits) (ground arith)
  | inr large ↦
      rw (large, digits)
        (all-append_digit (digits f (n / 10)) _ (omega arith) (digits-digits f (n / 10)))
]

decimal-digits : (n : ℕ) → all is_digit (decimal n) ≡ true
unfolding decimal
decimal-digits n = digits-digits (suc n) n

-- A run of digits ends where no digit follows.
digits-injective :
    (s t r r' : Text)
    → all is_digit s ≡ true
    → all is_digit t ≡ true
    → starts_digit r ≡ false
    → starts_digit r' ≡ false
    → s ++ r ≡ t ++ r'
    → (s ≡ t) × (r ≡ r')
digits-injective [] [] r r' a b h h' e = (refl, e)
digits-injective [] (d ∷ t) r r' a b h h' e = absurd (ground (arith, ap starts_digit e))
digits-injective (c ∷ s) [] r r' a b h h' e = absurd (ground (arith, ap starts_digit e))
digits-injective (c ∷ s) (d ∷ t) r r' a b h h' e = ground (arith, digits-injective s t r r')

pub decimal-injective :
    (n m : ℕ) (r r' : Text)
    → starts_digit r ≡ false
    → starts_digit r' ≡ false
    → decimal n ++ r ≡ decimal m ++ r'
    → (n ≡ m) × (r ≡ r')
decimal-injective n m r r' h h' e =
    let (same, behind) =
      digits-injective (decimal n) (decimal m) r r' (decimal-digits n) (decimal-digits m) h h' e in
    (sym (number-decimal n) ∙ ap number same ∙ number-decimal m, behind)

digits_start : (f n : ℕ) (r : Text) → n < f → starts_digit (digits f n ++ r) ≡ true
unfolding digits
digits_start zero n r h = elim h [ ]
digits_start (suc f) n r h = elim (Bool-cases (ltb n 10)) [
  | inl small ↦ rw (small, digits) (ground arith)
  | inr large ↦
      rw (large, digits)
        (rw (append_assoc (digits f (n / 10))) (digits_start f (n / 10) _ (ground arith)))
]

pub decimal_start : (n : ℕ) (r : Text) → starts_digit (decimal n ++ r) ≡ true
unfolding decimal
decimal_start n r = digits_start (suc n) n r (omega arith)
