-- ===== src/Envelope/Base64/RoundTrip.antt =====
-- Decoding gives back the bytes that were encoded.
use parimit.Common.{
  ℕ, ◌+◌, ◌*◌, ◌/◌, ◌%◌, ◌<◌, ◌≡◌, refl, true, false, some, [], ◌∷◌, arith, all, All, length, ◌==◌,
}
use parimit.Text.{text_eq_refl, is_empty}
use parimit.Envelope.{decode_base64url}
use parimit.Envelope.Base64.{
  Bytes, digit_unit, unit_digit, is_base64url_unit, to_base64url, from_base64url,
}

abbrev pub IsByte : ℕ → Type 0
IsByte b = b < 256

unit_digit-digit_unit : (n : ℕ) → n < 64 → unit_digit (digit_unit n) ≡ n
unfolding unit_digit digit_unit
unit_digit-digit_unit n h = ground arith

digit_unit-alphabet : (n : ℕ) → n < 64 → is_base64url_unit (digit_unit n) ≡ true
unfolding digit_unit
digit_unit-alphabet n h = ground arith

pub from_base64url-to_base64url :
    (bytes : Bytes) → All IsByte bytes → from_base64url (to_base64url bytes) ≡ bytes
unfolding from_base64url to_base64url
from_base64url-to_base64url [] h = refl
from_base64url-to_base64url (a ∷ []) (p, _) =
    rw
      (
        unit_digit-digit_unit (a / 4) (omega (arith, p)),
        unit_digit-digit_unit (a % 4 * 16) (omega arith),
      )
      (ground arith)
from_base64url-to_base64url (a ∷ b ∷ []) (p, (q, _)) =
    rw
      (
        unit_digit-digit_unit (a / 4) (omega (arith, p)),
        unit_digit-digit_unit (a % 4 * 16 + b / 16) (omega (arith, q)),
        unit_digit-digit_unit (b % 16 * 4) (omega arith),
      )
      (ground arith)
from_base64url-to_base64url (a ∷ b ∷ c ∷ rest) (p, (q, (r, more))) =
    rw
      (
        unit_digit-digit_unit (a / 4) (omega (arith, p)),
        unit_digit-digit_unit (a % 4 * 16 + b / 16) (omega (arith, q)),
        unit_digit-digit_unit (b % 16 * 4 + c / 64) (omega (arith, r)),
        unit_digit-digit_unit (c % 64) (omega arith),
        from_base64url-to_base64url rest more,
      )
      (ground arith)

pub to_base64url-alphabet :
    (bytes : Bytes) → All IsByte bytes → all is_base64url_unit (to_base64url bytes) ≡ true
unfolding to_base64url
to_base64url-alphabet [] h = refl
to_base64url-alphabet (a ∷ []) (p, _) =
    rw
      (
        digit_unit-alphabet (a / 4) (omega (arith, p)),
        digit_unit-alphabet (a % 4 * 16) (omega arith),
      )
      refl
to_base64url-alphabet (a ∷ b ∷ []) (p, (q, _)) =
    rw
      (
        digit_unit-alphabet (a / 4) (omega (arith, p)),
        digit_unit-alphabet (a % 4 * 16 + b / 16) (omega (arith, q)),
        digit_unit-alphabet (b % 16 * 4) (omega arith),
      )
      refl
to_base64url-alphabet (a ∷ b ∷ c ∷ rest) (p, (q, (r, more))) =
    rw
      (
        digit_unit-alphabet (a / 4) (omega (arith, p)),
        digit_unit-alphabet (a % 4 * 16 + b / 16) (omega (arith, q)),
        digit_unit-alphabet (b % 16 * 4 + c / 64) (omega (arith, r)),
        digit_unit-alphabet (c % 64) (omega arith),
        to_base64url-alphabet rest more,
      )
      refl

not_empty : (bytes : Bytes) → is_empty bytes ≡ false → is_empty (to_base64url bytes) ≡ false
unfolding to_base64url
not_empty [] h = cc
not_empty (a ∷ []) h = refl
not_empty (a ∷ b ∷ []) h = refl
not_empty (a ∷ b ∷ c ∷ rest) h = refl

-- No text is printed whose length is one more than a multiple of 4.
to_base64url-length : (bytes : Bytes) → (length (to_base64url bytes) % 4 == 1) ≡ false
unfolding to_base64url
to_base64url-length [] = refl
to_base64url-length (a ∷ []) = refl
to_base64url-length (a ∷ b ∷ []) = refl
to_base64url-length (a ∷ b ∷ c ∷ rest) = ground (arith, to_base64url-length rest)

-- `decodeBase64Url` accepts what `toString("base64url")` prints of bytes that are not none, and gives
-- them back.
pub decode_base64url-to_base64url :
    (bytes : Bytes)
    → All IsByte bytes
    → is_empty bytes ≡ false
    → decode_base64url (to_base64url bytes) ≡ some bytes
unfolding decode_base64url
decode_base64url-to_base64url bytes h filled =
    rw
      (
        not_empty bytes filled,
        to_base64url-alphabet bytes h,
        to_base64url-length bytes,
        from_base64url-to_base64url bytes h,
        filled,
        text_eq_refl (to_base64url bytes),
      )
      refl
