-- ===== src/Envelope/Base64.antt =====
-- base64url without padding, as `Buffer` encodes and decodes it.
pub mod RoundTrip
use parimit.Common.{ℕ, ◌+◌, ◌-◌, ◌*◌, ◌/◌, ◌%◌, Bool, ◌||◌, List, [], ◌∷◌, ltb, ◌==◌, if◌then◌else◌}
use parimit.Text.{Text, is_upper, is_digit, is_alphanumeric}

abbrev pub Bytes : Type 0
Bytes = List ℕ

-- `[A-Za-z0-9_-]`
abbrev pub is_base64url_unit : ℕ → Bool
is_base64url_unit c = is_alphanumeric c || c == b'_' || c == b'-'

unfoldable pub digit_unit : ℕ → ℕ
digit_unit n =
    if ltb n 26
    then b'A' + n
    else if ltb n 52
    then b'a' + (n - 26)
    else if ltb n 62
    then b'0' + (n - 52)
    else if n == 62
    then b'-'
    else b'_'

-- The value of a unit of the alphabet.
unfoldable pub unit_digit : ℕ → ℕ
unit_digit c =
    if is_upper c
    then c - b'A'
    else if is_digit c
    then c - b'0' + 52
    else if c == b'-'
    then 62
    else if c == b'_'
    then 63
    else c - b'a' + 26

unfoldable pub to_base64url : Bytes → Text
to_base64url [] = []
to_base64url (a ∷ []) = digit_unit (a / 4) ∷ digit_unit (a % 4 * 16) ∷ []
to_base64url (a ∷ b ∷ []) =
    digit_unit (a / 4) ∷ digit_unit (a % 4 * 16 + b / 16) ∷ digit_unit (b % 16 * 4) ∷ []
to_base64url (a ∷ b ∷ c ∷ rest) =
    digit_unit (a / 4)
    ∷ digit_unit (a % 4 * 16 + b / 16)
    ∷ digit_unit (b % 16 * 4 + c / 64)
    ∷ digit_unit (c % 64)
    ∷ to_base64url rest

-- Of units of the alphabet; bits that fill no byte are dropped.
unfoldable pub from_base64url : Text → Bytes
from_base64url [] = []
from_base64url (p ∷ []) = []
from_base64url (p ∷ q ∷ []) = (unit_digit p * 4 + unit_digit q / 16) ∷ []
from_base64url (p ∷ q ∷ r ∷ []) =
    (unit_digit p * 4 + unit_digit q / 16) ∷ (unit_digit q % 16 * 16 + unit_digit r / 4) ∷ []
from_base64url (p ∷ q ∷ r ∷ s ∷ rest) =
    (unit_digit p * 4 + unit_digit q / 16)
    ∷ (unit_digit q % 16 * 16 + unit_digit r / 4)
    ∷ (unit_digit r % 4 * 64 + unit_digit s)
    ∷ from_base64url rest
