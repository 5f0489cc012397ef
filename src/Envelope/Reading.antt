-- ===== src/Envelope/Reading.antt =====
-- Reading of parsed JSON by steps that may fail, and the formats of the texts in it.
use parimit.Common.{
  ℕ, Bool, true, false, ◌&&◌, ◌||◌, Option, none, some, List, [], ◌∷◌, leb, ◌==◌, any, all, length,
}
use parimit.Text.{Text, text_eq, is_digit}
use parimit.Json.{Json, num, str, arr, obj, Fields, get_field, keys, elements}
use parimit.Service.Validation.{max_safe_integer}
use parimit.Service.Integrity.Payloads.{is_str, is_num, is_bool}

infixl 5 ◌>>=◌ ◌>>◌
-- `none` stands for a thrown TypeError.
abbrev pub ◌>>=◌ : {A B : Type 0} → Option A → (A → Option B) → Option B
none >>= next = none
some a >>= next = next a

abbrev pub ◌>>◌ : {A B : Type 0} → Option A → Option B → Option B
step >> next = step >>= λ _. next

abbrev pub check_that : Bool → Option (Unit {0})
check_that true = some tt
check_that false = none

-- `isRecord`
unfoldable pub object_of : Json → Option Fields
object_of (obj fs) = some fs
object_of _ = none

abbrev as_text : Json → Option Text
as_text (str s) = some s
as_text _ = none

abbrev as_number : Json → Option ℕ
as_number (num n) = some n
as_number _ = none

abbrev as_list : Json → Option (List Json)
as_list (arr vs) = some (elements vs)
as_list _ = none

unfoldable pub object_at : Text → Fields → Option Fields
object_at k fs = do v ← get_field k fs; object_of v

unfoldable pub text_at : Text → Fields → Option Text
text_at k fs = do v ← get_field k fs; as_text v

-- `Number.isSafeInteger`
unfoldable pub number_at : Text → Fields → Option ℕ
number_at k fs = do v ← get_field k fs; n ← as_number v; check_that (leb n max_safe_integer); some n

unfoldable pub list_at : Text → Fields → Option (List Json)
list_at k fs = do v ← get_field k fs; as_list v

-- `value.key === "..."`, `=== 1`, `=== true`
abbrev pub has_text : Text → Text → Fields → Bool
has_text k t fs = is_str t (get_field k fs)

abbrev pub has_number : Text → ℕ → Fields → Bool
has_number k n fs = is_num n (get_field k fs)

abbrev pub has_bool : Text → Bool → Fields → Bool
has_bool k b fs = is_bool b (get_field k fs)

-- `hasExactKeys`: the keys of a parsed object are distinct.
unfoldable pub has_exact_keys : List Text → Fields → Bool
has_exact_keys expected fs =
    length (keys fs) == length expected && all (λ k. any (λ e. text_eq e k) expected) (keys fs)

-- `[0-9a-f]`
abbrev pub is_hex : ℕ → Bool
is_hex c = is_digit c || (leb b'a' c && leb c b'f')

-- `isSha256Hex`
unfoldable pub is_sha256_hex : Text → Bool
is_sha256_hex s = length s == 64 && all is_hex s

-- `[0-9a-f]{8}-[0-9a-f]{4}-[1-5][0-9a-f]{3}-[89ab][0-9a-f]{3}-[0-9a-f]{12}`: `h` stands for a hex
-- digit, `1` for `[1-5]` and `8` for `[89ab]`.
abbrev fits : ℕ → ℕ → Bool
fits k c =
    (k == b'h' && is_hex c)
    || (k == b'-' && c == b'-')
    || (k == b'1' && (leb b'1' c && leb c b'5'))
    || (k == b'8' && (c == b'8' || c == b'9' || c == b'a' || c == b'b'))

unfoldable pub matches : Text → Text → Bool
matches [] [] = true
matches (k ∷ ks) (c ∷ cs) = fits k c && matches ks cs
matches _ _ = false
