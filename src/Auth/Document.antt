-- ===== src/Auth/Document.antt =====
-- Reading of a response of the key endpoint: its size, its JSON document, and its maximum age.
use parimit.Common.{
  ℕ, ◌+◌, Bool, true, false, not, ◌&&◌, Option, none, some, List, [], ◌∷◌, ◌++◌, leb, ◌==◌,
  if◌then◌else◌, all, length,
}
use parimit.Text.{Text, lit, lower, trim, is_digit, is_empty}
use parimit.Text.Decimal.{number}
use parimit.Json.{Json, Fields}
use parimit.Service.Validation.{max_safe_integer}
use parimit.Envelope.{Platform}
use parimit.Envelope.Base64.{Bytes}
use parimit.Envelope.Reading.{◌>>=◌, ◌>>◌, check_that, object_of, list_at}
use parimit.Auth.Token.{strip_prefix}
use parimit.Auth.Provider.{JwksResponse}

abbrev pub max_jwks_bytes : ℕ
max_jwks_bytes = 1048576

abbrev is_within_limit : Option ℕ → Bool
is_within_limit none = true
is_within_limit (some n) = leb n max_jwks_bytes

-- `readLimitedResponseText` before the decoding: `none` where the chunks exceed the limit.
unfoldable pub read_limited : ℕ → ℕ → List Bytes → Option Bytes
read_limited limit read [] = some []
read_limited limit read (chunk ∷ chunks) = do
  check_that (leb (read + length chunk) limit)
  rest ← read_limited limit (read + length chunk) chunks
  some (chunk ++ rest)

unfoldable pub all_objects : List Json → Option (List Fields)
all_objects [] = some []
all_objects (v ∷ vs) = do fs ← object_of v; rest ← all_objects vs; some (fs ∷ rest)

abbrev is_nil : List Json → Bool
is_nil [] = true
is_nil (v ∷ vs) = false

-- The keys of the document; `none` where `fetchJwks` throws.
unfoldable pub read_keys : Platform → JwksResponse → Option (List Fields)
read_keys p response = do
  check_that response.is_ok
  check_that (is_within_limit response.content_length)
  bytes ← read_limited max_jwks_bytes 0 response.chunks
  text ← p.from_utf8 bytes
  value ← p.parse_json text
  document ← object_of value
  keys ← list_at (lit "keys") document
  check_that (not (is_nil keys))
  all_objects keys

abbrev onto : ℕ → List Text → List Text
onto c [] = (c ∷ []) ∷ []
onto c (s ∷ ss) = (c ∷ s) ∷ ss

unfoldable pub split_commas : Text → List Text
split_commas [] = [] ∷ []
split_commas (c ∷ s) = if c == b',' then [] ∷ split_commas s else onto c (split_commas s)

-- The digits of `max-age=(\d+)`.
abbrev age_of : Text → Option Text
age_of part = do
  digits ← strip_prefix (lit "max-age=") (lower (trim part))
  check_that (not (is_empty digits) && all is_digit digits)
  some digits

abbrev first_age : List Text → Option Text
first_age [] = none
first_age (part ∷ parts) = elim (age_of part) [ some t ↦ some t | none ↦ first_age parts ]

-- `parseMaximumAge`: the first part between commas that is `max-age=` and digits, padded or not.
unfoldable pub maximum_age : Option Text → Option ℕ
maximum_age cache_control = do
  header ← cache_control
  digits ← first_age (split_commas header)
  check_that (leb (number digits) max_safe_integer)
  some (number digits)
