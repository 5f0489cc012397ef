-- ===== src/Service/Validation.antt =====
-- src/service.ts, `normalizePaymentProposal` and its helpers, on a parsed JSON body.
pub mod Laws
pub mod Replay
use parimit.Common.{
  ℕ, Bool, true, false, not, ◌&&◌, ◌||◌, ◌^◌, ◌-◌, Option, none, some, List, [], ◌∷◌, ltb, leb,
  ◌==◌, any, all, length,
}
use parimit.Text.{
  Text, lit, text_eq, is_empty, trim, is_control, is_alpha, is_alphanumeric, is_digit,
}
use parimit.Text.Decimal.{number, decimal, is_positive_decimal}
use parimit.Json.{Json, null, bool, num, str, arr, obj, Fields, get_field, keys}
use parimit.Json.Build.{object}
use parimit.Types.{Proposal}
use parimit.Result.{Result, ok, fail, fail_if, ◌>>=◌, ◌>>◌, validation_error}

-- `Number.MAX_SAFE_INTEGER`
abbrev pub max_safe_integer : ℕ
max_safe_integer = 9007199254740991

-- `isRecord`, with the members.
unfoldable pub require_object : Option Json → Result Fields
require_object (some (obj fs)) = ok fs
require_object _ = fail validation_error 400

-- `rejectUnknownKeys`
unfoldable pub reject_unknown_keys : List Text → Fields → Result (Unit {0})
reject_unknown_keys allowed fs =
    fail_if (not (all (λ k. any (λ a. text_eq a k) allowed) (keys fs))) validation_error 400

-- The tests of `requireString` on a string.
unfoldable pub is_string : ℕ → Text → Bool
is_string maximum s =
    not (is_empty s) && (leb (length s) maximum && (text_eq (trim s) s && not (any is_control s)))

unfoldable pub require_string : ℕ → Option Json → Result Text
require_string maximum (some (str s)) = do
  fail_if (not (is_string maximum s)) validation_error 400
  ok s
require_string maximum _ = fail validation_error 400

-- `[A-Za-z0-9._:@/+\-]`
abbrev pub is_identifier_unit : ℕ → Bool
is_identifier_unit c =
    is_alphanumeric c
    || c == b'.'
    || c == b'_'
    || c == b':'
    || c == b'@'
    || c == b'/'
    || c == b'+'
    || c == b'-'

-- `/^[A-Za-z0-9][A-Za-z0-9._:@/+\-]*$/`
unfoldable pub is_identifier : Text → Bool
is_identifier [] = false
is_identifier (c ∷ s) = is_alphanumeric c && all is_identifier_unit s

unfoldable pub require_identifier : Option Json → Result Text
require_identifier v = do
  s ← require_string 128 v
  fail_if (not (is_identifier s)) validation_error 400
  ok s

-- `[A-Za-z0-9:_-]`
abbrev pub is_payee_unit : ℕ → Bool
is_payee_unit c = is_alphanumeric c || c == b':' || c == b'_' || c == b'-'

-- `/^[A-Za-z][A-Za-z0-9:_-]{5,63}$/`
unfoldable pub is_payee_reference : Text → Bool
is_payee_reference [] = false
is_payee_reference (c ∷ s) =
    is_alpha c && (all is_payee_unit s && (leb 5 (length s) && leb (length s) 63))

unfoldable pub require_opaque_payee_reference : Option Json → Result Text
require_opaque_payee_reference v = do
  s ← require_string 64 v
  fail_if (not (is_payee_reference s)) validation_error 400
  ok s

-- `value === "..."`
abbrev pub is_literal : Text → Option Json → Bool
is_literal t (some (str s)) = text_eq s t
is_literal t _ = false

unfoldable pub positive_amount : Text → Result ℕ
positive_amount s = do
  fail_if (not (is_positive_decimal s)) validation_error 400
  fail_if (not (leb (number s) max_safe_integer)) validation_error 400
  ok (number s)

unfoldable pub require_amount : Option Json → Result ℕ
require_amount (some (str s)) = positive_amount s
require_amount _ = fail validation_error 400

unfoldable pub in_range : ℕ → ℕ → Result ℕ
in_range maximum n = do fail_if (not (leb 1 n && leb n maximum)) validation_error 400; ok n

-- `value.expires_in_seconds ?? defaultExpirySeconds`
unfoldable pub require_expiry : ℕ → ℕ → Option Json → Result ℕ
require_expiry default maximum none = in_range maximum default
require_expiry default maximum (some null) = in_range maximum default
require_expiry default maximum (some (num n)) = in_range maximum n
require_expiry default maximum _ = fail validation_error 400

unfoldable pub optional_identifier : Option Json → Result (Option Text)
optional_identifier none = ok none
optional_identifier (some v) = do s ← require_identifier (some v); ok (some s)

unfoldable pub body_keys : List Text
body_keys =
    lit "idempotency_key"
    ∷ lit "requested_by"
    ∷ lit "on_behalf_of"
    ∷ lit "amount"
    ∷ lit "payee_reference"
    ∷ lit "purpose"
    ∷ lit "expires_in_seconds"
    ∷ []

-- `requested_by`, with its `id` unread.
unfoldable pub require_agent : Option Json → Result (Option Json)
require_agent v = do
  fs ← require_object v
  fail_if (not (is_literal (lit "agent") (get_field (lit "type") fs))) validation_error 400
  reject_unknown_keys (lit "type" ∷ lit "id" ∷ []) fs
  ok (get_field (lit "id") fs)

-- `amount`
unfoldable pub require_inr : Option Json → Result ℕ
require_inr v = do
  fs ← require_object v
  fail_if (not (is_literal (lit "INR") (get_field (lit "currency") fs))) validation_error 400
  reject_unknown_keys (lit "currency" ∷ lit "minor" ∷ []) fs
  require_amount (get_field (lit "minor") fs)

unfoldable pub normalize_payment_proposal : ℕ → ℕ → Json → Result Proposal
unfolding body_keys
normalize_payment_proposal default maximum value = do
  fs ← require_object (some value)
  reject_unknown_keys body_keys fs
  agent ← require_agent (get_field (lit "requested_by") fs)
  amount ← require_inr (get_field (lit "amount") fs)
  expiry ← require_expiry default maximum (get_field (lit "expires_in_seconds") fs)
  on_behalf_of ← optional_identifier (get_field (lit "on_behalf_of") fs)
  key ← require_identifier (get_field (lit "idempotency_key") fs)
  agent_id ← require_identifier agent
  payee ← require_opaque_payee_reference (get_field (lit "payee_reference") fs)
  purpose ← require_string 500 (get_field (lit "purpose") fs)
  ok (record {
    idempotency_key = key;
    agent_id = agent_id;
    on_behalf_of = on_behalf_of;
    amount_minor = amount;
    payee_reference = payee;
    purpose = purpose;
    expires_in_seconds = expiry;
  })

-- `...(input.onBehalfOf === null ? {} : { on_behalf_of: input.onBehalfOf })`
abbrev pub when_some : Option Text → List (Text × Json) → List (Text × Json)
when_some none rest = rest
when_some (some t) rest = (lit "on_behalf_of", str t) ∷ rest

-- `originalRequestShape`
unfoldable pub original_request_shape : Proposal → Json
original_request_shape p = object (
    (lit "idempotency_key", str p.idempotency_key)
    ∷ (
      lit "requested_by",
      object ((lit "type", str (lit "agent")) ∷ (lit "id", str p.agent_id) ∷ []),
    )
    ∷ when_some p.on_behalf_of (
        (
          lit "amount",
          object (
              (lit "currency", str (lit "INR")) ∷ (lit "minor", str (decimal p.amount_minor)) ∷ []),
        )
        ∷ (lit "payee_reference", str p.payee_reference)
        ∷ (lit "purpose", str p.purpose)
        ∷ (lit "expires_in_seconds", num p.expires_in_seconds)
        ∷ []))
