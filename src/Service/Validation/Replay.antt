-- ===== src/Service/Validation/Replay.antt =====
-- `originalRequestShape` is a body that `normalizePaymentProposal` reads back.
use parimit.Common.{ℕ, ◌≤◌, ◌≡◌, refl, subst, inl, inr, true, some, le→leb, Option-cases}
use parimit.Text.{Text, lit, text_eq}
use parimit.Text.Decimal.{decimal, number-decimal, decimal_positive}
use parimit.Json.{num, str, get_field}
use parimit.Types.{Proposal}
use parimit.Result.{ok, fail_if}
use parimit.Service.Validation.{
  max_safe_integer, is_string, require_string, require_identifier, is_payee_reference,
  require_opaque_payee_reference, positive_amount, require_amount, in_range, require_expiry,
  optional_identifier, require_inr, require_agent, require_object, reject_unknown_keys, body_keys,
  normalize_payment_proposal, original_request_shape,
}
use parimit.Service.Validation.Laws.{IsIdentifier, IsOptionalIdentifier, IsNormal}

require_string_ok :
    (maximum : ℕ) (s : Text)
    → is_string maximum s ≡ true
    → require_string maximum (some (str s)) ≡ ok s
unfolding require_string fail_if
require_string_ok maximum s h = rw h refl

require_identifier_ok : (s : Text) → IsIdentifier s → require_identifier (some (str s)) ≡ ok s
unfolding require_identifier fail_if
require_identifier_ok s (short, shaped) = rw (require_string_ok 128 s short, shaped) refl

require_opaque_payee_reference_ok :
    (s : Text)
    → is_string 64 s ≡ true
    → is_payee_reference s ≡ true
    → require_opaque_payee_reference (some (str s)) ≡ ok s
unfolding require_opaque_payee_reference fail_if
require_opaque_payee_reference_ok s short shaped = rw (require_string_ok 64 s short, shaped) refl

require_amount_ok :
    (n : ℕ) → 1 ≤ n → n ≤ max_safe_integer → require_amount (some (str (decimal n))) ≡ ok n
unfolding require_amount positive_amount fail_if
require_amount_ok n low high =
    rw (decimal_positive n low, number-decimal n, le→leb n max_safe_integer high) refl

require_expiry_ok :
    (default maximum n : ℕ)
    → 1 ≤ n
    → n ≤ maximum
    → require_expiry default maximum (some (num n)) ≡ ok n
unfolding require_expiry in_range fail_if
require_expiry_ok default maximum n low high = rw (le→leb 1 n low, le→leb n maximum high) refl

module _ (default maximum : ℕ) (p : Proposal) (normal : IsNormal maximum p) where
  -- For a normal proposal, the body that `originalRequestShape` gives is read back as that proposal.
  pub normalize-original_request_shape :
      normalize_payment_proposal default maximum (original_request_shape p) ≡ ok p
  unfolding normalize_payment_proposal original_request_shape lit text_eq get_field
      reject_unknown_keys require_object require_agent require_inr body_keys fail_if
      optional_identifier
  normalize-original_request_shape =
      let amount = require_amount_ok p.amount_minor normal.amount.0 normal.amount.1 in
      let expiry =
        require_expiry_ok default maximum p.expires_in_seconds normal.expiry.0 normal.expiry.1 in
      let key = require_identifier_ok p.idempotency_key normal.key in
      let agent = require_identifier_ok p.agent_id normal.agent in
      let payee =
        require_opaque_payee_reference_ok p.payee_reference normal.payee.0 normal.payee.1 in
      let purpose = require_string_ok 500 p.purpose normal.purpose in
      elim (Option-cases p.on_behalf_of) [
        | inl e ↦ rw (e, amount, expiry, key, agent, payee, purpose) refl
        | inr (s, e) ↦
            let behalf = require_identifier_ok s (subst IsOptionalIdentifier e normal.behalf) in
            rw (e, amount, expiry, behalf, key, agent, payee, purpose) refl
      ]
