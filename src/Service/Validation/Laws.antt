-- ===== src/Service/Validation/Laws.antt =====
-- What `normalizePaymentProposal` lets through.
use parimit.Common.{
  ℕ, ◌≤◌, ◌≡◌, refl, subst, ap, Bool, true, false, not, Option, none, some, leb, leb→le, &&-eq-true,
}
use parimit.Text.{Text}
use parimit.Text.Decimal.{number, number_positive, is_positive_decimal}
use parimit.Json.{Json, null, bool, num, str, arr, obj}
use parimit.Types.{Proposal}
use parimit.Result.{ok, fail_if, validation_error, fail_if-eq-ok, >>=-eq-ok, ok_injective}
use parimit.Service.Validation.{
  max_safe_integer, is_string, require_string, is_identifier, require_identifier,
  is_payee_reference, require_opaque_payee_reference, positive_amount, require_amount, in_range,
  require_expiry, optional_identifier, require_inr, require_agent, require_object,
  reject_unknown_keys, normalize_payment_proposal,
}

abbrev pub IsIdentifier : Text → Type 0
IsIdentifier s = (is_string 128 s ≡ true) × (is_identifier s ≡ true)

abbrev pub IsOptionalIdentifier : Option Text → Type 0
IsOptionalIdentifier none = Unit {0}
IsOptionalIdentifier (some s) = IsIdentifier s

-- A proposal that the service may store, `maximum` being the longest expiry.
pub record IsNormal (maximum : ℕ) (p : Proposal) : Type 0 where
  pub key : IsIdentifier p.idempotency_key
  pub agent : IsIdentifier p.agent_id
  pub behalf : IsOptionalIdentifier p.on_behalf_of
  pub payee :
      (is_string 64 p.payee_reference ≡ true) × (is_payee_reference p.payee_reference ≡ true)
  pub purpose : is_string 500 p.purpose ≡ true
  pub amount : (1 ≤ p.amount_minor) × (p.amount_minor ≤ max_safe_integer)
  pub expiry : (1 ≤ p.expires_in_seconds) × (p.expires_in_seconds ≤ maximum)

pub of_not : (b : Bool) → not b ≡ false → b ≡ true
of_not true h = refl
of_not false h = cc

pub require_string-eq-ok :
    (maximum : ℕ) (v : Option Json) {s : Text}
    → require_string maximum v ≡ ok s
    → (v ≡ some (str s)) × (is_string maximum s ≡ true)
unfolding require_string
require_string-eq-ok maximum none h = cc
require_string-eq-ok maximum (some null) h = cc
require_string-eq-ok maximum (some (bool b)) h = cc
require_string-eq-ok maximum (some (num n)) h = cc
require_string-eq-ok maximum (some (arr vs)) h = cc
require_string-eq-ok maximum (some (obj fs)) h = cc
require_string-eq-ok maximum (some (str t)) {s} h =
    let (_, tested, returned) = >>=-eq-ok _ _ h in
    let same : t ≡ s = ok_injective returned in
    (
      ap (λ u. some (str u)) same,
      subst (λ u. is_string maximum u ≡ true) same (of_not _ (fail_if-eq-ok _ _ _ tested)),
    )

pub require_identifier-eq-ok :
    (v : Option Json) {s : Text} → require_identifier v ≡ ok s → IsIdentifier s
unfolding require_identifier
require_identifier-eq-ok v {s} h =
    let (t, read, rest) = >>=-eq-ok _ _ h in
    let (_, tested, returned) = >>=-eq-ok _ _ rest in
    subst IsIdentifier (ok_injective returned)
      ((require_string-eq-ok 128 v read).1, of_not _ (fail_if-eq-ok _ _ _ tested))

require_opaque_payee_reference-eq-ok :
    (v : Option Json) {s : Text}
    → require_opaque_payee_reference v ≡ ok s
    → (is_string 64 s ≡ true) × (is_payee_reference s ≡ true)
unfolding require_opaque_payee_reference
require_opaque_payee_reference-eq-ok v {s} h =
    let (t, read, rest) = >>=-eq-ok _ _ h in
    let (_, tested, returned) = >>=-eq-ok _ _ rest in
    subst (λ u. (is_string 64 u ≡ true) × (is_payee_reference u ≡ true)) (ok_injective returned)
      ((require_string-eq-ok 64 v read).1, of_not _ (fail_if-eq-ok _ _ _ tested))

optional_identifier-eq-ok :
    (v : Option Json) {o : Option Text} → optional_identifier v ≡ ok o → IsOptionalIdentifier o
unfolding optional_identifier
optional_identifier-eq-ok none h = subst IsOptionalIdentifier (ok_injective h) tt
optional_identifier-eq-ok (some v) h =
    let (t, read, returned) = >>=-eq-ok _ _ h in
    subst IsOptionalIdentifier (ok_injective returned) (require_identifier-eq-ok (some v) read)

positive_amount-eq-ok :
    (s : Text) {n : ℕ} → positive_amount s ≡ ok n → (1 ≤ n) × (n ≤ max_safe_integer)
unfolding positive_amount
positive_amount-eq-ok s h =
    let (_, positive, rest) =
      >>=-eq-ok (fail_if (not (is_positive_decimal s)) validation_error 400) _ h in
    let (_, safe, returned) =
      >>=-eq-ok (fail_if (not (leb (number s) max_safe_integer)) validation_error 400) _ rest in
    subst (λ n. (1 ≤ n) × (n ≤ max_safe_integer)) (ok_injective returned)
      (
        number_positive s (of_not _ (fail_if-eq-ok _ _ _ positive)),
        leb→le _ _ (of_not _ (fail_if-eq-ok _ _ _ safe)),
      )

require_amount-eq-ok :
    (v : Option Json) {n : ℕ} → require_amount v ≡ ok n → (1 ≤ n) × (n ≤ max_safe_integer)
unfolding require_amount
require_amount-eq-ok none h = cc
require_amount-eq-ok (some null) h = cc
require_amount-eq-ok (some (bool b)) h = cc
require_amount-eq-ok (some (num n)) h = cc
require_amount-eq-ok (some (arr vs)) h = cc
require_amount-eq-ok (some (obj fs)) h = cc
require_amount-eq-ok (some (str t)) h = positive_amount-eq-ok t h

pub in_range-eq-ok : (maximum n : ℕ) {m : ℕ} → in_range maximum n ≡ ok m → (1 ≤ m) × (m ≤ maximum)
unfolding in_range
in_range-eq-ok maximum n h =
    let (_, tested, returned) = >>=-eq-ok _ _ h in
    let (low, high) = &&-eq-true _ _ (of_not _ (fail_if-eq-ok _ _ _ tested)) in
    subst (λ m. (1 ≤ m) × (m ≤ maximum)) (ok_injective returned) (leb→le _ _ low, leb→le _ _ high)

require_expiry-eq-ok :
    (default maximum : ℕ) (v : Option Json) {n : ℕ}
    → require_expiry default maximum v ≡ ok n
    → (1 ≤ n) × (n ≤ maximum)
unfolding require_expiry
require_expiry-eq-ok default maximum none h = in_range-eq-ok maximum default h
require_expiry-eq-ok default maximum (some null) h = in_range-eq-ok maximum default h
require_expiry-eq-ok default maximum (some (num n)) h = in_range-eq-ok maximum n h
require_expiry-eq-ok default maximum (some (bool b)) h = cc
require_expiry-eq-ok default maximum (some (str t)) h = cc
require_expiry-eq-ok default maximum (some (arr vs)) h = cc
require_expiry-eq-ok default maximum (some (obj fs)) h = cc

require_inr-eq-ok :
    (v : Option Json) {n : ℕ} → require_inr v ≡ ok n → (1 ≤ n) × (n ≤ max_safe_integer)
unfolding require_inr
require_inr-eq-ok v h =
    let (fs, _, h₁) = >>=-eq-ok (require_object v) _ h in
    let (_, _, h₂) = >>=-eq-ok (fail_if _ _ _) _ h₁ in
    let (_, _, h₃) = >>=-eq-ok (reject_unknown_keys _ fs) _ h₂ in require_amount-eq-ok _ h₃

-- A body that `normalizePaymentProposal` accepts gives a proposal with well-formed identifiers, payee
-- reference and purpose, an amount from 1 to 2^53 - 1 and an expiry from 1 second to the maximum.
pub normalize-IsNormal :
    (default maximum : ℕ) (value : Json) {p : Proposal}
    → normalize_payment_proposal default maximum value ≡ ok p
    → IsNormal maximum p
unfolding normalize_payment_proposal
normalize-IsNormal default maximum value h =
    let (fs, _, h₁) = >>=-eq-ok (require_object (some value)) _ h in
    let (_, _, h₂) = >>=-eq-ok (reject_unknown_keys _ fs) _ h₁ in
    let (agent, _, h₃) = >>=-eq-ok (require_agent _) _ h₂ in
    let (amount, amount_read, h₄) = >>=-eq-ok (require_inr _) _ h₃ in
    let (expiry, expiry_read, h₅) = >>=-eq-ok (require_expiry default maximum _) _ h₄ in
    let (behalf, behalf_read, h₆) = >>=-eq-ok (optional_identifier _) _ h₅ in
    let (key, key_read, h₇) = >>=-eq-ok (require_identifier _) _ h₆ in
    let (agent_id, agent_read, h₈) = >>=-eq-ok (require_identifier agent) _ h₇ in
    let (payee, payee_read, h₉) = >>=-eq-ok (require_opaque_payee_reference _) _ h₈ in
    let (purpose, purpose_read, returned) = >>=-eq-ok (require_string 500 _) _ h₉ in
    subst (IsNormal maximum) (ok_injective returned) (record {
      key = require_identifier-eq-ok _ key_read;
      agent = require_identifier-eq-ok _ agent_read;
      behalf = optional_identifier-eq-ok _ behalf_read;
      payee = require_opaque_payee_reference-eq-ok _ payee_read;
      purpose = (require_string-eq-ok 500 _ purpose_read).1;
      amount = require_inr-eq-ok _ amount_read;
      expiry = require_expiry-eq-ok default maximum _ expiry_read;
    })
