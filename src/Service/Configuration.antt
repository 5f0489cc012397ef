-- ===== src/Service/Configuration.antt =====
-- src/service.ts, the constructor: the policy that the options configure. An option is `none` where it
-- is undefined or null; a number is a natural number, so the tests for integers are vacuous.
pub mod Laws
pub mod Options
pub mod Settled
pub mod Environment
pub mod Deployed
use parimit.Common.{
  ℕ, Bool, true, false, not, ◌&&◌, Option, none, some, List, [], ◌∷◌, ◌++◌, ltb, leb, any,
  if◌then◌else◌,
}
use parimit.Text.{Text, text_eq, is_empty, trim, lower}
use parimit.Types.{PolicyConfig}
use parimit.Result.{Result, ok, fail_if, ◌>>=◌, ◌>>◌, invalid_configuration}
use parimit.Service.Policy.{default_policy, has}
use parimit.Service.Validation.{max_safe_integer, is_string}

-- `Partial<PolicyConfig>`; for `allowed_payees`, `some none` is null.
pub record PolicyOptions : Type 0 where
  pub rules_version : Option Text
  pub per_transaction_limit_minor : Option ℕ
  pub daily_agent_limit_minor : Option ℕ
  pub dual_approval_threshold_minor : Option ℕ
  pub default_expiry_seconds : Option ℕ
  pub max_expiry_seconds : Option ℕ
  pub blocked_payees : Option (List Text)
  pub allowed_payees : Option (Option (List Text))

-- `value ?? fallback`
abbrev pub or_default {ℓ} : {A : Type ℓ} → Option A → A → A
or_default none d = d
or_default (some a) d = a

-- `requireSafePositiveInteger`
unfoldable pub require_safe_positive_integer : ℕ → Result ℕ
require_safe_positive_integer n = do
  fail_if (not (leb 1 n && leb n max_safe_integer)) invalid_configuration 500
  ok n

-- `requireConfigurationString`
unfoldable pub require_configuration_string : ℕ → Text → Result Text
require_configuration_string maximum s = do
  fail_if (not (is_string maximum s)) invalid_configuration 500
  ok s

-- `new Set(values)`, in the order of insertion, with the values so far.
unfoldable pub add_all : List Text → List Text → List Text
add_all set [] = set
add_all set (t ∷ ts) = add_all (if has set t then set else set ++ t ∷ []) ts

-- `value.trim().toLocaleLowerCase("en-US")`, without the empty ones.
unfoldable pub payee_keys : List Text → List Text
payee_keys [] = []
payee_keys (t ∷ ts) =
    if is_empty (lower (trim t)) then payee_keys ts else lower (trim t) ∷ payee_keys ts

unfoldable pub normalize_payee_set : List Text → List Text
normalize_payee_set values = add_all [] (payee_keys values)

abbrev pub configured_allowed : Option (Option (List Text)) → Option (List Text)
configured_allowed none = default_policy.allowed_payees
configured_allowed (some none) = none
configured_allowed (some (some values)) = some (normalize_payee_set values)

-- `MAX_PROPOSAL_EXPIRY_SECONDS`
abbrev pub max_proposal_expiry_seconds : ℕ
max_proposal_expiry_seconds = 86400

unfoldable pub configure_policy : PolicyOptions → Result PolicyConfig
configure_policy o = do
  version ←
      require_configuration_string 128 (or_default o.rules_version default_policy.rules_version)
  per_transaction ←
      require_safe_positive_integer
        (or_default o.per_transaction_limit_minor default_policy.per_transaction_limit_minor)
  daily ←
      require_safe_positive_integer
        (or_default o.daily_agent_limit_minor default_policy.daily_agent_limit_minor)
  threshold ←
      require_safe_positive_integer
        (or_default o.dual_approval_threshold_minor default_policy.dual_approval_threshold_minor)
  default_expiry ←
      require_safe_positive_integer
        (or_default o.default_expiry_seconds default_policy.default_expiry_seconds)
  max_expiry ←
      require_safe_positive_integer
        (or_default o.max_expiry_seconds default_policy.max_expiry_seconds)
  fail_if (ltb max_expiry default_expiry) invalid_configuration 500
  fail_if (ltb max_proposal_expiry_seconds max_expiry) invalid_configuration 500
  ok (record {
    rules_version = version;
    per_transaction_limit_minor = per_transaction;
    daily_agent_limit_minor = daily;
    dual_approval_threshold_minor = threshold;
    default_expiry_seconds = default_expiry;
    max_expiry_seconds = max_expiry;
    blocked_payees =
        normalize_payee_set (or_default o.blocked_payees default_policy.blocked_payees);
    allowed_payees = configured_allowed o.allowed_payees;
  })
