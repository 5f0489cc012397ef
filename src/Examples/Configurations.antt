-- ===== src/Examples/Configurations.antt =====
-- Policies that options configure.
use parimit.Common.{◌≡◌, refl, none, some, [], ◌∷◌}
use parimit.Text.{lit, text_eq, trim, is_control, lower}
use parimit.Types.{PolicyConfig}
use parimit.Result.{ok, fail_if}
use parimit.Service.Policy.{default_policy, has}
use parimit.Service.Validation.{is_string}
use parimit.Service.Configuration.{
  PolicyOptions, configure_policy, require_configuration_string, require_safe_positive_integer,
  normalize_payee_set, payee_keys, add_all,
}
use parimit.Service.Configuration.Laws.{IsConfigured, configure_policy-IsConfigured}

abbrev no_options : PolicyOptions
no_options = record {
  rules_version = none;
  per_transaction_limit_minor = none;
  daily_agent_limit_minor = none;
  dual_approval_threshold_minor = none;
  default_expiry_seconds = none;
  max_expiry_seconds = none;
  blocked_payees = none;
  allowed_payees = none;
}

configure_policy-default : configure_policy no_options ≡ ok default_policy
unfolding configure_policy default_policy require_configuration_string require_safe_positive_integer
    is_string normalize_payee_set payee_keys add_all fail_if lit text_eq trim is_control
configure_policy-default = refl

abbrev blocking : PolicyOptions
blocking = record no_options { blocked_payees = some (lit " Payee:Bad " ∷ []) }

abbrev blocking_policy : PolicyConfig
blocking_policy = record default_policy { blocked_payees = lit "payee:bad" ∷ [] }

configure_policy-blocking : configure_policy blocking ≡ ok blocking_policy
unfolding configure_policy default_policy require_configuration_string require_safe_positive_integer
    is_string normalize_payee_set payee_keys add_all fail_if lit text_eq trim is_control lower has
configure_policy-blocking = refl

configure_policy-IsConfigured_example : IsConfigured blocking blocking_policy
configure_policy-IsConfigured_example =
    configure_policy-IsConfigured blocking configure_policy-blocking
