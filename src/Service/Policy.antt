-- ===== src/Service/Policy.antt =====
-- src/service.ts, the policy: `policyConfigurationDigest`, `dailyExposure` and `decidePolicy`.
pub mod Laws
use parimit.Common.{
  ℕ, ◌+◌, Bool, true, false, not, ◌&&◌, ◌||◌, Option, none, some, List, [], ◌∷◌, ◌++◌, ltb, leb,
  ◌==◌, if◌then◌else◌, any, select,
}
use parimit.Text.{Text, lit, text_eq, text_lt, lower}
use parimit.Text.Decimal.{decimal}
use parimit.Json.{Json, null, num, str, arr}
use parimit.Json.Build.{object, strings}
use parimit.Types.{IntentStatus, is_awaiting, is_authorized, Proposal, PolicyConfig, PolicyDecision}
use parimit.Time.{start_of_day}
use parimit.Database.{Database, IntentRow}
use parimit.Service.{Service, digest}

-- `DEFAULT_POLICY`
unfoldable pub default_policy : PolicyConfig
default_policy = record {
  rules_version = lit "parimit-policy-v1";
  per_transaction_limit_minor = 100000;
  daily_agent_limit_minor = 500000;
  dual_approval_threshold_minor = 50000;
  default_expiry_seconds = 1800;
  max_expiry_seconds = 86400;
  blocked_payees = [];
  allowed_payees = none;
}

-- `ReadonlySet.has`
unfoldable pub has : List Text → Text → Bool
has ts t = any (λ u. text_eq u t) ts

insert_text : Text → List Text → List Text
insert_text t [] = t ∷ []
insert_text t (u ∷ us) = if text_lt u t then u ∷ insert_text t us else t ∷ u ∷ us

-- `[...set].sort()`
unfoldable pub sort_texts : List Text → List Text
unfolding insert_text
sort_texts [] = []
sort_texts (t ∷ ts) = insert_text t (sort_texts ts)

abbrev allowed_payees_json : Option (List Text) → Json
allowed_payees_json none = null
allowed_payees_json (some ts) = arr (strings (sort_texts ts))

module _ (svc : Service) where
  unfoldable pub policy_configuration_digest : Text
  unfolding sort_texts
  policy_configuration_digest = digest svc (
      object (
        (lit "version", str (lit "parimit-policy-configuration-v1"))
        ∷ (lit "rules_version", str rules_version)
        ∷ (lit "per_transaction_limit_minor", str (decimal per_transaction_limit_minor))
        ∷ (lit "daily_agent_limit_minor", str (decimal daily_agent_limit_minor))
        ∷ (lit "dual_approval_threshold_minor", str (decimal dual_approval_threshold_minor))
        ∷ (lit "default_expiry_seconds", num default_expiry_seconds)
        ∷ (lit "maximum_expiry_seconds", num max_expiry_seconds)
        ∷ (lit "blocked_payees", arr (strings (sort_texts blocked_payees)))
        ∷ (lit "allowed_payees", allowed_payees_json allowed_payees)
        ∷ []))
    where
      open svc.policy use {
        rules_version, per_transaction_limit_minor, daily_agent_limit_minor,
        dual_approval_threshold_minor, default_expiry_seconds, max_expiry_seconds, blocked_payees,
        allowed_payees,
      }

  -- The WHERE clause of `dailyExposure`.
  abbrev pub is_exposed : Text → ℕ → IntentRow → Bool
  is_exposed agent start r =
      text_eq r.agent_id agent
      && (text_eq r.tenant_id svc.tenant_id
          && (leb start r.created_at
              && (r.policy_allowed == 1 && (is_awaiting r.status || is_authorized r.status))))

  -- `COALESCE(SUM(amount_minor), 0)`
  abbrev pub exposure_from : Text → ℕ → List IntentRow → ℕ
  exposure_from agent start [] = 0
  exposure_from agent start (r ∷ rs) =
      (if is_exposed agent start r then r.amount_minor else 0) + exposure_from agent start rs

  unfoldable pub daily_exposure : Text → ℕ → Database → ℕ
  daily_exposure agent at db = exposure_from agent (start_of_day at) db.intents

abbrev pub flag : Bool → Text → List Text
flag true reason = reason ∷ []
flag false reason = []

-- `allowedPayees !== null && !allowedPayees.has(payee)`
abbrev pub is_unlisted : Option (List Text) → Text → Bool
is_unlisted none payee = false
is_unlisted (some ts) payee = not (has ts payee)

abbrev pub is_nil {ℓ} : {A : Type ℓ} → List A → Bool
is_nil [] = true
is_nil (x ∷ xs) = false

module _ (svc : Service) where
  unfoldable pub denial_reasons : Proposal → ℕ → List Text
  denial_reasons input projected =
      flag (ltb svc.policy.per_transaction_limit_minor input.amount_minor)
        (lit "PER_TRANSACTION_LIMIT_EXCEEDED")
      ++ flag (ltb svc.policy.daily_agent_limit_minor projected) (lit "DAILY_AGENT_LIMIT_EXCEEDED")
      ++ flag (has svc.policy.blocked_payees (lower input.payee_reference)) (lit "PAYEE_BLOCKED")
      ++ flag (is_unlisted svc.policy.allowed_payees (lower input.payee_reference))
          (lit "PAYEE_NOT_ALLOWLISTED")

  unfoldable pub required_approvals_of : ℕ → ℕ
  required_approvals_of amount =
      if ltb svc.policy.dual_approval_threshold_minor amount then 2 else 1

-- `requiredApprovals === 2 ? ... : ...`
unfoldable pub approval_reason : ℕ → Text
approval_reason n =
    if n == 2 then lit "DISTINCT_DUAL_APPROVAL_REQUIRED" else lit "HUMAN_APPROVAL_REQUIRED"

module _ (svc : Service) where
  -- `decidePolicy`, at the time that `this.clock()` gave.
  unfoldable pub decide_policy : Proposal → ℕ → Database → PolicyDecision
  decide_policy input at db =
      let exposure = daily_exposure svc input.agent_id at db in
      let denials = denial_reasons svc input (exposure + input.amount_minor) in
      let needed = required_approvals_of svc input.amount_minor in
      record {
        allowed = is_nil denials;
        reasons = denials ++ approval_reason needed ∷ [];
        rules_version = svc.policy.rules_version;
        config_digest = policy_configuration_digest svc;
        required_approvals = needed;
        current_daily_exposure_minor = exposure;
        projected_daily_exposure_minor = exposure + input.amount_minor;
      }
