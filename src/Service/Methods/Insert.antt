-- ===== src/Service/Methods/Insert.antt =====
-- The writes of `createIntent`: the row, and the first event of its chain.
use parimit.Common.{ℕ, ◌+◌, ◌*◌, Bool, true, false, some, [], ◌∷◌, if◌then◌else◌}
use parimit.Text.{Text, lit}
use parimit.Text.Decimal.{decimal}
use parimit.Json.{Json, bool, num, str, arr}
use parimit.Json.Build.{object, strings}
use parimit.Types.{
  InitialStatus, denied, awaiting, initial_to_status, status_text, v3, EventType, proposal_created,
  proposal_policy_denied, Proposal, PolicyDecision,
}
use parimit.Result.{Result, ◌>>=◌}
use parimit.Database.{Database, IntentRow, insert_intent}
use parimit.Service.{Service, digest}
use parimit.Service.Audit.{append_audit}
use parimit.Service.Payload.{current_payload}

abbrev pub initial_status_of : Bool → InitialStatus
initial_status_of true = awaiting
initial_status_of false = denied

abbrev pub expiry_of : Proposal → ℕ → ℕ
expiry_of input created_at = created_at + input.expires_in_seconds * 1000

-- `policy` as it stands in the first event's payload
abbrev pub decision_json : PolicyDecision → Json
decision_json p = object (
    (lit "allowed", bool p.allowed)
    ∷ (lit "reasons", arr (strings p.reasons))
    ∷ (lit "rules_version", str p.rules_version)
    ∷ (lit "config_digest", str p.config_digest)
    ∷ (lit "required_approvals", num p.required_approvals)
    ∷ (lit "current_daily_exposure_minor", str (decimal p.current_daily_exposure_minor))
    ∷ (lit "projected_daily_exposure_minor", str (decimal p.projected_daily_exposure_minor))
    ∷ [])

module _ (svc : Service) (input : Proposal) (fingerprint : Text) (policy : PolicyDecision)
    (id : Text) (created_at : ℕ) where
  abbrev pub initial : InitialStatus
  initial = initial_status_of policy.allowed

  unfoldable pub intent_hash_of : Text
  intent_hash_of = digest svc (
      current_payload id svc.tenant_id input created_at (expiry_of input created_at) policy initial)

  unfoldable pub new_intent : IntentRow
  new_intent = record {
    id = id;
    tenant_id = svc.tenant_id;
    idempotency_key = input.idempotency_key;
    request_fingerprint = fingerprint;
    agent_id = input.agent_id;
    on_behalf_of = input.on_behalf_of;
    amount_minor = input.amount_minor;
    payee_reference = input.payee_reference;
    purpose = input.purpose;
    status = initial_to_status initial;
    required_approvals = policy.required_approvals;
    policy_allowed = if policy.allowed then 1 else 0;
    policy_reasons = some (arr (strings policy.reasons));
    rules_version = policy.rules_version;
    intent_version = v3;
    initial_status = initial;
    state_version = 1;
    intent_hash = intent_hash_of;
    created_at = created_at;
    expires_at = expiry_of input created_at;
  }

  abbrev pub created_json : Json
  created_json = object (
      (lit "intent_hash", str intent_hash_of)
      ∷ (lit "tenant_id", str svc.tenant_id)
      ∷ (lit "state_version", num 1)
      ∷ (lit "status", str (status_text (initial_to_status initial)))
      ∷ (lit "policy", decision_json policy)
      ∷ (lit "boundary", str (lit "PROPOSAL_ONLY_NO_VALUE_MOVEMENT"))
      ∷ [])

  abbrev pub created_event : EventType
  created_event = if policy.allowed then proposal_created else proposal_policy_denied

  unfoldable pub insert_and_record : Database → Result Database
  insert_and_record db = do
    db' ← insert_intent new_intent db
    append_audit svc id created_event input.agent_id created_json created_at db'
