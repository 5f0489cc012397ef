-- ===== src/Service/Payload.antt =====
-- The objects that are hashed: `currentPaymentIntentPayload` of src/intent-payload.ts, and
-- `intentPayloadFromRow` and `approvalReceiptPayload` of src/service.ts.
pub mod Binding
use parimit.Common.{ℕ, Option, none, some, List, [], ◌∷◌, ◌==◌}
use parimit.Text.{Text, lit}
use parimit.Text.Decimal.{decimal}
use parimit.Json.{Json, bool, num, str, arr}
use parimit.Json.Build.{object, strings, nullable}
use parimit.Time.{to_iso_string}
use parimit.Types.{
  IntentVersion, v1, v2, v3, version_text, InitialStatus, initial_to_status, status_text, Decision,
  decision_text, ReviewerRole, reviewer_text, Proposal, PolicyDecision,
}
use parimit.Database.{IntentRow}
use parimit.Service.{Service}
use parimit.Service.Policy.{policy_configuration_digest}

abbrev pub agent_json : Text → Json
agent_json id = object ((lit "type", str (lit "agent")) ∷ (lit "id", str id) ∷ [])

abbrev pub amount_json : ℕ → Json
amount_json n = object ((lit "currency", str (lit "INR")) ∷ (lit "minor", str (decimal n)) ∷ [])

abbrev pub time_json : ℕ → Json
time_json t = str (to_iso_string t)

-- `currentPaymentIntentPayload`
unfoldable pub current_payload :
    Text → Text → Proposal → ℕ → ℕ → PolicyDecision → InitialStatus → Json
current_payload id tenant p created expires policy initial = object (
    (lit "version", str (version_text v3))
    ∷ (lit "id", str id)
    ∷ (lit "tenant_id", str tenant)
    ∷ (lit "idempotency_key", str p.idempotency_key)
    ∷ (lit "requested_by", agent_json p.agent_id)
    ∷ (lit "on_behalf_of", nullable p.on_behalf_of)
    ∷ (lit "amount", amount_json p.amount_minor)
    ∷ (lit "payee_reference", str p.payee_reference)
    ∷ (lit "purpose", str p.purpose)
    ∷ (lit "initial_status", str (status_text (initial_to_status initial)))
    ∷ (
      lit "policy",
      object (
          (lit "allowed", bool policy.allowed)
          ∷ (lit "reasons", arr (strings policy.reasons))
          ∷ (lit "rules_version", str policy.rules_version)
          ∷ (lit "config_digest", str policy.config_digest)
          ∷ (lit "required_approvals", num policy.required_approvals)
          ∷ []),
    )
    ∷ (lit "created_at", time_json created)
    ∷ (lit "expires_at", time_json expires)
    ∷ [])

abbrev v1_payload : IntentRow → Json
v1_payload row = object (
    (lit "version", str (version_text v1))
    ∷ (lit "id", str row.id)
    ∷ (lit "idempotency_key", str row.idempotency_key)
    ∷ (lit "requested_by", agent_json row.agent_id)
    ∷ (lit "on_behalf_of", nullable row.on_behalf_of)
    ∷ (lit "payee_reference", str row.payee_reference)
    ∷ (lit "purpose", str row.purpose)
    ∷ (lit "created_at", time_json row.created_at)
    ∷ (lit "expires_at", time_json row.expires_at)
    ∷ (lit "amount", amount_json row.amount_minor)
    ∷ [])

-- The members that `storedPolicy` has, in front of the rest.
abbrev stored_policy : IntentRow → Json → List (Text × Json) → List (Text × Json)
stored_policy row reasons rest =
    (lit "allowed", bool (row.policy_allowed == 1))
    ∷ (lit "reasons", reasons)
    ∷ (lit "rules_version", str row.rules_version)
    ∷ (lit "required_approvals", num row.required_approvals)
    ∷ rest

-- `policyBound`, with its `policy` member and what the current version adds behind it.
abbrev bound_payload : IntentVersion → IntentRow → Json → List (Text × Json) → Json
bound_payload version row policy rest = object (
    (lit "version", str (version_text version))
    ∷ (lit "id", str row.id)
    ∷ (lit "idempotency_key", str row.idempotency_key)
    ∷ (lit "requested_by", agent_json row.agent_id)
    ∷ (lit "on_behalf_of", nullable row.on_behalf_of)
    ∷ (lit "payee_reference", str row.payee_reference)
    ∷ (lit "purpose", str row.purpose)
    ∷ (lit "created_at", time_json row.created_at)
    ∷ (lit "expires_at", time_json row.expires_at)
    ∷ (lit "amount", amount_json row.amount_minor)
    ∷ (lit "initial_status", str (status_text (initial_to_status row.initial_status)))
    ∷ (lit "policy", policy)
    ∷ rest)

abbrev with_reasons : Service → IntentRow → IntentVersion → Option Json → Option Json
with_reasons svc row v1 reasons = some (v1_payload row)
with_reasons svc row v2 none = none
with_reasons svc row v2 (some reasons) =
    some (bound_payload v2 row (object (stored_policy row reasons [])) [])
with_reasons svc row v3 none = none
with_reasons svc row v3 (some reasons) =
    let digest_member = (lit "config_digest", str (policy_configuration_digest svc)) ∷ [] in
    some (
      bound_payload v3 row (object (stored_policy row reasons digest_member))
        ((lit "tenant_id", str row.tenant_id) ∷ []))

-- `intentPayloadFromRow`: `none` where `JSON.parse` throws on the stored reasons.
unfoldable pub intent_payload_from_row : Service → IntentRow → Option Json
intent_payload_from_row svc row = with_reasons svc row row.intent_version row.policy_reasons

-- `approvalReceiptPayload`
unfoldable pub approval_receipt_payload : Text → Text → Text → ReviewerRole → Decision → ℕ → Json
approval_receipt_payload intent_id intent_hash actor_id role decision created_at = object (
    (lit "version", str (lit "parimit-approval-receipt-v1"))
    ∷ (lit "intent_id", str intent_id)
    ∷ (lit "intent_hash", str intent_hash)
    ∷ (lit "actor_id", str actor_id)
    ∷ (lit "actor_role", str (reviewer_text role))
    ∷ (lit "decision", str (decision_text decision))
    ∷ (lit "created_at", time_json created_at)
    ∷ [])
