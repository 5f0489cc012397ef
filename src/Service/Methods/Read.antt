-- ===== src/Service/Methods/Read.antt =====
-- `rowToIntent`, `getIntent`, `getAudit`, `assertIntentOwnedByAgent` and `evaluatePolicy`.
use parimit.Common.{ℕ, Bool, false, not, Option, none, some, List, select, length, last}
use parimit.Text.{Text}
use parimit.Json.{Json}
use parimit.Types.{PolicyDecision, IntentStatus, authorized_no_dispatch, is_approve}
use parimit.Result.{integrity_failure}
use parimit.Database.{
  Database, IntentRow, ApprovalRow, ObservationRow, AuditRow, events_for, find_intent, find_owned,
  approvals_for, latest_observation,
}
use parimit.Exec.{Action, ◌>>=◌, ◌>>◌, pure, lift, throw_if, query, query_required, query_result}
use parimit.Service.{Service, now}
use parimit.Service.Policy.{decide_policy}
use parimit.Service.Integrity.{verify_integrity}
use parimit.Service.Validation.{normalize_payment_proposal, require_identifier}
use parimit.Service.Methods.Expiry.{expire_due_intents}

-- `ApprovalReceiptView`; its `execution_authorized` is the constant false.
pub record Receipt : Type 0 where
  pub intent_hash : Text
  pub fully_approved_at : ℕ
  pub approvals : List ApprovalRow

-- `IntentView`: the columns of the row, and what the other tables add.
pub record IntentView : Type 0 where
  pub intent : IntentRow
  pub approval_count : ℕ
  pub observation : Option ObservationRow
  pub approvals : List ApprovalRow
  pub receipt : Option Receipt
  pub idempotent_replay : Bool

abbrev pub approved : List ApprovalRow → List ApprovalRow
approved = select (λ a. is_approve a.decision)

-- `approved.at(-1)?.created_at ?? row.created_at`
abbrev approved_at : IntentRow → Option ApprovalRow → ℕ
approved_at row none = row.created_at
approved_at row (some a) = a.created_at

abbrev pub receipt_of : IntentRow → List ApprovalRow → IntentStatus → Option Receipt
receipt_of row approvals authorized_no_dispatch = some (record {
  intent_hash = row.intent_hash;
  fully_approved_at = approved_at row (last (approved approvals));
  approvals = approved approvals;
})
receipt_of row approvals _ = none

unfoldable pub row_to_intent : IntentRow → Database → IntentView
row_to_intent row db = record {
  intent = row;
  approval_count = length (approved (approvals_for row.id db));
  observation = latest_observation row.id db;
  approvals = approvals_for row.id db;
  receipt = receipt_of row (approvals_for row.id db) row.status;
  idempotent_replay = false;
}

module _ (svc : Service) where
  unfoldable pub get_intent : Text → Action IntentView
  get_intent id = do
    expire_due_intents svc
    row ← query_required (find_intent svc.tenant_id id)
    report ← query_result (verify_integrity svc id)
    throw_if (not report.valid) integrity_failure 500
    query (row_to_intent row)

  unfoldable pub get_audit : Text → Action (List AuditRow)
  get_audit id = do
    report ← query_result (verify_integrity svc id)
    throw_if (not report.valid) integrity_failure 500
    query (events_for id)

  -- `WHERE id = ? AND tenant_id = ? AND agent_id = ?`
  unfoldable pub assert_intent_owned_by_agent : Text → Option Json → Action (Unit {0})
  assert_intent_owned_by_agent id actor = do
    expire_due_intents svc
    actor_id ← lift (require_identifier actor)
    row ← query_required (find_owned svc.tenant_id id actor_id)
    pure tt

  unfoldable pub evaluate_policy : Json → Action PolicyDecision
  evaluate_policy value = do
    expire_due_intents svc
    input ← lift (
        normalize_payment_proposal svc.policy.default_expiry_seconds svc.policy.max_expiry_seconds
          value)
    at ← now svc
    query (decide_policy svc input at)
