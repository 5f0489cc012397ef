-- ===== src/Service/Methods/Decide.antt =====
-- The writes of `approveIntent`, `cancelIntent` and `recordMockObservation`.
use parimit.Common.{ℕ, false, Option, [], ◌∷◌, leb, ◌==◌, if◌then◌else◌}
use parimit.Text.{Text, lit}
use parimit.Json.{Json, bool, str}
use parimit.Json.Build.{object, nullable}
use parimit.Types.{
  IntentStatus, awaiting_approval, authorized_no_dispatch, rejected, cancelled, status_text,
  ObservationStatus, observation_text, Decision, approve, reject, decision_text, ReviewerRole,
  reviewer_text, EventType, human_approval_recorded, human_rejection_recorded, proposal_cancelled,
  demo_mock_observation_recorded,
}
use parimit.Result.{Result, ok, fail, ◌>>=◌, state_conflict}
use parimit.Database.{
  Database, IntentRow, ApprovalRow, ObservationRow, insert_approval, count_approvals,
  insert_observation, update_status,
}
use parimit.Service.{Service, hmac_sha256}
use parimit.Service.Audit.{append_audit}
use parimit.Service.Payload.{approval_receipt_payload}

-- `nextStatus`
abbrev pub next_status : Decision → ℕ → ℕ → IntentStatus
next_status reject total needed = rejected
next_status approve total needed =
    if leb needed total then authorized_no_dispatch else awaiting_approval

abbrev pub review_event : Decision → EventType
review_event approve = human_approval_recorded
review_event reject = human_rejection_recorded

-- The UPDATE under its guard; `STATE_CONFLICT` if no row changed.
unfoldable pub move_to : Service → Text → IntentStatus → Database → Result Database
move_to svc id next db =
    let (db', changes) = update_status svc.tenant_id id next db in
    if changes == 1 then ok db' else fail state_conflict 409

module _ (svc : Service) (row : IntentRow) (actor : Text) (role : ReviewerRole)
    (decision : Decision) (at : ℕ) (uuid : Text) where
  unfoldable pub receipt_hmac_of : Text
  receipt_hmac_of =
      hmac_sha256 svc (approval_receipt_payload row.id row.intent_hash actor role decision at)

  unfoldable pub new_approval : ApprovalRow
  new_approval = record {
    id = uuid;
    intent_id = row.id;
    actor_id = actor;
    actor_role = role;
    decision = decision;
    intent_hash = row.intent_hash;
    created_at = at;
    receipt_hmac = receipt_hmac_of;
  }

  abbrev pub review_json : IntentStatus → Json
  review_json next = object (
      (lit "actor_role", str (reviewer_text role))
      ∷ (lit "decision", str (decision_text decision))
      ∷ (lit "intent_hash", str row.intent_hash)
      ∷ (lit "receipt_hmac", str receipt_hmac_of)
      ∷ (lit "resulting_status", str (status_text next))
      ∷ [])

  unfoldable pub store_review : Database → Result Database
  store_review db = do
    db₁ ← insert_approval new_approval db
    let next = next_status decision (count_approvals row.id db₁) row.required_approvals
    db₂ ← move_to svc row.id next db₁
    append_audit svc row.id (review_event decision) actor (review_json next) at db₂

abbrev pub cancelled_json : Json
cancelled_json = object ((lit "status", str (status_text cancelled)) ∷ [])

unfoldable pub store_cancellation : Service → Text → Text → ℕ → Database → Result Database
store_cancellation svc id actor at db = do
  db' ← move_to svc id cancelled db
  append_audit svc id proposal_cancelled actor cancelled_json at db'

module _ (svc : Service) (id : Text) (status : ObservationStatus) (reference : Option Text)
    (actor : Text) (at : ℕ) (uuid : Text) where
  unfoldable pub new_observation : ObservationRow
  new_observation = record {
    id = uuid;
    intent_id = id;
    status = status;
    provider_reference = reference;
    observed_at = at;
  }

  abbrev pub observation_json : Json
  observation_json = object (
      (lit "observation_id", str uuid)
      ∷ (lit "status", str (observation_text status))
      ∷ (lit "provider_reference", nullable reference)
      ∷ (lit "source", str (lit "DEMO_MOCK"))
      ∷ (lit "retry_permitted", bool false)
      ∷ (lit "moves_money", bool false)
      ∷ [])

  unfoldable pub store_observation : Database → Result Database
  store_observation db = do
    db' ← insert_observation new_observation db
    append_audit svc id demo_mock_observation_recorded actor observation_json at db'
