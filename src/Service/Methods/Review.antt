-- ===== src/Service/Methods/Review.antt =====
-- `approveIntent`.
use parimit.Common.{ℕ, Bool, true, false, not, Option, none, some, leb, if◌then◌else◌}
use parimit.Text.{Text, lit, text_eq, lower}
use parimit.Json.{Json, str}
use parimit.Types.{Decision, approve, reject, ReviewerRole, approver, admin, is_awaiting}
use parimit.Result.{
  Result, ok, fail, validation_error, human_approver_required, agent_cannot_approve, invalid_state,
  duplicate_approver, proposal_expired_error,
}
use parimit.Database.{IntentRow, find_intent, find_approval}
use parimit.Exec.{
  Action, ◌>>=◌, ◌>>◌, pure, lift, throw_if, query, query_required, query_result, execute,
  transaction,
}
use parimit.Service.{Service, now, random_uuid}
use parimit.Service.Integrity.{assert_stored_integrity}
use parimit.Service.Validation.{require_identifier}
use parimit.Service.Methods.Expiry.{expire_due_intents, expire_now}
use parimit.Service.Methods.Decide.{store_review}
use parimit.Service.Methods.Read.{IntentView, get_intent}

-- `String(actorRoleValue).toLocaleLowerCase("en-US")`
unfoldable pub reviewer_role : Text → Result ReviewerRole
reviewer_role role =
    if text_eq (lower role) (lit "approver")
    then ok approver
    else if text_eq (lower role) (lit "admin")
    then ok admin
    else fail human_approver_required 403

unfoldable pub review_decision : Option Json → Result Decision
review_decision (some (str t)) =
    if text_eq t (lit "APPROVE")
    then ok approve
    else if text_eq t (lit "REJECT")
    then ok reject
    else fail validation_error 400
review_decision _ = fail validation_error 400

abbrev pub is_present {ℓ} : {A : Type ℓ} → Option A → Bool
is_present none = false
is_present (some a) = true

module _ (svc : Service) where
  -- Before the deadline.
  unfoldable pub review_in_time : IntentRow → Text → ReviewerRole → Decision → ℕ → Action Bool
  review_in_time row actor role decision at = do
    previous ← query (find_approval row.id actor)
    throw_if (is_present previous) duplicate_approver 409
    uuid ← random_uuid svc
    execute (store_review svc row actor role decision at uuid)
    pure false

  -- The transaction's work: true if the deadline had passed.
  unfoldable pub record_decision : Text → Text → ReviewerRole → Decision → Action Bool
  unfolding review_in_time
  record_decision id actor role decision = do
    row ← query_required (find_intent svc.tenant_id id)
    query_result (assert_stored_integrity svc row)
    throw_if (text_eq row.agent_id actor) agent_cannot_approve 403
    throw_if (not (is_awaiting row.status)) invalid_state 409
    at ← now svc
    if leb row.expires_at at
        then expire_now svc id at
        else review_in_time row actor role decision at

  unfoldable pub approve_intent : Text → Option Json → Text → Option Json → Action IntentView
  approve_intent id actor role decision = do
    expire_due_intents svc
    actor_id ← lift (require_identifier actor)
    actor_role ← lift (reviewer_role role)
    choice ← lift (review_decision decision)
    expired_first ← transaction (record_decision id actor_id actor_role choice)
    throw_if expired_first proposal_expired_error 409
    get_intent svc id
