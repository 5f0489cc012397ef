-- ===== src/Service/Methods/Cancel.antt =====
-- `cancelIntent`.
use parimit.Common.{ℕ, Bool, true, false, not, Option, leb, if◌then◌else◌}
use parimit.Text.{Text, lit, text_eq, lower}
use parimit.Json.{Json}
use parimit.Types.{is_awaiting}
use parimit.Result.{Result, ok, fail, forbidden, invalid_state, proposal_expired_error}
use parimit.Database.{Database, IntentRow, find_intent, find_owned}
use parimit.Exec.{
  Action, ◌>>=◌, ◌>>◌, pure, lift, throw_if, query_required, query_result, execute, transaction,
}
use parimit.Service.{Service, now}
use parimit.Service.Integrity.{assert_stored_integrity}
use parimit.Service.Validation.{require_identifier}
use parimit.Service.Methods.Expiry.{expire_due_intents, expire_now}
use parimit.Service.Methods.Decide.{store_cancellation}
use parimit.Service.Methods.Read.{IntentView, get_intent}

pub data CancelRole : Type 0 where
  agent_role admin_role : CancelRole

unfoldable pub cancel_role : Text → Result CancelRole
cancel_role role =
    if text_eq (lower role) (lit "agent")
    then ok agent_role
    else if text_eq (lower role) (lit "admin")
    then ok admin_role
    else fail forbidden 403

-- An agent sees its own proposals only.
abbrev pub find_cancellable : CancelRole → Text → Text → Text → Database → Option IntentRow
find_cancellable agent_role tenant id actor = find_owned tenant id actor
find_cancellable admin_role tenant id actor = find_intent tenant id

-- Whose proposals a caller may cancel.
unfoldable pub may_cancel : CancelRole → Text → IntentRow → Bool
may_cancel agent_role actor row = text_eq row.agent_id actor
may_cancel admin_role actor row = true

module _ (svc : Service) where
  -- Before the deadline.
  unfoldable pub cancel_in_time : Text → Text → ℕ → Action Bool
  cancel_in_time id actor at = do execute (store_cancellation svc id actor at); pure false

  -- The transaction's work: true if the deadline had passed.
  unfoldable pub record_cancellation : Text → Text → CancelRole → Action Bool
  unfolding cancel_in_time
  record_cancellation id actor role = do
    row ← query_required (find_cancellable role svc.tenant_id id actor)
    query_result (assert_stored_integrity svc row)
    throw_if (not (is_awaiting row.status)) invalid_state 409
    at ← now svc
    if leb row.expires_at at then expire_now svc id at else cancel_in_time id actor at

  unfoldable pub cancel_intent : Text → Option Json → Text → Action IntentView
  cancel_intent id actor role = do
    expire_due_intents svc
    actor_id ← lift (require_identifier actor)
    actor_role ← lift (cancel_role role)
    expired_first ← transaction (record_cancellation id actor_id actor_role)
    throw_if expired_first proposal_expired_error 409
    get_intent svc id
