-- ===== src/Database.antt =====
-- The statements that src/service.ts runs on its tables.
pub mod Envelopes
use parimit.Common.{
  ℕ, ◌+◌, Bool, ◌&&◌, ◌||◌, Option, none, some, List, [], ◌∷◌, ◌++◌, ltb, leb, ◌==◌, if◌then◌else◌,
  any, select, find, length,
}
use parimit.Text.{Text, text_eq, text_lt}
use parimit.Json.{Json}
use parimit.Types.{
  IntentStatus, InitialStatus, IntentVersion, ObservationStatus, Decision, ReviewerRole, EventType,
  is_awaiting, is_approve,
}
pub use parimit.Tables.{
  IntentRow, ApprovalRow, ObservationRow, AuditRow, EnvelopeRow, SigningKeyRow, Database, empty,
}
use parimit.Result.{Result, ok, fail, constraint_violation}

-- `WHERE id = ? AND tenant_id = ?`
abbrev pub is_intent : Text → Text → IntentRow → Bool
is_intent tenant id r = text_eq r.id id && text_eq r.tenant_id tenant

unfoldable pub find_intent : Text → Text → Database → Option IntentRow
find_intent tenant id db = find (is_intent tenant id) db.intents

-- `WHERE id = ? AND tenant_id = ? AND agent_id = ?`
unfoldable pub find_owned : Text → Text → Text → Database → Option IntentRow
find_owned tenant id agent db =
    find (λ r. is_intent tenant id r && text_eq r.agent_id agent) db.intents

-- `WHERE tenant_id = ? AND agent_id = ? AND idempotency_key = ?`
abbrev pub has_key : Text → Text → Text → IntentRow → Bool
has_key tenant agent key r =
    text_eq r.tenant_id tenant && (text_eq r.agent_id agent && text_eq r.idempotency_key key)

unfoldable pub find_by_key : Text → Text → Text → Database → Option IntentRow
find_by_key tenant agent key db = find (has_key tenant agent key) db.intents

-- `INSERT INTO intents`, under PRIMARY KEY (id) and UNIQUE (tenant_id, agent_id, idempotency_key).
unfoldable pub insert_intent : IntentRow → Database → Result Database
insert_intent row db =
    if any (λ r. text_eq r.id row.id) db.intents
      || any (has_key row.tenant_id row.agent_id row.idempotency_key) db.intents
    then fail constraint_violation 500
    else ok (record db { intents = db.intents ++ row ∷ [] })

-- `WHERE id = ? AND tenant_id = ? AND status = 'AWAITING_APPROVAL'`
abbrev pub is_open : Text → Text → IntentRow → Bool
is_open tenant id r = is_intent tenant id r && is_awaiting r.status

abbrev pub advance : IntentStatus → IntentRow → IntentRow
advance next r = record r { status = next; state_version = r.state_version + 1 }

unfoldable pub advance_rows : Text → Text → IntentStatus → List IntentRow → List IntentRow
advance_rows tenant id next [] = []
advance_rows tenant id next (r ∷ rs) =
    (if is_open tenant id r then advance next r else r) ∷ advance_rows tenant id next rs

-- `UPDATE intents SET status = ?, state_version = state_version + 1`, with the number of changes.
unfoldable pub update_status : Text → Text → IntentStatus → Database → Database × ℕ
unfolding advance_rows
update_status tenant id next db = (
  record db { intents = advance_rows tenant id next db.intents },
  length (select (is_open tenant id) db.intents),
)

-- `ORDER BY created_at, id`
abbrev pub approval_before : ApprovalRow → ApprovalRow → Bool
approval_before a b =
    ltb a.created_at b.created_at || (a.created_at == b.created_at && text_lt a.id b.id)

unfoldable pub insert_approval_row : ApprovalRow → List ApprovalRow → List ApprovalRow
insert_approval_row a [] = a ∷ []
insert_approval_row a (b ∷ bs) =
    if approval_before b a then b ∷ insert_approval_row a bs else a ∷ b ∷ bs

unfoldable pub order_approvals : List ApprovalRow → List ApprovalRow
unfolding insert_approval_row
order_approvals [] = []
order_approvals (a ∷ rest) = insert_approval_row a (order_approvals rest)

abbrev pub is_of : Text → ApprovalRow → Bool
is_of id a = text_eq a.intent_id id

-- `approvalsFor`
unfoldable pub approvals_for : Text → Database → List ApprovalRow
approvals_for id db = order_approvals (select (is_of id) db.approvals)

abbrev pub is_by : Text → Text → ApprovalRow → Bool
is_by id actor a = text_eq a.intent_id id && text_eq a.actor_id actor

unfoldable pub find_approval : Text → Text → Database → Option ApprovalRow
find_approval id actor db = find (is_by id actor) db.approvals

-- `SELECT COUNT(*) ... WHERE intent_id = ? AND decision = 'APPROVE'`
abbrev pub is_approval_of : Text → ApprovalRow → Bool
is_approval_of id a = text_eq a.intent_id id && is_approve a.decision

unfoldable pub count_approvals : Text → Database → ℕ
count_approvals id db = length (select (is_approval_of id) db.approvals)

-- `INSERT INTO approvals`, under PRIMARY KEY (id) and UNIQUE (intent_id, actor_id).
unfoldable pub insert_approval : ApprovalRow → Database → Result Database
insert_approval row db =
    if any (λ a. text_eq a.id row.id) db.approvals
      || any (is_by row.intent_id row.actor_id) db.approvals
    then fail constraint_violation 500
    else ok (record db { approvals = db.approvals ++ row ∷ [] })

unfoldable pub observations_for : Text → Database → List ObservationRow
observations_for id db = select (λ o. text_eq o.intent_id id) db.observations

-- `ORDER BY observed_at DESC, rowid DESC LIMIT 1`
unfoldable pub latest_of : Option ObservationRow → List ObservationRow → Option ObservationRow
latest_of best [] = best
latest_of none (o ∷ os) = latest_of (some o) os
latest_of (some b) (o ∷ os) = latest_of (some (if leb b.observed_at o.observed_at then o else b)) os

-- `latestObservation`
unfoldable pub latest_observation : Text → Database → Option ObservationRow
unfolding latest_of observations_for
latest_observation id db = latest_of none (observations_for id db)

-- `INSERT INTO observations`, under PRIMARY KEY (id).
unfoldable pub insert_observation : ObservationRow → Database → Result Database
insert_observation row db =
    if any (λ o. text_eq o.id row.id) db.observations
    then fail constraint_violation 500
    else ok (record db { observations = db.observations ++ row ∷ [] })

abbrev pub is_event_of : Text → AuditRow → Bool
is_event_of id e = text_eq e.intent_id id

-- `WHERE intent_id = ? ORDER BY sequence`
unfoldable pub events_for : Text → Database → List AuditRow
events_for id db = select (is_event_of id) db.audit_events
