-- ===== src/Service/Integrity/State.antt =====
-- The status and the state version must be those that the events lead to, and agree with the
-- approvals that count.
use parimit.Common.{
  ℕ, ◌+◌, Bool, true, false, not, ◌&&◌, ◌||◌, Option, none, some, List, [], ◌∷◌, ◌++◌, ltb, leb,
  ◌==◌, if◌then◌else◌, select, length,
}
use parimit.Text.{Text, lit, text_eq}
use parimit.Text.Decimal.{decimal}
use parimit.Json.{Json}
use parimit.Types.{
  IntentStatus, policy_denied, awaiting_approval, authorized_no_dispatch, rejected, cancelled,
  expired, other_status, status_text, is_v1, is_authorized, is_policy_denied, EventType,
  proposal_created, proposal_policy_denied, proposal_expired, proposal_cancelled,
  human_approval_recorded, human_rejection_recorded, is_terminal_event,
}
use parimit.Database.{IntentRow, ApprovalRow, ObservationRow, AuditRow}
use parimit.Service.{Service}
use parimit.Service.Policy.{is_nil}
use parimit.Service.Integrity.Failures.{Finding, check}
use parimit.Service.Integrity.Payloads.{member, is_str}
use parimit.Service.Integrity.Approvals.{count_valid}
use parimit.Service.Integrity.Reviews.{review_events}

-- What a review event's `resulting_status` sets, `none` where it is no status of a review.
unfoldable pub resulting_status : Option Json → Option IntentStatus
resulting_status payload =
    if is_str (lit "AWAITING_APPROVAL") (member (lit "resulting_status") payload)
    then some awaiting_approval
    else if is_str (lit "AUTHORIZED_NO_DISPATCH") (member (lit "resulting_status") payload)
    then some authorized_no_dispatch
    else if is_str (lit "REJECTED") (member (lit "resulting_status") payload)
    then some rejected
    else none

abbrev or_keep : Option IntentStatus → Option IntentStatus → Option IntentStatus
or_keep before none = before
or_keep before (some s) = some s

-- One round of the loop over `auditedStatus`.
unfoldable pub audited_step : Option IntentStatus → EventType → Option Json → Option IntentStatus
audited_step before proposal_created payload = some awaiting_approval
audited_step before proposal_policy_denied payload = some policy_denied
audited_step before proposal_cancelled payload = some cancelled
audited_step before proposal_expired payload = some expired
audited_step before human_approval_recorded payload = or_keep before (resulting_status payload)
audited_step before human_rejection_recorded payload = or_keep before (resulting_status payload)
audited_step before _ payload = before

unfoldable pub audited_status : Option IntentStatus → List AuditRow → Option IntentStatus
audited_status before [] = before
audited_status before (e ∷ es) = audited_status (audited_step before e.event_type e.payload) es

abbrev is_some {ℓ} : {A : Type ℓ} → Option A → Bool
is_some none = false
is_some (some a) = true

abbrev is_result_valid : EventType → Option Json → Bool
is_result_valid human_approval_recorded payload = is_some (resulting_status payload)
is_result_valid human_rejection_recorded payload = is_some (resulting_status payload)
is_result_valid _ payload = true

unfoldable pub result_findings : List AuditRow → List Finding
result_findings [] = []
result_findings (e ∷ es) =
    check (is_result_valid e.event_type e.payload)
      (lit "AUDIT_RESULTING_STATUS_INVALID:" ++ decimal e.sequence)
    ++ result_findings es

abbrev is_status : IntentStatus → Option IntentStatus → Bool
is_status s none = false
is_status s (some t) = text_eq (status_text t) (status_text s)

abbrev pub terminal_events : List AuditRow → List AuditRow
terminal_events = select (λ e. is_terminal_event e.event_type)

-- The chain of tests on the status, with `validApproveCount` and `validRejectCount`.
unfoldable pub status_findings : IntentStatus → Bool → ℕ → ℕ → ℕ → List Finding
status_findings awaiting_approval allowed approves rejects needed =
    check (rejects == 0 && ltb approves needed) (lit "AWAITING_APPROVAL_STATE_MISMATCH")
status_findings authorized_no_dispatch allowed approves rejects needed =
    check (allowed && (rejects == 0 && leb needed approves))
      (lit "AUTHORIZED_APPROVAL_THRESHOLD_NOT_MET")
status_findings rejected allowed approves rejects needed =
    check (allowed && (rejects == 1 && ltb approves needed)) (lit "REJECTED_STATE_MISMATCH")
status_findings cancelled allowed approves rejects needed =
    check (allowed && (rejects == 0 && ltb approves needed))
      (lit "TERMINAL_STATE_APPROVAL_MISMATCH")
status_findings expired allowed approves rejects needed =
    check (allowed && (rejects == 0 && ltb approves needed))
      (lit "TERMINAL_STATE_APPROVAL_MISMATCH")
status_findings policy_denied allowed approves rejects needed = []
status_findings (other_status t) allowed approves rejects needed = []

-- What the events say of the status and of the state version.
unfoldable pub audit_findings : IntentRow → List AuditRow → List Finding
unfolding result_findings
audit_findings row events =
    result_findings events
    ++ (check (is_status row.status (audited_status none events)) (lit "STATUS_AUDIT_MISMATCH")
        ++ (check (leb (length (terminal_events events)) 1) (lit "MULTIPLE_TERMINAL_STATE_EVENTS")
            ++ check
                (row.state_version
                  == 1 + length (review_events events) + length (terminal_events events))
                (lit "AUTHORIZATION_STATE_VERSION_MISMATCH")))

unfoldable pub denial_findings : IntentRow → List ApprovalRow → List Finding
denial_findings row approvals =
    check (row.policy_allowed == 1 || is_policy_denied row.status)
      (lit "DENIED_POLICY_STATUS_MISMATCH")
    ++ (check (not (row.policy_allowed == 1 && is_policy_denied row.status))
          (lit "ALLOWED_POLICY_STATUS_MISMATCH")
        ++ check (not (is_policy_denied row.status) || is_nil approvals)
            (lit "DENIED_INTENT_HAS_APPROVALS"))

unfoldable pub authority_findings : IntentRow → List ObservationRow → List Finding
authority_findings row observations =
    check (not (is_v1 row.intent_version && is_authorized row.status))
      (lit "LEGACY_V1_AUTHORIZATION_UNTRUSTED")
    ++ check (is_nil observations || is_authorized row.status)
        (lit "OBSERVATION_WITHOUT_AUTHORIZED_STATE")

module _ (svc : Service) (id : Text) where
  unfoldable pub state_findings :
      IntentRow → List ApprovalRow → List ObservationRow → List AuditRow → List Finding
  state_findings row approvals observations events =
      audit_findings row events
      ++ (denial_findings row approvals
          ++ (status_findings row.status (row.policy_allowed == 1)
                (count_valid svc id row true [] approvals)
                (count_valid svc id row false [] approvals) row.required_approvals
              ++ authority_findings row observations))
