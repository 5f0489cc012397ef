-- ===== src/Types.antt =====
-- src/types.ts and the tables' column types. A column whose values no CHECK constraint limits has a
-- case for any other text.
use parimit.Common.{Bool, true, false, ℕ, Option, List}
use parimit.Text.{Text, lit}

pub data IntentStatus : Type 0 where
  policy_denied awaiting_approval authorized_no_dispatch rejected cancelled expired : IntentStatus
  other_status : Text → IntentStatus

unfoldable pub status_text : IntentStatus → Text
status_text policy_denied = lit "POLICY_DENIED"
status_text awaiting_approval = lit "AWAITING_APPROVAL"
status_text authorized_no_dispatch = lit "AUTHORIZED_NO_DISPATCH"
status_text rejected = lit "REJECTED"
status_text cancelled = lit "CANCELLED"
status_text expired = lit "EXPIRED"
status_text (other_status t) = t

abbrev pub is_awaiting : IntentStatus → Bool
is_awaiting awaiting_approval = true
is_awaiting _ = false

abbrev pub is_authorized : IntentStatus → Bool
is_authorized authorized_no_dispatch = true
is_authorized _ = false

abbrev pub is_policy_denied : IntentStatus → Bool
is_policy_denied policy_denied = true
is_policy_denied _ = false

-- `INTENT_STATUSES.includes(status)`.
abbrev pub is_intent_status : IntentStatus → Bool
is_intent_status (other_status t) = false
is_intent_status _ = true

-- `InitialIntentStatus`: what the CHECK on `initial_status` admits.
pub data InitialStatus : Type 0 where
  denied awaiting : InitialStatus

abbrev pub initial_to_status : InitialStatus → IntentStatus
initial_to_status denied = policy_denied
initial_to_status awaiting = awaiting_approval

abbrev pub is_denied : InitialStatus → Bool
is_denied denied = true
is_denied awaiting = false

pub data IntentVersion : Type 0 where
  v1 v2 v3 : IntentVersion

unfoldable pub version_text : IntentVersion → Text
version_text v1 = lit "parimit-payment-intent-v1"
version_text v2 = lit "parimit-payment-intent-v2"
version_text v3 = lit "parimit-payment-intent-v3"

abbrev pub is_v1 : IntentVersion → Bool
is_v1 v1 = true
is_v1 _ = false

abbrev pub is_v3 : IntentVersion → Bool
is_v3 v3 = true
is_v3 _ = false

pub data ObservationStatus : Type 0 where
  unknown pending succeeded failed reversed disputed in_doubt : ObservationStatus
  other_observation : Text → ObservationStatus

unfoldable pub observation_text : ObservationStatus → Text
observation_text unknown = lit "UNKNOWN"
observation_text pending = lit "PENDING"
observation_text succeeded = lit "SUCCEEDED"
observation_text failed = lit "FAILED"
observation_text reversed = lit "REVERSED"
observation_text disputed = lit "DISPUTED"
observation_text in_doubt = lit "IN_DOUBT"
observation_text (other_observation t) = t

abbrev pub is_in_doubt : ObservationStatus → Bool
is_in_doubt in_doubt = true
is_in_doubt _ = false

-- `OBSERVATION_STATUSES.includes(status)`.
abbrev pub is_observation_status : ObservationStatus → Bool
is_observation_status (other_observation t) = false
is_observation_status _ = true

pub data Decision : Type 0 where
  approve reject : Decision

unfoldable pub decision_text : Decision → Text
decision_text approve = lit "APPROVE"
decision_text reject = lit "REJECT"

abbrev pub is_approve : Decision → Bool
is_approve approve = true
is_approve reject = false

-- `authenticationMode`: "oidc", or the headers of the local demo.
pub data AuthenticationMode : Type 0 where
  oidc demo : AuthenticationMode

-- The roles that the CHECK on `approvals.actor_role` admits.
pub data ReviewerRole : Type 0 where
  approver admin : ReviewerRole

unfoldable pub reviewer_text : ReviewerRole → Text
reviewer_text approver = lit "approver"
reviewer_text admin = lit "admin"

pub data EventType : Type 0 where
  proposal_created proposal_policy_denied proposal_expired proposal_cancelled : EventType
  human_approval_recorded human_rejection_recorded demo_mock_observation_recorded : EventType
  evidence_envelope_issued evidence_envelope_consumed : EventType
  other_event : Text → EventType

unfoldable pub event_text : EventType → Text
event_text proposal_created = lit "PROPOSAL_CREATED"
event_text proposal_policy_denied = lit "PROPOSAL_POLICY_DENIED"
event_text proposal_expired = lit "PROPOSAL_EXPIRED"
event_text proposal_cancelled = lit "PROPOSAL_CANCELLED"
event_text human_approval_recorded = lit "HUMAN_APPROVAL_RECORDED"
event_text human_rejection_recorded = lit "HUMAN_REJECTION_RECORDED"
event_text demo_mock_observation_recorded = lit "DEMO_MOCK_OBSERVATION_RECORDED"
event_text evidence_envelope_issued = lit "EVIDENCE_ENVELOPE_ISSUED"
event_text evidence_envelope_consumed = lit "EVIDENCE_ENVELOPE_CONSUMED"
event_text (other_event t) = t

abbrev pub is_review : EventType → Bool
is_review human_approval_recorded = true
is_review human_rejection_recorded = true
is_review _ = false

abbrev pub is_terminal_event : EventType → Bool
is_terminal_event proposal_cancelled = true
is_terminal_event proposal_expired = true
is_terminal_event _ = false

abbrev pub is_observation_event : EventType → Bool
is_observation_event demo_mock_observation_recorded = true
is_observation_event _ = false

-- `NormalizedPaymentProposal`; the currency is always INR.
pub record Proposal : Type 0 where
  pub idempotency_key : Text
  pub agent_id : Text
  pub on_behalf_of : Option Text
  pub amount_minor : ℕ
  pub payee_reference : Text
  pub purpose : Text
  pub expires_in_seconds : ℕ

pub record PolicyConfig : Type 0 where
  pub rules_version : Text
  pub per_transaction_limit_minor : ℕ
  pub daily_agent_limit_minor : ℕ
  pub dual_approval_threshold_minor : ℕ
  pub default_expiry_seconds : ℕ
  pub max_expiry_seconds : ℕ
  pub blocked_payees : List Text
  pub allowed_payees : Option (List Text)

-- The exposures are numbers here, printed in the source.
pub record PolicyDecision : Type 0 where
  pub allowed : Bool
  pub reasons : List Text
  pub rules_version : Text
  pub config_digest : Text
  pub required_approvals : ℕ
  pub current_daily_exposure_minor : ℕ
  pub projected_daily_exposure_minor : ℕ
