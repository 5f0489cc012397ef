-- ===== src/Tables.antt =====
-- The SQLite tables of src/service.ts (`initializeSchema`). A table is the list of its rows in `rowid`
-- order; a timestamp column holds milliseconds.
use parimit.Common.{ℕ, Option, none, List, []}
use parimit.Text.{Text}
use parimit.Json.{Json}
use parimit.Types.{
  IntentStatus, InitialStatus, IntentVersion, ObservationStatus, Decision, ReviewerRole, EventType,
}

-- `policy_reasons` is what `JSON.parse` makes of the column, `none` where it throws.
pub record IntentRow : Type 0 where
  pub id : Text
  pub tenant_id : Text
  pub idempotency_key : Text
  pub request_fingerprint : Text
  pub agent_id : Text
  pub on_behalf_of : Option Text
  pub amount_minor : ℕ
  pub payee_reference : Text
  pub purpose : Text
  pub status : IntentStatus
  pub required_approvals : ℕ
  pub policy_allowed : ℕ
  pub policy_reasons : Option Json
  pub rules_version : Text
  pub intent_version : IntentVersion
  pub initial_status : InitialStatus
  pub state_version : ℕ
  pub intent_hash : Text
  pub created_at : ℕ
  pub expires_at : ℕ

pub record ApprovalRow : Type 0 where
  pub id : Text
  pub intent_id : Text
  pub actor_id : Text
  pub actor_role : ReviewerRole
  pub decision : Decision
  pub intent_hash : Text
  pub created_at : ℕ
  pub receipt_hmac : Text

pub record ObservationRow : Type 0 where
  pub id : Text
  pub intent_id : Text
  pub status : ObservationStatus
  pub provider_reference : Option Text
  pub observed_at : ℕ

-- `payload` is what `JSON.parse` makes of the column, `none` where it throws.
pub record AuditRow : Type 0 where
  pub sequence : ℕ
  pub intent_id : Text
  pub event_type : EventType
  pub actor_id : Text
  pub payload : Option Json
  pub occurred_at : ℕ
  pub previous_hash : Text
  pub event_hash : Text

-- The last three are NULL until the envelope is consumed.
pub record EnvelopeRow : Type 0 where
  pub id : Text
  pub intent_id : Text
  pub tenant_id : Text
  pub state_version : ℕ
  pub audience : Text
  pub issuance_idempotency_key : Text
  pub key_id : Text
  pub compact_jws : Text
  pub claims_hash : Text
  pub nonce_hash : Text
  pub issued_at : ℕ
  pub expires_at : ℕ
  pub consumed_at : Option ℕ
  pub consumed_by : Option Text
  pub consumption_idempotency_key : Option Text

-- `public_jwk` is what `JSON.parse` makes of the column, `none` where it throws.
pub record SigningKeyRow : Type 0 where
  pub key_id : Text
  pub public_jwk : Option Json
  pub created_at : ℕ
  pub attestation_hmac : Text

pub record Database : Type 0 where
  pub intents : List IntentRow
  pub approvals : List ApprovalRow
  pub observations : List ObservationRow
  pub audit_events : List AuditRow
  pub envelopes : List EnvelopeRow
  -- in the order of `key_id`
  pub signing_keys : List SigningKeyRow
  -- the checkpoint of the key registry in `service_metadata`
  pub registry_state : Option Text
  -- the receipt integrity root in `service_metadata`
  pub integrity_root : Option Text
  -- what AUTOINCREMENT hands out next
  pub next_sequence : ℕ

abbrev pub empty : Database
empty = record {
  intents = [];
  approvals = [];
  observations = [];
  audit_events = [];
  envelopes = [];
  signing_keys = [];
  registry_state = none;
  integrity_root = none;
  next_sequence = 1;
}
