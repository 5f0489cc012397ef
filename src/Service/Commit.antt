-- ===== src/Service/Commit.antt =====
-- The specification of what the methods may write: the eight kinds of commit, with the guards that stand
-- before each, and the databases that a sequence of commits reaches.
pub mod Writes
pub mod Works
pub mod Evidence
pub mod Methods
use parimit.Common.{
  ℕ, ◌≤◌, ◌<◌, ◌≡◌, ◌≢◌, Bool, true, false, Option, none, some, Memᴰ, ◌+◌, ◌*◌, length,
}
use parimit.Text.{Text}
use parimit.Types.{
  awaiting_approval, authorized_no_dispatch, ObservationStatus, Decision, ReviewerRole, Proposal,
}
use parimit.Result.{ok}
use parimit.Database.{
  Database, IntentRow, EnvelopeRow, is_intent, find_by_key, find_approval, latest_observation,
}
use parimit.Service.{Service}
use parimit.Service.Policy.{decide_policy}
use parimit.Service.Integrity.{assert_stored_integrity}
use parimit.Service.Methods.Deadline.{due_intents, expire_all, expire_at_deadline}
use parimit.Service.Methods.Insert.{insert_and_record}
use parimit.Service.Methods.Create.{request_fingerprint}
use parimit.Service.Methods.Decide.{store_review, store_cancellation, store_observation}
use parimit.Service.Methods.Cancel.{CancelRole, may_cancel}
use parimit.Database.Envelopes.{find_envelope, find_issued}
use parimit.Service.Envelopes.{IssueInput, approving_rows}
use parimit.Service.Envelopes.Store.{Sources, store_envelope, store_consumption}
use parimit.Service.Methods.Observe.{is_frozen}

module _ (svc : Service) where
  -- The proposal that a review, a cancellation or an observation is about, as it was read and verified.
  pub record IsVerified (db : Database) (id : Text) (row : IntentRow) : Type 0 where
    pub listed : Memᴰ row db.intents
    pub named : is_intent svc.tenant_id id row ≡ true
    pub verified : assert_stored_integrity svc row db ≡ ok tt

  pub data Commit (db db' : Database) : Type 0 where
    expiry : (at : ℕ) → expire_all svc at (due_intents svc at db) db ≡ ok db' → Commit db db'
    creation :
        (input : Proposal) (id : Text) (reading created_at : ℕ)
        → find_by_key svc.tenant_id input.agent_id input.idempotency_key db ≡ none
        → insert_and_record svc input
            (request_fingerprint svc input)
            (decide_policy svc input (svc.clock reading) db)
            id
            created_at
            db
          ≡ ok db'
        → Commit db db'
    deadline :
        (id : Text) (row : IntentRow) (at : ℕ)
        → IsVerified db id row
        → row.status ≡ awaiting_approval
        → row.expires_at ≤ at
        → expire_at_deadline svc at id db ≡ ok db'
        → Commit db db'
    review :
        (id : Text) (row : IntentRow) (actor : Text) (role : ReviewerRole) (decision : Decision)
        (at : ℕ) (uuid : Text)
        → IsVerified db id row
        → row.status ≡ awaiting_approval
        → row.agent_id ≢ actor
        → at < row.expires_at
        → find_approval row.id actor db ≡ none
        → store_review svc row actor role decision at uuid db ≡ ok db'
        → Commit db db'
    cancellation :
        (id : Text) (row : IntentRow) (actor : Text) (role : CancelRole) (at : ℕ)
        → IsVerified db id row
        → may_cancel role actor row ≡ true
        → row.status ≡ awaiting_approval
        → at < row.expires_at
        → store_cancellation svc id actor at db ≡ ok db'
        → Commit db db'
    observation :
        (id : Text) (row : IntentRow) (status : ObservationStatus) (reference : Option Text)
        (actor : Text) (at : ℕ) (uuid : Text)
        → IsVerified db id row
        → row.status ≡ authorized_no_dispatch
        → is_frozen (latest_observation id db) ≡ false
        → store_observation svc id status reference actor at uuid db ≡ ok db'
        → Commit db db'
    issuance :
        (id : Text) (input : IssueInput) (s : Sources) (actor : Text)
        → IsVerified db id s.row
        → s.row.status ≡ authorized_no_dispatch
        → find_issued svc.tenant_id id s.row.state_version input.audience db ≡ none
        → length (approving_rows id db) ≡ s.row.required_approvals
        → s.issued_at + input.expires_in_seconds * 1000 ≤ s.row.expires_at
        → store_envelope svc input s actor db ≡ ok db'
        → Commit db db'
    consumption :
        (id : Text) (row : EnvelopeRow) (audience actor key : Text) (at : ℕ)
        → find_envelope svc.tenant_id id db ≡ some row
        → row.consumed_at ≡ none
        → row.issued_at ≤ at
        → at < row.expires_at
        → store_consumption svc row audience actor key at db ≡ ok db'
        → Commit db db'

  pub data Commits (db : Database) : Database → Type 0 where
    here : Commits db db
    next : {db' db'' : Database} → Commits db db' → Commit db' db'' → Commits db db''

  pub Commits-trans : {a b c : Database} → Commits a b → Commits b c → Commits a c
  Commits-trans p here = p
  Commits-trans p (next q s) = next (Commits-trans p q) s
