-- ===== src/Service/Effects.antt =====
-- What a write that went through has done to each table.
pub mod Found
pub mod Reviews
pub mod Evidence
pub mod Envelopes
use parimit.Common.{
  ℕ, ◌≡◌, ◌⊎◌, subst, false, [], ◌∷◌, ◌++◌, arith, ◌==◌, any, select, length, last, Bool-cases, inl,
  inr,
}
use parimit.Text.{Text, lit, text_eq}
use parimit.Json.{Json}
use parimit.Types.{IntentStatus, EventType, Proposal, PolicyDecision}
use parimit.Types.{expired, cancelled, proposal_expired, proposal_cancelled}
use parimit.Result.{ok, >>=-eq-ok}
use parimit.Database.{
  Database, IntentRow, ApprovalRow, ObservationRow, find_intent, events_for, insert_intent, has_key,
  is_open, advance_rows, update_status, insert_approval, is_by, insert_observation,
}
use parimit.Service.{Service}
use parimit.Service.Audit.{append_audit, new_event, is_before, is_before_intent}
use parimit.Service.Methods.Deadline.{expire_one, expire_at_deadline, expired_json}
use parimit.Service.Methods.Insert.{insert_and_record, new_intent, created_event, created_json}
use parimit.Service.Methods.Decide.{move_to, store_cancellation, cancelled_json}

-- `db'` is `mid` with one more event, which the clock allowed.
pub record Wrote (svc : Service) (id : Text) (type : EventType) (actor : Text) (payload : Json)
    (at : ℕ) (mid db' : Database) : Type 0 where
  pub intents : db'.intents ≡ mid.intents
  pub approvals : db'.approvals ≡ mid.approvals
  pub observations : db'.observations ≡ mid.observations
  pub envelopes : db'.envelopes ≡ mid.envelopes
  pub signing_keys : db'.signing_keys ≡ mid.signing_keys
  pub registry_state : db'.registry_state ≡ mid.registry_state
  pub integrity_root : db'.integrity_root ≡ mid.integrity_root
  pub audit_events :
      db'.audit_events ≡ mid.audit_events ++ new_event svc id type actor payload at mid ∷ []
  pub after_intent : is_before_intent at (find_intent svc.tenant_id id mid) ≡ false
  pub after_event : is_before at (last (events_for id mid)) ≡ false

module _ (svc : Service) (id : Text) (type : EventType) (actor : Text) (payload : Json)
    (at : ℕ) where
  pub append_audit-Wrote :
      (db : Database) {db' : Database}
      → append_audit svc id type actor payload at db ≡ ok db'
      → Wrote svc id type actor payload at db db'
  unfolding append_audit
  append_audit-Wrote db h = ground arith

pub insert_intent-eq-ok :
    (row : IntentRow) (db : Database) {db' : Database}
    → insert_intent row db ≡ ok db'
    → (any (λ r. text_eq r.id row.id) db.intents ≡ false)
      × (any (has_key row.tenant_id row.agent_id row.idempotency_key) db.intents ≡ false)
      × (db' ≡ record db { intents = db.intents ++ row ∷ [] })
unfolding insert_intent
insert_intent-eq-ok row db h = ground arith

pub insert_approval-eq-ok :
    (row : ApprovalRow) (db : Database) {db' : Database}
    → insert_approval row db ≡ ok db'
    → (any (λ a. text_eq a.id row.id) db.approvals ≡ false)
      × (any (is_by row.intent_id row.actor_id) db.approvals ≡ false)
      × (db' ≡ record db { approvals = db.approvals ++ row ∷ [] })
unfolding insert_approval
insert_approval-eq-ok row db h = ground arith

pub insert_observation-eq-ok :
    (row : ObservationRow) (db : Database) {db' : Database}
    → insert_observation row db ≡ ok db'
    → (any (λ o. text_eq o.id row.id) db.observations ≡ false)
      × (db' ≡ record db { observations = db.observations ++ row ∷ [] })
unfolding insert_observation
insert_observation-eq-ok row db h = ground arith

pub move_to-eq-ok :
    (svc : Service) (id : Text) (next : IntentStatus) (db : Database) {db' : Database}
    → move_to svc id next db ≡ ok db'
    → (length (select (is_open svc.tenant_id id) db.intents) ≡ 1)
      × (db' ≡ record db { intents = advance_rows svc.tenant_id id next db.intents })
unfolding move_to update_status
move_to-eq-ok svc id next db h = ground arith

abbrev pub advanced : Service → Text → IntentStatus → Database → Database
advanced svc id next db = record db { intents = advance_rows svc.tenant_id id next db.intents }

-- Exactly one row of that id awaits approval.
abbrev pub IsOpen : Service → Text → Database → Type 0
IsOpen svc id db = length (select (is_open svc.tenant_id id) db.intents) ≡ 1

module _ (svc : Service) where
  pub expire_one-cases :
      (id : Text) (at : ℕ) (db : Database) {db' : Database}
      → expire_one svc at id db ≡ ok db'
      → (db' ≡ advanced svc id expired db)
        ⊎ (IsOpen svc id db
            × Wrote svc id proposal_expired
                (lit "parimit-clock")
                expired_json
                at
                (advanced svc id expired db)
                db')
  unfolding expire_one update_status
  expire_one-cases id at db h =
      elim (Bool-cases (length (select (is_open svc.tenant_id id) db.intents) == 1)) [
        | inl one ↦ inr (ground arith, append_audit-Wrote svc _ _ _ _ _ _ (rw one at h))
        | inr other ↦ inl (ground arith)
      ]

  pub expire_at_deadline-Wrote :
      (id : Text) (at : ℕ) (db : Database) {db' : Database}
      → expire_at_deadline svc at id db ≡ ok db'
      → IsOpen svc id db
        × Wrote svc id proposal_expired
            (lit "parimit-clock")
            expired_json
            at
            (advanced svc id expired db)
            db'
  unfolding expire_at_deadline update_status
  expire_at_deadline-Wrote id at db h =
      elim (Bool-cases (length (select (is_open svc.tenant_id id) db.intents) == 1)) [
        | inl one ↦ (ground arith, append_audit-Wrote svc _ _ _ _ _ _ (rw one at h))
        | inr other ↦ cc (rw other at h)
      ]

  pub store_cancellation-Wrote :
      (id actor : Text) (at : ℕ) (db : Database) {db' : Database}
      → store_cancellation svc id actor at db ≡ ok db'
      → IsOpen svc id db
        × Wrote svc id proposal_cancelled actor cancelled_json at (advanced svc id cancelled db) db'
  unfolding store_cancellation
  store_cancellation-Wrote id actor at db {db'} h =
      let (mid, e, h') = >>=-eq-ok _ _ h in
      let (one, m) = move_to-eq-ok svc id cancelled db e in
      (
        one,
        subst (λ d. Wrote svc id proposal_cancelled actor cancelled_json at d db') m
            (append_audit-Wrote svc _ _ _ _ _ mid h'),
      )

  pub insert_and_record-Wrote :
      (input : Proposal) (fingerprint : Text) (policy : PolicyDecision) (id : Text) (at : ℕ)
      (db : Database) {db' : Database}
      → insert_and_record svc input fingerprint policy id at db ≡ ok db'
      → let row = new_intent svc input fingerprint policy id at in
        (any (λ r. text_eq r.id row.id) db.intents ≡ false)
        × (any (has_key row.tenant_id row.agent_id row.idempotency_key) db.intents ≡ false)
        × Wrote svc id
            (created_event svc input fingerprint policy id at)
            input.agent_id
            (created_json svc input fingerprint policy id at)
            at
            (record db { intents = db.intents ++ row ∷ [] })
            db'
  unfolding insert_and_record
  insert_and_record-Wrote input fingerprint policy id at db {db'} h =
      let (mid, e, h') = >>=-eq-ok _ _ h in
      let (fresh, unused, m) = insert_intent-eq-ok _ db e in
      (
        fresh,
        unused,
        subst
            (λ d.
              Wrote svc id (created_event svc input fingerprint policy id at) input.agent_id
                (created_json svc input fingerprint policy id at) at d db')
            m (append_audit-Wrote svc _ _ _ _ _ mid h'),
      )
