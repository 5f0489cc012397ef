-- ===== src/Service/Chain/Writes.antt =====
-- The chains under each commit, and under whatever calls are served.
use parimit.Common.{
  ℕ, ◌≤◌, ◌≡◌, refl, sym, subst, ap, inl, inr, false, Option, List, [], ◌∷◌, ◌++◌, Memᴰ, last,
  select,
}
use parimit.Text.{Text}
use parimit.Json.{Json}
use parimit.Types.{EventType, IntentStatus, expired, cancelled}
use parimit.Result.{ok, >>=-eq-ok, ok_injective}
use parimit.Database.{Database, IntentRow, AuditRow, events_for, advance_rows, is_event_of}
use parimit.Exec.{World}
use parimit.Service.{Service}
use parimit.Service.Audit.{new_event, is_before, tip}
use parimit.Service.Integrity.Chain.{event_digest}
use parimit.Service.Effects.{
  Wrote, expire_one-cases, expire_at_deadline-Wrote, insert_and_record-Wrote,
  store_cancellation-Wrote, advanced,
}
use parimit.Service.Effects.Found.{Wrote-found}
use parimit.Service.Effects.Reviews.{store_review-Wrote, store_observation-Wrote, outcome}
use parimit.Service.Effects.Evidence.{store_envelope-Wrote, store_consumption-Wrote}
use parimit.Service.Commit.{
  Commit, Commits, here, next, expiry, creation, deadline, review, cancellation, observation,
  issuance, consumption,
}
use parimit.Service.Commit.Methods.{run-Commits}
use parimit.Service.Methods.Calls.{Call, run}
use parimit.Service.Methods.Deadline.{expire_one, expire_all}
use parimit.Service.Methods.Insert.{new_intent}
use parimit.Service.Quorum.{Quorum}
use parimit.Service.Quorum.Writes.{expire_one-Quorum, Commit-Quorum, Commits-Quorum}
use parimit.Service.Quorum.Keeps.{advance_unique}
use parimit.Service.Chain.{Chained}
use parimit.Service.Chain.Keeps.{Chained-advance, Chained-insert, Chained-event}

-- Ids are unique.
abbrev Unique : List IntentRow → Type 0
Unique xs = (x y : IntentRow) → Memᴰ x xs → Memᴰ y xs → x.id ≡ y.id → x ≡ y

module _ (svc : Service) where
  abbrev pub Chains : Database → Type 0
  Chains db = Chained svc db.intents db.audit_events

  event-Chains :
      (id : Text) (type : EventType) (actor : Text) (payload : Json) (at : ℕ) (mid : Database)
      (row : IntentRow)
      → Unique mid.intents
      → Chains mid
      → Memᴰ row mid.intents
      → row.id ≡ id
      → row.created_at ≤ at
      → is_before at (last (events_for id mid)) ≡ false
      → Chained svc mid.intents
          (mid.audit_events ++ new_event svc id type actor payload at mid ∷ [])
  unfolding events_for new_event event_digest
  event-Chains id type actor payload at mid row unique before listed named created later =
      let chain : Text → Option AuditRow = λ i. last (select (is_event_of i) mid.audit_events) in
      Chained-event svc mid.intents mid.audit_events before row
        (new_event svc id type actor payload at mid) listed (λ x m e. unique x row m listed e) named
        refl (ap (λ i. tip (chain i)) (sym named)) refl created
        (subst (λ i. is_before at (chain i) ≡ false) (sym named) later)

  Wrote-Chains :
      (id : Text) (type : EventType) (actor : Text) (payload : Json) (at : ℕ) (mid db' : Database)
      → Wrote svc id type actor payload at mid db'
      → Unique mid.intents
      → Chains mid
      → Chains db'
  Wrote-Chains id type actor payload at mid db' wrote unique before =
      let (row, named, listed, created) = Wrote-found svc id type actor payload at mid wrote in
      rw (wrote.intents, wrote.audit_events)
        (event-Chains id type actor payload at mid row unique before listed named created
          wrote.after_event)

  advanced-Unique :
      (id : Text) (status : IntentStatus) (db : Database)
      → Unique db.intents
      → Unique (advance_rows svc.tenant_id id status db.intents)
  advanced-Unique id status db unique = advance_unique svc.tenant_id id status db.intents unique

  -- A change of status, and the event that records it.
  move-Chains :
      (id : Text) (status : IntentStatus) (type : EventType) (actor : Text) (payload : Json)
      (at : ℕ) (db mid db' : Database)
      → mid.intents ≡ advance_rows svc.tenant_id id status db.intents
      → mid.audit_events ≡ db.audit_events
      → Wrote svc id type actor payload at mid db'
      → Unique db.intents
      → Chains db
      → Chains db'
  move-Chains id status type actor payload at db mid db' xs es wrote unique before =
      Wrote-Chains id type actor payload at mid db' wrote
        (rw xs (advanced-Unique id status db unique))
        (rw (xs, es)
          (Chained-advance svc db.intents db.audit_events before svc.tenant_id id status))

  expire_one-Chains :
      (id : Text) (at : ℕ) (db db' : Database)
      → expire_one svc at id db ≡ ok db'
      → Unique db.intents
      → Chains db
      → Chains db'
  expire_one-Chains id at db db' h unique before = elim (expire_one-cases svc id at db h) [
    | inl same ↦
        rw same (Chained-advance svc db.intents db.audit_events before svc.tenant_id id expired)
    | inr (_, wrote) ↦
        move-Chains id expired _ _ _ at db (advanced svc id expired db) db' refl refl wrote unique
          before
  ]

  expire_all-Chains :
      (at : ℕ) (rows : List IntentRow) (db db' : Database)
      → expire_all svc at rows db ≡ ok db'
      → Quorum db
      → Chains db
      → Chains db'
  unfolding expire_all
  expire_all-Chains at [] db db' h quorum before = rw (← ok_injective h) before
  expire_all-Chains at (r ∷ rows) db db' h quorum before =
      let (mid, e, h') = >>=-eq-ok _ _ h in
      expire_all-Chains at rows mid db' h' (expire_one-Quorum svc r.id at db mid e quorum)
        (expire_one-Chains r.id at db mid e quorum.unique before)

  Commit-Chains : {db db' : Database} → Commit svc db db' → Quorum db → Chains db → Chains db'
  unfolding new_intent
  Commit-Chains {db} {db'} (expiry at h) quorum before =
      expire_all-Chains at _ db db' h quorum before
  Commit-Chains {db} {db'} (creation input id reading created_at absent_key h) quorum before =
      let (fresh, _, wrote) = insert_and_record-Wrote svc input _ _ id created_at db h in
      Wrote-Chains id _ _ _ created_at _ db' wrote
        (rw (← wrote.intents)
          (Commit-Quorum svc (creation input id reading created_at absent_key h) quorum).unique)
        (Chained-insert svc db.intents db.audit_events before _ fresh)
  Commit-Chains {db} {db'} (deadline id row at _ _ _ h) quorum before =
      let (_, wrote) = expire_at_deadline-Wrote svc id at db h in
      move-Chains id expired _ _ _ at db (advanced svc id expired db) db' refl refl wrote
        quorum.unique before
  Commit-Chains {db} {db'} (review id row actor role decision at uuid _ _ _ _ _ h) quorum before =
      let (_, _, _, wrote) = store_review-Wrote svc row actor role decision at uuid db h in
      move-Chains row.id (outcome svc row actor role decision at uuid db) _ _ _ at db _ db' refl
        refl wrote quorum.unique before
  Commit-Chains {db} {db'} (cancellation id row actor role at _ _ _ _ h) quorum before =
      let (_, wrote) = store_cancellation-Wrote svc id actor at db h in
      move-Chains id cancelled _ _ _ at db (advanced svc id cancelled db) db' refl refl wrote
        quorum.unique before
  Commit-Chains {db} {db'} (observation id row status reference actor at uuid _ _ _ h) quorum
        before =
      let (_, wrote) = store_observation-Wrote svc id status reference actor at uuid db h in
      Wrote-Chains id _ _ _ at _ db' wrote quorum.unique before
  Commit-Chains {db} {db'} (issuance id input s actor _ _ _ _ _ h) quorum before =
      let (_, wrote) = store_envelope-Wrote svc input s actor db h in
      Wrote-Chains s.row.id _ _ _ s.issued_at _ db' wrote quorum.unique before
  Commit-Chains {db} {db'} (consumption id row audience actor key at _ _ _ _ h) quorum before =
      let (_, wrote) = store_consumption-Wrote svc row audience actor key at db h in
      Wrote-Chains row.intent_id _ _ _ at _ db' wrote quorum.unique before

  Commits-Chains : {db db' : Database} → Commits svc db db' → Quorum db → Chains db → Chains db'
  Commits-Chains here quorum before = before
  Commits-Chains (next p c) quorum before =
      Commit-Chains c (Commits-Quorum svc p quorum) (Commits-Chains p quorum before)

-- Whatever calls are served from a database that satisfies `Quorum`, in which every event belongs to a
-- stored proposal and `verifyIntegrity` finds nothing wrong with the chain of any proposal (its
-- payloads, its links, its hashes and its chronology), it afterwards finds nothing wrong with any either.
pub run-Chains :
    (svc : Service) (calls : List Call) (w : World)
    → Quorum w.db
    → Chains svc w.db
    → Chains svc (run svc calls w).db
run-Chains svc calls w quorum before = Commits-Chains svc (run-Commits svc calls w) quorum before
