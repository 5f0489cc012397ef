-- ===== src/Service/Freeze/Writes.antt =====
-- The observations under each commit, and under whatever calls are served.
use parimit.Common.{ℕ, ◌≡◌, refl, ap, ◌∙◌, inl, inr, false, Option, List, [], ◌∷◌, ◌++◌, select}
use parimit.Text.{Text}
use parimit.Json.{Json}
use parimit.Types.{EventType, ObservationStatus, demo_mock_observation_recorded}
use parimit.Result.{ok, >>=-eq-ok, ok_injective}
use parimit.Database.{
  Database, IntentRow, ObservationRow, AuditRow, observations_for, events_for, latest_observation,
  is_event_of,
}
use parimit.Exec.{World}
use parimit.Service.{Service}
use parimit.Service.Audit.{new_event}
use parimit.Service.Effects.{
  Wrote, expire_one-cases, expire_at_deadline-Wrote, insert_and_record-Wrote,
  store_cancellation-Wrote,
}
use parimit.Service.Effects.Reviews.{store_review-Wrote, store_observation-Wrote}
use parimit.Service.Effects.Evidence.{store_envelope-Wrote, store_consumption-Wrote}
use parimit.Service.Commit.{
  Commit, Commits, here, next, expiry, creation, deadline, review, cancellation, observation,
  issuance, consumption,
}
use parimit.Service.Commit.Methods.{run-Commits}
use parimit.Service.Methods.Calls.{Call, run}
use parimit.Service.Methods.Deadline.{expire_one, expire_all}
use parimit.Service.Methods.Decide.{new_observation, observation_json}
use parimit.Service.Methods.Observe.{is_frozen}
use parimit.Service.Freeze.{Settled, is_observed_of, select-event, select-observation}

-- The observations of every proposal are in order of time, each is recorded by an event, and none
-- follows one that is IN_DOUBT.
pub record Observed (db : Database) : Type 0 where
  pub settled : (id : Text) → Settled (observations_for id db) (events_for id db)

Settled-tables :
    (name : Text) {os os' : List ObservationRow} {es es' : List AuditRow}
    → os' ≡ os
    → es' ≡ es
    → Settled (select (is_observed_of name) os) (select (is_event_of name) es)
    → Settled (select (is_observed_of name) os') (select (is_event_of name) es')
Settled-tables name p q s = rw (p, q) s

module _ (svc : Service) where
  new_event-time :
      (id : Text) (type : EventType) (actor : Text) (payload : Json) (at : ℕ) (db : Database)
      → let e : AuditRow = new_event svc id type actor payload at db in
        (e.intent_id ≡ id) × (e.occurred_at ≡ at)
  unfolding new_event
  new_event-time id type actor payload at db = (refl, refl)

  Wrote-Observed :
      (id : Text) (type : EventType) (actor : Text) (payload : Json) (at : ℕ)
      (db mid db' : Database)
      → mid.observations ≡ db.observations
      → mid.audit_events ≡ db.audit_events
      → Wrote svc id type actor payload at mid db'
      → Observed db
      → Observed db'
  unfolding observations_for events_for
  Wrote-Observed id type actor payload at db mid db' os es wrote before = record {
    settled = λ name.
        let e : AuditRow = new_event svc id type actor payload at mid in
        let (whose, time) = new_event-time id type actor payload at mid in
        Settled-tables name (wrote.observations ∙ os)
          (wrote.audit_events ∙ ap (λ a. a ++ e ∷ []) es)
          (select-event db.observations db.audit_events e id at whose time
            (rw (← es) wrote.after_event) name (before.settled name));
  }

  observation-Observed :
      (id : Text) (status : ObservationStatus) (reference : Option Text) (actor uuid : Text)
      (at : ℕ) (db mid db' : Database)
      → mid.observations
        ≡ db.observations ++ new_observation svc id status reference actor at uuid ∷ []
      → mid.audit_events ≡ db.audit_events
      → is_frozen (latest_observation id db) ≡ false
      → Wrote svc id demo_mock_observation_recorded actor
          (observation_json svc id status reference actor at uuid)
          at
          mid
          db'
      → Observed db
      → Observed db'
  unfolding observations_for events_for new_observation latest_observation
  observation-Observed id status reference actor uuid at db mid db' os es thawed wrote before =
      record {
        settled = λ name.
            let payload = observation_json svc id status reference actor at uuid in
            let e : AuditRow =
              new_event svc id demo_mock_observation_recorded actor payload at mid in
            let (whose, time) =
              new_event-time id demo_mock_observation_recorded actor payload at mid in
            Settled-tables name (wrote.observations ∙ os)
              (wrote.audit_events ∙ ap (λ a. a ++ e ∷ []) es)
              (select-observation db.observations db.audit_events e id at whose time
                (rw (← es) wrote.after_event) name
                (new_observation svc id status reference actor at uuid) refl refl thawed
                (before.settled name));
      }

  expire_one-Observed :
      (id : Text) (at : ℕ) (db db' : Database)
      → expire_one svc at id db ≡ ok db'
      → Observed db
      → Observed db'
  unfolding observations_for events_for
  expire_one-Observed id at db db' h before = elim (expire_one-cases svc id at db h) [
    | inl same ↦ rw same (record { settled = before.settled })
    | inr (_, wrote) ↦ Wrote-Observed id _ _ _ at db _ db' refl refl wrote before
  ]

  expire_all-Observed :
      (at : ℕ) (rows : List IntentRow) (db db' : Database)
      → expire_all svc at rows db ≡ ok db'
      → Observed db
      → Observed db'
  unfolding expire_all
  expire_all-Observed at [] db db' h before = rw (← ok_injective h) before
  expire_all-Observed at (r ∷ rows) db db' h before =
      let (mid, e, h') = >>=-eq-ok _ _ h in
      expire_all-Observed at rows mid db' h' (expire_one-Observed r.id at db mid e before)

  Commit-Observed : {db db' : Database} → Commit svc db db' → Observed db → Observed db'
  Commit-Observed {db} {db'} (expiry at h) before = expire_all-Observed at _ db db' h before
  Commit-Observed {db} {db'} (creation input id reading created_at _ h) before =
      let (_, _, wrote) = insert_and_record-Wrote svc input _ _ id created_at db h in
      Wrote-Observed id _ _ _ created_at db _ db' refl refl wrote before
  Commit-Observed {db} {db'} (deadline id row at _ _ _ h) before =
      let (_, wrote) = expire_at_deadline-Wrote svc id at db h in
      Wrote-Observed id _ _ _ at db _ db' refl refl wrote before
  Commit-Observed {db} {db'} (review id row actor role decision at uuid _ _ _ _ _ h) before =
      let (_, _, _, wrote) = store_review-Wrote svc row actor role decision at uuid db h in
      Wrote-Observed row.id _ _ _ at db _ db' refl refl wrote before
  Commit-Observed {db} {db'} (cancellation id row actor role at _ _ _ _ h) before =
      let (_, wrote) = store_cancellation-Wrote svc id actor at db h in
      Wrote-Observed id _ _ _ at db _ db' refl refl wrote before
  Commit-Observed {db} {db'} (observation id row status reference actor at uuid _ _ thawed h)
        before =
      let (_, wrote) = store_observation-Wrote svc id status reference actor at uuid db h in
      observation-Observed id status reference actor uuid at db _ db' refl refl thawed wrote before
  Commit-Observed {db} {db'} (issuance id input s actor _ _ _ _ _ h) before =
      let (_, wrote) = store_envelope-Wrote svc input s actor db h in
      Wrote-Observed s.row.id _ _ _ s.issued_at db _ db' refl refl wrote before
  Commit-Observed {db} {db'} (consumption id row audience actor key at _ _ _ _ h) before =
      let (_, wrote) = store_consumption-Wrote svc row audience actor key at db h in
      Wrote-Observed row.intent_id _ _ _ at db _ db' refl refl wrote before

  Commits-Observed : {db db' : Database} → Commits svc db db' → Observed db → Observed db'
  Commits-Observed here before = before
  Commits-Observed (next p c) before = Commit-Observed c (Commits-Observed p before)

-- Whatever calls are served from a database in which the observations of every proposal are in order of
-- time, each recorded by an event, and none follows one that is IN_DOUBT, all of this still holds afterwards.
pub run-Observed :
    (svc : Service) (calls : List Call) (w : World) → Observed w.db → Observed (run svc calls w).db
run-Observed svc calls w before = Commits-Observed svc (run-Commits svc calls w) before
