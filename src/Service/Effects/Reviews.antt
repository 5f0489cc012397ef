-- ===== src/Service/Effects/Reviews.antt =====
-- What a stored review and a stored observation have done to each table.
use parimit.Common.{ℕ, ◌≡◌, subst, false, Option, [], ◌∷◌, ◌++◌, any}
use parimit.Text.{Text, text_eq}
use parimit.Types.{IntentStatus, Decision, ReviewerRole, ObservationStatus}
use parimit.Types.{demo_mock_observation_recorded}
use parimit.Result.{ok, >>=-eq-ok}
use parimit.Database.{Database, IntentRow, is_by, count_approvals}
use parimit.Service.{Service}
use parimit.Service.Methods.Decide.{
  new_approval, store_review, new_observation, store_observation, next_status, review_event,
  review_json, observation_json,
}
use parimit.Service.Effects.{
  Wrote, append_audit-Wrote, insert_approval-eq-ok, insert_observation-eq-ok, move_to-eq-ok,
  advanced, IsOpen,
}

module _ (svc : Service) where
  module _ (row : IntentRow) (actor : Text) (role : ReviewerRole) (decision : Decision) (at : ℕ)
      (uuid : Text) (db : Database) where
    abbrev pub reviewed : Database
    reviewed = record db {
      approvals = db.approvals ++ new_approval svc row actor role decision at uuid ∷ [];
    }

    -- The status that the review leads to.
    abbrev pub outcome : IntentStatus
    outcome = next_status decision (count_approvals row.id reviewed) row.required_approvals

    pub store_review-Wrote :
        {db' : Database}
        → store_review svc row actor role decision at uuid db ≡ ok db'
        → (any (λ a. text_eq a.id uuid) db.approvals ≡ false)
          × (any (is_by row.id actor) db.approvals ≡ false)
          × IsOpen svc row.id db
          × Wrote svc row.id
              (review_event decision)
              actor
              (review_json svc row actor role decision at uuid outcome)
              at
              (advanced svc row.id outcome reviewed)
              db'
    unfolding store_review new_approval
    store_review-Wrote {db'} h =
        let (d₁, e₁, h₁) = >>=-eq-ok _ _ h in
        let (fresh, first, m₁) = insert_approval-eq-ok _ db e₁ in
        let h₁' = rw m₁ at h₁ in
        let (d₂, e₂, h₂) = >>=-eq-ok _ _ h₁' in
        let (one, m₂) = move_to-eq-ok svc row.id outcome reviewed e₂ in
        (
          fresh,
          first,
          one,
          subst
              (λ d.
                Wrote svc row.id (review_event decision) actor
                  (review_json svc row actor role decision at uuid outcome) at d db')
              m₂ (append_audit-Wrote svc _ _ _ _ _ d₂ h₂),
        )

  pub store_observation-Wrote :
      (id : Text) (status : ObservationStatus) (reference : Option Text) (actor : Text) (at : ℕ)
      (uuid : Text) (db : Database) {db' : Database}
      → store_observation svc id status reference actor at uuid db ≡ ok db'
      → let row = new_observation svc id status reference actor at uuid in
        (any (λ o. text_eq o.id row.id) db.observations ≡ false)
        × Wrote svc id demo_mock_observation_recorded actor
            (observation_json svc id status reference actor at uuid)
            at
            (record db { observations = db.observations ++ row ∷ [] })
            db'
  unfolding store_observation
  store_observation-Wrote id status reference actor at uuid db {db'} h =
      let (mid, e, h') = >>=-eq-ok _ _ h in
      let (fresh, m) = insert_observation-eq-ok _ db e in
      (
        fresh,
        subst
            (λ d.
              Wrote svc id demo_mock_observation_recorded actor
                (observation_json svc id status reference actor at uuid) at d db')
            m (append_audit-Wrote svc _ _ _ _ _ mid h'),
      )
