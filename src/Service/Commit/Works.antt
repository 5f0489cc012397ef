-- ===== src/Service/Commit/Works.antt =====
-- What the work of each transaction has written where it returned.
use parimit.Common.{
  ℕ, ◌≤◌, ◌<◌, ◌≡◌, ◌≢◌, refl, true, false, not, Option, none, some, arith, leb, leb→le, leb→lt,
  Memᴰ, find-eq-some, &&-eq-true, ◌&&◌, sym,
}
use parimit.Text.{Text, text_eq, text_eq_iff}
use parimit.Types.{
  IntentStatus, awaiting_approval, authorized_no_dispatch, is_awaiting, is_authorized, Decision,
  ReviewerRole, Proposal, ObservationStatus,
}
use parimit.Result.{ok, required, fail_if-eq-ok, required-eq-ok}
use parimit.Database.{
  Database, IntentRow, ApprovalRow, is_intent, find_intent, find_owned, find_by_key,
}
use parimit.Service.Integrity.{assert_stored_integrity}
use parimit.Exec.{World}
use parimit.Exec.Yields.{Yields, returns, Yields-result, Yields-ok, Yields-store, Yields-if}
use parimit.Service.{Service, now, random_uuid}
use parimit.Service.Commit.{Commits, here, next, creation, deadline, review}
use parimit.Service.Commit.{cancellation, observation, IsVerified}
use parimit.Service.Commit.Writes.{store-Commits}
use parimit.Service.Methods.Expiry.{expire_now}
use parimit.Service.Methods.Review.{record_decision, review_in_time, is_present}
use parimit.Service.Methods.Cancel.{
  CancelRole, agent_role, admin_role, find_cancellable, may_cancel, record_cancellation,
  cancel_in_time,
}
use parimit.Service.Methods.Simulate.{record_observation}
use parimit.Service.Methods.Create.{create_or_replay, create_proposal}

awaiting_of : (s : IntentStatus) → not (is_awaiting s) ≡ false → s ≡ awaiting_approval
awaiting_of s h = ground arith

pub authorized_of : (s : IntentStatus) → not (is_authorized s) ≡ false → s ≡ authorized_no_dispatch
authorized_of s h = ground arith

ne_of_test : (s t : Text) → text_eq s t ≡ false → s ≢ t
ne_of_test s t h e = ground (arith, text_eq_iff s t)

absent_of : (o : Option ApprovalRow) → is_present o ≡ false → o ≡ none
absent_of o h = ground arith

module _ (svc : Service) where
  found_intent :
      (id : Text) (row : IntentRow) (db : Database)
      → find_intent svc.tenant_id id db ≡ some row
      → (is_intent svc.tenant_id id row ≡ true) × Memᴰ row db.intents
  unfolding find_intent
  found_intent id row db f = find-eq-some (is_intent svc.tenant_id id) db.intents f

  pub IsVerified-row :
      (id : Text) (row : IntentRow) (db : Database) {u : Unit {0}}
      → required (find_intent svc.tenant_id id db) ≡ ok row
      → assert_stored_integrity svc row db ≡ ok u
      → IsVerified svc db id row
  IsVerified-row id row db f v =
      let (named, listed) = found_intent id row db (required-eq-ok _ f) in
      record { listed = listed; named = named; verified = v }

  cancellable_row :
      (role : CancelRole) (id actor : Text) (row : IntentRow) (db : Database)
      → find_cancellable role svc.tenant_id id actor db ≡ some row
      → (is_intent svc.tenant_id id row ≡ true)
        × (may_cancel role actor row ≡ true)
        × Memᴰ row db.intents
  unfolding find_owned may_cancel
  cancellable_row agent_role id actor row db f =
      let (test, listed) =
        find-eq-some (λ r. is_intent svc.tenant_id id r && text_eq r.agent_id actor) db.intents f in
      let (named, owned) = &&-eq-true _ _ test in (named, owned, listed)
  cancellable_row admin_role id actor row db f =
      let (named, listed) = found_intent id row db f in (named, refl, listed)

  expire_now-Yields :
      (id : Text) (row : IntentRow) (at : ℕ) (w : World)
      → IsVerified svc w.db id row
      → row.status ≡ awaiting_approval
      → row.expires_at ≤ at
      → Yields (λ _ w'. Commits svc w.db w'.db) (expire_now svc id at w)
  unfolding expire_now
  expire_now-Yields id row at w proposal awaits late =
      Yields-store _ _ w λ db h. returns (next here (deadline id row at proposal awaits late h))

  review_in_time-Yields :
      (id : Text) (row : IntentRow) (actor : Text) (role : ReviewerRole) (decision : Decision)
      (at : ℕ) (w : World)
      → IsVerified svc w.db id row
      → row.status ≡ awaiting_approval
      → row.agent_id ≢ actor
      → at < row.expires_at
      → Yields (λ _ w'. Commits svc w.db w'.db) (review_in_time svc row actor role decision at w)
  unfolding review_in_time random_uuid
  review_in_time-Yields id row actor role decision at w proposal awaits other early =
      Yields-ok _ _ w (
        Yields-result _ _ w λ _ fresh. Yields-ok _ _ _ (
          Yields-store _ _ _ λ db h. returns (
            next here (
              review id row actor role decision at _ proposal awaits other early
                (absent_of _ (fail_if-eq-ok _ _ _ fresh)) h))))

  pub record_decision-Yields :
      (id actor : Text) (role : ReviewerRole) (decision : Decision) (w : World)
      → Yields (λ _ w'. Commits svc w.db w'.db) (record_decision svc id actor role decision w)
  unfolding record_decision now
  record_decision-Yields id actor role decision w = Yields-result _ _ w λ row found.
      Yields-result _ _ w λ _ verified. Yields-result _ _ w λ _ other.
        Yields-result _ _ w λ _ open_.
          let proposal = IsVerified-row id row w.db found verified in
          let awaits = awaiting_of row.status (fail_if-eq-ok _ _ _ open_) in
          let at = svc.clock w.clock_reads in
          Yields-ok _ _ _ (
            Yields-if (leb row.expires_at at) (expire_now svc id at)
              (review_in_time svc row actor role decision at) _
              (λ late. expire_now-Yields id row at _ proposal awaits (leb→le _ _ late))
              (λ early.
                review_in_time-Yields id row actor role decision at _ proposal awaits
                  (ne_of_test _ _ (fail_if-eq-ok _ _ _ other)) (leb→lt _ _ early)))

  cancel_in_time-Yields :
      (id : Text) (row : IntentRow) (actor : Text) (role : CancelRole) (at : ℕ) (w : World)
      → IsVerified svc w.db id row
      → may_cancel role actor row ≡ true
      → row.status ≡ awaiting_approval
      → at < row.expires_at
      → Yields (λ _ w'. Commits svc w.db w'.db) (cancel_in_time svc id actor at w)
  unfolding cancel_in_time
  cancel_in_time-Yields id row actor role at w proposal may awaits early =
      Yields-store _ _ w
        λ db h. returns (next here (cancellation id row actor role at proposal may awaits early h))

  pub record_cancellation-Yields :
      (id actor : Text) (role : CancelRole) (w : World)
      → Yields (λ _ w'. Commits svc w.db w'.db) (record_cancellation svc id actor role w)
  unfolding record_cancellation now
  record_cancellation-Yields id actor role w = Yields-result _ _ w λ row found.
      Yields-result _ _ w λ _ verified. Yields-result _ _ w λ _ open_.
        let (named, may, listed) =
          cancellable_row role id actor row w.db (required-eq-ok _ found) in
        let proposal : IsVerified svc w.db id row = record {
          listed = listed;
          named = named;
          verified = verified;
        } in
        let awaits = awaiting_of row.status (fail_if-eq-ok _ _ _ open_) in
        let at = svc.clock w.clock_reads in
        Yields-ok _ _ _ (
          Yields-if (leb row.expires_at at) (expire_now svc id at) (cancel_in_time svc id actor at)
            _ (λ late. expire_now-Yields id row at _ proposal awaits (leb→le _ _ late))
            (λ early.
              cancel_in_time-Yields id row actor role at _ proposal may awaits (leb→lt _ _ early)))

  pub record_observation-Yields :
      (id : Text) (status : ObservationStatus) (reference : Option Text) (actor : Text) (w : World)
      → Yields (λ _ w'. Commits svc w.db w'.db) (record_observation svc id status reference actor w)
  unfolding record_observation now random_uuid
  record_observation-Yields id status reference actor w = Yields-result _ _ w λ row found.
      Yields-result _ _ w λ _ verified. Yields-result _ _ w λ _ authorized. Yields-ok _ _ w (
        Yields-result _ _ w λ _ thawed. Yields-ok _ _ _ (
          Yields-ok _ _ _ (
            store-Commits svc _ _ λ db h.
              (next here (
                observation id row status reference actor _ _
                  (IsVerified-row id row w.db found verified)
                  (authorized_of row.status (fail_if-eq-ok _ _ _ authorized))
                  (fail_if-eq-ok _ _ _ thawed) h)))))

  create_or_replay-Yields :
      (input : Proposal) (existing : Option IntentRow) (w : World)
      → existing ≡ find_by_key svc.tenant_id input.agent_id input.idempotency_key w.db
      → Yields (λ _ w'. Commits svc w.db w'.db) (create_or_replay svc input existing w)
  unfolding create_or_replay now random_uuid
  create_or_replay-Yields input (some row) w e = Yields-result _ _ w λ _ _. returns here
  create_or_replay-Yields input none w e = Yields-ok _ _ _ (
      Yields-ok _ _ _ (
        Yields-ok _ _ _ (
          Yields-ok _ _ _
            (Yields-store _ _ _ λ db h. returns (next here (creation input _ _ _ (sym e) h))))))

  pub create_proposal-Yields :
      (input : Proposal) (w : World)
      → Yields (λ _ w'. Commits svc w.db w'.db) (create_proposal svc input w)
  unfolding create_proposal
  create_proposal-Yields input w = Yields-ok _ _ w (create_or_replay-Yields input _ w refl)
