-- ===== src/Service/Quorum/Writes.antt =====
-- The invariant under each commit, and under whatever calls are served.
use parimit.Common.{ℕ, ◌≤◌, ◌≡◌, ◌≢◌, refl, sym, inl, inr, true, List, [], ◌∷◌, arith}
use parimit.Text.{Text, text_eq_iff}
use parimit.Types.{
  IntentStatus, expired, cancelled, authorized_no_dispatch, Decision, InitialStatus,
  initial_to_status,
}
use parimit.Result.{ok, >>=-eq-ok, ok_injective}
use parimit.Database.{Database, IntentRow, is_open, is_intent, advance_rows, count_approvals}
use parimit.Exec.{World}
use parimit.Service.{Service}
use parimit.Service.Effects.{
  expire_one-cases, expire_at_deadline-Wrote, insert_and_record-Wrote, store_cancellation-Wrote,
}
use parimit.Service.Effects.Reviews.{store_review-Wrote, store_observation-Wrote, reviewed}
use parimit.Service.Effects.Evidence.{store_envelope-Wrote, store_consumption-Wrote}
use parimit.Service.Commit.{
  Commit, Commits, here, next, expiry, creation, deadline, review, cancellation, observation,
  issuance, consumption, IsVerified,
}
use parimit.Service.Commit.Methods.{run-Commits}
use parimit.Service.Methods.Calls.{Call, run}
use parimit.Service.Methods.Deadline.{expire_one, expire_all}
use parimit.Service.Methods.Insert.{new_intent}
use parimit.Service.Methods.Decide.{next_status, new_approval}
use parimit.Service.Quorum.{Reviewed, Quorum}
use parimit.Service.Quorum.Keeps.{Reviewed-insert, Reviewed-advance, Reviewed-review}

expired-unauthorized : expired ≢ authorized_no_dispatch
expired-unauthorized e = cc

cancelled-unauthorized : cancelled ≢ authorized_no_dispatch
cancelled-unauthorized e = cc

initial-unauthorized : (s : InitialStatus) → initial_to_status s ≢ authorized_no_dispatch
initial-unauthorized s e = ground arith

next_status-authorized :
    (decision : Decision) (total needed : ℕ)
    → next_status decision total needed ≡ authorized_no_dispatch
    → needed ≤ total
next_status-authorized decision total needed h = ground arith

open-id : (tenant id : Text) (x : IntentRow) → is_open tenant id x ≡ true → x.id ≡ id
open-id tenant id x h = ground (arith, text_eq_iff x.id id)

pub intent-id : (tenant id : Text) (x : IntentRow) → is_intent tenant id x ≡ true → x.id ≡ id
intent-id tenant id x h = ground (arith, text_eq_iff x.id id)

module _ (svc : Service) where
  lapse :
      (id : Text) (status : IntentStatus) (db : Database)
      → status ≢ authorized_no_dispatch
      → Quorum db
      → Reviewed (advance_rows svc.tenant_id id status db.intents) db.approvals
  lapse id status db unauthorized before =
      Reviewed-advance db.intents db.approvals before svc.tenant_id id status
        λ x m open_ e. absurd (unauthorized e)

  pub expire_one-Quorum :
      (id : Text) (at : ℕ) (db db' : Database)
      → expire_one svc at id db ≡ ok db'
      → Quorum db
      → Quorum db'
  expire_one-Quorum id at db db' h before = elim (expire_one-cases svc id at db h) [
    | inl same ↦ rw same (lapse id expired db expired-unauthorized before)
    | inr (_, wrote) ↦
        rw (wrote.intents, wrote.approvals) (lapse id expired db expired-unauthorized before)
  ]

  expire_all-Quorum :
      (at : ℕ) (rows : List IntentRow) (db db' : Database)
      → expire_all svc at rows db ≡ ok db'
      → Quorum db
      → Quorum db'
  unfolding expire_all
  expire_all-Quorum at [] db db' h before = rw (← ok_injective h) before
  expire_all-Quorum at (r ∷ rows) db db' h before =
      let (mid, e, h') = >>=-eq-ok _ _ h in
      expire_all-Quorum at rows mid db' h' (expire_one-Quorum r.id at db mid e before)

  review-Reviewed :
      (id : Text) (row : IntentRow) (actor : Text) (decision : Decision) (db db₁ : Database)
      → IsVerified svc db id row
      → Reviewed db.intents db₁.approvals
      → let status = next_status decision (count_approvals row.id db₁) row.required_approvals in
        Reviewed (advance_rows svc.tenant_id row.id status db.intents) db₁.approvals
  unfolding count_approvals
  review-Reviewed id row actor decision db db₁ proposal before =
      Reviewed-advance db.intents db₁.approvals before svc.tenant_id row.id _ λ x m open_ e.
        let same : x ≡ row =
          before.unique x row m proposal.listed (open-id svc.tenant_id row.id x open_) in
        rw same (next_status-authorized decision _ _ e)

  pub Commit-Quorum : {db db' : Database} → Commit svc db db' → Quorum db → Quorum db'
  unfolding new_intent new_approval
  Commit-Quorum {db} {db'} (expiry at h) before = expire_all-Quorum at _ db db' h before
  Commit-Quorum {db} (creation input id at created_at _ h) before =
      let (fresh, _, wrote) = insert_and_record-Wrote svc input _ _ id created_at db h in
      rw (wrote.intents, wrote.approvals)
        (Reviewed-insert db.intents db.approvals before _ fresh (initial-unauthorized _))
  Commit-Quorum {db} (deadline id row at _ _ _ h) before =
      let (_, wrote) = expire_at_deadline-Wrote svc id at db h in
      rw (wrote.intents, wrote.approvals) (lapse id expired db expired-unauthorized before)
  Commit-Quorum {db} (review id row actor role decision at uuid proposal _ other _ _ h) before =
      let (_, first, _, wrote) = store_review-Wrote svc row actor role decision at uuid db h in
      rw (wrote.intents, wrote.approvals)
        (review-Reviewed id row actor decision db (reviewed svc row actor role decision at uuid db)
          proposal
          (Reviewed-review db.intents db.approvals before _ row proposal.listed refl
            (λ e. other (sym e)) first))
  Commit-Quorum {db} (cancellation id row actor role at _ _ _ _ h) before =
      let (_, wrote) = store_cancellation-Wrote svc id actor at db h in
      rw (wrote.intents, wrote.approvals) (lapse id cancelled db cancelled-unauthorized before)
  Commit-Quorum {db} (observation id row status reference actor at uuid _ _ _ h) before =
      let (_, wrote) = store_observation-Wrote svc id status reference actor at uuid db h in
      rw (wrote.intents, wrote.approvals) before
  Commit-Quorum {db} (issuance id input s actor _ _ _ _ _ h) before =
      let (_, wrote) = store_envelope-Wrote svc input s actor db h in
      rw (wrote.intents, wrote.approvals) before
  Commit-Quorum {db} (consumption id row audience actor key at _ _ _ _ h) before =
      let (_, wrote) = store_consumption-Wrote svc row audience actor key at db h in
      rw (wrote.intents, wrote.approvals) before

  pub Commits-Quorum : {db db' : Database} → Commits svc db db' → Quorum db → Quorum db'
  Commits-Quorum here before = before
  Commits-Quorum (next p c) before = Commit-Quorum c (Commits-Quorum p before)

-- Whatever calls are served from a database in which ids are unique, no agent has reviewed its own
-- proposal, nobody has reviewed one twice and each authorized proposal has as many approvals as it
-- requires, all of this still holds afterwards.
pub run-Quorum :
    (svc : Service) (calls : List Call) (w : World) → Quorum w.db → Quorum (run svc calls w).db
run-Quorum svc calls w before = Commits-Quorum svc (run-Commits svc calls w) before
