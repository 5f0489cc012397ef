-- ===== src/Service/Effects/Envelopes.antt =====
-- What each commit does to the envelope table: it leaves it alone, adds one row, or consumes one.
use parimit.Common.{
  ℕ, ◌+◌, ◌*◌, ◌≤◌, ◌<◌, ◌≡◌, sym, ◌∙◌, ap, inl, inr, none, some, List, [], ◌∷◌, ◌++◌, any, select,
  length, false,
}
use parimit.Text.{Text}
use parimit.Types.{authorized_no_dispatch}
use parimit.Result.{ok, >>=-eq-ok, ok_injective}
use parimit.Database.{Database, IntentRow, EnvelopeRow}
use parimit.Database.Envelopes.{find_envelope, is_claimable, claim_rows, breaks_constraint}
use parimit.Service.{Service}
use parimit.Service.Effects.{
  expire_one-cases, expire_at_deadline-Wrote, insert_and_record-Wrote, store_cancellation-Wrote,
}
use parimit.Service.Effects.Reviews.{store_review-Wrote, store_observation-Wrote}
use parimit.Service.Effects.Evidence.{store_envelope-Wrote, store_consumption-Wrote}
use parimit.Service.Commit.{
  Commit, expiry, creation, deadline, review, cancellation, observation, issuance, consumption,
  IsVerified,
}
use parimit.Service.Methods.Deadline.{expire_one, expire_all}
use parimit.Service.Envelopes.{IssueInput}
use parimit.Service.Envelopes.Store.{Sources, new_envelope}

module _ (svc : Service) where
  pub data EnvelopeChange (db db' : Database) : Type 0 where
    quiet : db'.envelopes ≡ db.envelopes → EnvelopeChange db db'
    added :
        (id : Text) (input : IssueInput) (s : Sources)
        → IsVerified svc db id s.row
        → s.row.status ≡ authorized_no_dispatch
        → s.issued_at + input.expires_in_seconds * 1000 ≤ s.row.expires_at
        → any (breaks_constraint (new_envelope svc input s)) db.envelopes ≡ false
        → db'.envelopes ≡ db.envelopes ++ new_envelope svc input s ∷ []
        → db'.intents ≡ db.intents
        → EnvelopeChange db db'
    used :
        (id : Text) (row : EnvelopeRow) (actor key : Text) (at : ℕ)
        → find_envelope svc.tenant_id id db ≡ some row
        → row.consumed_at ≡ none
        → row.issued_at ≤ at
        → at < row.expires_at
        → length (select (is_claimable svc.tenant_id row.id) db.envelopes) ≡ 1
        → db'.envelopes ≡ claim_rows svc.tenant_id row.id at actor key db.envelopes
        → EnvelopeChange db db'

  expire_one-envelopes :
      (id : Text) (at : ℕ) (db db' : Database)
      → expire_one svc at id db ≡ ok db'
      → db'.envelopes ≡ db.envelopes
  expire_one-envelopes id at db db' h = elim (expire_one-cases svc id at db h) [
    | inl same ↦ ap (λ d. d.envelopes) same
    | inr (_, wrote) ↦ wrote.envelopes
  ]

  expire_all-envelopes :
      (at : ℕ) (rows : List IntentRow) (db db' : Database)
      → expire_all svc at rows db ≡ ok db'
      → db'.envelopes ≡ db.envelopes
  unfolding expire_all
  expire_all-envelopes at [] db db' h = ap (λ d. d.envelopes) (sym (ok_injective h))
  expire_all-envelopes at (r ∷ rows) db db' h =
      let (mid, e, h') = >>=-eq-ok _ _ h in
      expire_all-envelopes at rows mid db' h' ∙ expire_one-envelopes r.id at db mid e

  pub Commit-EnvelopeChange : {db db' : Database} → Commit svc db db' → EnvelopeChange db db'
  Commit-EnvelopeChange {db} {db'} (expiry at h) = quiet (expire_all-envelopes at _ db db' h)
  Commit-EnvelopeChange {db} (creation input id reading created_at _ h) =
      let (_, _, wrote) = insert_and_record-Wrote svc input _ _ id created_at db h in
      quiet (wrote.envelopes)
  Commit-EnvelopeChange {db} (deadline id row at _ _ _ h) =
      let (_, wrote) = expire_at_deadline-Wrote svc id at db h in quiet (wrote.envelopes)
  Commit-EnvelopeChange {db} (review id row actor role decision at uuid _ _ _ _ _ h) =
      let (_, _, _, wrote) = store_review-Wrote svc row actor role decision at uuid db h in
      quiet (wrote.envelopes)
  Commit-EnvelopeChange {db} (cancellation id row actor role at _ _ _ _ h) =
      let (_, wrote) = store_cancellation-Wrote svc id actor at db h in quiet (wrote.envelopes)
  Commit-EnvelopeChange {db} (observation id row status reference actor at uuid _ _ _ h) =
      let (_, wrote) = store_observation-Wrote svc id status reference actor at uuid db h in
      quiet (wrote.envelopes)
  Commit-EnvelopeChange {db} (issuance id input s actor proposal authorized _ _ lives h) =
      let (fresh, wrote) = store_envelope-Wrote svc input s actor db h in
      added id input s proposal authorized lives fresh (wrote.envelopes) (wrote.intents)
  Commit-EnvelopeChange {db} (consumption id row audience actor key at found free lo hi h) =
      let (one, wrote) = store_consumption-Wrote svc row audience actor key at db h in
      used id row actor key at found free lo hi one (wrote.envelopes)
