-- ===== src/Service/History/Writes.antt =====
-- Each commit lets every row evolve.
use parimit.Common.{ℕ, ◌≡◌, List, [], ◌∷◌, inl, inr}
use parimit.Text.{Text}
use parimit.Types.{expired, cancelled}
use parimit.Result.{ok, >>=-eq-ok, ok_injective}
use parimit.Database.{Database, IntentRow}
use parimit.Service.{Service}
use parimit.Service.Effects.{
  expire_one-cases, expire_at_deadline-Wrote, insert_and_record-Wrote, store_cancellation-Wrote,
}
use parimit.Service.History.{Evolves, Evolves-refl, Evolves-trans, Evolves-append, Evolves-advance}
use parimit.Service.Effects.Reviews.{store_review-Wrote, store_observation-Wrote}
use parimit.Service.Effects.Evidence.{store_envelope-Wrote, store_consumption-Wrote}
use parimit.Service.Commit.{
  Commit, Commits, here, next, expiry, creation, deadline, review, cancellation, observation,
  issuance, consumption,
}
use parimit.Service.Methods.Deadline.{expire_one, expire_all}

module _ (svc : Service) where
  expire_one-Evolves :
      (id : Text) (at : ℕ) (db db' : Database)
      → expire_one svc at id db ≡ ok db'
      → Evolves db.intents db'.intents
  expire_one-Evolves id at db db' h = elim (expire_one-cases svc id at db h) [
    | inl same ↦ rw same (Evolves-advance svc.tenant_id id expired db.intents)
    | inr (_, wrote) ↦ rw (wrote.intents) (Evolves-advance svc.tenant_id id expired db.intents)
  ]

  expire_all-Evolves :
      (at : ℕ) (rows : List IntentRow) (db db' : Database)
      → expire_all svc at rows db ≡ ok db'
      → Evolves db.intents db'.intents
  unfolding expire_all
  expire_all-Evolves at [] db db' h = rw (← ok_injective h) (Evolves-refl db.intents)
  expire_all-Evolves at (r ∷ rows) db db' h =
      let (mid, e, h') = >>=-eq-ok _ _ h in
      Evolves-trans db.intents mid.intents db'.intents (expire_one-Evolves r.id at db mid e)
        (expire_all-Evolves at rows mid db' h')

  pub Commit-Evolves : {db db' : Database} → Commit svc db db' → Evolves db.intents db'.intents
  Commit-Evolves {db} {db'} (expiry at h) = expire_all-Evolves at _ db db' h
  Commit-Evolves {db} (creation input id at created_at _ h) =
      let (_, _, wrote) = insert_and_record-Wrote svc input _ _ id created_at db h in
      rw (wrote.intents) (Evolves-append db.intents _)
  Commit-Evolves {db} (deadline id row at _ _ _ h) =
      let (_, wrote) = expire_at_deadline-Wrote svc id at db h in
      rw (wrote.intents) (Evolves-advance svc.tenant_id id expired db.intents)
  Commit-Evolves {db} (review id row actor role decision at uuid _ _ _ _ _ h) =
      let (_, _, _, wrote) = store_review-Wrote svc row actor role decision at uuid db h in
      rw (wrote.intents) (Evolves-advance svc.tenant_id row.id _ db.intents)
  Commit-Evolves {db} (cancellation id row actor role at _ _ _ _ h) =
      let (_, wrote) = store_cancellation-Wrote svc id actor at db h in
      rw (wrote.intents) (Evolves-advance svc.tenant_id id cancelled db.intents)
  Commit-Evolves {db} (observation id row status reference actor at uuid _ _ _ h) =
      let (_, wrote) = store_observation-Wrote svc id status reference actor at uuid db h in
      rw (wrote.intents) (Evolves-refl db.intents)
  Commit-Evolves {db} (issuance id input s actor _ _ _ _ _ h) =
      let (_, wrote) = store_envelope-Wrote svc input s actor db h in
      rw (wrote.intents) (Evolves-refl db.intents)
  Commit-Evolves {db} (consumption id row audience actor key at _ _ _ _ h) =
      let (_, wrote) = store_consumption-Wrote svc row audience actor key at db h in
      rw (wrote.intents) (Evolves-refl db.intents)

  pub Commits-Evolves : {db db' : Database} → Commits svc db db' → Evolves db.intents db'.intents
  Commits-Evolves {db} here = Evolves-refl db.intents
  Commits-Evolves {db} (next {db'} {db''} p c) =
      Evolves-trans db.intents db'.intents db''.intents (Commits-Evolves p) (Commit-Evolves c)
