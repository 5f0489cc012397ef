-- ===== src/Service/Limits/Writes.antt =====
-- The daily limit under each commit, and under whatever calls are served.
use parimit.Common.{ℕ, ◌+◌, ◌≤◌, ◌≡◌, subst, inl, inr, true, List, [], ◌∷◌, ◌++◌, Bool-cases, arith}
use parimit.Text.{Text, text_eq_iff}
use parimit.Types.{expired, cancelled, Proposal, PolicyDecision}
use parimit.Time.{start_of_day}
use parimit.Result.{ok, >>=-eq-ok, ok_injective}
use parimit.Database.{Database, IntentRow}
use parimit.Exec.{World}
use parimit.Service.{Service}
use parimit.Service.Effects.{
  expire_one-cases, expire_at_deadline-Wrote, insert_and_record-Wrote, store_cancellation-Wrote,
}
use parimit.Service.Effects.Reviews.{store_review-Wrote, store_observation-Wrote}
use parimit.Service.Effects.Evidence.{store_envelope-Wrote, store_consumption-Wrote}
use parimit.Service.Commit.{
  Commit, Commits, here, next, expiry, creation, deadline, review, cancellation, observation,
  issuance, consumption,
}
use parimit.Service.Commit.Methods.{run-Commits}
use parimit.Service.Methods.Calls.{Call, run}
use parimit.Service.Methods.Deadline.{expire_one, expire_all}
use parimit.Service.Methods.Insert.{new_intent}
use parimit.Service.Policy.{exposure_from, is_exposed, decide_policy, daily_exposure}
use parimit.Service.Policy.Laws.{decide_policy-allowed}
use parimit.Service.Limits.{exposure-advance, exposure-append, exposure-later}

module _ (svc : Service) (agent : Text) (start : ℕ) where
  abbrev pub exposure : Database → ℕ
  exposure db = exposure_from svc agent start db.intents

  abbrev limit : ℕ
  limit = svc.policy.daily_agent_limit_minor

  expire_one-exposure :
      (id : Text) (at : ℕ) (db db' : Database)
      → expire_one svc at id db ≡ ok db'
      → exposure db' ≤ exposure db
  expire_one-exposure id at db db' h = elim (expire_one-cases svc id at db h) [
    | inl same ↦ rw same (exposure-advance svc agent start svc.tenant_id id expired db.intents)
    | inr (_, wrote) ↦
        rw (wrote.intents) (exposure-advance svc agent start svc.tenant_id id expired db.intents)
  ]

  expire_all-exposure :
      (at : ℕ) (rows : List IntentRow) (db db' : Database)
      → expire_all svc at rows db ≡ ok db'
      → exposure db' ≤ exposure db
  unfolding expire_all
  expire_all-exposure at [] db db' h = rw (← ok_injective h) (omega arith)
  expire_all-exposure at (r ∷ rows) db db' h =
      let (mid, e, h') = >>=-eq-ok _ _ h in
      omega (arith, expire_one-exposure r.id at db mid e, expire_all-exposure at rows mid db' h')

  -- A new row counts only for its agent and only if the policy allowed it.
  new_intent-exposed :
      (input : Proposal) (fingerprint : Text) (policy : PolicyDecision) (id : Text) (at : ℕ)
      → is_exposed svc agent start (new_intent svc input fingerprint policy id at) ≡ true
      → (policy.allowed ≡ true) × (input.agent_id ≡ agent)
  unfolding new_intent
  new_intent-exposed input fingerprint policy id at h =
      ground (arith, text_eq_iff input.agent_id agent)

  creation-exposure :
      (input : Proposal) (fingerprint id : Text) (at created_at : ℕ) (db : Database)
      → start_of_day at ≤ start
      → exposure db ≤ limit
      → exposure_from svc agent start (
          db.intents
          ++ new_intent svc input fingerprint (decide_policy svc input at db) id created_at ∷ [])
        ≤ limit
  unfolding daily_exposure new_intent
  creation-exposure input fingerprint id at created_at db day within =
      let policy = decide_policy svc input at db in
      let row = new_intent svc input fingerprint policy id created_at in
      let appended = exposure-append svc agent start db.intents row in
      elim (Bool-cases (is_exposed svc agent start row)) [
        | inl counts ↦
            let (allowed, mine) =
              new_intent-exposed input fingerprint policy id created_at counts in
            let (_, below, _, _) = (decide_policy-allowed svc input at db).0 allowed in
            let here_below =
              subst
                (λ a.
                  exposure_from svc a (start_of_day at) db.intents + input.amount_minor
                  ≤ svc.policy.daily_agent_limit_minor)
                mine below in
            rw (appended, counts)
              (omega (
                arith,
                exposure-later svc agent (start_of_day at) start db.intents day,
                here_below,
              ))
        | inr ignored ↦ rw (appended, ignored) (omega (arith, within))
      ]

  Commit-exposure :
      ((n : ℕ) → start_of_day (svc.clock n) ≤ start)
      → {db db' : Database} → Commit svc db db'
      → exposure db ≤ limit
      → exposure db' ≤ limit
  Commit-exposure day {db} {db'} (expiry at h) within =
      omega (arith, expire_all-exposure at _ db db' h)
  Commit-exposure day {db} (creation input id reading created_at _ h) within =
      let (_, _, wrote) = insert_and_record-Wrote svc input _ _ id created_at db h in
      rw (wrote.intents)
        (creation-exposure input _ id (svc.clock reading) created_at db (day reading) within)
  Commit-exposure day {db} (deadline id row at _ _ _ h) within =
      let (_, wrote) = expire_at_deadline-Wrote svc id at db h in
      rw (wrote.intents)
        (omega (arith, exposure-advance svc agent start svc.tenant_id id expired db.intents))
  Commit-exposure day {db} (review id row actor role decision at uuid _ _ _ _ _ h) within =
      let (_, _, _, wrote) = store_review-Wrote svc row actor role decision at uuid db h in
      rw (wrote.intents)
        (omega (arith, exposure-advance svc agent start svc.tenant_id row.id _ db.intents))
  Commit-exposure day {db} (cancellation id row actor role at _ _ _ _ h) within =
      let (_, wrote) = store_cancellation-Wrote svc id actor at db h in
      rw (wrote.intents)
        (omega (arith, exposure-advance svc agent start svc.tenant_id id cancelled db.intents))
  Commit-exposure day {db} (observation id row status reference actor at uuid _ _ _ h) within =
      let (_, wrote) = store_observation-Wrote svc id status reference actor at uuid db h in
      rw (wrote.intents) within
  Commit-exposure day {db} (issuance id input s actor _ _ _ _ _ h) within =
      let (_, wrote) = store_envelope-Wrote svc input s actor db h in rw (wrote.intents) within
  Commit-exposure day {db} (consumption id row audience actor key at _ _ _ _ h) within =
      let (_, wrote) = store_consumption-Wrote svc row audience actor key at db h in
      rw (wrote.intents) within

  Commits-exposure :
      ((n : ℕ) → start_of_day (svc.clock n) ≤ start)
      → {db db' : Database} → Commits svc db db'
      → exposure db ≤ limit
      → exposure db' ≤ limit
  Commits-exposure day here within = within
  Commits-exposure day (next p c) within = Commit-exposure day c (Commits-exposure day p within)

  -- While every reading of the clock is of the day that begins at `start` or of an earlier one, whatever
  -- calls are served, an agent's exposure counted from `start` stays within the daily limit if it is
  -- within it before.
  pub run-exposure :
      (calls : List Call) (w : World)
      → ((n : ℕ) → start_of_day (svc.clock n) ≤ start)
      → exposure_from svc agent start w.db.intents ≤ svc.policy.daily_agent_limit_minor
      → exposure_from svc agent start (run svc calls w).db.intents
        ≤ svc.policy.daily_agent_limit_minor
  run-exposure calls w day within = Commits-exposure day (run-Commits svc calls w) within
