-- ===== src/Service/Commit/Methods.antt =====
-- Every call writes by commits only, whether it returns or throws.
use parimit.Common.{ℕ, ◌≡◌, refl, Option, List, [], ◌∷◌}
use parimit.Text.{Text}
use parimit.Json.{Json}
use parimit.Types.{IntentStatus}
use parimit.Database.{IntentRow}
use parimit.Exec.{Action, World, transaction, resume, store}
use parimit.Service.{Service, now}
use parimit.Service.Commit.{Commits, here, next, Commits-trans, expiry}
use parimit.Service.Commit.Writes.{
  Writes, Writes-reads, finish-Commits, Writes-transaction, Writes-bind, store-Commits,
}
use parimit.Service.Commit.Works.{
  record_decision-Yields, record_cancellation-Yields, record_observation-Yields,
  create_proposal-Yields,
}
use parimit.Service.Commit.Evidence.{
  issue_authorization_envelope-Writes, verify_authorization_envelope-Writes,
  consume_authorization_envelope-Writes,
}
use parimit.Service.Methods.Calls.{
  Call, evaluates, creates, reads, audits, owns, lists, approves, cancels, observes, issues,
  verifies, consumes, discard, serve, run,
}
use parimit.Service.Methods.Deadline.{due_intents, expire_all}
use parimit.Service.Methods.Expiry.{expire_rows, expire_due_intents}
use parimit.Service.Methods.Review.{approve_intent}
use parimit.Service.Methods.Cancel.{cancel_intent}
use parimit.Service.Methods.Simulate.{record_mock_observation}
use parimit.Service.Methods.Read.{
  get_intent, get_audit, assert_intent_owned_by_agent, evaluate_policy,
}
use parimit.Service.Methods.Listing.Query.{list_intents}
use parimit.Service.Methods.Create.{create_intent}

module _ (svc : Service) where
  expire_rows-Writes :
      (at : ℕ) (rows : List IntentRow) (w : World)
      → rows ≡ due_intents svc at w.db
      → Commits svc w.db (expire_rows svc at rows w).1.db
  unfolding expire_rows transaction store
  expire_rows-Writes at [] w e = here
  expire_rows-Writes at (r ∷ rs) w e = finish-Commits svc w (
      store-Commits svc w (expire_all svc at (r ∷ rs) w.db)
        λ db h. next here (expiry at (rw (← e) h)))

  expire_due_intents-Writes : Writes svc (expire_due_intents svc)
  unfolding expire_due_intents now resume
  expire_due_intents-Writes = record {
    at = λ w. expire_rows-Writes (svc.clock w.clock_reads) _ _ refl;
  }

  get_intent-Writes : (id : Text) → Writes svc (get_intent svc id)
  unfolding get_intent
  get_intent-Writes id = Writes-bind svc _ _ expire_due_intents-Writes λ _.
      Writes-bind svc _ _ (Writes-reads svc _ λ _. refl) λ row.
        Writes-bind svc _ _ (Writes-reads svc _ λ _. refl) λ report.
          Writes-bind svc _ _ (Writes-reads svc _ λ _. refl) λ _. Writes-reads svc _ λ _. refl

  get_audit-Writes : (id : Text) → Writes svc (get_audit svc id)
  unfolding get_audit
  get_audit-Writes id =
      Writes-bind svc _ _ (Writes-reads svc _ λ _. refl) λ report.
        Writes-bind svc _ _ (Writes-reads svc _ λ _. refl) λ _. Writes-reads svc _ λ _. refl

  assert_intent_owned_by_agent-Writes :
      (id : Text) (actor : Option Json) → Writes svc (assert_intent_owned_by_agent svc id actor)
  unfolding assert_intent_owned_by_agent
  assert_intent_owned_by_agent-Writes id actor = Writes-bind svc _ _ expire_due_intents-Writes λ _.
      Writes-bind svc _ _ (Writes-reads svc _ λ _. refl) λ actor_id.
        Writes-bind svc _ _ (Writes-reads svc _ λ _. refl) λ row. Writes-reads svc _ λ _. refl

  list_intents-Writes :
      (agent : Option Text) (status : Option IntentStatus) (limit : Option ℕ)
      → Writes svc (list_intents svc agent status limit)
  unfolding list_intents
  list_intents-Writes agent status limit =
      Writes-bind svc _ _ expire_due_intents-Writes
        λ _. Writes-bind svc _ _ (Writes-reads svc _ λ _. refl) λ n. Writes-reads svc _ λ _. refl

  evaluate_policy-Writes : (value : Json) → Writes svc (evaluate_policy svc value)
  unfolding evaluate_policy now
  evaluate_policy-Writes value = Writes-bind svc _ _ expire_due_intents-Writes λ _.
      Writes-bind svc _ _ (Writes-reads svc _ λ _. refl) λ input.
        Writes-bind svc _ _ (Writes-reads svc _ λ _. refl) λ at. Writes-reads svc _ λ _. refl

  create_intent-Writes : (value : Json) → Writes svc (create_intent svc value)
  unfolding create_intent
  create_intent-Writes value = Writes-bind svc _ _ expire_due_intents-Writes λ _.
      Writes-bind svc _ _ (Writes-reads svc _ λ _. refl) λ input.
        Writes-bind svc _ _ (Writes-transaction svc _ (create_proposal-Yields svc input)) λ result.
          Writes-bind svc _ _ (get_intent-Writes result.0) λ view. Writes-reads svc _ λ _. refl

  approve_intent-Writes :
      (id : Text) (actor : Option Json) (role : Text) (decision : Option Json)
      → Writes svc (approve_intent svc id actor role decision)
  unfolding approve_intent
  approve_intent-Writes id actor role decision = Writes-bind svc _ _ expire_due_intents-Writes λ _.
      Writes-bind svc _ _ (Writes-reads svc _ λ _. refl) λ actor_id.
        Writes-bind svc _ _ (Writes-reads svc _ λ _. refl) λ actor_role.
          Writes-bind svc _ _ (Writes-reads svc _ λ _. refl) λ choice.
            Writes-bind svc _ _
              (Writes-transaction svc _ (record_decision-Yields svc id actor_id actor_role choice))
              λ expired_first.
                Writes-bind svc _ _ (Writes-reads svc _ λ _. refl) λ _. get_intent-Writes id

  cancel_intent-Writes :
      (id : Text) (actor : Option Json) (role : Text) → Writes svc (cancel_intent svc id actor role)
  unfolding cancel_intent
  cancel_intent-Writes id actor role = Writes-bind svc _ _ expire_due_intents-Writes λ _.
      Writes-bind svc _ _ (Writes-reads svc _ λ _. refl) λ actor_id.
        Writes-bind svc _ _ (Writes-reads svc _ λ _. refl) λ actor_role.
          Writes-bind svc _ _
            (Writes-transaction svc _ (record_cancellation-Yields svc id actor_id actor_role))
            λ expired_first.
              Writes-bind svc _ _ (Writes-reads svc _ λ _. refl) λ _. get_intent-Writes id

  record_mock_observation-Writes :
      (id : Text) (status reference : Option Json) (actor : Text)
      → Writes svc (record_mock_observation svc id status reference actor)
  unfolding record_mock_observation
  record_mock_observation-Writes id status reference actor =
      Writes-bind svc _ _ (Writes-reads svc _ λ _. refl) λ observed.
        Writes-bind svc _ _ (Writes-reads svc _ λ _. refl) λ provider.
          Writes-bind svc _ _
            (Writes-transaction svc _ (record_observation-Yields svc id observed provider actor))
            λ _. get_intent-Writes id

  discard-Writes : {A : Type 0} {m : Action A} → Writes svc m → Writes svc (discard m)
  discard-Writes p = Writes-bind svc _ _ p λ _. Writes-reads svc _ λ _. refl

  serve-Writes : (c : Call) → Writes svc (serve svc c)
  unfolding serve
  serve-Writes (evaluates value) = discard-Writes (evaluate_policy-Writes value)
  serve-Writes (creates value) = discard-Writes (create_intent-Writes value)
  serve-Writes (reads id) = discard-Writes (get_intent-Writes id)
  serve-Writes (audits id) = discard-Writes (get_audit-Writes id)
  serve-Writes (owns id actor) = assert_intent_owned_by_agent-Writes id actor
  serve-Writes (lists agent status limit) = discard-Writes (list_intents-Writes agent status limit)
  serve-Writes (approves id actor role decision) =
      discard-Writes (approve_intent-Writes id actor role decision)
  serve-Writes (cancels id actor role) = discard-Writes (cancel_intent-Writes id actor role)
  serve-Writes (observes id status reference actor) =
      discard-Writes (record_mock_observation-Writes id status reference actor)
  serve-Writes (issues id value actor role) =
      discard-Writes (issue_authorization_envelope-Writes svc id value actor role)
  serve-Writes (verifies jws audience) =
      discard-Writes (verify_authorization_envelope-Writes svc jws audience)
  serve-Writes (consumes jws audience actor role key) =
      discard-Writes (consume_authorization_envelope-Writes svc jws audience actor role key)

  -- Whatever calls the service serves, in whatever order, and whether each returns or throws, the
  -- database changes by a sequence of the eight kinds of commit, each under its guards.
  pub run-Commits : (calls : List Call) (w : World) → Commits svc w.db (run svc calls w).db
  unfolding run
  run-Commits [] w = here
  run-Commits (c ∷ calls) w =
      Commits-trans svc ((serve-Writes c).at w) (run-Commits calls (serve svc c w).1)
