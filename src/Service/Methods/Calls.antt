-- ===== src/Service/Methods/Calls.antt =====
-- The methods as requests, and a run of requests: a caller catches what a method throws, and the next
-- request meets the database that was committed.
use parimit.Common.{ℕ, List, [], ◌∷◌, Option}
use parimit.Text.{Text}
use parimit.Json.{Json}
use parimit.Types.{IntentStatus}
use parimit.Exec.{Action, World, ◌>>=◌, pure}
use parimit.Service.{Service}
use parimit.Service.Methods.Read.{
  get_intent, get_audit, assert_intent_owned_by_agent, evaluate_policy,
}
use parimit.Service.Methods.Listing.Query.{list_intents}
use parimit.Service.Methods.Create.{create_intent}
use parimit.Service.Methods.Review.{approve_intent}
use parimit.Service.Methods.Cancel.{cancel_intent}
use parimit.Service.Envelopes.Issue.{issue_authorization_envelope}
use parimit.Service.Envelopes.Verify.{verify_authorization_envelope}
use parimit.Service.Envelopes.Consume.{consume_authorization_envelope}
use parimit.Service.Methods.Simulate.{record_mock_observation}

pub data Call : Type 0 where
  evaluates creates : Json → Call
  reads audits : Text → Call
  owns : Text → Option Json → Call
  lists : Option Text → Option IntentStatus → Option ℕ → Call
  approves : Text → Option Json → Text → Option Json → Call
  cancels : Text → Option Json → Text → Call
  observes : Text → Option Json → Option Json → Text → Call
  issues : Text → Json → Option Json → Text → Call
  verifies : Option Json → Option Json → Call
  consumes : Option Json → Option Json → Option Json → Text → Option Json → Call

-- What the caller makes of the result is left out.
abbrev pub discard : {A : Type 0} → Action A → Action (Unit {0})
discard m = m >>= λ _. pure tt

module _ (svc : Service) where
  unfoldable pub serve : Call → Action (Unit {0})
  serve (evaluates value) = discard (evaluate_policy svc value)
  serve (creates value) = discard (create_intent svc value)
  serve (reads id) = discard (get_intent svc id)
  serve (audits id) = discard (get_audit svc id)
  serve (owns id actor) = assert_intent_owned_by_agent svc id actor
  serve (lists agent status limit) = discard (list_intents svc agent status limit)
  serve (approves id actor role decision) = discard (approve_intent svc id actor role decision)
  serve (cancels id actor role) = discard (cancel_intent svc id actor role)
  serve (observes id status reference actor) =
      discard (record_mock_observation svc id status reference actor)
  serve (issues id value actor role) =
      discard (issue_authorization_envelope svc id value actor role)
  serve (verifies jws audience) = discard (verify_authorization_envelope svc jws audience)
  serve (consumes jws audience actor role key) =
      discard (consume_authorization_envelope svc jws audience actor role key)

  unfoldable pub run : List Call → World → World
  run [] w = w
  run (c ∷ calls) w = run calls (serve c w).1
