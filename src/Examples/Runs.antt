-- ===== src/Examples/Runs.antt =====
-- Runs of requests from the empty database.
use parimit.Common.{none, ◌++◌, ℕ, ◌≤◌, List, [], ◌∷◌, some, arith}
use parimit.Text.{lit}
use parimit.Json.{str}
use parimit.Time.{start_of_day}
use parimit.Database.{empty}
use parimit.Service.Methods.Calls.{Call, creates, approves, reads, run}
use parimit.Service.Commit.{Commits}
use parimit.Service.Commit.Methods.{run-Commits}
use parimit.Service.History.{Evolves}
use parimit.Service.History.Runs.{run-Evolves}
use parimit.Service.Quorum.{Quorum}
use parimit.Service.Quorum.Writes.{run-Quorum}
use parimit.Service.Policy.{exposure_from}
use parimit.Service.Limits.Writes.{run-exposure}
use parimit.Service.Chain.Writes.{Chains, run-Chains}
use parimit.Service.Seal.{Seals}
use parimit.Service.Seal.Writes.{run-Seals}
use parimit.Service.Freeze.Writes.{Observed, run-Observed}
use parimit.Database.{observations_for, events_for}
use parimit.Service.Methods.Calls.{observes}
use parimit.Service.History.Appends.{Extended, run-Extended}
use parimit.Examples.{sample_service, sample_body, start}

-- The proposal, and its two approvals.
abbrev calls : List Call
calls =
    creates sample_body
    ∷ approves (lit "0") (some (str (lit "alice"))) (lit "approver") (some (str (lit "APPROVE")))
    ∷ approves (lit "0") (some (str (lit "bob"))) (lit "admin") (some (str (lit "APPROVE")))
    ∷ []

-- An observation IN_DOUBT, and another one, which is refused.
abbrev observed_calls : List Call
observed_calls =
    observes (lit "0") (some (str (lit "IN_DOUBT"))) none (lit "demo-mock-rail")
    ∷ observes (lit "0") (some (str (lit "SUCCEEDED"))) none (lit "demo-mock-rail")
    ∷ []

pub no_reviews : Quorum empty
no_reviews = record {
  unique = λ x y m n e. elim m [ ];
  owned = λ a m. elim m [ ];
  no_self = λ a x m n e. elim m [ ];
  once = tt;
  met = λ x m e. elim m [ ];
}

run-Commits_example : Commits sample_service empty (run sample_service calls start).db
run-Commits_example = run-Commits sample_service calls start

run-Evolves_example :
    Evolves
      (run sample_service calls start).db.intents
      (run sample_service (reads (lit "0") ∷ []) (run sample_service calls start)).db.intents
run-Evolves_example =
    run-Evolves sample_service (reads (lit "0") ∷ []) (run sample_service calls start)

run-Extended_example :
    Extended
      (run sample_service calls start).db
      (run sample_service observed_calls (run sample_service calls start)).db
run-Extended_example = run-Extended sample_service observed_calls (run sample_service calls start)

run-Quorum_example : Quorum (run sample_service calls start).db
run-Quorum_example = run-Quorum sample_service calls start no_reviews

Chains-empty : Chains sample_service empty
Chains-empty = record { owned = λ e m. elim m [ ]; linked = λ x m. elim m [ ] }

run-Chains_example : Chains sample_service (run sample_service calls start).db
run-Chains_example = run-Chains sample_service calls start no_reviews Chains-empty

Seals-empty : Seals sample_service empty
Seals-empty = record {
  hashed = λ x m. elim m [ ];
  signed = λ a x m n e. elim m [ ];
  timely = λ a x m n e. elim m [ ];
}

run-Seals_example : Seals sample_service (run sample_service calls start).db
run-Seals_example = run-Seals sample_service calls start no_reviews Seals-empty

Observed-empty : Observed empty
unfolding observations_for events_for
Observed-empty = record { settled = λ id. record { order = tt; stops = tt; recorded = tt } }

run-Observed_example : Observed (run sample_service (calls ++ observed_calls) start).db
run-Observed_example = run-Observed sample_service (calls ++ observed_calls) start Observed-empty

fixed_day : (n : ℕ) → start_of_day (sample_service.clock n) ≤ 1704067200000
unfolding sample_service start_of_day
fixed_day n = omega arith

none_exposed :
    exposure_from sample_service (lit "agent-1") 1704067200000 start.db.intents
    ≤ sample_service.policy.daily_agent_limit_minor
none_exposed = omega arith

run-exposure_example :
    exposure_from sample_service
      (lit "agent-1")
      1704067200000
      (run sample_service calls start).db.intents
    ≤ sample_service.policy.daily_agent_limit_minor
run-exposure_example =
    run-exposure sample_service (lit "agent-1") 1704067200000 calls start fixed_day none_exposed
