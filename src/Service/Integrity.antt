-- ===== src/Service/Integrity.antt =====
-- src/service.ts, `verifyIntegrity`: the checks in source order. `report` collects what they found.
pub mod Failures
pub mod Payloads
pub mod Row
pub mod Approvals
pub mod Chain
pub mod Initial
pub mod Reviews
pub mod Observations
pub mod Envelopes
pub mod State
pub mod Agreement
pub mod Reporting
pub mod Soundness
use parimit.Common.{not, List, [], ◌++◌, none, if◌then◌else◌}
use parimit.Text.{Text}
use parimit.Types.{is_v1}
use parimit.Result.{
  Result, ok, err, ◌>>=◌, ◌>>◌, required, fail, fail_if, integrity_failure, intent_hash_mismatch,
  legacy_intent_read_only, internal_error,
}
use parimit.Database.{
  Database, IntentRow, ApprovalRow, ObservationRow, EnvelopeRow, AuditRow, find_intent,
}
use parimit.Database.{approvals_for, observations_for, events_for}
use parimit.Service.{Service}
use Failures.{Finding, Report, report}
use Row.{hash_findings, row_findings}
use Approvals.{approval_findings}
use Chain.{chain_findings, genesis_tip}
use Initial.{initial_findings, initial_throws}
use Reviews.{review_findings}
use Observations.{observation_findings}
use Envelopes.{envelope_findings}
use State.{state_findings}
use parimit.Database.Envelopes.{envelopes_for}
use parimit.Service.Keys.{Registry, registry_of}

-- What `verifyIntegrity` reads of one proposal.
pub record Evidence : Type 0 where
  pub row : IntentRow
  pub approvals : List ApprovalRow
  pub observations : List ObservationRow
  pub events : List AuditRow
  pub envelopes : List EnvelopeRow
  pub registry : Registry

unfoldable pub evidence_of : Text → IntentRow → Database → Evidence
evidence_of id row db = record {
  row = row;
  approvals = approvals_for id db;
  observations = observations_for id db;
  events = events_for id db;
  envelopes = envelopes_for id db;
  registry = registry_of db;
}

module _ (svc : Service) where
  unfoldable pub findings : Text → Evidence → List Finding
  findings id e =
      hash_findings svc e.row
      ++ (row_findings svc e.row
          ++ (approval_findings svc id e.row [] e.approvals
              ++ (chain_findings svc id e.row genesis_tip none e.events
                  ++ (initial_findings svc e.row e.events
                      ++ (review_findings e.approvals e.events
                          ++ (observation_findings e.row e.observations e.events
                              ++ (envelope_findings svc id e.registry e.events e.envelopes
                                  ++ state_findings svc id e.row e.approvals e.observations
                                      e.events)))))))

  -- `verifyIntegrity`
  unfoldable pub verify_integrity : Text → Database → Result Report
  verify_integrity id db = do
    row ← required (find_intent svc.tenant_id id db)
    fail_if (initial_throws svc row (events_for id db)) internal_error 500
    ok (report (findings id (evidence_of id row db)))

  -- `assertStoredIntegrity`
  unfoldable pub assert_stored_integrity : IntentRow → Database → Result (Unit {0})
  assert_stored_integrity row db = do
    r ← verify_integrity row.id db
    fail_if (not r.valid) (if r.intent_hash_valid then integrity_failure else intent_hash_mismatch)
        500
    fail_if (is_v1 row.intent_version) legacy_intent_read_only 409
