-- ===== src/Service/Methods/Simulate.antt =====
-- `recordMockObservation`: the method itself.
use parimit.Common.{not, Option}
use parimit.Text.{Text}
use parimit.Json.{Json}
use parimit.Types.{ObservationStatus, is_authorized}
use parimit.Result.{invalid_state, in_doubt_frozen}
use parimit.Database.{find_intent, latest_observation}
use parimit.Exec.{
  Action, ◌>>=◌, ◌>>◌, lift, throw_if, query, query_required, query_result, execute, transaction,
}
use parimit.Service.{Service, now, random_uuid}
use parimit.Service.Integrity.{assert_stored_integrity}
use parimit.Service.Methods.Decide.{store_observation}
use parimit.Service.Methods.Observe.{observation_status, provider_reference, is_frozen}
use parimit.Service.Methods.Read.{IntentView, get_intent}

module _ (svc : Service) where
  -- The transaction's work.
  unfoldable pub record_observation :
      Text → ObservationStatus → Option Text → Text → Action (Unit {0})
  record_observation id status reference actor = do
    row ← query_required (find_intent svc.tenant_id id)
    query_result (assert_stored_integrity svc row)
    throw_if (not (is_authorized row.status)) invalid_state 409
    latest ← query (latest_observation id)
    throw_if (is_frozen latest) in_doubt_frozen 409
    at ← now svc
    uuid ← random_uuid svc
    execute (store_observation svc id status reference actor at uuid)

  unfoldable pub record_mock_observation :
      Text → Option Json → Option Json → Text → Action IntentView
  record_mock_observation id status reference actor = do
    observed ← lift (observation_status status)
    provider ← lift (provider_reference reference)
    transaction (record_observation id observed provider actor)
    get_intent svc id
