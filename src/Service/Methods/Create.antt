-- ===== src/Service/Methods/Create.antt =====
-- `createIntent`.
use parimit.Common.{Bool, true, false, not, Option, none, some}
use parimit.Text.{Text, text_eq}
use parimit.Json.{Json}
use parimit.Types.{Proposal}
use parimit.Result.{idempotency_conflict}
use parimit.Database.{IntentRow, find_by_key}
use parimit.Exec.{Action, ◌>>=◌, ◌>>◌, pure, lift, throw_if, query, execute, transaction}
use parimit.Service.{Service, now, random_uuid, digest}
use parimit.Service.Policy.{decide_policy}
use parimit.Service.Validation.{normalize_payment_proposal, original_request_shape}
use parimit.Service.Methods.Insert.{insert_and_record}
use parimit.Service.Methods.Expiry.{expire_due_intents}
use parimit.Service.Methods.Read.{IntentView, get_intent}

module _ (svc : Service) where
  -- `requestFingerprint`
  unfoldable pub request_fingerprint : Proposal → Text
  request_fingerprint input = digest svc (original_request_shape input)

  unfoldable pub create_or_replay : Proposal → Option IntentRow → Action (Text × Bool)
  create_or_replay input (some existing) = do
    throw_if (not (text_eq existing.request_fingerprint (request_fingerprint input)))
        idempotency_conflict 409
    pure (existing.id, true)
  create_or_replay input none = do
    at ← now svc
    policy ← query (decide_policy svc input at)
    id ← random_uuid svc
    created_at ← now svc
    execute (insert_and_record svc input (request_fingerprint input) policy id created_at)
    pure (id, false)

  -- The transaction's work.
  unfoldable pub create_proposal : Proposal → Action (Text × Bool)
  unfolding create_or_replay
  create_proposal input = do
    existing ← query (find_by_key svc.tenant_id input.agent_id input.idempotency_key)
    create_or_replay input existing

  unfoldable pub create_intent : Json → Action IntentView
  create_intent value = do
    expire_due_intents svc
    input ← lift (
        normalize_payment_proposal svc.policy.default_expiry_seconds svc.policy.max_expiry_seconds
          value)
    result ← transaction (create_proposal input)
    view ← get_intent svc result.0
    pure (record view { idempotent_replay = result.1 })
