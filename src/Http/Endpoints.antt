-- ===== src/Http/Endpoints.antt =====
-- What an endpoint does for an authenticated actor.
use parimit.Common.{ℕ, Bool, true, false, not, Option, some, [], ◌∷◌}
use parimit.Text.{Text, lit}
use parimit.Json.{Json, str, get_field}
use parimit.Types.{AuthenticationMode, oidc, demo}
use parimit.Result.{Result, fail_if, validation_error, forbidden}
use parimit.Exec.{Action, ◌>>=◌, ◌>>◌, pure, lift, throw, query_result}
use parimit.Service.{Service}
use parimit.Service.Integrity.{verify_integrity}
use parimit.Service.Methods.Read.{
  get_intent, get_audit, assert_intent_owned_by_agent, evaluate_policy,
}
use parimit.Service.Methods.Listing.Query.{list_intents}
use parimit.Service.Methods.Create.{create_intent}
use parimit.Service.Methods.Review.{approve_intent}
use parimit.Service.Methods.Cancel.{cancel_intent}
use parimit.Service.Methods.Simulate.{record_mock_observation}
use parimit.Service.Envelopes.Issue.{issue_authorization_envelope}
use parimit.Service.Envelopes.Verify.{verify_authorization_envelope}
use parimit.Service.Envelopes.Consume.{consume_authorization_envelope}
use parimit.Auth.{ActorRole, agent, approver, consumer, admin, role_text, AuthenticatedActor}
use parimit.Http.{
  Platform, Request, Payload, identity, intent, intents, policy, audit, report, envelope,
  verification, Response,
}
use parimit.Http.Routes.{
  Endpoint, show_identity, create, list, simulate, verify, consume, observe, read, cancel, approve,
  issue, read_audit, verify_audit, decode_path_segment,
}
use parimit.Http.Body.{read_json, require_json_object, require_role, authenticated_proposal}
use parimit.Http.Query.{status_filter, limit_filter, agent_filter}

abbrev pub is_demo : AuthenticationMode → Bool
is_demo demo = true
is_demo oidc = false

abbrev respond_with : ℕ → Bool → Payload → Action Response
respond_with status warned payload =
    pure (record { status = status; payload = payload; warned = warned })

-- 200 where the request was served before, 201 otherwise.
abbrev created : Bool → ℕ
created true = 200
created false = 201

abbrev strings_only : Option Json → Option Json → Bool
strings_only (some (str jws)) (some (str audience)) = true
strings_only _ _ = false

module _ (svc : Service) (http : Platform) (r : Request) (actor : AuthenticatedActor) where
  abbrev warning : Bool
  warning = is_demo actor.authentication_method

  abbrev actor_json : Option Json
  actor_json = some (str actor.actor_id)

  abbrev body : Result Json
  body = read_json http svc.platform.parse_json r.body

  -- `authorizeIntentRead`
  unfoldable pub authorize_read : ActorRole → Text → Action (Unit {0})
  authorize_read consumer id = throw forbidden 403
  authorize_read agent id = assert_intent_owned_by_agent svc id actor_json
  authorize_read role id = pure tt

  unfoldable pub serve_create : Action Response
  serve_create = do
    value ← lift body
    proposal ← lift (authenticated_proposal actor value)
    view ← create_intent svc proposal
    respond_with (created view.idempotent_replay) false (intent view)

  unfoldable pub serve_list : Action Response
  serve_list = do
    lift (require_role (agent ∷ approver ∷ admin ∷ []) actor)
    status ← lift (status_filter r.status)
    limit ← lift (limit_filter http r.limit)
    agent_id ← lift (agent_filter actor r.agent_id)
    views ← list_intents svc agent_id status limit
    respond_with 200 false (intents views)

  unfoldable pub serve_simulate : Action Response
  serve_simulate = do
    value ← lift body
    proposal ← lift (authenticated_proposal actor value)
    decision ← evaluate_policy svc proposal
    respond_with 200 false (policy decision)

  unfoldable pub serve_observe : Text → Action Response
  serve_observe segment = do
    lift (require_role (admin ∷ []) actor)
    value ← lift body
    fs ← lift (require_json_object (lit "status" ∷ lit "provider_reference" ∷ []) (some value))
    id ← lift (decode_path_segment http segment)
    view ←
        record_mock_observation svc id (get_field (lit "status") fs)
          (get_field (lit "provider_reference") fs) actor.actor_id
    respond_with 200 true (intent view)

  unfoldable pub serve_verify : Action Response
  serve_verify = do
    lift (require_role (approver ∷ consumer ∷ admin ∷ []) actor)
    value ← lift body
    fs ← lift (require_json_object (lit "compact_jws" ∷ lit "audience" ∷ []) (some value))
    lift (
        fail_if
          (not (strings_only (get_field (lit "compact_jws") fs) (get_field (lit "audience") fs)))
          validation_error 400)
    v ←
        verify_authorization_envelope svc (get_field (lit "compact_jws") fs)
          (get_field (lit "audience") fs)
    respond_with 200 false (verification v)

  unfoldable pub serve_consume : Action Response
  serve_consume = do
    lift (require_role (consumer ∷ admin ∷ []) actor)
    value ← lift body
    fs ← lift (
        require_json_object (lit "compact_jws" ∷ lit "audience" ∷ lit "idempotency_key" ∷ [])
          (some value))
    view ←
        consume_authorization_envelope svc (get_field (lit "compact_jws") fs)
          (get_field (lit "audience") fs) actor_json (role_text actor.actor_role)
          (get_field (lit "idempotency_key") fs)
    respond_with 200 warning (envelope view)

  unfoldable pub serve_approve : Text → Action Response
  serve_approve id = do
    lift (require_role (approver ∷ admin ∷ []) actor)
    value ← lift body
    fs ← lift (require_json_object (lit "decision" ∷ []) (some value))
    view ←
        approve_intent svc id actor_json (role_text actor.actor_role)
          (get_field (lit "decision") fs)
    respond_with 200 warning (intent view)

  unfoldable pub serve_issue : Text → Action Response
  serve_issue id = do
    lift (require_role (approver ∷ admin ∷ []) actor)
    value ← lift body
    view ← issue_authorization_envelope svc id value actor_json (role_text actor.actor_role)
    respond_with (created view.idempotent_replay) warning (envelope view)

  unfoldable pub serve_read : Text → Action Response
  serve_read id = do
    authorize_read actor.actor_role id
    view ← get_intent svc id
    respond_with 200 false (intent view)

  unfoldable pub serve_endpoint : Endpoint → Action Response
  serve_endpoint show_identity = respond_with 200 warning (identity actor)
  serve_endpoint create = serve_create
  serve_endpoint list = serve_list
  serve_endpoint simulate = serve_simulate
  serve_endpoint (observe segment) = serve_observe segment
  serve_endpoint verify = serve_verify
  serve_endpoint consume = serve_consume
  serve_endpoint (read id) = serve_read id
  serve_endpoint (cancel id) = do
    view ← cancel_intent svc id actor_json (role_text actor.actor_role)
    respond_with 200 warning (intent view)
  serve_endpoint (approve id) = serve_approve id
  serve_endpoint (issue id) = serve_issue id
  serve_endpoint (read_audit id) = do
    authorize_read actor.actor_role id
    events ← get_audit svc id
    respond_with 200 false (audit events)
  serve_endpoint (verify_audit id) = do
    authorize_read actor.actor_role id
    found ← query_result (verify_integrity svc id)
    respond_with 200 false (report found)
