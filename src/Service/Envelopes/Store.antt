-- ===== src/Service/Envelopes/Store.antt =====
-- The writes of `issueAuthorizationEnvelope` and `consumeAuthorizationEnvelope`.
use parimit.Common.{ℕ, ◌+◌, ◌*◌, ◌/◌, Bool, true, false, none, [], ◌∷◌, ◌++◌, ◌==◌, if◌then◌else◌}
use parimit.Text.{Text, lit}
use parimit.Json.{Json, bool, num, str}
use parimit.Json.Build.{object}
use parimit.Types.{
  AuthenticationMode, oidc, demo, evidence_envelope_issued, evidence_envelope_consumed,
}
use parimit.Result.{Result, ok, fail, ◌>>=◌, envelope_replay_detected}
use parimit.Database.{Database, IntentRow, EnvelopeRow}
use parimit.Database.Envelopes.{insert_envelope, claim_envelope}
use parimit.Envelope.{sign_envelope}
use parimit.Envelope.Claims.{notice}
use parimit.Service.{Service, digest}
use parimit.Service.Audit.{append_audit}
use parimit.Service.Payload.{time_json}
use parimit.Service.Envelopes.{IssueInput}

abbrev method_text : AuthenticationMode → Text
method_text oidc = lit "oidc"
method_text demo = lit "local_demo_headers"

abbrev pub is_oidc : AuthenticationMode → Bool
is_oidc oidc = true
is_oidc demo = false

abbrev digest_json : Text → Json
digest_json value = object ((lit "alg", str (lit "sha-256")) ∷ (lit "value", str value) ∷ [])

-- What the claims of a new envelope take from the proposal, its reviews, its chain and the randomness.
pub record Sources : Type 0 where
  pub row : IntentRow
  pub snapshot : Json
  pub policy : Json
  pub approvals : Json
  pub fully_approved_at : ℕ
  pub event_count : ℕ
  pub chain_tip : Text
  pub envelope_id : Text
  pub nonce : Text
  pub issued_at : ℕ

module _ (svc : Service) (input : IssueInput) (s : Sources) where
  -- `requestedExpiryMilliseconds`, and `exp` in seconds
  abbrev pub requested_expiry : ℕ
  requested_expiry = s.issued_at + input.expires_in_seconds * 1000

  abbrev pub exp : ℕ
  exp = requested_expiry / 1000

  abbrev assurance_json : Json
  assurance_json = object (
      (lit "authentication_method", str (method_text svc.authentication_mode))
      ∷ (lit "cryptographically_verified", bool (is_oidc svc.authentication_mode))
      ∷ (lit "trust_domain_id", str svc.identity_trust_domain_id)
      ∷ [])

  abbrev claimed_decision_json : Json
  claimed_decision_json = object (
      (lit "state", str (lit "AUTHORIZED_NO_DISPATCH"))
      ∷ (lit "authorization_state_version", num s.row.state_version)
      ∷ (lit "required_approvals", num s.row.required_approvals)
      ∷ (lit "fully_approved_at", time_json s.fully_approved_at)
      ∷ (lit "approval_set_digest", digest_json (digest svc s.approvals))
      ∷ (lit "approvals", s.approvals)
      ∷ [])

  abbrev capability_json : Json
  capability_json = object (
      (lit "kind", str (lit "EVIDENCE_ONLY"))
      ∷ (lit "payment_dispatch_authorized", bool false)
      ∷ (lit "execution_authorized", bool false)
      ∷ (lit "provider_instruction", bool false)
      ∷ (lit "moves_money", bool false)
      ∷ [])

  -- `claims`
  unfoldable pub claims_json : Json
  claims_json = object (
      (lit "version", str (lit "parimit-authorization-envelope-v1"))
      ∷ (lit "iss", str svc.envelope_issuer)
      ∷ (lit "sub", str (lit "urn:parimit:intent:" ++ s.row.id))
      ∷ (lit "aud", str input.audience)
      ∷ (lit "jti", str s.envelope_id)
      ∷ (lit "iat", num (s.issued_at / 1000))
      ∷ (lit "nbf", num (s.issued_at / 1000))
      ∷ (lit "exp", num exp)
      ∷ (lit "issued_at", time_json s.issued_at)
      ∷ (lit "tenant_id", str svc.tenant_id)
      ∷ (lit "identity_assurance", assurance_json)
      ∷ (
        lit "intent",
        object ((lit "snapshot", s.snapshot) ∷ (lit "digest", digest_json s.row.intent_hash) ∷ []),
      )
      ∷ (lit "policy_digest", digest_json (digest svc s.policy))
      ∷ (lit "decision", claimed_decision_json)
      ∷ (lit "replay", object ((lit "nonce", str s.nonce) ∷ (lit "use_limit", num 1) ∷ []))
      ∷ (
        lit "source_audit",
        object ((lit "event_count", num s.event_count) ∷ (lit "chain_tip", str s.chain_tip) ∷ []),
      )
      ∷ (lit "capability", capability_json)
      ∷ (lit "notice", str notice)
      ∷ [])

  unfoldable pub compact_jws : Text
  compact_jws = sign_envelope svc.platform claims_json svc.envelope_key_id

  unfoldable pub new_envelope : EnvelopeRow
  new_envelope = record {
    id = s.envelope_id;
    intent_id = s.row.id;
    tenant_id = svc.tenant_id;
    state_version = s.row.state_version;
    audience = input.audience;
    issuance_idempotency_key = input.idempotency_key;
    key_id = svc.envelope_key_id;
    compact_jws = compact_jws;
    claims_hash = digest svc claims_json;
    nonce_hash = svc.sha256 s.nonce;
    issued_at = s.issued_at;
    expires_at = exp * 1000;
    consumed_at = none;
    consumed_by = none;
    consumption_idempotency_key = none;
  }

  abbrev pub issued_json : Json
  issued_json = object (
      (lit "envelope_id", str s.envelope_id)
      ∷ (lit "audience", str input.audience)
      ∷ (lit "state_version", num s.row.state_version)
      ∷ (lit "key_id", str svc.envelope_key_id)
      ∷ (lit "claims_hash", str (digest svc claims_json))
      ∷ (lit "jws_digest", str (svc.sha256 compact_jws))
      ∷ (lit "issuance_idempotency_hash", str (svc.sha256 input.idempotency_key))
      ∷ (lit "expires_at", time_json (exp * 1000))
      ∷ (lit "execution_authorized", bool false)
      ∷ (lit "moves_money", bool false)
      ∷ [])

  -- The row, and the event that records it.
  unfoldable pub store_envelope : Text → Database → Result Database
  store_envelope actor db = do
    db' ← insert_envelope new_envelope db
    append_audit svc s.row.id evidence_envelope_issued actor issued_json s.issued_at db'

-- The UPDATE under its guard; `ENVELOPE_REPLAY_DETECTED` if not one row changed.
unfoldable pub claim_once : Service → Text → ℕ → Text → Text → Database → Result Database
claim_once svc id at actor key db =
    let (db', changes) = claim_envelope svc.tenant_id id at actor key db in
    if changes == 1 then ok db' else fail envelope_replay_detected 409

module _ (svc : Service) (row : EnvelopeRow) (audience actor key : Text) (at : ℕ) where
  abbrev pub consumed_json : Json
  consumed_json = object (
      (lit "envelope_id", str row.id)
      ∷ (lit "audience", str audience)
      ∷ (lit "consumer_id", str actor)
      ∷ (lit "consumption_idempotency_hash", str (svc.sha256 key))
      ∷ (lit "state_version", num row.state_version)
      ∷ (lit "execution_authorized", bool false)
      ∷ (lit "moves_money", bool false)
      ∷ [])

  unfoldable pub store_consumption : Database → Result Database
  store_consumption db = do
    db' ← claim_once svc row.id at actor key db
    append_audit svc row.intent_id evidence_envelope_consumed actor consumed_json at db'
