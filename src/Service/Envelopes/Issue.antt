-- ===== src/Service/Envelopes/Issue.antt =====
-- `issueAuthorizationEnvelope`.
use parimit.Common.{
  ℕ, ◌+◌, ◌-◌, ◌*◌, Bool, true, false, not, ◌||◌, Option, none, some, ltb, leb, ◌==◌, if◌then◌else◌,
  length, last,
}
use parimit.Text.{Text, lit, text_eq, lower}
use parimit.Json.{Json, obj}
use parimit.Types.{ReviewerRole, approver, admin, is_v3, is_authorized}
use parimit.Result.{
  Result, ok, fail, forbidden, envelope_requires_v3_intent, invalid_state, idempotency_conflict,
  internal_error, envelope_expiry_exceeds_intent, integrity_failure, envelope_invalid,
}
use parimit.Database.{IntentRow, ApprovalRow, EnvelopeRow, AuditRow, find_intent, events_for}
use parimit.Database.Envelopes.{find_issued, envelope_row}
use parimit.Exec.{
  Action, ◌>>=◌, ◌>>◌, pure, lift, throw_if, query, query_result, query_required, execute,
  transaction,
}
use parimit.Envelope.{ParsedEnvelope, parse_envelope}
use parimit.Envelope.Base64.{to_base64url}
use parimit.Envelope.Claims.Decision.{Claims, strict_claims}
use parimit.Service.{Service, now, random_uuid, random_bytes}
use parimit.Service.Payload.{intent_payload_from_row}
use parimit.Service.Validation.{require_identifier}
use parimit.Service.Integrity.{assert_stored_integrity}
use parimit.Service.Integrity.Payloads.{member}
use parimit.Service.Integrity.Envelopes.{has_value}
use parimit.Service.Envelopes.{
  IssueInput, EnvelopeView, normalize_issue_input, approving_rows, envelope_approvals,
  envelope_view,
}
use parimit.Service.Envelopes.Store.{Sources, claims_json, store_envelope}

unfoldable pub issuer_role : Text → Result ReviewerRole
issuer_role role =
    if text_eq (lower role) (lit "approver")
    then ok approver
    else if text_eq (lower role) (lit "admin")
    then ok admin
    else fail forbidden 403

abbrev hash_of : Option AuditRow → Text
hash_of none = lit "null"
hash_of (some e) = e.event_hash

-- `approvals.at(-1)!.decided_at`
abbrev final_time : Option ApprovalRow → Result ℕ
final_time none = fail internal_error 500
final_time (some a) = ok a.created_at

-- Where JSON.parse throws, or canonicalJson refuses `undefined`.
abbrev present : Option Json → Result Json
present none = fail internal_error 500
present (some v) = ok v

abbrev claims_of : Option Claims → Result Claims
claims_of none = fail internal_error 500
claims_of (some c) = ok c

abbrev with_payload : Option ParsedEnvelope → Result Claims
with_payload none = fail internal_error 500
with_payload (some parsed) = claims_of (strict_claims parsed.payload)

abbrev readable : Json → Bool
readable (obj fs) = has_value (strict_claims fs)
readable _ = false

module _ (svc : Service) where
  -- The lifetime must end before the proposal's deadline.
  unfoldable pub exceeds_intent : IssueInput → IntentRow → ℕ → Bool
  exceeds_intent input row at =
      leb row.expires_at at || ltb row.expires_at (at + input.expires_in_seconds * 1000)

  -- An envelope that was issued before answers the same request.
  unfoldable pub replay_issue : IssueInput → EnvelopeRow → Action (EnvelopeRow × Bool)
  replay_issue input existing = do
    throw_if (not (text_eq existing.issuance_idempotency_key input.idempotency_key))
        idempotency_conflict 409
    claims ← lift (with_payload (parse_envelope svc.platform existing.compact_jws))
    throw_if (not (claims.head.exp - claims.head.iat == input.expires_in_seconds))
        idempotency_conflict 409
    pure (existing, true)

  -- What the claims are made of.
  unfoldable pub gather : Text → IntentRow → ℕ → ℕ → Action Sources
  gather id row fully_at at = do
    approvals ← query (envelope_approvals svc id)
    events ← query (events_for id)
    snapshot ← lift (present (intent_payload_from_row svc row))
    policy ← lift (present (member (lit "policy") (some snapshot)))
    envelope_id ← random_uuid svc
    nonce ← random_bytes svc
    pure (record {
      row = row;
      snapshot = snapshot;
      policy = policy;
      approvals = approvals;
      fully_approved_at = fully_at;
      event_count = length events;
      chain_tip = hash_of (last events);
      envelope_id = envelope_id;
      nonce = to_base64url nonce;
      issued_at = at;
    })

  unfoldable pub issue_new : Text → IssueInput → IntentRow → Text → Action (EnvelopeRow × Bool)
  issue_new id input row actor = do
    at ← now svc
    throw_if (exceeds_intent input row at) envelope_expiry_exceeds_intent 409
    approvals ← query (approving_rows id)
    throw_if (not (length approvals == row.required_approvals)) integrity_failure 500
    fully_at ← lift (final_time (last approvals))
    throw_if (ltb at fully_at) envelope_invalid 409
    s ← gather id row fully_at at
    throw_if (not (readable (claims_json svc input s))) integrity_failure 500
    execute (store_envelope svc input s actor)
    stored ← query_required (envelope_row s.envelope_id)
    pure (stored, false)

  unfoldable pub issue_or_replay :
      Text → IssueInput → IntentRow → Text → Option EnvelopeRow → Action (EnvelopeRow × Bool)
  issue_or_replay id input row actor (some existing) = replay_issue input existing
  issue_or_replay id input row actor none = issue_new id input row actor

  -- The transaction's work.
  unfoldable pub issue_envelope : Text → IssueInput → Text → Action (EnvelopeRow × Bool)
  issue_envelope id input actor = do
    row ← query_required (find_intent svc.tenant_id id)
    query_result (assert_stored_integrity svc row)
    throw_if (not (is_v3 row.intent_version)) envelope_requires_v3_intent 409
    throw_if (not (is_authorized row.status)) invalid_state 409
    existing ← query (find_issued svc.tenant_id id row.state_version input.audience)
    issue_or_replay id input row actor existing

  unfoldable pub issue_authorization_envelope :
      Text → Json → Option Json → Text → Action EnvelopeView
  issue_authorization_envelope id value actor role = do
    input ← lift (normalize_issue_input svc value)
    actor_id ← lift (require_identifier actor)
    lift (issuer_role role)
    result ← transaction (issue_envelope id input actor_id)
    query_result (envelope_view svc result.0 result.1)
