-- ===== src/Service/Envelopes/Verify.antt =====
-- `verifyAuthorizationEnvelope`.
use parimit.Common.{
  ℕ, ◌-◌, ◌/◌, Bool, true, false, not, ◌&&◌, Option, none, some, List, [], ◌∷◌, ◌++◌, ltb, leb,
  ◌==◌, select, length,
}
use parimit.Text.{Text, lit, text_eq}
use parimit.Json.{Json, str, obj}
use parimit.Json.Canonical.{canonical_json}
use parimit.Types.{is_v3, is_authorized}
use parimit.Result.{Result, ok, err}
use parimit.Database.{Database, IntentRow, EnvelopeRow, AuditRow, find_intent, events_for}
use parimit.Database.Envelopes.{find_envelope}
use parimit.Exec.{Action, ◌>>=◌, pure, query}
use parimit.Envelope.{ParsedEnvelope, parse_envelope}
use parimit.Envelope.Claims.Decision.{Claims, strict_claims, values_of}
use parimit.Service.{Service, digest, now}
use parimit.Service.Keys.{registry_of, verify_trusted}
use parimit.Service.Payload.{intent_payload_from_row}
use parimit.Service.Integrity.{verify_integrity}
use parimit.Service.Integrity.Failures.{Report}
use parimit.Service.Integrity.Payloads.{member, is_str}
use parimit.Service.Integrity.Envelopes.{is_issued, cell}
use parimit.Service.Envelopes.{envelope_approvals}
use parimit.Service.Envelopes.Store.{is_oidc}

pub data Consumption : Type 0 where
  unconsumed : Consumption
  consumed : ℕ → Text → Consumption

abbrev pub consumption_of : Option ℕ → Option Text → Consumption
consumption_of none by = unconsumed
consumption_of (some at) by = consumed at (cell by)

pub record Verification : Type 0 where
  pub valid : Bool
  pub signature_valid : Bool
  pub claims_valid : Bool
  pub time_valid : Bool
  pub locally_issued : Bool
  pub intent_binding_valid : Bool
  pub consumption : Option Consumption
  pub claims : Option Claims
  pub failures : List Text

-- `result` as it is returned early, with the one failure.
abbrev pub refused : Bool → Text → Verification
refused signature failure = record {
  valid = false;
  signature_valid = signature;
  claims_valid = false;
  time_valid = false;
  locally_issued = false;
  intent_binding_valid = false;
  consumption = none;
  claims = none;
  failures = failure ∷ [];
}

-- `if (!condition) failures.push(failure)`
abbrev pub failing : Bool → Text → List Text
failing true failure = []
failing false failure = failure ∷ []

abbrev pub same_flag : Bool → Bool → Bool
same_flag true b = b
same_flag false b = not b

-- How far the signature and the schema could be read.
pub data Reading : Type 0 where
  unsigned : Reading
  signed : Reading
  complete : Claims → Reading

abbrev with_schema : Option Claims → Reading
with_schema none = signed
with_schema (some c) = complete c

abbrev with_signature : Result ParsedEnvelope → Reading
with_signature (err e) = unsigned
with_signature (ok parsed) = with_schema (strict_claims parsed.payload)

module _ (svc : Service) (jws : Text) where
  abbrev with_key : Option ParsedEnvelope → Database → Reading
  with_key none db = unsigned
  with_key (some parsed) db = with_signature (verify_trusted svc jws parsed.kid (registry_of db))

  -- The `try` block: any throw refuses the envelope.
  unfoldable pub read_signed : Database → Reading
  read_signed db = with_key (parse_envelope svc.platform jws) db

  module _ (c : Claims) where
    unfoldable pub is_time_valid : ℕ → Bool
    is_time_valid now_seconds =
        leb c.head.iat c.head.nbf
        && (leb c.head.nbf now_seconds
            && (ltb now_seconds c.head.exp
                && (leb 1 (c.head.exp - c.head.iat)
                    && leb (c.head.exp - c.head.iat) svc.envelope_ttl_seconds)))

    abbrev pub audience_matches : Option Json → Bool
    audience_matches (some (str t)) = text_eq t c.head.aud && text_eq t svc.envelope_audience
    audience_matches _ = false

    -- The stored row holds this very artifact.
    unfoldable pub is_artifact : EnvelopeRow → Bool
    is_artifact row =
        text_eq row.compact_jws jws
        && (text_eq row.claims_hash (digest svc (obj c.fields))
            && text_eq row.nonce_hash (svc.sha256 c.nonce))

    abbrev pub is_local : Option EnvelopeRow → Bool
    is_local none = false
    is_local (some row) = is_artifact row

    abbrev stored_consumption : Option EnvelopeRow → Option Consumption
    stored_consumption none = none
    stored_consumption (some row) = some (consumption_of row.consumed_at row.consumed_by)

    unfoldable pub is_issue_event : AuditRow → Bool
    is_issue_event e =
        is_issued e.event_type
        && (is_str c.head.jti (member (lit "envelope_id") e.payload)
            && (is_str (digest svc (obj c.fields)) (member (lit "claims_hash") e.payload)
                && is_str (svc.sha256 jws) (member (lit "jws_digest") e.payload)))

    abbrev same_json : Option Json → Json → Bool
    same_json none v = false
    same_json (some u) v = text_eq (canonical_json u) (canonical_json v)

    abbrev hashes_to : Option Json → Text → Bool
    hashes_to none t = false
    hashes_to (some v) t = text_eq (digest svc v) t

    unfoldable pub is_bound : IntentRow → Report → Database → Bool
    is_bound row report db =
        let id = c.snapshot.id in
        let approvals = envelope_approvals svc id db in
        report.valid
        && (is_v3 row.intent_version
            && (is_authorized row.status
                && (text_eq row.tenant_id c.head.tenant_id
                    && (same_flag c.assurance.is_oidc (is_oidc svc.authentication_mode)
                        && (text_eq c.assurance.trust_domain_id svc.identity_trust_domain_id
                            && (text_eq row.intent_hash c.intent_digest
                                && (row.state_version == c.decision.state_version
                                    && (same_json (intent_payload_from_row svc row)
                                          (obj c.snapshot.fields)
                                        && (hashes_to (intent_payload_from_row svc row)
                                              c.intent_digest
                                            && (text_eq (digest svc (obj c.snapshot.policy))
                                                  c.policy_digest
                                                && (text_eq (canonical_json approvals) (
                                                      canonical_json
                                                        (values_of c.decision.approvals))
                                                    && (text_eq (digest svc approvals)
                                                          c.decision.approval_set_digest
                                                        && (text_eq c.head.sub
                                                            (lit "urn:parimit:intent:" ++ id)
                                                            && length (
                                                            select is_issue_event
                                                            (events_for id db))
                                                            == 1)))))))))))))

    abbrev pub with_report : Option IntentRow → Result Report → Database → Bool
    with_report (some row) (ok report) db = is_bound row report db
    with_report _ _ db = false

    -- The second `try` block: false where it throws.
    unfoldable pub is_binding_valid : Database → Bool
    is_binding_valid db =
        with_report (find_intent svc.tenant_id c.snapshot.id db)
          (verify_integrity svc c.snapshot.id db) db

    -- The rest, at the time that the clock gives.
    unfoldable pub judge : Option Json → ℕ → Database → Verification
    judge audience at db =
        let stored = find_envelope svc.tenant_id c.head.jti db in
        let time = is_time_valid (at / 1000) in
        let local = is_local stored in
        let bound = is_binding_valid db in
        let failures =
          failing time (lit "ENVELOPE_TIME_INVALID")
          ++ (failing (text_eq c.head.iss svc.envelope_issuer) (lit "ISSUER_MISMATCH")
              ++ (failing (audience_matches audience) (lit "AUDIENCE_MISMATCH")
                  ++ (failing (text_eq c.head.tenant_id svc.tenant_id) (lit "TENANT_MISMATCH")
                      ++ (failing local (lit "LOCAL_ISSUANCE_NOT_PROVEN")
                          ++ failing bound (lit "INTENT_BINDING_INVALID"))))) in
        record {
          valid = time && (local && (bound && length failures == 0));
          signature_valid = true;
          claims_valid = true;
          time_valid = time;
          locally_issued = local;
          intent_binding_valid = bound;
          consumption = stored_consumption stored;
          claims = some c;
          failures = failures;
        }

-- The clock is read only where the claims could be read.
unfoldable pub judge_reading : Service → Text → Option Json → Reading → Action Verification
judge_reading svc jws audience unsigned = pure (refused false (lit "SIGNATURE_OR_SCHEMA_INVALID"))
judge_reading svc jws audience signed = pure (refused true (lit "SIGNATURE_OR_SCHEMA_INVALID"))
judge_reading svc jws audience (complete c) = do at ← now svc; query (judge svc jws c audience at)

unfoldable pub verify_authorization_envelope :
    Service → Option Json → Option Json → Action Verification
verify_authorization_envelope svc (some (str jws)) audience = do
  reading ← query (read_signed svc jws)
  judge_reading svc jws audience reading
verify_authorization_envelope svc _ audience = pure (refused false (lit "ENVELOPE_NOT_STRING"))
