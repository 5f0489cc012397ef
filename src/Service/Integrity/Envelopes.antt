-- ===== src/Service/Integrity/Envelopes.antt =====
-- Each envelope must verify against its key, say what its row says, and be recorded by one event, and
-- by a second one exactly if it is consumed.
use parimit.Common.{
  ℕ, suc, ◌*◌, ◌/◌, Bool, true, false, ◌&&◌, Option, none, some, List, [], ◌∷◌, ◌++◌, ltb, leb,
  ◌==◌, if◌then◌else◌, select, length,
}
use parimit.Text.{Text, lit, text_eq}
use parimit.Json.{Json, null, obj}
use parimit.Time.{to_iso_string}
use parimit.Types.{EventType, evidence_envelope_issued, evidence_envelope_consumed}
use parimit.Result.{Result, ok, err}
use parimit.Database.{EnvelopeRow, AuditRow}
use parimit.Envelope.{ParsedEnvelope}
use parimit.Envelope.Claims.Decision.{Claims, strict_claims}
use parimit.Service.{Service, digest}
use parimit.Service.Keys.{Registry, verify_trusted}
use parimit.Service.Integrity.Failures.{Finding, check}
use parimit.Service.Integrity.Payloads.{member, is_str, is_num, is_bool}

abbrev pub is_issued : EventType → Bool
is_issued evidence_envelope_issued = true
is_issued _ = false

abbrev pub is_consumed : EventType → Bool
is_consumed evidence_envelope_consumed = true
is_consumed _ = false

-- `stringCell` of a column that may be NULL
abbrev pub cell : Option Text → Text
cell none = lit "null"
cell (some t) = t

-- `payload.key === row.column` of such a column
abbrev same_cell : Option Text → Option Json → Bool
same_cell none (some null) = true
same_cell none _ = false
same_cell (some t) v = is_str t v

abbrev same_actor : Option Text → Text → Bool
same_actor none actor = false
same_actor (some t) actor = text_eq actor t

abbrev same_time : Option ℕ → ℕ → Bool
same_time none at = false
same_time (some t) at = at == t

abbrev pub has_value {ℓ} : {A : Type ℓ} → Option A → Bool
has_value none = false
has_value (some a) = true

-- `findIndex` of the event with that sequence number; the event itself is in the list.
unfoldable pub index_of : ℕ → List AuditRow → ℕ
index_of sequence [] = 0
index_of sequence (e ∷ es) = if e.sequence == sequence then 0 else suc (index_of sequence es)

-- What `verifyAuthorizationEnvelopeSignature` and `strictEnvelopeClaims` read.
pub record ReadEnvelope : Type 0 where
  pub parsed : ParsedEnvelope
  pub claims : Claims

abbrev with_claims : ParsedEnvelope → Option Claims → Option ReadEnvelope
with_claims parsed none = none
with_claims parsed (some c) = some (record { parsed = parsed; claims = c })

abbrev with_parsed : Result ParsedEnvelope → Option ReadEnvelope
with_parsed (err e) = none
with_parsed (ok parsed) = with_claims parsed (strict_claims parsed.payload)

-- `consumed_at` is NULL, or in time.
abbrev in_time : EnvelopeRow → Option ℕ → Bool
in_time row none = true
in_time row (some at) = leb row.issued_at at && ltb at row.expires_at

-- The two other columns are NULL exactly if `consumed_at` is.
abbrev agree : Option ℕ → Option Text → Option Text → Bool
agree none none none = true
agree (some at) (some actor) (some key) = true
agree _ _ _ = false

module _ (svc : Service) (id : Text) (registry : Registry) (events : List AuditRow) where
  -- `none` where either throws.
  unfoldable pub read_envelope : EnvelopeRow → Option ReadEnvelope
  read_envelope row = with_parsed (verify_trusted svc row.compact_jws row.key_id registry)

  unfoldable pub is_issue_of : EnvelopeRow → Claims → AuditRow → Bool
  is_issue_of row claims e =
      is_issued e.event_type
      && (is_str row.id (member (lit "envelope_id") e.payload)
          && (is_str row.audience (member (lit "audience") e.payload)
              && (is_num row.state_version (member (lit "state_version") e.payload)
                  && (is_str row.key_id (member (lit "key_id") e.payload)
                      && (is_str row.claims_hash (member (lit "claims_hash") e.payload)
                          && (is_str (svc.sha256 row.compact_jws)
                                (member (lit "jws_digest") e.payload)
                              && (is_str (svc.sha256 row.issuance_idempotency_key)
                                    (member (lit "issuance_idempotency_hash") e.payload)
                                  && (is_str (to_iso_string row.expires_at)
                                        (member (lit "expires_at") e.payload)
                                      && (is_bool false
                                            (member (lit "execution_authorized") e.payload)
                                          && (is_bool false (member (lit "moves_money") e.payload)
                                              && (index_of e.sequence events
                                                    == claims.source_audit.event_count
                                                  && (text_eq e.previous_hash
                                                        claims.source_audit.chain_tip
                                                      && e.occurred_at == row.issued_at))))))))))))

  unfoldable pub is_consumption_of : EnvelopeRow → AuditRow → Bool
  is_consumption_of row e =
      is_consumed e.event_type
      && (is_str row.id (member (lit "envelope_id") e.payload)
          && (is_str row.audience (member (lit "audience") e.payload)
              && (same_cell row.consumed_by (member (lit "consumer_id") e.payload)
                  && (is_str (svc.sha256 (cell row.consumption_idempotency_key))
                        (member (lit "consumption_idempotency_hash") e.payload)
                      && (same_actor row.consumed_by e.actor_id
                          && (same_time row.consumed_at e.occurred_at
                              && (is_num row.state_version (member (lit "state_version") e.payload)
                                  && (is_bool false (member (lit "execution_authorized") e.payload)
                                      && is_bool false
                                          (member (lit "moves_money") e.payload)))))))))

  -- The claims against the row.
  unfoldable pub says_row : EnvelopeRow → ReadEnvelope → Bool
  says_row row r =
      let c = r.claims in
      text_eq c.head.jti row.id
      && (text_eq c.snapshot.id id
          && (text_eq c.head.tenant_id row.tenant_id
              && (text_eq c.head.aud row.audience
                  && (c.decision.state_version == row.state_version
                      && (text_eq r.parsed.kid row.key_id
                          && (text_eq row.claims_hash (digest svc (obj c.fields))
                              && (text_eq row.nonce_hash (svc.sha256 c.nonce)
                                  && (text_eq c.head.issued_text (to_iso_string row.issued_at)
                                      && (row.issued_at / 1000 == c.head.iat
                                          && c.head.exp * 1000 == row.expires_at)))))))))

  unfoldable pub is_envelope_valid : EnvelopeRow → ReadEnvelope → Bool
  is_envelope_valid row r =
      says_row row r
      && (in_time row row.consumed_at
          && (length (select (is_issue_of row r.claims) events) == 1
              && (length (select (is_consumption_of row) events)
                    == (if has_value row.consumed_at then 1 else 0)
                  && agree row.consumed_at row.consumed_by row.consumption_idempotency_key)))

  abbrev row_valid : EnvelopeRow → Option ReadEnvelope → Bool
  row_valid row none = false
  row_valid row (some r) = is_envelope_valid row r

  -- One round of the loop.
  unfoldable pub envelope_finding : EnvelopeRow → List Finding
  envelope_finding row =
      check (row_valid row (read_envelope row)) (lit "ENVELOPE_INTEGRITY_INVALID:" ++ row.id)

  unfoldable pub loop_findings : List EnvelopeRow → List Finding
  loop_findings [] = []
  loop_findings (row ∷ rows) = envelope_finding row ++ loop_findings rows

  -- `consumedEnvelopeCount`: a consumed row counts once its claims are read.
  unfoldable pub counts_consumed : EnvelopeRow → Bool
  counts_consumed row = has_value row.consumed_at && has_value (read_envelope row)

  unfoldable pub envelope_findings : List EnvelopeRow → List Finding
  envelope_findings rows =
      check (length (select (λ e. is_issued e.event_type) events) == length rows)
        (lit "ENVELOPE_AUDIT_COUNT_MISMATCH")
      ++ (loop_findings rows
          ++ check
              (length (select (λ e. is_consumed e.event_type) events)
                == length (select counts_consumed rows))
              (lit "ENVELOPE_CONSUMPTION_AUDIT_COUNT_MISMATCH"))
