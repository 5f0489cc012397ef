-- ===== src/Service/Envelopes.antt =====
-- Evidence envelopes: signed statements that a proposal has the human approvals it requires.
-- src/service.ts, `normalizeEnvelopeIssueInput`, `envelopeApprovals` and `envelopeViewFromRow`.
pub mod Store
pub mod Issue
pub mod Verify
pub mod Consume
pub mod Validity
pub mod Total
use parimit.Common.{
  ℕ, Bool, true, false, not, ◌&&◌, ◌||◌, Option, none, some, List, [], ◌∷◌, ltb, ◌==◌,
  if◌then◌else◌, select,
}
use parimit.Text.{Text, lit, text_eq, text_lt}
use parimit.Json.{Json, num, str, arr, obj, Items, nil, cons, get_field}
use parimit.Json.Build.{object}
use parimit.Types.{is_approve, decision_text, reviewer_text}
use parimit.Result.{
  Result, ok, fail, fail_if, ◌>>=◌, ◌>>◌, internal_error, integrity_failure,
  envelope_audience_not_allowed,
}
use parimit.Database.{Database, ApprovalRow, EnvelopeRow, approvals_for}
use parimit.Envelope.{ParsedEnvelope}
use parimit.Envelope.Claims.Decision.{Claims, strict_claims}
use parimit.Service.{Service, digest}
use parimit.Service.Keys.{registry_of, verify_trusted}
use parimit.Service.Payload.{time_json}
use parimit.Service.Validation.{
  require_object, reject_unknown_keys, require_string, require_identifier, require_expiry,
}
use parimit.Service.Integrity.{verify_integrity}

pub record IssueInput : Type 0 where
  pub audience : Text
  pub idempotency_key : Text
  pub expires_in_seconds : ℕ

abbrev issue_keys : List Text
issue_keys = lit "audience" ∷ lit "idempotency_key" ∷ lit "expires_in_seconds" ∷ []

-- `compareCodeUnits` on the times, then on the subjects.
abbrev is_decided_after : ApprovalRow → ApprovalRow → Bool
is_decided_after a b =
    ltb b.created_at a.created_at || (a.created_at == b.created_at && text_lt b.actor_id a.actor_id)

unfoldable pub insert_decided : ApprovalRow → List ApprovalRow → List ApprovalRow
insert_decided a [] = a ∷ []
insert_decided a (b ∷ bs) = if is_decided_after a b then b ∷ insert_decided a bs else a ∷ b ∷ bs

unfoldable pub sort_decided : List ApprovalRow → List ApprovalRow
unfolding insert_decided
sort_decided [] = []
sort_decided (a ∷ rest) = insert_decided a (sort_decided rest)

-- The rows of `envelopeApprovals`.
unfoldable pub approving_rows : Text → Database → List ApprovalRow
approving_rows id db = sort_decided (select (λ a. is_approve a.decision) (approvals_for id db))

-- `EnvelopeView`: what is read of the row, and the flag of a replay.
pub record EnvelopeView : Type 0 where
  pub row : EnvelopeRow
  pub claims : Claims
  pub idempotent_replay : Bool

module _ (svc : Service) where
  -- `normalizeEnvelopeIssueInput`
  unfoldable pub normalize_issue_input : Json → Result IssueInput
  normalize_issue_input value = do
    fs ← require_object (some value)
    reject_unknown_keys issue_keys fs
    audience ← require_string 512 (get_field (lit "audience") fs)
    fail_if (not (text_eq audience svc.envelope_audience)) envelope_audience_not_allowed 403
    ttl ←
        require_expiry svc.envelope_ttl_seconds svc.envelope_ttl_seconds
          (get_field (lit "expires_in_seconds") fs)
    key ← require_identifier (get_field (lit "idempotency_key") fs)
    ok (record { audience = audience; idempotency_key = key; expires_in_seconds = ttl })

  -- The digest of an approval, and its entry among the claims.
  unfoldable pub record_digest : ApprovalRow → Text
  record_digest a = digest svc (
      object (
        (lit "actor_id", str a.actor_id)
        ∷ (lit "actor_role", str (reviewer_text a.actor_role))
        ∷ (lit "decision", str (decision_text a.decision))
        ∷ (lit "intent_hash", str a.intent_hash)
        ∷ (lit "created_at", time_json a.created_at)
        ∷ (lit "receipt_hmac", str a.receipt_hmac)
        ∷ []))

  unfoldable pub approval_json : ApprovalRow → Json
  approval_json a = object (
      (lit "subject", str a.actor_id)
      ∷ (lit "role", str (reviewer_text a.actor_role))
      ∷ (lit "decision", str (lit "APPROVE"))
      ∷ (lit "intent_hash", str a.intent_hash)
      ∷ (lit "decided_at", time_json a.created_at)
      ∷ (lit "record_digest", str (record_digest a))
      ∷ [])

  unfoldable pub approval_items : List ApprovalRow → Items
  approval_items [] = nil
  approval_items (a ∷ rest) = cons (approval_json a) (approval_items rest)

  -- `envelopeApprovals`
  unfoldable pub envelope_approvals : Text → Database → Json
  envelope_approvals id db = arr (approval_items (approving_rows id db))

  abbrev read_strictly : Option Claims → Result Claims
  read_strictly none = fail internal_error 500
  read_strictly (some c) = ok c

  -- The row's hashes and the integrity of its proposal; `||` skips the latter where a hash is wrong.
  unfoldable pub is_view_sound : EnvelopeRow → Claims → Database → Result Bool
  is_view_sound row claims db =
      if text_eq row.claims_hash (digest svc (obj claims.fields))
        && text_eq row.nonce_hash (svc.sha256 claims.nonce)
      then (verify_integrity svc row.intent_id db >>= λ r. ok r.valid)
      else ok false

  -- `envelopeViewFromRow`
  unfoldable pub envelope_view : EnvelopeRow → Bool → Database → Result EnvelopeView
  envelope_view row replay db = do
    parsed ← verify_trusted svc row.compact_jws row.key_id (registry_of db)
    claims ← read_strictly (strict_claims parsed.payload)
    sound ← is_view_sound row claims db
    fail_if (not sound) integrity_failure 500
    ok (record { row = row; claims = claims; idempotent_replay = replay })
