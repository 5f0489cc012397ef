-- ===== src/Service/Envelopes/Consume.antt =====
-- `consumeAuthorizationEnvelope`.
use parimit.Common.{
  ℕ, ◌/◌, Bool, true, false, not, ◌||◌, ◌&&◌, Option, none, some, List, [], ◌∷◌, ltb, leb,
  if◌then◌else◌,
}
use parimit.Text.{Text, lit, text_eq, lower}
use parimit.Json.{Json, str}
use parimit.Result.{
  Result, ok, fail, forbidden, envelope_invalid, envelope_replay_detected, envelope_expired,
}
use parimit.Database.{EnvelopeRow}
use parimit.Database.Envelopes.{find_envelope, envelope_row}
use parimit.Exec.{
  Action, ◌>>=◌, ◌>>◌, pure, lift, throw, throw_if, query_result, query_required, execute,
  transaction,
}
use parimit.Envelope.Claims.Decision.{Claims}
use parimit.Service.{Service, now}
use parimit.Service.Validation.{require_identifier, require_string}
use parimit.Service.Integrity.Envelopes.{cell}
use parimit.Service.Envelopes.{EnvelopeView, envelope_view}
use parimit.Service.Envelopes.Store.{store_consumption}
use parimit.Service.Envelopes.Verify.{Verification, verify_authorization_envelope}

unfoldable pub consumer_role : Text → Result (Unit {0})
consumer_role role =
    if text_eq (lower role) (lit "consumer") || text_eq (lower role) (lit "admin")
    then ok tt
    else fail forbidden 403

abbrev pub only_time_failed : List Text → Bool
only_time_failed (f ∷ []) = text_eq f (lit "ENVELOPE_TIME_INVALID")
only_time_failed _ = false

-- `expiredButOtherwiseValid`, in front of the reading of the clock.
unfoldable pub fails_only_time : Verification → Bool
fails_only_time v =
    v.signature_valid
    && (v.claims_valid
        && (v.locally_issued
            && (v.intent_binding_valid && (not v.time_valid && only_time_failed v.failures))))

module _ (svc : Service) where
  -- `&&` reads the clock only where what stands before it holds.
  unfoldable pub is_expired : Verification → Claims → Action Bool
  is_expired v c =
      if fails_only_time v
      then (now svc >>= λ at. pure (leb c.head.exp (at / 1000)))
      else pure false

  unfoldable pub claim_now : EnvelopeRow → Text → Text → Text → Bool → Action (EnvelopeRow × Bool)
  claim_now row audience actor key expired = do
    throw_if expired envelope_expired 409
    at ← now svc
    throw_if (ltb at row.issued_at) envelope_invalid 409
    throw_if (leb row.expires_at at) envelope_expired 409
    execute (store_consumption svc row audience actor key at)
    stored ← query_required (envelope_row row.id)
    pure (stored, false)

  -- The same consumer with the same key gets the row again.
  unfoldable pub replay_claim : EnvelopeRow → Text → Text → Action (EnvelopeRow × Bool)
  replay_claim row actor key =
      if text_eq (cell row.consumed_by) actor && text_eq (cell row.consumption_idempotency_key) key
      then pure (row, true)
      else throw envelope_replay_detected 409

  unfoldable pub claim_or_replay :
      EnvelopeRow → Text → Text → Text → Bool → Option ℕ → Action (EnvelopeRow × Bool)
  claim_or_replay row audience actor key expired (some at) = replay_claim row actor key
  claim_or_replay row audience actor key expired none = claim_now row audience actor key expired

  -- The transaction's work.
  unfoldable pub consume_envelope : Text → Text → Text → Text → Bool → Action (EnvelopeRow × Bool)
  consume_envelope id audience actor key expired = do
    row ← query_required (find_envelope svc.tenant_id id)
    claim_or_replay row audience actor key expired row.consumed_at

  -- What follows the verification.
  unfoldable pub consume_verified :
      Text → Text → Text → Verification → Option Claims → Action EnvelopeView
  consume_verified audience actor key v none = throw envelope_invalid 409
  consume_verified audience actor key v (some c) = do
    expired ← is_expired v c
    throw_if (not v.valid && not expired) envelope_invalid 409
    result ← transaction (consume_envelope c.head.jti audience actor key expired)
    query_result (envelope_view svc result.0 result.1)

  unfoldable pub consume_authorization_envelope :
      Option Json → Option Json → Option Json → Text → Option Json → Action EnvelopeView
  consume_authorization_envelope jws audience actor role key = do
    actor_id ← lift (require_identifier actor)
    lift (consumer_role role)
    expected ← lift (require_string 512 audience)
    key_text ← lift (require_identifier key)
    v ← verify_authorization_envelope svc jws (some (str expected))
    consume_verified expected actor_id key_text v v.claims
