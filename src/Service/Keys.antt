-- ===== src/Service/Keys.antt =====
-- src/service.ts, the registry of envelope verification keys: each key is attested by the receipt
-- secret, and a checkpoint in `service_metadata` protects their list.
use parimit.Common.{
  ℕ, Bool, false, not, Option, none, some, List, [], ◌∷◌, all, find, if◌then◌else◌,
}
use parimit.Text.{Text, lit, text_eq, text_lt}
use parimit.Json.{Json, str, arr, obj, Items, nil, cons}
use parimit.Json.Build.{object}
use parimit.Result.{
  Result, ok, fail, fail_if, required, ◌>>=◌, ◌>>◌, signing_key_integrity_failure, internal_error,
}
use parimit.Database.{Database, SigningKeyRow}
use parimit.Envelope.{ParsedEnvelope, verify_envelope}
use parimit.Service.{Service, hmac_sha256}
use parimit.Service.Payload.{time_json}

-- `signingKeyAttestationPayload`
unfoldable pub attestation_payload : Text → Json → ℕ → Json
attestation_payload key_id jwk created_at = object (
    (lit "version", str (lit "parimit-envelope-signing-key-v1"))
    ∷ (lit "key_id", str key_id)
    ∷ (lit "public_jwk", jwk)
    ∷ (lit "created_at", time_json created_at)
    ∷ [])

-- `keys` of the registry's payload; `none` where `JSON.parse` throws.
abbrev key_json : SigningKeyRow → Json → Json
key_json row jwk = object (
    (lit "key_id", str row.key_id)
    ∷ (lit "public_jwk", jwk)
    ∷ (lit "created_at", time_json row.created_at)
    ∷ (lit "attestation_hmac", str row.attestation_hmac)
    ∷ [])

abbrev with_key : SigningKeyRow → Option Json → Option Items → Option Items
with_key row (some jwk) (some rest) = some (cons (key_json row jwk) rest)
with_key row _ _ = none

unfoldable pub key_items : List SigningKeyRow → Option Items
key_items [] = some nil
key_items (row ∷ rows) = with_key row row.public_jwk (key_items rows)

-- `envelopeSigningKeyRegistryStatePayload`
unfoldable pub registry_payload : Items → Json
registry_payload keys = object (
    (lit "version", str (lit "parimit-envelope-signing-key-registry-state-v1"))
    ∷ (lit "keys", arr keys)
    ∷ [])

-- The rows of `envelope_signing_keys` in the order of their ids, and the checkpoint.
pub record Registry : Type 0 where
  pub keys : List SigningKeyRow
  pub state : Option Text

-- `ORDER BY key_id`
unfoldable pub insert_key : SigningKeyRow → List SigningKeyRow → List SigningKeyRow
insert_key row [] = row ∷ []
insert_key row (k ∷ ks) =
    if text_lt k.key_id row.key_id then k ∷ insert_key row ks else row ∷ k ∷ ks

unfoldable pub order_keys : List SigningKeyRow → List SigningKeyRow
order_keys [] = []
order_keys (k ∷ ks) = insert_key k (order_keys ks)

-- `envelopeSigningKeyRows`, with the checkpoint.
abbrev pub registry_of : Database → Registry
registry_of db = record { keys = order_keys db.signing_keys; state = db.registry_state }

module _ (svc : Service) where
  abbrev attested : SigningKeyRow → Option Json → Bool
  attested row none = false
  attested row (some jwk) =
      text_eq (hmac_sha256 svc (attestation_payload row.key_id jwk row.created_at))
        row.attestation_hmac

  -- `validateEnvelopeSigningKeyRows`, on one row.
  unfoldable pub is_attested : SigningKeyRow → Bool
  is_attested row = attested row row.public_jwk

  abbrev matches_state : Option Text → Option Items → Bool
  matches_state (some value) (some keys) = text_eq value (hmac_sha256 svc (registry_payload keys))
  matches_state _ _ = false

  -- `assertEnvelopeSigningKeyRegistryState`
  unfoldable pub is_checkpoint : Option Text → List SigningKeyRow → Bool
  is_checkpoint state rows = matches_state state (key_items rows)

  -- `validatedEnvelopeSigningKeyRows`
  unfoldable pub validated_keys : Registry → Result (List SigningKeyRow)
  validated_keys r = do
    fail_if (not (all is_attested r.keys)) signing_key_integrity_failure 500
    fail_if (not (is_checkpoint r.state r.keys)) signing_key_integrity_failure 500
    ok r.keys

  -- `trustedEnvelopePublicJwk`
  unfoldable pub trusted_jwk : Text → Registry → Result Json
  trusted_jwk key_id r = do
    rows ← validated_keys r
    row ← required (find (λ k. text_eq k.key_id key_id) rows)
    required row.public_jwk

  abbrev verified : Option ParsedEnvelope → Result ParsedEnvelope
  verified none = fail internal_error 500
  verified (some parsed) = ok parsed

  abbrev with_jwk : Text → Json → Result ParsedEnvelope
  with_jwk jws (obj jwk) = verified (verify_envelope svc.platform jws jwk)
  with_jwk jws _ = fail internal_error 500

  -- `verifyAuthorizationEnvelopeSignature(jws, this.trustedEnvelopePublicJwk(keyId))`; a TypeError is
  -- an internal error.
  unfoldable pub verify_trusted : Text → Text → Registry → Result ParsedEnvelope
  verify_trusted jws key_id r = do jwk ← trusted_jwk key_id r; with_jwk jws jwk
