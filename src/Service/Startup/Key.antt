-- ===== src/Service/Startup/Key.antt =====
-- src/service.ts, the parts of `registerEnvelopeSigningKey`, and `envelopeJwks`. The text of a stored key is taken to be canonical, as each write makes it.
use parimit.Common.{ℕ, not, ◌||◌, Option, none, some, List, [], ◌∷◌, ◌++◌, any, if◌then◌else◌}
use parimit.Text.{Text, text_eq}
use parimit.Json.{Json}
use parimit.Json.Canonical.{canonical_json}
use parimit.Result.{
  Result, ok, err, fail, fail_if, internal_error, constraint_violation,
  signing_key_integrity_failure, signing_key_conflict, ◌>>=◌, ◌>>◌,
}
use parimit.Database.{Database, SigningKeyRow}
use parimit.Service.{Service, hmac_sha256}
use parimit.Service.Keys.{attestation_payload, registry_of, order_keys, validated_keys}
use parimit.Service.Startup.{validate_key_rows, registry_state}

abbrev pub cons_jwk : Option Json → Result (List Json) → Result (List Json)
cons_jwk (some jwk) (ok jwks) = ok (jwk ∷ jwks)
cons_jwk none jwks = fail internal_error 500
cons_jwk (some jwk) (err e) = err e

-- `JSON.parse` throws on a malformed key.
unfoldable pub jwks_of : List SigningKeyRow → Result (List Json)
jwks_of [] = ok []
jwks_of (row ∷ rows) = cons_jwk row.public_jwk (jwks_of rows)

module _ (svc : Service) where
  -- `envelopeJwks`
  unfoldable pub envelope_jwks : Database → Result (List Json)
  envelope_jwks db = do rows ← validated_keys svc (registry_of db); jwks_of rows

  -- `UPDATE service_metadata SET value = ? WHERE name = ?`, which has to change one row.
  abbrev pub update_state : Option Text → Text → Database → Result Database
  update_state none state db = fail signing_key_integrity_failure 500
  update_state (some old) state db = ok (record db { registry_state = some state })

  -- `updatedRows` are checked before the checkpoint is renewed.
  unfoldable pub store_checked : SigningKeyRow → Database → List SigningKeyRow → Result Database
  store_checked row db updated = do
    validate_key_rows svc signing_key_integrity_failure updated
    state ← registry_state svc updated
    update_state db.registry_state state (record db { signing_keys = db.signing_keys ++ row ∷ [] })

  -- The `INSERT` under its PRIMARY KEY, and the new checkpoint.
  unfoldable pub store_key : SigningKeyRow → Database → Result Database
  store_key row db =
      if any (λ k. text_eq k.key_id row.key_id) db.signing_keys
      then fail constraint_violation 500
      else store_checked row db (order_keys (db.signing_keys ++ row ∷ []))

  module _ (public_jwk : Json) where
    unfoldable pub new_key : ℕ → SigningKeyRow
    new_key created_at = record {
      key_id = svc.envelope_key_id;
      public_jwk = some public_jwk;
      created_at = created_at;
      attestation_hmac =
          hmac_sha256 svc (attestation_payload svc.envelope_key_id public_jwk created_at);
    }

    abbrev pub same_key : SigningKeyRow → Option Json → Result (Unit {0})
    same_key row none = fail internal_error 500
    same_key row (some jwk) =
        fail_if
          (not (text_eq (canonical_json jwk) (canonical_json public_jwk))
            || not (
                text_eq row.attestation_hmac
                  (hmac_sha256 svc (attestation_payload svc.envelope_key_id jwk row.created_at))))
          signing_key_conflict 500
