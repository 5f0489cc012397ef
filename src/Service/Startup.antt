-- ===== src/Service/Startup.antt =====
-- src/service.ts, what the constructor does with the database: `preflightReceiptIntegrity`, the end of
-- `initializeSchema` and `registerEnvelopeSigningKey`. The tables are those of the current schema; a
-- file without tables is the empty database.
pub mod Key
pub mod Open
pub mod Bound
pub mod Registered
pub mod Opened
pub mod Runs
use parimit.Common.{
  ℕ, Bool, true, false, not, ◌&&◌, ◌||◌, Option, none, some, List, [], ◌∷◌, ◌++◌, all, any, find,
}
use parimit.Text.{Text, lit, text_eq}
use parimit.Json.{Json, num, str, Items}
use parimit.Json.Build.{object}
use parimit.Json.Canonical.{canonical_json}
use parimit.Types.{AuthenticationMode, oidc, demo}
use parimit.Result.{
  Result, ok, fail, fail_if, ◌>>=◌, ◌>>◌, ErrorCode, internal_error, constraint_violation,
  signing_key_integrity_failure, receipt_key_mismatch, unattested_identity_history,
  trust_root_missing, signing_key_conflict, database_migration_failed,
}
use parimit.Database.{Database, ApprovalRow, EnvelopeRow, SigningKeyRow}
use parimit.Database.Envelopes.{has_references}
use parimit.Service.{Service, hmac_sha256}
use parimit.Service.Policy.{policy_configuration_digest}
use parimit.Service.Payload.{approval_receipt_payload}
use parimit.Service.Keys.{
  attestation_payload, key_items, registry_payload, registry_of, is_attested, is_checkpoint,
  order_keys,
}

unfoldable pub mode_text : AuthenticationMode → Text
mode_text oidc = lit "oidc"
mode_text demo = lit "demo_headers"

abbrev pub in_oidc_mode : AuthenticationMode → Bool
in_oidc_mode oidc = true
in_oidc_mode demo = false

module _ {A : Type 0} where
  -- `SELECT 1 FROM t LIMIT 1` finds a row.
  abbrev pub has_rows : List A → Bool
  has_rows [] = false
  has_rows (x ∷ xs) = true

  abbrev pub is_present : Option A → Bool
  is_present none = false
  is_present (some a) = true

-- `hasMaterialHistory`
unfoldable pub has_material_history : Database → Bool
has_material_history db =
    has_rows db.intents
    || has_rows db.approvals
    || has_rows db.observations
    || has_rows db.audit_events
    || has_rows db.signing_keys
    || has_rows db.envelopes
    || (is_present db.integrity_root || is_present db.registry_state)

-- `PRAGMA foreign_key_check` reports no row.
unfoldable pub has_all_references : Database → Bool
has_all_references db =
    all (λ a. any (λ r. text_eq r.id a.intent_id) db.intents) db.approvals
    && all (λ o. any (λ r. text_eq r.id o.intent_id) db.intents) db.observations
    && all (λ e. any (λ r. text_eq r.id e.intent_id) db.intents) db.audit_events
    && all (λ e. has_references e db) db.envelopes

module _ (svc : Service) where
  -- `receiptIntegrityRootPayload`
  unfoldable pub integrity_root_payload : Json
  integrity_root_payload = object (
      (lit "version", str (lit "parimit-receipt-integrity-root-v1"))
      ∷ (lit "tenant_id", str svc.tenant_id)
      ∷ (lit "envelope_issuer", str svc.envelope_issuer)
      ∷ (lit "envelope_audience", str svc.envelope_audience)
      ∷ (lit "envelope_maximum_lifetime_seconds", num svc.envelope_ttl_seconds)
      ∷ (lit "authentication_mode", str (mode_text svc.authentication_mode))
      ∷ (lit "identity_trust_domain_id", str svc.identity_trust_domain_id)
      ∷ (lit "policy_configuration_digest", str (policy_configuration_digest svc))
      ∷ [])

  unfoldable pub expected_root : Text
  expected_root = hmac_sha256 svc integrity_root_payload

  -- `assertReceiptIntegrityRootMatches`
  unfoldable pub assert_root_matches : Text → Result (Unit {0})
  assert_root_matches value = fail_if (not (text_eq value expected_root)) receipt_key_mismatch 500

  -- `validateEnvelopeSigningKeyRows`
  unfoldable pub validate_key_rows : ErrorCode → List SigningKeyRow → Result (Unit {0})
  validate_key_rows code rows = fail_if (not (all (is_attested svc) rows)) code 500

  -- `assertEnvelopeSigningKeyRegistryState`
  unfoldable pub assert_registry_state : ErrorCode → Database → Result (Unit {0})
  assert_registry_state code db =
      fail_if (not (is_checkpoint svc db.registry_state (order_keys db.signing_keys))) code 500

  abbrev pub is_authentic : ApprovalRow → Bool
  is_authentic a =
      text_eq
        (hmac_sha256 svc (
          approval_receipt_payload a.intent_id a.intent_hash a.actor_id a.actor_role a.decision
            a.created_at))
        a.receipt_hmac

  -- `validateReceiptBoundEvidence`
  unfoldable pub validate_receipt_bound_evidence : Database → Result (Unit {0})
  validate_receipt_bound_evidence db = do
    fail_if (in_oidc_mode svc.authentication_mode && has_rows db.approvals)
        unattested_identity_history 500
    fail_if (not (all is_authentic db.approvals)) receipt_key_mismatch 500
    validate_key_rows receipt_key_mismatch (order_keys db.signing_keys)

  abbrev pub preflight_bound : Option Text → Database → Result (Unit {0})
  preflight_bound (some value) db = do
    assert_root_matches value
    validate_key_rows signing_key_integrity_failure (order_keys db.signing_keys)
    assert_registry_state signing_key_integrity_failure db
  preflight_bound none db = do
    fail_if (has_material_history db) trust_root_missing 500
    validate_receipt_bound_evidence db

  -- `preflightReceiptIntegrity`
  unfoldable pub preflight_receipt_integrity : Database → Result (Unit {0})
  preflight_receipt_integrity db = preflight_bound db.integrity_root db

  abbrev pub register_root : Option Text → Database → Result Database
  register_root (some value) db = do assert_root_matches value; ok db
  register_root none db = do
    validate_receipt_bound_evidence db
    ok (record db { integrity_root = some expected_root })

  -- `registerReceiptIntegrityRoot`
  unfoldable pub register_receipt_integrity_root : Database → Result Database
  register_receipt_integrity_root db = register_root db.integrity_root db

  -- `envelopeSigningKeyRegistryState`; `JSON.parse` throws on a malformed key.
  abbrev pub state_of : Option Items → Result Text
  state_of none = fail internal_error 500
  state_of (some keys) = ok (hmac_sha256 svc (registry_payload keys))

  unfoldable pub registry_state : List SigningKeyRow → Result Text
  registry_state rows = state_of (key_items rows)

  abbrev pub register_state : Option Text → Database → Result Database
  register_state (some value) db = do assert_registry_state signing_key_integrity_failure db; ok db
  register_state none db = do
    fail_if (has_rows db.signing_keys) trust_root_missing 500
    state ← registry_state (order_keys db.signing_keys)
    ok (record db { registry_state = some state })

  -- `registerEnvelopeSigningKeyRegistryState`
  unfoldable pub register_signing_key_registry_state : Database → Result Database
  register_signing_key_registry_state db = do
    validate_key_rows signing_key_integrity_failure (order_keys db.signing_keys)
    register_state db.registry_state db

  -- The part of `initializeSchema` behind the creation of the tables.
  unfoldable pub bind_database : Database → Result Database
  bind_database db = do
    bound ← register_receipt_integrity_root db
    registered ← register_signing_key_registry_state bound
    fail_if (not (has_all_references registered)) database_migration_failed 500
    ok registered
