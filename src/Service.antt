-- ===== src/Service.antt =====
-- `class ParimitService` of src/service.ts. `Service` holds what the constructor fixes, and what the
-- service takes from outside: the clock, the random source and the digests of node:crypto.
pub mod Policy
pub mod Payload
pub mod Keys
pub mod Audit
pub mod Integrity
pub mod Validation
pub mod Methods
pub mod Configuration
pub mod Effects
pub mod History
pub mod Quorum
pub mod Limits
pub mod Chain
pub mod Idempotency
pub mod Seal
pub mod Freeze
pub mod Commit
pub mod Envelopes
pub mod SingleUse
pub mod Backing
pub mod Sweep
pub mod Progress
pub mod Startup
use parimit.Common.{ℕ, suc, ◌+◌, List, Option, none, some, ◌∷◌, []}
use parimit.Text.{Text}
use parimit.Json.{Json}
use parimit.Json.Canonical.{canonical_json}
use parimit.Types.{PolicyConfig, AuthenticationMode}
use parimit.Envelope.{Platform}
use parimit.Envelope.Base64.{Bytes}
use parimit.Result.{ok}
use parimit.Exec.{Action, World}

-- `clock n` is the n-th reading of `options.clock`, `random_uuid n` the n-th of `randomUUID`.
-- `sha256` and `hmac` take the text whose UTF-8 encoding is hashed.
pub record Service : Type 0 where
  pub clock : ℕ → ℕ
  pub random_uuid : ℕ → Text
  pub sha256 : Text → Text
  pub hmac : Text → Text → Text
  pub receipt_secret : Text
  pub tenant_id : Text
  pub policy : PolicyConfig
  pub authentication_mode : AuthenticationMode
  pub identity_trust_domain_id : Text
  pub envelope_issuer : Text
  -- the one member of `envelopeAudiences`
  pub envelope_audience : Text
  pub envelope_ttl_seconds : ℕ
  pub envelope_key_id : Text
  -- the n-th reading of `randomBytes(32)`
  pub random_bytes : ℕ → Bytes
  pub platform : Platform

-- `sha256(canonicalJson(value))`
unfoldable pub digest : Service → Json → Text
digest svc v = svc.sha256 (canonical_json v)

-- `hmacSha256`
unfoldable pub hmac_sha256 : Service → Json → Text
hmac_sha256 svc v = svc.hmac svc.receipt_secret (canonical_json v)

-- `this.now()`, `this.clock()`
unfoldable pub now : Service → Action ℕ
now svc w = (ok (svc.clock w.clock_reads), record w { clock_reads = suc w.clock_reads })

unfoldable pub random_uuid : Service → Action Text
random_uuid svc w = (ok (svc.random_uuid w.uuid_reads), record w { uuid_reads = suc w.uuid_reads })

unfoldable pub random_bytes : Service → Action Bytes
random_bytes svc w =
    (ok (svc.random_bytes w.bytes_reads), record w { bytes_reads = suc w.bytes_reads })
