-- ===== src/Examples.antt =====
-- A service, its requests and its database, on which the theorems are tried.
mod Runs
mod Policies
mod Hashes
mod Requests
mod Views
mod Evidence
mod Issued
mod Issuance
mod Signatures
mod Identity
mod Access
mod Deadlines
mod Receipts
mod Startups
mod Lifecycle
mod Configurations
mod Deployments
mod Servers
use parimit.Common.{ℕ, ◌+◌, ◌*◌, false, List, [], ◌∷◌, ◌++◌, Option, none, some}
use parimit.Text.{Text, lit}
use parimit.Text.Decimal.{decimal}
use parimit.Json.{Json, str, num}
use parimit.Json.Build.{object}
use parimit.Types.{Proposal, demo}
use parimit.Envelope.{Platform}
use parimit.Envelope.Claims.{local_trust_domain}
use parimit.Database.{empty}
use parimit.Exec.{World}
use parimit.Service.{Service}
use parimit.Service.Policy.{default_policy}

-- A platform without keys: no signature is accepted.
abbrev pub sample_platform : Platform
sample_platform = record {
  utf8 = λ t. t;
  from_utf8 = some;
  parse_json = λ t. none;
  sign = λ t. t;
  is_public_key = λ k. false;
  verify = λ k t s. false;
}

-- The digests are readable here, and distinct texts have distinct ones.
unfoldable pub sample_service : Service
sample_service = record {
  clock = λ n. 1704067200000;
  random_uuid = decimal;
  sha256 = λ t. lit "sha256:" ++ t;
  hmac = λ key t. lit "hmac:" ++ key ++ t;
  receipt_secret = lit "secret";
  tenant_id = lit "demo-tenant";
  policy = default_policy;
  authentication_mode = demo;
  identity_trust_domain_id = local_trust_domain;
  envelope_issuer = lit "urn:parimit:issuer:local-demo";
  envelope_audience = lit "urn:parimit:consumer:local-demo";
  envelope_ttl_seconds = 300;
  envelope_key_id = lit "key";
  random_bytes = λ n. n ∷ [];
  platform = sample_platform;
}

unfoldable pub sample_proposal : Proposal
sample_proposal = record {
  idempotency_key = lit "key-1";
  agent_id = lit "agent-1";
  on_behalf_of = none;
  amount_minor = 60000;
  payee_reference = lit "payee:one";
  purpose = lit "Office chairs";
  expires_in_seconds = 600;
}

unfoldable pub sample_body : Json
sample_body = object (
    (lit "idempotency_key", str (lit "key-1"))
    ∷ (
      lit "requested_by",
      object ((lit "type", str (lit "agent")) ∷ (lit "id", str (lit "agent-1")) ∷ []),
    )
    ∷ (
      lit "amount",
      object ((lit "currency", str (lit "INR")) ∷ (lit "minor", str (lit "60000")) ∷ []),
    )
    ∷ (lit "payee_reference", str (lit "payee:one"))
    ∷ (lit "purpose", str (lit "Office chairs"))
    ∷ (lit "expires_in_seconds", num 600)
    ∷ [])

abbrev pub start : World
start = record { db = empty; clock_reads = 0; uuid_reads = 0; bytes_reads = 0 }
