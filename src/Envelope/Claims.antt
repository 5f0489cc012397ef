-- ===== src/Envelope/Claims.antt =====
-- src/service.ts, `strictEnvelopeClaims`: the claims of an envelope, read strictly.
pub mod Decision
use parimit.Common.{
  ℕ, ◌+◌, ◌*◌, ◌/◌, Bool, true, false, not, ◌&&◌, ◌||◌, Option, none, some, List, [], ◌∷◌, ◌++◌,
  map, ltb, leb, ◌==◌, all, length, last, if◌then◌else◌,
}
use parimit.Text.{Text, lit, text_eq, text_lt}
use parimit.Json.{Json, null, str, arr, obj, Fields, get_field}
use parimit.Types.{version_text, v3}
use parimit.Time.{canonical_time}
use parimit.Service.Integrity.Payloads.{is_num, is_str, string_array, is_defined, are_distinct}
use parimit.Envelope.Base64.{Bytes, to_base64url, from_base64url, is_base64url_unit}
use parimit.Envelope.Reading.{
  ◌>>=◌, ◌>>◌, check_that, object_of, object_at, text_at, number_at, list_at, has_text, has_number,
  has_bool, has_exact_keys, is_sha256_hex, matches,
}

-- `AUTHORIZATION_ENVELOPE_NOTICE`
unfoldable pub notice : Text
notice =
    lit
      "This signed envelope proves Parimit recorded the required human approvals. It is evidence-only, non-dispatchable, and never authorizes a payment rail to move funds."

unfoldable pub local_trust_domain : Text
local_trust_domain = lit "urn:parimit:identity-trust:local-demo-headers-v1"

-- A member that holds a canonical timestamp.
unfoldable pub time_at : Text → Fields → Option ℕ
time_at k fs = do t ← text_at k fs; canonical_time t

abbrev is_one_or_two : Option Json → Bool
is_one_or_two v = is_num 1 v || is_num 2 v

-- A digest object, `{ alg: "sha-256", value }`, with the value.
unfoldable pub digest_at : Text → Fields → Option Text
digest_at k fs = do
  d ← object_at k fs
  check_that
      (has_exact_keys (lit "alg" ∷ lit "value" ∷ []) d && has_text (lit "alg") (lit "sha-256") d)
  v ← text_at (lit "value") d
  check_that (is_sha256_hex v)
  some v

abbrev claim_keys : List Text
claim_keys =
    lit "version"
    ∷ lit "iss"
    ∷ lit "sub"
    ∷ lit "aud"
    ∷ lit "jti"
    ∷ lit "iat"
    ∷ lit "nbf"
    ∷ lit "exp"
    ∷ lit "issued_at"
    ∷ lit "tenant_id"
    ∷ lit "identity_assurance"
    ∷ lit "intent"
    ∷ lit "policy_digest"
    ∷ lit "decision"
    ∷ lit "replay"
    ∷ lit "source_audit"
    ∷ lit "capability"
    ∷ lit "notice"
    ∷ []

-- The members of the claims that are texts and numbers; `issued_at` is the time of `issued_text`.
pub record Head : Type 0 where
  pub iss : Text
  pub sub : Text
  pub aud : Text
  pub jti : Text
  pub iat : ℕ
  pub nbf : ℕ
  pub exp : ℕ
  pub issued_text : Text
  pub issued_at : ℕ
  pub tenant_id : Text

-- The top level.
unfoldable pub read_head : Fields → Option Head
read_head v = do
  check_that (has_exact_keys claim_keys v)
  check_that (has_text (lit "version") (lit "parimit-authorization-envelope-v1") v)
  iss ← text_at (lit "iss") v
  sub ← text_at (lit "sub") v
  aud ← text_at (lit "aud") v
  jti ← text_at (lit "jti") v
  check_that (matches (lit "hhhhhhhh-hhhh-1hhh-8hhh-hhhhhhhhhhhh") jti)
  iat ← number_at (lit "iat") v
  nbf ← number_at (lit "nbf") v
  exp ← number_at (lit "exp") v
  check_that (iat == nbf && ltb iat exp)
  issued_text ← text_at (lit "issued_at") v
  issued_at ← canonical_time issued_text
  check_that (issued_at / 1000 == iat)
  tenant_id ← text_at (lit "tenant_id") v
  check_that (has_text (lit "notice") notice v)
  some (record {
    iss = iss;
    sub = sub;
    aud = aud;
    jti = jti;
    iat = iat;
    nbf = nbf;
    exp = exp;
    issued_text = issued_text;
    issued_at = issued_at;
    tenant_id = tenant_id;
  })

pub record Assurance : Type 0 where
  pub is_oidc : Bool
  pub trust_domain_id : Text

-- What follows `prefix` passes the test.
unfoldable pub after_prefix : Text → (Text → Bool) → Text → Bool
after_prefix [] test s = test s
after_prefix (k ∷ ks) test [] = false
after_prefix (k ∷ ks) test (c ∷ s) = k == c && after_prefix ks test s

-- The method is "oidc" or "local_demo_headers", and the other two members agree with it.
unfoldable pub read_assurance : Fields → Option Assurance
read_assurance v = do
  a ← object_at (lit "identity_assurance") v
  check_that (
      has_exact_keys
        (lit "authentication_method"
          ∷ lit "cryptographically_verified"
          ∷ lit "trust_domain_id"
          ∷ [])
        a)
  method ← text_at (lit "authentication_method") a
  let oidc = text_eq method (lit "oidc")
  check_that (oidc || text_eq method (lit "local_demo_headers"))
  check_that (has_bool (lit "cryptographically_verified") oidc a)
  domain ← text_at (lit "trust_domain_id") a
  check_that (
      if oidc
      then after_prefix (lit "sha256:") is_sha256_hex domain
      else text_eq domain local_trust_domain)
  some (record { is_oidc = oidc; trust_domain_id = domain })

abbrev snapshot_keys : List Text
snapshot_keys =
    lit "version"
    ∷ lit "id"
    ∷ lit "tenant_id"
    ∷ lit "idempotency_key"
    ∷ lit "requested_by"
    ∷ lit "on_behalf_of"
    ∷ lit "amount"
    ∷ lit "payee_reference"
    ∷ lit "purpose"
    ∷ lit "initial_status"
    ∷ lit "policy"
    ∷ lit "created_at"
    ∷ lit "expires_at"
    ∷ []

abbrev policy_keys : List Text
policy_keys =
    lit "allowed"
    ∷ lit "reasons"
    ∷ lit "rules_version"
    ∷ lit "config_digest"
    ∷ lit "required_approvals"
    ∷ []

-- The policy in the snapshot, with the number of approvals that it requires.
unfoldable pub read_policy : Fields → Option ℕ
read_policy p = do
  check_that (has_exact_keys policy_keys p && has_bool (lit "allowed") true p)
  string_array (get_field (lit "reasons") p)
  text_at (lit "rules_version") p
  config ← text_at (lit "config_digest") p
  check_that (is_sha256_hex config)
  check_that (is_one_or_two (get_field (lit "required_approvals") p))
  number_at (lit "required_approvals") p

pub record Snapshot : Type 0 where
  pub fields : Fields
  pub id : Text
  pub tenant_id : Text
  pub created_at : ℕ
  pub expires_at : ℕ
  pub policy : Fields
  pub required_approvals : ℕ

abbrev is_nullable_text : Option Json → Bool
is_nullable_text (some null) = true
is_nullable_text (some (str s)) = true
is_nullable_text _ = false

unfoldable pub read_snapshot : Fields → Option Snapshot
read_snapshot s = do
  check_that (has_exact_keys snapshot_keys s)
  check_that (has_text (lit "version") (version_text v3) s)
  id ← text_at (lit "id") s
  tenant_id ← text_at (lit "tenant_id") s
  text_at (lit "idempotency_key") s
  agent ← object_at (lit "requested_by") s
  check_that (
      has_exact_keys (lit "type" ∷ lit "id" ∷ []) agent
      && has_text (lit "type") (lit "agent") agent)
  text_at (lit "id") agent
  check_that (is_nullable_text (get_field (lit "on_behalf_of") s))
  amount ← object_at (lit "amount") s
  check_that (
      has_exact_keys (lit "currency" ∷ lit "minor" ∷ []) amount
      && has_text (lit "currency") (lit "INR") amount)
  text_at (lit "minor") amount
  text_at (lit "payee_reference") s
  text_at (lit "purpose") s
  check_that (has_text (lit "initial_status") (lit "AWAITING_APPROVAL") s)
  created_at ← time_at (lit "created_at") s
  expires_at ← time_at (lit "expires_at") s
  policy ← object_at (lit "policy") s
  required ← read_policy policy
  some (record {
    fields = s;
    id = id;
    tenant_id = tenant_id;
    created_at = created_at;
    expires_at = expires_at;
    policy = policy;
    required_approvals = required;
  })
