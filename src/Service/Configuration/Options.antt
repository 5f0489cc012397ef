-- ===== src/Service/Configuration/Options.antt =====
-- src/service.ts, the rest of the options that the constructor reads, and `createEnvelopeSigningKey` of
-- src/envelope.ts. An option is `none` where it is undefined.
use parimit.Common.{
  ℕ, Bool, true, false, not, ◌&&◌, ◌||◌, Option, none, some, List, [], ◌∷◌, ◌++◌, ltb, leb, length,
  if◌then◌else◌,
}
use parimit.Text.{Text, lit, text_eq, is_empty}
use parimit.Json.{Json, str, arr, Fields}
use parimit.Json.Build.{object, strings}
use parimit.Json.Canonical.{canonical_json}
use parimit.Types.{AuthenticationMode, oidc, demo, PolicyConfig}
use parimit.Result.{Result, ok, fail, fail_if, ◌>>=◌, ◌>>◌, invalid_configuration}
use parimit.Envelope.Base64.{Bytes, to_base64url}
use parimit.Envelope.Reading.{text_at, is_sha256_hex}
use parimit.Envelope.Claims.{after_prefix, local_trust_domain}
use parimit.Service.Validation.{require_string, is_identifier, require_identifier}
use parimit.Service.Startup.{in_oidc_mode}
use parimit.Service.Configuration.{
  PolicyOptions, or_default, require_safe_positive_integer, configure_policy,
}

-- What `URL` gives.
pub record Url : Type 0 where
  pub protocol : Text
  pub username : Text
  pub password : Text
  pub hostname : Text
  pub search : Text
  pub hash : Text

-- What a private key of node:crypto tells: its type, and its public key as a JWK.
pub record KeyObject : Type 0 where
  pub asymmetric_key_type : Text
  pub public_jwk : Fields

-- What the code takes from outside: `new URL` and `createPrivateKey`, `none` where they throw;
-- `generateKeyPairSync("ed25519")`; SHA-256; `Buffer`, for UTF-8 and for base64; `JSON.parse`, `none`
-- where it throws; and `Number`, `none` where it gives no natural number.
pub record Host : Type 0 where
  pub parse_url : Text → Option Url
  pub create_private_key : Text → Option KeyObject
  pub generated_key : KeyObject
  pub sha256_bytes : Text → Bytes
  pub utf8 : Text → Bytes
  pub to_text : Bytes → Text
  pub from_base64 : Text → Bytes
  pub to_base64 : Bytes → Text
  pub parse_json : Text → Option Json
  pub to_number : Text → Option ℕ

pub record EnvelopeSigningKey : Type 0 where
  pub private_key : KeyObject
  pub public_jwk : Json
  pub key_id : Text
  pub is_ephemeral : Bool

pub record ServiceOptions : Type 0 where
  pub receipt_secret : Option Text
  pub authentication_mode : Option Text
  pub identity_trust_domain_id : Option Text
  pub tenant_id : Option Text
  pub envelope_issuer : Option Text
  pub envelope_signing_private_key_pem : Option Text
  pub envelope_signing_key_id : Option Text
  pub envelope_ttl_seconds : Option ℕ
  pub envelope_audiences : Option (List Text)
  pub policy : PolicyOptions

-- The fields that the constructor sets.
pub record Settings : Type 0 where
  pub authentication_mode : AuthenticationMode
  pub identity_trust_domain_id : Text
  pub receipt_secret : Text
  pub tenant_id : Text
  pub envelope_issuer : Text
  pub envelope_audience : Text
  pub envelope_ttl_seconds : ℕ
  pub envelope_signing_key : EnvelopeSigningKey
  pub policy : PolicyConfig

unfoldable pub default_receipt_secret : Text
default_receipt_secret = lit "development-only-change-me"

unfoldable pub default_tenant_id : Text
default_tenant_id = lit "local-demo"

unfoldable pub default_envelope_issuer : Text
default_envelope_issuer = lit "https://parimit.local"

unfoldable pub default_audiences : List Text
default_audiences = lit "urn:parimit:consumer:local-demo" ∷ []

abbrev pub default_envelope_ttl_seconds : ℕ
default_envelope_ttl_seconds = 300

-- The tests of `requireTrustUri` on the URL.
unfoldable pub is_trust_url : Url → Bool
is_trust_url u =
    (text_eq u.protocol (lit "https:") || text_eq u.protocol (lit "urn:"))
    && (is_empty u.username && (is_empty u.password && (is_empty u.search && is_empty u.hash)))

abbrev pub trust_url : Option Url → Text → Result Text
trust_url none identifier = fail invalid_configuration 500
trust_url (some u) identifier = do
  fail_if (not (is_trust_url u)) invalid_configuration 500
  ok identifier

unfoldable pub require_mode : Text → Result AuthenticationMode
require_mode mode =
    if text_eq mode (lit "demo_headers")
    then ok demo
    else if text_eq mode (lit "oidc")
    then ok oidc
    else fail invalid_configuration 500

abbrev pub is_other_domain : Option Text → Bool
is_other_domain none = false
is_other_domain (some domain) = not (text_eq domain local_trust_domain)

unfoldable pub require_trust_domain : AuthenticationMode → Option Text → Result Text
require_trust_domain demo domain = do
  fail_if (is_other_domain domain) invalid_configuration 500
  ok local_trust_domain
require_trust_domain oidc domain = do
  fail_if (not (after_prefix (lit "sha256:") is_sha256_hex (or_default domain [])))
      invalid_configuration 500
  ok (or_default domain [])

unfoldable pub require_ttl : ℕ → Result ℕ
require_ttl n = do
  ttl ← require_safe_positive_integer n
  fail_if (ltb 3600 ttl) invalid_configuration 500
  ok ttl

abbrev pub the_only : List Text → Result Text
the_only (audience ∷ []) = ok audience
the_only _ = fail invalid_configuration 500

abbrev pub required_text : Option Text → Result Text
required_text none = fail invalid_configuration 500
required_text (some t) = ok t

-- `normalizedPublicJwk`, then the members that the key's identifier adds.
unfoldable pub public_members : Text → List (Text × Json)
public_members x =
    (lit "kty", str (lit "OKP"))
    ∷ (lit "crv", str (lit "Ed25519"))
    ∷ (lit "x", str x)
    ∷ (lit "use", str (lit "sig"))
    ∷ (lit "key_ops", arr (strings (lit "verify" ∷ [])))
    ∷ (lit "alg", str (lit "EdDSA"))
    ∷ []

-- The coordinate of a public key; each TypeError is reported as an invalid configuration.
unfoldable pub normalized_public_jwk : Fields → Result Text
normalized_public_jwk exported = do
  kty ← required_text (text_at (lit "kty") exported)
  crv ← required_text (text_at (lit "crv") exported)
  x ← required_text (text_at (lit "x") exported)
  fail_if (not (text_eq kty (lit "OKP") && text_eq crv (lit "Ed25519"))) invalid_configuration 500
  ok x

abbrev pub read_key : Option KeyObject → Result KeyObject
read_key none = fail invalid_configuration 500
read_key (some key) = ok key

abbrev pub is_ephemeral_key : Option Text → Bool
is_ephemeral_key none = true
is_ephemeral_key (some pem) = false

module _ (host : Host) where
  unfoldable pub require_trust_uri : Text → Result Text
  require_trust_uri value = do
    identifier ← require_string 512 (some (str value))
    trust_url (host.parse_url identifier) identifier

  -- `Array.from(values, requireTrustUri)`
  unfoldable pub require_trust_uris : List Text → Result (List Text)
  require_trust_uris [] = ok []
  require_trust_uris (t ∷ ts) = do
    uri ← require_trust_uri t
    uris ← require_trust_uris ts
    ok (uri ∷ uris)

  unfoldable pub require_audience : List Text → Result Text
  require_audience values = do uris ← require_trust_uris values; the_only uris

  unfoldable pub jwk_thumbprint : Text → Text
  jwk_thumbprint x = to_base64url (
      host.sha256_bytes (
        canonical_json (
          object (
            (lit "crv", str (lit "Ed25519"))
            ∷ (lit "kty", str (lit "OKP"))
            ∷ (lit "x", str x)
            ∷ []))))

  unfoldable pub private_key_of : Option Text → Result KeyObject
  private_key_of none = ok host.generated_key
  private_key_of (some pem) = read_key (host.create_private_key pem)

  -- `createEnvelopeSigningKey`
  unfoldable pub create_envelope_signing_key : Option Text → Option Text → Result EnvelopeSigningKey
  create_envelope_signing_key pem configured = do
    key ← private_key_of pem
    fail_if (not (text_eq key.asymmetric_key_type (lit "ed25519"))) invalid_configuration 500
    x ← normalized_public_jwk key.public_jwk
    let key_id = or_default configured (lit "ed25519:" ++ jwk_thumbprint x)
    fail_if (not (leb 1 (length key_id) && (leb (length key_id) 128 && is_identifier key_id)))
        invalid_configuration 500
    ok (record {
      private_key = key;
      public_jwk = object (public_members x ++ (lit "kid", str key_id) ∷ []);
      key_id = key_id;
      is_ephemeral = is_ephemeral_key pem;
    })

  unfoldable pub is_weak_secret : Text → Bool
  is_weak_secret secret =
      text_eq secret default_receipt_secret || ltb (length (host.utf8 secret)) 32

  -- The constructor, up to the database.
  unfoldable pub settings_of : ServiceOptions → Result Settings
  settings_of o = do
    mode ← require_mode (or_default o.authentication_mode (lit "demo_headers"))
    domain ← require_trust_domain mode o.identity_trust_domain_id
    let secret = or_default o.receipt_secret default_receipt_secret
    tenant ← require_identifier (some (str (or_default o.tenant_id default_tenant_id)))
    issuer ← require_trust_uri (or_default o.envelope_issuer default_envelope_issuer)
    audience ← require_audience (or_default o.envelope_audiences default_audiences)
    ttl ← require_ttl (or_default o.envelope_ttl_seconds default_envelope_ttl_seconds)
    key ← create_envelope_signing_key o.envelope_signing_private_key_pem o.envelope_signing_key_id
    fail_if (in_oidc_mode mode && is_weak_secret secret) invalid_configuration 500
    policy ← configure_policy o.policy
    ok (record {
      authentication_mode = mode;
      identity_trust_domain_id = domain;
      receipt_secret = secret;
      tenant_id = tenant;
      envelope_issuer = issuer;
      envelope_audience = audience;
      envelope_ttl_seconds = ttl;
      envelope_signing_key = key;
      policy = policy;
    })
