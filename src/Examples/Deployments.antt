-- ===== src/Examples/Deployments.antt =====
-- A service started from an environment outside demo mode.
use parimit.Common.{◌≡◌, refl, false, Option, none, some, List, [], ◌∷◌, ◌++◌, if◌then◌else◌}
use parimit.Text.{Text, lit, text_eq, trim, is_control, lower, is_space}
use parimit.Text.Decimal.{number, is_positive_decimal}
use parimit.Json.{get_field, str}
use parimit.Json.Build.{object, fields}
use parimit.Types.{oidc}
use parimit.Result.{ok, fail_if}
use parimit.Envelope.Reading.{text_at, is_sha256_hex}
use parimit.Envelope.Claims.{after_prefix}
use parimit.Auth.Document.{split_commas}
use parimit.Service.Policy.{default_policy}
use parimit.Service.Validation.{is_string, require_string, is_identifier, require_identifier}
use parimit.Service.Configuration.{
  configure_policy, require_configuration_string, require_safe_positive_integer,
  normalize_payee_set, payee_keys, add_all,
}
use parimit.Service.Configuration.Options.{
  Host, KeyObject, Settings, ServiceOptions, default_receipt_secret, default_tenant_id,
  default_envelope_issuer, default_audiences, is_trust_url, require_mode, require_trust_domain,
  require_ttl, public_members, normalized_public_jwk, require_trust_uri, require_trust_uris,
  require_audience, private_key_of, create_envelope_signing_key, is_weak_secret, settings_of,
}
use parimit.Service.Configuration.Settled.{IsSettled, settings_of-IsSettled}
use parimit.Service.Configuration.Environment.{
  Environment, IdentityContext, parse_positive_environment_integer, trimmed_items,
  parse_environment_set, environment_value, is_base64, is_demo_mode, authentication_mode_of,
  identity_domain, policy_options, decode_envelope_private_key, receipt_secret_of, is_unstable,
  environment_options, create_service_from_environment,
}
use parimit.Service.Configuration.Deployed.{IsDeployed, create_service_from_environment-IsDeployed}

abbrev key_object : KeyObject
key_object = record {
  asymmetric_key_type = lit "ed25519";
  public_jwk = fields (
      (lit "kty", str (lit "OKP"))
      ∷ (lit "crv", str (lit "Ed25519"))
      ∷ (lit "x", str (lit "AA"))
      ∷ []);
}

abbrev pub sample_host : Host
sample_host = record {
  parse_url = λ t. some (record {
    protocol = lit "https:";
    username = [];
    password = [];
    hostname = lit "id";
    search = [];
    hash = [];
  });
  create_private_key = λ pem. if text_eq pem (lit "PEM") then some key_object else none;
  generated_key = key_object;
  sha256_bytes = λ t. 0 ∷ [];
  utf8 = λ t. t;
  to_text = λ bytes. lit "PEM";
  from_base64 = λ t. 0 ∷ 0 ∷ 0 ∷ [];
  to_base64 = λ bytes. lit "AAAA";
  parse_json = λ t. some (object ((lit "staff", str (lit "approver")) ∷ []));
  to_number = λ t. some 3600;
}

abbrev pub value_in : List (Text × Text) → Environment
value_in [] name = none
value_in ((k, v) ∷ vs) name = let rest = value_in vs name in if text_eq k name then some v else rest

abbrev domain : Text
domain = lit "sha256:0000000000000000000000000000000000000000000000000000000000000000"

abbrev pub live_values : List (Text × Text)
live_values =
    (lit "PARIMIT_DEMO_MODE", lit "false")
    ∷ (lit "PARIMIT_AUTH_MODE", lit "oidc")
    ∷ (lit "PARIMIT_RECEIPT_KEY", lit "0123456789abcdef0123456789abcdef")
    ∷ (lit "PARIMIT_TENANT_ID", lit "tenant-1")
    ∷ (lit "PARIMIT_ENVELOPE_ISSUER", lit "urn:a")
    ∷ (lit "PARIMIT_ENVELOPE_AUDIENCES", lit " urn:b ,")
    ∷ (lit "PARIMIT_ENVELOPE_PRIVATE_KEY_PEM_BASE64", lit "AAAA")
    ∷ (lit "PARIMIT_ENVELOPE_SIGNING_KEY_ID", lit "key-1")
    ∷ (lit "PARIMIT_ENVELOPE_TTL_SECONDS", lit "60")
    ∷ []

abbrev live : Environment
live = value_in live_values

abbrev provider : Option IdentityContext
provider = some (record { authentication_method = oidc; identity_trust_domain_id = domain })

abbrev pub started : Settings
started = record {
  authentication_mode = oidc;
  identity_trust_domain_id = domain;
  receipt_secret = lit "0123456789abcdef0123456789abcdef";
  tenant_id = lit "tenant-1";
  envelope_issuer = lit "urn:a";
  envelope_audience = lit "urn:b";
  envelope_ttl_seconds = 60;
  envelope_signing_key = record {
    private_key = key_object;
    public_jwk = object (public_members (lit "AA") ++ (lit "kid", str (lit "key-1")) ∷ []);
    key_id = lit "key-1";
    is_ephemeral = false;
  };
  policy = default_policy;
}

live-IsLive : is_demo_mode live ≡ false
unfolding is_demo_mode lit lower text_eq
live-IsLive = refl

live-starts : create_service_from_environment sample_host live provider ≡ ok started
unfolding create_service_from_environment is_demo_mode lit lower text_eq authentication_mode_of
    decode_envelope_private_key is_base64 parse_environment_set trim is_space split_commas
    trimmed_items is_weak_secret default_receipt_secret receipt_secret_of environment_value
    is_unstable identity_domain parse_positive_environment_integer is_positive_decimal number
    policy_options settings_of require_mode require_trust_domain after_prefix is_sha256_hex
    require_identifier require_string is_string is_control is_identifier require_trust_uri
    is_trust_url require_audience require_trust_uris require_ttl require_safe_positive_integer
    create_envelope_signing_key private_key_of normalized_public_jwk text_at get_field
    public_members configure_policy require_configuration_string normalize_payee_set payee_keys
    add_all default_policy fail_if default_tenant_id default_envelope_issuer default_audiences
live-starts = refl

create_service_from_environment-IsDeployed_example : IsDeployed sample_host live provider started
create_service_from_environment-IsDeployed_example =
    create_service_from_environment-IsDeployed sample_host live provider live-IsLive live-starts

abbrev started_options : ServiceOptions
started_options = environment_options live (some (lit "PEM")) domain 60 (record {
  rules_version = none;
  per_transaction_limit_minor = none;
  daily_agent_limit_minor = none;
  dual_approval_threshold_minor = none;
  default_expiry_seconds = none;
  max_expiry_seconds = none;
  blocked_payees = none;
  allowed_payees = none;
})

options-settle : settings_of sample_host started_options ≡ ok started
unfolding lit lower text_eq authentication_mode_of parse_environment_set trim is_space split_commas
    trimmed_items is_weak_secret default_receipt_secret receipt_secret_of environment_value
    settings_of require_mode require_trust_domain after_prefix is_sha256_hex require_identifier
    require_string is_string is_control is_identifier require_trust_uri is_trust_url
    require_audience require_trust_uris require_ttl require_safe_positive_integer
    create_envelope_signing_key private_key_of normalized_public_jwk text_at get_field
    public_members configure_policy require_configuration_string normalize_payee_set payee_keys
    add_all default_policy fail_if default_tenant_id default_envelope_issuer default_audiences
options-settle = refl

settings_of-IsSettled_example : IsSettled sample_host started_options started
settings_of-IsSettled_example = settings_of-IsSettled sample_host started_options options-settle
