-- ===== src/Examples/Servers.antt =====
-- A server started from an environment in OIDC mode.
use parimit.Common.{◌≡◌, refl, Bool, true, false, none, ◌∷◌}
use parimit.Text.{lit, text_eq, trim, is_control, lower, is_space}
use parimit.Text.Decimal.{number, is_positive_decimal}
use parimit.Json.{get_field}
use parimit.Result.{Result, ok, err, fail_if}
use parimit.Envelope.Reading.{text_at, is_sha256_hex}
use parimit.Envelope.Claims.{after_prefix, local_trust_domain}
use parimit.Auth.{role_text}
use parimit.Auth.Header.{algorithm_text}
use parimit.Auth.Document.{split_commas}
use parimit.Auth.Domain.{oidc_identity_trust_domain_id}
use parimit.Auth.Options.{
  Dependencies, local_demo_provider, context_of, require_finite_non_negative_integer,
  is_loopback_hostname, is_provider_url, validate_url, role_of, role_entries, require_role_mapping,
  supported_algorithms, require_algorithms, require_clock_skew, require_positive, require_lifetime,
  require_audiences, new_oidc_provider,
}
use parimit.Auth.Environment.{
  is_on, host_of, new_local_demo_provider, parse_role_mapping, required_variable, oidc_options,
  oidc_from_environment, create_identity_provider_from_environment,
}
use parimit.Service.Policy.{default_policy, has}
use parimit.Service.Validation.{is_string, require_string, is_identifier, require_identifier}
use parimit.Service.Configuration.{
  configure_policy, require_configuration_string, require_safe_positive_integer,
  normalize_payee_set, payee_keys, add_all,
}
use parimit.Service.Configuration.Options.{
  default_receipt_secret, default_tenant_id, default_envelope_issuer, default_audiences,
  is_trust_url, require_mode, require_trust_domain, require_ttl, public_members,
  normalized_public_jwk, require_trust_uri, require_trust_uris, require_audience, private_key_of,
  create_envelope_signing_key, is_weak_secret, settings_of,
}
use parimit.Service.Configuration.Environment.{
  Environment, parse_positive_environment_integer, trimmed_items, parse_environment_set,
  environment_value, is_base64, is_demo_mode, authentication_mode_of, identity_domain,
  policy_options, decode_envelope_private_key, receipt_secret_of, is_unstable,
  create_service_from_environment,
}
use parimit.Http.Server.{effective_environment, require_port, Server, start_server}
use parimit.Http.Started.{IsStarted, start_server-IsStarted}
use parimit.Examples.{sample_platform}
use parimit.Examples.Deployments.{sample_host, value_in, live_values, started}

abbrev dependencies : Dependencies
dependencies = record {
  clock = λ n. n;
  fetch = λ n. none;
  sha256 = λ t. lit "0000000000000000000000000000000000000000000000000000000000000000";
  public_key = λ jwk. none;
  verify = λ algorithm jwk t signature. false;
  platform = sample_platform;
}

abbrev with_tokens : Environment
with_tokens = value_in (
    (lit "PARIMIT_OIDC_ISSUER", lit "https://id")
    ∷ (lit "PARIMIT_OIDC_AUDIENCE", lit "parimit")
    ∷ (lit "PARIMIT_OIDC_JWKS_URI", lit "https://id/keys")
    ∷ (lit "PARIMIT_OIDC_ROLE_MAPPING", lit "roles")
    ∷ live_values)

abbrev answer : Result Server
answer = start_server sample_host dependencies with_tokens

abbrev no_server : Server
no_server = record { identity_provider = local_demo_provider; service = started; port = 0 }

abbrev server_in : Result Server → Server
server_in (ok server) = server
server_in (err e) = no_server

abbrev is_server : Result Server → Bool
is_server (ok server) = true
is_server (err e) = false

of_server : (r : Result Server) → is_server r ≡ true → r ≡ ok (server_in r)
of_server (ok server) h = refl
of_server (err e) h = cc

server_starts : is_server answer ≡ true
unfolding start_server effective_environment require_port create_identity_provider_from_environment
    oidc_from_environment oidc_options required_variable parse_role_mapping host_of is_on
    new_local_demo_provider new_oidc_provider require_audiences require_lifetime require_positive
    require_clock_skew require_algorithms supported_algorithms require_role_mapping role_entries
    role_of validate_url is_provider_url is_loopback_hostname has
    require_finite_non_negative_integer context_of oidc_identity_trust_domain_id role_text
    algorithm_text local_trust_domain create_service_from_environment is_demo_mode lit lower text_eq
    authentication_mode_of decode_envelope_private_key is_base64 parse_environment_set trim is_space
    split_commas trimmed_items is_weak_secret default_receipt_secret receipt_secret_of
    environment_value is_unstable identity_domain parse_positive_environment_integer
    is_positive_decimal number policy_options settings_of require_mode require_trust_domain
    after_prefix is_sha256_hex require_identifier require_string is_string is_control is_identifier
    require_trust_uri is_trust_url require_audience require_trust_uris require_ttl
    require_safe_positive_integer create_envelope_signing_key private_key_of normalized_public_jwk
    text_at get_field public_members configure_policy require_configuration_string
    normalize_payee_set payee_keys add_all default_policy fail_if default_tenant_id
    default_envelope_issuer default_audiences
server_starts = refl

start_server-IsStarted_example : IsStarted sample_host with_tokens (server_in answer)
start_server-IsStarted_example =
    start_server-IsStarted sample_host dependencies with_tokens (of_server answer server_starts)
