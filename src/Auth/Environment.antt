-- ===== src/Auth/Environment.antt =====
-- src/auth.ts, `LocalDemoHeaderIdentityProvider`'s constructor and
-- `createIdentityProviderFromEnvironment`.
use parimit.Common.{ℕ, Bool, false, not, ◌&&◌, ◌||◌, Option, none, some, [], ◌∷◌, if◌then◌else◌}
use parimit.Text.{Text, lit, text_eq, lower}
use parimit.Json.{Json, obj, Fields}
use parimit.Result.{Result, ok, fail, ◌>>=◌, ◌>>◌, invalid_auth_configuration}
use parimit.Service.Configuration.{or_default}
use parimit.Service.Configuration.Options.{Host}
use parimit.Service.Configuration.Environment.{Environment, non_blank}
use parimit.Auth.Options.{
  Dependencies, OidcOptions, IdentityProvider, oidc_provider, local_demo_provider, refuse_if,
  present, is_loopback_hostname, new_oidc_provider,
}

-- `=== "true" || === "1"`, in whatever case; a variable that is not set is off.
unfoldable pub is_on : Option Text → Bool
is_on value =
    let text = lower (or_default value []) in text_eq text (lit "true") || text_eq text (lit "1")

unfoldable pub host_of : Environment → Text
host_of environment = or_default (environment (lit "PARIMIT_HOST")) (lit "127.0.0.1")

-- The constructor of `LocalDemoHeaderIdentityProvider`: demo mode, host, `allowNonLoopback`.
unfoldable pub new_local_demo_provider : Bool → Text → Bool → Result IdentityProvider
new_local_demo_provider demo_mode host_name allow_non_loopback = do
  refuse_if (not demo_mode || (not (is_loopback_hostname host_name) && not allow_non_loopback))
  ok local_demo_provider

abbrev members : Option Json → Option Fields
members (some (obj fs)) = some fs
members _ = none

unfoldable pub parse_role_mapping : Host → Text → Result Fields
parse_role_mapping host value = present (members (host.parse_json value))

-- A variable that is not set, or is empty, is refused.
unfoldable pub required_variable : Environment → Text → Result Text
required_variable environment name = present (non_blank (environment name))

-- `Number(value)` of a variable that is set.
abbrev number_option : Host → Option Text → Option (Option ℕ)
number_option host none = none
number_option host (some t) = some (host.to_number t)

module _ (host : Host) (given : Dependencies) (environment : Environment) where
  unfoldable pub oidc_options : Text → Text → Text → Fields → OidcOptions
  oidc_options issuer audience jwks_uri mapping = record {
    issuer = issuer;
    audience = audience ∷ [];
    jwks_uri = jwks_uri;
    role_claim = some (or_default (environment (lit "PARIMIT_OIDC_ROLE_CLAIM")) (lit "roles"));
    role_mapping = some mapping;
    allowed_algorithms = none;
    required_token_type = non_blank (environment (lit "PARIMIT_OIDC_REQUIRED_TYP"));
    clock_skew_seconds = number_option host (environment (lit "PARIMIT_OIDC_CLOCK_SKEW_SECONDS"));
    max_token_lifetime_seconds = some (
        host.to_number
          (or_default (environment (lit "PARIMIT_OIDC_MAX_TOKEN_LIFETIME_SECONDS")) (lit "3600")));
    jwks_cache_seconds = none;
    jwks_refresh_seconds = none;
    jwks_timeout_milliseconds = none;
    allow_insecure_loopback_http = false;
  }

  unfoldable pub oidc_from_environment : Result IdentityProvider
  oidc_from_environment = do
    issuer ← required_variable environment (lit "PARIMIT_OIDC_ISSUER")
    audience ← required_variable environment (lit "PARIMIT_OIDC_AUDIENCE")
    jwks_uri ← required_variable environment (lit "PARIMIT_OIDC_JWKS_URI")
    role_mapping ← required_variable environment (lit "PARIMIT_OIDC_ROLE_MAPPING")
    mapping ← parse_role_mapping host role_mapping
    p ← new_oidc_provider host given (oidc_options issuer audience jwks_uri mapping)
    ok (oidc_provider p)

  unfoldable pub create_identity_provider_from_environment : Result IdentityProvider
  create_identity_provider_from_environment =
      let mode = or_default (environment (lit "PARIMIT_AUTH_MODE")) [] in
      if text_eq mode (lit "demo_headers")
      then new_local_demo_provider (is_on (environment (lit "PARIMIT_DEMO_MODE")))
          (host_of environment)
          (is_on (environment (lit "PARIMIT_DEMO_ALLOW_NON_LOOPBACK_HEADERS")))
      else if text_eq mode (lit "oidc")
      then oidc_from_environment
      else fail invalid_auth_configuration 500
