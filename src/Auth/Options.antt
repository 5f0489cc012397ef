-- ===== src/Auth/Options.antt =====
-- src/auth.ts, the constructors of the identity providers and `createIdentityProviderFromEnvironment`.
-- An option is `none` where it is undefined; a number is `none` where it is no natural number.
use parimit.Common.{
  ℕ, Bool, true, false, not, ◌&&◌, ◌||◌, Option, none, some, List, [], ◌∷◌, ltb, leb, ◌==◌, any,
  length, find, if◌then◌else◌,
}
use parimit.Text.{Text, lit, text_eq, is_empty, lower}
use parimit.Json.{Json, str, Fields, end, field}
use parimit.Json.Build.{fields}
use parimit.Types.{oidc, demo}
use parimit.Result.{Result, ok, fail, fail_if, ◌>>=◌, ◌>>◌, invalid_auth_configuration}
use parimit.Envelope.{Platform}
use parimit.Envelope.Base64.{Bytes}
use parimit.Envelope.Claims.{local_trust_domain}
use parimit.Auth.{ActorRole, agent, approver, consumer, admin, role_text}
use parimit.Auth.Header.{JwtAlgorithm, rs256, ps256, es256, algorithm_text}
use parimit.Auth.Provider.{JwksResponse, OidcProvider}
use parimit.Auth.Domain.{oidc_identity_trust_domain_id}
use parimit.Service.Validation.{max_safe_integer}
use parimit.Service.Configuration.{or_default, add_all}
use parimit.Service.Configuration.Options.{Host, Url}
use parimit.Service.Configuration.Environment.{IdentityContext}

-- What a provider takes from outside.
pub record Dependencies : Type 0 where
  pub clock : ℕ → ℕ
  pub fetch : ℕ → Option JwksResponse
  pub sha256 : Text → Text
  pub public_key : Fields → Option ℕ
  pub verify : JwtAlgorithm → Fields → Text → Bytes → Bool
  pub platform : Platform

-- One audience that is a string is a list of one.
pub record OidcOptions : Type 0 where
  pub issuer : Text
  pub audience : List Text
  pub jwks_uri : Text
  pub role_claim : Option Text
  pub role_mapping : Option Fields
  pub allowed_algorithms : Option (List Text)
  pub required_token_type : Option Text
  pub clock_skew_seconds : Option (Option ℕ)
  pub max_token_lifetime_seconds : Option (Option ℕ)
  pub jwks_cache_seconds : Option (Option ℕ)
  pub jwks_refresh_seconds : Option (Option ℕ)
  pub jwks_timeout_milliseconds : Option (Option ℕ)
  pub allow_insecure_loopback_http : Bool

pub data IdentityProvider : Type 0 where
  oidc_provider : OidcProvider → IdentityProvider
  local_demo_provider : IdentityProvider

unfoldable pub context_of : IdentityProvider → IdentityContext
context_of (oidc_provider p) = record {
  authentication_method = oidc;
  identity_trust_domain_id = oidc_identity_trust_domain_id p;
}
context_of local_demo_provider = record {
  authentication_method = demo;
  identity_trust_domain_id = local_trust_domain;
}

-- `configurationError`
abbrev pub refuse_if : Bool → Result (Unit {0})
refuse_if b = fail_if b invalid_auth_configuration 500

abbrev pub present {ℓ} : {A : Type ℓ} → Option A → Result A
present none = fail invalid_auth_configuration 500
present (some a) = ok a

abbrev pub max_clock_skew_seconds : ℕ
max_clock_skew_seconds = 300

unfoldable pub require_finite_non_negative_integer : Option ℕ → Result ℕ
require_finite_non_negative_integer value = do
  n ← present value
  refuse_if (not (leb n max_safe_integer))
  ok n

abbrev drop_open : Text → Text
drop_open [] = []
drop_open (c ∷ s) = if c == b'[' then s else c ∷ s

drop_close : Text → Text
drop_close [] = []
drop_close (c ∷ s) = let rest = drop_close s in if is_empty s && c == b']' then [] else c ∷ rest

unfoldable pub is_loopback_hostname : Text → Bool
unfolding drop_close
is_loopback_hostname hostname =
    let normalized = drop_close (drop_open (lower hostname)) in
    text_eq normalized (lit "localhost")
    || (text_eq normalized (lit "::1") || text_eq normalized (lit "127.0.0.1"))

-- The tests of `validateUrl` on the URL.
unfoldable pub is_provider_url : Bool → Url → Bool
is_provider_url allow_insecure u =
    (is_empty u.username && (is_empty u.password && is_empty u.hash))
    && (text_eq u.protocol (lit "https:")
        || (allow_insecure
            && (text_eq u.protocol (lit "http:") && is_loopback_hostname u.hostname)))

unfoldable pub validate_url : Host → Bool → Text → Result (Unit {0})
validate_url host allow_insecure value = do
  u ← present (host.parse_url value)
  refuse_if (not (is_provider_url allow_insecure u))

unfoldable pub role_of : Text → Option ActorRole
role_of t = find (λ role. text_eq (role_text role) t) (agent ∷ approver ∷ consumer ∷ admin ∷ [])

abbrev add_role :
    Text → Option ActorRole → Option (List (Text × ActorRole)) → Option (List (Text × ActorRole))
add_role source (some role) (some rest) =
    if is_empty source then none else some ((source, role) ∷ rest)
add_role source none rest = none
add_role source (some role) none = none

abbrev role_in : Json → Option ActorRole
role_in (str t) = role_of t
role_in _ = none

-- The entries, where each maps a non-empty value to a role.
unfoldable pub role_entries : Fields → Option (List (Text × ActorRole))
role_entries end = some []
role_entries (field source role rest) = add_role source (role_in role) (role_entries rest)

abbrev pub is_nil {ℓ} : {A : Type ℓ} → List A → Bool
is_nil [] = true
is_nil (a ∷ as_) = false

unfoldable pub require_role_mapping : Fields → Result (List (Text × ActorRole))
require_role_mapping mapping = do
  entries ← present (role_entries mapping)
  refuse_if (is_nil entries)
  ok entries

unfoldable pub default_role_mapping : Fields
default_role_mapping = fields (
    (lit "agent", str (lit "agent"))
    ∷ (lit "approver", str (lit "approver"))
    ∷ (lit "consumer", str (lit "consumer"))
    ∷ (lit "admin", str (lit "admin"))
    ∷ [])

abbrev add_algorithm : Option JwtAlgorithm → Option (List JwtAlgorithm) → Option (List JwtAlgorithm)
add_algorithm (some a) (some rest) = some (a ∷ rest)
add_algorithm none rest = none
add_algorithm (some a) none = none

unfoldable pub supported_algorithms : List Text → Option (List JwtAlgorithm)
supported_algorithms [] = some []
supported_algorithms (t ∷ ts) =
    add_algorithm (find (λ a. text_eq (algorithm_text a) t) (rs256 ∷ ps256 ∷ es256 ∷ []))
      (supported_algorithms ts)

unfoldable pub require_algorithms : List Text → Result (List JwtAlgorithm)
require_algorithms names = do
  refuse_if (is_nil names || not (length (add_all [] names) == length names))
  present (supported_algorithms names)

abbrev is_token_type_option : Option Text → Bool
is_token_type_option none = true
is_token_type_option (some t) = text_eq t (lit "JWT") || text_eq t (lit "at+jwt")

unfoldable pub require_clock_skew : Option ℕ → Result ℕ
require_clock_skew value = do
  skew ← require_finite_non_negative_integer value
  refuse_if (ltb max_clock_skew_seconds skew)
  ok skew

unfoldable pub require_positive : Option ℕ → Result ℕ
require_positive value = do n ← require_finite_non_negative_integer value; refuse_if (n == 0); ok n

unfoldable pub require_lifetime : Option (Option ℕ) → Result (Option ℕ)
require_lifetime none = ok none
require_lifetime (some value) = do n ← require_positive value; ok (some n)

unfoldable pub require_audiences : List Text → Result (List Text)
require_audiences values = do
  refuse_if (is_nil values || any is_empty values)
  ok (add_all [] values)

module _ (host : Host) (given : Dependencies) where
  -- The constructor of `OidcIdentityProvider`.
  unfoldable pub new_oidc_provider : OidcOptions → Result OidcProvider
  new_oidc_provider o = do
    validate_url host o.allow_insecure_loopback_http o.issuer
    validate_url host o.allow_insecure_loopback_http o.jwks_uri
    audiences ← require_audiences o.audience
    let role_claim = or_default o.role_claim (lit "roles")
    refuse_if (is_empty role_claim)
    mapping ← require_role_mapping (or_default o.role_mapping default_role_mapping)
    algorithms ← require_algorithms (or_default o.allowed_algorithms (lit "RS256" ∷ []))
    refuse_if (not (is_token_type_option o.required_token_type))
    skew ← require_clock_skew (or_default o.clock_skew_seconds (some 60))
    lifetime ← require_lifetime o.max_token_lifetime_seconds
    cache ← require_finite_non_negative_integer (or_default o.jwks_cache_seconds (some 300))
    refresh ← require_finite_non_negative_integer (or_default o.jwks_refresh_seconds (some 30))
    _ ← require_positive (or_default o.jwks_timeout_milliseconds (some 5000))
    ok (record {
      issuer = o.issuer;
      audiences = audiences;
      jwks_uri = o.jwks_uri;
      role_claim = role_claim;
      role_mapping = mapping;
      allowed_algorithms = algorithms;
      required_token_type = o.required_token_type;
      clock_skew_seconds = skew;
      max_token_lifetime_seconds = lifetime;
      jwks_cache_seconds = cache;
      jwks_refresh_seconds = refresh;
      clock = given.clock;
      fetch = given.fetch;
      sha256 = given.sha256;
      public_key = given.public_key;
      verify = given.verify;
      platform = given.platform;
    })
