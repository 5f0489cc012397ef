-- ===== src/Service/Configuration/Environment.antt =====
-- src/service.ts, `createServiceFromEnvironment` and its helpers: the settings of the service that it
-- starts. An environment maps the name of a variable to its text, `none` where it is not set.
use parimit.Common.{
  ℕ, Bool, true, false, not, ◌&&◌, ◌||◌, ◌%◌, Option, none, some, List, [], ◌∷◌, ◌==◌, length,
  if◌then◌else◌,
}
use parimit.Text.{Text, lit, text_eq, is_empty, trim, lower, is_alphanumeric}
use parimit.Text.Decimal.{number, is_positive_decimal}
use parimit.Types.{AuthenticationMode, oidc, demo}
use parimit.Result.{Result, ok, fail, fail_if, ◌>>=◌, ◌>>◌, invalid_configuration, demo_only_build}
use parimit.Envelope.Claims.{local_trust_domain}
use parimit.Auth.Document.{split_commas}
use parimit.Service.Policy.{default_policy}
use parimit.Service.Configuration.{PolicyOptions, or_default}
use parimit.Service.Configuration.Options.{
  Host, ServiceOptions, Settings, settings_of, default_receipt_secret, default_tenant_id,
  default_envelope_issuer, default_audiences, default_envelope_ttl_seconds, is_weak_secret,
}

abbrev pub Environment : Type 0
Environment = Text → Option Text

-- What the identity provider, validated at startup, tells of itself.
pub record IdentityContext : Type 0 where
  pub authentication_method : AuthenticationMode
  pub identity_trust_domain_id : Text

-- `!value`
abbrev pub is_blank : Option Text → Bool
is_blank none = true
is_blank (some t) = is_empty t

abbrev pub is_missing {ℓ} : {A : Type ℓ} → Option A → Bool
is_missing none = true
is_missing (some a) = false

-- `value || undefined`
abbrev pub non_blank : Option Text → Option Text
non_blank none = none
non_blank (some t) = if is_empty t then none else some t

-- `Number` rounds what is over 2^53 - 1, and the constructor refuses it, rounded or not.
unfoldable pub parse_positive_environment_integer : Option Text → ℕ → Result ℕ
parse_positive_environment_integer none fallback = ok fallback
parse_positive_environment_integer (some []) fallback = ok fallback
parse_positive_environment_integer (some (c ∷ s)) fallback = do
  fail_if (not (is_positive_decimal (c ∷ s))) invalid_configuration 500
  ok (number (c ∷ s))

-- `.map((item) => item.trim()).filter(Boolean)`
unfoldable pub trimmed_items : List Text → List Text
trimmed_items [] = []
trimmed_items (t ∷ ts) =
    let rest = trimmed_items ts in if is_empty (trim t) then rest else trim t ∷ rest

unfoldable pub parse_environment_set : Option Text → Option (List Text)
parse_environment_set none = none
parse_environment_set (some value) =
    if is_empty (trim value) then none else some (trimmed_items (split_commas value))

-- `environment[primary] ?? environment[alias]`
unfoldable pub environment_value : Environment → Text → Text → Option Text
environment_value environment primary alias = elim (environment primary) [
  | none ↦ environment alias
  | some value ↦ some value
]

-- `={0,2}$`: at most two, at the end.
abbrev is_padding : Text → Bool
is_padding s = text_eq s [] || (text_eq s (lit "=") || text_eq s (lit "=="))

abbrev is_base64_unit : ℕ → Bool
is_base64_unit c = is_alphanumeric c || (c == b'+' || c == b'/')

base64_tail : Text → Bool
base64_tail [] = true
base64_tail (c ∷ s) = if is_base64_unit c then base64_tail s else is_padding (c ∷ s)

-- `/^[A-Za-z0-9+/]+={0,2}$/`
unfoldable pub is_base64 : Text → Bool
unfolding base64_tail
is_base64 [] = false
is_base64 (c ∷ s) = is_base64_unit c && base64_tail s

unfoldable pub is_demo_mode : Environment → Bool
is_demo_mode environment =
    let value = lower (or_default (environment (lit "PARIMIT_DEMO_MODE")) (lit "true")) in
    text_eq value (lit "true") || text_eq value (lit "1")

unfoldable pub authentication_mode_of : Environment → Text
authentication_mode_of environment =
    or_default (environment (lit "PARIMIT_AUTH_MODE")) (lit "demo_headers")

abbrev pub provided_domain : Bool → AuthenticationMode → Text → Result Text
provided_domain in_oidc oidc domain = do fail_if (not in_oidc) invalid_configuration 500; ok domain
provided_domain in_oidc demo domain = do fail_if in_oidc invalid_configuration 500; ok domain

-- `validatedIdentityProvider` against the mode; whatever is wrong is an invalid configuration.
unfoldable pub identity_domain : Bool → Option IdentityContext → Result Text
identity_domain true none = fail invalid_configuration 500
identity_domain false none = ok local_trust_domain
identity_domain in_oidc (some context) =
    provided_domain in_oidc context.authentication_method context.identity_trust_domain_id

unfoldable pub policy_options : Environment → Result PolicyOptions
policy_options environment = do
  per_transaction ←
      parse_positive_environment_integer
        (environment_value environment (lit "PARIMIT_PER_TX_LIMIT")
          (lit "PARIMIT_PER_TRANSACTION_LIMIT_MINOR"))
        default_policy.per_transaction_limit_minor
  daily ←
      parse_positive_environment_integer
        (environment_value environment (lit "PARIMIT_DAILY_AGENT_LIMIT")
          (lit "PARIMIT_DAILY_AGENT_LIMIT_MINOR"))
        default_policy.daily_agent_limit_minor
  threshold ←
      parse_positive_environment_integer
        (environment_value environment (lit "PARIMIT_DUAL_APPROVAL_THRESHOLD")
          (lit "PARIMIT_DUAL_APPROVAL_THRESHOLD_MINOR"))
        default_policy.dual_approval_threshold_minor
  default_expiry ←
      parse_positive_environment_integer
        (environment_value environment (lit "PARIMIT_INTENT_TTL_SECONDS")
          (lit "PARIMIT_DEFAULT_EXPIRY_SECONDS"))
        default_policy.default_expiry_seconds
  max_expiry ←
      parse_positive_environment_integer (environment (lit "PARIMIT_MAX_EXPIRY_SECONDS"))
        default_policy.max_expiry_seconds
  ok (record {
    rules_version = none;
    per_transaction_limit_minor = some per_transaction;
    daily_agent_limit_minor = some daily;
    dual_approval_threshold_minor = some threshold;
    default_expiry_seconds = some default_expiry;
    max_expiry_seconds = some max_expiry;
    blocked_payees =
        some (or_default (parse_environment_set (environment (lit "PARIMIT_BLOCKED_PAYEES"))) []);
    allowed_payees = some (parse_environment_set (environment (lit "PARIMIT_ALLOWED_PAYEES")));
  })

module _ (environment : Environment) where
  unfoldable pub receipt_secret_of : Text
  receipt_secret_of =
      or_default
        (environment_value environment (lit "PARIMIT_RECEIPT_KEY") (lit "PARIMIT_RECEIPT_SECRET"))
        default_receipt_secret

  -- What a service outside demo mode has to be told.
  unfoldable pub is_unstable : Option Text → Option (List Text) → Bool
  is_unstable pem audiences =
      is_missing pem
      || (is_blank (environment (lit "PARIMIT_TENANT_ID"))
          || (is_blank (environment (lit "PARIMIT_ENVELOPE_ISSUER")) || is_missing audiences))

  -- The argument of `new ParimitService`.
  abbrev pub environment_options : Option Text → Text → ℕ → PolicyOptions → ServiceOptions
  environment_options pem domain ttl policy = record {
    receipt_secret = some receipt_secret_of;
    authentication_mode = some (authentication_mode_of environment);
    identity_trust_domain_id = some domain;
    tenant_id = some (or_default (environment (lit "PARIMIT_TENANT_ID")) default_tenant_id);
    envelope_issuer =
        some (or_default (environment (lit "PARIMIT_ENVELOPE_ISSUER")) default_envelope_issuer);
    envelope_signing_private_key_pem = pem;
    envelope_signing_key_id = non_blank (environment (lit "PARIMIT_ENVELOPE_SIGNING_KEY_ID"));
    envelope_ttl_seconds = some ttl;
    envelope_audiences = some (
        or_default (parse_environment_set (environment (lit "PARIMIT_ENVELOPE_AUDIENCES")))
          default_audiences);
    policy = policy;
  }

module _ (host : Host) where
  unfoldable pub decode_envelope_private_key : Option Text → Result (Option Text)
  decode_envelope_private_key none = ok none
  decode_envelope_private_key (some []) = ok none
  decode_envelope_private_key (some (c ∷ s)) = do
    fail_if (not (is_base64 (c ∷ s) && length (c ∷ s) % 4 == 0)) invalid_configuration 500
    let decoded = host.from_base64 (c ∷ s)
    fail_if (not (text_eq (host.to_base64 decoded) (c ∷ s)) || is_empty decoded)
        invalid_configuration 500
    ok (some (host.to_text decoded))

  unfoldable pub create_service_from_environment :
      Environment → Option IdentityContext → Result Settings
  create_service_from_environment environment context = do
    let mode = authentication_mode_of environment
    let in_oidc = text_eq mode (lit "oidc")
    fail_if (not (is_demo_mode environment) && not in_oidc) demo_only_build 500
    fail_if (not (text_eq mode (lit "demo_headers")) && not in_oidc) invalid_configuration 500
    pem ← decode_envelope_private_key (environment (lit "PARIMIT_ENVELOPE_PRIVATE_KEY_PEM_BASE64"))
    let audiences = parse_environment_set (environment (lit "PARIMIT_ENVELOPE_AUDIENCES"))
    fail_if (in_oidc && is_weak_secret host (receipt_secret_of environment)) invalid_configuration
        500
    fail_if (not (is_demo_mode environment) && is_unstable environment pem audiences)
        invalid_configuration 500
    domain ← identity_domain in_oidc context
    ttl ←
        parse_positive_environment_integer (environment (lit "PARIMIT_ENVELOPE_TTL_SECONDS"))
          default_envelope_ttl_seconds
    policy ← policy_options environment
    settings_of host (environment_options environment pem domain ttl policy)
