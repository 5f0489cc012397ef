-- ===== src/Http/Started.antt =====
-- Who a started server believes.
use parimit.Common.{
  neither, ℕ, ◌≤◌, ◌≡◌, refl, subst, ap, ◌∙◌, ◌⊎◌, inl, inr, Bool, true, false, not, ◌&&◌, Option,
  none, some, [], ◌∷◌, leb→le, if◌then◌else◌,
}
use parimit.Text.{text_eq, text_eq_iff, Text, lit, is_empty}
use parimit.Result.{
  Result, ok, fail, fail_if, fail_if-eq-ok, >>=-eq-ok, ok_injective, invalid_auth_configuration,
}
use parimit.Auth.Provider.{OidcProvider}
use parimit.Service.Validation.Laws.{of_not}
use parimit.Service.Configuration.{or_default}
use parimit.Service.Configuration.Options.{Host, Url}
use parimit.Service.Configuration.Environment.{
  is_demo_mode, authentication_mode_of, Environment, create_service_from_environment,
}
use parimit.Service.Configuration.Deployed.{create_service_from_environment-context}
use parimit.Auth.Options.{
  Dependencies, IdentityProvider, oidc_provider, local_demo_provider, context_of,
  is_loopback_hostname, is_provider_url, max_clock_skew_seconds, new_oidc_provider,
}
use parimit.Auth.Environment.{
  is_on, host_of, parse_role_mapping, required_variable, new_local_demo_provider, oidc_options,
  oidc_from_environment, create_identity_provider_from_environment,
}
use parimit.Auth.Built.{
  new_oidc_provider-IsBuilt, require_lifetime-some, require_audiences-single,
  required_variable-eq-ok,
}
use parimit.Http.Server.{
  effective_environment, require_port_number, require_port, Server, start_server,
}

module _ (host : Host) where
  -- An HTTPS URL without credentials and fragment.
  abbrev pub IsSecure : Text → Type 0
  IsSecure t = (u : Url) × (host.parse_url t ≡ some u) × (is_provider_url false u ≡ true)

  pub record IsBelieved (environment : Environment) (p : OidcProvider) : Type 0 where
    pub issuer : environment (lit "PARIMIT_OIDC_ISSUER") ≡ some p.issuer
    pub issuer_form : IsSecure p.issuer
    pub jwks_uri : environment (lit "PARIMIT_OIDC_JWKS_URI") ≡ some p.jwks_uri
    pub jwks_form : IsSecure p.jwks_uri
    pub audience :
        (t : Text) × (environment (lit "PARIMIT_OIDC_AUDIENCE") ≡ some t)
        × (is_empty t ≡ false)
        × (p.audiences ≡ t ∷ [])
    pub skew : p.clock_skew_seconds ≤ max_clock_skew_seconds
    pub lifetime : (n : ℕ) × (p.max_token_lifetime_seconds ≡ some n) × (1 ≤ n)

  -- The headers are believed in demo mode only, on a loopback host or where the escape hatch is open.
  abbrev pub IsAdmitted : Environment → IdentityProvider → Type 0
  IsAdmitted environment local_demo_provider =
      (or_default (environment (lit "PARIMIT_AUTH_MODE")) [] ≡ lit "demo_headers")
      × (is_on (environment (lit "PARIMIT_DEMO_MODE")) ≡ true)
      × ((is_loopback_hostname (host_of environment) ≡ true)
          ⊎ (is_on (environment (lit "PARIMIT_DEMO_ALLOW_NON_LOOPBACK_HEADERS")) ≡ true))
  IsAdmitted environment (oidc_provider p) =
      (or_default (environment (lit "PARIMIT_AUTH_MODE")) [] ≡ lit "oidc")
      × IsBelieved environment p

  -- The same of the environment that the server is given, in which demo mode is on where the variable is
  -- not set.
  abbrev pub IsGiven : Environment → IdentityProvider → Type 0
  IsGiven environment local_demo_provider =
      (authentication_mode_of environment ≡ lit "demo_headers")
      × (is_demo_mode environment ≡ true)
      × ((is_loopback_hostname (host_of environment) ≡ true)
          ⊎ (is_on (environment (lit "PARIMIT_DEMO_ALLOW_NON_LOOPBACK_HEADERS")) ≡ true))
  IsGiven environment (oidc_provider p) =
      (authentication_mode_of environment ≡ lit "oidc") × IsBelieved environment p

  -- The service is in the mode of the provider that authenticates its requests, and in its trust domain.
  pub record IsStarted (environment : Environment) (server : Server) : Type 0 where
    pub given : IsGiven environment server.identity_provider
    pub mode :
        server.service.authentication_mode
        ≡ (context_of server.identity_provider).authentication_method
    pub domain :
        server.service.identity_trust_domain_id
        ≡ (context_of server.identity_provider).identity_trust_domain_id
    pub port : server.port ≤ 65535

one_holds : (b c : Bool) → not b && not c ≡ false → (b ≡ true) ⊎ (c ≡ true)
one_holds true c h = inl refl
one_holds false c h = inr (of_not c h)

one_chosen :
    (b c : Bool) (first second : Result IdentityProvider) {provider : IdentityProvider}
    → (if b then first else if c then second else fail invalid_auth_configuration 500) ≡ ok provider
    → ((b ≡ true) × (first ≡ ok provider)) ⊎ ((c ≡ true) × (second ≡ ok provider))
one_chosen true c first second h = inl (refl, h)
one_chosen false true first second h = inr (refl, h)
one_chosen false false first second h = cc

new_local_demo_provider-IsAdmitted :
    (host : Host) (environment : Environment) {provider : IdentityProvider}
    → or_default (environment (lit "PARIMIT_AUTH_MODE")) [] ≡ lit "demo_headers"
    → new_local_demo_provider
        (is_on (environment (lit "PARIMIT_DEMO_MODE")))
        (host_of environment)
        (is_on (environment (lit "PARIMIT_DEMO_ALLOW_NON_LOOPBACK_HEADERS")))
      ≡ ok provider
    → IsAdmitted host environment provider
unfolding new_local_demo_provider
new_local_demo_provider-IsAdmitted host environment named h =
    let (_, tested, returned) = >>=-eq-ok (fail_if _ _ _) _ h in
    let (demo_mode, bound) = neither _ _ (fail_if-eq-ok _ _ _ tested) in
    subst (IsAdmitted host environment) (ok_injective returned)
      (named, of_not _ demo_mode, one_holds _ _ bound)

require_port_number-eq-ok :
    (o : Option ℕ) {port : ℕ} → require_port_number o ≡ ok port → port ≤ 65535
require_port_number-eq-ok none h = cc
require_port_number-eq-ok (some n) h =
    let (_, tested, returned) = >>=-eq-ok (fail_if _ _ _) _ h in
    subst (λ m. m ≤ 65535) (ok_injective returned)
      (leb→le n 65535 (of_not _ (fail_if-eq-ok _ _ _ tested)))

require_port-eq-ok :
    (host : Host) (environment : Environment) {port : ℕ}
    → require_port host environment ≡ ok port
    → port ≤ 65535
unfolding require_port
require_port-eq-ok host environment h = require_port_number-eq-ok _ h

module _ (host : Host) (given : Dependencies) (environment : Environment) where
  oidc_from_environment-IsAdmitted :
      {provider : IdentityProvider}
      → or_default (environment (lit "PARIMIT_AUTH_MODE")) [] ≡ lit "oidc"
      → oidc_from_environment host given environment ≡ ok provider
      → IsAdmitted host environment provider
  unfolding oidc_from_environment oidc_options
  oidc_from_environment-IsAdmitted mode h =
      let (issuer, issuer_read, h₁) = >>=-eq-ok (required_variable environment _) _ h in
      let (audience, audience_read, h₂) = >>=-eq-ok (required_variable environment _) _ h₁ in
      let (jwks_uri, jwks_read, h₃) = >>=-eq-ok (required_variable environment _) _ h₂ in
      let (_, _, h₄) = >>=-eq-ok (required_variable environment _) _ h₃ in
      let (mapping, _, h₅) = >>=-eq-ok (parse_role_mapping host _) _ h₄ in
      let (p, made, returned) = >>=-eq-ok (new_oidc_provider host given _) _ h₅ in
      let built = new_oidc_provider-IsBuilt host given _ made in
      let (named, only) = require_audiences-single audience built.audience in
      let believed : IsBelieved host environment p = record {
        issuer = required_variable-eq-ok environment _ issuer_read ∙ ap some built.issuer;
        issuer_form = subst (IsSecure host) built.issuer built.issuer_form;
        jwks_uri = required_variable-eq-ok environment _ jwks_read ∙ ap some built.jwks_uri;
        jwks_form = subst (IsSecure host) built.jwks_uri built.jwks_form;
        audience = (audience, required_variable-eq-ok environment _ audience_read, named, only);
        skew = built.skew;
        lifetime = require_lifetime-some _ built.lifetime;
      } in
      subst (IsAdmitted host environment) (ok_injective returned) (mode, believed)

  create_identity_provider_from_environment-IsAdmitted :
      {provider : IdentityProvider}
      → create_identity_provider_from_environment host given environment ≡ ok provider
      → IsAdmitted host environment provider
  unfolding create_identity_provider_from_environment
  create_identity_provider_from_environment-IsAdmitted h =
      let mode = or_default (environment (lit "PARIMIT_AUTH_MODE")) [] in
      elim (one_chosen (text_eq mode (lit "demo_headers")) (text_eq mode (lit "oidc"))
        (new_local_demo_provider (is_on (environment (lit "PARIMIT_DEMO_MODE")))
          (host_of environment)
          (is_on (environment (lit "PARIMIT_DEMO_ALLOW_NON_LOOPBACK_HEADERS"))))
        (oidc_from_environment host given environment) h) [
          | inl (named, headers) ↦
              new_local_demo_provider-IsAdmitted host environment ((text_eq_iff _ _).0 named)
                headers
          | inr (named, tokens) ↦
              oidc_from_environment-IsAdmitted ((text_eq_iff _ _).0 named) tokens
        ]

-- The variables that `startServer` sets have their defaults, and the others are left as they are.
IsAdmitted-IsGiven :
    (host : Host) (environment : Environment) (provider : IdentityProvider)
    → IsAdmitted host (effective_environment environment) provider
    → IsGiven host environment provider
unfolding effective_environment authentication_mode_of is_demo_mode is_on host_of text_eq lit
IsAdmitted-IsGiven host environment local_demo_provider admitted = admitted
IsAdmitted-IsGiven host environment (oidc_provider p) (mode, believed) = (
  mode,
  record {
    issuer = believed.issuer;
    issuer_form = believed.issuer_form;
    jwks_uri = believed.jwks_uri;
    jwks_form = believed.jwks_form;
    audience = believed.audience;
    skew = believed.skew;
    lifetime = believed.lifetime;
  },
)

-- Where `startServer` returns: PARIMIT_AUTH_MODE names the provider, the local demo headers where it is
-- not set. The headers are believed only where PARIMIT_DEMO_MODE is on or not set, and only on a loopback
-- host or where the container escape hatch is open. An OIDC provider has the issuer, the key endpoint and
-- the one audience that the environment names, the first two HTTPS URLs without credentials and fragment,
-- a clock skew of at most 300 seconds and a bounded token lifetime. The service is in the mode of the
-- provider that authenticates its requests, and in its trust domain; and the port is at most 65535.
pub start_server-IsStarted :
    (host : Host) (given : Dependencies) (environment : Environment) {server : Server}
    → start_server host given environment ≡ ok server
    → IsStarted host environment server
unfolding start_server
start_server-IsStarted host given environment h =
    let (provider, provided, h₁) =
      >>=-eq-ok (create_identity_provider_from_environment host given _) _ h in
    let (service, created, h₂) = >>=-eq-ok (create_service_from_environment host _ _) _ h₁ in
    let (port, bound, returned) = >>=-eq-ok (require_port host _) _ h₂ in
    let (mode, domain) = create_service_from_environment-context host _ _ created in
    let admitted = create_identity_provider_from_environment-IsAdmitted host given _ provided in
    subst (IsStarted host environment) (ok_injective returned) (record {
      given = IsAdmitted-IsGiven host environment provider admitted;
      mode = mode;
      domain = domain;
      port = require_port-eq-ok host _ bound;
    })
