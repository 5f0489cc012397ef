-- ===== src/Http/Providers.antt =====
-- The identity providers of src/auth.ts as the handler uses them.
use parimit.Common.{◌≡◌, refl, ◌∙◌, ap, true, [], ◌∷◌, ◌++◌, all, length, &&-eq-true, arith, ==_iff}
use parimit.Text.{Text, lit}
use parimit.Types.{oidc, demo}
use parimit.Result.{ok}
use parimit.Service.{Service}
use parimit.Service.Validation.{is_identifier, is_identifier_unit}
use parimit.Envelope.Claims.{local_trust_domain}
use parimit.Envelope.Reading.{is_sha256_hex, is_hex}
use parimit.Auth.{AuthenticatedActor, Headers, is_actor_id}
use parimit.Auth.Provider.{OidcProvider, ProviderState}
use parimit.Auth.Accept.{stable_actor_id}
use parimit.Auth.Domain.{oidc_identity_trust_domain_id}
use parimit.Auth.Oidc.{authenticate}
use parimit.Auth.Demo.{authenticate_demo}
use parimit.Auth.Trust.{authenticate-Trusted}
use parimit.Http.{IdentityProvider}
use parimit.Http.Handler.{is_valid_actor}

unfoldable pub oidc_provider : OidcProvider → IdentityProvider ProviderState
oidc_provider p = record {
  authentication_method = oidc;
  identity_trust_domain_id = oidc_identity_trust_domain_id p;
  authenticate = authenticate p;
}

unfoldable pub demo_provider : IdentityProvider (Unit {0})
demo_provider = record {
  authentication_method = demo;
  identity_trust_domain_id = local_trust_domain;
  authenticate = λ headers s. (authenticate_demo headers, s);
}

hex-identifier : (s : Text) → all is_hex s ≡ true → all is_identifier_unit s ≡ true
hex-identifier [] h = refl
hex-identifier (c ∷ s) h = ground (arith, hex-identifier s)

-- The digest behind its prefix is an identifier of at most 128 characters.
digest-is_actor_id : (s : Text) → is_sha256_hex s ≡ true → is_actor_id (lit "oidc:" ++ s) ≡ true
unfolding is_actor_id is_identifier is_sha256_hex lit
digest-is_actor_id s h =
    let (long, hex) = &&-eq-true _ _ h in
    let n : length s ≡ 64 = (==_iff _ _).0 long in rw (hex-identifier s hex, n) refl

-- Where SHA-256 gives 64 hexadecimal digits, the handler accepts every actor that the OIDC provider
-- authenticates for a service in OIDC mode.
pub authenticate-valid :
    (svc : Service) (p : OidcProvider) (headers : Headers) (s s' : ProviderState)
    (actor : AuthenticatedActor)
    → svc.authentication_mode ≡ oidc
    → ((t : Text) → is_sha256_hex (p.sha256 t) ≡ true)
    → (oidc_provider p).authenticate headers s ≡ (ok actor, s')
    → is_valid_actor svc actor ≡ true
unfolding oidc_provider is_valid_actor stable_actor_id
authenticate-valid svc p headers s s' actor mode hex h =
    let v = (authenticate-Trusted p headers s s' actor h).vouched in
    let named : is_actor_id actor.actor_id ≡ true =
      ap is_actor_id v.id ∙ digest-is_actor_id _ (hex (p.issuer ++ 0 ∷ actor.subject)) in
    rw (named, v.filled, v.method, mode) refl
