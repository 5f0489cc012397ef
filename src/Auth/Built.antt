-- ===== src/Auth/Built.antt =====
-- What the constructor of `OidcIdentityProvider` makes of the options that it accepts.
use parimit.Common.{
  neither, ℕ, ◌≤◌, ◌≡◌, refl, sym, subst, ap, Bool, true, false, Option, none, some, List, [], ◌∷◌,
  ◌==◌, arith,
}
use parimit.Text.{Text, is_empty}
use parimit.Result.{ok, fail_if, fail_if-eq-ok, >>=-eq-ok, ok_injective}
use parimit.Auth.Provider.{OidcProvider}
use parimit.Service.Validation.Laws.{of_not}
use parimit.Service.Policy.{has}
use parimit.Service.Configuration.{add_all}
use parimit.Service.Configuration.Laws.{not_ltb}
use parimit.Service.Configuration.Options.{Host, Url}
use parimit.Service.Configuration.Environment.{Environment, non_blank}
use parimit.Auth.Options.{
  Dependencies, OidcOptions, present, is_provider_url, validate_url, max_clock_skew_seconds,
  new_oidc_provider, require_clock_skew, require_positive, require_lifetime, require_audiences,
  require_role_mapping, require_algorithms, require_finite_non_negative_integer,
}
use parimit.Auth.Environment.{required_variable}

present-eq-ok {ℓ} : {A : Type ℓ} (o : Option A) {a : A} → present o ≡ ok a → o ≡ some a
present-eq-ok none h = cc
present-eq-ok (some a) h = ap some (ok_injective h)

not_zero : (n : ℕ) → n == 0 ≡ false → 1 ≤ n
not_zero n h = ground arith

module _ (host : Host) where
  validate_url-eq-ok :
      (b : Bool) (t : Text) {v : Unit {0}}
      → validate_url host b t ≡ ok v
      → (u : Url) × (host.parse_url t ≡ some u) × (is_provider_url b u ≡ true)
  unfolding validate_url
  validate_url-eq-ok b t h =
      let (u, read, tested) = >>=-eq-ok (present (host.parse_url t)) _ h in
      (u, present-eq-ok _ read, of_not _ (fail_if-eq-ok _ _ _ tested))

  pub record IsBuilt (o : OidcOptions) (p : OidcProvider) : Type 0 where
    pub issuer : o.issuer ≡ p.issuer
    pub issuer_form :
        (u : Url) × (host.parse_url o.issuer ≡ some u)
        × (is_provider_url o.allow_insecure_loopback_http u ≡ true)
    pub jwks_uri : o.jwks_uri ≡ p.jwks_uri
    pub jwks_form :
        (u : Url) × (host.parse_url o.jwks_uri ≡ some u)
        × (is_provider_url o.allow_insecure_loopback_http u ≡ true)
    pub audience : require_audiences o.audience ≡ ok p.audiences
    pub skew : p.clock_skew_seconds ≤ max_clock_skew_seconds
    pub lifetime : require_lifetime o.max_token_lifetime_seconds ≡ ok p.max_token_lifetime_seconds

require_clock_skew-eq-ok :
    (v : Option ℕ) {skew : ℕ} → require_clock_skew v ≡ ok skew → skew ≤ max_clock_skew_seconds
unfolding require_clock_skew
require_clock_skew-eq-ok v h =
    let (n, _, h₁) = >>=-eq-ok (require_finite_non_negative_integer v) _ h in
    let (_, tested, returned) = >>=-eq-ok (fail_if _ _ _) _ h₁ in
    subst (λ m. m ≤ max_clock_skew_seconds) (ok_injective returned)
      (not_ltb max_clock_skew_seconds n (fail_if-eq-ok _ _ _ tested))

require_positive-eq-ok : (v : Option ℕ) {n : ℕ} → require_positive v ≡ ok n → 1 ≤ n
unfolding require_positive
require_positive-eq-ok v h =
    let (n, _, h₁) = >>=-eq-ok (require_finite_non_negative_integer v) _ h in
    let (_, tested, returned) = >>=-eq-ok (fail_if _ _ _) _ h₁ in
    subst (λ m. 1 ≤ m) (ok_injective returned) (not_zero n (fail_if-eq-ok _ _ _ tested))

pub require_lifetime-some :
    (v : Option ℕ) {lifetime : Option ℕ}
    → require_lifetime (some v) ≡ ok lifetime
    → (n : ℕ) × (lifetime ≡ some n) × (1 ≤ n)
unfolding require_lifetime
require_lifetime-some v h =
    let (n, read, returned) = >>=-eq-ok (require_positive v) _ h in
    (n, sym (ok_injective returned), require_positive-eq-ok v read)

pub require_audiences-single :
    (t : Text) {audiences : List Text}
    → require_audiences (t ∷ []) ≡ ok audiences
    → (is_empty t ≡ false) × (audiences ≡ t ∷ [])
unfolding require_audiences add_all has
require_audiences-single t h =
    let (_, tested, returned) = >>=-eq-ok (fail_if _ _ _) _ h in
    ((neither _ _ (fail_if-eq-ok _ _ _ tested)).0, sym (ok_injective returned))

module _ (host : Host) (given : Dependencies) where
  pub new_oidc_provider-IsBuilt :
      (o : OidcOptions) {p : OidcProvider}
      → new_oidc_provider host given o ≡ ok p
      → IsBuilt host o p
  unfolding new_oidc_provider
  new_oidc_provider-IsBuilt o h =
      let (_, issuer, h₁) = >>=-eq-ok (validate_url host _ _) _ h in
      let (_, jwks, h₂) = >>=-eq-ok (validate_url host _ _) _ h₁ in
      let (audiences, audience, h₃) = >>=-eq-ok (require_audiences _) _ h₂ in
      let (_, _, h₄) = >>=-eq-ok (fail_if _ _ _) _ h₃ in
      let (mapping, _, h₅) = >>=-eq-ok (require_role_mapping _) _ h₄ in
      let (algorithms, _, h₆) = >>=-eq-ok (require_algorithms _) _ h₅ in
      let (_, _, h₇) = >>=-eq-ok (fail_if _ _ _) _ h₆ in
      let (skew, skewed, h₈) = >>=-eq-ok (require_clock_skew _) _ h₇ in
      let (lifetime, lasting, h₉) = >>=-eq-ok (require_lifetime _) _ h₈ in
      let (cache, _, hₐ) = >>=-eq-ok (require_finite_non_negative_integer _) _ h₉ in
      let (refresh, _, hₑ) = >>=-eq-ok (require_finite_non_negative_integer _) _ hₐ in
      let (_, _, returned) = >>=-eq-ok (require_positive _) _ hₑ in
      subst (IsBuilt host o) (ok_injective returned) (record {
        issuer = refl;
        issuer_form = validate_url-eq-ok host _ _ issuer;
        jwks_uri = refl;
        jwks_form = validate_url-eq-ok host _ _ jwks;
        audience = audience;
        skew = require_clock_skew-eq-ok _ skewed;
        lifetime = lasting;
      })

present_text : (o : Option Text) {t : Text} → present (non_blank o) ≡ ok t → o ≡ some t
present_text none h = cc
present_text (some []) h = cc
present_text (some (c ∷ s)) h = ap some (ok_injective h)

pub required_variable-eq-ok :
    (environment : Environment) (name : Text) {t : Text}
    → required_variable environment name ≡ ok t
    → environment name ≡ some t
unfolding required_variable
required_variable-eq-ok environment name h = present_text (environment name) h
