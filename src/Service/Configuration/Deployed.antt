-- ===== src/Service/Configuration/Deployed.antt =====
-- What a service outside demo mode is given.
use parimit.Common.{
  neither, ℕ, ◌≡◌, refl, sym, subst, ap, ◌∙◌, Bool, true, false, not, ◌&&◌, Option, none, some,
  List, [], ◌∷◌,
}
use parimit.Text.{Text, lit, text_eq, text_eq_iff}
use parimit.Types.{AuthenticationMode, oidc, demo}
use parimit.Result.{ok, fail_if, fail_if-eq-ok, >>=-eq-ok, ok_injective, invalid_configuration}
use parimit.Service.Validation.Laws.{of_not}
use parimit.Service.Startup.{in_oidc_mode, mode_text}
use parimit.Service.Configuration.{PolicyOptions, or_default}
use parimit.Service.Configuration.Options.{Host, Settings, is_ephemeral_key, settings_of}
use parimit.Service.Configuration.Settled.{IsTrustDomain, IsStrong, settings_of-IsSettled}
use parimit.Service.Configuration.Environment.{
  Environment, IdentityContext, is_blank, is_missing, parse_positive_environment_integer,
  parse_environment_set, is_demo_mode, authentication_mode_of, provided_domain, identity_domain,
  policy_options, decode_envelope_private_key, is_unstable, environment_options,
  create_service_from_environment,
}

-- A service outside demo mode: nothing that its evidence rests on is a default.
pub record IsDeployed (host : Host) (environment : Environment) (context : Option IdentityContext)
    (s : Settings) : Type 0 where
  pub mode : s.authentication_mode ≡ oidc
  pub secret : IsStrong host s.receipt_secret
  pub stable : s.envelope_signing_key.is_ephemeral ≡ false
  pub key :
      (encoded : Text) × (environment (lit "PARIMIT_ENVELOPE_PRIVATE_KEY_PEM_BASE64")
        ≡ some encoded)
      × (host.to_base64 (host.from_base64 encoded) ≡ encoded)
      × (host.create_private_key (host.to_text (host.from_base64 encoded))
          ≡ some s.envelope_signing_key.private_key)
  pub tenant : environment (lit "PARIMIT_TENANT_ID") ≡ some s.tenant_id
  pub issuer : environment (lit "PARIMIT_ENVELOPE_ISSUER") ≡ some s.envelope_issuer
  pub audience :
      parse_environment_set (environment (lit "PARIMIT_ENVELOPE_AUDIENCES"))
      ≡ some (s.envelope_audience ∷ [])
  pub domain : IsTrustDomain oidc s.identity_trust_domain_id
  pub provider :
      (c : IdentityContext) × (context ≡ some c)
      × (c.authentication_method ≡ oidc)
      × (c.identity_trust_domain_id ≡ s.identity_trust_domain_id)

not_both : (b c : Bool) → b ≡ false → not b && c ≡ false → c ≡ false
not_both true c e h = cc
not_both false c e h = h

oidc_mode_text :
    (mode : AuthenticationMode) → text_eq (lit "oidc") (mode_text mode) ≡ true → mode ≡ oidc
unfolding mode_text text_eq lit
oidc_mode_text oidc e = refl
oidc_mode_text demo e = cc

oidc_mode :
    (t : Text) (mode : AuthenticationMode)
    → text_eq t (lit "oidc") ≡ true
    → t ≡ mode_text mode
    → mode ≡ oidc
oidc_mode t mode h e =
    oidc_mode_text mode ((text_eq_iff _ _).1 (sym ((text_eq_iff t (lit "oidc")).0 h) ∙ e))

given_text :
    (o : Option Text) (d : Text) {t : Text} → is_blank o ≡ false → or_default o d ≡ t → o ≡ some t
given_text none d h e = cc
given_text (some u) d h e = ap some e

given_list :
    (o : Option (List Text)) (d : List Text) {t : List Text}
    → is_missing o ≡ false
    → or_default o d ≡ t
    → o ≡ some t
given_list none d h e = cc
given_list (some u) d h e = ap some e

is_missing-given : (pem : Option Text) → is_missing pem ≡ false → (t : Text) × (pem ≡ some t)
is_missing-given none h = cc
is_missing-given (some t) h = (t, refl)

provided_domain-oidc :
    (method : AuthenticationMode) (d : Text) {domain : Text}
    → provided_domain true method d ≡ ok domain
    → (method ≡ oidc) × (d ≡ domain)
provided_domain-oidc oidc d h =
    let (_, _, returned) = >>=-eq-ok (fail_if _ _ _) _ h in (refl, ok_injective returned)
provided_domain-oidc demo d h =
    let (_, tested, _) = >>=-eq-ok (fail_if _ _ _) _ h in
    let refused : true ≡ false = fail_if-eq-ok true invalid_configuration 500 tested in cc

identity_domain-oidc :
    (context : Option IdentityContext) {domain : Text}
    → identity_domain true context ≡ ok domain
    → (c : IdentityContext) × (context ≡ some c)
      × (c.authentication_method ≡ oidc)
      × (c.identity_trust_domain_id ≡ domain)
unfolding identity_domain
identity_domain-oidc none h = cc
identity_domain-oidc (some c) h =
    let (method, same) =
      provided_domain-oidc c.authentication_method c.identity_trust_domain_id h in
    (c, refl, method, same)

some_injective {ℓ} : {A : Type ℓ} {a b : A} → some a ≡ some b → a ≡ b
some_injective e = cc

identity_domain-at :
    {in_oidc : Bool} (context : Option IdentityContext) {domain : Text}
    → in_oidc ≡ true
    → identity_domain in_oidc context ≡ ok domain
    → identity_domain true context ≡ ok domain
identity_domain-at context {domain} e h = subst (λ b. identity_domain b context ≡ ok domain) e h

decode_envelope_private_key-given :
    (host : Host) (o : Option Text) {pem : Text}
    → decode_envelope_private_key host o ≡ ok (some pem)
    → (encoded : Text) × (o ≡ some encoded)
      × (host.to_base64 (host.from_base64 encoded) ≡ encoded)
      × (host.to_text (host.from_base64 encoded) ≡ pem)
unfolding decode_envelope_private_key
decode_envelope_private_key-given host none h = cc
decode_envelope_private_key-given host (some []) h = cc
decode_envelope_private_key-given host (some (c ∷ s)) h =
    let (_, _, h₁) = >>=-eq-ok (fail_if _ _ _) _ h in
    let (_, tested, returned) = >>=-eq-ok (fail_if _ _ _) _ h₁ in
    let (same, _) =
      neither (not (text_eq (host.to_base64 (host.from_base64 (c ∷ s))) (c ∷ s))) _
        (fail_if-eq-ok _ _ _ tested) in
    (c ∷ s, refl, (text_eq_iff _ _).0 (of_not _ same), some_injective (ok_injective returned))

module _ (host : Host) (environment : Environment) (context : Option IdentityContext) where
  deployed :
      (pem : Option Text) (domain : Text) (ttl : ℕ) (policy : PolicyOptions) {s : Settings}
      → text_eq (authentication_mode_of environment) (lit "oidc") ≡ true
      → is_unstable environment pem
          (parse_environment_set (environment (lit "PARIMIT_ENVELOPE_AUDIENCES")))
        ≡ false
      → decode_envelope_private_key host
          (environment (lit "PARIMIT_ENVELOPE_PRIVATE_KEY_PEM_BASE64"))
        ≡ ok pem
      → identity_domain true context ≡ ok domain
      → settings_of host (environment_options environment pem domain ttl policy) ≡ ok s
      → IsDeployed host environment context s
  unfolding is_unstable
  deployed pem domain ttl policy {s} in_oidc steady pem_read domain_read built =
      let settled = settings_of-IsSettled host _ built in
      let mode = oidc_mode _ _ in_oidc settled.mode in
      let (keyed, rest) = neither (is_missing pem) _ steady in
      let (tenant, rest₁) = neither (is_blank _) _ rest in
      let (issuer, audience) = neither (is_blank _) _ rest₁ in
      let (text, is_given) = is_missing-given pem keyed in
      let (encoded, kept, canonical, decoded) =
        decode_envelope_private_key-given host _ (pem_read ∙ ap ok is_given) in
      let (c, provided, method, same) = identity_domain-oidc context domain_read in
      record {
        mode = mode;
        secret = settled.secret mode;
        stable = settled.key.kept ∙ ap is_ephemeral_key is_given;
        key = (
          encoded,
          kept,
          canonical,
          ap host.create_private_key decoded ∙ settled.key.given text is_given,
        );
        tenant = given_text _ _ tenant settled.tenant;
        issuer = given_text _ _ issuer settled.issuer;
        audience = given_list _ _ audience settled.audience;
        domain = subst (λ m. IsTrustDomain m s.identity_trust_domain_id) mode settled.domain;
        provider = (c, provided, method, same ∙ settled.given_domain domain refl);
      }

  -- A service that starts outside demo mode is in OIDC mode under a receipt secret of at least 32 bytes
  -- that is not the default; it signs with the key that the environment gives in canonical base64, not
  -- with a generated one; its tenant, its issuer and its one audience are those of the environment; and
  -- its trust domain is a SHA-256 digest, that of the validated OIDC provider.
  pub create_service_from_environment-IsDeployed :
      {s : Settings}
      → is_demo_mode environment ≡ false
      → create_service_from_environment host environment context ≡ ok s
      → IsDeployed host environment context s
  unfolding create_service_from_environment
  create_service_from_environment-IsDeployed live h =
      let (_, tested, h₁) = >>=-eq-ok (fail_if _ _ _) _ h in
      let (_, _, h₂) = >>=-eq-ok (fail_if _ _ _) _ h₁ in
      let (pem, pem_read, h₃) = >>=-eq-ok (decode_envelope_private_key host _) _ h₂ in
      let (_, _, h₄) = >>=-eq-ok (fail_if _ _ _) _ h₃ in
      let (_, told, h₅) = >>=-eq-ok (fail_if _ _ _) _ h₄ in
      let (domain, domain_read, h₆) = >>=-eq-ok (identity_domain _ context) _ h₅ in
      let (_, _, h₇) = >>=-eq-ok (parse_positive_environment_integer _ _) _ h₆ in
      let (_, _, built) = >>=-eq-ok (policy_options environment) _ h₇ in
      let in_oidc = of_not _ (not_both _ _ live (fail_if-eq-ok _ _ _ tested)) in
      let steady = not_both _ _ live (fail_if-eq-ok _ _ _ told) in
      deployed pem domain _ _ in_oidc steady pem_read
        (identity_domain-at context in_oidc domain_read) built

provided_domain-matches :
    (in_oidc : Bool) (method : AuthenticationMode) (d : Text) {domain : Text}
    → provided_domain in_oidc method d ≡ ok domain
    → (in_oidc ≡ in_oidc_mode method) × (d ≡ domain)
provided_domain-matches in_oidc oidc d h =
    let (_, tested, returned) = >>=-eq-ok (fail_if _ _ _) _ h in
    (of_not _ (fail_if-eq-ok _ _ _ tested), ok_injective returned)
provided_domain-matches in_oidc demo d h =
    let (_, tested, returned) = >>=-eq-ok (fail_if _ _ _) _ h in
    (fail_if-eq-ok _ _ _ tested, ok_injective returned)

same_mode : (m n : AuthenticationMode) → text_eq (mode_text m) (lit "oidc") ≡ in_oidc_mode n → m ≡ n
unfolding mode_text text_eq lit
same_mode oidc oidc e = refl
same_mode demo demo e = refl
same_mode oidc demo e = cc
same_mode demo oidc e = cc

module _ (host : Host) (environment : Environment) (c : IdentityContext) where
  -- The service is in the mode of the identity provider, and in its trust domain.
  pub create_service_from_environment-context :
      {s : Settings}
      → create_service_from_environment host environment (some c) ≡ ok s
      → (s.authentication_mode ≡ c.authentication_method)
        × (s.identity_trust_domain_id ≡ c.identity_trust_domain_id)
  unfolding create_service_from_environment identity_domain
  create_service_from_environment-context {s} h =
      let (_, _, h₁) = >>=-eq-ok (fail_if _ _ _) _ h in
      let (_, _, h₂) = >>=-eq-ok (fail_if _ _ _) _ h₁ in
      let (pem, _, h₃) = >>=-eq-ok (decode_envelope_private_key host _) _ h₂ in
      let (_, _, h₄) = >>=-eq-ok (fail_if _ _ _) _ h₃ in
      let (_, _, h₅) = >>=-eq-ok (fail_if _ _ _) _ h₄ in
      let (domain, domain_read, h₆) = >>=-eq-ok (identity_domain _ (some c)) _ h₅ in
      let (_, _, h₇) = >>=-eq-ok (parse_positive_environment_integer _ _) _ h₆ in
      let (_, _, built) = >>=-eq-ok (policy_options environment) _ h₇ in
      let settled = settings_of-IsSettled host _ built in
      let (matches, same) = provided_domain-matches _ c.authentication_method _ domain_read in
      (
        same_mode s.authentication_mode c.authentication_method
            (sym (ap (λ t. text_eq t (lit "oidc")) settled.mode) ∙ matches),
        sym (same ∙ settled.given_domain domain refl),
      )
