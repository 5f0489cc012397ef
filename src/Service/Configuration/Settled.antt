-- ===== src/Service/Configuration/Settled.antt =====
-- What the settings that the constructor accepts guarantee.
use parimit.Common.{
  neither, ℕ, ◌≤◌, ◌≡◌, refl, sym, subst, ap, ◌∙◌, Bool, true, false, ◌&&◌, Option, none, some,
  List, [], ◌∷◌, leb→le, &&-eq-true, length, if◌then◌else◌,
}
use parimit.Text.{Text, lit, text_eq, text_eq_iff}
use parimit.Json.{str}
use parimit.Types.{AuthenticationMode, oidc, demo}
use parimit.Result.{
  ok, fail, fail_if, fail_if-eq-ok, >>=-eq-ok, ok_injective, invalid_configuration,
}
use parimit.Envelope.Reading.{is_sha256_hex}
use parimit.Envelope.Claims.{after_prefix, local_trust_domain}
use parimit.Service.Validation.{is_string, is_identifier, require_identifier}
use parimit.Service.Validation.Laws.{
  IsIdentifier, of_not, require_string-eq-ok, require_identifier-eq-ok,
}
use parimit.Service.Startup.{in_oidc_mode, mode_text}
use parimit.Service.Configuration.{or_default, configure_policy}
use parimit.Service.Configuration.Laws.{
  IsConfigured, configure_policy-IsConfigured, require_safe_positive_integer-eq-ok, not_ltb,
}
use parimit.Service.Configuration.Options.{
  Host, KeyObject, Url, EnvelopeSigningKey, ServiceOptions, Settings, default_receipt_secret,
  default_tenant_id, default_envelope_issuer, default_audiences, is_trust_url, trust_url,
  require_mode, require_trust_domain, is_other_domain, require_ttl, the_only, require_trust_uri,
  require_trust_uris, require_audience, private_key_of, read_key, is_ephemeral_key,
  normalized_public_jwk, create_envelope_signing_key, is_weak_secret, settings_of,
}

-- The local domain, or the digest that names the verifier's whole configuration.
abbrev pub IsTrustDomain : AuthenticationMode → Text → Type 0
IsTrustDomain demo domain = domain ≡ local_trust_domain
IsTrustDomain oidc domain = after_prefix (lit "sha256:") is_sha256_hex domain ≡ true

module _ (host : Host) where
  -- A text whose URL is an HTTPS URL or a URN, without credentials, query or fragment.
  pub record IsTrustUri (t : Text) : Type 0 where
    pub form : is_string 512 t ≡ true
    pub url : (u : Url) × (host.parse_url t ≡ some u) × (is_trust_url u ≡ true)

  pub record IsSigningKey (pem : Option Text) (key : EnvelopeSigningKey) : Type 0 where
    pub type : key.private_key.asymmetric_key_type ≡ lit "ed25519"
    pub short : length key.key_id ≤ 128
    pub form : is_identifier key.key_id ≡ true
    -- it is generated exactly where the options give none
    pub kept : key.is_ephemeral ≡ is_ephemeral_key pem
    pub given : (t : Text) → pem ≡ some t → host.create_private_key t ≡ some key.private_key

  abbrev pub IsStrong : Text → Type 0
  IsStrong secret =
      (text_eq secret default_receipt_secret ≡ false) × (32 ≤ length (host.utf8 secret))

  pub record IsSettled (o : ServiceOptions) (s : Settings) : Type 0 where
    pub mode :
        or_default o.authentication_mode (lit "demo_headers") ≡ mode_text s.authentication_mode
    pub domain : IsTrustDomain s.authentication_mode s.identity_trust_domain_id
    pub given_domain :
        (t : Text) → o.identity_trust_domain_id ≡ some t → t ≡ s.identity_trust_domain_id
    pub tenant : or_default o.tenant_id default_tenant_id ≡ s.tenant_id
    pub tenant_form : IsIdentifier s.tenant_id
    pub issuer : or_default o.envelope_issuer default_envelope_issuer ≡ s.envelope_issuer
    pub issuer_form : IsTrustUri s.envelope_issuer
    pub audience : or_default o.envelope_audiences default_audiences ≡ s.envelope_audience ∷ []
    pub audience_form : IsTrustUri s.envelope_audience
    pub ttl : (1 ≤ s.envelope_ttl_seconds) × (s.envelope_ttl_seconds ≤ 3600)
    pub key : IsSigningKey o.envelope_signing_private_key_pem s.envelope_signing_key
    pub secret : s.authentication_mode ≡ oidc → IsStrong s.receipt_secret
    pub policy : IsConfigured o.policy s.policy

mode_chosen :
    (t : Text) (is_demo is_oidc : Bool) {mode : AuthenticationMode}
    → (is_demo ≡ true → t ≡ lit "demo_headers")
    → (is_oidc ≡ true → t ≡ lit "oidc")
    → (if is_demo then ok demo else if is_oidc then ok oidc else fail invalid_configuration 500)
      ≡ ok mode
    → t ≡ mode_text mode
unfolding mode_text
mode_chosen t true is_oidc demo_text oidc_text h =
    subst (λ m. t ≡ mode_text m) (ok_injective h) (demo_text refl)
mode_chosen t false true demo_text oidc_text h =
    subst (λ m. t ≡ mode_text m) (ok_injective h) (oidc_text refl)
mode_chosen t false false demo_text oidc_text h = cc

require_mode-eq-ok :
    (t : Text) {mode : AuthenticationMode} → require_mode t ≡ ok mode → t ≡ mode_text mode
unfolding require_mode
require_mode-eq-ok t h =
    mode_chosen t (text_eq t (lit "demo_headers")) (text_eq t (lit "oidc"))
      (text_eq_iff t (lit "demo_headers")).0 (text_eq_iff t (lit "oidc")).0 h

same_domain :
    (o : Option Text) → is_other_domain o ≡ false → (t : Text) → o ≡ some t → t ≡ local_trust_domain
same_domain none h t e = cc
same_domain (some u) h t e =
    (text_eq_iff t local_trust_domain).0
      (of_not (text_eq t local_trust_domain) (subst (λ v. is_other_domain v ≡ false) e h))

require_trust_domain-eq-ok :
    (mode : AuthenticationMode) (o : Option Text) {domain : Text}
    → require_trust_domain mode o ≡ ok domain
    → IsTrustDomain mode domain × ((t : Text) → o ≡ some t → t ≡ domain)
unfolding require_trust_domain
require_trust_domain-eq-ok demo o h =
    let (_, tested, returned) = >>=-eq-ok (fail_if _ _ _) _ h in
    (
      sym (ok_injective returned),
      λ t e. same_domain o (fail_if-eq-ok _ _ _ tested) t e ∙ ok_injective returned,
    )
require_trust_domain-eq-ok oidc o h =
    let (_, tested, returned) = >>=-eq-ok (fail_if _ _ _) _ h in
    (
      subst (IsTrustDomain oidc) (ok_injective returned) (of_not _ (fail_if-eq-ok _ _ _ tested)),
      λ t e. sym (ap (λ v. or_default v []) e) ∙ ok_injective returned,
    )

require_ttl-eq-ok : (n : ℕ) {ttl : ℕ} → require_ttl n ≡ ok ttl → (1 ≤ ttl) × (ttl ≤ 3600)
unfolding require_ttl
require_ttl-eq-ok n h =
    let (ttl, read, h₁) = >>=-eq-ok _ _ h in
    let (_, tested, returned) = >>=-eq-ok (fail_if _ _ _) _ h₁ in
    subst (λ m. (1 ≤ m) × (m ≤ 3600)) (ok_injective returned)
      (
        (require_safe_positive_integer-eq-ok n read).0,
        not_ltb 3600 ttl (fail_if-eq-ok _ _ _ tested),
      )

text_of : {s t : Text} → some (str s) ≡ some (str t) → s ≡ t
text_of e = cc

read_key-eq-ok : (o : Option KeyObject) {key : KeyObject} → read_key o ≡ ok key → o ≡ some key
read_key-eq-ok none h = cc
read_key-eq-ok (some key) h = ap some (ok_injective h)

head_eq : {s t : Text} → s ∷ [] ≡ t ∷ [] → s ≡ t
head_eq e = cc

two_or_more {ℓ} :
    {B : Type ℓ} {s t u : Text} {ss ts : List Text} → s ∷ ss ≡ t ∷ [] → u ∷ ts ≡ ss → B
two_or_more e f = cc

require_identifier-given : (t : Text) {s : Text} → require_identifier (some (str t)) ≡ ok s → t ≡ s
unfolding require_identifier
require_identifier-given t h =
    let (s, read, h₁) = >>=-eq-ok _ _ h in
    let (_, _, returned) = >>=-eq-ok (fail_if _ _ _) _ h₁ in
    text_of (require_string-eq-ok 128 (some (str t)) read).0 ∙ ok_injective returned

the_only-eq-ok : (ts : List Text) {t : Text} → the_only ts ≡ ok t → ts ≡ t ∷ []
the_only-eq-ok [] h = cc
the_only-eq-ok (t ∷ []) h = ap (λ u. u ∷ []) (ok_injective h)
the_only-eq-ok (t ∷ u ∷ ts) h = cc

module _ (host : Host) where
  trust_url-eq-ok :
      (o : Option Url) (t : Text) {r : Text}
      → trust_url o t ≡ ok r
      → (t ≡ r) × ((u : Url) × (o ≡ some u) × (is_trust_url u ≡ true))
  trust_url-eq-ok none t h = cc
  trust_url-eq-ok (some u) t h =
      let (_, tested, returned) = >>=-eq-ok (fail_if _ _ _) _ h in
      (ok_injective returned, (u, refl, of_not _ (fail_if-eq-ok _ _ _ tested)))

  require_trust_uri-eq-ok :
      (t : Text) {r : Text} → require_trust_uri host t ≡ ok r → (t ≡ r) × IsTrustUri host r
  unfolding require_trust_uri
  require_trust_uri-eq-ok t h =
      let (s, read, parsed) = >>=-eq-ok _ _ h in
      let (given, form) = require_string-eq-ok 512 (some (str t)) read in
      let (same, url) = trust_url-eq-ok (host.parse_url s) s parsed in
      (text_of given ∙ same, subst (IsTrustUri host) same (record { form = form; url = url }))

  require_trust_uris-only :
      (ts : List Text) {t : Text}
      → require_trust_uris host ts ≡ ok (t ∷ [])
      → (ts ≡ t ∷ []) × IsTrustUri host t
  unfolding require_trust_uris
  require_trust_uris-only [] h = cc
  require_trust_uris-only (u ∷ []) h =
      let (uri, read, h₁) = >>=-eq-ok (require_trust_uri host u) _ h in
      let (same, form) = require_trust_uri-eq-ok u read in
      let only : uri ∷ [] ≡ _ ∷ [] = ok_injective h₁ in
      (ap (λ v. v ∷ []) same ∙ only, subst (IsTrustUri host) (head_eq only) form)
  require_trust_uris-only (u ∷ v ∷ ts) h =
      let (uri, read, h₁) = >>=-eq-ok (require_trust_uri host u) _ h in
      let (uris, rest, returned) = >>=-eq-ok (require_trust_uris host (v ∷ ts)) _ h₁ in
      let (first, _, h₂) = >>=-eq-ok (require_trust_uri host v) _ rest in
      let (others, _, listed) = >>=-eq-ok (require_trust_uris host ts) _ h₂ in
      two_or_more (ok_injective returned) (ok_injective listed)

  require_audience-eq-ok :
      (ts : List Text) {t : Text}
      → require_audience host ts ≡ ok t
      → (ts ≡ t ∷ []) × IsTrustUri host t
  unfolding require_audience
  require_audience-eq-ok ts h =
      let (uris, read, only) = >>=-eq-ok _ _ h in
      require_trust_uris-only ts (read ∙ ap ok (the_only-eq-ok uris only))

  private_key_of-eq-ok :
      (pem : Option Text) {key : KeyObject}
      → private_key_of host pem ≡ ok key
      → (t : Text) → pem ≡ some t
      → host.create_private_key t ≡ some key
  unfolding private_key_of
  private_key_of-eq-ok none h t e = cc
  private_key_of-eq-ok (some u) {key} h t e =
      subst (λ v. host.create_private_key v ≡ some key) (head_eq (ap (λ o. or_default o [] ∷ []) e))
        (read_key-eq-ok (host.create_private_key u) h)

  create_envelope_signing_key-eq-ok :
      (pem configured : Option Text) {key : EnvelopeSigningKey}
      → create_envelope_signing_key host pem configured ≡ ok key
      → IsSigningKey host pem key
  unfolding create_envelope_signing_key
  create_envelope_signing_key-eq-ok pem configured h =
      let (key, read, h₁) = >>=-eq-ok (private_key_of host pem) _ h in
      let (_, type, h₂) = >>=-eq-ok (fail_if _ _ _) _ h₁ in
      let (x, exported, h₃) = >>=-eq-ok (normalized_public_jwk _) _ h₂ in
      let (_, formed, returned) = >>=-eq-ok (fail_if _ _ _) _ h₃ in
      let (low, rest) = &&-eq-true _ _ (of_not _ (fail_if-eq-ok _ _ _ formed)) in
      let (short, form) = &&-eq-true _ _ rest in
      subst (IsSigningKey host pem) (ok_injective returned) (record {
        type = (text_eq_iff _ _).0 (of_not _ (fail_if-eq-ok _ _ _ type));
        short = leb→le _ _ short;
        form = form;
        kept = refl;
        given = private_key_of-eq-ok pem read;
      })

  not_weak : (s : Text) → is_weak_secret host s ≡ false → IsStrong host s
  unfolding is_weak_secret
  not_weak s h =
      let (changed, long) = neither _ _ h in (changed, not_ltb (length (host.utf8 s)) 32 long)

  require_secret :
      (mode : AuthenticationMode) (s : Text)
      → in_oidc_mode mode && is_weak_secret host s ≡ false
      → mode ≡ oidc
      → IsStrong host s
  require_secret demo s h e = cc
  require_secret oidc s h e = not_weak s h

  -- Where the constructor accepts its options: the mode is the one that they name; the tenant is an
  -- identifier; the issuer and the audience, which is the only one named, are HTTPS URLs or URNs without
  -- credentials, query or fragment; an envelope lives at most an hour; the signing key is an Ed25519 key,
  -- the one that the options give where they give one, under an identifier of at most 128 units; the
  -- trust domain is the local one in demo mode and a SHA-256 digest in OIDC mode, and the given one where
  -- one is given; the receipt secret of OIDC mode is not the default one and has at least 32 bytes; and
  -- the policy is well formed.
  pub settings_of-IsSettled :
      (o : ServiceOptions) {s : Settings} → settings_of host o ≡ ok s → IsSettled host o s
  unfolding settings_of
  settings_of-IsSettled o h =
      let (mode, mode_read, h₁) = >>=-eq-ok (require_mode _) _ h in
      let (domain, domain_read, h₂) = >>=-eq-ok (require_trust_domain _ _) _ h₁ in
      let (tenant, tenant_read, h₃) = >>=-eq-ok (require_identifier _) _ h₂ in
      let (issuer, issuer_read, h₄) = >>=-eq-ok (require_trust_uri host _) _ h₃ in
      let (audience, audience_read, h₅) = >>=-eq-ok (require_audience host _) _ h₄ in
      let (ttl, ttl_read, h₆) = >>=-eq-ok (require_ttl _) _ h₅ in
      let (key, key_read, h₇) = >>=-eq-ok (create_envelope_signing_key host _ _) _ h₆ in
      let (_, strong, h₈) = >>=-eq-ok (fail_if _ _ _) _ h₇ in
      let (policy, policy_read, returned) = >>=-eq-ok (configure_policy _) _ h₈ in
      let (domain_form, domain_given) = require_trust_domain-eq-ok mode _ domain_read in
      let (issuer_given, issuer_form) = require_trust_uri-eq-ok _ issuer_read in
      let (audience_given, audience_form) = require_audience-eq-ok _ audience_read in
      subst (IsSettled host o) (ok_injective returned) (record {
        mode = require_mode-eq-ok _ mode_read;
        domain = domain_form;
        given_domain = domain_given;
        tenant = require_identifier-given _ tenant_read;
        tenant_form = require_identifier-eq-ok _ tenant_read;
        issuer = issuer_given;
        issuer_form = issuer_form;
        audience = audience_given;
        audience_form = audience_form;
        ttl = require_ttl-eq-ok _ ttl_read;
        key = create_envelope_signing_key-eq-ok _ _ key_read;
        secret = require_secret mode _ (fail_if-eq-ok _ _ _ strong);
        policy = configure_policy-IsConfigured _ policy_read;
      })
