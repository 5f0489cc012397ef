-- ===== src/Auth/Domain.antt =====
-- `oidcIdentityTrustDomainId` of src/identity-trust.ts: the digest of the configuration.
use parimit.Common.{ℕ, Option, none, some, List, [], ◌∷◌, ◌++◌, map}
use parimit.Text.{Text, lit}
use parimit.Json.{Json, null, num, str, arr, obj, Fields, end, field}
use parimit.Json.Build.{object, strings, nullable}
use parimit.Json.Canonical.{canonical_json}
use parimit.Service.Policy.{sort_texts}
use parimit.Auth.{ActorRole, role_text}
use parimit.Auth.Header.{algorithm_text}
use parimit.Auth.Provider.{OidcProvider}

abbrev nullable_number : Option ℕ → Json
nullable_number none = null
nullable_number (some n) = num n

abbrev mapping_fields : List (Text × ActorRole) → Fields
mapping_fields [] = end
mapping_fields ((value, role) ∷ rest) = field value (str (role_text role)) (mapping_fields rest)

module _ (p : OidcProvider) where
  unfoldable pub trust_configuration : Json
  trust_configuration = object (
      (lit "version", str (lit "parimit-oidc-identity-trust-v1"))
      ∷ (lit "issuer", str p.issuer)
      ∷ (lit "audiences", arr (strings (sort_texts p.audiences)))
      ∷ (lit "jwks_uri", str p.jwks_uri)
      ∷ (lit "role_claim", str p.role_claim)
      ∷ (lit "role_mapping", obj (mapping_fields p.role_mapping))
      ∷ (
        lit "allowed_algorithms",
        arr (strings (sort_texts (map algorithm_text p.allowed_algorithms))),
      )
      ∷ (lit "required_token_type", nullable p.required_token_type)
      ∷ (lit "clock_skew_seconds", num p.clock_skew_seconds)
      ∷ (lit "max_token_lifetime_seconds", nullable_number p.max_token_lifetime_seconds)
      ∷ [])

  unfoldable pub oidc_identity_trust_domain_id : Text
  oidc_identity_trust_domain_id = lit "sha256:" ++ p.sha256 (canonical_json trust_configuration)
