-- ===== src/Auth/Claims.antt =====
-- The registered claims of a token (`validateRegisteredClaims`), and the roles that it maps to.
use parimit.Common.{
  ℕ, ◌+◌, ◌-◌, Bool, true, false, not, ◌&&◌, Option, none, some, List, [], ◌∷◌, ltb, leb,
  if◌then◌else◌, any, all, length,
}
use parimit.Text.{Text, lit, text_eq, is_empty}
use parimit.Json.{Json, num, str, Fields, get_field}
use parimit.Result.{Result, ok, fail, role_not_authorized, ambiguous_role}
use parimit.Service.Integrity.Payloads.{is_str, string_array}
use parimit.Auth.{ActorRole, same_role}
use parimit.Auth.Provider.{OidcProvider}

abbrev matches_any : List Text → Option (List Text) → Bool
matches_any audiences none = false
matches_any audiences (some entries) = any (λ e. any (text_eq e) audiences) entries

-- `audienceMatches`: an empty array matches none.
unfoldable pub audience_matches : Option Json → List Text → Bool
audience_matches (some (str t)) audiences = any (text_eq t) audiences
audience_matches claim audiences = matches_any audiences (string_array claim)

abbrev all_filled : Option (List Text) → List Text
all_filled none = []
all_filled (some ts) = if all (λ t. not (is_empty t)) ts then ts else []

-- `claimValues`
unfoldable pub claim_values : Option Json → List Text
claim_values (some (str t)) = if is_empty t then [] else t ∷ []
claim_values claim = all_filled (string_array claim)

abbrev pub is_subject : Option Json → Bool
is_subject (some (str s)) = not (is_empty s) && leb (length s) 1024
is_subject claim = false

-- `claims.nbf` is missing, or not after now and before the end.
abbrev pub has_begun : ℕ → ℕ → ℕ → Option Json → Bool
has_begun now skew exp none = true
has_begun now skew exp (some (num n)) = leb n (now + skew) && ltb n exp
has_begun now skew exp (some v) = false

-- `claims.exp - claims.iat` is within `maxTokenLifetimeSeconds`, where there is one.
abbrev pub is_short_lived : ℕ → Option ℕ → Option Json → Bool
is_short_lived exp none iat = true
is_short_lived exp (some longest) (some (num n)) = leb (exp - n) longest
is_short_lived exp (some longest) iat = false

module _ (p : OidcProvider) where
  abbrev pub lives : Fields → ℕ → Option Json → Bool
  lives claims now (some (num exp)) =
      ltb now (exp + p.clock_skew_seconds)
      && (has_begun now p.clock_skew_seconds exp (get_field (lit "nbf") claims)
          && (has_begun now p.clock_skew_seconds exp (get_field (lit "iat") claims)
              && is_short_lived exp p.max_token_lifetime_seconds (get_field (lit "iat") claims)))
  lives claims now claim = false

  -- `validateRegisteredClaims` does not throw.
  unfoldable pub are_registered : Fields → ℕ → Bool
  are_registered claims now =
      is_str p.issuer (get_field (lit "iss") claims)
      && (audience_matches (get_field (lit "aud") claims) p.audiences
          && (is_subject (get_field (lit "sub") claims)
              && lives claims now (get_field (lit "exp") claims)))

  abbrev pub mapped : Text → List (Text × ActorRole) → Option ActorRole
  mapped value [] = none
  mapped value ((k, role) ∷ rest) = if text_eq k value then some role else mapped value rest

  abbrev add_role : Option ActorRole → List ActorRole → List ActorRole
  add_role none roles = roles
  add_role (some r) roles = if any (same_role r) roles then roles else r ∷ roles

  -- The set of the roles that the values map to.
  unfoldable pub mapped_roles : List Text → List ActorRole
  mapped_roles [] = []
  mapped_roles (v ∷ vs) = add_role (mapped v p.role_mapping) (mapped_roles vs)

-- `mappedRoles.size` must be 1.
unfoldable pub only_role : List ActorRole → Result ActorRole
only_role [] = fail role_not_authorized 403
only_role (r ∷ []) = ok r
only_role (r ∷ s ∷ rest) = fail ambiguous_role 403
