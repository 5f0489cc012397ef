-- ===== src/Auth.antt =====
-- src/auth.ts: who sent a request. `Oidc` verifies bearer tokens against the keys of an identity
-- provider, `Demo` trusts the headers of the local demo.
pub mod Token
pub mod Header
pub mod Provider
pub mod Document
pub mod Keys
pub mod Claims
pub mod Accept
pub mod Domain
pub mod Oidc
pub mod Demo
pub mod Choice
pub mod Trust
pub mod Refresh
pub mod Options
pub mod Environment
pub mod Built
use parimit.Common.{
  ℕ, Bool, true, false, ◌&&◌, leb, length, Option, none, some, List, [], ◌∷◌, select,
}
use parimit.Text.{Text, lit, text_eq, lower}
use parimit.Service.Validation.{is_identifier}
use parimit.Types.{AuthenticationMode}
use parimit.Result.{Result, ok, fail, invalid_token}

pub data ActorRole : Type 0 where
  agent approver consumer admin : ActorRole

unfoldable pub role_text : ActorRole → Text
role_text agent = lit "agent"
role_text approver = lit "approver"
role_text consumer = lit "consumer"
role_text admin = lit "admin"

-- `left === right`
abbrev pub same_role : ActorRole → ActorRole → Bool
same_role agent agent = true
same_role approver approver = true
same_role consumer consumer = true
same_role admin admin = true
same_role _ _ = false

pub record AuthenticatedActor : Type 0 where
  pub actor_id : Text
  pub actor_role : ActorRole
  pub subject : Text
  pub authentication_method : AuthenticationMode
  pub issuer : Option Text

-- `/^[A-Za-z0-9][A-Za-z0-9._:@/+\-]*$/`, of 1 to 128 characters.
unfoldable pub is_actor_id : Text → Bool
is_actor_id s = is_identifier s && leb (length s) 128

-- A header is undefined, has one value, or has several.
pub data HeaderValue : Type 0 where
  undefined : HeaderValue
  single : Text → HeaderValue
  several : List Text → HeaderValue

-- `AuthenticationHeaders`
abbrev pub Headers : Type 0
Headers = List (Text × HeaderValue)

-- What `authenticate` throws on any defect of the token.
abbrev pub refuse : {A : Type 0} → Result A
refuse = fail invalid_token 401

abbrev pub or_refuse : {A : Type 0} → Option A → Result A
or_refuse none = refuse
or_refuse (some a) = ok a

abbrev value_of : HeaderValue → Result (Option Text)
value_of undefined = ok none
value_of (single v) = ok (some v)
value_of (several vs) = refuse

abbrev only_value : Headers → Result (Option Text)
only_value [] = ok none
only_value (h ∷ []) = value_of h.1
only_value (h ∷ g ∷ hs) = refuse

unfoldable pub read_single_header : Headers → Text → Result (Option Text)
read_single_header headers name =
    only_value (select (λ h. text_eq (lower h.0) (lower name)) headers)
