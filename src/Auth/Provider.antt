-- ===== src/Auth/Provider.antt =====
-- What the constructor of `OidcIdentityProvider` fixes, with what it takes from outside.
use parimit.Common.{ℕ, suc, ◌/◌, Bool, Option, List}
use parimit.Text.{Text}
use parimit.Json.{Fields}
use parimit.Result.{ok}
use parimit.Exec.{Step}
use parimit.Envelope.{Platform}
use parimit.Envelope.Base64.{Bytes}
use parimit.Auth.{ActorRole}
use parimit.Auth.Header.{JwtAlgorithm}

-- A response of the key endpoint. `content_length` is what `Number` makes of the header, `none` where
-- it is not finite; the body comes in chunks.
pub record JwksResponse : Type 0 where
  pub is_ok : Bool
  pub content_length : Option ℕ
  pub cache_control : Option Text
  pub chunks : List Bytes

-- `clock n` is the n-th reading of the clock, `fetch n` the outcome of the n-th request for the keys,
-- `none` where it rejects. `public_key` is the modulus length of the key that `createPublicKey` makes
-- of a JWK, 0 where it has none, and `none` where it throws; `verify` is false where it throws.
pub record OidcProvider : Type 0 where
  pub issuer : Text
  pub audiences : List Text
  pub jwks_uri : Text
  pub role_claim : Text
  pub role_mapping : List (Text × ActorRole)
  pub allowed_algorithms : List JwtAlgorithm
  pub required_token_type : Option Text
  pub clock_skew_seconds : ℕ
  pub max_token_lifetime_seconds : Option ℕ
  pub jwks_cache_seconds : ℕ
  pub jwks_refresh_seconds : ℕ
  pub clock : ℕ → ℕ
  pub fetch : ℕ → Option JwksResponse
  pub sha256 : Text → Text
  pub public_key : Fields → Option ℕ
  pub verify : JwtAlgorithm → Fields → Text → Bytes → Bool
  pub platform : Platform

pub record JwksCache : Type 0 where
  pub keys : List Fields
  pub expires_at_seconds : ℕ
  pub fetched_at_seconds : ℕ

-- `cache` of the provider, and how often the clock and the endpoint were asked.
pub record ProviderState : Type 0 where
  pub cache : Option JwksCache
  pub clock_reads : ℕ
  pub fetches : ℕ

abbrev pub Attempt : Type 0 → Type 0
Attempt A = Step ProviderState A

-- `nowSeconds`
unfoldable pub now_seconds : OidcProvider → Attempt ℕ
now_seconds p s = (ok (p.clock s.clock_reads / 1000), record s { clock_reads = suc s.clock_reads })

unfoldable pub fetch_response : OidcProvider → Attempt (Option JwksResponse)
fetch_response p s = (ok (p.fetch s.fetches), record s { fetches = suc s.fetches })
