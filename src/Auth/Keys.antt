-- ===== src/Auth/Keys.antt =====
-- The keys of the identity provider: `fetchJwks`, and `getJwks` with its cache.
use parimit.Common.{ℕ, ◌+◌, Bool, Option, none, some, ltb, leb, if◌then◌else◌}
use parimit.Result.{Result, ok, fail, auth_provider_unavailable}
use parimit.Exec.{◌>>=◌, ◌>>◌, pure, lift}
use parimit.Auth.Document.{read_keys, maximum_age}
use parimit.Auth.Provider.{OidcProvider, JwksCache, Attempt, now_seconds, fetch_response}

abbrev available : {A : Type 0} → Option A → Result A
available none = fail auth_provider_unavailable 503
available (some a) = ok a

abbrev pub min : ℕ → ℕ → ℕ
min a b = if leb a b then a else b

-- `Math.min(advertisedMaximumAge ?? this.jwksCacheSeconds, this.jwksCacheSeconds)`
abbrev pub cache_seconds : Option ℕ → ℕ → ℕ
cache_seconds none configured = min configured configured
cache_seconds (some advertised) configured = min advertised configured

abbrev pub cached : Attempt (Option JwksCache)
cached s = (ok s.cache, s)

abbrev keep : JwksCache → Attempt (Unit {0})
keep c s = (ok tt, record s { cache = some c })

abbrev pub fresh_cache : Option JwksCache → ℕ → Option JwksCache
fresh_cache none now = none
fresh_cache (some c) now = if ltb now c.expires_at_seconds then some c else none

module _ (p : OidcProvider) where
  unfoldable pub fetch_jwks : Attempt JwksCache
  fetch_jwks = do
    outcome ← fetch_response p
    response ← lift (available outcome)
    keys ← lift (available (read_keys p.platform response))
    now ← now_seconds p
    pure (record {
      keys = keys;
      fetched_at_seconds = now;
      expires_at_seconds =
          now + cache_seconds (maximum_age response.cache_control) p.jwks_cache_seconds;
    })

  -- No two calls run at once, so that `fetchInFlight` is undefined here.
  unfoldable pub refetch : Attempt JwksCache
  refetch = do fresh ← fetch_jwks; keep fresh; pure fresh

  abbrev pub use_or_fetch : Option JwksCache → Attempt JwksCache
  use_or_fetch none = refetch
  use_or_fetch (some c) = pure c

  unfoldable pub get_jwks : Bool → Attempt JwksCache
  get_jwks force_refresh = do
    now ← now_seconds p
    cache ← cached
    use_or_fetch (if force_refresh then none else fresh_cache cache now)
