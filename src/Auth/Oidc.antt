-- ===== src/Auth/Oidc.antt =====
-- `OidcIdentityProvider.authenticate`.
use parimit.Common.{ℕ, ◌+◌, Bool, true, false, Option, none, some, leb, if◌then◌else◌}
use parimit.Json.{Fields}
use parimit.Exec.{◌>>=◌, pure, lift}
use parimit.Auth.{AuthenticatedActor, Headers, or_refuse}
use parimit.Auth.Header.{JwtHeader, select_key}
use parimit.Auth.Provider.{OidcProvider, JwksCache, Attempt, now_seconds}
use parimit.Auth.Keys.{get_jwks, cached}
use parimit.Auth.Accept.{read_token, accept}

module _ (p : OidcProvider) where
  -- `now - this.cache.fetchedAtSeconds >= this.jwksRefreshSeconds`
  abbrev pub may_refresh : Option JwksCache → ℕ → Bool
  may_refresh none now = false
  may_refresh (some c) now = leb (c.fetched_at_seconds + p.jwks_refresh_seconds) now

  unfoldable pub select_again : JwtHeader → Attempt (Option Fields)
  select_again header = do again ← get_jwks p true; lift (select_key header again.keys)

  -- Where no key fits, the keys are fetched again, at most once per `jwksRefreshSeconds`.
  abbrev pub found_or_again : JwtHeader → Option Fields → Bool → Attempt (Option Fields)
  found_or_again header (some key) due = pure (some key)
  found_or_again header none due = if due then select_again header else pure none

  -- What follows the keys that are there.
  unfoldable pub choose : JwtHeader → JwksCache → Attempt (Fields × ℕ)
  choose header first = do
    found ← lift (select_key header first.keys)
    now ← now_seconds p
    cache ← cached
    key ← found_or_again header found (may_refresh cache now)
    jwk ← lift (or_refuse key)
    pure (jwk, now)

  -- The key that must have signed, and the time that the claims are judged by.
  unfoldable pub find_key : JwtHeader → Attempt (Fields × ℕ)
  find_key header = do first ← get_jwks p false; choose header first

  unfoldable pub authenticate : Headers → Attempt AuthenticatedActor
  authenticate headers = do
    t ← lift (read_token p headers)
    found ← find_key t.header
    lift (accept p t found.0 found.1)
