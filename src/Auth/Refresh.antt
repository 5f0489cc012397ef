-- ===== src/Auth/Refresh.antt =====
-- How often `authenticate` asks the identity provider for its keys.
use parimit.Common.{
  ℕ, suc, ◌+◌, ◌/◌, ◌≤◌, ◌≡◌, refl, Bool, true, false, Option, none, some, arith, inl, inr,
  Option-cases,
}
use parimit.Result.{Result, ok, err, ok_injective}
use parimit.Exec.{Step, resume}
use parimit.Json.{Fields}
use parimit.Auth.{Headers}
use parimit.Auth.Header.{JwtHeader}
use parimit.Auth.Provider.{OidcProvider, JwksCache, ProviderState, now_seconds, fetch_response}
use parimit.Auth.Keys.{get_jwks, fetch_jwks, refetch, use_or_fetch, fresh_cache}
use parimit.Auth.Choice.{fresh_cache-eq-some}
use parimit.Auth.Accept.{read_token}
use parimit.Auth.Oidc.{find_key, choose, select_again, found_or_again, may_refresh, authenticate}

-- What holds where a step ends, returned or thrown, holds where the next one ends if that keeps it.
resume-ends :
    {A B S : Type 0} (Q : S → Type 0) (k : A → Step S B) (r : Result A) (v : S)
    → Q v
    → ((a : A) → r ≡ ok a → Q (k a v).1)
    → Q (resume k r v).1
unfolding resume
resume-ends Q k (ok a) v q h = h a refl
resume-ends Q k (err e) v q h = q

module _ (p : OidcProvider) where
  abbrev WithinOf : ℕ → ProviderState → Type 0
  WithinOf n s = s.fetches ≤ n

  fetch_jwks-fetches : (s : ProviderState) → (fetch_jwks p s).1.fetches ≤ suc s.fetches
  unfolding fetch_jwks fetch_response now_seconds
  fetch_jwks-fetches s =
      resume-ends (WithinOf (suc s.fetches)) _ (ok (p.fetch s.fetches)) _ (omega arith) λ outcome e.
        resume-ends (WithinOf (suc s.fetches)) _ _ _ (omega arith) λ response e.
          resume-ends (WithinOf (suc s.fetches)) _ _ _ (omega arith) λ keys e.
            resume-ends (WithinOf (suc s.fetches)) _ _ _ (omega arith) λ now e. omega arith

  refetch-fetches : (s : ProviderState) → (refetch p s).1.fetches ≤ suc s.fetches
  unfolding refetch
  refetch-fetches s = resume-ends (WithinOf (suc s.fetches)) _ _ _ (fetch_jwks-fetches s) λ c e.
      resume-ends (WithinOf (suc s.fetches)) _ _ _ (fetch_jwks-fetches s)
        λ _ e. fetch_jwks-fetches s

  use_or_fetch-fetches :
      (o : Option JwksCache) (s : ProviderState) → (use_or_fetch p o s).1.fetches ≤ suc s.fetches
  use_or_fetch-fetches none s = refetch-fetches s
  use_or_fetch-fetches (some c) s = omega arith

  get_jwks-fetches :
      (force : Bool) (s : ProviderState) → (get_jwks p force s).1.fetches ≤ suc s.fetches
  unfolding get_jwks now_seconds resume
  get_jwks-fetches force s = use_or_fetch-fetches _ _

  select_again-fetches :
      (header : JwtHeader) (s : ProviderState) → (select_again p header s).1.fetches ≤ suc s.fetches
  unfolding select_again
  select_again-fetches header s =
      resume-ends (WithinOf (suc s.fetches)) _ _ _ (get_jwks-fetches true s)
        λ again e. get_jwks-fetches true s

  -- One request where a refresh is due, and none otherwise.
  abbrev once : Bool → ℕ
  once true = 1
  once false = 0

  once-le : (b : Bool) → once b ≤ 1
  once-le true = omega arith
  once-le false = omega arith

  found_or_again-fetches :
      (header : JwtHeader) (found : Option Fields) (due : Bool) (s : ProviderState)
      → (found_or_again p header found due s).1.fetches ≤ s.fetches + once due
  found_or_again-fetches header (some key) due s = omega arith
  found_or_again-fetches header none true s = omega (arith, select_again-fetches header s)
  found_or_again-fetches header none false s = omega arith

  -- The requests that a call may make, from the cache that it can use and the time of its second reading
  -- of the clock.
  abbrev allowance : Option JwksCache → ℕ → ℕ
  allowance none now = 2
  allowance (some c) now = once (may_refresh p (some c) now)

  abbrev pub budget : ProviderState → ℕ
  budget s =
      allowance (fresh_cache s.cache (p.clock s.clock_reads / 1000))
        (p.clock (suc s.clock_reads) / 1000)

  -- The choice of the key, after the first keys were got in the state `v`.
  choice-fetches :
      (header : JwtHeader) (n : ℕ) (v : ProviderState) (r : Result JwksCache)
      → v.fetches + once (may_refresh p v.cache (p.clock v.clock_reads / 1000)) ≤ n
      → (resume (choose p header) r v).1.fetches ≤ n
  unfolding choose now_seconds
  choice-fetches header n v r h = resume-ends (WithinOf n) _ _ _ (omega arith) λ first e₁.
      resume-ends (WithinOf n) _ _ _ (omega arith) λ found e₂.
        resume-ends (WithinOf n) _ (ok (p.clock v.clock_reads / 1000)) _ (omega arith) λ now e₃.
          resume-ends (WithinOf n) _ (ok v.cache) _ (omega arith) λ cache e₄.
            let at_v : ProviderState = record v { clock_reads = suc v.clock_reads } in
            let asked : (found_or_again p header found (may_refresh p cache now) at_v).1.fetches
                ≤ v.fetches + once (may_refresh p cache now) =
              found_or_again-fetches header found (may_refresh p cache now) at_v in
            let within : v.fetches + once (may_refresh p cache now) ≤ n =
              rw (← ok_injective e₃, ← ok_injective e₄) h in
            let total : (found_or_again p header found (may_refresh p cache now) at_v).1.fetches
                ≤ n =
              omega (arith, asked, within) in
            resume-ends (WithinOf n) _ _ _ total
              λ key e₅. resume-ends (WithinOf n) _ _ _ total λ jwk e₆. total

  fresh-get_jwks :
      (s : ProviderState) (c : JwksCache)
      → fresh_cache s.cache (p.clock s.clock_reads / 1000) ≡ some c
      → get_jwks p false s ≡ (ok c, record s { clock_reads = suc s.clock_reads })
  unfolding get_jwks now_seconds resume
  fresh-get_jwks s c e = rw e refl

  stale-find_key :
      (header : JwtHeader) (s : ProviderState) → (find_key p header s).1.fetches ≤ s.fetches + 2
  unfolding find_key
  stale-find_key header s =
      choice-fetches header (s.fetches + 2) _ _
        (omega (arith, get_jwks-fetches false s, once-le (may_refresh p _ _)))

  fresh-find_key :
      (header : JwtHeader) (s : ProviderState) (c : JwksCache)
      → fresh_cache s.cache (p.clock s.clock_reads / 1000) ≡ some c
      → (find_key p header s).1.fetches
        ≤ s.fetches + once (may_refresh p (some c) (p.clock (suc s.clock_reads) / 1000))
  unfolding find_key
  fresh-find_key header s c fresh =
      rw (fresh-get_jwks s c fresh)
        (choice-fetches header _ _ (ok c) (rw (fresh_cache-eq-some s.cache _ fresh) (omega arith)))

  find_key-fetches :
      (header : JwtHeader) (s : ProviderState)
      → (find_key p header s).1.fetches ≤ s.fetches + budget s
  find_key-fetches header s =
      elim (Option-cases (fresh_cache s.cache (p.clock s.clock_reads / 1000))) [
        | inl stale ↦ rw stale (stale-find_key header s)
        | inr (c, fresh) ↦ rw fresh (fresh-find_key header s c fresh)
      ]

  -- Whatever the token, and whether it is accepted or not, `authenticate` asks for the keys at most
  -- twice; at most once where the keys in the cache have not expired; and not at all if they were also
  -- fetched less than `jwksRefreshSeconds` ago.
  pub authenticate-fetches :
      (headers : Headers) (s : ProviderState)
      → (authenticate p headers s).1.fetches ≤ s.fetches + budget s
  unfolding authenticate
  authenticate-fetches headers s =
      resume-ends (WithinOf (s.fetches + budget s)) _ (read_token p headers) s (omega arith) λ t e.
        resume-ends (WithinOf (s.fetches + budget s)) _ _ _ (find_key-fetches t.header s)
          λ found e'. find_key-fetches t.header s
