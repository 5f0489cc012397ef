-- ===== src/Auth/Choice.antt =====
-- The key by which `authenticate` checks a signature, and the time by which it judges the claims.
use parimit.Common.{
  ℕ, ◌/◌, ◌≤◌, ◌<◌, ◌≡◌, refl, sym, ◌∙◌, ap, Bool, true, false, Option, none, some, List, [], ◌∷◌,
  Memᴰ, arith, select, Memᴰ-select,
}
use parimit.Json.{Fields}
use parimit.Result.{ok, ok_injective}
use parimit.Exec.Yields.{
  Yields, returns, Yields-result, Yields-ok, Yields-then, Yields-lift, Yields-weaken,
}
use parimit.Auth.{or_refuse}
use parimit.Auth.Header.{JwtHeader, is_compatible_jwk, select_key, only_match}
use parimit.Auth.Provider.{OidcProvider, JwksCache, ProviderState, now_seconds, fetch_response}
use parimit.Auth.Keys.{get_jwks, fetch_jwks, refetch, use_or_fetch, fresh_cache}
use parimit.Auth.Oidc.{find_key, choose, select_again, found_or_again}

-- A key that fits, among those that the cache holds.
pub record Chosen (header : JwtHeader) (jwk : Fields) (s : ProviderState) : Type 0 where
  pub cache : JwksCache
  pub cached : s.cache ≡ some cache
  pub listed : Memᴰ jwk cache.keys
  pub compatible : is_compatible_jwk header jwk ≡ true

only_match-Memᴰ :
    (keys : List Fields) {jwk : Fields} → only_match keys ≡ ok (some jwk) → Memᴰ jwk keys
only_match-Memᴰ [] h = cc
only_match-Memᴰ (key ∷ []) {jwk} h = let same : key ≡ jwk = cc in Memᴰ.head (sym same)
only_match-Memᴰ (key ∷ other ∷ rest) h = cc

select_key-Memᴰ :
    (header : JwtHeader) (keys : List Fields) {jwk : Fields}
    → select_key header keys ≡ ok (some jwk)
    → (is_compatible_jwk header jwk ≡ true) × Memᴰ jwk keys
unfolding select_key
select_key-Memᴰ header keys h =
    Memᴰ-select (is_compatible_jwk header) keys
      (only_match-Memᴰ (select (is_compatible_jwk header) keys) h)

pub fresh_cache-eq-some :
    (o : Option JwksCache) (now : ℕ) {c : JwksCache} → fresh_cache o now ≡ some c → o ≡ some c
fresh_cache-eq-some none now h = cc
fresh_cache-eq-some (some d) now h = ground arith

or_refuse-eq-ok : (o : Option Fields) {jwk : Fields} → or_refuse o ≡ ok jwk → o ≡ some jwk
or_refuse-eq-ok none h = cc
or_refuse-eq-ok (some k) h = ap some (ok_injective h)

module _ (p : OidcProvider) where
  -- The cache holds `c`, and the clock was not turned back.
  abbrev IsCached : ProviderState → JwksCache → ProviderState → Type 0
  IsCached s₀ c s = (s.cache ≡ some c) × (s₀.clock_reads ≤ s.clock_reads)

  fetch_jwks-later :
      (s : ProviderState) → Yields (λ c s'. s.clock_reads ≤ s'.clock_reads) (fetch_jwks p s)
  unfolding fetch_jwks fetch_response now_seconds
  fetch_jwks-later s = Yields-ok _ _ _ (
      Yields-result _ _ _
        λ response e. Yields-result _ _ _ λ keys e'. Yields-ok _ _ _ (returns (omega arith)))

  refetch-Cached : (s : ProviderState) → Yields (IsCached s) (refetch p s)
  unfolding refetch
  refetch-Cached s =
      Yields-then _ (fetch_jwks-later s) λ c s' later. Yields-ok _ _ _ (returns (refl, later))

  use_or_fetch-Cached :
      (o : Option JwksCache) (s : ProviderState)
      → ((c : JwksCache) → o ≡ some c → s.cache ≡ some c)
      → Yields (IsCached s) (use_or_fetch p o s)
  use_or_fetch-Cached none s h = refetch-Cached s
  use_or_fetch-Cached (some c) s h = returns (h c refl, omega arith)

  get_jwks-Cached : (force : Bool) (s : ProviderState) → Yields (IsCached s) (get_jwks p force s)
  unfolding get_jwks now_seconds
  get_jwks-Cached true s = Yields-ok _ _ _ (
      Yields-ok _ _ _ (
        Yields-weaken (λ c s' (cached, later). (cached, omega arith))
          (use_or_fetch-Cached none _ λ c e. cc)))
  get_jwks-Cached false s = Yields-ok _ _ _ (
      Yields-ok _ _ _ (
        Yields-weaken (λ c s' (cached, later). (cached, omega arith))
          (use_or_fetch-Cached (fresh_cache s.cache _) _ λ c e. fresh_cache-eq-some s.cache _ e)))

  -- Where a key is chosen, it fits, and the clock was not turned back.
  abbrev Chooses : JwtHeader → ProviderState → Option Fields → ProviderState → Type 0
  Chooses header s₀ key s =
      ((jwk : Fields) → key ≡ some jwk → Chosen header jwk s) × (s₀.clock_reads ≤ s.clock_reads)

  select-Chosen :
      (header : JwtHeader) (c : JwksCache) (s : ProviderState) (key : Option Fields)
      → s.cache ≡ some c
      → select_key header c.keys ≡ ok key
      → (jwk : Fields) → key ≡ some jwk
      → Chosen header jwk s
  select-Chosen header c s key cached e jwk named =
      let (fits, m) = select_key-Memᴰ header c.keys (e ∙ ap ok named) in
      record { cache = c; cached = cached; listed = m; compatible = fits }

  select_again-Chosen :
      (header : JwtHeader) (s : ProviderState) → Yields (Chooses header s) (select_again p header s)
  unfolding select_again
  select_again-Chosen header s = Yields-then _ (get_jwks-Cached true s) λ c s' (cached, later).
      Yields-lift (select_key header c.keys) s'
        λ key e. (select-Chosen header c s' key cached e, later)

  found_or_again-Chosen :
      (header : JwtHeader) (found : Option Fields) (due : Bool) (s : ProviderState)
      → ((jwk : Fields) → found ≡ some jwk → Chosen header jwk s)
      → Yields (Chooses header s) (found_or_again p header found due s)
  found_or_again-Chosen header (some key) due s h = returns (h, omega arith)
  found_or_again-Chosen header none true s h = select_again-Chosen header s
  found_or_again-Chosen header none false s h = returns (h, omega arith)

  -- `now` is what the clock gave between the two states.
  abbrev pub ReadBetween : ProviderState → ProviderState → ℕ → Type 0
  ReadBetween s s' now =
      (n : ℕ) × (s.clock_reads ≤ n) × (n < s'.clock_reads) × (now ≡ p.clock n / 1000)

  pub find_key-Chosen :
      (header : JwtHeader) (s : ProviderState)
      → Yields
          (λ found s'. Chosen header found.0 s' × ReadBetween s s' found.1)
          (find_key p header s)
  unfolding find_key choose now_seconds
  find_key-Chosen header s = Yields-then _ (get_jwks-Cached false s) λ c s₁ (cached, later).
      Yields-result _ _ _ λ found e. Yields-ok _ _ _ (
        Yields-ok _ _ _ (
          Yields-then _
            (found_or_again-Chosen header found _ _ (select-Chosen header c _ found cached e))
            λ key s₂ (chosen, since). Yields-result _ _ _ λ jwk named.
              returns (
                chosen jwk (or_refuse-eq-ok key named),
                (s₁.clock_reads, later, omega arith, refl),
              )))
