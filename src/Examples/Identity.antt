-- ===== src/Examples/Identity.antt =====
-- A token of one character per part, and the providers and requests that it is tried on.
use parimit.Common.{
  ℕ, zero, suc, ◌+◌, ◌≤◌, ◌≡◌, refl, ap, Bool, true, false, Option, none, some, [], ◌∷◌,
  if◌then◌else◌,
}
use parimit.Text.{Text, lit, text_eq, lower, trim, is_space}
use parimit.Text.Decimal.{number}
use parimit.Json.{Json, num, str, arr, cons, nil, get_field}
use parimit.Json.Build.{object}
use parimit.Types.{oidc}
use parimit.Result.{Result, ok, err, fail_if}
use parimit.Exec.{resume}
use parimit.Service.{Service}
use parimit.Service.Integrity.Payloads.{string_array, item_texts}
use parimit.Envelope.{parse_segment, split_dots, three_segments, signing_input, decode_base64url}
use parimit.Envelope.Base64.{digit_unit, unit_digit, to_base64url, from_base64url}
use parimit.Envelope.Reading.{object_of, text_at, list_at, is_sha256_hex}
use parimit.Auth.{agent, AuthenticatedActor, Headers, single, read_single_header}
use parimit.Auth.Token.{bearer_token, is_compact, strip_prefix}
use parimit.Auth.Header.{rs256, algorithm_text, parse_header, is_compatible_jwk, select_key}
use parimit.Auth.Provider.{OidcProvider, ProviderState, now_seconds, fetch_response}
use parimit.Auth.Document.{read_limited, all_objects, read_keys, split_commas, maximum_age}
use parimit.Auth.Keys.{fetch_jwks, refetch, get_jwks}
use parimit.Auth.Claims.{are_registered, audience_matches, claim_values, mapped_roles, only_role}
use parimit.Auth.Accept.{verify_jwt_signature, read_token, accept, stable_actor_id}
use parimit.Auth.Oidc.{choose, find_key, select_again, authenticate}
use parimit.Auth.Refresh.{budget, authenticate-fetches}
use parimit.Http.Providers.{oidc_provider, authenticate-valid}
use parimit.Http.Handler.{is_valid_actor}
use parimit.Examples.{sample_service, sample_platform}

abbrev header_json : Json
header_json = object ((lit "alg", str (lit "RS256")) ∷ (lit "kid", str (lit "k")) ∷ [])

abbrev claims_json : Json
claims_json = object (
    (lit "iss", str (lit "i"))
    ∷ (lit "aud", str (lit "a"))
    ∷ (lit "sub", str (lit "s"))
    ∷ (lit "exp", num 1704067260)
    ∷ (lit "roles", str (lit "agent"))
    ∷ [])

abbrev keys_json : Json
keys_json = object (
    (
      lit "keys",
      arr (cons (object ((lit "kty", str (lit "RSA")) ∷ (lit "kid", str (lit "k")) ∷ [])) nil),
    )
    ∷ [])

-- `h` is read as the header, `p` as the claims, and any other text as the keys.
parse : Text → Option Json
parse t =
    if text_eq t (lit "h")
    then some header_json
    else if text_eq t (lit "p")
    then some claims_json
    else some keys_json

zeros : ℕ → Text
zeros zero = []
zeros (suc n) = b'0' ∷ zeros n

sample_provider : OidcProvider
sample_provider = record {
  issuer = lit "i";
  audiences = lit "a" ∷ [];
  jwks_uri = lit "u";
  role_claim = lit "roles";
  role_mapping = (lit "agent", agent) ∷ [];
  allowed_algorithms = rs256 ∷ [];
  required_token_type = none;
  clock_skew_seconds = 60;
  max_token_lifetime_seconds = none;
  jwks_cache_seconds = 300;
  jwks_refresh_seconds = 30;
  clock = λ n. 1704067200000;
  fetch = λ n. some (record {
    is_ok = true;
    content_length = some 1;
    cache_control = some (lit "public, Max-Age=60");
    chunks = lit "k" ∷ [];
  });
  sha256 = λ t. zeros 64;
  public_key = λ k. some 2048;
  verify = λ alg k t s. true;
  platform = record sample_platform { parse_json = parse };
}

-- `aA`, `cA` and `cw` decode to `h`, `p` and `s`.
abbrev headers : Headers
headers = (lit "Authorization", single (lit "Bearer aA.cA.cw")) ∷ []

abbrev no_cache : ProviderState
no_cache = record { cache = none; clock_reads = 0; fetches = 0 }

abbrev answer : Result AuthenticatedActor × ProviderState
answer = authenticate sample_provider headers no_cache

abbrev nobody : AuthenticatedActor
nobody = record {
  actor_id = [];
  actor_role = agent;
  subject = [];
  authentication_method = oidc;
  issuer = none;
}

abbrev actor_in : Result AuthenticatedActor → AuthenticatedActor
actor_in (ok a) = a
actor_in (err e) = nobody

abbrev is_actor : Result AuthenticatedActor → Bool
is_actor (ok a) = true
is_actor (err e) = false

of_actor : (r : Result AuthenticatedActor) → is_actor r ≡ true → r ≡ ok (actor_in r)
of_actor (ok a) h = refl
of_actor (err e) h = cc

-- The token is accepted, after one request for the keys.
token_accepted : (is_actor answer.0 ≡ true) × (answer.1.fetches ≡ 1)
unfolding sample_provider parse zeros lit text_eq lower trim is_space number get_field fail_if
    resume string_array item_texts parse_segment split_dots three_segments signing_input
    decode_base64url digit_unit unit_digit to_base64url from_base64url object_of text_at list_at
    read_single_header bearer_token is_compact strip_prefix algorithm_text parse_header
    is_compatible_jwk select_key now_seconds fetch_response read_limited all_objects read_keys
    split_commas maximum_age fetch_jwks refetch get_jwks are_registered audience_matches
    claim_values mapped_roles only_role verify_jwt_signature read_token accept stable_actor_id
    choose find_key select_again authenticate
token_accepted = (refl, refl)

authenticate-fetches_example :
    (authenticate sample_provider headers no_cache).1.fetches ≤ 0 + budget sample_provider no_cache
authenticate-fetches_example = authenticate-fetches sample_provider headers no_cache

abbrev oidc_service : Service
oidc_service = record sample_service { authentication_mode = oidc }

zeros_hex : (t : Text) → is_sha256_hex (sample_provider.sha256 t) ≡ true
unfolding sample_provider zeros is_sha256_hex
zeros_hex t = refl

provider_answer :
    (oidc_provider sample_provider).authenticate headers no_cache
    ≡ (ok (actor_in answer.0), answer.1)
unfolding oidc_provider
provider_answer = ap (λ r. (r, answer.1)) (of_actor answer.0 (token_accepted.0))

authenticate-valid_example : is_valid_actor oidc_service (actor_in answer.0) ≡ true
authenticate-valid_example =
    authenticate-valid oidc_service sample_provider headers no_cache answer.1 (actor_in answer.0)
      refl zeros_hex provider_answer
