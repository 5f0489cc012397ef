-- ===== src/Auth/Header.antt =====
-- The protected header of a token (`parseHeader`), and the keys that fit it (`compatibleJwk`,
-- `selectKey`).
use parimit.Common.{
  Bool, true, false, not, ◌&&◌, ◌||◌, Option, none, some, List, [], ◌∷◌, leb, any, select, find,
  length,
}
use parimit.Text.{Text, lit, text_eq, is_empty}
use parimit.Json.{Json, arr, Fields, get_field, elements}
use parimit.Result.{Result, ok}
use parimit.Service.Integrity.Payloads.{is_str, is_defined}
use parimit.Envelope.{Platform, parse_segment}
use parimit.Envelope.Reading.{◌>>=◌, ◌>>◌, text_at, check_that, has_text}
use parimit.Auth.{refuse}

pub data JwtAlgorithm : Type 0 where
  rs256 ps256 es256 : JwtAlgorithm

unfoldable pub algorithm_text : JwtAlgorithm → Text
algorithm_text rs256 = lit "RS256"
algorithm_text ps256 = lit "PS256"
algorithm_text es256 = lit "ES256"

pub record JwtHeader : Type 0 where
  pub alg : JwtAlgorithm
  pub kid : Text
  pub typ : Option Text

abbrev is_token_type : Option Json → Bool
is_token_type none = true
is_token_type v = is_str (lit "JWT") v || is_str (lit "at+jwt") v

abbrev pub has_field : Fields → Text → Bool
has_field fs k = is_defined (get_field k fs)

abbrev refused_fields : List Text
refused_fields = lit "crit" ∷ lit "b64" ∷ lit "jwk" ∷ lit "jku" ∷ lit "x5u" ∷ lit "x5c" ∷ []

-- `none` where `parseHeader` throws.
unfoldable pub parse_header : Platform → List JwtAlgorithm → Text → Option JwtHeader
parse_header p allowed segment = do
  value ← parse_segment p segment
  name ← text_at (lit "alg") value
  alg ← find (λ a. text_eq (algorithm_text a) name) allowed
  kid ← text_at (lit "kid") value
  check_that (not (is_empty kid) && leb (length kid) 256)
  check_that (is_token_type (get_field (lit "typ") value))
  check_that (not (any (has_field value) refused_fields))
  some (record { alg = alg; kid = kid; typ = text_at (lit "typ") value })

abbrev is_absent_or : Text → Option Json → Bool
is_absent_or t none = true
is_absent_or t v = is_str t v

-- `key.key_ops` is missing, or an array that includes "verify".
abbrev may_verify : Option Json → Bool
may_verify none = true
may_verify (some (arr vs)) = any (λ v. is_str (lit "verify") (some v)) (elements vs)
may_verify v = false

abbrev private_fields : List Text
private_fields = lit "d" ∷ lit "p" ∷ lit "q" ∷ lit "dp" ∷ lit "dq" ∷ lit "qi" ∷ lit "oth" ∷ []

abbrev is_key_type : JwtAlgorithm → Fields → Bool
is_key_type es256 key =
    has_text (lit "kty") (lit "EC") key && has_text (lit "crv") (lit "P-256") key
is_key_type _ key = has_text (lit "kty") (lit "RSA") key

unfoldable pub is_compatible_jwk : JwtHeader → Fields → Bool
is_compatible_jwk header key =
    has_text (lit "kid") header.kid key
    && (is_absent_or (lit "sig") (get_field (lit "use") key)
        && (may_verify (get_field (lit "key_ops") key)
            && (is_absent_or (algorithm_text header.alg) (get_field (lit "alg") key)
                && (not (any (has_field key) private_fields) && is_key_type header.alg key))))

abbrev pub only_match : List Fields → Result (Option Fields)
only_match [] = ok none
only_match (key ∷ []) = ok (some key)
only_match (key ∷ other ∷ rest) = refuse

unfoldable pub select_key : JwtHeader → List Fields → Result (Option Fields)
select_key header keys = only_match (select (is_compatible_jwk header) keys)
