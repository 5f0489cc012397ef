-- ===== src/Envelope.antt =====
-- src/envelope.ts: evidence envelopes as compact JWS.
pub mod Base64
pub mod Reading
pub mod RoundTrip
pub mod Claims
use parimit.Common.{
  ℕ, Bool, true, false, not, ◌&&◌, ◌||◌, Option, none, some, List, [], ◌∷◌, ◌++◌, ltb, leb, ◌==◌,
  ◌%◌, any, all, length, if◌then◌else◌,
}
use parimit.Text.{Text, lit, text_eq, is_empty, is_alphanumeric}
use parimit.Json.{Json, str, arr, obj, nil, cons, Fields, get_field, keys}
use parimit.Json.Build.{object}
use parimit.Json.Canonical.{canonical_json}
use parimit.Service.Integrity.Payloads.{is_str}
use Base64.{Bytes, to_base64url, from_base64url, is_base64url_unit}
use Reading.{◌>>=◌, ◌>>◌, check_that, object_of, text_at}

-- What the module takes from outside: UTF-8 (`Buffer.from`, and `TextDecoder` where `fatal` makes it
-- throw), `JSON.parse`, and Ed25519 of node:crypto. The private key is fixed by the constructor.
pub record Platform : Type 0 where
  pub utf8 : Text → Bytes
  pub from_utf8 : Bytes → Option Text
  pub parse_json : Text → Option Json
  pub sign : Text → Bytes
  -- `createPublicKey` of a JWK does not throw
  pub is_public_key : Fields → Bool
  pub verify : Fields → Text → Bytes → Bool

abbrev pub max_envelope_bytes : ℕ
max_envelope_bytes = 65536

unfoldable pub envelope_type : Text
envelope_type = lit "parimit-authz-envelope+jws"

-- `decodeBase64Url`: `none` where it throws.
unfoldable pub decode_base64url : Text → Option Bytes
decode_base64url segment = do
  check_that (not (is_empty segment) && all is_base64url_unit segment)
  check_that (not (length segment % 4 == 1))
  let decoded = from_base64url segment
  check_that (not (is_empty decoded) && text_eq (to_base64url decoded) segment)
  some decoded

-- `segments = compactJws.split(".")`
abbrev onto : ℕ → List Text → List Text
onto c [] = (c ∷ []) ∷ []
onto c (s ∷ ss) = (c ∷ s) ∷ ss

unfoldable pub split_dots : Text → List Text
split_dots [] = [] ∷ []
split_dots (c ∷ s) = if c == b'.' then [] ∷ split_dots s else onto c (split_dots s)

pub record Segments : Type 0 where
  pub header : Text
  pub payload : Text
  pub signature : Text

unfoldable pub three_segments : List Text → Option Segments
three_segments (h ∷ p ∷ s ∷ []) = some (record { header = h; payload = p; signature = s })
three_segments _ = none

unfoldable pub signing_input : Segments → Text
signing_input s = s.header ++ b'.' ∷ s.payload

-- The key id, which is all that the code reads of a header, and the payload.
pub record ParsedEnvelope : Type 0 where
  pub kid : Text
  pub payload : Fields

unfoldable pub header_json : Text → Json
header_json kid =
    object
      ((lit "alg", str (lit "EdDSA")) ∷ (lit "kid", str kid) ∷ (lit "typ", str envelope_type) ∷ [])

abbrev header_keys : List Text
header_keys = lit "alg" ∷ lit "kid" ∷ lit "typ" ∷ []

unfoldable pub only_keys : List Text → Fields → Bool
only_keys allowed fs = all (λ k. any (λ a. text_eq a k) allowed) (keys fs)

abbrev is_absent_or : Text → Option Json → Bool
is_absent_or t none = true
is_absent_or t v = is_str t v

-- `publicJwk.key_ops` is missing or `["verify"]`.
abbrev may_verify : Option Json → Bool
may_verify none = true
may_verify (some (arr (cons v nil))) = is_str (lit "verify") (some v)
may_verify _ = false

-- `isCanonicalEd25519Coordinate`
unfoldable pub is_coordinate : Option Json → Bool
is_coordinate (some (str s)) =
    length s == 43
    && (all is_base64url_unit s
        && (length (from_base64url s) == 32 && text_eq (to_base64url (from_base64url s)) s))
is_coordinate _ = false

abbrev jwk_keys : List Text
jwk_keys = lit "alg" ∷ lit "crv" ∷ lit "key_ops" ∷ lit "kid" ∷ lit "kty" ∷ lit "use" ∷ lit "x" ∷ []

unfoldable pub is_compatible_key : Text → Fields → Bool
is_compatible_key kid jwk =
    is_str (lit "OKP") (get_field (lit "kty") jwk)
    && (is_str (lit "Ed25519") (get_field (lit "crv") jwk)
        && (is_coordinate (get_field (lit "x") jwk)
            && (is_str kid (get_field (lit "kid") jwk)
                && (is_absent_or (lit "sig") (get_field (lit "use") jwk)
                    && (is_absent_or (lit "EdDSA") (get_field (lit "alg") jwk)
                        && (may_verify (get_field (lit "key_ops") jwk)
                            && only_keys jwk_keys jwk))))))

module _ (p : Platform) where
  -- `Buffer.from(canonicalJson(value), "utf8").toString("base64url")`
  unfoldable pub encode_json : Json → Text
  encode_json v = to_base64url (p.utf8 (canonical_json v))

  -- `parseObject(decodeBase64Url(segment))`
  unfoldable pub parse_segment : Text → Option Fields
  parse_segment segment = do
    bytes ← decode_base64url segment
    text ← p.from_utf8 bytes
    value ← p.parse_json text
    object_of value

  -- `signAuthorizationEnvelope`
  unfoldable pub sign_envelope : Json → Text → Text
  sign_envelope payload kid =
      let input = encode_json (header_json kid) ++ b'.' ∷ encode_json payload in
      input ++ b'.' ∷ to_base64url (p.sign input)

  unfoldable pub is_header : Fields → Bool
  is_header header =
      is_str (lit "EdDSA") (get_field (lit "alg") header)
      && (is_str envelope_type (get_field (lit "typ") header) && only_keys header_keys header)

  -- The rest of `parseAuthorizationEnvelope`, once the text is split.
  unfoldable pub parse_segments : Segments → Option ParsedEnvelope
  parse_segments s = do
    header ← parse_segment s.header
    payload ← parse_segment s.payload
    decode_base64url s.signature
    kid ← text_at (lit "kid") header
    check_that (is_header header && not (is_empty kid))
    check_that (text_eq (encode_json (obj header)) s.header)
    some (record { kid = kid; payload = payload })

  -- `parseAuthorizationEnvelope`
  unfoldable pub parse_envelope : Text → Option ParsedEnvelope
  parse_envelope jws = do
    check_that (not (is_empty jws) && leb (length jws) max_envelope_bytes)
    s ← three_segments (split_dots jws)
    parse_segments s

  -- `verifyAuthorizationEnvelopeSignature`
  unfoldable pub verify_envelope : Text → Fields → Option ParsedEnvelope
  verify_envelope jws jwk = do
    parsed ← parse_envelope jws
    check_that (is_compatible_key parsed.kid jwk)
    s ← three_segments (split_dots jws)
    check_that (p.is_public_key jwk)
    signature ← decode_base64url s.signature
    check_that (length signature == 64 && p.verify jwk (signing_input s) signature)
    check_that (text_eq (encode_json (obj parsed.payload)) s.payload)
    some parsed
