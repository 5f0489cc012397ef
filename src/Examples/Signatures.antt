-- ===== src/Examples/Signatures.antt =====
-- A small payload that is signed and verified.
use parimit.Common.{
  ℕ, ◌≡◌, refl, ◌≤◌, zero, suc, true, some, [], ◌∷◌, arith, length, false, ◌++◌, All, if◌then◌else◌,
}
use parimit.Text.{Text, lit, text_eq, text_lt, is_empty}
use parimit.Text.Decimal.{decimal}
use parimit.Json.{Json, obj, num, str, Fields, field, end, get_field}
use parimit.Json.Canonical.{canonical_json, canonicalize}
use parimit.Envelope.{
  Platform, header_json, envelope_type, encode_json, sign_envelope, is_compatible_key,
  is_coordinate, only_keys, verify_envelope, ParsedEnvelope, max_envelope_bytes,
}
use parimit.Envelope.Base64.{Bytes, to_base64url, from_base64url, digit_unit, unit_digit}
use parimit.Envelope.Base64.RoundTrip.{IsByte}
use parimit.Envelope.RoundTrip.{Travels, verify_envelope-sign_envelope}

zero_bytes : ℕ → Bytes
zero_bytes zero = []
zero_bytes (suc n) = 0 ∷ zero_bytes n

abbrev body_fields : Fields
body_fields = field (lit "a") (num 1) end

abbrev payload : Json
payload = obj body_fields

abbrev header_fields : Fields
header_fields =
    field (lit "alg") (str (lit "EdDSA"))
      (field (lit "kid") (str (lit "k")) (field (lit "typ") (str envelope_type) end))

-- `JSON.parse` of the header and of the payload.
abbrev platform : Platform
platform = record {
  utf8 = λ t. t;
  from_utf8 = some;
  parse_json = λ t. some (if text_lt t (lit "{\"ab") then payload else obj header_fields);
  sign = λ t. zero_bytes 64;
  is_public_key = λ k. true;
  verify = λ k t s. true;
}

header_travels : Travels platform (header_json (lit "k"))
unfolding header_json envelope_type canonical_json canonicalize lit text_lt decimal
header_travels = record {
  fields = header_fields;
  bytes = omega arith;
  filled = refl;
  decoded = refl;
  parsed = refl;
  same = refl;
}

payload_travels : Travels platform payload
unfolding canonical_json canonicalize lit text_lt decimal
payload_travels = record {
  fields = body_fields;
  bytes = omega arith;
  filled = refl;
  decoded = refl;
  parsed = refl;
  same = refl;
}

abbrev jwk : Fields
jwk = field (lit "kty") (str (lit "OKP")) (
    field (lit "crv") (str (lit "Ed25519")) (
      field (lit "x") (str (to_base64url (zero_bytes 32))) (field (lit "kid") (str (lit "k")) end)))

abbrev signing_text : Text
signing_text = encode_json platform (header_json (lit "k")) ++ b'.' ∷ encode_json platform payload

signature-bytes : All IsByte (platform.sign signing_text)
unfolding zero_bytes
signature-bytes = omega arith

jwk-compatible : is_compatible_key (lit "k") jwk ≡ true
unfolding is_compatible_key is_coordinate only_keys get_field lit text_eq to_base64url
    from_base64url digit_unit unit_digit zero_bytes
jwk-compatible = refl

signature_length : length (platform.sign signing_text) ≡ 64
unfolding zero_bytes
signature_length = refl

header_read : obj (header_travels.fields) ≡ header_json (lit "k")
unfolding header_travels header_json
header_read = refl

signed_length : length (sign_envelope platform payload (lit "k")) ≤ max_envelope_bytes
unfolding sign_envelope encode_json header_json envelope_type canonical_json canonicalize lit
    text_lt decimal to_base64url digit_unit zero_bytes
signed_length = omega arith

kid_filled : is_empty (lit "k") ≡ false
unfolding lit
kid_filled = refl

verify_envelope-sign_envelope_example :
    (parsed : ParsedEnvelope) × (verify_envelope platform
        (sign_envelope platform payload (lit "k"))
        jwk
      ≡ some parsed)
    × (parsed.kid ≡ lit "k")
    × (canonical_json (obj parsed.payload) ≡ canonical_json payload)
verify_envelope-sign_envelope_example =
    verify_envelope-sign_envelope platform (lit "k") payload header_travels payload_travels
      signature-bytes jwk header_read kid_filled signature_length signed_length jwk-compatible refl
      refl
