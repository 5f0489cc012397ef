-- ===== src/Envelope/RoundTrip.antt =====
-- An envelope that was signed verifies under its key, and gives its payload back.
use mathlib.Core.List.{append_assoc}
use parimit.Common.{
  ℕ, ◌≤◌, ◌≡◌, refl, ap, true, false, some, [], ◌∷◌, ◌++◌, arith, all, All, length, leb, le→leb,
  ==_iff, ◌==◌, &&-eq-true,
}
use parimit.Text.{Text, text_eq, text_eq_refl, is_empty, lit}
use parimit.Json.{Json, obj, Fields, end, get_field}
use parimit.Json.Canonical.{canonical_json}
use parimit.Envelope.{
  Platform, split_dots, three_segments, Segments, signing_input, header_json, encode_json,
  parse_segment, sign_envelope, is_header, parse_segments, parse_envelope, is_compatible_key,
  verify_envelope, ParsedEnvelope, max_envelope_bytes, only_keys, envelope_type,
}
use parimit.Envelope.Reading.{text_at, object_of}
use parimit.Envelope.Base64.{Bytes, to_base64url, is_base64url_unit}
use parimit.Envelope.Base64.RoundTrip.{IsByte, to_base64url-alphabet, decode_base64url-to_base64url}

-- UTF-8 and JSON carry the value `v`: what is decoded has the same canonical text.
pub record Travels (p : Platform) (v : Json) : Type 0 where
  pub fields : Fields
  pub bytes : All IsByte (p.utf8 (canonical_json v))
  pub filled : is_empty (p.utf8 (canonical_json v)) ≡ false
  pub decoded : p.from_utf8 (p.utf8 (canonical_json v)) ≡ some (canonical_json v)
  pub parsed : p.parse_json (canonical_json v) ≡ some (obj fields)
  pub same : canonical_json (obj fields) ≡ canonical_json v

-- `split` finds the first dot behind text of the alphabet.
split_dots-append :
    (s t : Text) → all is_base64url_unit s ≡ true → split_dots (s ++ b'.' ∷ t) ≡ s ∷ split_dots t
unfolding split_dots
split_dots-append [] t h = refl
split_dots-append (c ∷ s) t h =
    let (unit, rest) = &&-eq-true _ _ h in rw (no_dot c unit, split_dots-append s t rest) refl
  where
    no_dot : (c : ℕ) → is_base64url_unit c ≡ true → (c == b'.') ≡ false
    no_dot c h = ground arith

split_dots-last : (s : Text) → all is_base64url_unit s ≡ true → split_dots s ≡ s ∷ []
unfolding split_dots
split_dots-last [] h = refl
split_dots-last (c ∷ s) h =
    let (unit, rest) = &&-eq-true _ _ h in rw (no_dot c unit, split_dots-last s rest) refl
  where
    no_dot : (c : ℕ) → is_base64url_unit c ≡ true → (c == b'.') ≡ false
    no_dot c h = ground arith

filled_of : (b : Bytes) → length b ≡ 64 → is_empty b ≡ false
filled_of [] h = absurd (omega (arith, h))
filled_of (c ∷ b) h = refl

dotted : (s t : Text) → is_empty (s ++ b'.' ∷ t) ≡ false
dotted [] t = refl
dotted (c ∷ s) t = refl

abbrev members : Json → Fields
members (obj fs) = fs
members _ = end

module _ (p : Platform) where
  encode_json-alphabet : (v : Json) → Travels p v → all is_base64url_unit (encode_json p v) ≡ true
  unfolding encode_json
  encode_json-alphabet v t = to_base64url-alphabet _ (t.bytes)

  parse_segment-encode_json :
      (v : Json) (t : Travels p v) → parse_segment p (encode_json p v) ≡ some t.fields
  unfolding parse_segment encode_json object_of
  parse_segment-encode_json v t =
      rw
        (
          decode_base64url-to_base64url (p.utf8 (canonical_json v)) (t.bytes) (t.filled),
          t.decoded,
          t.parsed,
        )
        refl

  module _ (kid : Text) (payload : Json) (header : Travels p (header_json kid))
      (body : Travels p payload) where
    abbrev input : Text
    input = encode_json p (header_json kid) ++ b'.' ∷ encode_json p payload

    abbrev segments : Segments
    segments = record {
      header = encode_json p (header_json kid);
      payload = encode_json p payload;
      signature = to_base64url (p.sign input);
    }

    module _ (signed : All IsByte (p.sign input)) where
      split-sign : three_segments (split_dots (sign_envelope p payload kid)) ≡ some segments
      unfolding sign_envelope three_segments
      split-sign =
          rw
            (
              append_assoc (encode_json p (header_json kid)) (b'.' ∷ encode_json p payload)
                  (b'.' ∷ to_base64url (p.sign input)),
              split_dots-append (encode_json p (header_json kid))
                  (encode_json p payload ++ b'.' ∷ to_base64url (p.sign input))
                  (encode_json-alphabet (header_json kid) header),
              split_dots-append (encode_json p payload) (to_base64url (p.sign input))
                  (encode_json-alphabet payload body),
              split_dots-last (to_base64url (p.sign input)) (to_base64url-alphabet _ signed),
            )
            refl

      -- The header is parsed to itself: its members are in the order of their keys.
      header_accepted :
          obj (header.fields) ≡ header_json kid
          → (text_at (lit "kid") (header.fields) ≡ some kid) × (is_header p (header.fields) ≡ true)
      unfolding header_json text_at get_field lit text_eq is_header only_keys envelope_type
      header_accepted e =
          rw (ap members e)
            (rw (text_eq_refl (lit "EdDSA"), text_eq_refl envelope_type) (refl, refl))

      sign_nonempty : is_empty (sign_envelope p payload kid) ≡ false
      unfolding sign_envelope
      sign_nonempty = dotted input (to_base64url (p.sign input))

      same_text : text_eq (encode_json p (obj body.fields)) (encode_json p payload) ≡ true
      unfolding encode_json
      same_text = rw (body.same) (text_eq_refl (to_base64url (p.utf8 (canonical_json payload))))

      parsed_envelope : ParsedEnvelope
      parsed_envelope = record { kid = kid; payload = body.fields }

      parse_envelope-sign :
          obj (header.fields) ≡ header_json kid
          → is_empty kid ≡ false
          → is_empty (p.sign input) ≡ false
          → leb (length (sign_envelope p payload kid)) max_envelope_bytes ≡ true
          → is_empty (sign_envelope p payload kid) ≡ false
          → parse_envelope p (sign_envelope p payload kid) ≡ some parsed_envelope
      unfolding parse_envelope parse_segments parsed_envelope
      parse_envelope-sign e named filled short nonempty =
          let (kid_read, header_ok) = header_accepted e in
          rw
            (
              nonempty,
              short,
              split-sign,
              parse_segment-encode_json (header_json kid) header,
              parse_segment-encode_json payload body,
              decode_base64url-to_base64url (p.sign input) signed filled,
              kid_read,
              header_ok,
              named,
              e,
              text_eq_refl (encode_json p (header_json kid)),
            )
            refl

      -- `verifyAuthorizationEnvelopeSignature` accepts what `signAuthorizationEnvelope` signed, where UTF-8
      -- and JSON carry the header and the payload, the key is compatible and verifies the signature, and
      -- the text is not too long. It gives back the key id, and a payload with the same canonical JSON.
      pub verify_envelope-sign_envelope :
          (jwk : Fields)
          → obj (header.fields) ≡ header_json kid
          → is_empty kid ≡ false
          → length (p.sign input) ≡ 64
          → length (sign_envelope p payload kid) ≤ max_envelope_bytes
          → is_compatible_key kid jwk ≡ true
          → p.is_public_key jwk ≡ true
          → p.verify jwk input (p.sign input) ≡ true
          → (parsed : ParsedEnvelope) × (verify_envelope p (sign_envelope p payload kid) jwk
              ≡ some parsed)
            × (parsed.kid ≡ kid)
            × (canonical_json (obj parsed.payload) ≡ canonical_json payload)
      unfolding verify_envelope signing_input parsed_envelope
      verify_envelope-sign_envelope jwk e named long short compatible key_ok verified =
          let filled : is_empty (p.sign input) ≡ false = filled_of (p.sign input) long in
          (
            parsed_envelope,
            rw
                (
                  parse_envelope-sign e named filled (le→leb _ _ short) sign_nonempty,
                  compatible,
                  split-sign,
                  key_ok,
                  decode_base64url-to_base64url (p.sign input) signed filled,
                  (==_iff (length (p.sign input)) 64).1 long,
                  verified,
                  same_text,
                )
                refl,
            refl,
            body.same,
          )
