-- ===== src/Auth/Accept.antt =====
-- What `authenticate` of `OidcIdentityProvider` makes of a token, before and after the key is chosen.
use parimit.Common.{
  ℕ, Bool, true, false, not, Option, none, some, [], ◌∷◌, ◌++◌, leb, ◌==◌, ◌&&◌, length,
}
use parimit.Text.{Text, lit, text_eq}
use parimit.Json.{Json, str, Fields, get_field}
use parimit.Types.{oidc}
use parimit.Result.{Result, ok, fail_if, invalid_token, ◌>>=◌, ◌>>◌}
use parimit.Envelope.{
  Segments, split_dots, three_segments, signing_input, parse_segment, decode_base64url,
}
use parimit.Envelope.Base64.{Bytes}
use parimit.Auth.{AuthenticatedActor, Headers, or_refuse}
use parimit.Auth.Token.{bearer_token}
use parimit.Auth.Header.{JwtAlgorithm, es256, JwtHeader, parse_header}
use parimit.Auth.Provider.{OidcProvider}
use parimit.Auth.Claims.{are_registered, claim_values, mapped_roles, only_role}

-- `requiredTokenType` is undefined, or the type of the header.
abbrev pub has_required_type : Option Text → Option Text → Bool
has_required_type none typ = true
has_required_type (some t) none = false
has_required_type (some t) (some u) = text_eq u t

abbrev pub subject_of : Option Json → Text
subject_of (some (str s)) = s
subject_of claim = []

-- The parts of a token, read.
pub record Token : Type 0 where
  pub segments : Segments
  pub header : JwtHeader
  pub claims : Fields
  pub signature : Bytes

module _ (p : OidcProvider) where
  abbrev fits_key : JwtAlgorithm → Option ℕ → Bytes → Bool
  fits_key alg none signature = false
  fits_key es256 (some bits) signature = length signature == 64
  fits_key alg (some bits) signature = leb 2048 bits

  unfoldable pub verify_jwt_signature : JwtAlgorithm → Text → Bytes → Fields → Bool
  verify_jwt_signature alg input signature jwk =
      fits_key alg (p.public_key jwk) signature && p.verify alg jwk input signature

  unfoldable pub read_token : Headers → Result Token
  read_token headers = do
    token ← bearer_token headers
    segments ← or_refuse (three_segments (split_dots token))
    header ← or_refuse (parse_header p.platform p.allowed_algorithms segments.header)
    fail_if (not (has_required_type p.required_token_type header.typ)) invalid_token 401
    claims ← or_refuse (parse_segment p.platform segments.payload)
    signature ← or_refuse (decode_base64url segments.signature)
    ok (record { segments = segments; header = header; claims = claims; signature = signature })

  -- `stableActorId`
  unfoldable pub stable_actor_id : Text → Text
  stable_actor_id subject = lit "oidc:" ++ p.sha256 (p.issuer ++ 0 ∷ subject)

  -- What follows the choice of the key.
  unfoldable pub accept : Token → Fields → ℕ → Result AuthenticatedActor
  accept t jwk now = do
    fail_if (not (verify_jwt_signature t.header.alg (signing_input t.segments) t.signature jwk))
        invalid_token 401
    fail_if (not (are_registered p t.claims now)) invalid_token 401
    role ← only_role (mapped_roles p (claim_values (get_field p.role_claim t.claims)))
    let subject = subject_of (get_field (lit "sub") t.claims)
    ok (record {
      actor_id = stable_actor_id subject;
      actor_role = role;
      subject = subject;
      authentication_method = oidc;
      issuer = some p.issuer;
    })
