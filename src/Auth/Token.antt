-- ===== src/Auth/Token.antt =====
-- `bearerToken` of src/auth.ts.
use parimit.Common.{
  ℕ, Bool, not, ◌&&◌, Option, none, some, [], ◌∷◌, leb, ◌==◌, if◌then◌else◌, all, length,
}
use parimit.Text.{Text, lit, is_empty}
use parimit.Result.{Result, ok, fail, ◌>>=◌, authentication_required}
use parimit.Envelope.{split_dots}
use parimit.Envelope.Base64.{is_base64url_unit}
use parimit.Auth.{Headers, refuse, read_single_header}

abbrev pub max_jwt_bytes : ℕ
max_jwt_bytes = 16384

-- What follows the prefix.
unfoldable pub strip_prefix : Text → Text → Option Text
strip_prefix [] s = some s
strip_prefix (c ∷ p) [] = none
strip_prefix (c ∷ p) (d ∷ s) = if c == d then strip_prefix p s else none

abbrev is_segment : Text → Bool
is_segment s = not (is_empty s) && all is_base64url_unit s

-- `[A-Za-z0-9_-]+\.[A-Za-z0-9_-]+\.[A-Za-z0-9_-]+`
unfoldable pub is_compact : Text → Bool
is_compact token = length (split_dots token) == 3 && all is_segment (split_dots token)

abbrev short_token : Option Text → Result Text
short_token none = refuse
short_token (some token) =
    if is_compact token && leb (length token) max_jwt_bytes then ok token else refuse

abbrev token_of : Option Text → Result Text
token_of none = fail authentication_required 401
token_of (some authorization) = short_token (strip_prefix (lit "Bearer ") authorization)

unfoldable pub bearer_token : Headers → Result Text
bearer_token headers = do
  authorization ← read_single_header headers (lit "authorization")
  token_of authorization
