-- ===== src/Http/Body.antt =====
-- Reading of a request: its body, its role, and the proposal that it may make.
use parimit.Common.{ℕ, Bool, not, ◌&&◌, Option, none, some, List, [], ◌∷◌, any}
use parimit.Text.{Text, lit}
use parimit.Json.{Json, obj, end, Fields, get_field}
use parimit.Result.{
  Result, ok, fail, fail_if, ◌>>=◌, ◌>>◌, forbidden, body_too_large, invalid_json,
  actor_identity_mismatch,
}
use parimit.Service.Integrity.Payloads.{is_str}
use parimit.Service.Validation.{require_object, reject_unknown_keys, body_keys}
use parimit.Envelope.Base64.{Bytes}
use parimit.Auth.{ActorRole, agent, same_role, AuthenticatedActor}
use parimit.Auth.Document.{read_limited}
use parimit.Http.{Platform}

abbrev pub json_limit_bytes : ℕ
json_limit_bytes = 1048576

abbrev valid_json : Option Json → Result Json
valid_json none = fail invalid_json 400
valid_json (some v) = ok v

abbrev parsed : (Text → Option Json) → (Bytes → Text) → Option Bytes → Result Json
parsed parse_json to_text none = fail body_too_large 413
parsed parse_json to_text (some bytes) = valid_json (parse_json (to_text bytes))

-- `readJson`; `parse_json` is `JSON.parse`.
unfoldable pub read_json : Platform → (Text → Option Json) → List Bytes → Result Json
read_json http parse_json [] = ok (obj end)
read_json http parse_json (chunk ∷ chunks) =
    parsed parse_json http.to_text (read_limited json_limit_bytes 0 (chunk ∷ chunks))

unfoldable pub require_json_object : List Text → Option Json → Result Fields
require_json_object allowed value = do
  fs ← require_object value
  reject_unknown_keys allowed fs
  ok fs

unfoldable pub require_role : List ActorRole → AuthenticatedActor → Result (Unit {0})
require_role allowed actor = fail_if (not (any (same_role actor.actor_role) allowed)) forbidden 403

-- `requested_by` names the authenticated agent.
abbrev pub is_requested_by : Text → Fields → Bool
is_requested_by actor_id requested_by =
    is_str (lit "agent") (get_field (lit "type") requested_by)
    && is_str actor_id (get_field (lit "id") requested_by)

-- `authenticatedProposal`
unfoldable pub authenticated_proposal : AuthenticatedActor → Json → Result Json
authenticated_proposal actor value = do
  require_role (agent ∷ []) actor
  body ← require_json_object body_keys (some value)
  requested_by ←
      require_json_object (lit "type" ∷ lit "id" ∷ []) (get_field (lit "requested_by") body)
  fail_if (not (is_requested_by actor.actor_id requested_by)) actor_identity_mismatch 403
  ok (obj body)
