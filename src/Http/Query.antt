-- ===== src/Http/Query.antt =====
-- The filters of a list request.
use parimit.Common.{
  ℕ, Bool, true, not, ◌&&◌, Option, none, some, List, [], ◌∷◌, leb, length, find, if◌then◌else◌,
}
use parimit.Text.{Text, text_eq, is_empty}
use parimit.Types.{
  IntentStatus, policy_denied, awaiting_approval, authorized_no_dispatch, rejected, cancelled,
  expired, status_text,
}
use parimit.Result.{Result, ok, fail, fail_if, ◌>>◌, validation_error, forbidden}
use parimit.Auth.{agent, same_role, AuthenticatedActor}
use parimit.Http.{Platform}

abbrev intent_statuses : List IntentStatus
intent_statuses =
    policy_denied ∷ awaiting_approval ∷ authorized_no_dispatch ∷ rejected ∷ cancelled ∷ expired ∷ []

abbrev known : Option IntentStatus → Result (Option IntentStatus)
known none = fail validation_error 400
known (some s) = ok (some s)

unfoldable pub status_filter : Option Text → Result (Option IntentStatus)
status_filter none = ok none
status_filter (some raw) = known (find (λ s. text_eq (status_text s) raw) intent_statuses)

abbrev in_limit : Option ℕ → Result (Option ℕ)
in_limit none = fail validation_error 400
in_limit (some n) = if leb 1 n && leb n 200 then ok (some n) else fail validation_error 400

unfoldable pub limit_filter : Platform → Option Text → Result (Option ℕ)
limit_filter http none = ok none
limit_filter http (some raw) = in_limit (http.to_number raw)

unfoldable pub is_own_or_absent : AuthenticatedActor → Option Text → Bool
is_own_or_absent actor none = true
is_own_or_absent actor (some id) = text_eq id actor.actor_id

abbrev has_length : Option Text → Bool
has_length none = true
has_length (some id) = not (is_empty id) && leb (length id) 128

-- An agent lists its own proposals only.
unfoldable pub agent_filter : AuthenticatedActor → Option Text → Result (Option Text)
agent_filter actor agent_id = do
  fail_if (not (has_length agent_id)) validation_error 400
  fail_if (same_role actor.actor_role agent && not (is_own_or_absent actor agent_id)) forbidden 403
  ok (if same_role actor.actor_role agent then some actor.actor_id else agent_id)
