-- ===== src/Auth/Demo.antt =====
-- `LocalDemoHeaderIdentityProvider.authenticate`: the headers are trusted.
use parimit.Common.{Option, none, some, not, if◌then◌else◌}
use parimit.Text.{Text, lit, text_eq, lower}
use parimit.Types.{demo}
use parimit.Result.{Result, ok, fail, ◌>>=◌, demo_auth_required, invalid_demo_identity}
use parimit.Auth.{
  ActorRole, agent, approver, consumer, admin, AuthenticatedActor, Headers, read_single_header,
  is_actor_id,
}

-- The role of a lower-case name.
unfoldable pub role_named : Text → Option ActorRole
role_named t =
    if text_eq t (lit "agent")
    then some agent
    else if text_eq t (lit "approver")
    then some approver
    else if text_eq t (lit "consumer")
    then some consumer
    else if text_eq t (lit "admin")
    then some admin
    else none

abbrev actor_of : Text → Option ActorRole → Result AuthenticatedActor
actor_of actor_id none = fail invalid_demo_identity 401
actor_of actor_id (some role) = ok (record {
  actor_id = actor_id;
  actor_role = role;
  subject = actor_id;
  authentication_method = demo;
  issuer = none;
})

abbrev pub demo_actor : Option Text → Option Text → Result AuthenticatedActor
demo_actor (some actor_id) (some raw_role) =
    if not (is_actor_id actor_id)
    then fail invalid_demo_identity 401
    else actor_of actor_id (role_named (lower raw_role))
demo_actor _ _ = fail demo_auth_required 401

unfoldable pub authenticate_demo : Headers → Result AuthenticatedActor
authenticate_demo headers = do
  actor_id ← read_single_header headers (lit "x-parimit-actor")
  raw_role ← read_single_header headers (lit "x-parimit-role")
  demo_actor actor_id raw_role
