-- ===== src/Http/Handler.antt =====
-- `createHttpHandler`: authentication, the routes that need none, and errors as responses.
use parimit.Common.{
  ℕ, Bool, true, false, not, ◌&&◌, Option, none, some, List, [], ◌∷◌, if◌then◌else◌,
}
use parimit.Text.{Text, lit, text_eq, is_empty}
use parimit.Types.{AuthenticationMode}
use parimit.Result.{
  Result, ok, err, fail_if, ◌>>◌, ParimitError, invalid_path, invalid_identity_provider_result,
  invalid_auth_configuration,
}
use parimit.Exec.{World}
use parimit.Service.{Service}
use parimit.Service.Envelopes.Verify.{same_flag}
use parimit.Auth.{AuthenticatedActor, is_actor_id}
use parimit.Http.{
  IdentityProvider, Platform, Request, Payload, no_content, safety_metadata, envelope_jwks,
  static_file, route_not_found, failure, Response,
}
use parimit.Http.Routes.{Route, options, safety, jwks, endpoint, other, Endpoint, route}
use parimit.Http.Endpoints.{serve_endpoint, is_demo}

abbrev pub same_mode : AuthenticationMode → AuthenticationMode → Bool
same_mode m n = same_flag (is_demo m) (is_demo n)

abbrev respond : ℕ → Payload → Response
respond status payload = record { status = status; payload = payload; warned = false }

abbrev pub failed : ParimitError → Response
failed e = respond e.status_code (failure e.code)

-- The tests of `authenticate` on what the provider returned.
unfoldable pub is_valid_actor : Service → AuthenticatedActor → Bool
is_valid_actor svc actor =
    is_actor_id actor.actor_id
    && (not (is_empty actor.subject)
        && same_mode actor.authentication_method svc.authentication_mode)

abbrev response_of : Result Response → Response
response_of (ok r) = r
response_of (err e) = failed e

module _ {S : Type 0} (svc : Service) (provider : IdentityProvider S) (http : Platform) where
  -- The handler is made only for a provider of the service's mode and trust domain.
  unfoldable pub check_provider : Result (Unit {0})
  check_provider = do
    fail_if (not (same_mode provider.authentication_method svc.authentication_mode))
        invalid_auth_configuration 500
    fail_if (not (text_eq provider.identity_trust_domain_id svc.identity_trust_domain_id))
        invalid_auth_configuration 500

  abbrev answered : S → Result Response × World → Response × World × S
  answered s (r, w) = (response_of r, w, s)

  abbrev pub served :
      Request → Endpoint → World → Result AuthenticatedActor × S → Response × World × S
  served r e w (err x, s) = (failed x, w, s)
  served r e w (ok actor, s) =
      if is_valid_actor svc actor
      then answered s (serve_endpoint svc http r actor e w)
      else (respond 500 (failure invalid_identity_provider_result), w, s)

  abbrev file_response : (Text → Bool) → Option Text → Response
  file_response holds none = respond 400 (failure invalid_path)
  file_response holds (some path) =
      if holds path then respond 200 static_file else respond 404 route_not_found

  abbrev static_response : Bool → Option (Text → Bool) → Text → Response
  static_response true (some holds) pathname =
      file_response holds (http.decode_uri_component pathname)
  static_response get _ pathname = respond 404 route_not_found

  -- `serveStatic` where the method is GET and there is a directory.
  unfoldable pub serve_other : Request → Response
  serve_other r = static_response (text_eq r.method (lit "GET")) http.public_file r.pathname

  abbrev pub dispatch : Request → Result Route → World → S → Response × World × S
  dispatch r (err e) w s = (failed e, w, s)
  dispatch r (ok options) w s = (respond 204 no_content, w, s)
  dispatch r (ok safety) w s = (respond 200 safety_metadata, w, s)
  dispatch r (ok jwks) w s = (respond 200 envelope_jwks, w, s)
  dispatch r (ok (endpoint e)) w s = served r e w (provider.authenticate r.headers s)
  dispatch r (ok other) w s = (serve_other r, w, s)

  -- Every request gets a response.
  unfoldable pub handle : Request → World → S → Response × World × S
  handle r w s = dispatch r (route http r) w s

  -- The requests are served one after the other.
  unfoldable pub handle_all : List Request → World → S → World × S
  handle_all [] w s = (w, s)
  handle_all (r ∷ rs) w s = let (_, w', s') = handle r w s in handle_all rs w' s'
