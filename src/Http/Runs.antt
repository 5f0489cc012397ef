-- ===== src/Http/Runs.antt =====
-- What handling requests does to the service.
use parimit.Common.{◌≡◌, refl, ◌⊎◌, inl, inr, true, Bool-cases}
use parimit.Result.{Result, ok, err}
use parimit.Exec.{World}
use parimit.Service.{Service}
use parimit.Auth.{AuthenticatedActor}
use parimit.Http.{IdentityProvider, Platform, Request, Response}
use parimit.Http.Routes.{Route, options, safety, jwks, endpoint, other, Endpoint, route}
use parimit.Http.Handler.{is_valid_actor, served, dispatch, handle}
use parimit.Http.Performs.{Performed}
use parimit.Http.Permissions.{Permitted}
use parimit.Http.Access.{serve_endpoint-Performs}

module _ {S : Type 0} (svc : Service) (provider : IdentityProvider S) (http : Platform) where
  -- The provider authenticated an actor, and the service did what that actor may do.
  pub record Authorized (r : Request) (w : World) (s : S) (w' : World) (s' : S) : Type 0 where
    pub actor : AuthenticatedActor
    pub authenticated : provider.authenticate r.headers s ≡ (ok actor, s')
    pub valid : is_valid_actor svc actor ≡ true
    pub performed : Performed svc (Permitted actor) w w'

  abbrev pub Outcome : Request → World → S → Response × World × S → Type 0
  Outcome r w s (_, w', s') = (w' ≡ w) ⊎ Authorized r w s w' s'

  served-Outcome :
      (r : Request) (e : Endpoint) (w : World) (s : S) (p : Result AuthenticatedActor × S)
      → provider.authenticate r.headers s ≡ p
      → Outcome r w s (served svc provider http r e w p)
  served-Outcome r e w s (err x, s') h = inl refl
  served-Outcome r e w s (ok actor, s') h = elim (Bool-cases (is_valid_actor svc actor)) [
    | inl valid ↦ rw valid (
        inr (record {
          actor = actor;
          authenticated = h;
          valid = valid;
          performed = (serve_endpoint-Performs svc http r actor e).at w;
        }))
    | inr not_valid ↦ rw not_valid (inl refl)
  ]

  dispatch-Outcome :
      (r : Request) (w : World) (s : S) (found : Result Route)
      → Outcome r w s (dispatch svc provider http r found w s)
  dispatch-Outcome r w s (err e) = inl refl
  dispatch-Outcome r w s (ok options) = inl refl
  dispatch-Outcome r w s (ok safety) = inl refl
  dispatch-Outcome r w s (ok jwks) = inl refl
  dispatch-Outcome r w s (ok other) = inl refl
  dispatch-Outcome r w s (ok (endpoint e)) = served-Outcome r e w s _ refl

  -- A request changes the service only if its actor was authenticated, and then by calls that are
  -- permitted to that actor: an agent proposes what it requests itself and lists its own proposals,
  -- only approvers and admins review and issue, only consumers and admins consume, consumers do not read
  -- proposals, only admins record observations, and every call is made under the actor's own id and role.
  pub handle-Authorized :
      (r : Request) (w : World) (s : S) → Outcome r w s (handle svc provider http r w s)
  unfolding handle
  handle-Authorized r w s = dispatch-Outcome r w s (route http r)
