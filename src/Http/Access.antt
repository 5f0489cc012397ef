-- ===== src/Http/Access.antt =====
-- A request makes only calls that are permitted to the actor that was authenticated.
use parimit.Common.{◌≡◌, refl, sym, true, false, Option, some, [], ◌∷◌, if◌then◌else◌, ℕ}
use parimit.Text.{Text}
use parimit.Types.{IntentStatus}
use parimit.Result.{ok, >>=-eq-ok, fail_if, ok_injective, validation_error, forbidden}
use parimit.Exec.{Action, ◌>>=◌, pure, resume}
use parimit.Service.{Service}
use parimit.Service.Methods.Calls.{
  Call, evaluates, creates, reads, audits, owns, lists, approves, cancels, observes, issues,
  verifies, consumes, discard, serve,
}
use parimit.Auth.{ActorRole, agent, approver, consumer, admin, same_role, AuthenticatedActor}
use parimit.Http.{Platform, Request, Response}
use parimit.Http.Query.{agent_filter}
use parimit.Http.Routes.{
  Endpoint, show_identity, create, list, simulate, verify, consume, observe, read, cancel, approve,
  issue, read_audit, verify_audit,
}
use parimit.Http.Endpoints.{
  serve_endpoint, serve_create, serve_list, serve_simulate, serve_observe, serve_verify,
  serve_consume, serve_approve, serve_issue, serve_read, authorize_read,
}
use parimit.Http.Performs.{
  Performs, Performs-still, Performs-call, Performs-bind, Performs-test, Performs-method,
}
use parimit.Http.Permissions.{
  HasRole, Permitted, evaluating, creating, owning, reading, auditing, listing_own, listing,
  approving, cancelling, observing, issuing, verifying, consuming, require_role-HasRole,
  authenticated_proposal-IsOwn,
}

module _ (svc : Service) (http : Platform) (r : Request) (actor : AuthenticatedActor) where
  abbrev Can : {A : Type 0} → Action A → Type 0
  Can m = Performs svc (Permitted actor) m

  answering : (response : Response) → Can (pure response)
  answering response = Performs-still svc _ λ w. refl

  method :
      {A : Type 0} (m : Action A) (c : Call) → Permitted actor c → serve svc c ≡ discard m → Can m
  method m c p same = Performs-method svc m c p same

  after_read-Performs :
      {A : Type 0} (role : ActorRole) (id : Text) (f : Unit {0} → Action A)
      → actor.actor_role ≡ role
      → (HasRole actor (agent ∷ approver ∷ admin ∷ []) → Can (f tt))
      → Can (authorize_read svc http r actor role id >>= f)
  unfolding authorize_read serve resume
  after_read-Performs consumer id f e q = Performs-still svc _ λ w. refl
  after_read-Performs agent id f e q =
      Performs-bind svc _ _ (Performs-call svc _ (owns id _) (owning id) λ w. refl)
        λ _. q (rw e refl)
  after_read-Performs approver id f e q = q (rw e refl)
  after_read-Performs admin id f e q = q (rw e refl)

  serve_create-Performs : Can (serve_create svc http r actor)
  unfolding serve_create serve
  serve_create-Performs = Performs-test svc _ _ λ value e. Performs-test svc _ _ λ proposal e'.
      let (body, same, role, own) = authenticated_proposal-IsOwn actor value e' in
      Performs-bind svc _ _ (method _ (creates proposal) (rw same (creating body role own)) refl)
        λ view. answering _

  serve_simulate-Performs : Can (serve_simulate svc http r actor)
  unfolding serve_simulate serve
  serve_simulate-Performs = Performs-test svc _ _ λ value e. Performs-test svc _ _ λ proposal e'.
      let (body, same, role, own) = authenticated_proposal-IsOwn actor value e' in
      Performs-bind svc _ _
        (method _ (evaluates proposal) (rw same (evaluating body role own)) refl)
        λ decision. answering _

  list-Permitted :
      (role : ActorRole) (wanted filter : Option Text) (status : Option IntentStatus)
      (limit : Option ℕ)
      → actor.actor_role ≡ role
      → HasRole actor (agent ∷ approver ∷ admin ∷ [])
      → filter ≡ (if same_role role agent then some actor.actor_id else wanted)
      → Permitted actor (lists filter status limit)
  list-Permitted agent wanted filter status limit e role f =
      rw f (listing_own status limit (rw e refl))
  list-Permitted approver wanted filter status limit e role f =
      listing filter status limit (rw e refl)
  list-Permitted admin wanted filter status limit e role f = listing filter status limit (rw e refl)
  list-Permitted consumer wanted filter status limit e role f =
      let none_listed : false ≡ true = rw e at role in cc

  agent_filter-eq-ok :
      (wanted : Option Text) {filter : Option Text}
      → agent_filter actor wanted ≡ ok filter
      → filter ≡ (if same_role actor.actor_role agent then some actor.actor_id else wanted)
  unfolding agent_filter
  agent_filter-eq-ok wanted h =
      let (_, _, h₁) = >>=-eq-ok (fail_if _ validation_error 400) _ h in
      let (_, _, h₂) = >>=-eq-ok (fail_if _ forbidden 403) _ h₁ in sym (ok_injective h₂)

  serve_list-Performs : Can (serve_list svc http r actor)
  unfolding serve_list serve
  serve_list-Performs = Performs-test svc _ _ λ _ role. Performs-test svc _ _ λ status e₁.
      Performs-test svc _ _ λ limit e₂. Performs-test svc _ _ λ filter e₃.
        Performs-bind svc _ _
          (method _ (lists filter status limit)
            (list-Permitted actor.actor_role r.agent_id filter status limit refl
              (require_role-HasRole actor _ role) (agent_filter-eq-ok r.agent_id e₃))
            refl)
          λ views. answering _

  serve_observe-Performs : (segment : Text) → Can (serve_observe svc http r actor segment)
  unfolding serve_observe serve
  serve_observe-Performs segment = Performs-test svc _ _ λ _ role. Performs-test svc _ _ λ value e₁.
      Performs-test svc _ _ λ fs e₂. Performs-test svc _ _ λ id e₃.
        Performs-bind svc _ _
          (method _ (observes id _ _ actor.actor_id)
            (observing id _ _ (require_role-HasRole actor _ role)) refl)
          λ view. answering _

  serve_verify-Performs : Can (serve_verify svc http r actor)
  unfolding serve_verify serve
  serve_verify-Performs = Performs-test svc _ _ λ _ role. Performs-test svc _ _ λ value e₁.
      Performs-test svc _ _ λ fs e₂. Performs-test svc _ _ λ _ e₃.
        Performs-bind svc _ _
          (method _ (verifies _ _) (verifying _ _ (require_role-HasRole actor _ role)) refl)
          λ v. answering _

  serve_consume-Performs : Can (serve_consume svc http r actor)
  unfolding serve_consume serve
  serve_consume-Performs = Performs-test svc _ _ λ _ role. Performs-test svc _ _ λ value e₁.
      Performs-test svc _ _ λ fs e₂.
        Performs-bind svc _ _
          (method _ (consumes _ _ _ _ _) (consuming _ _ _ (require_role-HasRole actor _ role)) refl)
          λ view. answering _

  serve_approve-Performs : (id : Text) → Can (serve_approve svc http r actor id)
  unfolding serve_approve serve
  serve_approve-Performs id = Performs-test svc _ _ λ _ role. Performs-test svc _ _ λ value e₁.
      Performs-test svc _ _ λ fs e₂.
        Performs-bind svc _ _
          (method _ (approves id _ _ _) (approving id _ (require_role-HasRole actor _ role)) refl)
          λ view. answering _

  serve_issue-Performs : (id : Text) → Can (serve_issue svc http r actor id)
  unfolding serve_issue serve
  serve_issue-Performs id = Performs-test svc _ _ λ _ role. Performs-test svc _ _ λ value e₁.
      Performs-bind svc _ _
        (method _ (issues id value _ _) (issuing id value (require_role-HasRole actor _ role)) refl)
        λ view. answering _

  serve_read-Performs : (id : Text) → Can (serve_read svc http r actor id)
  unfolding serve_read serve
  serve_read-Performs id =
      after_read-Performs actor.actor_role id _ refl λ role.
        Performs-bind svc _ _ (method _ (reads id) (reading id role) refl) λ view. answering _

  pub serve_endpoint-Performs : (e : Endpoint) → Can (serve_endpoint svc http r actor e)
  unfolding serve_endpoint serve
  serve_endpoint-Performs show_identity = answering _
  serve_endpoint-Performs create = serve_create-Performs
  serve_endpoint-Performs list = serve_list-Performs
  serve_endpoint-Performs simulate = serve_simulate-Performs
  serve_endpoint-Performs (observe segment) = serve_observe-Performs segment
  serve_endpoint-Performs verify = serve_verify-Performs
  serve_endpoint-Performs consume = serve_consume-Performs
  serve_endpoint-Performs (read id) = serve_read-Performs id
  serve_endpoint-Performs (cancel id) =
      Performs-bind svc _ _ (method _ (cancels id _ _) (cancelling id) refl) λ view. answering _
  serve_endpoint-Performs (approve id) = serve_approve-Performs id
  serve_endpoint-Performs (issue id) = serve_issue-Performs id
  serve_endpoint-Performs (read_audit id) = after_read-Performs actor.actor_role id _ refl λ role.
      Performs-bind svc _ _ (method _ (audits id) (auditing id role) refl) λ events. answering _
  serve_endpoint-Performs (verify_audit id) =
      after_read-Performs actor.actor_role id _ refl
        λ role. Performs-bind svc _ _ (Performs-still svc _ λ w. refl) λ found. answering _
