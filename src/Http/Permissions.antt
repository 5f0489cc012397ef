-- ===== src/Http/Permissions.antt =====
-- Which calls of the service each role of an actor permits, and what the tests of the handler establish.
use parimit.Common.{
  ◌≡◌, refl, sym, ap, Bool, true, false, not, Option, none, some, List, [], ◌∷◌, any, ℕ, &&-eq-true,
}
use parimit.Text.{Text, lit, text_eq_iff}
use parimit.Json.{Json, null, bool, num, str, arr, obj, Fields, get_field}
use parimit.Types.{IntentStatus}
use parimit.Result.{ok, >>=-eq-ok, fail_if, fail_if-eq-ok, ok_injective, actor_identity_mismatch}
use parimit.Service.Integrity.Payloads.{is_str}
use parimit.Service.Validation.{require_object, reject_unknown_keys, body_keys}
use parimit.Service.Methods.Calls.{
  Call, evaluates, creates, reads, audits, owns, lists, approves, cancels, observes, issues,
  verifies, consumes,
}
use parimit.Auth.{
  ActorRole, agent, approver, consumer, admin, role_text, same_role, AuthenticatedActor,
}
use parimit.Http.Body.{require_json_object, require_role, is_requested_by, authenticated_proposal}

module _ (actor : AuthenticatedActor) where
  abbrev pub HasRole : List ActorRole → Type 0
  HasRole allowed = any (same_role actor.actor_role) allowed ≡ true

  -- The proposal is requested by the actor.
  abbrev pub IsOwn : Fields → Type 0
  IsOwn body =
      (requested_by : Fields) × (get_field (lit "requested_by") body ≡ some (obj requested_by))
      × (get_field (lit "type") requested_by ≡ some (str (lit "agent")))
      × (get_field (lit "id") requested_by ≡ some (str actor.actor_id))

  abbrev pub own_id : Option Json
  own_id = some (str actor.actor_id)

  pub data Permitted : Call → Type 0 where
    evaluating :
        (body : Fields) → HasRole (agent ∷ []) → IsOwn body → Permitted (evaluates (obj body))
    creating : (body : Fields) → HasRole (agent ∷ []) → IsOwn body → Permitted (creates (obj body))
    owning : (id : Text) → Permitted (owns id own_id)
    reading : (id : Text) → HasRole (agent ∷ approver ∷ admin ∷ []) → Permitted (reads id)
    auditing : (id : Text) → HasRole (agent ∷ approver ∷ admin ∷ []) → Permitted (audits id)
    listing_own :
        (status : Option IntentStatus) (limit : Option ℕ)
        → HasRole (agent ∷ [])
        → Permitted (lists (some actor.actor_id) status limit)
    listing :
        (filter : Option Text) (status : Option IntentStatus) (limit : Option ℕ)
        → HasRole (approver ∷ admin ∷ [])
        → Permitted (lists filter status limit)
    approving :
        (id : Text) (decision : Option Json)
        → HasRole (approver ∷ admin ∷ [])
        → Permitted (approves id own_id (role_text actor.actor_role) decision)
    cancelling : (id : Text) → Permitted (cancels id own_id (role_text actor.actor_role))
    observing :
        (id : Text) (status reference : Option Json)
        → HasRole (admin ∷ [])
        → Permitted (observes id status reference actor.actor_id)
    issuing :
        (id : Text) (value : Json)
        → HasRole (approver ∷ admin ∷ [])
        → Permitted (issues id value own_id (role_text actor.actor_role))
    verifying :
        (jws audience : Option Json)
        → HasRole (approver ∷ consumer ∷ admin ∷ [])
        → Permitted (verifies jws audience)
    consuming :
        (jws audience key : Option Json)
        → HasRole (consumer ∷ admin ∷ [])
        → Permitted (consumes jws audience own_id (role_text actor.actor_role) key)

  is_str_sound : (t : Text) (v : Option Json) → is_str t v ≡ true → v ≡ some (str t)
  is_str_sound t (some (str u)) h = ap (λ x. some (str x)) ((text_eq_iff u t).0 h)
  is_str_sound t (some null) h = cc
  is_str_sound t (some (bool b)) h = cc
  is_str_sound t (some (num n)) h = cc
  is_str_sound t (some (arr vs)) h = cc
  is_str_sound t (some (obj fs)) h = cc
  is_str_sound t none h = cc

  pub not-eq-false : (b : Bool) → not b ≡ false → b ≡ true
  not-eq-false true h = refl
  not-eq-false false h = cc

  pub require_role-HasRole :
      (allowed : List ActorRole) {u : Unit {0}}
      → require_role allowed actor ≡ ok u
      → HasRole allowed
  unfolding require_role
  require_role-HasRole allowed h = not-eq-false _ (fail_if-eq-ok _ _ _ h)

  pub require_json_object-eq-ok :
      (allowed : List Text) (value : Option Json) {fs : Fields}
      → require_json_object allowed value ≡ ok fs
      → value ≡ some (obj fs)
  unfolding require_json_object require_object
  require_json_object-eq-ok allowed (some (obj gs)) h =
      let (_, _, h') = >>=-eq-ok (reject_unknown_keys allowed gs) _ h in
      ap (λ x. some (obj x)) (ok_injective h')
  require_json_object-eq-ok allowed none h = cc
  require_json_object-eq-ok allowed (some null) h = cc
  require_json_object-eq-ok allowed (some (bool b)) h = cc
  require_json_object-eq-ok allowed (some (num n)) h = cc
  require_json_object-eq-ok allowed (some (str t)) h = cc
  require_json_object-eq-ok allowed (some (arr vs)) h = cc

  pub authenticated_proposal-IsOwn :
      (value : Json) {proposal : Json}
      → authenticated_proposal actor value ≡ ok proposal
      → (body : Fields) × (proposal ≡ obj body) × HasRole (agent ∷ []) × IsOwn body
  unfolding authenticated_proposal
  authenticated_proposal-IsOwn value h =
      let (_, role, h₁) = >>=-eq-ok (require_role (agent ∷ []) actor) _ h in
      let (body, e₁, h₂) = >>=-eq-ok (require_json_object body_keys (some value)) _ h₁ in
      let (by, e₂, h₃) =
        >>=-eq-ok
          (require_json_object (lit "type" ∷ lit "id" ∷ []) (get_field (lit "requested_by") body)) _
          h₂ in
      let (_, e₃, h₄) =
        >>=-eq-ok (fail_if (not (is_requested_by actor.actor_id by)) actor_identity_mismatch 403) _
          h₃ in
      let (typed, named) = &&-eq-true _ _ (not-eq-false _ (fail_if-eq-ok _ _ _ e₃)) in
      (
        body,
        sym (ok_injective h₄),
        require_role-HasRole _ role,
        (by, require_json_object-eq-ok _ _ e₂, is_str_sound _ _ typed, is_str_sound _ _ named),
      )
