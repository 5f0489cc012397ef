-- ===== src/Http/Isolation.antt =====
-- An agent sees its own proposals only.
use parimit.Common.{
  ◌≡◌, refl, sym, ◌∙◌, ap, subst, some, List, [], ◌∷◌, Memᴰ, find-eq-some, &&-eq-true,
}
use parimit.Text.{Text, text_eq_iff}
use parimit.Json.{str}
use parimit.Result.{ok, required-eq-ok, fail_if, >>=-eq-ok, ok_injective, validation_error}
use parimit.Database.{Database, IntentRow, find_intent, find_owned, is_intent}
use parimit.Exec.{World}
use parimit.Exec.Yields.{Yields, returns, Yields-result, Yields-then, Yields-returned, Yields-here}
use parimit.Service.{Service}
use parimit.Service.Validation.{require_identifier, require_string}
use parimit.Service.History.{Later, Evolves}
use parimit.Service.History.Runs.{run-Evolves}
use parimit.Service.Quorum.{Quorum}
use parimit.Service.Quorum.Writes.{run-Quorum}
use parimit.Service.Methods.Calls.{owns, reads, serve, run}
use parimit.Service.Methods.Expiry.{expire_due_intents}
use parimit.Service.Methods.Read.{
  IntentView, row_to_intent, get_intent, assert_intent_owned_by_agent,
}
use parimit.Auth.{AuthenticatedActor, agent}
use parimit.Http.{Platform, Request, Response, intent}
use parimit.Http.Routes.{read}
use parimit.Http.Endpoints.{serve_endpoint, serve_read, authorize_read}
use parimit.Http.Performs.{discard-world}

-- A stored row is there at any later time.
Memᴰ-Evolves :
    (xs ys : List IntentRow) {x : IntentRow}
    → Evolves xs ys
    → Memᴰ x xs
    → (y : IntentRow) × Memᴰ y ys × Later x y
Memᴰ-Evolves [] ys e m = elim m [ ]
Memᴰ-Evolves (x ∷ xs) [] e m = absurd e
Memᴰ-Evolves (x ∷ xs) (y ∷ ys) (later, e) (Memᴰ.head same) =
    (y, Memᴰ.head refl, subst (λ z. Later z y) (sym same) later)
Memᴰ-Evolves (x ∷ xs) (y ∷ ys) (later, e) (Memᴰ.tail m) =
    let (z, n, after) = Memᴰ-Evolves xs ys e m in (z, Memᴰ.tail n, after)

module _ (svc : Service) (id : Text) where
  get_intent-Found :
      (w : World)
      → Yields
          (λ view w'. find_intent svc.tenant_id id w'.db ≡ some view.intent)
          (get_intent svc id w)
  unfolding get_intent row_to_intent
  get_intent-Found w = Yields-result _ _ _ λ _ e. Yields-result _ _ _ λ row found.
      Yields-result _ _ _
        λ report e'. Yields-result _ _ _ λ _ sound. returns (required-eq-ok _ found)

  abbrev Owned : Text → World → Type 0
  Owned actor_id w = (row : IntentRow) × (find_owned svc.tenant_id id actor_id w.db ≡ some row)

  require_identifier-same : (t : Text) {s : Text} → require_identifier (some (str t)) ≡ ok s → s ≡ t
  unfolding require_identifier require_string
  require_identifier-same t h =
      let (s', e, h₁) = >>=-eq-ok (require_string 128 (some (str t))) _ h in
      let (_, _, h₂) = >>=-eq-ok (fail_if _ validation_error 400) _ h₁ in
      let (_, _, h₃) = >>=-eq-ok (fail_if _ validation_error 400) _ e in
      sym (ok_injective h₂) ∙ sym (ok_injective h₃)

  abbrev after : World → Database
  after w = (expire_due_intents svc w).1.db

  assert_intent_owned_by_agent-Owned :
      (actor_id : Text) (w : World)
      → Yields
          (λ _ w'. Owned actor_id w')
          (assert_intent_owned_by_agent svc id (some (str actor_id)) w)
  unfolding assert_intent_owned_by_agent
  assert_intent_owned_by_agent-Owned actor_id w = Yields-result _ _ _ λ _ e.
      Yields-result _ _ _ λ s named. Yields-result _ _ _ λ row found. returns (
        row,
        subst (λ t. find_owned svc.tenant_id id t (after w) ≡ some row)
            (require_identifier-same actor_id named) (required-eq-ok _ found),
      )

  -- A row that was owned is the one that is found later.
  find_intent-agent_id :
      (actor_id : Text) (db db' : Database) {row found : IntentRow}
      → Quorum db'
      → Evolves db.intents db'.intents
      → find_owned svc.tenant_id id actor_id db ≡ some row
      → find_intent svc.tenant_id id db' ≡ some found
      → found.agent_id ≡ actor_id
  unfolding find_owned find_intent
  find_intent-agent_id actor_id db db' {row} {found} q e owned h =
      let (t, m) = find-eq-some _ db.intents owned in
      let (named, mine) = &&-eq-true (is_intent svc.tenant_id id row) _ t in
      let (t', m') = find-eq-some _ db'.intents h in
      let (y, n, later) = Memᴰ-Evolves db.intents db'.intents e m in
      let same : y ≡ found = q.unique y found n m' (
        ap (λ z. z.id) later.same
        ∙ (text_eq_iff _ _).0 (&&-eq-true _ _ named).0
        ∙ sym ((text_eq_iff _ _).0 (&&-eq-true _ _ t').0)) in
      ap (λ z. z.agent_id) (sym same) ∙ ap (λ z. z.agent_id) later.same ∙ (text_eq_iff _ _).0 mine

module _ (svc : Service) (http : Platform) (r : Request) (actor : AuthenticatedActor) where
  -- The response shows a proposal of the actor.
  abbrev pub ShowsOwn : Response → Type 0
  ShowsOwn response =
      (view : IntentView) × (response.payload ≡ intent view)
      × (view.intent.agent_id ≡ actor.actor_id)

  owns-ran :
      (id : Text) (w w' : World) {u : Unit {0}}
      → assert_intent_owned_by_agent svc id (some (str actor.actor_id)) w ≡ (ok u, w')
      → (serve svc (owns id (some (str actor.actor_id))) w).1 ≡ w'
  unfolding serve
  owns-ran id w w' h = ap (λ p. p.1) h

  reads-ran :
      (id : Text) (w w' : World) {view : IntentView}
      → get_intent svc id w ≡ (ok view, w')
      → (serve svc (reads id) w).1 ≡ w'
  unfolding serve
  reads-ran id w w' h = discard-world svc (get_intent svc id) w ∙ ap (λ p. p.1) h

  read_agent_id :
      (id : Text) (w w₁ w₂ : World) (view : IntentView)
      → Quorum w.db
      → (serve svc (owns id (some (str actor.actor_id))) w).1 ≡ w₁
      → (serve svc (reads id) w₁).1 ≡ w₂
      → Owned svc id actor.actor_id w₁
      → find_intent svc.tenant_id id w₂.db ≡ some view.intent
      → view.intent.agent_id ≡ actor.actor_id
  unfolding run
  read_agent_id id w w₁ w₂ view q first second (row, owned) found =
      let kept : Quorum w₂.db =
        subst (λ v. Quorum v.db) (ap (λ v. (serve svc (reads id) v).1) first ∙ second)
          (run-Quorum svc (owns id (some (str actor.actor_id)) ∷ reads id ∷ []) w q) in
      let later : Evolves w₁.db.intents w₂.db.intents =
        subst (λ v. Evolves w₁.db.intents v.db.intents) second
          (run-Evolves svc (reads id ∷ []) w₁) in
      find_intent-agent_id svc id actor.actor_id w₁.db w₂.db kept later owned found

  read-Yields :
      (id : Text) (w : World)
      → Quorum w.db
      → actor.actor_role ≡ agent
      → Yields (λ response w'. ShowsOwn response) (serve_endpoint svc http r actor (read id) w)
  unfolding serve_endpoint serve_read authorize_read
  read-Yields id w q role = rw role (
      Yields-then _ (Yields-here (assert_intent_owned_by_agent-Owned svc id actor.actor_id w))
        λ u w₁ (owned, e₁).
          Yields-then _ (Yields-here (get_intent-Found svc id w₁)) λ view w₂ (found, e₂). returns (
            view,
            refl,
            read_agent_id id w w₁ w₂ view q (owns-ran id w w₁ e₁) (reads-ran id w₁ w₂ e₂) owned
                found,
          ))

  -- In a database that satisfies `Quorum`, where an agent's request for a proposal is answered, the
  -- response shows a proposal of that agent.
  pub read-ShowsOwn :
      (id : Text) (w w' : World) (response : Response)
      → Quorum w.db
      → actor.actor_role ≡ agent
      → serve_endpoint svc http r actor (read id) w ≡ (ok response, w')
      → ShowsOwn response
  read-ShowsOwn id w w' response q role h = Yields-returned _ (read-Yields id w q role) h
