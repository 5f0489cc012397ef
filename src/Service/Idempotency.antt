-- ===== src/Service/Idempotency.antt =====
-- `createIntent` with an idempotency key that its agent has used before.
use parimit.Common.{
  ℕ, ◌≡◌, refl, subst, ◌∙◌, ap, inl, inr, Bool, true, false, Option, none, some, List, [], ◌∷◌,
  ◌++◌, arith, find, Bool-cases,
}
use parimit.Text.{Text, text_eq_refl}
use parimit.Types.{Proposal, PolicyDecision}
use parimit.Result.{ok, fail_if}
use parimit.Database.{Database, IntentRow, has_key, find_by_key}
use parimit.Exec.{World, resume}
use parimit.Exec.Yields.{Yields, returns, Yields-result, Yields-ok, Yields-store, Yields-returned}
use parimit.Service.{Service, now, random_uuid}
use parimit.Service.Effects.{insert_and_record-Wrote}
use parimit.Service.History.{Later, Evolves}
use parimit.Service.History.Runs.{run-Evolves}
use parimit.Service.Methods.Calls.{Call, run}
use parimit.Service.Methods.Insert.{new_intent, insert_and_record}
use parimit.Service.Methods.Create.{create_proposal, create_or_replay, request_fingerprint}

-- A row is found again at any later time.
find-Evolves :
    (tenant agent key : Text) (xs ys : List IntentRow) {r : IntentRow}
    → Evolves xs ys
    → find (has_key tenant agent key) xs ≡ some r
    → (s : IntentRow) × (find (has_key tenant agent key) ys ≡ some s) × Later r s
find-Evolves tenant agent key [] ys e h = cc
find-Evolves tenant agent key (x ∷ xs) [] e h = absurd e
find-Evolves tenant agent key (x ∷ xs) (y ∷ ys) {r} (later, e) h =
    let same : has_key tenant agent key y ≡ has_key tenant agent key x =
      ap (has_key tenant agent key) later.same in
    elim (Bool-cases (has_key tenant agent key x)) [
      | inl hit ↦
          let here : x ≡ r = ground arith in
          (y, rw (same, hit) refl, subst (λ z. Later z y) here later)
      | inr miss ↦
          let (s, found, after) = find-Evolves tenant agent key xs ys e (rw miss at h) in
          (s, rw (same, miss) found, after)
    ]

find-append :
    (p : IntentRow → Bool) (xs : List IntentRow) (r : IntentRow)
    → find p xs ≡ none
    → p r ≡ true
    → find p (xs ++ r ∷ []) ≡ some r
find-append p [] r h t = rw t refl
find-append p (x ∷ xs) r h t = ground (arith, find-append p xs r)

module _ (svc : Service) (input : Proposal) where
  -- The row that answers the key, with the fingerprint of the request.
  record Answers (id : Text) (db : Database) : Type 0 where
    row : IntentRow
    found : find_by_key svc.tenant_id input.agent_id input.idempotency_key db ≡ some row
    named : row.id ≡ id
    same : row.request_fingerprint ≡ request_fingerprint svc input

  replays :
      (id : Text) (w : World) → Answers id w.db → create_proposal svc input w ≡ (ok (id, true), w)
  unfolding create_proposal create_or_replay resume fail_if
  replays id w a = rw (a.found, a.same, text_eq_refl (request_fingerprint svc input), a.named) refl

  later-Answers :
      (id : Text) (db db' : Database)
      → Evolves db.intents db'.intents
      → Answers id db
      → Answers id db'
  unfolding find_by_key
  later-Answers id db db' e a =
      let (s, found, later) =
        find-Evolves svc.tenant_id input.agent_id input.idempotency_key db.intents db'.intents e
          a.found in
      record {
        row = s;
        found = found;
        named = ap (λ z. z.id) later.same ∙ a.named;
        same = ap (λ z. z.request_fingerprint) later.same ∙ a.same;
      }

  stored-Answers :
      (policy : PolicyDecision) (id : Text) (at : ℕ) (db : Database) {db' : Database}
      → find_by_key svc.tenant_id input.agent_id input.idempotency_key db ≡ none
      → insert_and_record svc input (request_fingerprint svc input) policy id at db ≡ ok db'
      → Answers id db'
  unfolding find_by_key new_intent
  stored-Answers policy id at db unused h =
      let (_, _, wrote) = insert_and_record-Wrote svc input _ policy id at db h in
      record {
        row = new_intent svc input (request_fingerprint svc input) policy id at;
        found =
            ap (find (has_key svc.tenant_id input.agent_id input.idempotency_key)) (wrote.intents)
            ∙ find-append (has_key svc.tenant_id input.agent_id input.idempotency_key) db.intents _
                unused
                (rw
                  (
                    text_eq_refl svc.tenant_id,
                    text_eq_refl input.agent_id,
                    text_eq_refl input.idempotency_key,
                  )
                  refl);
        named = refl;
        same = refl;
      }

  abbrev Created : Text × Bool → World → Type 0
  Created result v = result.1 ≡ false → Answers result.0 v.db

  create_or_replay-Created :
      (o : Option IntentRow) (w : World)
      → find_by_key svc.tenant_id input.agent_id input.idempotency_key w.db ≡ o
      → Yields Created (create_or_replay svc input o w)
  unfolding create_or_replay now random_uuid
  create_or_replay-Created (some row) w e = Yields-result _ _ w λ _ _. returns λ replayed. cc
  create_or_replay-Created none w e = Yields-ok _ _ _ (
      Yields-ok _ _ _ (
        Yields-ok _ _ _ (
          Yields-ok _ _ _ (Yields-store _ _ _ λ db h. returns λ _. stored-Answers _ _ _ w.db e h))))

  create_proposal-Created : (w : World) → Yields Created (create_proposal svc input w)
  unfolding create_proposal
  create_proposal-Created w = Yields-ok _ _ w (create_or_replay-Created _ w refl)

  -- Once the transaction of `createIntent` has stored a proposal, the same request always gets it again,
  -- whatever calls are served in between, and changes nothing.
  pub create_proposal-replays :
      (id : Text) (w w' : World) (calls : List Call)
      → create_proposal svc input w ≡ (ok (id, false), w')
      → create_proposal svc input (run svc calls w') ≡ (ok (id, true), run svc calls w')
  create_proposal-replays id w w' calls h = replays id (run svc calls w') (
      later-Answers id w'.db (run svc calls w').db (run-Evolves svc calls w')
        (Yields-returned _ (create_proposal-Created w) h refl))
