-- ===== src/Service/SingleUse/Methods.antt =====
-- `consumeAuthorizationEnvelope` on an envelope that is consumed.
use parimit.Common.{
  ℕ, ◌≡◌, refl, sym, subst, ◌∙◌, ap, inl, inr, Bool, true, false, ◌&&◌, Option, none, some, List,
  [], ◌∷◌, find, arith, Bool-cases, find-eq-some, &&-eq-true, Memᴰ, if◌then◌else◌,
}
use parimit.Text.{Text, text_eq, text_eq_iff}
use parimit.Result.{Result, ok, fail, required, envelope_replay_detected, required-eq-ok}
use parimit.Database.{Database, EnvelopeRow}
use parimit.Database.Envelopes.{find_envelope, envelope_row, is_envelope, claim, claim_rows}
use parimit.Exec.{World, resume, pure, throw}
use parimit.Service.Integrity.Envelopes.{cell}
use parimit.Service.Envelopes.Store.{store_consumption}
use parimit.Exec.Yields.{
  Yields, returns, throws, Yields-result, Yields-ok, Yields-store, Yields-if, Yields-returned,
}
use parimit.Service.{Service, now}
use parimit.Service.Effects.Evidence.{store_consumption-Wrote}
use parimit.Service.Methods.Calls.{Call, run}
use parimit.Service.Envelopes.Consume.{consume_envelope, claim_or_replay, claim_now, replay_claim}
use parimit.Service.SingleUse.{LaterEnvelope, kept, claimed, EnvelopesEvolve}
use parimit.Service.SingleUse.Writes.{run-EnvelopesEvolve}

same_name :
    (tenant id : Text) (x y : EnvelopeRow)
    → LaterEnvelope x y
    → is_envelope tenant id y ≡ is_envelope tenant id x
same_name tenant id x y (kept e) = ap (is_envelope tenant id) e
same_name tenant id x y (claimed at actor key _ _ _ e) = ap (is_envelope tenant id) e

settled : (x y : EnvelopeRow) {at : ℕ} → LaterEnvelope x y → x.consumed_at ≡ some at → y ≡ x
settled x y (kept e) taken = e
settled x y (claimed _ _ _ free _ _ _) taken = cc

-- A consumed envelope is found again, unchanged, at any later time.
find-EnvelopesEvolve :
    (tenant id : Text) (xs ys : List EnvelopeRow) {r : EnvelopeRow} {at : ℕ}
    → EnvelopesEvolve xs ys
    → find (is_envelope tenant id) xs ≡ some r
    → r.consumed_at ≡ some at
    → find (is_envelope tenant id) ys ≡ some r
find-EnvelopesEvolve tenant id [] ys e h taken = cc
find-EnvelopesEvolve tenant id (x ∷ xs) [] e h taken = absurd e
find-EnvelopesEvolve tenant id (x ∷ xs) (y ∷ ys) {r} {at} (later, e) h taken =
    let same = same_name tenant id x y later in
    elim (Bool-cases (is_envelope tenant id x)) [
      | inl hit ↦
          let here : x ≡ r = ground arith in
          let keeps : y ≡ x = settled x y later (ap (λ z. z.consumed_at) here ∙ taken) in
          rw (same, hit) (ap some (keeps ∙ here))
      | inr miss ↦ rw (same, miss) (find-EnvelopesEvolve tenant id xs ys e (rw miss at h) taken)
    ]

-- The UPDATE finds the row that was read.
find-claim :
    (tenant id : Text) (at : ℕ) (actor key : Text) (xs : List EnvelopeRow) {r : EnvelopeRow}
    → find (is_envelope tenant id) xs ≡ some r
    → r.consumed_at ≡ none
    → find (is_envelope tenant id) (claim_rows tenant id at actor key xs)
      ≡ some (claim at actor key r)
unfolding claim_rows
find-claim tenant id at actor key [] h free = cc
find-claim tenant id at actor key (x ∷ xs) {r} h free =
    elim (Bool-cases (is_envelope tenant id x)) [
      | inl hit ↦
          let here : x ≡ r = ground arith in
          let open_ : x.consumed_at ≡ none = ap (λ z. z.consumed_at) here ∙ free in
          rw (hit, open_, hit) (ap (λ z. some (claim at actor key z)) here)
      | inr miss ↦ rw (miss, miss) (find-claim tenant id at actor key xs (rw miss at h) free)
    ]

-- The PRIMARY KEY of the table: no two rows have one id.
abbrev pub UniqueIds : List EnvelopeRow → Type 0
UniqueIds xs = (x y : EnvelopeRow) → Memᴰ x xs → Memᴰ y xs → x.id ≡ y.id → x ≡ y

-- The row that is read again by its id alone is the one that the UPDATE has changed.
find_id-claim :
    (tenant id : Text) (at : ℕ) (actor key : Text) (xs : List EnvelopeRow) {r : EnvelopeRow}
    → UniqueIds xs
    → find (is_envelope tenant id) xs ≡ some r
    → r.consumed_at ≡ none
    → find (λ e. text_eq e.id id) (claim_rows tenant id at actor key xs)
      ≡ some (claim at actor key r)
unfolding claim_rows
find_id-claim tenant id at actor key [] unique h free = cc
find_id-claim tenant id at actor key (x ∷ xs) {r} unique h free =
    elim (Bool-cases (text_eq x.id id)) [
      | inl hit ↦
          let (named, listed) = find-eq-some (is_envelope tenant id) (x ∷ xs) h in
          let ids : x.id ≡ r.id =
            (text_eq_iff x.id id).0 hit
            ∙ sym ((text_eq_iff r.id id).0 ((&&-eq-true _ _ named).0)) in
          let here : x ≡ r = unique x r (Memᴰ.head refl) listed ids in
          let open_ : x.consumed_at ≡ none = ap (λ z. z.consumed_at) here ∙ free in
          let ours : is_envelope tenant id x ≡ true = ap (is_envelope tenant id) here ∙ named in
          rw (ours, open_, hit) (ap (λ z. some (claim at actor key z)) here)
      | inr miss ↦
          rw (miss, miss)
            (find_id-claim tenant id at actor key xs
              (λ y z m n. unique y z (Memᴰ.tail m) (Memᴰ.tail n)) (rw miss at h) free)
    ]

module _ (svc : Service) (id actor key : Text) where
  -- The envelope is stored, consumed by that actor under that key.
  record IsConsumed (row : EnvelopeRow) (db : Database) : Type 0 where
    at : ℕ
    found : find_envelope svc.tenant_id id db ≡ some row
    taken : row.consumed_at ≡ some at
    by : row.consumed_by ≡ some actor
    under : row.consumption_idempotency_key ≡ some key

  later-IsConsumed :
      (row : EnvelopeRow) (db db' : Database)
      → EnvelopesEvolve db.envelopes db'.envelopes
      → IsConsumed row db
      → IsConsumed row db'
  unfolding find_envelope
  later-IsConsumed row db db' e c = record {
    at = c.at;
    found = find-EnvelopesEvolve svc.tenant_id id db.envelopes db'.envelopes e (c.found) (c.taken);
    taken = c.taken;
    by = c.by;
    under = c.under;
  }

  claimed-IsConsumed :
      (row : EnvelopeRow) (audience : Text) (at : ℕ) (db db' : Database)
      → find_envelope svc.tenant_id id db ≡ some row
      → row.consumed_at ≡ none
      → store_consumption svc row audience actor key at db ≡ ok db'
      → IsConsumed (claim at actor key row) db'
  unfolding find_envelope
  claimed-IsConsumed row audience at db db' found free h =
      let (_, wrote) = store_consumption-Wrote svc row audience actor key at db h in
      let (named, _) = find-eq-some (is_envelope svc.tenant_id id) db.envelopes found in
      let same : row.id ≡ id = (text_eq_iff row.id id).0 ((&&-eq-true _ _ named).0) in
      record {
        at = at;
        found =
            ap (find (is_envelope svc.tenant_id id)) (wrote.envelopes)
            ∙ subst
                (λ i.
                  find (is_envelope svc.tenant_id id)
                    (claim_rows svc.tenant_id i at actor key db.envelopes)
                  ≡ some (claim at actor key row))
                (sym same) (find-claim svc.tenant_id id at actor key db.envelopes found free);
        taken = refl;
        by = refl;
        under = refl;
      }

  stored-claimed :
      (row : EnvelopeRow) (audience : Text) (at : ℕ) (db db' : Database) {stored : EnvelopeRow}
      → UniqueIds db.envelopes
      → find_envelope svc.tenant_id id db ≡ some row
      → row.consumed_at ≡ none
      → store_consumption svc row audience actor key at db ≡ ok db'
      → envelope_row row.id db' ≡ some stored
      → claim at actor key row ≡ stored
  unfolding find_envelope envelope_row
  stored-claimed row audience at db db' {stored} unique found free h read =
      let (_, wrote) = store_consumption-Wrote svc row audience actor key at db h in
      let (named, _) = find-eq-some (is_envelope svc.tenant_id id) db.envelopes found in
      let same : row.id ≡ id = (text_eq_iff row.id id).0 ((&&-eq-true _ _ named).0) in
      let again =
        find_id-claim svc.tenant_id row.id at actor key db.envelopes unique
          (ap (λ i. find (is_envelope svc.tenant_id i) db.envelopes) same ∙ found) free in
      let reread : some (claim at actor key row) ≡ some stored =
        sym (ap (find (λ e. text_eq e.id row.id)) wrote.envelopes ∙ again) ∙ read in
      cc

  -- A first consumption returns the row that it leaves consumed.
  abbrev Fresh : EnvelopeRow × Bool → World → Type 0
  Fresh result v = result.1 ≡ false → IsConsumed result.0 v.db

  claim_or_replay-Fresh :
      (row : EnvelopeRow) (audience : Text) (expired : Bool) (o : Option ℕ) (w : World)
      → UniqueIds w.db.envelopes
      → find_envelope svc.tenant_id id w.db ≡ some row
      → row.consumed_at ≡ o
      → Yields Fresh (claim_or_replay svc row audience actor key expired o w)
  unfolding claim_or_replay claim_now replay_claim now
  claim_or_replay-Fresh row audience expired (some at) w unique found e =
      Yields-if
        (text_eq (cell row.consumed_by) actor && text_eq (cell row.consumption_idempotency_key) key)
        (pure (row, true)) (throw envelope_replay_detected 409) w (λ _. returns λ replayed. cc)
        (λ _. throws)
  claim_or_replay-Fresh row audience expired none w unique found e = Yields-result _ _ w λ _ _.
      Yields-ok _ _ _ (
        Yields-result _ _ _ λ _ _. Yields-result _ _ _ λ _ _. Yields-store _ _ _ λ db h.
          Yields-result _ _ _ λ stored read. returns λ _.
            subst (λ r. IsConsumed r db)
              (stored-claimed row audience _ w.db db unique found e h (required-eq-ok _ read))
              (claimed-IsConsumed row audience _ w.db db found e h))

  consume_envelope-Fresh :
      (audience : Text) (expired : Bool) (w : World)
      → UniqueIds w.db.envelopes
      → Yields Fresh (consume_envelope svc id audience actor key expired w)
  unfolding consume_envelope
  consume_envelope-Fresh audience expired w unique = Yields-result _ _ w λ row found.
      claim_or_replay-Fresh row audience expired _ w unique (required-eq-ok _ found) refl

  -- What a second consumption by `actor'` under `key'` gets.
  abbrev pub answer_again : Text → Text → EnvelopeRow → Result (EnvelopeRow × Bool)
  answer_again actor' key' row =
      if text_eq actor actor' && text_eq key key'
      then ok (row, true)
      else fail envelope_replay_detected 409

  consumed_again :
      (audience actor' key' : Text) (expired : Bool) (row : EnvelopeRow) (w : World)
      → IsConsumed row w.db
      → consume_envelope svc id audience actor' key' expired w ≡ (answer_again actor' key' row, w)
  unfolding consume_envelope claim_or_replay replay_claim resume required
  consumed_again audience actor' key' expired row w c =
      elim (Bool-cases (text_eq actor actor' && text_eq key key')) [
        | inl t ↦ rw (c.found, c.taken, c.by, c.under, t) refl
        | inr f ↦ rw (c.found, c.taken, c.by, c.under, f) refl
      ]

  -- Once the transaction of `consumeAuthorizationEnvelope` has consumed an envelope, in a table in which
  -- ids are unique, whatever calls are served in between, a later one of any caller writes nothing: it gets
  -- the very row that the first returned if it is by the same consumer under the same key, and is refused
  -- as a replay otherwise. That row names the consumer and the key.
  pub consume_envelope_once :
      (audience : Text) (expired : Bool) (stored : EnvelopeRow) (w w' : World) (calls : List Call)
      (audience' actor' key' : Text) (expired' : Bool)
      → UniqueIds w.db.envelopes
      → consume_envelope svc id audience actor key expired w ≡ (ok (stored, false), w')
      → (stored.consumed_by ≡ some actor)
        × (stored.consumption_idempotency_key ≡ some key)
        × (consume_envelope svc id audience' actor' key' expired' (run svc calls w')
            ≡ (answer_again actor' key' stored, run svc calls w'))
  consume_envelope_once audience expired stored w w' calls audience' actor' key' expired' unique h =
      let first = Yields-returned _ (consume_envelope-Fresh audience expired w unique) h refl in
      let later =
        later-IsConsumed stored w'.db (run svc calls w').db (run-EnvelopesEvolve svc calls w')
          first in
      (
        first.by,
        first.under,
        consumed_again audience' actor' key' expired' stored (run svc calls w') later,
      )
