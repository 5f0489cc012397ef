-- ===== src/Service/Effects/Evidence.antt =====
-- What the writes on evidence envelopes have done.
use parimit.Common.{ℕ, ◌≡◌, subst, false, [], ◌∷◌, ◌++◌, any, select, length, arith}
use parimit.Text.{Text}
use parimit.Types.{evidence_envelope_issued, evidence_envelope_consumed}
use parimit.Result.{ok, >>=-eq-ok}
use parimit.Database.{Database, EnvelopeRow}
use parimit.Database.Envelopes.{
  insert_envelope, breaks_constraint, claim_envelope, claim_rows, is_claimable,
}
use parimit.Service.{Service}
use parimit.Service.Effects.{Wrote, append_audit-Wrote}
use parimit.Service.Envelopes.{IssueInput}
use parimit.Service.Envelopes.Store.{
  Sources, new_envelope, issued_json, store_envelope, claim_once, consumed_json, store_consumption,
}

pub insert_envelope-eq-ok :
    (row : EnvelopeRow) (db : Database) {db' : Database}
    → insert_envelope row db ≡ ok db'
    → (any (breaks_constraint row) db.envelopes ≡ false)
      × (db' ≡ record db { envelopes = db.envelopes ++ row ∷ [] })
unfolding insert_envelope
insert_envelope-eq-ok row db h = ground arith

pub claim_once-eq-ok :
    (svc : Service) (id : Text) (at : ℕ) (actor key : Text) (db : Database) {db' : Database}
    → claim_once svc id at actor key db ≡ ok db'
    → (length (select (is_claimable svc.tenant_id id) db.envelopes) ≡ 1)
      × (db' ≡ record db { envelopes = claim_rows svc.tenant_id id at actor key db.envelopes })
unfolding claim_once claim_envelope
claim_once-eq-ok svc id at actor key db h = ground arith

module _ (svc : Service) where
  pub store_envelope-Wrote :
      (input : IssueInput) (s : Sources) (actor : Text) (db : Database) {db' : Database}
      → store_envelope svc input s actor db ≡ ok db'
      → (any (breaks_constraint (new_envelope svc input s)) db.envelopes ≡ false)
        × Wrote svc s.row.id evidence_envelope_issued actor
            (issued_json svc input s)
            s.issued_at
            (record db { envelopes = db.envelopes ++ new_envelope svc input s ∷ [] })
            db'
  unfolding store_envelope
  store_envelope-Wrote input s actor db {db'} h =
      let (mid, e, h') = >>=-eq-ok _ _ h in
      let (fresh, m) = insert_envelope-eq-ok _ db e in
      (
        fresh,
        subst
            (λ d.
              Wrote svc s.row.id evidence_envelope_issued actor (issued_json svc input s)
                s.issued_at d db')
            m (append_audit-Wrote svc _ _ _ _ _ mid h'),
      )

  pub store_consumption-Wrote :
      (row : EnvelopeRow) (audience actor key : Text) (at : ℕ) (db : Database) {db' : Database}
      → store_consumption svc row audience actor key at db ≡ ok db'
      → (length (select (is_claimable svc.tenant_id row.id) db.envelopes) ≡ 1)
        × Wrote svc row.intent_id evidence_envelope_consumed actor
            (consumed_json svc row audience actor key at)
            at
            (record db { envelopes = claim_rows svc.tenant_id row.id at actor key db.envelopes })
            db'
  unfolding store_consumption
  store_consumption-Wrote row audience actor key at db {db'} h =
      let (mid, e, h') = >>=-eq-ok _ _ h in
      let (one, m) = claim_once-eq-ok svc row.id at actor key db e in
      (
        one,
        subst
            (λ d.
              Wrote svc row.intent_id evidence_envelope_consumed actor
                (consumed_json svc row audience actor key at) at d db')
            m (append_audit-Wrote svc _ _ _ _ _ mid h'),
      )
