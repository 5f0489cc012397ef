-- ===== src/Examples/Evidence.antt =====
-- An evidence envelope of an authorized proposal, and its consumption.
use parimit.Common.{
  sym, ◌∙◌, ◌≤◌, ◌≡◌, refl, ap, Bool, true, false, none, some, List, [], ◌∷◌, Memᴰ, arith,
}
use parimit.Text.{lit, text_eq}
use parimit.Result.{Result, ok, err, required, fail_if}
use parimit.Database.{EnvelopeRow, find_intent, events_for}
use parimit.Database.Envelopes.{find_envelope, envelope_row, claim_envelope, claim_rows}
use parimit.Exec.{World, resume, store}
use parimit.Service.{Service, now}
use parimit.Service.Audit.{append_audit}
use parimit.Service.Methods.Calls.{Call, verifies, audits, serve, run}
use parimit.Service.Envelopes.Verify.{verify_authorization_envelope}
use parimit.Service.Envelopes.Store.{claim_once, store_consumption}
use parimit.Service.Envelopes.Consume.{claim_now, claim_or_replay, consume_envelope}
use parimit.Service.Quorum.{approvals_of}
use parimit.Service.Backing.{Backed, AllBacked, run-Backed}
use parimit.Service.SingleUse.{EnvelopesEvolve}
use parimit.Service.SingleUse.Writes.{run-EnvelopesEvolve}
use parimit.Service.SingleUse.Methods.{UniqueIds, answer_again, consume_envelope_once}
use parimit.Examples.{sample_service}
use parimit.Examples.Views.{reviewed_row, reviewed_db, reviewed_db-Quorum, only}

abbrev evidence_service : Service
evidence_service = record sample_service { tenant_id = 116 ∷ []; clock = λ n. 500 }

abbrev envelope : EnvelopeRow
envelope = record {
  id = 101 ∷ [];
  intent_id = 48 ∷ [];
  tenant_id = 116 ∷ [];
  state_version = 2;
  audience = 97 ∷ [];
  issuance_idempotency_key = 107 ∷ [];
  key_id = 107 ∷ [];
  compact_jws = 106 ∷ [];
  claims_hash = 104 ∷ [];
  nonce_hash = 110 ∷ [];
  issued_at = 100;
  expires_at = 900;
  consumed_at = none;
  consumed_by = none;
  consumption_idempotency_key = none;
}

abbrev issued : World
issued = record {
  db = record reviewed_db { envelopes = envelope ∷ [] };
  clock_reads = 0;
  uuid_reads = 0;
  bytes_reads = 0;
}

abbrev requests : List Call
requests = verifies none none ∷ audits (lit "1") ∷ []

run-EnvelopesEvolve_example :
    EnvelopesEvolve issued.db.envelopes (run evidence_service requests issued).db.envelopes
run-EnvelopesEvolve_example = run-EnvelopesEvolve evidence_service requests issued

issued-AllBacked : AllBacked issued.db
issued-AllBacked e m = rw (only envelope e m) (record {
  row = reviewed_row;
  listed = Memᴰ.head refl;
  named = refl;
  authorized = refl;
  version = refl;
  lifetime = omega arith;
})

envelope-listed : Memᴰ envelope (run evidence_service (verifies none none ∷ []) issued).db.envelopes
unfolding run serve verify_authorization_envelope resume
envelope-listed = Memᴰ.head refl

run-Backed_example :
    (b : Backed (run evidence_service (verifies none none ∷ []) issued).db.intents envelope)
    × (b.row.required_approvals
        ≤ approvals_of b.row.id
            (run evidence_service (verifies none none ∷ []) issued).db.approvals)
run-Backed_example =
    run-Backed evidence_service (verifies none none ∷ []) issued reviewed_db-Quorum issued-AllBacked
      envelope envelope-listed

-- What the first consumption returned and left.
abbrev first_claim : Result (EnvelopeRow × Bool) × World
first_claim =
    consume_envelope evidence_service (101 ∷ []) (97 ∷ []) (98 ∷ []) (120 ∷ []) false issued

abbrev is_fresh : Result (EnvelopeRow × Bool) → Bool
is_fresh (ok (e, false)) = true
is_fresh _ = false

abbrev row_in : Result (EnvelopeRow × Bool) → EnvelopeRow
row_in (ok (e, replay)) = e
row_in (err e) = envelope

of_fresh : (r : Result (EnvelopeRow × Bool)) → is_fresh r ≡ true → r ≡ ok (row_in r, false)
of_fresh (ok (e, false)) h = refl
of_fresh (ok (e, true)) h = cc
of_fresh (err e) h = cc

first_claim-fresh : is_fresh (first_claim.0) ≡ true
unfolding consume_envelope claim_or_replay claim_now store_consumption claim_once claim_envelope
    claim_rows append_audit find_envelope find_intent events_for envelope_row now required resume
    store fail_if text_eq sample_service
first_claim-fresh = refl

issued-UniqueIds : UniqueIds issued.db.envelopes
issued-UniqueIds x y m n same = only envelope x m ∙ sym (only envelope y n)

consume_envelope_once_example :
    ((row_in first_claim.0).consumed_by ≡ some (98 ∷ []))
    × ((row_in first_claim.0).consumption_idempotency_key ≡ some (120 ∷ []))
    × (consume_envelope evidence_service
          (101 ∷ [])
          (97 ∷ [])
          (99 ∷ [])
          (120 ∷ [])
          false
          (run evidence_service requests first_claim.1)
        ≡ (
          answer_again evidence_service
              (101 ∷ [])
              (98 ∷ [])
              (120 ∷ [])
              (99 ∷ [])
              (120 ∷ [])
              (row_in first_claim.0),
          run evidence_service requests first_claim.1,
        ))
consume_envelope_once_example =
    consume_envelope_once evidence_service (101 ∷ []) (98 ∷ []) (120 ∷ []) (97 ∷ []) false
      (row_in first_claim.0) issued first_claim.1 requests (97 ∷ []) (99 ∷ []) (120 ∷ []) false
      issued-UniqueIds (ap (λ r. (r, first_claim.1)) (of_fresh first_claim.0 first_claim-fresh))
