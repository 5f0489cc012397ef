-- ===== src/Service/Commit/Evidence.antt =====
-- What the methods on evidence envelopes write, and their transactions where they returned.
use parimit.Common.{
  ℕ, ◌+◌, ◌*◌, ◌≤◌, ◌≡◌, refl, Bool, true, false, not, ◌&&◌, Option, none, some, arith, ltb, leb→lt,
  ◌==◌, Bool-cases, inl, inr,
}
use parimit.Text.{Text, text_eq}
use parimit.Types.{authorized_no_dispatch}
use parimit.Result.{envelope_replay_detected, fail_if-eq-ok, required-eq-ok}
use parimit.Database.{IntentRow, EnvelopeRow}
use parimit.Database.Envelopes.{find_issued, find_envelope}
use parimit.Exec.{World, pure, throw, resume}
use parimit.Json.{Json, null, bool, num, str, arr, obj}
use parimit.Exec.Yields.{
  Yields, returns, throws, Yields-result, Yields-ok, Yields-store, Yields-if, Yields-then,
}
use parimit.Service.{Service, now, random_uuid, random_bytes}
use parimit.Service.Commit.{Commits, here, next, issuance, consumption, IsVerified}
use parimit.Service.Commit.Writes.{Writes, Writes-reads, Writes-transaction, Writes-bind}
use parimit.Service.Commit.Works.{IsVerified-row, authorized_of}
use parimit.Service.Integrity.Envelopes.{cell}
use parimit.Service.Envelopes.{IssueInput}
use parimit.Service.Envelopes.Issue.{
  exceeds_intent, replay_issue, gather, issue_new, issue_or_replay, issue_envelope,
  issue_authorization_envelope,
}
use parimit.Envelope.Claims.Decision.{Claims}
use parimit.Service.Envelopes.Verify.{
  Verification, Reading, unsigned, signed, complete, judge_reading, verify_authorization_envelope,
}
use parimit.Service.Envelopes.Consume.{
  claim_now, replay_claim, claim_or_replay, consume_envelope, fails_only_time, is_expired,
  consume_verified, consume_authorization_envelope,
}

after_issue : (at issued : ℕ) → ltb at issued ≡ false → issued ≤ at
after_issue at issued h = ground arith

module _ (svc : Service) where
  in_lifetime :
      (input : IssueInput) (row : IntentRow) (at : ℕ)
      → exceeds_intent svc input row at ≡ false
      → at + input.expires_in_seconds * 1000 ≤ row.expires_at
  unfolding exceeds_intent
  in_lifetime input row at h = ground arith

  same_count : (m n : ℕ) → not (m == n) ≡ false → m ≡ n
  same_count m n h = ground arith

  -- What the claims are made of is about the row and the time, and nothing is written yet.
  gather-Yields :
      (id : Text) (row : IntentRow) (fully_at at : ℕ) (w : World)
      → Yields
          (λ s v. (s.row ≡ row) × (s.issued_at ≡ at) × (v.db ≡ w.db))
          (gather svc id row fully_at at w)
  unfolding gather random_uuid random_bytes
  gather-Yields id row fully_at at w = Yields-ok _ _ _ (
      Yields-ok _ _ _ (
        Yields-result _ _ _ λ _ _.
          Yields-result _ _ _
            λ _ _. Yields-ok _ _ _ (Yields-ok _ _ _ (returns (refl, refl, refl)))))

  issue_new-Yields :
      (id : Text) (input : IssueInput) (row : IntentRow) (actor : Text) (w : World)
      → IsVerified svc w.db id row
      → row.status ≡ authorized_no_dispatch
      → find_issued svc.tenant_id id row.state_version input.audience w.db ≡ none
      → Yields (λ _ w'. Commits svc w.db w'.db) (issue_new svc id input row actor w)
  unfolding issue_new now
  issue_new-Yields id input row actor w proposal authorized unused = Yields-ok _ _ _ (
      Yields-result _ _ _ λ _ lives. Yields-ok _ _ _ (
        Yields-result _ _ _ λ _ counted. Yields-result _ _ _ λ fully_at _.
          Yields-result _ _ _ λ _ _.
            Yields-then _ (gather-Yields id row fully_at (svc.clock w.clock_reads) _)
              λ s v (whose, time, same). Yields-result _ _ _ λ _ _. Yields-store _ _ _ λ db h.
                Yields-result _ _ _ λ _ _. returns (
                  next here (
                    issuance id input s actor (rw whose proposal) (rw whose authorized)
                      (rw whose unused) (rw whose (same_count _ _ (fail_if-eq-ok _ _ _ counted)))
                      (rw (whose, time) (in_lifetime input row _ (fail_if-eq-ok _ _ _ lives)))
                      (rw same at h)))))

  issue_or_replay-Yields :
      (id : Text) (input : IssueInput) (row : IntentRow) (actor : Text) (w : World)
      (o : Option EnvelopeRow)
      → IsVerified svc w.db id row
      → row.status ≡ authorized_no_dispatch
      → find_issued svc.tenant_id id row.state_version input.audience w.db ≡ o
      → Yields (λ _ w'. Commits svc w.db w'.db) (issue_or_replay svc id input row actor o w)
  unfolding issue_or_replay replay_issue
  issue_or_replay-Yields id input row actor w (some existing) proposal authorized e =
      Yields-result _ _ _ λ _ _. Yields-result _ _ _ λ _ _. Yields-result _ _ _ λ _ _. returns here
  issue_or_replay-Yields id input row actor w none proposal authorized e =
      issue_new-Yields id input row actor w proposal authorized e

  pub issue_envelope-Yields :
      (id : Text) (input : IssueInput) (actor : Text) (w : World)
      → Yields (λ _ w'. Commits svc w.db w'.db) (issue_envelope svc id input actor w)
  unfolding issue_envelope
  issue_envelope-Yields id input actor w = Yields-result _ _ w λ row found.
      Yields-result _ _ w λ _ verified. Yields-result _ _ w λ _ _.
        Yields-result _ _ w λ _ authorized. Yields-ok _ _ w (
          issue_or_replay-Yields id input row actor w _
            (IsVerified-row svc id row w.db found verified)
            (authorized_of row.status (fail_if-eq-ok _ _ _ authorized)) refl)

  claim_now-Yields :
      (id : Text) (row : EnvelopeRow) (audience actor key : Text) (expired : Bool) (w : World)
      → find_envelope svc.tenant_id id w.db ≡ some row
      → row.consumed_at ≡ none
      → Yields (λ _ w'. Commits svc w.db w'.db) (claim_now svc row audience actor key expired w)
  unfolding claim_now now
  claim_now-Yields id row audience actor key expired w found unused = Yields-result _ _ w λ _ _.
      Yields-ok _ _ _ (
        Yields-result _ _ _ λ _ after. Yields-result _ _ _ λ _ early. Yields-store _ _ _ λ db h.
          Yields-result _ _ _ λ _ _. returns (
            next here (
              consumption id row audience actor key _ found unused
                (after_issue _ _ (fail_if-eq-ok _ _ _ after))
                (leb→lt _ _ (fail_if-eq-ok _ _ _ early)) h)))

  claim_or_replay-Yields :
      (id : Text) (row : EnvelopeRow) (audience actor key : Text) (expired : Bool) (o : Option ℕ)
      (w : World)
      → find_envelope svc.tenant_id id w.db ≡ some row
      → row.consumed_at ≡ o
      → Yields
          (λ _ w'. Commits svc w.db w'.db)
          (claim_or_replay svc row audience actor key expired o w)
  unfolding claim_or_replay replay_claim
  claim_or_replay-Yields id row audience actor key expired (some at) w found e =
      Yields-if
        (text_eq (cell row.consumed_by) actor && text_eq (cell row.consumption_idempotency_key) key)
        (pure (row, true)) (throw envelope_replay_detected 409) w (λ _. returns here) (λ _. throws)
  claim_or_replay-Yields id row audience actor key expired none w found e =
      claim_now-Yields id row audience actor key expired w found e

  pub consume_envelope-Yields :
      (id audience actor key : Text) (expired : Bool) (w : World)
      → Yields
          (λ _ w'. Commits svc w.db w'.db)
          (consume_envelope svc id audience actor key expired w)
  unfolding consume_envelope
  consume_envelope-Yields id audience actor key expired w = Yields-result _ _ w λ row found.
      claim_or_replay-Yields id row audience actor key expired _ w (required-eq-ok _ found) refl

  pub issue_authorization_envelope-Writes :
      (id : Text) (value : Json) (actor : Option Json) (role : Text)
      → Writes svc (issue_authorization_envelope svc id value actor role)
  unfolding issue_authorization_envelope
  issue_authorization_envelope-Writes id value actor role =
      Writes-bind svc _ _ (Writes-reads svc _ λ _. refl) λ input.
        Writes-bind svc _ _ (Writes-reads svc _ λ _. refl) λ actor_id.
          Writes-bind svc _ _ (Writes-reads svc _ λ _. refl) λ _.
            Writes-bind svc _ _ (Writes-transaction svc _ (issue_envelope-Yields id input actor_id))
              λ result. Writes-reads svc _ λ _. refl

  judge_reading-Writes :
      (jws : Text) (audience : Option Json) (reading : Reading)
      → Writes svc (judge_reading svc jws audience reading)
  unfolding judge_reading now
  judge_reading-Writes jws audience unsigned = Writes-reads svc _ λ _. refl
  judge_reading-Writes jws audience signed = Writes-reads svc _ λ _. refl
  judge_reading-Writes jws audience (complete c) =
      Writes-bind svc _ _ (Writes-reads svc _ λ _. refl) λ at. Writes-reads svc _ λ _. refl

  pub verify_authorization_envelope-Writes :
      (jws audience : Option Json) → Writes svc (verify_authorization_envelope svc jws audience)
  unfolding verify_authorization_envelope
  verify_authorization_envelope-Writes (some (str jws)) audience =
      Writes-bind svc _ _ (Writes-reads svc _ λ _. refl)
        λ reading. judge_reading-Writes jws audience reading
  verify_authorization_envelope-Writes none audience = Writes-reads svc _ λ _. refl
  verify_authorization_envelope-Writes (some null) audience = Writes-reads svc _ λ _. refl
  verify_authorization_envelope-Writes (some (bool b)) audience = Writes-reads svc _ λ _. refl
  verify_authorization_envelope-Writes (some (num n)) audience = Writes-reads svc _ λ _. refl
  verify_authorization_envelope-Writes (some (arr vs)) audience = Writes-reads svc _ λ _. refl
  verify_authorization_envelope-Writes (some (obj fs)) audience = Writes-reads svc _ λ _. refl

  is_expired-Writes : (v : Verification) (c : Claims) → Writes svc (is_expired svc v c)
  unfolding is_expired now resume
  is_expired-Writes v c = elim (Bool-cases (fails_only_time v)) [
    | inl t ↦ rw t (Writes-reads svc _ λ _. refl)
    | inr f ↦ rw f (Writes-reads svc _ λ _. refl)
  ]

  consume_verified-Writes :
      (audience actor key : Text) (v : Verification) (o : Option Claims)
      → Writes svc (consume_verified svc audience actor key v o)
  unfolding consume_verified
  consume_verified-Writes audience actor key v none = Writes-reads svc _ λ _. refl
  consume_verified-Writes audience actor key v (some c) =
      Writes-bind svc _ _ (is_expired-Writes v c) λ expired.
        Writes-bind svc _ _ (Writes-reads svc _ λ _. refl) λ _.
          Writes-bind svc _ _
            (Writes-transaction svc _
              (consume_envelope-Yields c.head.jti audience actor key expired))
            λ result. Writes-reads svc _ λ _. refl

  pub consume_authorization_envelope-Writes :
      (jws audience actor : Option Json) (role : Text) (key : Option Json)
      → Writes svc (consume_authorization_envelope svc jws audience actor role key)
  unfolding consume_authorization_envelope
  consume_authorization_envelope-Writes jws audience actor role key =
      Writes-bind svc _ _ (Writes-reads svc _ λ _. refl) λ actor_id.
        Writes-bind svc _ _ (Writes-reads svc _ λ _. refl) λ _.
          Writes-bind svc _ _ (Writes-reads svc _ λ _. refl) λ expected.
            Writes-bind svc _ _ (Writes-reads svc _ λ _. refl) λ key_text.
              Writes-bind svc _ _ (verify_authorization_envelope-Writes jws (some (str expected)))
                λ v. consume_verified-Writes expected actor_id key_text v v.claims
