-- ===== src/Service/Integrity/Soundness.antt =====
-- What a valid integrity report says of an authorized proposal.
use parimit.Common.{
  ℕ, ◌≤◌, ◌<◌, ◌≡◌, refl, sym, subst, ◌∙◌, ap, Bool, true, false, none, some, List, [], ◌∷◌, ◌==◌,
  arith, append-eq-nil, any, length, Memᴰ, leb→le, ltb→lt, neither, of_negated, &&-eq-true, inl,
  inr, Bool-cases,
}
use parimit.Text.{Text, text_eq, text_eq_iff, is_empty}
use parimit.Types.{IntentStatus, authorized_no_dispatch, is_approve}
use parimit.Result.{ok, required, required-eq-ok, fail_if, >>=-eq-ok, ok_injective}
use parimit.Database.{
  Database, IntentRow, ApprovalRow, ObservationRow, AuditRow, find_intent, events_for,
  approvals_for, observations_for,
}
use parimit.Service.{Service, hmac_sha256}
use parimit.Service.Payload.{approval_receipt_payload}
use parimit.Service.Integrity.{verify_integrity, findings, evidence_of}
use parimit.Service.Integrity.Failures.{unless, unless-eq-nil, Report, report}
use parimit.Service.Integrity.Row.{hash_findings, row_findings}
use parimit.Service.Integrity.Approvals.{
  is_receipt_valid, is_semantic_valid, approval_findings, count_valid,
}
use parimit.Service.Integrity.Chain.{chain_findings, genesis_tip}
use parimit.Service.Integrity.Initial.{initial_findings, initial_throws}
use parimit.Database.Envelopes.{envelopes_for}
use parimit.Service.Keys.{registry_of}
use parimit.Service.Integrity.Envelopes.{envelope_findings}
use parimit.Service.Integrity.State.{
  state_findings, audit_findings, denial_findings, status_findings,
}
use parimit.Service.Integrity.Reviews.{review_findings}
use parimit.Service.Integrity.Observations.{observation_findings}
use parimit.Service.Integrity.Reporting.{findings-eq-nil}  -- A stored review as an authorized proposal must have it: its receipt is the keyed hash of what it says,

-- it is of the stored payload, it approves, and it comes from somebody other than the agent, in the
-- lifetime of the proposal.
pub record IsApproval (svc : Service) (id : Text) (row : IntentRow) (a : ApprovalRow) : Type 0 where
  pub receipt :
      hmac_sha256 svc
        (approval_receipt_payload id a.intent_hash a.actor_id a.actor_role a.decision a.created_at)
      ≡ a.receipt_hmac
  pub hash : a.intent_hash ≡ row.intent_hash
  pub approves : is_approve a.decision ≡ true
  pub named : is_empty a.actor_id ≡ false
  pub other : a.actor_id ≡ row.agent_id → ⊥
  pub started : row.created_at ≤ a.created_at
  pub in_time : a.created_at < row.expires_at

-- Each of the reviews is such an approval, and no two are by one person; `seen` holds the actors before.
abbrev pub AreApprovals : Service → Text → IntentRow → List Text → List ApprovalRow → Type 0
AreApprovals svc id row seen [] = Unit {0}
AreApprovals svc id row seen (a ∷ rest) =
    IsApproval svc id row a
    × (Memᴰ a.actor_id seen → ⊥)
    × AreApprovals svc id row (a.actor_id ∷ seen) rest

authorized-counts :
    (s : IntentStatus) (allowed : Bool) (approves rejects needed : ℕ)
    → s ≡ authorized_no_dispatch
    → status_findings s allowed approves rejects needed ≡ []
    → (needed ≤ approves) × (rejects ≡ 0)
unfolding status_findings unless
authorized-counts s allowed approves rejects needed e h = ground arith

not_seen : (seen : List Text) (t : Text) → any (λ u. text_eq u t) seen ≡ false → Memᴰ t seen → ⊥
not_seen [] t h m = elim m [ ]
not_seen (u ∷ seen) t h (Memᴰ.head e) =
    let (differs, _) = neither _ _ h in
    let same : true ≡ false = sym ((text_eq_iff u t).1 (sym e)) ∙ differs in cc
not_seen (u ∷ seen) t h (Memᴰ.tail m) = not_seen seen t ((neither _ _ h).1) m

different : (s t : Text) → text_eq s t ≡ false → s ≡ t → ⊥
different s t h e = let same : true ≡ false = sym ((text_eq_iff s t).1 e) ∙ h in cc

module _ (svc : Service) (id : Text) (row : IntentRow) where
  IsApproval-intro :
      (seen : List Text) (a : ApprovalRow)
      → is_receipt_valid svc id row.intent_hash a ≡ true
      → is_semantic_valid row seen a ≡ true
      → is_approve a.decision ≡ true
      → IsApproval svc id row a × (Memᴰ a.actor_id seen → ⊥)
  unfolding is_receipt_valid is_semantic_valid
  IsApproval-intro seen a authentic meaningful approves =
      let (receipt, hash) = &&-eq-true _ _ authentic in
      let (named, m₁) = &&-eq-true _ _ meaningful in
      let (other, m₂) = &&-eq-true _ _ m₁ in
      let (started, m₃) = &&-eq-true _ _ m₂ in
      let (in_time, first) = &&-eq-true _ _ m₃ in
      (
        record {
          receipt = (text_eq_iff _ _).0 receipt;
          hash = (text_eq_iff _ _).0 hash;
          approves = approves;
          named = of_negated _ named;
          other = different _ _ (of_negated _ other);
          started = leb→le _ _ started;
          in_time = ltb→lt _ _ in_time;
        },
        not_seen seen a.actor_id (of_negated _ first),
      )

  -- Without a finding on the reviews and without a rejection, each review is an approval that counts.
  counted :
      (seen : List Text) (approvals : List ApprovalRow)
      → approval_findings svc id row seen approvals ≡ []
      → count_valid svc id row false seen approvals ≡ 0
      → AreApprovals svc id row seen approvals
        × (count_valid svc id row true seen approvals ≡ length approvals)
  unfolding approval_findings count_valid
  counted seen [] none_found none_rejects = (tt, refl)
  counted seen (a ∷ rest) none_found none_rejects =
      let (r, f₁) = append-eq-nil (unless _ _) _ none_found in
      let (s, f₂) = append-eq-nil (unless _ _) _ f₁ in
      let authentic = unless-eq-nil _ _ _ r in
      let meaningful = unless-eq-nil _ _ _ s in
      elim (Bool-cases (is_approve a.decision)) [
        | inl approves ↦
            let none_left = rw (authentic, meaningful, approves) at none_rejects in
            let (reviews, count) = counted (a.actor_id ∷ seen) rest f₂ (omega (arith, none_left)) in
            let (approval, first) = IsApproval-intro seen a authentic meaningful approves in
            (
              (approval, first, reviews),
              rw (authentic, meaningful, approves) (omega (arith, count)),
            )
        | inr rejects ↦ absurd (omega (arith, rw (authentic, meaningful, rejects) at none_rejects))
      ]

module _ (svc : Service) (id : Text) (db : Database) (row : IntentRow) where
  status-part :
      (approvals : List ApprovalRow) (observations : List ObservationRow) (events : List AuditRow)
      → state_findings svc id row approvals observations events ≡ []
      → status_findings row.status
          (row.policy_allowed == 1)
          (count_valid svc id row true [] approvals)
          (count_valid svc id row false [] approvals)
          row.required_approvals
        ≡ []
  unfolding state_findings
  status-part approvals observations events h =
      let (_, s₁) = append-eq-nil (audit_findings row events) _ h in
      let (_, s₂) = append-eq-nil (denial_findings row approvals) _ s₁ in
      (append-eq-nil (status_findings row.status _ _ _ _) _ s₂).0

  report-parts :
      findings svc id (evidence_of id row db) ≡ []
      → (hash_findings svc row ≡ [])
        × (approval_findings svc id row [] (approvals_for id db) ≡ [])
        × (chain_findings svc id row genesis_tip none (events_for id db) ≡ [])
        × (status_findings row.status
              (row.policy_allowed == 1)
              (count_valid svc id row true [] (approvals_for id db))
              (count_valid svc id row false [] (approvals_for id db))
              row.required_approvals
            ≡ [])
  unfolding findings evidence_of
  report-parts h =
      let approvals = approvals_for id db in
      let observations = observations_for id db in
      let events = events_for id db in
      let (hash, h₁) = append-eq-nil (hash_findings svc row) _ h in
      let (_, h₂) = append-eq-nil (row_findings svc row) _ h₁ in
      let (reviews, h₃) = append-eq-nil (approval_findings svc id row [] approvals) _ h₂ in
      let (chain, h₄) = append-eq-nil (chain_findings svc id row genesis_tip none events) _ h₃ in
      let (_, h₅) = append-eq-nil (initial_findings svc row events) _ h₄ in
      let (_, h₆) = append-eq-nil (review_findings approvals events) _ h₅ in
      let (_, h₇) = append-eq-nil (observation_findings row observations events) _ h₆ in
      let (_, state) =
        append-eq-nil (envelope_findings svc id (registry_of db) events (envelopes_for id db)) _
          h₇ in
      (hash, reviews, chain, status-part approvals observations events state)

  report_of :
      {r : Report}
      → find_intent svc.tenant_id id db ≡ some row
      → verify_integrity svc id db ≡ ok r
      → report (findings svc id (evidence_of id row db)) ≡ r
  unfolding verify_integrity
  report_of {r} found h =
      let (read, e, h₁) = >>=-eq-ok (required (find_intent svc.tenant_id id db)) _ h in
      let (_, _, returned) =
        >>=-eq-ok (fail_if (initial_throws svc read (events_for id db)) _ _) _ h₁ in
      let same : read ≡ row =
        ground (arith, required-eq-ok (find_intent svc.tenant_id id db) e, found) in
      subst (λ x. report (findings svc id (evidence_of id x db)) ≡ r) same (ok_injective returned)

  -- Where `verifyIntegrity` finds a stored proposal valid that is authorized, the proposal's hash and
  -- its chain have no finding; every stored review of it has the keyed hash of what it says as receipt, is
  -- of the stored payload, approves, and comes from a named person other than the agent, in the lifetime
  -- of the proposal; no two reviews are by one person; and there are at least as many as it requires, all
  -- of which count as approvals and none as a rejection.
  pub verify_integrity-authorized :
      {r : Report}
      → find_intent svc.tenant_id id db ≡ some row
      → verify_integrity svc id db ≡ ok r
      → r.valid ≡ true
      → row.status ≡ authorized_no_dispatch
      → (hash_findings svc row ≡ [])
        × (chain_findings svc id row genesis_tip none (events_for id db) ≡ [])
        × AreApprovals svc id row [] (approvals_for id db)
        × (row.required_approvals ≤ length (approvals_for id db))
        × (count_valid svc id row true [] (approvals_for id db) ≡ length (approvals_for id db))
        × (count_valid svc id row false [] (approvals_for id db) ≡ 0)
  verify_integrity-authorized found h valid authorized =
      let same = report_of found h in
      let (hash, reviews, chain, status) =
        report-parts (findings-eq-nil svc id _ (ap (λ r. r.valid) same ∙ valid)) in
      let (enough, none_rejects) = authorized-counts row.status _ _ _ _ authorized status in
      let (approvals, all_count) =
        counted svc id row [] (approvals_for id db) reviews none_rejects in
      (
        hash,
        chain,
        approvals,
        subst (λ n. row.required_approvals ≤ n) all_count enough,
        all_count,
        none_rejects,
      )
