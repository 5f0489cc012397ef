-- ===== src/Service/Integrity/Agreement.antt =====
-- Each group of checks of `verifyIntegrity` clears a flag exactly where it adds a failure.
use parimit.Common.{
  ℕ, ◌≡◌, refl, Bool, true, false, ◌||◌, Option, none, some, List, [], ◌∷◌, ◌++◌, arith, any,
}
use parimit.Text.{Text}
use parimit.Json.{Json}
use parimit.Types.{
  IntentStatus, policy_denied, awaiting_approval, authorized_no_dispatch, rejected, cancelled,
  expired, other_status,
}
use parimit.Database.{IntentRow, ApprovalRow, ObservationRow, EnvelopeRow, AuditRow}
use parimit.Service.{Service}
use parimit.Service.Keys.{Registry}
use parimit.Service.Integrity.{Evidence, findings}
use parimit.Service.Integrity.Row.{hash_of, hash_findings, reason_findings, row_findings}
use parimit.Service.Integrity.Approvals.{approval_findings}
use parimit.Service.Integrity.Chain.{chain_findings}
use parimit.Service.Integrity.Initial.{initial_findings}
use parimit.Service.Integrity.Reviews.{match_findings, review_findings}
use parimit.Service.Integrity.Observations.{stream_findings, observation_findings}
use parimit.Service.Integrity.Envelopes.{envelope_finding, loop_findings, envelope_findings}
use parimit.Service.Integrity.State.{
  result_findings, status_findings, audit_findings, denial_findings, authority_findings,
  state_findings,
}
use parimit.Service.Integrity.Failures.{Finding, cleared, failed, Kind, unless}

abbrev pub is_cleared : Finding → Bool
is_cleared (cleared kind) = true
is_cleared (failed t) = false

abbrev pub is_failed : Finding → Bool
is_failed (cleared kind) = false
is_failed (failed t) = true

-- Some flag is cleared exactly where some failure is added.
pub record Agrees (fs : List Finding) : Type 0 where
  pub same : any is_cleared fs ≡ any is_failed fs

any-append : (p : Finding → Bool) (xs ys : List Finding) → any p (xs ++ ys) ≡ any p xs || any p ys
any-append p [] ys = refl
any-append p (x ∷ xs) ys = ground (arith, any-append p xs ys)

Agrees-append : {xs ys : List Finding} → Agrees xs → Agrees ys → Agrees (xs ++ ys)
Agrees-append {xs} {ys} e f = record {
  same = rw (any-append is_cleared xs ys, any-append is_failed xs ys, e.same, f.same) refl;
}

Agrees-none : Agrees []
Agrees-none = record { same = refl }

Agrees-unless : (b : Bool) (k : Kind) (t : Text) → Agrees (unless b (cleared k ∷ failed t ∷ []))
unfolding unless
Agrees-unless true k t = Agrees-none
Agrees-unless false k t = record { same = refl }

Agrees-apart :
    (b : Bool) (k : Kind) (t : Text)
    → Agrees (unless b (cleared k ∷ []) ++ unless b (failed t ∷ []))
unfolding unless
Agrees-apart true k t = Agrees-none
Agrees-apart false k t = record { same = refl }

reason_findings-Agrees :
    (row : IntentRow) (reasons : Option (List Text)) → Agrees (reason_findings row reasons)
unfolding reason_findings
reason_findings-Agrees row none = Agrees-unless _ _ _
reason_findings-Agrees row (some reasons) =
    Agrees-append (Agrees-unless _ _ _) (Agrees-append (Agrees-unless _ _ _) (Agrees-unless _ _ _))

match_findings-Agrees :
    (reviews : List AuditRow) (approvals : List ApprovalRow)
    → Agrees (match_findings reviews approvals)
unfolding match_findings
match_findings-Agrees reviews [] = Agrees-none
match_findings-Agrees reviews (a ∷ rest) =
    Agrees-append (Agrees-unless _ _ _) (match_findings-Agrees reviews rest)

review_findings-Agrees :
    (approvals : List ApprovalRow) (events : List AuditRow)
    → Agrees (review_findings approvals events)
unfolding review_findings
review_findings-Agrees approvals events =
    Agrees-append (Agrees-unless _ _ _) (match_findings-Agrees _ approvals)

stream_findings-Agrees :
    (row : IntentRow) (index : ℕ) (frozen : Bool) (os : List ObservationRow) (es : List AuditRow)
    → Agrees (stream_findings row index frozen os es)
unfolding stream_findings
stream_findings-Agrees row index frozen [] es = Agrees-none
stream_findings-Agrees row index frozen (o ∷ os) es = Agrees-append (Agrees-unless _ _ _) (
    Agrees-append (Agrees-unless _ _ _)
      (Agrees-append (Agrees-unless _ _ _) (stream_findings-Agrees row _ _ os _)))

observation_findings-Agrees :
    (row : IntentRow) (os : List ObservationRow) (events : List AuditRow)
    → Agrees (observation_findings row os events)
unfolding observation_findings
observation_findings-Agrees row os events =
    Agrees-append (Agrees-unless _ _ _) (stream_findings-Agrees row 0 false os _)

result_findings-Agrees : (events : List AuditRow) → Agrees (result_findings events)
unfolding result_findings
result_findings-Agrees [] = Agrees-none
result_findings-Agrees (e ∷ es) = Agrees-append (Agrees-unless _ _ _) (result_findings-Agrees es)

status_findings-Agrees :
    (s : IntentStatus) (allowed : Bool) (approves rejects needed : ℕ)
    → Agrees (status_findings s allowed approves rejects needed)
unfolding status_findings
status_findings-Agrees awaiting_approval allowed approves rejects needed = Agrees-unless _ _ _
status_findings-Agrees authorized_no_dispatch allowed approves rejects needed = Agrees-unless _ _ _
status_findings-Agrees rejected allowed approves rejects needed = Agrees-unless _ _ _
status_findings-Agrees cancelled allowed approves rejects needed = Agrees-unless _ _ _
status_findings-Agrees expired allowed approves rejects needed = Agrees-unless _ _ _
status_findings-Agrees policy_denied allowed approves rejects needed = Agrees-none
status_findings-Agrees (other_status t) allowed approves rejects needed = Agrees-none

module _ (svc : Service) where
  hash_of-Agrees : (stored : Text) (payload : Option Json) → Agrees (hash_of svc stored payload)
  hash_of-Agrees stored none = record { same = refl }
  hash_of-Agrees stored (some v) = Agrees-apart _ _ _

  row_findings-Agrees : (row : IntentRow) → Agrees (row_findings svc row)
  unfolding row_findings
  row_findings-Agrees row = Agrees-append (Agrees-unless _ _ _) (
      Agrees-append (Agrees-unless _ _ _) (
        Agrees-append (Agrees-unless _ _ _) (
          Agrees-append (Agrees-unless _ _ _) (
            Agrees-append (Agrees-unless _ _ _)
              (Agrees-append (Agrees-unless _ _ _) (reason_findings-Agrees row _))))))

  approval_findings-Agrees :
      (id : Text) (row : IntentRow) (seen : List Text) (approvals : List ApprovalRow)
      → Agrees (approval_findings svc id row seen approvals)
  unfolding approval_findings
  approval_findings-Agrees id row seen [] = Agrees-none
  approval_findings-Agrees id row seen (a ∷ rest) = Agrees-append (Agrees-unless _ _ _) (
      Agrees-append (Agrees-unless _ _ _)
        (approval_findings-Agrees id row (a.actor_id ∷ seen) rest))

  chain_findings-Agrees :
      (id : Text) (row : IntentRow) (previous : Text) (at : Option ℕ) (events : List AuditRow)
      → Agrees (chain_findings svc id row previous at events)
  unfolding chain_findings
  chain_findings-Agrees id row previous at [] = Agrees-none
  chain_findings-Agrees id row previous at (e ∷ es) = Agrees-append (Agrees-unless _ _ _) (
      Agrees-append (Agrees-unless _ _ _) (
        Agrees-append (Agrees-unless _ _ _)
          (chain_findings-Agrees id row e.event_hash (some e.occurred_at) es)))

  initial_findings-Agrees :
      (row : IntentRow) (events : List AuditRow) → Agrees (initial_findings svc row events)
  unfolding initial_findings
  initial_findings-Agrees row [] = Agrees-append (Agrees-unless false _ _) (Agrees-unless _ _ _)
  initial_findings-Agrees row (e ∷ es) = Agrees-append (Agrees-unless _ _ _) (Agrees-unless _ _ _)

  loop_findings-Agrees :
      (id : Text) (registry : Registry) (events : List AuditRow) (rows : List EnvelopeRow)
      → Agrees (loop_findings svc id registry events rows)
  unfolding loop_findings envelope_finding
  loop_findings-Agrees id registry events [] = Agrees-none
  loop_findings-Agrees id registry events (row ∷ rows) =
      Agrees-append (Agrees-unless _ _ _) (loop_findings-Agrees id registry events rows)

  envelope_findings-Agrees :
      (id : Text) (registry : Registry) (events : List AuditRow) (rows : List EnvelopeRow)
      → Agrees (envelope_findings svc id registry events rows)
  unfolding envelope_findings
  envelope_findings-Agrees id registry events rows =
      Agrees-append (Agrees-unless _ _ _)
        (Agrees-append (loop_findings-Agrees id registry events rows) (Agrees-unless _ _ _))

  state_findings-Agrees :
      (id : Text) (row : IntentRow) (approvals : List ApprovalRow) (os : List ObservationRow)
      (events : List AuditRow)
      → Agrees (state_findings svc id row approvals os events)
  unfolding state_findings audit_findings denial_findings authority_findings
  state_findings-Agrees id row approvals os events =
      Agrees-append
        (Agrees-append (result_findings-Agrees events) (
          Agrees-append (Agrees-unless _ _ _)
            (Agrees-append (Agrees-unless _ _ _) (Agrees-unless _ _ _))))
        (Agrees-append
          (Agrees-append (Agrees-unless _ _ _)
            (Agrees-append (Agrees-unless _ _ _) (Agrees-unless _ _ _)))
          (Agrees-append (status_findings-Agrees row.status _ _ _ _)
            (Agrees-append (Agrees-unless _ _ _) (Agrees-unless _ _ _))))

  pub findings-Agrees : (id : Text) (e : Evidence) → Agrees (findings svc id e)
  unfolding findings hash_findings
  findings-Agrees id e = Agrees-append (hash_of-Agrees _ _) (
      Agrees-append (row_findings-Agrees e.row) (
        Agrees-append (approval_findings-Agrees id e.row [] e.approvals) (
          Agrees-append (chain_findings-Agrees id e.row _ none e.events) (
            Agrees-append (initial_findings-Agrees e.row e.events) (
              Agrees-append (review_findings-Agrees e.approvals e.events) (
                Agrees-append (observation_findings-Agrees e.row e.observations e.events) (
                  Agrees-append (envelope_findings-Agrees id e.registry e.events e.envelopes)
                    (state_findings-Agrees id e.row e.approvals e.observations e.events))))))))
