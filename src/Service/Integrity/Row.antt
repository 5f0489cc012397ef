-- ===== src/Service/Integrity/Row.antt =====
-- The immutable payload's hash, and what the proposal's row must satisfy by itself. The CHECK
-- constraints on `intent_version` and `initial_status` make two of the source's tests vacuous.
use parimit.Common.{
  Bool, false, not, ◌||◌, Option, none, some, List, [], ◌∷◌, ◌++◌, ◌==◌, if◌then◌else◌, select,
}
use parimit.Text.{Text, lit, text_eq, is_empty}
use parimit.Json.{Json}
use parimit.Types.{is_denied, is_intent_status}
use parimit.Database.{IntentRow}
use parimit.Service.{Service, digest}
use parimit.Service.Policy.{approval_reason, is_nil}
use parimit.Service.Payload.{intent_payload_from_row}
use parimit.Service.Integrity.Failures.{Finding, cleared, failed, unless, check, intent_hash}
use parimit.Service.Integrity.Payloads.{string_array, are_distinct}

abbrev pub hash_of : Service → Text → Option Json → List Finding
hash_of svc stored none =
    cleared intent_hash
    ∷ failed (lit "INTENT_PAYLOAD_INVALID")
    ∷ failed (lit "INTENT_HASH_MISMATCH")
    ∷ []
hash_of svc stored (some v) =
    let equal = text_eq (digest svc v) stored in
    unless equal (cleared intent_hash ∷ [])
    ++ unless equal (failed (lit "INTENT_HASH_MISMATCH") ∷ [])

unfoldable pub hash_findings : Service → IntentRow → List Finding
hash_findings svc row = hash_of svc row.intent_hash (intent_payload_from_row svc row)

-- `APPROVAL_POLICY_REASONS.has(reason)`
unfoldable pub is_approval_reason : Text → Bool
is_approval_reason t =
    text_eq (lit "HUMAN_APPROVAL_REQUIRED") t || text_eq (lit "DISTINCT_DUAL_APPROVAL_REQUIRED") t

-- `approvalReasons.length === 1 && approvalReasons[0] === expected`
abbrev is_single : Text → List Text → Bool
is_single t (u ∷ []) = text_eq u t
is_single t _ = false

abbrev is_allowed : IntentRow → Bool
is_allowed row = row.policy_allowed == 1

unfoldable pub reason_findings : IntentRow → Option (List Text) → List Finding
unfolding are_distinct
reason_findings row none = check false (lit "POLICY_REASONS_INVALID")
reason_findings row (some reasons) =
    check (are_distinct reasons) (lit "POLICY_REASONS_DUPLICATED")
    ++ (check
          (is_single (approval_reason row.required_approvals) (select is_approval_reason reasons))
          (lit "POLICY_APPROVAL_REASON_MISMATCH")
        ++ check
            (if is_allowed row
              then is_nil (select (λ t. not (is_approval_reason t)) reasons)
              else not (is_nil (select (λ t. not (is_approval_reason t)) reasons)))
            (lit "POLICY_ALLOWED_REASONS_MISMATCH"))

unfoldable pub row_findings : Service → IntentRow → List Finding
unfolding reason_findings
row_findings svc row =
    check (text_eq row.tenant_id svc.tenant_id) (lit "TENANT_CONTEXT_MISMATCH")
    ++ (check (is_intent_status row.status) (lit "INTENT_STATUS_INVALID")
        ++ (check (row.policy_allowed == 0 || row.policy_allowed == 1)
              (lit "POLICY_ALLOWED_INVALID")
            ++ (check
                  (if is_allowed row
                    then not (is_denied row.initial_status)
                    else is_denied row.initial_status)
                  (lit "INITIAL_STATUS_POLICY_MISMATCH")
                ++ (check (row.required_approvals == 1 || row.required_approvals == 2)
                      (lit "REQUIRED_APPROVALS_INVALID")
                    ++ (check (not (is_empty row.rules_version)) (lit "RULES_VERSION_INVALID")
                        ++ reason_findings row (string_array row.policy_reasons))))))
