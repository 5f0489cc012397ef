-- ===== src/Service/Integrity/Approvals.antt =====
-- Each approval's receipt and meaning, and how many approvals and rejections count.
use parimit.Common.{ℕ, ◌+◌, Bool, not, ◌&&◌, List, [], ◌∷◌, ◌++◌, ltb, leb, if◌then◌else◌, any}
use parimit.Text.{Text, lit, text_eq, is_empty}
use parimit.Types.{is_approve}
use parimit.Database.{IntentRow, ApprovalRow}
use parimit.Service.{Service, hmac_sha256}
use parimit.Service.Payload.{approval_receipt_payload}
use parimit.Service.Integrity.Failures.{Finding, cleared, failed, unless, check, approval_receipts}

module _ (svc : Service) (id : Text) where
  -- `receiptValid`
  unfoldable pub is_receipt_valid : Text → ApprovalRow → Bool
  is_receipt_valid stored_hash a =
      text_eq
        (hmac_sha256 svc (
          approval_receipt_payload id a.intent_hash a.actor_id a.actor_role a.decision
            a.created_at))
        a.receipt_hmac
      && text_eq a.intent_hash stored_hash

-- `semanticValid`; `seen` holds the actors of the approvals before this one.
unfoldable pub is_semantic_valid : IntentRow → List Text → ApprovalRow → Bool
is_semantic_valid row seen a =
    not (is_empty a.actor_id)
    && (not (text_eq a.actor_id row.agent_id)
        && (leb row.created_at a.created_at
            && (ltb a.created_at row.expires_at && not (any (λ t. text_eq t a.actor_id) seen))))

module _ (svc : Service) (id : Text) (row : IntentRow) where
  unfoldable pub approval_findings : List Text → List ApprovalRow → List Finding
  approval_findings seen [] = []
  approval_findings seen (a ∷ rest) =
      unless (is_receipt_valid svc id row.intent_hash a)
        (cleared approval_receipts ∷ failed (lit "APPROVAL_RECEIPT_INVALID:" ++ a.actor_id) ∷ [])
      ++ (check (is_semantic_valid row seen a) (lit "APPROVAL_SEMANTICS_INVALID:" ++ a.actor_id)
          ++ approval_findings (a.actor_id ∷ seen) rest)

  -- `validApproveCount` where `wanted` is true, `validRejectCount` where it is false.
  unfoldable pub count_valid : Bool → List Text → List ApprovalRow → ℕ
  count_valid wanted seen [] = 0
  count_valid wanted seen (a ∷ rest) =
      (if is_receipt_valid svc id row.intent_hash a
          && (is_semantic_valid row seen a
              && (if wanted then is_approve a.decision else not (is_approve a.decision)))
        then 1
        else 0)
      + count_valid wanted (a.actor_id ∷ seen) rest
