-- ===== src/Service/Integrity/Reviews.antt =====
-- Each approval has exactly one event that records it.
use parimit.Common.{Bool, true, false, ◌&&◌, List, [], ◌∷◌, ◌++◌, ◌==◌, select, length}
use parimit.Text.{lit, text_eq}
use parimit.Types.{
  EventType, human_approval_recorded, human_rejection_recorded, is_review, Decision, approve,
  reject, decision_text, reviewer_text,
}
use parimit.Database.{ApprovalRow, AuditRow}
use parimit.Service.Integrity.Failures.{Finding, check}
use parimit.Service.Integrity.Payloads.{is_object, member, is_str}

-- `decision === "APPROVE" ? "HUMAN_APPROVAL_RECORDED" : "HUMAN_REJECTION_RECORDED"`
abbrev records : Decision → EventType → Bool
records approve human_approval_recorded = true
records reject human_rejection_recorded = true
records _ _ = false

unfoldable pub is_match : ApprovalRow → AuditRow → Bool
is_match a e =
    is_object e.payload
    && (records a.decision e.event_type
        && (text_eq e.actor_id a.actor_id
            && (e.occurred_at == a.created_at
                && (is_str (reviewer_text a.actor_role) (member (lit "actor_role") e.payload)
                    && (is_str (decision_text a.decision) (member (lit "decision") e.payload)
                        && (is_str a.intent_hash (member (lit "intent_hash") e.payload)
                            && is_str a.receipt_hmac (member (lit "receipt_hmac") e.payload)))))))

unfoldable pub match_findings : List AuditRow → List ApprovalRow → List Finding
match_findings reviews [] = []
match_findings reviews (a ∷ rest) =
    check (length (select (is_match a) reviews) == 1) (lit "APPROVAL_AUDIT_MISMATCH:" ++ a.actor_id)
    ++ match_findings reviews rest

abbrev pub review_events : List AuditRow → List AuditRow
review_events = select (λ e. is_review e.event_type)

unfoldable pub review_findings : List ApprovalRow → List AuditRow → List Finding
unfolding match_findings
review_findings approvals events =
    check (length (review_events events) == length approvals) (lit "APPROVAL_AUDIT_COUNT_MISMATCH")
    ++ match_findings (review_events events) approvals
