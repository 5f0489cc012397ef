-- ===== src/Examples/Views.antt =====
-- The view of an authorized proposal.
use parimit.Common.{
  ◌≤◌, ◌≡◌, refl, sym, ap, ◌∙◌, true, none, some, [], ◌∷◌, all, length, arith, Memᴰ,
}
use parimit.Text.{text_eq}
use parimit.Types.{authorized_no_dispatch, awaiting, v3, approver, approve, is_approve}
use parimit.Database.{
  Database, IntentRow, ApprovalRow, empty, approvals_for, order_approvals, insert_approval_row,
}
use parimit.Service.Methods.Read.{Receipt, row_to_intent}
use parimit.Service.Quorum.{Quorum}
use parimit.Service.Quorum.Views.{row_to_intent-receipt}

abbrev pub reviewed_row : IntentRow
reviewed_row = record {
  id = 48 ∷ [];
  tenant_id = 116 ∷ [];
  idempotency_key = 107 ∷ [];
  request_fingerprint = 102 ∷ [];
  agent_id = 98 ∷ 49 ∷ [];
  on_behalf_of = none;
  amount_minor = 100;
  payee_reference = 112 ∷ [];
  purpose = 112 ∷ [];
  status = authorized_no_dispatch;
  required_approvals = 1;
  policy_allowed = 1;
  policy_reasons = none;
  rules_version = 118 ∷ [];
  intent_version = v3;
  initial_status = awaiting;
  state_version = 2;
  intent_hash = 104 ∷ [];
  created_at = 0;
  expires_at = 1000;
}

abbrev pub review_of_it : ApprovalRow
review_of_it = record {
  id = 49 ∷ [];
  intent_id = 48 ∷ [];
  actor_id = 97 ∷ [];
  actor_role = approver;
  decision = approve;
  intent_hash = 104 ∷ [];
  created_at = 10;
  receipt_hmac = 109 ∷ [];
}

abbrev pub reviewed_db : Database
reviewed_db = record empty { intents = reviewed_row ∷ []; approvals = review_of_it ∷ [] }

pub only : {A : Type 0} (r x : A) → Memᴰ x (r ∷ []) → x ≡ r
only r x (Memᴰ.head e) = e
only r x (Memᴰ.tail m) = elim m [ ]

pub reviewed_db-Quorum : Quorum reviewed_db
unfolding text_eq
reviewed_db-Quorum = record {
  unique = λ x y m n e. only reviewed_row x m ∙ sym (only reviewed_row y n);
  owned =
      λ a m. (reviewed_row, Memᴰ.head refl, sym (ap (λ z. z.intent_id) (only review_of_it a m)));
  no_self = λ a x m n e same. omega (
    arith,
    ap length (
        sym (ap (λ z. z.actor_id) (only review_of_it a m))
        ∙ same
        ∙ ap (λ z. z.agent_id) (only reviewed_row x n)),
  );
  once = (refl, tt);
  met = λ x m h. rw (only reviewed_row x m) (omega arith);
}

abbrev shown : Receipt
shown = record { intent_hash = 104 ∷ []; fully_approved_at = 10; approvals = review_of_it ∷ [] }

reviewed_row-shown : (row_to_intent reviewed_row reviewed_db).receipt ≡ some shown
unfolding row_to_intent approvals_for order_approvals insert_approval_row text_eq
reviewed_row-shown = refl

row_to_intent-receipt_example :
    (reviewed_row.status ≡ authorized_no_dispatch)
    × (shown.intent_hash ≡ reviewed_row.intent_hash)
    × (all (λ a. is_approve a.decision) shown.approvals ≡ true)
    × (reviewed_row.required_approvals ≤ length shown.approvals)
row_to_intent-receipt_example =
    row_to_intent-receipt reviewed_row reviewed_db reviewed_db-Quorum (Memᴰ.head refl)
      reviewed_row-shown
