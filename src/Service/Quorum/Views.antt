-- ===== src/Service/Quorum/Views.antt =====
-- What a caller is shown of an authorized proposal.
use parimit.Common.{
  ◌≤◌, ◌≡◌, refl, ◌∙◌, Bool, true, some, List, [], ◌∷◌, arith, select, length, Memᴰ, Bool-cases,
  inl, inr, all,
}
use parimit.Text.{Text}
use parimit.Types.{
  IntentStatus, policy_denied, awaiting_approval, authorized_no_dispatch, rejected, cancelled,
  expired, other_status, is_approve,
}
use parimit.Database.{
  Database, IntentRow, ApprovalRow, approval_before, insert_approval_row, order_approvals,
  approvals_for, is_of,
}
use parimit.Service.Methods.Read.{Receipt, row_to_intent, receipt_of, approved}
use parimit.Service.Quorum.{Quorum, approvals_of}

count-insert :
    (p : ApprovalRow → Bool) (a : ApprovalRow) (bs : List ApprovalRow)
    → length (select p (insert_approval_row a bs)) ≡ length (select p (a ∷ bs))
unfolding insert_approval_row
count-insert p a [] = refl
count-insert p a (b ∷ bs) = elim (Bool-cases (approval_before b a)) [
  | inl after ↦ rw after (ground (arith, count-insert p a bs))
  | inr before ↦ rw before refl
]

-- Sorting loses and adds none.
count-order :
    (p : ApprovalRow → Bool) (cs : List ApprovalRow)
    → length (select p (order_approvals cs)) ≡ length (select p cs)
unfolding order_approvals
count-order p [] = refl
count-order p (a ∷ cs) = count-insert p a (order_approvals cs) ∙ ground (arith, count-order p cs)

count-both :
    (id : Text) (cs : List ApprovalRow)
    → length (approved (select (is_of id) cs)) ≡ approvals_of id cs
count-both id [] = refl
count-both id (a ∷ cs) = ground (arith, count-both id cs)

approved-approvals_for :
    (id : Text) (db : Database)
    → length (approved (approvals_for id db)) ≡ approvals_of id db.approvals
unfolding approvals_for
approved-approvals_for id db =
    count-order (λ a. is_approve a.decision) (select (is_of id) db.approvals)
    ∙ count-both id db.approvals

receipt_of-eq-some :
    (row : IntentRow) (cs : List ApprovalRow) (s : IntentStatus) {r : Receipt}
    → receipt_of row cs s ≡ some r
    → (s ≡ authorized_no_dispatch) × (r.intent_hash ≡ row.intent_hash) × (r.approvals ≡ approved cs)
receipt_of-eq-some row cs policy_denied h = cc
receipt_of-eq-some row cs awaiting_approval h = cc
receipt_of-eq-some row cs authorized_no_dispatch h = (refl, ground arith, ground arith)
receipt_of-eq-some row cs rejected h = cc
receipt_of-eq-some row cs cancelled h = cc
receipt_of-eq-some row cs expired h = cc
receipt_of-eq-some row cs (other_status t) h = cc

all-approved : (cs : List ApprovalRow) → all (λ a. is_approve a.decision) (approved cs) ≡ true
all-approved [] = refl
all-approved (a ∷ cs) = ground (arith, all-approved cs)

-- In a database that satisfies `Quorum`, a view that has an approval receipt is of an authorized
-- proposal, and the receipt carries the proposal's hash and lists approvals only, as many as are
-- required or more.
pub row_to_intent-receipt :
    (row : IntentRow) (db : Database) {r : Receipt}
    → Quorum db
    → Memᴰ row db.intents
    → (row_to_intent row db).receipt ≡ some r
    → (row.status ≡ authorized_no_dispatch)
      × (r.intent_hash ≡ row.intent_hash)
      × (all (λ a. is_approve a.decision) r.approvals ≡ true)
      × (row.required_approvals ≤ length r.approvals)
unfolding row_to_intent
row_to_intent-receipt row db quorum listed h =
    let (status, hash, shown) = receipt_of-eq-some row (approvals_for row.id db) row.status h in
    (
      status,
      hash,
      rw shown (all-approved (approvals_for row.id db)),
      rw (shown, approved-approvals_for row.id db) (quorum.met row listed status),
    )
