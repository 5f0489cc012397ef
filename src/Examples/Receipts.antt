-- ===== src/Examples/Receipts.antt =====
-- The receipt of a review, before and after the proposal is authorized.
use parimit.Common.{◌≡◌, refl, ◌∙◌, true, Option, none, some, [], arith}
use parimit.Text.{lit, text_eq_refl}
use parimit.Json.{Json, null}
use parimit.Types.{authorized_no_dispatch, approver, approve}
use parimit.Database.{IntentRow, ApprovalRow, empty, advance}
use parimit.Service.Policy.{decide_policy}
use parimit.Service.Payload.{intent_payload_from_row}
use parimit.Service.Payload.Binding.{SameTerms, is_receipt_valid-binds}
use parimit.Service.Integrity.Approvals.{is_receipt_valid}
use parimit.Service.Integrity.Row.{hash_findings}
use parimit.Service.Methods.Insert.{new_intent}
use parimit.Service.Methods.Decide.{new_approval, receipt_hmac_of}
use parimit.Service.Seal.Hashes.{new_intent-hashed, advance-hashed}
use parimit.Examples.{sample_service, sample_proposal}

abbrev proposed : IntentRow
proposed =
    new_intent sample_service sample_proposal (lit "fingerprint")
      (decide_policy sample_service sample_proposal 1704067200000 empty) (lit "0") 1704067200000

abbrev authorized : IntentRow
authorized = advance authorized_no_dispatch proposed

abbrev review : ApprovalRow
review = new_approval sample_service proposed (lit "alice") approver approve 1704067200000 (lit "1")

abbrev read_back : Option Json → Json
read_back none = null
read_back (some v) = v

abbrev payload : Json
payload = read_back (intent_payload_from_row sample_service proposed)

proposed-payload : intent_payload_from_row sample_service proposed ≡ some payload
unfolding intent_payload_from_row new_intent
proposed-payload = refl

authorized-payload : intent_payload_from_row sample_service authorized ≡ some payload
unfolding intent_payload_from_row new_intent
authorized-payload = refl

proposed-hashed : hash_findings sample_service proposed ≡ []
unfolding decide_policy
proposed-hashed = new_intent-hashed sample_service sample_proposal _ _ _ _ refl

review-valid : is_receipt_valid sample_service proposed.id proposed.intent_hash review ≡ true
unfolding is_receipt_valid new_approval receipt_hmac_of
review-valid = ground (arith, text_eq_refl review.receipt_hmac, text_eq_refl proposed.intent_hash)

is_receipt_valid-binds_example : SameTerms proposed authorized
is_receipt_valid-binds_example =
    is_receipt_valid-binds sample_service proposed authorized review proposed-payload
      authorized-payload (λ e. refl) proposed-hashed
      (advance-hashed sample_service authorized_no_dispatch proposed ∙ proposed-hashed) review-valid
      review-valid
