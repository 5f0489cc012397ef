-- ===== src/Examples/Lifecycle.antt =====
-- A proposal from its creation to two approvals and an uncertain outcome, computed.
use parimit.Common.{length, ◌≡◌, refl, List, [], ◌∷◌, some, none, true, false, ◌≤◌, Bool, ap, map}
use parimit.Json.{str}
use parimit.Result.{Result, ok, err}
use parimit.Database.{IntentRow, empty}
use parimit.Exec.{World}
use parimit.Service.Integrity.Failures.{Report}
use parimit.Service.Integrity.Soundness.{AreApprovals, verify_integrity-authorized}
use parimit.Types.{authorized_no_dispatch}
use parimit.Service.Methods.Calls.{Call, creates, approves}
use parimit.Types.{demo}
use parimit.Auth.{AuthenticatedActor, agent}
use parimit.Http.{Response, no_content}
use parimit.Http.Routes.{read}
use parimit.Http.Endpoints.{serve_endpoint, serve_read, authorize_read}
use parimit.Http.Isolation.{ShowsOwn, read-ShowsOwn}
use parimit.Service.Quorum.Writes.{run-Quorum}
use parimit.Examples.Access.{sample_http, read_request}
use parimit.Examples.Runs.{no_reviews}
use parimit.Examples.{sample_service, sample_body, sample_proposal, start}
use parimit.Database.{
  find_intent, find_owned, find_by_key, insert_intent, advance_rows, update_status,
  insert_approval_row, order_approvals, approvals_for, find_approval, count_approvals,
  insert_approval, observations_for, latest_of, latest_observation, insert_observation, events_for,
}
use parimit.Exec.{finish, transaction, resume, store}
use parimit.Json.{get_field}
use parimit.Json.Canonical.{canonical_json, canonicalize}
use parimit.Result.{fail_if, required}
use parimit.Service.{digest, hmac_sha256, now, random_uuid}
use parimit.Service.Audit.{event_json, genesis, new_event, append_audit}
use parimit.Service.Configuration.{
  require_safe_positive_integer, require_configuration_string, add_all, payee_keys,
  normalize_payee_set, configure_policy,
}
use parimit.Service.Integrity.{evidence_of, findings, verify_integrity, assert_stored_integrity}
use parimit.Service.Integrity.Approvals.{
  is_receipt_valid, is_semantic_valid, approval_findings, count_valid,
}
use parimit.Service.Integrity.Chain.{
  genesis_tip, event_digest, is_linked, is_chronological, chain_findings,
}
use parimit.Service.Integrity.Failures.{unless, add_failures, report}
use parimit.Service.Integrity.Initial.{
  is_initial_event, is_initial_policy, is_initial_tenant, initial_findings, initial_throws,
}
use parimit.Service.Integrity.Observations.{
  is_sound_observation, expected_payload, is_recorded, stream_findings, observation_findings,
}
use parimit.Service.Integrity.Payloads.{member, item_texts, string_array, are_distinct}
use parimit.Service.Integrity.Reviews.{is_match, match_findings, review_findings}
use parimit.Service.Integrity.Row.{hash_findings, is_approval_reason, reason_findings, row_findings}
use parimit.Database.Envelopes.{envelopes_for, order_envelopes}
use parimit.Service.Integrity.Envelopes.{envelope_findings, loop_findings}
use parimit.Service.Integrity.State.{
  resulting_status, audited_step, audited_status, result_findings, status_findings, state_findings,
  audit_findings, denial_findings, authority_findings,
}
use parimit.Service.Methods.Calls.{serve, run}
use parimit.Service.Methods.Cancel.{
  cancel_role, may_cancel, cancel_in_time, record_cancellation, cancel_intent,
}
use parimit.Service.Methods.Create.{
  request_fingerprint, create_or_replay, create_proposal, create_intent,
}
use parimit.Service.Methods.Deadline.{due_intents, expire_one, expire_all, expire_at_deadline}
use parimit.Service.Methods.Decide.{
  move_to, receipt_hmac_of, new_approval, store_review, store_cancellation, new_observation,
  store_observation,
}
use parimit.Service.Methods.Expiry.{expire_rows, expire_due_intents, expire_now}
use parimit.Service.Methods.Insert.{intent_hash_of, new_intent, insert_and_record}
use parimit.Service.Methods.Observe.{observation_status, provider_reference}
use parimit.Service.Methods.Read.{
  IntentView, row_to_intent, get_intent, get_audit, assert_intent_owned_by_agent, evaluate_policy,
}
use parimit.Service.Methods.Listing.{
  has_agent, has_status, insert_newest, newest_first, limited, require_limit, views_of, listed,
}
use parimit.Service.Methods.Listing.Query.{list_intents}
use parimit.Service.Methods.Listing.Shown.{Shows}
use parimit.Service.Methods.Listing.Outcome.{list_intents-Shows}
use parimit.Service.Methods.Review.{
  reviewer_role, review_decision, review_in_time, record_decision, approve_intent,
}
use parimit.Service.Methods.Simulate.{record_observation, record_mock_observation}
use parimit.Service.Payload.{current_payload, intent_payload_from_row, approval_receipt_payload}
use parimit.Service.Policy.{
  default_policy, has, policy_configuration_digest, daily_exposure, denial_reasons,
  required_approvals_of, approval_reason, decide_policy,
}
use parimit.Service.Validation.{
  require_object, reject_unknown_keys, is_string, require_string, is_identifier, require_identifier,
  is_payee_reference, require_opaque_payee_reference, positive_amount, require_amount, in_range,
  require_expiry, optional_identifier, body_keys, require_agent, require_inr,
  normalize_payment_proposal, original_request_shape,
}
use parimit.Text.{lit, text_eq, text_lt, is_space, trim, is_control, lower}
use parimit.Text.Decimal.{decimal, number, is_positive_decimal}
use parimit.Time.{start_of_day, to_iso_string}
use parimit.Types.{
  status_text, version_text, observation_text, decision_text, reviewer_text, event_text,
}

abbrev calls : List Call
calls =
    creates sample_body
    ∷ approves (lit "0") (some (str (lit "alice"))) (lit "approver") (some (str (lit "APPROVE")))
    ∷ approves (lit "0") (some (str (lit "bob"))) (lit "admin") (some (str (lit "APPROVE")))
    ∷ []

abbrev done : World
done = run sample_service calls start

abbrev first : List IntentRow → IntentRow
first [] =
    new_intent sample_service sample_proposal (lit "")
      (decide_policy sample_service sample_proposal 0 empty) (lit "") 0
first (r ∷ rs) = r

abbrev stored : IntentRow
stored = first done.db.intents

abbrev clean : Report
clean = record {
  valid = true;
  intent_hash_valid = true;
  approval_receipts_valid = true;
  audit_chain_valid = true;
  state_consistency_valid = true;
  failures = [];
}

abbrev views_in : Result (List IntentView) → List IntentView
views_in (ok views) = views
views_in (err e) = []

abbrev is_single : Result (List IntentView) → Bool
is_single (ok (v ∷ [])) = true
is_single _ = false

of_single : (r : Result (List IntentView)) → is_single r ≡ true → r ≡ ok (views_in r)
of_single (ok []) h = cc
of_single (ok (v ∷ vs)) h = refl
of_single (err e) h = cc

abbrev answer : Result (List IntentView) × World
answer = list_intents sample_service none none none done

abbrev actor : AuthenticatedActor
actor = record {
  actor_id = lit "agent-1";
  actor_role = agent;
  subject = lit "agent-1";
  authentication_method = demo;
  issuer = none;
}

abbrev shown : Result Response × World
shown = serve_endpoint sample_service sample_http read_request actor (read (lit "0")) done

abbrev is_response : Result Response → Bool
is_response (ok r) = true
is_response (err e) = false

abbrev response_in : Result Response → Response
response_in (ok r) = r
response_in (err e) = record { status = 500; payload = no_content; warned = false }

of_response : (r : Result Response) → is_response r ≡ true → r ≡ ok (response_in r)
of_response (ok r) h = refl
of_response (err e) h = cc

-- The run stores one proposal, which is authorized and whose report is clean, the listing shows it
-- alone, and its agent may read it.
run-authorized :
    (find_intent sample_service.tenant_id (lit "0") done.db ≡ some stored)
    × (verify_integrity sample_service (lit "0") done.db ≡ ok clean)
    × (stored.status ≡ authorized_no_dispatch)
    × (map (λ r. r.status) done.db.intents ≡ authorized_no_dispatch ∷ [])
    × (is_single answer.0 ≡ true)
    × (is_response shown.0 ≡ true)
unfolding serve_endpoint serve_read authorize_read has_agent has_status insert_newest newest_first
    limited require_limit views_of listed list_intents sample_service sample_body find_intent
    find_owned find_by_key insert_intent advance_rows update_status insert_approval_row
    order_approvals approvals_for find_approval count_approvals insert_approval observations_for
    latest_of latest_observation insert_observation events_for finish transaction resume store
    get_field canonical_json canonicalize fail_if required digest hmac_sha256 now random_uuid
    event_json genesis new_event append_audit require_safe_positive_integer
    require_configuration_string add_all payee_keys normalize_payee_set configure_policy evidence_of
    findings verify_integrity assert_stored_integrity is_receipt_valid is_semantic_valid
    approval_findings count_valid genesis_tip event_digest is_linked is_chronological chain_findings
    unless add_failures report is_initial_event is_initial_policy is_initial_tenant initial_findings
    initial_throws is_sound_observation expected_payload is_recorded stream_findings
    observation_findings member item_texts string_array are_distinct is_match match_findings
    review_findings hash_findings is_approval_reason reason_findings row_findings envelope_findings
    loop_findings envelopes_for order_envelopes resulting_status audited_step audited_status
    result_findings status_findings state_findings audit_findings denial_findings authority_findings
    serve run cancel_role may_cancel cancel_in_time record_cancellation cancel_intent
    request_fingerprint create_or_replay create_proposal create_intent due_intents expire_one
    expire_all expire_at_deadline move_to receipt_hmac_of new_approval store_review
    store_cancellation new_observation store_observation expire_rows expire_due_intents expire_now
    intent_hash_of new_intent insert_and_record observation_status provider_reference row_to_intent
    get_intent get_audit assert_intent_owned_by_agent evaluate_policy reviewer_role review_decision
    review_in_time record_decision approve_intent record_observation record_mock_observation
    current_payload intent_payload_from_row approval_receipt_payload default_policy has
    policy_configuration_digest daily_exposure denial_reasons required_approvals_of approval_reason
    decide_policy require_object reject_unknown_keys is_string require_string is_identifier
    require_identifier is_payee_reference require_opaque_payee_reference positive_amount
    require_amount in_range require_expiry optional_identifier body_keys require_agent require_inr
    normalize_payment_proposal original_request_shape lit text_eq text_lt is_space trim is_control
    lower decimal number is_positive_decimal start_of_day to_iso_string status_text version_text
    observation_text decision_text reviewer_text event_text
run-authorized = (refl, refl, refl, refl, refl, refl)

verify_integrity-authorized_example :
    (hash_findings sample_service stored ≡ [])
    × (chain_findings sample_service
          (lit "0")
          stored
          genesis_tip
          none
          (events_for (lit "0") done.db)
        ≡ [])
    × AreApprovals sample_service (lit "0") stored [] (approvals_for (lit "0") done.db)
    × (stored.required_approvals ≤ length (approvals_for (lit "0") done.db))
    × (count_valid sample_service (lit "0") stored true [] (approvals_for (lit "0") done.db)
        ≡ length (approvals_for (lit "0") done.db))
    × (count_valid sample_service (lit "0") stored false [] (approvals_for (lit "0") done.db) ≡ 0)
verify_integrity-authorized_example =
    verify_integrity-authorized sample_service (lit "0") done.db stored (run-authorized.0)
      (run-authorized.1) refl (run-authorized.2)

list_intents-Shows_example : Shows sample_service none none answer.1.db (views_in answer.0)
list_intents-Shows_example =
    list_intents-Shows sample_service none none none done
      (ap (λ r. (r, answer.1)) (of_single answer.0 (run-authorized.4)))

read-ShowsOwn_example : ShowsOwn sample_service sample_http read_request actor (response_in shown.0)
read-ShowsOwn_example =
    read-ShowsOwn sample_service sample_http read_request actor (lit "0") done shown.1
      (response_in shown.0) (run-Quorum sample_service calls start no_reviews) refl
      (ap (λ r. (r, shown.1)) (of_response shown.0 (run-authorized.5)))
