-- ===== src/Examples/Startups.antt =====
-- The constructor on a new database, a call, and the same database opened again.
use parimit.Common.{◌≡◌, refl, true, false, []}
use parimit.Json.{str}
use parimit.Result.{Result, ok}
use parimit.Exec.{World}
use parimit.Envelope.{
  header_json, envelope_type, decode_base64url, split_dots, three_segments, signing_input,
  only_keys, is_coordinate, is_compatible_key, encode_json, parse_segment, sign_envelope, is_header,
  parse_segments, parse_envelope, verify_envelope,
}
use parimit.Envelope.Base64.{digit_unit, unit_digit, to_base64url, from_base64url}
use parimit.Envelope.Reading.{
  object_of, object_at, text_at, number_at, list_at, has_exact_keys, is_sha256_hex, matches,
}
use parimit.Envelope.Claims.{
  notice, local_trust_domain, time_at, digest_at, read_head, after_prefix, read_assurance,
  read_policy, read_snapshot,
}
use parimit.Envelope.Claims.Decision.{
  read_approval, read_approvals, read_decision, insert_claimed, sort_claimed, is_consistent,
  read_replay, read_source, is_capability, strict_claims,
}
use parimit.Time.{canonical_time, start_of_day, to_iso_string}
use parimit.Service.Keys.{
  order_keys, insert_key, attestation_payload, key_items, registry_payload, is_attested,
  is_checkpoint, validated_keys, trusted_jwk, verify_trusted,
}
use parimit.Service.Integrity.Envelopes.{
  index_of, read_envelope, is_issue_of, is_consumption_of, says_row, is_envelope_valid,
  envelope_finding, counts_consumed, envelope_findings, loop_findings,
}
use parimit.Database.Envelopes.{
  insert_by_issue, find_envelope, envelope_row, find_issued, has_references, insert_envelope,
  envelopes_for, order_envelopes,
}
use parimit.Service.Envelopes.{
  insert_decided, sort_decided, approving_rows, normalize_issue_input, record_digest, approval_json,
  approval_items, envelope_approvals, is_view_sound, envelope_view,
}
use parimit.Service.Envelopes.Store.{claims_json, compact_jws, new_envelope, store_envelope}
use parimit.Service.Envelopes.Issue.{
  issuer_role, exceeds_intent, replay_issue, gather, issue_new, issue_or_replay, issue_envelope,
  issue_authorization_envelope,
}
use parimit.Service.Envelopes.Verify.{
  read_signed, is_time_valid, is_artifact, is_issue_event, is_bound, is_binding_valid, judge,
  judge_reading, verify_authorization_envelope,
}
use parimit.Examples.{sample_service, sample_body}
use parimit.Database.{
  find_intent, find_owned, find_by_key, insert_intent, advance_rows, update_status,
  insert_approval_row, order_approvals, approvals_for, find_approval, count_approvals,
  insert_approval, observations_for, latest_of, latest_observation, insert_observation, events_for,
}
use parimit.Exec.{finish, transaction, resume, store}
use parimit.Json.{get_field}
use parimit.Json.Canonical.{canonical_json, canonicalize}
use parimit.Result.{fail_if, required}
use parimit.Service.{digest, hmac_sha256, now, random_uuid, random_bytes}
use parimit.Service.Audit.{event_json, genesis, new_event, append_audit}
use parimit.Service.Configuration.{
  require_safe_positive_integer, require_configuration_string, add_all, payee_keys,
  normalize_payee_set, configure_policy,
}
use parimit.Service.Integrity.{evidence_of, findings, verify_integrity, assert_stored_integrity}
use parimit.Service.Integrity.Approvals.{
  is_receipt_valid, is_semantic_valid, approval_findings, count_valid,
}
use parimit.Service.Integrity.Chain.{
  genesis_tip, event_digest, is_linked, is_chronological, chain_findings,
}
use parimit.Service.Integrity.Failures.{unless, add_failures, report}
use parimit.Service.Integrity.Initial.{
  is_initial_event, is_initial_policy, is_initial_tenant, initial_findings, initial_throws,
}
use parimit.Service.Integrity.Observations.{
  is_sound_observation, expected_payload, is_recorded, stream_findings, observation_findings,
}
use parimit.Service.Integrity.Payloads.{member, item_texts, string_array, are_distinct}
use parimit.Service.Integrity.Reviews.{is_match, match_findings, review_findings}
use parimit.Service.Integrity.Row.{hash_findings, is_approval_reason, reason_findings, row_findings}
use parimit.Service.Integrity.State.{
  resulting_status, audited_step, audited_status, result_findings, status_findings, state_findings,
  audit_findings, denial_findings, authority_findings,
}
use parimit.Service.Methods.Calls.{serve, run}
use parimit.Service.Methods.Cancel.{
  cancel_role, may_cancel, cancel_in_time, record_cancellation, cancel_intent,
}
use parimit.Service.Methods.Create.{
  request_fingerprint, create_or_replay, create_proposal, create_intent,
}
use parimit.Service.Methods.Deadline.{due_intents, expire_one, expire_all, expire_at_deadline}
use parimit.Service.Methods.Decide.{
  move_to, receipt_hmac_of, new_approval, store_review, store_cancellation, new_observation,
  store_observation,
}
use parimit.Service.Methods.Expiry.{expire_rows, expire_due_intents, expire_now}
use parimit.Service.Methods.Insert.{intent_hash_of, new_intent, insert_and_record}
use parimit.Service.Methods.Observe.{observation_status, provider_reference}
use parimit.Service.Methods.Read.{
  row_to_intent, get_intent, get_audit, assert_intent_owned_by_agent, evaluate_policy,
}
use parimit.Service.Methods.Listing.{
  has_agent, has_status, insert_newest, newest_first, limited, require_limit, views_of, listed,
}
use parimit.Service.Methods.Listing.Query.{list_intents}
use parimit.Service.Methods.Review.{
  reviewer_role, review_decision, review_in_time, record_decision, approve_intent,
}
use parimit.Service.Methods.Simulate.{record_observation, record_mock_observation}
use parimit.Service.Payload.{current_payload, intent_payload_from_row, approval_receipt_payload}
use parimit.Service.Policy.{
  default_policy, has, policy_configuration_digest, daily_exposure, denial_reasons,
  required_approvals_of, approval_reason, decide_policy,
}
use parimit.Service.Validation.{
  require_object, reject_unknown_keys, is_string, require_string, is_identifier, require_identifier,
  is_payee_reference, require_opaque_payee_reference, positive_amount, require_amount, in_range,
  require_expiry, optional_identifier, body_keys, require_agent, require_inr,
  normalize_payment_proposal, original_request_shape,
}
use parimit.Text.{lit, text_eq, text_lt, is_space, trim, is_control, lower}
use parimit.Text.Decimal.{decimal, number, is_positive_decimal}
use parimit.Types.{
  status_text, version_text, observation_text, decision_text, reviewer_text, event_text,
}
use parimit.Service.Startup.{
  preflight_receipt_integrity, has_material_history, validate_receipt_bound_evidence, bind_database,
  register_receipt_integrity_root, register_signing_key_registry_state, registry_state,
  expected_root, integrity_root_payload, assert_root_matches, validate_key_rows,
  assert_registry_state, has_all_references, mode_text,
}
use parimit.Service.Startup.Key.{new_key, store_key, store_checked}
use parimit.Service.Startup.Open.{register_signing_key, open_database}
use parimit.Service.Startup.Registered.{Registered}
use parimit.Service.Startup.Opened.{open_database-Registered}
use parimit.Service.Startup.Runs.{open_database-run}
use parimit.Text.{text_eq_iff}
use parimit.Json.{Json}
use parimit.Common.{List, ◌≢◌, ◌∷◌, length}
use parimit.Json.Build.{object}
use parimit.Service.{Service}
use parimit.Result.{fail, receipt_key_mismatch}
use parimit.Service.Methods.Calls.{Call, creates}
use parimit.Examples.{start}

abbrev public_jwk : Json
public_jwk = object ((lit "kty", str (lit "OKP")) ∷ [])

abbrev opened : Result (Unit {0}) × World
opened = open_database sample_service public_jwk start

abbrev calls : List Call
calls = creates sample_body ∷ []

abbrev moved : Service
moved = record sample_service { tenant_id = lit "other-tenant" }

start-opens :
    (opened ≡ (ok tt, opened.1))
    × (has_all_references (run sample_service calls opened.1).db ≡ true)
    × (length (run sample_service calls opened.1).db.intents ≡ 1)
    × (text_eq (expected_root moved) (expected_root sample_service) ≡ false)
unfolding has_agent has_status insert_newest newest_first limited require_limit views_of listed
    list_intents sample_service sample_body find_intent find_owned find_by_key insert_intent
    advance_rows update_status insert_approval_row order_approvals approvals_for find_approval
    count_approvals insert_approval observations_for latest_of latest_observation insert_observation
    events_for finish transaction resume store get_field canonical_json canonicalize fail_if
    required digest hmac_sha256 now random_uuid event_json genesis new_event append_audit
    require_safe_positive_integer require_configuration_string add_all payee_keys
    normalize_payee_set configure_policy evidence_of findings verify_integrity
    assert_stored_integrity is_receipt_valid is_semantic_valid approval_findings count_valid
    genesis_tip event_digest is_linked is_chronological chain_findings unless add_failures report
    is_initial_event is_initial_policy is_initial_tenant initial_findings initial_throws
    is_sound_observation expected_payload is_recorded stream_findings observation_findings member
    item_texts string_array are_distinct is_match match_findings review_findings hash_findings
    is_approval_reason reason_findings row_findings envelope_findings loop_findings envelopes_for
    order_envelopes resulting_status audited_step audited_status result_findings status_findings
    state_findings audit_findings denial_findings authority_findings serve run cancel_role
    may_cancel cancel_in_time record_cancellation cancel_intent request_fingerprint create_or_replay
    create_proposal create_intent due_intents expire_one expire_all expire_at_deadline move_to
    receipt_hmac_of new_approval store_review store_cancellation new_observation store_observation
    expire_rows expire_due_intents expire_now intent_hash_of new_intent insert_and_record
    observation_status provider_reference row_to_intent get_intent get_audit
    assert_intent_owned_by_agent evaluate_policy reviewer_role review_decision review_in_time
    record_decision approve_intent record_observation record_mock_observation current_payload
    intent_payload_from_row approval_receipt_payload default_policy has policy_configuration_digest
    daily_exposure denial_reasons required_approvals_of approval_reason decide_policy require_object
    reject_unknown_keys is_string require_string is_identifier require_identifier is_payee_reference
    require_opaque_payee_reference positive_amount require_amount in_range require_expiry
    optional_identifier body_keys require_agent require_inr normalize_payment_proposal
    original_request_shape lit text_eq text_lt is_space trim is_control lower decimal number
    is_positive_decimal start_of_day to_iso_string status_text version_text observation_text
    decision_text reviewer_text event_text header_json envelope_type decode_base64url split_dots
    three_segments signing_input only_keys is_coordinate is_compatible_key encode_json parse_segment
    sign_envelope is_header parse_segments parse_envelope verify_envelope digit_unit unit_digit
    to_base64url from_base64url object_of object_at text_at number_at list_at has_exact_keys
    is_sha256_hex matches notice local_trust_domain time_at digest_at read_head after_prefix
    read_assurance read_policy read_snapshot read_approval read_approvals read_decision
    insert_claimed sort_claimed is_consistent read_replay read_source is_capability strict_claims
    canonical_time attestation_payload key_items registry_payload is_attested is_checkpoint
    validated_keys order_keys insert_key trusted_jwk verify_trusted index_of read_envelope
    is_issue_of is_consumption_of says_row is_envelope_valid envelope_finding counts_consumed
    insert_by_issue insert_decided sort_decided approving_rows normalize_issue_input record_digest
    approval_json approval_items envelope_approvals is_view_sound envelope_view claims_json
    compact_jws new_envelope store_envelope issuer_role exceeds_intent replay_issue gather issue_new
    issue_or_replay issue_envelope issue_authorization_envelope read_signed is_time_valid
    is_artifact is_issue_event is_bound is_binding_valid judge judge_reading
    verify_authorization_envelope find_envelope envelope_row find_issued has_references
    insert_envelope random_bytes preflight_receipt_integrity has_material_history
    validate_receipt_bound_evidence bind_database register_receipt_integrity_root
    register_signing_key_registry_state registry_state expected_root integrity_root_payload
    assert_root_matches validate_key_rows assert_registry_state has_all_references mode_text new_key
    store_key store_checked register_signing_key open_database
start-opens = (refl, refl, refl, refl)

open_database-Registered_example : Registered sample_service public_jwk start.db opened.1.db
open_database-Registered_example =
    open_database-Registered sample_service public_jwk start (start-opens.0)

moved-differs : expected_root moved ≢ expected_root sample_service
moved-differs e =
    cc (start-opens.3, (text_eq_iff (expected_root moved) (expected_root sample_service)).1 e)

open_database-run_example :
    (open_database sample_service public_jwk (run sample_service calls opened.1)
      ≡ (ok tt, run sample_service calls opened.1))
    × (open_database moved public_jwk (run sample_service calls opened.1)
        ≡ (fail receipt_key_mismatch 500, run sample_service calls opened.1))
open_database-run_example =
    open_database-run sample_service moved public_jwk public_jwk calls start (start-opens.0)
      (start-opens.1) moved-differs
