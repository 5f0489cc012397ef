-- ===== src/Examples/Requests.antt =====
-- Validation and repeated requests on sample bodies.
use parimit.Common.{◌≡◌, refl, ap, true, false, List, [], ◌∷◌}
use parimit.Text.{lit, text_eq, is_control, trim}
use parimit.Text.Decimal.{number, decimal, is_positive_decimal}
use parimit.Json.{get_field}
use parimit.Result.{ok, fail_if}
use parimit.Database.{find_by_key, find_intent, insert_intent, events_for}
use parimit.Exec.{World, resume, store}
use parimit.Service.{now, random_uuid}
use parimit.Service.Audit.{append_audit, new_event}
use parimit.Service.Validation.{
  normalize_payment_proposal, original_request_shape, reject_unknown_keys, require_object,
  require_agent, require_inr, body_keys, require_amount, positive_amount, require_expiry, in_range,
  optional_identifier, require_identifier, is_identifier, require_string, is_string,
  require_opaque_payee_reference, is_payee_reference,
}
use parimit.Service.Validation.Laws.{IsNormal, normalize-IsNormal}
use parimit.Service.Validation.Replay.{normalize-original_request_shape}
use parimit.Service.Idempotency.{create_proposal-replays}
use parimit.Service.Methods.Calls.{Call, reads, run}
use parimit.Service.Methods.Create.{create_proposal, create_or_replay}
use parimit.Service.Methods.Insert.{new_intent, insert_and_record}
use parimit.Examples.{sample_service, sample_body, sample_proposal, start}

normalize-sample : normalize_payment_proposal 1800 86400 sample_body ≡ ok sample_proposal
unfolding normalize_payment_proposal sample_body sample_proposal lit text_eq get_field
    reject_unknown_keys require_object require_agent require_inr body_keys fail_if
    optional_identifier require_amount positive_amount require_expiry in_range require_identifier
    is_identifier require_string is_string require_opaque_payee_reference is_payee_reference number
    is_positive_decimal trim is_control
normalize-sample = refl

normalize-IsNormal_example : IsNormal 86400 sample_proposal
normalize-IsNormal_example = normalize-IsNormal 1800 86400 sample_body normalize-sample

normalize-original_request_shape_example :
    normalize_payment_proposal 1800 86400 (original_request_shape sample_proposal)
    ≡ ok sample_proposal
normalize-original_request_shape_example =
    normalize-original_request_shape 1800 86400 sample_proposal
      (normalize-IsNormal 1800 86400 sample_body normalize-sample)

-- The world that the first request leaves.
abbrev created : World
created = (create_proposal sample_service sample_proposal start).1

create_proposal-sample :
    (create_proposal sample_service sample_proposal start).0 ≡ ok (decimal 0, false)
unfolding create_proposal create_or_replay sample_service sample_proposal find_by_key now
    random_uuid resume store insert_and_record insert_intent append_audit find_intent events_for
    new_intent new_event lit text_eq decimal
create_proposal-sample = refl

abbrev later : List Call
later = reads (decimal 0) ∷ []

create_proposal-replays_example :
    create_proposal sample_service sample_proposal (run sample_service later created)
    ≡ (ok (decimal 0, true), run sample_service later created)
create_proposal-replays_example =
    create_proposal-replays sample_service sample_proposal (decimal 0) start created later
      (ap (λ r. (r, created)) create_proposal-sample)
