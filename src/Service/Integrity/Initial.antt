-- ===== src/Service/Integrity/Initial.antt =====
-- The first event must repeat the policy decision and the hash of the row.
use parimit.Common.{
  Bool, true, false, not, ◌&&◌, ◌||◌, Option, none, some, List, [], ◌∷◌, ◌++◌, ◌==◌,
}
use parimit.Text.{Text, lit, text_eq}
use parimit.Json.{Json, arr}
use parimit.Json.Build.{strings}
use parimit.Json.Canonical.{canonical_json}
use parimit.Types.{
  EventType, proposal_created, proposal_policy_denied, InitialStatus, denied, awaiting,
  initial_to_status, status_text, is_v3,
}
use parimit.Database.{IntentRow, AuditRow}
use parimit.Service.{Service}
use parimit.Service.Policy.{policy_configuration_digest}
use parimit.Service.Integrity.Failures.{Finding, check}
use parimit.Service.Integrity.Payloads.{
  is_object, member, is_str, is_num, is_bool, is_defined, string_array,
}

abbrev is_expected : InitialStatus → EventType → Bool
is_expected denied proposal_policy_denied = true
is_expected awaiting proposal_created = true
is_expected _ _ = false

-- `canonicalJson(initialPolicy.reasons) === canonicalJson(policyReasons)`
abbrev same_reasons : Option Json → Option (List Text) → Bool
same_reasons (some v) (some ts) = text_eq (canonical_json v) (canonical_json (arr (strings ts)))
same_reasons _ _ = false

module _ (svc : Service) (row : IntentRow) where
  -- The conditions in front of the comparison of the reasons.
  unfoldable pub is_initial_event : AuditRow → Bool
  is_initial_event e =
      is_expected row.initial_status e.event_type
      && (is_object e.payload
          && (is_str (status_text (initial_to_status row.initial_status))
                (member (lit "status") e.payload)
              && (is_str row.intent_hash (member (lit "intent_hash") e.payload)
                  && (e.occurred_at == row.created_at
                      && (is_object (member (lit "policy") e.payload)
                          && (is_bool (row.policy_allowed == 1)
                                (member (lit "allowed") (member (lit "policy") e.payload))
                              && (is_str row.rules_version
                                    (member (lit "rules_version") (member (lit "policy") e.payload))
                                  && is_num row.required_approvals (
                                      member (lit "required_approvals")
                                        (member (lit "policy") e.payload)))))))))

  unfoldable pub is_initial_policy : AuditRow → Bool
  is_initial_policy e =
      same_reasons (member (lit "reasons") (member (lit "policy") e.payload))
        (string_array row.policy_reasons)
      && (not (is_v3 row.intent_version)
          || is_str (policy_configuration_digest svc)
              (member (lit "config_digest") (member (lit "policy") e.payload)))

  unfoldable pub is_initial_tenant : AuditRow → Bool
  is_initial_tenant e =
      not (is_v3 row.intent_version)
      || (is_str svc.tenant_id (member (lit "tenant_id") e.payload)
          && is_num 1 (member (lit "state_version") e.payload))

  unfoldable pub initial_findings : List AuditRow → List Finding
  initial_findings [] =
      check false (lit "INITIAL_AUDIT_POLICY_MISMATCH")
      ++ check (not (is_v3 row.intent_version)) (lit "INITIAL_AUDIT_TENANT_STATE_MISMATCH")
  initial_findings (e ∷ es) =
      check (is_initial_event e && is_initial_policy e) (lit "INITIAL_AUDIT_POLICY_MISMATCH")
      ++ check (is_initial_tenant e) (lit "INITIAL_AUDIT_TENANT_STATE_MISMATCH")

  -- `canonicalJson(undefined)` throws a TypeError, which nothing catches.
  unfoldable pub initial_throws : List AuditRow → Bool
  initial_throws [] = false
  initial_throws (e ∷ es) =
      is_initial_event e
      && (is_some (string_array row.policy_reasons)
          && not (is_defined (member (lit "reasons") (member (lit "policy") e.payload))))
    where
      is_some : Option (List Text) → Bool
      is_some none = false
      is_some (some ts) = true
