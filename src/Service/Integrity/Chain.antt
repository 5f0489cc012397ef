-- ===== src/Service/Integrity/Chain.antt =====
-- The hash chain and the chronology of a proposal's events.
use parimit.Common.{ℕ, Bool, false, not, ◌&&◌, Option, none, some, List, [], ◌∷◌, ◌++◌, ltb}
use parimit.Text.{Text, lit, text_eq}
use parimit.Text.Decimal.{decimal}
use parimit.Json.{Json, null}
use parimit.Database.{IntentRow, AuditRow}
use parimit.Service.{Service, digest}
use parimit.Service.Audit.{event_json, genesis}
use parimit.Service.Integrity.Failures.{Finding, cleared, failed, unless, audit_chain}
use parimit.Service.Integrity.Payloads.{is_defined}

unfoldable pub genesis_tip : Text
unfolding genesis
genesis_tip = genesis

abbrev or_null : Option Json → Json
or_null none = null
or_null (some v) = v

unfoldable pub event_digest : Service → AuditRow → Text
event_digest svc e = digest svc (
    event_json e.intent_id e.event_type e.actor_id (or_null e.payload) e.occurred_at
      e.previous_hash)

-- `previousOccurredAt !== null && event.occurred_at < previousOccurredAt`
abbrev pub is_earlier : ℕ → Option ℕ → Bool
is_earlier at none = false
is_earlier at (some previous) = ltb at previous

module _ (svc : Service) (id : Text) (row : IntentRow) where
  unfoldable pub is_linked : Text → AuditRow → Bool
  is_linked previous e =
      text_eq e.intent_id id
      && (text_eq e.previous_hash previous && text_eq e.event_hash (event_digest svc e))

  unfoldable pub is_chronological : Option ℕ → AuditRow → Bool
  is_chronological previous e =
      not (ltb e.occurred_at row.created_at) && not (is_earlier e.occurred_at previous)

  -- The loop, with `previousHash` and `previousOccurredAt`.
  unfoldable pub chain_findings : Text → Option ℕ → List AuditRow → List Finding
  chain_findings previous at [] = []
  chain_findings previous at (e ∷ es) =
      unless (is_defined e.payload)
        (cleared audit_chain ∷ failed (lit "AUDIT_PAYLOAD_INVALID:" ++ decimal e.sequence) ∷ [])
      ++ (unless (is_linked previous e)
            (cleared audit_chain ∷ failed (lit "AUDIT_CHAIN_INVALID:" ++ decimal e.sequence) ∷ [])
          ++ (unless (is_chronological at e) (
                cleared audit_chain
                ∷ failed (lit "AUDIT_CHRONOLOGY_INVALID:" ++ decimal e.sequence)
                ∷ [])
              ++ chain_findings e.event_hash (some e.occurred_at) es))
