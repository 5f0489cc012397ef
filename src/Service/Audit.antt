-- ===== src/Service/Audit.antt =====
-- src/service.ts, `appendAudit`: the hash chain of each proposal's events.
use parimit.Common.{
  ℕ, ◌+◌, Bool, true, false, ◌||◌, Option, none, some, [], ◌∷◌, ◌++◌, ltb, last, if◌then◌else◌,
}
use parimit.Text.{Text, lit}
use parimit.Json.{Json, str}
use parimit.Json.Build.{object}
use parimit.Types.{EventType, event_text}
use parimit.Result.{Result, ok, fail, clock_rollback_detected}
use parimit.Database.{Database, IntentRow, AuditRow, find_intent, events_for}
use parimit.Service.{Service, digest}
use parimit.Service.Payload.{time_json}

-- What an event's hash covers.
unfoldable pub event_json : Text → EventType → Text → Json → ℕ → Text → Json
event_json intent_id type actor payload at previous = object (
    (lit "intent_id", str intent_id)
    ∷ (lit "event_type", str (event_text type))
    ∷ (lit "actor_id", str actor)
    ∷ (lit "payload", payload)
    ∷ (lit "occurred_at", time_json at)
    ∷ (lit "previous_hash", str previous)
    ∷ [])

unfoldable pub genesis : Text
genesis = lit "GENESIS"

-- `previous ? previous.event_hash : "GENESIS"`
abbrev pub tip : Option AuditRow → Text
tip none = genesis
tip (some e) = e.event_hash

-- `previous !== undefined && occurredAt < previous.occurred_at`
abbrev pub is_before : ℕ → Option AuditRow → Bool
is_before at none = false
is_before at (some e) = ltb at e.occurred_at

-- `!intent || occurredAt < intent.created_at`
abbrev pub is_before_intent : ℕ → Option IntentRow → Bool
is_before_intent at none = true
is_before_intent at (some r) = ltb at r.created_at

module _ (svc : Service) (id : Text) (type : EventType) (actor : Text) (payload : Json)
    (at : ℕ) where
  unfoldable pub new_event : Database → AuditRow
  unfolding genesis
  new_event db = record {
    sequence = db.next_sequence;
    intent_id = id;
    event_type = type;
    actor_id = actor;
    payload = some payload;
    occurred_at = at;
    previous_hash = tip (last (events_for id db));
    event_hash = digest svc (event_json id type actor payload at (tip (last (events_for id db))));
  }

  -- The payload is stored as its canonical text, which `JSON.parse` reads back.
  unfoldable pub append_audit : Database → Result Database
  append_audit db =
      if is_before_intent at (find_intent svc.tenant_id id db)
        || is_before at (last (events_for id db))
      then fail clock_rollback_detected 409
      else ok (record db {
        audit_events = db.audit_events ++ new_event db ∷ [];
        next_sequence = db.next_sequence + 1;
      })
