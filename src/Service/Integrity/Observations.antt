-- ===== src/Service/Integrity/Observations.antt =====
-- Each observation is recorded by the event at its place, and none follows IN_DOUBT.
use parimit.Common.{
  ℕ, suc, ◌+◌, Bool, true, false, not, ◌&&◌, ◌||◌, Option, none, some, List, [], ◌∷◌, ◌++◌, leb,
  ◌==◌, if◌then◌else◌, select, length,
}
use parimit.Text.{Text, lit, text_eq, is_empty}
use parimit.Text.Decimal.{decimal}
use parimit.Json.{Json, bool, str}
use parimit.Json.Build.{object, nullable}
use parimit.Json.Canonical.{canonical_json}
use parimit.Types.{observation_text, is_observation_status, is_in_doubt, is_observation_event}
use parimit.Database.{IntentRow, ObservationRow, AuditRow}
use parimit.Service.Integrity.Failures.{Finding, check}
use parimit.Service.Integrity.Payloads.{is_object, member, is_defined}

abbrev fits : Option Text → Bool
fits none = true
fits (some t) = not (is_empty t) && leb (length t) 200

-- The CHECK on `source` makes that test vacuous.
unfoldable pub is_sound_observation : IntentRow → ObservationRow → Bool
is_sound_observation row o =
    not (is_empty o.id)
    && (is_observation_status o.status
        && (leb row.created_at o.observed_at && fits o.provider_reference))

-- `expectedPayloadWithoutId`
abbrev pub observation_members : ObservationRow → List (Text × Json)
observation_members o =
    (lit "status", str (observation_text o.status))
    ∷ (lit "provider_reference", nullable o.provider_reference)
    ∷ (lit "source", str (lit "DEMO_MOCK"))
    ∷ (lit "retry_permitted", bool false)
    ∷ (lit "moves_money", bool false)
    ∷ []

-- `expectedPayload`
unfoldable pub expected_payload : ObservationRow → Option Json → Json
expected_payload o payload =
    if is_defined (member (lit "observation_id") payload)
    then object ((lit "observation_id", str o.id) ∷ observation_members o)
    else object (observation_members o)

same_payload : Option Json → Json → Bool
same_payload (some v) expected =
    is_object (some v) && text_eq (canonical_json v) (canonical_json expected)
same_payload none expected = false

unfoldable pub is_recorded : ObservationRow → AuditRow → Bool
unfolding same_payload
is_recorded o e =
    e.occurred_at == o.observed_at && same_payload e.payload (expected_payload o e.payload)

-- `observationId || index + 1`
label : ObservationRow → ℕ → Text
label o index = if is_empty o.id then decimal (index + 1) else o.id

abbrev is_recorded_at : ObservationRow → List AuditRow → Bool
is_recorded_at o [] = false
is_recorded_at o (e ∷ es) = is_recorded o e

abbrev rest_of : List AuditRow → List AuditRow
rest_of [] = []
rest_of (e ∷ es) = es

module _ (row : IntentRow) where
  -- The loop, with the events that are left, the index and `observationStreamFrozen`.
  unfoldable pub stream_findings : ℕ → Bool → List ObservationRow → List AuditRow → List Finding
  unfolding label
  stream_findings index frozen [] es = []
  stream_findings index frozen (o ∷ os) es =
      check (not frozen) (lit "OBSERVATION_AFTER_IN_DOUBT:" ++ label o index)
      ++ (check (is_sound_observation row o) (lit "OBSERVATION_SEMANTICS_INVALID:" ++ label o index)
          ++ (check (is_recorded_at o es) (lit "OBSERVATION_AUDIT_MISMATCH:" ++ label o index)
              ++ stream_findings (suc index) (frozen || is_in_doubt o.status) os (rest_of es)))

  abbrev pub observation_events : List AuditRow → List AuditRow
  observation_events = select (λ e. is_observation_event e.event_type)

  unfoldable pub observation_findings : List ObservationRow → List AuditRow → List Finding
  observation_findings os events =
      check (length os == length (observation_events events))
        (lit "OBSERVATION_AUDIT_COUNT_MISMATCH")
      ++ stream_findings 0 false os (observation_events events)
