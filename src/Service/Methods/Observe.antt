-- ===== src/Service/Methods/Observe.antt =====
-- `recordMockObservation`.
use parimit.Common.{Bool, false, Option, none, some, if◌then◌else◌}
use parimit.Text.{Text, lit, text_eq}
use parimit.Json.{Json, str}
use parimit.Types.{
  ObservationStatus, unknown, pending, succeeded, failed, reversed, disputed, in_doubt, is_in_doubt,
}
use parimit.Result.{Result, ok, fail, ◌>>=◌, validation_error}
use parimit.Database.{ObservationRow}
use parimit.Service.Validation.{require_string}

-- `OBSERVATION_STATUSES.includes(statusValue)`
unfoldable pub observation_status : Option Json → Result ObservationStatus
observation_status (some (str t)) =
    if text_eq t (lit "UNKNOWN")
    then ok unknown
    else if text_eq t (lit "PENDING")
    then ok pending
    else if text_eq t (lit "SUCCEEDED")
    then ok succeeded
    else if text_eq t (lit "FAILED")
    then ok failed
    else if text_eq t (lit "REVERSED")
    then ok reversed
    else if text_eq t (lit "DISPUTED")
    then ok disputed
    else if text_eq t (lit "IN_DOUBT")
    then ok in_doubt
    else fail validation_error 400
observation_status _ = fail validation_error 400

unfoldable pub provider_reference : Option Json → Result (Option Text)
provider_reference none = ok none
provider_reference (some v) = do s ← require_string 200 (some v); ok (some s)

-- `latestObservation?.status === "IN_DOUBT"`
abbrev pub is_frozen : Option ObservationRow → Bool
is_frozen none = false
is_frozen (some o) = is_in_doubt o.status
