-- ===== src/Service/Methods/Deadline.antt =====
-- The writes of `expireDueIntents`, and the expiry of one proposal at its deadline.
use parimit.Common.{ℕ, Bool, ◌&&◌, List, [], ◌∷◌, leb, ◌==◌, select, if◌then◌else◌}
use parimit.Text.{Text, lit, text_eq}
use parimit.Json.{Json, str}
use parimit.Json.Build.{object}
use parimit.Types.{expired, is_awaiting, status_text, proposal_expired}
use parimit.Result.{Result, ok, fail, ◌>>=◌, state_conflict}
use parimit.Database.{Database, IntentRow, update_status}
use parimit.Service.{Service}
use parimit.Service.Audit.{append_audit}

abbrev pub expired_json : Json
expired_json = object ((lit "status", str (status_text expired)) ∷ [])

abbrev pub is_due : Service → ℕ → IntentRow → Bool
is_due svc at r = text_eq r.tenant_id svc.tenant_id && (is_awaiting r.status && leb r.expires_at at)

unfoldable pub due_intents : Service → ℕ → Database → List IntentRow
due_intents svc at db = select (is_due svc at) db.intents

module _ (svc : Service) (at : ℕ) where
  -- Only a row that the UPDATE changed gets an event.
  unfoldable pub expire_one : Text → Database → Result Database
  expire_one id db =
      let (db', changes) = update_status svc.tenant_id id expired db in
      if changes == 1
      then append_audit svc id proposal_expired (lit "parimit-clock") expired_json at db'
      else ok db'

  unfoldable pub expire_all : List IntentRow → Database → Result Database
  expire_all [] db = ok db
  expire_all (r ∷ rs) db = do db' ← expire_one r.id db; expire_all rs db'

  -- The deadline inside a review or a cancellation; `StateConflict` if no row changed.
  unfoldable pub expire_at_deadline : Text → Database → Result Database
  expire_at_deadline id db =
      let (db', changes) = update_status svc.tenant_id id expired db in
      if changes == 1
      then append_audit svc id proposal_expired (lit "parimit-clock") expired_json at db'
      else fail state_conflict 409
