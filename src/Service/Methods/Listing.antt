-- ===== src/Service/Methods/Listing.antt =====
-- `listIntents`: the proposals of an agent and of a status, the newest first.
pub mod Query
pub mod Shown
pub mod Outcome
use parimit.Common.{
  ℕ, zero, suc, Bool, true, not, Option, none, some, List, [], ◌∷◌, select, ltb, ◌&&◌,
  if◌then◌else◌,
}
use parimit.Text.{Text, text_eq}
use parimit.Types.{IntentStatus, status_text}
use parimit.Result.{Result, ◌>>=◌, ◌>>◌, ok, fail_if, integrity_failure}
use parimit.Database.{Database, IntentRow}
use parimit.Service.{Service}
use parimit.Service.Integrity.{verify_integrity}
use parimit.Service.Validation.{in_range}
use parimit.Service.Methods.Read.{IntentView, row_to_intent}

-- `agent_id = ?`, left out where the filter is missing or empty
unfoldable pub has_agent : Option Text → IntentRow → Bool
has_agent none r = true
has_agent (some []) r = true
has_agent (some (c ∷ cs)) r = text_eq r.agent_id (c ∷ cs)

unfoldable pub has_status : Option IntentStatus → IntentRow → Bool
has_status none r = true
has_status (some s) r = text_eq (status_text r.status) (status_text s)

abbrev pub is_listed : Text → Option Text → Option IntentStatus → IntentRow → Bool
is_listed tenant agent status r =
    text_eq r.tenant_id tenant && (has_agent agent r && has_status status r)

-- `ORDER BY created_at DESC`; SQL leaves the order of equal times open, rowid order is taken here.
unfoldable pub insert_newest : IntentRow → List IntentRow → List IntentRow
insert_newest r [] = r ∷ []
insert_newest r (x ∷ xs) =
    if ltb r.created_at x.created_at then x ∷ insert_newest r xs else r ∷ x ∷ xs

unfoldable pub newest_first : List IntentRow → List IntentRow
newest_first [] = []
newest_first (r ∷ rs) = insert_newest r (newest_first rs)

-- `LIMIT ?`
unfoldable pub limited : ℕ → List IntentRow → List IntentRow
limited n [] = []
limited zero (r ∷ rs) = []
limited (suc n) (r ∷ rs) = r ∷ limited n rs

-- `filters.limit ?? 100`
unfoldable pub require_limit : Option ℕ → Result ℕ
require_limit none = in_range 200 100
require_limit (some n) = in_range 200 n

module _ (svc : Service) where
  unfoldable pub views_of : List IntentRow → Database → Result (List IntentView)
  views_of [] db = ok []
  views_of (r ∷ rows) db = do
    report ← verify_integrity svc r.id db
    fail_if (not report.valid) integrity_failure 500
    views ← views_of rows db
    ok (row_to_intent r db ∷ views)

  unfoldable pub listed : Option Text → Option IntentStatus → ℕ → Database → List IntentRow
  listed agent status limit db =
      limited limit (newest_first (select (is_listed svc.tenant_id agent status) db.intents))
