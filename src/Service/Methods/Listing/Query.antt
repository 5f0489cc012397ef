-- ===== src/Service/Methods/Listing/Query.antt =====
-- `listIntents` as a call of the service.
use parimit.Common.{ℕ, Option, List}
use parimit.Text.{Text}
use parimit.Types.{IntentStatus}
use parimit.Exec.{Action, ◌>>=◌, ◌>>◌, lift, query_result}
use parimit.Service.{Service}
use parimit.Service.Methods.Expiry.{expire_due_intents}
use parimit.Service.Methods.Read.{IntentView}
use parimit.Service.Methods.Listing.{require_limit, views_of, listed}

module _ (svc : Service) where
  unfoldable pub list_intents :
      Option Text → Option IntentStatus → Option ℕ → Action (List IntentView)
  list_intents agent status limit = do
    expire_due_intents svc
    n ← lift (require_limit limit)
    query_result (λ db. views_of svc (listed svc agent status n db) db)
