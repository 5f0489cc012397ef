-- ===== src/Service/Methods/Expiry.antt =====
-- `expireDueIntents`, which most methods run first.
use parimit.Common.{ℕ, Bool, true, List, [], ◌∷◌}
use parimit.Text.{Text}
use parimit.Database.{IntentRow}
use parimit.Exec.{Action, ◌>>=◌, ◌>>◌, pure, query, execute, transaction}
use parimit.Service.{Service, now}
use parimit.Service.Methods.Deadline.{due_intents, expire_all, expire_at_deadline}

unfoldable pub expire_rows : Service → ℕ → List IntentRow → Action (Unit {0})
expire_rows svc at [] = pure tt
expire_rows svc at (r ∷ rs) = transaction (execute (expire_all svc at (r ∷ rs)))

unfoldable pub expire_due_intents : Service → Action (Unit {0})
unfolding expire_rows
expire_due_intents svc = do at ← now svc; rows ← query (due_intents svc at); expire_rows svc at rows

-- The deadline has passed: true tells the caller to throw after the commit.
unfoldable pub expire_now : Service → Text → ℕ → Action Bool
expire_now svc id at = do execute (expire_at_deadline svc at id); pure true
