-- ===== src/Service/History/Runs.antt =====
-- Every proposal keeps what was proposed, whatever is called.
use parimit.Common.{List}
use parimit.Exec.{World}
use parimit.Service.{Service}
use parimit.Service.History.{Evolves}
use parimit.Service.History.Writes.{Commits-Evolves}
use parimit.Service.Commit.Methods.{run-Commits}
use parimit.Service.Methods.Calls.{Call, run}

-- Whatever calls are served, each row that was stored stays at its place: only its status and its
-- state version change, only while it awaits approval, and each change raises its state version.
pub run-Evolves :
    (svc : Service) (calls : List Call) (w : World)
    → Evolves w.db.intents (run svc calls w).db.intents
run-Evolves svc calls w = Commits-Evolves svc (run-Commits svc calls w)
