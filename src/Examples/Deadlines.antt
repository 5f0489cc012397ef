-- ===== src/Examples/Deadlines.antt =====
-- A sweep over two proposals, one of which is past its deadline.
use parimit.Common.{◌≡◌, refl, arith, [], ◌∷◌}
use parimit.Text.{text_eq}
use parimit.Types.{awaiting_approval, expired}
use parimit.Result.{Result, ok}
use parimit.Database.{IntentRow, empty, find_intent, events_for, advance_rows, update_status}
use parimit.Exec.{World, resume, store, finish, transaction}
use parimit.Service.{Service, now}
use parimit.Service.Audit.{append_audit}
use parimit.Service.Methods.Deadline.{due_intents, expire_one, expire_all}
use parimit.Service.Methods.Expiry.{expire_rows, expire_due_intents}
use parimit.Service.Sweep.{NonePending, expire_due_intents-NonePending}
use parimit.Service.Progress.{IsPast, expire_due_intents-progresses}
use parimit.Examples.{sample_service}
use parimit.Examples.Views.{reviewed_row}

abbrev late_service : Service
late_service = record sample_service { tenant_id = 116 ∷ []; clock = λ n. 2000 }

abbrev late : IntentRow
late = record reviewed_row { status = awaiting_approval; state_version = 1 }

abbrev waiting : IntentRow
waiting = record late { id = 49 ∷ []; expires_at = 3000 }

abbrev unswept : World
unswept = record {
  db = record empty { intents = late ∷ waiting ∷ [] };
  clock_reads = 0;
  uuid_reads = 0;
  bytes_reads = 0;
}

abbrev swept : Result (Unit {0}) × World
swept = expire_due_intents late_service unswept

-- The sweep returns; it expires the first proposal and leaves the second.
unswept-returns :
    (swept ≡ (ok tt, swept.1))
    × (swept.1.db.intents ≡ record late { status = expired; state_version = 2 } ∷ waiting ∷ [])
unfolding sample_service text_eq find_intent events_for advance_rows update_status resume store
    finish transaction now append_audit due_intents expire_one expire_all expire_rows
    expire_due_intents
unswept-returns = (refl, refl)

expire_due_intents-NonePending_example : NonePending late_service 2000 swept.1.db.intents
expire_due_intents-NonePending_example =
    expire_due_intents-NonePending late_service unswept (unswept-returns.0)

unswept-IsPast : IsPast 2000 unswept.db
unswept-IsPast = record { intents = (omega arith, (omega arith, tt)); events = tt }

expire_due_intents-progresses_example :
    (w' : World) × (expire_due_intents late_service unswept ≡ (ok tt, w'))
    × NonePending late_service 2000 w'.db.intents
expire_due_intents-progresses_example =
    expire_due_intents-progresses late_service unswept unswept-IsPast
