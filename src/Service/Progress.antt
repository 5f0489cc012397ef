-- ===== src/Service/Progress.antt =====
-- `expireDueIntents` goes through where the clock has not gone back.
use parimit.Common.{
  ℕ, ◌+◌, ◌≤◌, ◌≡◌, refl, sym, subst, arith, Bool, true, false, List, [], ◌∷◌, ◌++◌, select, find,
  length, last, ◌==◌, if◌then◌else◌,
}
use parimit.Text.{Text, lit}
use parimit.Json.{Json}
use parimit.Types.{IntentStatus, EventType, expired, proposal_expired}
use parimit.Result.{Result, ok}
use parimit.Database.{
  Database, IntentRow, AuditRow, is_open, is_intent, advance_rows, update_status, find_intent,
  events_for,
}
use parimit.Exec.{World, resume, store, finish, transaction}
use parimit.Service.{Service, now}
use parimit.Service.Audit.{append_audit, new_event, is_before, is_before_intent}
use parimit.Service.Methods.Deadline.{expired_json, expire_one, expire_all}
use parimit.Service.Methods.Expiry.{expire_rows, expire_due_intents}
use parimit.Service.Effects.{advanced}
use parimit.Service.Effects.Found.{updated-times}
use parimit.Service.Sweep.{NonePending, expire_due_intents-NonePending}

module _ (at : ℕ) where
  abbrev pub CreatedBy : List IntentRow → Type 0
  CreatedBy [] = Unit {0}
  CreatedBy (x ∷ xs) = (x.created_at ≤ at) × CreatedBy xs

  abbrev pub OccurredBy : List AuditRow → Type 0
  OccurredBy [] = Unit {0}
  OccurredBy (e ∷ es) = (e.occurred_at ≤ at) × OccurredBy es

  OccurredBy-append :
      (es : List AuditRow) (e : AuditRow)
      → OccurredBy es
      → e.occurred_at ≤ at
      → OccurredBy (es ++ e ∷ [])
  OccurredBy-append [] e o h = (h, tt)
  OccurredBy-append (d ∷ es) e (g, o) h = (g, OccurredBy-append es e o h)

  CreatedBy-advance :
      (tenant id : Text) (next : IntentStatus) (xs : List IntentRow)
      → CreatedBy xs
      → CreatedBy (advance_rows tenant id next xs)
  unfolding advance_rows
  CreatedBy-advance tenant id next [] c = tt
  CreatedBy-advance tenant id next (x ∷ xs) (h, c) = (
    subst (λ n. n ≤ at) (sym ((updated-times tenant id next x).0)) h,
    CreatedBy-advance tenant id next xs c,
  )

  last-OccurredBy : (es : List AuditRow) → OccurredBy es → is_before at (last es) ≡ false
  last-OccurredBy [] o = refl
  last-OccurredBy (e ∷ []) (h, o) = ground arith
  last-OccurredBy (e ∷ d ∷ es) (h, o) = last-OccurredBy (d ∷ es) o

  selected :
      (b : Bool) (e : AuditRow) (es : List AuditRow)
      → e.occurred_at ≤ at
      → OccurredBy es
      → OccurredBy (if b then e ∷ es else es)
  selected true e es h o = (h, o)
  selected false e es h o = o

  OccurredBy-select :
      (p : AuditRow → Bool) (es : List AuditRow) → OccurredBy es → OccurredBy (select p es)
  OccurredBy-select p [] o = tt
  OccurredBy-select p (e ∷ es) (h, o) = selected (p e) e _ h (OccurredBy-select p es o)

  -- A row that awaited approval is still found when it was advanced.
  found_created :
      (tenant id : Text) (next : IntentStatus) (xs : List IntentRow) (n : ℕ)
      → CreatedBy xs
      → length (select (is_open tenant id) xs) ≡ n + 1
      → is_before_intent at (find (is_intent tenant id) (advance_rows tenant id next xs)) ≡ false
  unfolding advance_rows
  found_created tenant id next [] n c h = ground arith
  found_created tenant id next (x ∷ xs) n (created, c) h =
      ground (arith, found_created tenant id next xs n c)

-- Nothing in the database is later than `at`.
pub record IsPast (at : ℕ) (db : Database) : Type 0 where
  pub intents : CreatedBy at db.intents
  pub events : OccurredBy at db.audit_events

-- The write goes through, and leaves nothing later than `at`.
abbrev Passes : ℕ → Result Database → Type 0
Passes at r = (db : Database) × (r ≡ ok db) × IsPast at db

module _ (svc : Service) (at : ℕ) where
  in_order :
      (id : Text) (db : Database) → IsPast at db → is_before at (last (events_for id db)) ≡ false
  unfolding events_for
  in_order id db past = last-OccurredBy at _ (OccurredBy-select at _ _ past.events)

  append_audit-Passes :
      (id : Text) (type : EventType) (actor : Text) (payload : Json) (db : Database)
      → IsPast at db
      → is_before_intent at (find_intent svc.tenant_id id db) ≡ false
      → Passes at (append_audit svc id type actor payload at db)
  unfolding append_audit new_event
  append_audit-Passes id type actor payload db past found = rw found rw (in_order id db past) (
    _,
    refl,
    record { intents = past.intents; events = OccurredBy-append at _ _ past.events (omega arith) },
  )

  expire_one-Passes :
      (id : Text) (db : Database) → IsPast at db → Passes at (expire_one svc at id db)
  unfolding expire_one update_status find_intent
  expire_one-Passes id db past =
      counted (length (select (is_open svc.tenant_id id) db.intents) == 1) refl
    where
      advanced-IsPast : IsPast at (advanced svc id expired db)
      advanced-IsPast = record {
        intents = CreatedBy-advance at _ _ _ _ past.intents;
        events = past.events;
      }

      counted :
          (b : Bool)
          → (length (select (is_open svc.tenant_id id) db.intents) == 1) ≡ b
          → Passes at (
              if b
              then append_audit svc id proposal_expired
                  (lit "parimit-clock")
                  expired_json
                  at
                  (advanced svc id expired db)
              else ok (advanced svc id expired db))
      counted true one =
          append_audit-Passes id _ _ _ _ advanced-IsPast
            (found_created at _ _ _ _ 0 past.intents (ground arith))
      counted false other = (_, refl, advanced-IsPast)

  expire_all-Passes :
      (rs : List IntentRow) (db : Database) → IsPast at db → Passes at (expire_all svc at rs db)
  unfolding expire_all
  expire_all-Passes [] db past = (db, refl, past)
  expire_all-Passes (r ∷ rs) db past =
      let (mid, e, past') = expire_one-Passes r.id db past in rw e (expire_all-Passes rs mid past')

  store-Passes :
      (w : World) (r : Result Database)
      → Passes at r
      → (w' : World) × (finish w (store w r) ≡ (ok tt, w'))
  unfolding finish store
  store-Passes w r (db, e, past) = rw e (_, refl)

  expire_rows-returns :
      (rs : List IntentRow) (w : World)
      → IsPast at w.db
      → (w' : World) × (expire_rows svc at rs w ≡ (ok tt, w'))
  unfolding expire_rows transaction
  expire_rows-returns [] w past = (w, refl)
  expire_rows-returns (r ∷ rs) w past = store-Passes w _ (expire_all-Passes (r ∷ rs) w.db past)

expire_due_intents-returns :
    (svc : Service) (w : World)
    → IsPast (svc.clock w.clock_reads) w.db
    → (w' : World) × (expire_due_intents svc w ≡ (ok tt, w'))
unfolding expire_due_intents now resume
expire_due_intents-returns svc w past =
    expire_rows-returns svc (svc.clock w.clock_reads) _ (now svc w).1 past

-- Where the clock reads no earlier time than any creation and any event in the database,
-- `expireDueIntents` returns, and every proposal of the service's tenant that awaited approval past its
-- deadline does so no more.
pub expire_due_intents-progresses :
    (svc : Service) (w : World)
    → IsPast (svc.clock w.clock_reads) w.db
    → (w' : World) × (expire_due_intents svc w ≡ (ok tt, w'))
      × NonePending svc (svc.clock w.clock_reads) w'.db.intents
expire_due_intents-progresses svc w past =
    let (w', e) = expire_due_intents-returns svc w past in
    (w', e, expire_due_intents-NonePending svc w e)
