-- ===== src/Service/History/Appends.antt =====
-- Events, reviews and observations are only ever added.
use mathlib.Core.List.{append_assoc, append-nil}
use parimit.Common.{ℕ, ◌≡◌, refl, sym, ap, ◌∙◌, inl, inr, List, [], ◌∷◌, ◌++◌}
use parimit.Text.{Text}
use parimit.Json.{Json}
use parimit.Types.{EventType}
use parimit.Result.{ok, >>=-eq-ok, ok_injective}
use parimit.Database.{Database, IntentRow}
use parimit.Exec.{World}
use parimit.Service.{Service}
use parimit.Service.Audit.{new_event}
use parimit.Service.Effects.{
  Wrote, expire_one-cases, expire_at_deadline-Wrote, insert_and_record-Wrote,
  store_cancellation-Wrote,
}
use parimit.Service.Effects.Reviews.{store_review-Wrote, store_observation-Wrote}
use parimit.Service.Effects.Evidence.{store_envelope-Wrote, store_consumption-Wrote}
use parimit.Service.Commit.{
  Commit, Commits, here, next, expiry, creation, deadline, review, cancellation, observation,
  issuance, consumption,
}
use parimit.Service.Commit.Methods.{run-Commits}
use parimit.Service.Methods.Calls.{Call, run}
use parimit.Service.Methods.Deadline.{expire_one, expire_all}

-- The second table is the first with more rows behind.
abbrev pub Extends : {A : Type 0} → List A → List A → Type 0
Extends {A} xs ys = (zs : List A) × (ys ≡ xs ++ zs)

pub record Extended (db db' : Database) : Type 0 where
  pub events : Extends db.audit_events db'.audit_events
  pub approvals : Extends db.approvals db'.approvals
  pub observations : Extends db.observations db'.observations

Extends-refl : {A : Type 0} {xs ys : List A} → ys ≡ xs → Extends xs ys
Extends-refl {xs} e = ([], e ∙ sym (append-nil xs))

Extends-trans : {A : Type 0} (xs ys zs : List A) → Extends xs ys → Extends ys zs → Extends xs zs
Extends-trans xs ys zs (more, e) (rest, f) =
    (more ++ rest, f ∙ ap (λ ws. ws ++ rest) e ∙ append_assoc xs more rest)

Extended-trans : {a b c : Database} → Extended a b → Extended b c → Extended a c
Extended-trans {a} {b} {c} p q = record {
  events = Extends-trans a.audit_events b.audit_events c.audit_events p.events q.events;
  approvals = Extends-trans a.approvals b.approvals c.approvals p.approvals q.approvals;
  observations =
      Extends-trans a.observations b.observations c.observations p.observations q.observations;
}

module _ (svc : Service) where
  -- An event is added, and to the other two tables what `mid` has.
  Wrote-Extended :
      (id : Text) (type : EventType) (actor : Text) (payload : Json) (at : ℕ)
      (db mid db' : Database)
      → mid.audit_events ≡ db.audit_events
      → Extends db.approvals mid.approvals
      → Extends db.observations mid.observations
      → Wrote svc id type actor payload at mid db'
      → Extended db db'
  Wrote-Extended id type actor payload at db mid db' es (reviews, f) (seen, g) wrote = record {
    events = (
      new_event svc id type actor payload at mid ∷ [],
      wrote.audit_events ∙ ap (λ a. a ++ new_event svc id type actor payload at mid ∷ []) es,
    );
    approvals = (reviews, wrote.approvals ∙ f);
    observations = (seen, wrote.observations ∙ g);
  }

  unchanged : {A : Type 0} (xs : List A) → Extends xs xs
  unchanged xs = Extends-refl refl

  expire_one-Extended :
      (id : Text) (at : ℕ) (db db' : Database) → expire_one svc at id db ≡ ok db' → Extended db db'
  expire_one-Extended id at db db' h = elim (expire_one-cases svc id at db h) [
    | inl same ↦ record {
      events = Extends-refl (ap (λ d. d.audit_events) same);
      approvals = Extends-refl (ap (λ d. d.approvals) same);
      observations = Extends-refl (ap (λ d. d.observations) same);
    }
    | inr (_, wrote) ↦
        Wrote-Extended id _ _ _ at db _ db' refl (unchanged db.approvals)
          (unchanged db.observations) wrote
  ]

  expire_all-Extended :
      (at : ℕ) (rows : List IntentRow) (db db' : Database)
      → expire_all svc at rows db ≡ ok db'
      → Extended db db'
  unfolding expire_all
  expire_all-Extended at [] db db' h = rw (← ok_injective h) (record {
    events = unchanged db.audit_events;
    approvals = unchanged db.approvals;
    observations = unchanged db.observations;
  })
  expire_all-Extended at (r ∷ rows) db db' h =
      let (mid, e, h') = >>=-eq-ok _ _ h in
      Extended-trans (expire_one-Extended r.id at db mid e) (expire_all-Extended at rows mid db' h')

  Commit-Extended : {db db' : Database} → Commit svc db db' → Extended db db'
  Commit-Extended {db} {db'} (expiry at h) = expire_all-Extended at _ db db' h
  Commit-Extended {db} {db'} (creation input id reading created_at _ h) =
      let (_, _, wrote) = insert_and_record-Wrote svc input _ _ id created_at db h in
      Wrote-Extended id _ _ _ created_at db _ db' refl (unchanged db.approvals)
        (unchanged db.observations) wrote
  Commit-Extended {db} {db'} (deadline id row at _ _ _ h) =
      let (_, wrote) = expire_at_deadline-Wrote svc id at db h in
      Wrote-Extended id _ _ _ at db _ db' refl (unchanged db.approvals) (unchanged db.observations)
        wrote
  Commit-Extended {db} {db'} (review id row actor role decision at uuid _ _ _ _ _ h) =
      let (_, _, _, wrote) = store_review-Wrote svc row actor role decision at uuid db h in
      Wrote-Extended row.id _ _ _ at db _ db' refl (_, refl) (unchanged db.observations) wrote
  Commit-Extended {db} {db'} (cancellation id row actor role at _ _ _ _ h) =
      let (_, wrote) = store_cancellation-Wrote svc id actor at db h in
      Wrote-Extended id _ _ _ at db _ db' refl (unchanged db.approvals) (unchanged db.observations)
        wrote
  Commit-Extended {db} {db'} (observation id row status reference actor at uuid _ _ _ h) =
      let (_, wrote) = store_observation-Wrote svc id status reference actor at uuid db h in
      Wrote-Extended id _ _ _ at db _ db' refl (unchanged db.approvals) (_, refl) wrote
  Commit-Extended {db} {db'} (issuance id input s actor _ _ _ _ _ h) =
      let (_, wrote) = store_envelope-Wrote svc input s actor db h in
      Wrote-Extended s.row.id _ _ _ s.issued_at db _ db' refl (unchanged db.approvals)
        (unchanged db.observations) wrote
  Commit-Extended {db} {db'} (consumption id row audience actor key at _ _ _ _ h) =
      let (_, wrote) = store_consumption-Wrote svc row audience actor key at db h in
      Wrote-Extended row.intent_id _ _ _ at db _ db' refl (unchanged db.approvals)
        (unchanged db.observations) wrote

  Commits-Extended : {db db' : Database} → Commits svc db db' → Extended db db'
  Commits-Extended {db} here = record {
    events = unchanged db.audit_events;
    approvals = unchanged db.approvals;
    observations = unchanged db.observations;
  }
  Commits-Extended (next p c) = Extended-trans (Commits-Extended p) (Commit-Extended c)

-- Whatever calls are served, every event, review and observation that was stored stays as it is and at
-- its place: new ones are only added behind.
pub run-Extended :
    (svc : Service) (calls : List Call) (w : World) → Extended w.db (run svc calls w).db
run-Extended svc calls w = Commits-Extended svc (run-Commits svc calls w)
