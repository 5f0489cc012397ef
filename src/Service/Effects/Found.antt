-- ===== src/Service/Effects/Found.antt =====
-- An event is appended only to a stored proposal, and not before its creation.
use parimit.Common.{
  ℕ, ◌≤◌, ◌≡◌, ◌≢◌, refl, sym, subst, ◌∙◌, ap, inl, inr, false, Option, none, some, arith, Memᴰ,
  find-eq-some, Option-cases, Bool-cases,
}
use parimit.Text.{Text}
use parimit.Json.{Json}
use parimit.Types.{EventType, IntentStatus}
use parimit.Database.{Database, IntentRow, is_intent, is_open, find_intent}
use parimit.Service.{Service}
use parimit.Service.Audit.{is_before_intent}
use parimit.Service.Effects.{Wrote, advanced}
use parimit.Service.Quorum.Tables.{updated, mem-advance, updated-frame}
use parimit.Service.Quorum.Writes.{intent-id}

absent : (at : ℕ) (o : Option IntentRow) → is_before_intent at o ≡ false → o ≢ none
absent at o h e = ground arith

created_before :
    (at : ℕ) (o : Option IntentRow) (row : IntentRow)
    → is_before_intent at o ≡ false
    → o ≡ some row
    → row.created_at ≤ at
created_before at o row h e = ground arith

-- An UPDATE keeps the times.
pub updated-times :
    (tenant id : Text) (next : IntentStatus) (x : IntentRow)
    → ((updated tenant id next x).created_at ≡ x.created_at)
      × ((updated tenant id next x).expires_at ≡ x.expires_at)
updated-times tenant id next x = elim (Bool-cases (is_open tenant id x)) [
  | inl e ↦ rw e (refl, refl)
  | inr e ↦ rw e (refl, refl)
]

module _ (svc : Service) (id : Text) (type : EventType) (actor : Text) (payload : Json)
    (at : ℕ) where
  pub Wrote-found :
      (mid : Database) {db' : Database}
      → Wrote svc id type actor payload at mid db'
      → (row : IntentRow) × (row.id ≡ id) × Memᴰ row mid.intents × (row.created_at ≤ at)
  unfolding find_intent
  Wrote-found mid wrote = elim (Option-cases (find_intent svc.tenant_id id mid)) [
    | inl missing ↦ absurd (absent at _ wrote.after_intent missing)
    | inr (row, found) ↦
        let (named, listed) = find-eq-some (is_intent svc.tenant_id id) mid.intents found in
        (
          row,
          intent-id svc.tenant_id id row named,
          listed,
          created_before at _ row wrote.after_intent found,
        )
  ]

  -- The same, of the table before a change of status.
  pub Wrote-found_moved :
      (status : IntentStatus) (db : Database) (row : IntentRow) {db' : Database}
      → Wrote svc id type actor payload at (advanced svc id status db) db'
      → ((x : IntentRow) → Memᴰ x db.intents → x.id ≡ id → x ≡ row)
      → row.created_at ≤ at
  Wrote-found_moved status db row wrote unique =
      let (y, named, listed, created) = Wrote-found (advanced svc id status db) wrote in
      let (x, m, same) = mem-advance svc.tenant_id id status db.intents listed in
      let same_id : y.id ≡ x.id =
        ap (λ z. z.id) same ∙ (updated-frame svc.tenant_id id status x).0 in
      let same_time : y.created_at ≡ row.created_at =
        ap (λ z. z.created_at) same
        ∙ (updated-times svc.tenant_id id status x).0
        ∙ ap (λ z. z.created_at) (unique x m (sym same_id ∙ named)) in
      subst (λ t. t ≤ at) same_time created
