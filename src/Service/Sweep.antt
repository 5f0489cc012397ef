-- ===== src/Service/Sweep.antt =====
-- `expireDueIntents` leaves no proposal behind that awaits approval past its deadline.
use parimit.Common.{
  ℕ, ◌≤◌, ◌≡◌, refl, sym, ap, subst, arith, Bool, true, false, ◌||◌, List, [], ◌∷◌, any, select,
  le→leb, Bool-cases, inl, inr, if◌then◌else◌,
}
use parimit.Text.{Text, text_eq, text_eq_refl, text_eq_iff}
use parimit.Types.{expired, is_awaiting}
use parimit.Result.{ok, >>=-eq-ok, ok_injective}
use parimit.Database.{Database, IntentRow, is_open, advance, advance_rows}
use parimit.Exec.{World, resume, transaction}
use parimit.Exec.Yields.{Yields, returns, Yields-stored, Yields-finish, Yields-returned}
use parimit.Service.{Service, now}
use parimit.Service.Methods.Deadline.{is_due, due_intents, expire_one, expire_all}
use parimit.Service.Methods.Expiry.{expire_rows, expire_due_intents}
use parimit.Service.Effects.{expire_one-cases}

module _ (svc : Service) (at : ℕ) where
  -- No row of the tenant with a deadline up to `at` awaits approval.
  abbrev pub NonePending : List IntentRow → Type 0
  NonePending [] = Unit {0}
  NonePending (x ∷ xs) =
      (x.tenant_id ≡ svc.tenant_id → x.expires_at ≤ at → is_awaiting x.status ≡ false)
      × NonePending xs

  abbrev has_id : Text → IntentRow → Bool
  has_id id r = text_eq id r.id

  -- Each due row of the second list has its id in the first.
  abbrev Covers : List IntentRow → List IntentRow → Type 0
  Covers rs [] = Unit {0}
  Covers rs (x ∷ xs) = (is_due svc at x ≡ true → any (has_id x.id) rs ≡ true) × Covers rs xs

  Covers-more : (r : IntentRow) (rs xs : List IntentRow) → Covers rs xs → Covers (r ∷ rs) xs
  Covers-more r rs [] c = tt
  Covers-more r rs (x ∷ xs) (h, c) = (λ d. ground (arith, h d), Covers-more r rs xs c)

  Covers-selected :
      (x : IntentRow) (rs xs : List IntentRow) (b : Bool)
      → is_due svc at x ≡ b
      → Covers rs xs
      → Covers (if b then x ∷ rs else rs) (x ∷ xs)
  Covers-selected x rs xs true e c = (λ _. ground (arith, text_eq_refl x.id), Covers-more x rs xs c)
  Covers-selected x rs xs false e c = (λ d. cc, c)

  Covers-select : (xs : List IntentRow) → Covers (select (is_due svc at) xs) xs
  Covers-select [] = tt
  Covers-select (x ∷ xs) = Covers-selected x _ xs (is_due svc at x) refl (Covers-select xs)

  -- A row that is due after the expiry of `r` was due before, and is not `r`.
  still_due :
      (r x : IntentRow)
      → is_due svc at (if is_open svc.tenant_id r.id x then advance expired x else x) ≡ true
      → (is_due svc at x ≡ true) × (text_eq x.id r.id ≡ false)
  still_due r x h = elim (Bool-cases (is_open svc.tenant_id r.id x)) [
    | inl open_ ↦ let never = rw open_ at h in ground arith
    | inr shut ↦ let due = rw shut at h in (due, ground arith)
  ]

  id_kept : (x : IntentRow) (b : Bool) → (if b then advance expired x else x).id ≡ x.id
  id_kept x true = refl
  id_kept x false = refl

  ||-eq-true-right : {a b : Bool} → a ≡ false → (a || b) ≡ true → b ≡ true
  ||-eq-true-right e h = ground arith

  Covers-advance :
      (r : IntentRow) (rs xs : List IntentRow)
      → Covers (r ∷ rs) xs
      → Covers rs (advance_rows svc.tenant_id r.id expired xs)
  unfolding advance_rows
  Covers-advance r rs [] c = tt
  Covers-advance r rs (x ∷ xs) (h, c) = (
    (λ d.
        let (due, other) = still_due r x d in
        subst (λ id. any (has_id id) rs ≡ true) (sym (id_kept x _))
          (||-eq-true-right other (h due))),
    Covers-advance r rs xs c,
  )

  expire_one-intents :
      (id : Text) (db : Database) {db' : Database}
      → expire_one svc at id db ≡ ok db'
      → db'.intents ≡ advance_rows svc.tenant_id id expired db.intents
  expire_one-intents id db h = elim (expire_one-cases svc id at db h) [
    | inl same ↦ ap (λ d. d.intents) same
    | inr (_, wrote) ↦ wrote.intents
  ]

  Covers-none : (xs : List IntentRow) → Covers [] xs → NonePending xs
  Covers-none [] c = tt
  Covers-none (x ∷ xs) (h, c) = (
    (λ tenant late. ground (arith, text_eq_iff x.tenant_id svc.tenant_id, le→leb x.expires_at at)),
    Covers-none xs c,
  )

  expire_all-NonePending :
      (rs : List IntentRow) (db : Database) {db' : Database}
      → Covers rs db.intents
      → expire_all svc at rs db ≡ ok db'
      → NonePending db'.intents
  unfolding expire_all
  expire_all-NonePending [] db c h =
      subst (λ d. NonePending d.intents) (ok_injective h) (Covers-none db.intents c)
  expire_all-NonePending (r ∷ rs) db c h =
      let (mid, e, h') = >>=-eq-ok (expire_one svc at r.id db) _ h in
      expire_all-NonePending rs mid
        (subst (Covers rs) (sym (expire_one-intents r.id db e)) (Covers-advance r rs db.intents c))
        h'

  abbrev Swept : Unit {0} → World → Type 0
  Swept u w = NonePending w.db.intents

  expire_rows-Swept :
      (rs : List IntentRow) (w : World)
      → Covers rs w.db.intents
      → Yields Swept (expire_rows svc at rs w)
  unfolding expire_rows transaction
  expire_rows-Swept [] w c = returns (Covers-none w.db.intents c)
  expire_rows-Swept (r ∷ rs) w c = Yields-finish w (
      Yields-stored w (expire_all svc at (r ∷ rs) w.db)
        λ db h. expire_all-NonePending (r ∷ rs) w.db c h)

-- Where `expireDueIntents` returns, no proposal of the service's tenant whose deadline had passed by the
-- reading of the clock still awaits approval.
pub expire_due_intents-NonePending :
    (svc : Service) (w : World) {u : Unit {0}} {w' : World}
    → expire_due_intents svc w ≡ (ok u, w')
    → NonePending svc (svc.clock w.clock_reads) w'.db.intents
unfolding expire_due_intents now resume due_intents
expire_due_intents-NonePending svc w h =
    Yields-returned _
      (expire_rows-Swept svc (svc.clock w.clock_reads) _ (now svc w).1
        (Covers-select svc (svc.clock w.clock_reads) w.db.intents))
      h
