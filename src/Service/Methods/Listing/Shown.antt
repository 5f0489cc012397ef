-- ===== src/Service/Methods/Listing/Shown.antt =====
-- What `listIntents` returns.
use parimit.Common.{
  ℕ, zero, suc, ◌≤◌, ◌≡◌, refl, sym, ap, subst, Bool, true, Bool-cases, inl, inr, Option, List, [],
  ◌∷◌, select, ltb, All, Memᴰ, map, length, arith,
}
use parimit.Text.{Text}
use parimit.Types.{IntentStatus}
use parimit.Result.{ok, fail_if, fail_if-eq-ok, >>=-eq-ok, ok_injective}
use parimit.Database.{Database, IntentRow}
use parimit.Service.{Service}
use parimit.Service.Validation.Laws.{of_not}
use parimit.Service.Integrity.{verify_integrity}
use parimit.Service.Integrity.Failures.{Report}
use parimit.Service.Methods.Read.{IntentView, row_to_intent}
use parimit.Service.Methods.Listing.{
  is_listed, insert_newest, newest_first, limited, views_of, listed,
}

module _ (P : IntentRow → Type 0) where
  All-select :
      (p : IntentRow → Bool) (rows : List IntentRow)
      → ((r : IntentRow) → Memᴰ r rows → p r ≡ true → P r)
      → All P (select p rows)
  All-select p [] h = tt
  All-select p (r ∷ rows) h = elim (Bool-cases (p r)) [
    | inl hit ↦ rw hit (h r (Memᴰ.head refl) hit, All-select p rows λ x m. h x (Memᴰ.tail m))
    | inr miss ↦ rw miss (All-select p rows λ x m. h x (Memᴰ.tail m))
  ]

  All-insert_newest :
      (r : IntentRow) (rows : List IntentRow) → P r → All P rows → All P (insert_newest r rows)
  unfolding insert_newest
  All-insert_newest r [] p ps = (p, tt)
  All-insert_newest r (x ∷ xs) p (q, qs) = elim (Bool-cases (ltb r.created_at x.created_at)) [
    | inl later ↦ rw later (q, All-insert_newest r xs p qs)
    | inr first ↦ rw first (p, (q, qs))
  ]

  All-newest_first : (rows : List IntentRow) → All P rows → All P (newest_first rows)
  unfolding newest_first
  All-newest_first [] ps = tt
  All-newest_first (r ∷ rs) (p, ps) = All-insert_newest r _ p (All-newest_first rs ps)

  All-limited : (n : ℕ) (rows : List IntentRow) → All P rows → All P (limited n rows)
  unfolding limited
  All-limited n [] ps = tt
  All-limited zero (r ∷ rs) ps = tt
  All-limited (suc n) (r ∷ rs) (p, ps) = (p, All-limited n rs ps)

length-limited : (n : ℕ) (rows : List IntentRow) → length (limited n rows) ≤ n
unfolding limited
length-limited n [] = omega arith
length-limited zero (r ∷ rs) = omega arith
length-limited (suc n) (r ∷ rs) = omega (arith, length-limited n rs)

abbrev Before : IntentRow → IntentRow → Type 0
Before x y = y.created_at ≤ x.created_at

-- The newest first.
abbrev pub Descends : List IntentRow → Type 0
Descends [] = Unit
Descends (x ∷ xs) = All (Before x) xs × Descends xs

All-weaken :
    {P Q : IntentRow → Type 0}
    → ((r : IntentRow) → P r → Q r)
    → (rows : List IntentRow) → All P rows
    → All Q rows
All-weaken f [] ps = tt
All-weaken f (r ∷ rs) (p, ps) = (f r p, All-weaken f rs ps)

insert_newest-Descends :
    (r : IntentRow) (rows : List IntentRow) → Descends rows → Descends (insert_newest r rows)
unfolding insert_newest
insert_newest-Descends r [] d = (tt, tt)
insert_newest-Descends r (x ∷ xs) (before, d) = elim (Bool-cases (ltb r.created_at x.created_at)) [
  | inl later ↦
      rw later
        (All-insert_newest (Before x) r xs (ground arith) before, insert_newest-Descends r xs d)
  | inr first ↦
      let le : x.created_at ≤ r.created_at = ground arith in
      rw first ((le, All-weaken (λ y h. omega (arith, h, le)) xs before), (before, d))
]

newest_first-Descends : (rows : List IntentRow) → Descends (newest_first rows)
unfolding newest_first
newest_first-Descends [] = tt
newest_first-Descends (r ∷ rs) = insert_newest-Descends r _ (newest_first-Descends rs)

limited-Descends : (n : ℕ) (rows : List IntentRow) → Descends rows → Descends (limited n rows)
unfolding limited
limited-Descends n [] d = tt
limited-Descends zero (r ∷ rs) d = tt
limited-Descends (suc n) (r ∷ rs) (before, d) =
    (All-limited (Before r) n rs before, limited-Descends n rs d)

module _ (svc : Service) where
  abbrev IsVerified : Database → IntentRow → Type 0
  IsVerified db r =
      (report : Report) × (verify_integrity svc r.id db ≡ ok report) × (report.valid ≡ true)

  -- A view of a row under its filters whose report is valid.
  abbrev pub Shown : Option Text → Option IntentStatus → Database → IntentView → Type 0
  Shown agent status db v =
      Memᴰ v.intent db.intents
      × (is_listed svc.tenant_id agent status v.intent ≡ true)
      × IsVerified db v.intent

  -- At most 200 such views, the newest first.
  abbrev pub Shows : Option Text → Option IntentStatus → Database → List IntentView → Type 0
  Shows agent status db views =
      All (Shown agent status db) views
      × Descends (map (λ v. v.intent) views)
      × (length (map (λ v. v.intent) views) ≤ 200)

  module _ (db : Database) where
    views_of-intents :
        (rows : List IntentRow) {views : List IntentView}
        → views_of svc rows db ≡ ok views
        → map (λ v. v.intent) views ≡ rows
    unfolding views_of row_to_intent
    views_of-intents [] h = subst (λ vs. map (λ v. v.intent) vs ≡ []) (ok_injective h) refl
    views_of-intents (r ∷ rows) h =
        let (_, _, h₁) = >>=-eq-ok (verify_integrity svc r.id db) _ h in
        let (_, _, h₂) = >>=-eq-ok (fail_if _ _ _) _ h₁ in
        let (rest, made, h₃) = >>=-eq-ok (views_of svc rows db) _ h₂ in
        subst (λ vs. map (λ v. v.intent) vs ≡ r ∷ rows) (ok_injective h₃)
          (ap (λ xs. r ∷ xs) (views_of-intents rows made))

    views_of-All :
        (P : IntentRow → Type 0) (rows : List IntentRow) {views : List IntentView}
        → views_of svc rows db ≡ ok views
        → All P rows
        → All (λ v. P v.intent × IsVerified db v.intent) views
    unfolding views_of row_to_intent
    views_of-All P [] h ps =
        subst (All (λ v. P v.intent × IsVerified db v.intent)) (ok_injective h) tt
    views_of-All P (r ∷ rows) h (p, ps) =
        let (report, read, h₁) = >>=-eq-ok (verify_integrity svc r.id db) _ h in
        let (_, tested, h₂) = >>=-eq-ok (fail_if _ _ _) _ h₁ in
        let (rest, made, h₃) = >>=-eq-ok (views_of svc rows db) _ h₂ in
        subst (All (λ v. P v.intent × IsVerified db v.intent)) (ok_injective h₃)
          ((p, (report, read, of_not _ (fail_if-eq-ok _ _ _ tested))), views_of-All P rows made ps)

    listed-All :
        (agent : Option Text) (status : Option IntentStatus) (n : ℕ)
        → All
            (λ r. Memᴰ r db.intents × (is_listed svc.tenant_id agent status r ≡ true))
            (listed svc agent status n db)
    unfolding listed
    listed-All agent status n =
        All-limited _ n _ (All-newest_first _ _ (All-select _ _ db.intents λ r m t. (m, t)))

    pub views_of-Shows :
        (agent : Option Text) (status : Option IntentStatus) (n : ℕ) {views : List IntentView}
        → n ≤ 200
        → views_of svc (listed svc agent status n db) db ≡ ok views
        → Shows agent status db views
    unfolding listed
    views_of-Shows agent status n {views} small h =
        let rows = select (is_listed svc.tenant_id agent status) db.intents in
        let same = views_of-intents (listed svc agent status n db) h in
        (
          All-regroup views (views_of-All _ _ h (listed-All agent status n)),
          subst Descends (sym same) (limited-Descends n _ (newest_first-Descends rows)),
          omega (arith, ap length same, length-limited n (newest_first rows), small),
        )
      where
        All-regroup :
            (vs : List IntentView)
            → All
                (λ v.
                  (Memᴰ v.intent db.intents
                    × (is_listed svc.tenant_id agent status v.intent ≡ true))
                  × IsVerified db v.intent)
                vs
            → All (Shown agent status db) vs
        All-regroup [] ps = tt
        All-regroup (v ∷ vs) (((m, t), ok_report), ps) = ((m, t, ok_report), All-regroup vs ps)
