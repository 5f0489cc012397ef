-- ===== src/Service/Freeze.antt =====
-- `IN_DOUBT_FROZEN`: nothing is observed of a proposal after IN_DOUBT.
pub mod Writes
use parimit.Common.{
  ℕ, ◌+◌, ◌≤◌, ◌≡◌, refl, sym, subst, ap, ◌∙◌, Bool, true, false, not, Option, none, some, List, [],
  ◌∷◌, ◌++◌, All, arith, leb, last, select, select-append_one, select-skip, last-append, Bool-cases,
  inl, inr, if◌then◌else◌, le→leb,
}
use parimit.Text.{Text, text_eq, text_eq_iff}
use parimit.Types.{is_in_doubt}
use parimit.Database.{ObservationRow, AuditRow, latest_of, is_event_of}
use parimit.Service.Audit.{is_before}
use parimit.Service.Methods.Observe.{is_frozen}

-- The observations from `t` on, each not before the one in front of it.
abbrev pub InOrder : ℕ → List ObservationRow → Type 0
InOrder t [] = Unit {0}
InOrder t (o ∷ os) = (t ≤ o.observed_at) × InOrder o.observed_at os

-- Only the last one may be IN_DOUBT.
abbrev pub StopsInDoubt : List ObservationRow → Type 0
StopsInDoubt [] = Unit {0}
StopsInDoubt (o ∷ []) = Unit {0}
StopsInDoubt (o ∷ p ∷ os) = (is_in_doubt o.status ≡ false) × StopsInDoubt (p ∷ os)

-- Some event has happened, at `t` or later.
abbrev pub IsRecordedBy : Option AuditRow → ℕ → Type 0
IsRecordedBy none t = ⊥
IsRecordedBy (some e) t = t ≤ e.occurred_at

abbrev pub is_observed_of : Text → ObservationRow → Bool
is_observed_of id o = text_eq o.intent_id id

-- The observations and the events of one proposal.
pub record Settled (observations : List ObservationRow) (events : List AuditRow) : Type 0 where
  pub order : InOrder 0 observations
  pub stops : StopsInDoubt observations
  pub recorded : All (λ o. IsRecordedBy (last events) o.observed_at) observations

All-map {ℓ κ μ} :
    {A : Type ℓ} {P : A → Type κ} {Q : A → Type μ} (xs : List A)
    → ((x : A) → P x → Q x)
    → All P xs
    → All Q xs
All-map [] f a = tt
All-map (x ∷ xs) f (p, a) = (f x p, All-map xs f a)

All-append {ℓ κ} :
    {A : Type ℓ} (P : A → Type κ) (xs : List A) (y : A) → All P xs → P y → All P (xs ++ y ∷ [])
All-append P [] y a p = (p, tt)
All-append P (x ∷ xs) y (q, a) p = (q, All-append P xs y a p)

InOrder-append :
    (t : ℕ) (os : List ObservationRow) (o : ObservationRow)
    → InOrder t os
    → All (λ p. p.observed_at ≤ o.observed_at) os
    → t ≤ o.observed_at
    → InOrder t (os ++ o ∷ [])
InOrder-append t [] o i a le = (le, tt)
InOrder-append t (p ∷ os) o (first, i) (below, a) le =
    (first, InOrder-append p.observed_at os o i a below)

StopsInDoubt-append :
    (os : List ObservationRow) (o : ObservationRow)
    → StopsInDoubt os
    → is_frozen (last os) ≡ false
    → StopsInDoubt (os ++ o ∷ [])
StopsInDoubt-append [] o s h = tt
StopsInDoubt-append (p ∷ []) o s h = (h, tt)
StopsInDoubt-append (p ∷ q ∷ os) o (clear, s) h = (clear, StopsInDoubt-append (q ∷ os) o s h)

latest_of-some :
    (b : ObservationRow) (os : List ObservationRow)
    → InOrder b.observed_at os
    → latest_of (some b) os ≡ last (b ∷ os)
unfolding latest_of
latest_of-some b [] i = refl
latest_of-some b (o ∷ os) (le, i) = rw (le→leb _ _ le) (latest_of-some o os i)

-- The latest observation in time is the last one stored.
pub latest_of-last : (os : List ObservationRow) → InOrder 0 os → latest_of none os ≡ last os
unfolding latest_of
latest_of-last [] i = refl
latest_of-last (o ∷ os) (le, i) = latest_of-some o os i

recorded_before :
    (at : ℕ) (e : Option AuditRow) (t : ℕ) → is_before at e ≡ false → IsRecordedBy e t → t ≤ at
recorded_before at none t h r = absurd r
recorded_before at (some e) t h r = ground arith

module _ (os : List ObservationRow) (es : List AuditRow) (e : AuditRow) (before : Settled os es)
    (later : is_before e.occurred_at (last es) ≡ false) where
  All-before : All (λ o. o.observed_at ≤ e.occurred_at) os
  All-before =
      All-map os (λ o. recorded_before e.occurred_at (last es) o.observed_at later) before.recorded

  pub Settled-event : Settled os (es ++ e ∷ [])
  Settled-event = record {
    order = before.order;
    stops = before.stops;
    recorded = rw (last-append es e) All-before;
  }

  pub Settled-observation :
      (o : ObservationRow)
      → o.observed_at ≡ e.occurred_at
      → is_frozen (latest_of none os) ≡ false
      → Settled (os ++ o ∷ []) (es ++ e ∷ [])
  Settled-observation o same thawed = record {
    order =
        InOrder-append 0 os o before.order (All-map os (λ p le. rw same le) All-before)
          (omega arith);
    stops =
        StopsInDoubt-append os o before.stops
          (ap is_frozen (sym (latest_of-last os before.order)) ∙ thawed);
    recorded = rw (last-append es e) (All-append _ os o All-before (omega (arith, same)));
  }

-- The tables, with one more event of the proposal `id` at the time `at`.
module _ (observations : List ObservationRow) (events : List AuditRow) (e : AuditRow) (id : Text)
    (at : ℕ) (whose : e.intent_id ≡ id) (time : e.occurred_at ≡ at)
    (later : is_before at (last (select (is_event_of id) events)) ≡ false) where
  after_its :
      (name : Text)
      → id ≡ name
      → is_before e.occurred_at (last (select (is_event_of name) events)) ≡ false
  after_its name same =
      rw time (subst (λ n. is_before at (last (select (is_event_of n) events)) ≡ false) same later)

  pub select-event :
      (name : Text)
      → Settled (select (is_observed_of name) observations) (select (is_event_of name) events)
      → Settled
          (select (is_observed_of name) observations)
          (select (is_event_of name) (events ++ e ∷ []))
  select-event name before = elim (Bool-cases (is_event_of name e)) [
    | inl its ↦ rw (select-append_one (is_event_of name) events e its) (
        Settled-event _ _ e before
          (after_its name (sym whose ∙ (text_eq_iff e.intent_id name).0 its)))
    | inr other ↦ rw (select-skip (is_event_of name) events e other) before
  ]

  pub select-observation :
      (name : Text) (o : ObservationRow)
      → o.intent_id ≡ id
      → o.observed_at ≡ at
      → is_frozen (latest_of none (select (is_observed_of id) observations)) ≡ false
      → Settled (select (is_observed_of name) observations) (select (is_event_of name) events)
      → Settled
          (select (is_observed_of name) (observations ++ o ∷ []))
          (select (is_event_of name) (events ++ e ∷ []))
  select-observation name o of_id at_time thawed before = elim (Bool-cases (text_eq id name)) [
    | inl its ↦
        let same = (text_eq_iff id name).0 its in
        rw
          (
            select-append_one (is_event_of name) events e (ap (λ i. text_eq i name) whose ∙ its),
            select-append_one (is_observed_of name) observations o
                (ap (λ i. text_eq i name) of_id ∙ its),
          )
          (Settled-observation _ _ e before (after_its name same) o (at_time ∙ sym time) (
            subst (λ n. is_frozen (latest_of none (select (is_observed_of n) observations)) ≡ false)
              same thawed))
    | inr other ↦
        rw
          (
            select-skip (is_event_of name) events e (ap (λ i. text_eq i name) whose ∙ other),
            select-skip (is_observed_of name) observations o
                (ap (λ i. text_eq i name) of_id ∙ other),
          )
          before
  ]
