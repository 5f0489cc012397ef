-- ===== src/Service/Limits.antt =====
-- The exposure of an agent, `dailyExposure`, as the table of proposals changes.
pub mod Writes
use parimit.Common.{
  ℕ, ◌+◌, ◌≤◌, ◌≡◌, refl, Bool, true, false, ◌&&◌, ◌||◌, List, [], ◌∷◌, ◌++◌, leb, ◌==◌,
  if◌then◌else◌, arith, Bool-cases, inl, inr,
}
use parimit.Text.{Text, text_eq}
use parimit.Types.{IntentStatus, is_awaiting, is_authorized}
use parimit.Database.{IntentRow, is_open, advance, advance_rows}
use parimit.Service.{Service}
use parimit.Service.Policy.{is_exposed, exposure_from}

module _ (svc : Service) (agent : Text) where
  exposure_of : ℕ → IntentRow → ℕ
  exposure_of start r = if is_exposed svc agent start r then r.amount_minor else 0

  exposed-advance :
      (start : ℕ) (tenant id : Text) (next : IntentStatus) (r : IntentRow)
      → (if is_exposed svc agent start (if is_open tenant id r then advance next r else r)
          then (if is_open tenant id r then advance next r else r).amount_minor
          else 0)
        ≤ (if is_exposed svc agent start r then r.amount_minor else 0)
  exposed-advance start tenant id next r = elim (Bool-cases (is_open tenant id r)) [
    | inl e ↦ rw e (ground arith)
    | inr e ↦ rw e (omega arith)
  ]

  -- An UPDATE never raises it.
  pub exposure-advance :
      (start : ℕ) (tenant id : Text) (next : IntentStatus) (rows : List IntentRow)
      → exposure_from svc agent start (advance_rows tenant id next rows)
        ≤ exposure_from svc agent start rows
  unfolding advance_rows
  exposure-advance start tenant id next [] = omega arith
  exposure-advance start tenant id next (r ∷ rows) =
      omega
        (arith, exposure-advance start tenant id next rows, exposed-advance start tenant id next r)

  pub exposure-append :
      (start : ℕ) (rows : List IntentRow) (r : IntentRow)
      → exposure_from svc agent start (rows ++ r ∷ [])
        ≡ exposure_from svc agent start rows
          + (if is_exposed svc agent start r then r.amount_minor else 0)
  exposure-append start [] r = omega arith
  exposure-append start (x ∷ rows) r = omega (arith, exposure-append start rows r)

  exposed-later :
      (s s' : ℕ) (r : IntentRow)
      → s ≤ s'
      → (if is_exposed svc agent s' r then r.amount_minor else 0)
        ≤ (if is_exposed svc agent s r then r.amount_minor else 0)
  exposed-later s s' r le = ground arith

  -- Counted from a later time, it is at most as much.
  pub exposure-later :
      (s s' : ℕ) (rows : List IntentRow)
      → s ≤ s'
      → exposure_from svc agent s' rows ≤ exposure_from svc agent s rows
  exposure-later s s' [] le = omega arith
  exposure-later s s' (r ∷ rows) le =
      omega (arith, exposure-later s s' rows le, exposed-later s s' r le)
