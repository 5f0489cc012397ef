-- ===== src/Service/History.antt =====
-- How the rows of proposals change over time.
pub mod Writes
pub mod Runs
pub mod Appends
use parimit.Common.{
  ℕ, suc, ◌+◌, ◌<◌, ◌≡◌, refl, ◌∙◌, ◌⊎◌, inl, inr, Bool, true, false, List, [], ◌∷◌, ◌++◌, arith,
  if◌then◌else◌, Bool-cases,
}
use parimit.Text.{Text}
use parimit.Types.{IntentStatus, awaiting_approval, is_awaiting}
use parimit.Database.{IntentRow, is_open, is_intent, advance, advance_rows}

-- `y` is the row `x` at a later time: its status may have changed if it was awaiting approval, and then
-- its state version has grown; nothing else ever changes.
pub record Later (x y : IntentRow) : Type 0 where
  pub same : y ≡ record x { status = y.status; state_version = y.state_version }
  pub moved :
      ((y.status ≡ x.status) × (y.state_version ≡ x.state_version))
      ⊎ ((x.status ≡ awaiting_approval) × (x.state_version < y.state_version))

-- Each row of the first table stands, at a later time, at its place in the second.
abbrev pub Evolves : List IntentRow → List IntentRow → Type 0
Evolves [] ys = Unit {0}
Evolves (x ∷ xs) [] = ⊥
Evolves (x ∷ xs) (y ∷ ys) = Later x y × Evolves xs ys

pub Later-refl : (x : IntentRow) → Later x x
Later-refl x = record { same = refl; moved = inl (refl, refl) }

pub Later-trans : (x y z : IntentRow) → Later x y → Later y z → Later x z
Later-trans x y z p q = record { same = ground arith; moved = ground arith }

pub Evolves-refl : (xs : List IntentRow) → Evolves xs xs
Evolves-refl [] = tt
Evolves-refl (x ∷ xs) = (Later-refl x, Evolves-refl xs)

pub Evolves-trans : (xs ys zs : List IntentRow) → Evolves xs ys → Evolves ys zs → Evolves xs zs
Evolves-trans [] ys zs p q = tt
Evolves-trans (x ∷ xs) [] zs p q = absurd p
Evolves-trans (x ∷ xs) (y ∷ ys) [] p q = absurd q
Evolves-trans (x ∷ xs) (y ∷ ys) (z ∷ zs) (p, ps) (q, qs) =
    (Later-trans x y z p q, Evolves-trans xs ys zs ps qs)

pub Evolves-append : (xs : List IntentRow) (r : IntentRow) → Evolves xs (xs ++ r ∷ [])
Evolves-append [] r = tt
Evolves-append (x ∷ xs) r = (Later-refl x, Evolves-append xs r)

advance-Later :
    (tenant id : Text) (next : IntentStatus) (x : IntentRow)
    → Later x (if is_open tenant id x then advance next x else x)
advance-Later tenant id next x = elim (Bool-cases (is_open tenant id x)) [
  | inl open_ ↦ rw open_ (record { same = refl; moved = inr (ground arith, omega arith) })
  | inr shut ↦ rw shut (Later-refl x)
]

pub Evolves-advance :
    (tenant id : Text) (next : IntentStatus) (xs : List IntentRow)
    → Evolves xs (advance_rows tenant id next xs)
unfolding advance_rows
Evolves-advance tenant id next [] = tt
Evolves-advance tenant id next (x ∷ xs) =
    (advance-Later tenant id next x, Evolves-advance tenant id next xs)
