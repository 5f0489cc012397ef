-- ===== src/Exec/Yields.antt =====
-- What a method's work has done where it returned, one rule for each way to go on.
use parimit.Common.{◌≡◌, refl, subst, Bool, true, false, if◌then◌else◌}
use parimit.Database.{Database}
use parimit.Result.{Result, ok, err, ParimitError}
use parimit.Exec.{Step, Action, World, resume, store, finish}

-- `p` threw, or returned a value and a world that satisfy `P`.
pub data Yields {A S : Type 0} (P : A → S → Type 0) : Result A × S → Type 0 where
  returns : {a : A} {w : S} → P a w → Yields P (ok a, w)
  throws : {e : ParimitError} {w : S} → Yields P (err e, w)

module _ {S A B : Type 0} {P : B → S → Type 0} where
  -- The rest may use that the step returned `a`.
  pub Yields-result :
      (k : A → Step S B) (r : Result A) (v : S)
      → ((a : A) → r ≡ ok a → Yields P (k a v))
      → Yields P (resume k r v)
  unfolding resume
  Yields-result k (ok a) v h = h a refl
  Yields-result k (err e) v h = throws

  -- The rest may use what the step has done.
  pub Yields-then :
      {Q : A → S → Type 0} (k : A → Step S B) {p : Result A × S}
      → Yields Q p
      → ((a : A) (v : S) → Q a v → Yields P (k a v))
      → Yields P (resume k p.0 p.1)
  unfolding resume
  Yields-then k (returns {a} {w} q) h = h a w q
  Yields-then k throws h = throws

  pub Yields-ok :
      (k : A → Step S B) (a : A) (v : S) → Yields P (k a v) → Yields P (resume k (ok a) v)
  unfolding resume
  Yields-ok k a v h = h

module _ {S B : Type 0} {P : B → S → Type 0} where
  -- The last step changes nothing.
  pub Yields-lift : (r : Result B) (w : S) → ((b : B) → r ≡ ok b → P b w) → Yields P (r, w)
  Yields-lift (ok b) w h = returns (h b refl)
  Yields-lift (err e) w h = throws

  pub Yields-if :
      (b : Bool) (m n : Step S B) (w : S)
      → (b ≡ true → Yields P (m w))
      → (b ≡ false → Yields P (n w))
      → Yields P ((if b then m else n) w)
  Yields-if true m n w t f = t refl
  Yields-if false m n w t f = f refl

module _ {B : Type 0} {P : B → World → Type 0} where
  pub Yields-store :
      (k : Unit {0} → Action B) (r : Result Database) (w : World)
      → ((db : Database) → r ≡ ok db → Yields P (k tt (record w { db = db })))
      → Yields P (resume k (store w r).0 (store w r).1)
  unfolding resume store
  Yields-store k (ok db) w h = h db refl
  Yields-store k (err e) w h = throws

-- A write at the end, and a transaction.
module _ {P : Unit {0} → World → Type 0} where
  pub Yields-stored :
      (w : World) (r : Result Database)
      → ((db : Database) → r ≡ ok db → P tt (record w { db = db }))
      → Yields P (store w r)
  unfolding store
  Yields-stored w (ok db) h = returns (h db refl)
  Yields-stored w (err e) h = throws

  pub Yields-finish :
      (w : World) {p : Result (Unit {0}) × World} → Yields P p → Yields P (finish w p)
  unfolding finish
  Yields-finish w (returns q) = returns q
  Yields-finish w throws = throws

pub Yields-weaken :
    {A S : Type 0} {P Q : A → S → Type 0} {r : Result A × S}
    → ((a : A) (w : S) → P a w → Q a w)
    → Yields P r
    → Yields Q r
Yields-weaken h (returns p) = returns (h _ _ p)
Yields-weaken h throws = throws

-- What was returned is the value and the state of the step.
pub Yields-here :
    {A S : Type 0} {P : A → S → Type 0} {r : Result A × S}
    → Yields P r
    → Yields (λ a w. P a w × (r ≡ (ok a, w))) r
Yields-here (returns p) = returns (p, refl)
Yields-here throws = throws

-- `P` of what was returned.
abbrev Holds : {A S : Type 0} → (A → S → Type 0) → Result A × S → Type 0
Holds P (ok a, w) = P a w
Holds P (err e, w) = Unit {0}

Yields-Holds : {A S : Type 0} {P : A → S → Type 0} {p : Result A × S} → Yields P p → Holds P p
Yields-Holds (returns q) = q
Yields-Holds throws = tt

pub Yields-returned :
    {A S : Type 0} {P : A → S → Type 0} (p : Result A × S) {a : A} {w : S}
    → Yields P p
    → p ≡ (ok a, w)
    → P a w
Yields-returned {P} p y e = subst (Holds P) e (Yields-Holds y)
