-- ===== src/Exec.antt =====
-- A method call of the service: it may throw, and it reads and writes the database, the clock and the
-- random source. What was committed before a throw stays; `transaction` rolls the database back.
pub mod Yields
use parimit.Common.{ℕ, Bool, Option}
use parimit.Database.{Database}
use parimit.Result.{Result, ok, err, ErrorCode, fail, fail_if, required}

-- The counters say how often the clock and the random source were read; no rollback resets them.
pub record World : Type 0 where
  pub db : Database
  pub clock_reads : ℕ
  pub uuid_reads : ℕ
  pub bytes_reads : ℕ

-- A step that may throw, on a state `S`.
abbrev pub Step : Type 0 → Type 0 → Type 0
Step S A = S → Result A × S

abbrev pub Action : Type 0 → Type 0
Action A = Step World A

module _ {S A : Type 0} where
  abbrev pub pure : A → Step S A
  pure a w = (ok a, w)

  abbrev pub lift : Result A → Step S A
  lift r w = (r, w)

  abbrev pub throw : ErrorCode → ℕ → Step S A
  throw code status w = (fail code status, w)

module _ {A : Type 0} where
  -- A `SELECT`.
  abbrev pub query : (Database → A) → Action A
  query q w = (ok (q w.db), w)

  abbrev pub query_required : (Database → Option A) → Action A
  query_required q w = (required (q w.db), w)

  -- A method that reads and may throw.
  abbrev pub query_result : (Database → Result A) → Action A
  query_result q w = (q w.db, w)

  unfoldable pub finish : World → Result A × World → Result A × World
  finish before (ok a, w) = (ok a, w)
  finish before (err e, w) = (err e, record w { db = before.db })

  -- `transaction`: BEGIN IMMEDIATE, then COMMIT, or ROLLBACK and rethrow.
  unfoldable pub transaction : Action A → Action A
  unfolding finish
  transaction work w = finish w (work w)

-- What follows a step, from how the step ended.
unfoldable pub resume : {S A B : Type 0} → (A → Step S B) → Result A → Step S B
resume f (ok a) v = f a v
resume f (err e) v = (err e, v)

infixl 5 ◌>>=◌ ◌>>◌
abbrev pub ◌>>=◌ : {S A B : Type 0} → Step S A → (A → Step S B) → Step S B
◌>>=◌ m f w = resume f (m w).0 (m w).1

abbrev pub ◌>>◌ : {S A B : Type 0} → Step S A → Step S B → Step S B
m >> k = m >>= λ _. k

abbrev pub throw_if : {S : Type 0} → Bool → ErrorCode → ℕ → Step S (Unit {0})
throw_if b code status w = (fail_if b code status, w)

unfoldable pub store : World → Result Database → Result (Unit {0}) × World
store w (ok db) = (ok tt, record w { db = db })
store w (err e) = (err e, w)

-- A statement that may break a constraint, or a method that writes and may throw.
abbrev pub execute : (Database → Result Database) → Action (Unit {0})
execute f w = store w (f w.db)
