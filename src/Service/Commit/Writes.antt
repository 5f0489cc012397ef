-- ===== src/Service/Commit/Writes.antt =====
-- Actions that write by commits only, one rule for each way to build an action.
use parimit.Common.{◌≡◌, refl}
use parimit.Result.{Result, ok, err}
use parimit.Database.{Database}
use parimit.Exec.{Action, World, ◌>>=◌, transaction, finish, resume, store}
use parimit.Exec.Yields.{Yields, returns, throws}
use parimit.Service.{Service}
use parimit.Service.Commit.{Commits, here, Commits-trans}

module _ (svc : Service) where
  -- `m` writes by commits only.
  pub record Writes {A : Type 0} (m : Action A) : Type 0 where
    pub at : (w : World) → Commits svc w.db (m w).1.db

  module _ {A : Type 0} where
    -- An action that leaves the database alone.
    pub Writes-reads : (m : Action A) → ((w : World) → (m w).1.db ≡ w.db) → Writes m
    Writes-reads m same = record { at = λ w. rw (same w) here }

    -- A transaction leaves what its work wrote, or the database as it was.
    pub finish-Commits :
        (w : World) {p : Result A × World}
        → Yields (λ _ w'. Commits svc w.db w'.db) p
        → Commits svc w.db (finish w p).1.db
    unfolding finish
    finish-Commits w (returns c) = c
    finish-Commits w throws = here

    pub Writes-transaction :
        (m : Action A)
        → ((w : World) → Yields (λ _ w'. Commits svc w.db w'.db) (m w))
        → Writes (transaction m)
    unfolding transaction
    Writes-transaction m done = record { at = λ w. finish-Commits w (done w) }

  module _ {A B : Type 0} where
    pub Writes-bind :
        (m : Action A) (f : A → Action B) → Writes m → ((a : A) → Writes (f a)) → Writes (m >>= f)
    unfolding resume
    Writes-bind m f p q = record { at = λ w. going w (m w).0 (m w).1 (p.at w) }
      where
        going :
            (w : World) (r : Result A) (v : World)
            → Commits svc w.db v.db
            → Commits svc w.db (resume f r v).1.db
        going w (ok a) v c = Commits-trans svc c ((q a).at v)
        going w (err e) v c = c

  pub store-Commits :
      (w : World) (r : Result Database)
      → ((db : Database) → r ≡ ok db → Commits svc w.db db)
      → Yields (λ _ w'. Commits svc w.db w'.db) (store w r)
  unfolding store
  store-Commits w (ok db) h = returns (h db refl)
  store-Commits w (err e) h = throws
