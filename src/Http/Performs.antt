-- ===== src/Http/Performs.antt =====
-- Actions that change the service by calls of its methods only, one rule for each way to build one.
use parimit.Common.{◌≡◌, refl, sym, ◌∙◌, List, [], ◌∷◌, ◌++◌, All}
use parimit.Result.{Result, ok, err}
use parimit.Exec.{Action, World, ◌>>=◌, resume, lift, pure}
use parimit.Service.{Service}
use parimit.Service.Methods.Calls.{Call, serve, run, discard}

All-append : (P : Call → Type 0) (xs ys : List Call) → All P xs → All P ys → All P (xs ++ ys)
All-append P [] ys p q = q
All-append P (x ∷ xs) ys (h, p) q = (h, All-append P xs ys p q)

All-any : (calls : List Call) → All (λ c. Unit {0}) calls
All-any [] = tt
All-any (c ∷ calls) = (tt, All-any calls)

module _ (svc : Service) where
  pub run-append :
      (xs ys : List Call) (w : World) → run svc (xs ++ ys) w ≡ run svc ys (run svc xs w)
  unfolding run
  run-append [] ys w = refl
  run-append (c ∷ xs) ys w = run-append xs ys (serve svc c w).1

  pub discard-world : {A : Type 0} (m : Action A) (w : World) → (discard m w).1 ≡ (m w).1
  unfolding resume
  discard-world {A} m w = ending (m w)
    where
      ending : (p : Result A × World) → (resume (λ _. pure tt) p.0 p.1).1 ≡ p.1
      ending (ok a, v) = refl
      ending (err e, v) = refl

  -- From `w` on, `m` changes the service as a list of calls does that all satisfy `P`.
  pub record Performed (P : Call → Type 0) (w w' : World) : Type 0 where
    pub calls : List Call
    pub permitted : All P calls
    pub ran : w' ≡ run svc calls w

  pub record Performs {A : Type 0} (P : Call → Type 0) (m : Action A) : Type 0 where
    pub at : (w : World) → Performed P w (m w).1

  module _ {P : Call → Type 0} where
    pub Performed-none : (w : World) → Performed P w w
    unfolding run
    Performed-none w = record { calls = []; permitted = tt; ran = refl }

    pub Performed-trans :
        {w w' w'' : World} → Performed P w w' → Performed P w' w'' → Performed P w w''
    Performed-trans {w} p q = record {
      calls = p.calls ++ q.calls;
      permitted = All-append P p.calls q.calls p.permitted q.permitted;
      ran = q.ran ∙ rw (p.ran) (sym (run-append p.calls q.calls w));
    }

    pub Performed-any : {w w' : World} → Performed P w w' → Performed (λ c. Unit {0}) w w'
    Performed-any p = record { calls = p.calls; permitted = All-any p.calls; ran = p.ran }

    -- A step that leaves the service alone.
    pub Performs-still : {A : Type 0} (m : Action A) → ((w : World) → (m w).1 ≡ w) → Performs P m
    Performs-still m same = record { at = λ w. rw (same w) (Performed-none w) }

    -- A call of a method.
    pub Performs-call :
        {A : Type 0} (m : Action A) (c : Call)
        → P c
        → ((w : World) → (m w).1 ≡ (serve svc c w).1)
        → Performs P m
    unfolding run
    Performs-call m c p same = record {
      at = λ w. record { calls = c ∷ []; permitted = (p, tt); ran = same w };
    }

    -- A call of a method whose result is used.
    pub Performs-method :
        {A : Type 0} (m : Action A) (c : Call) → P c → serve svc c ≡ discard m → Performs P m
    Performs-method m c p same = Performs-call m c p λ w. rw same (sym (discard-world m w))

    pub Performs-bind :
        {A B : Type 0} (m : Action A) (f : A → Action B)
        → Performs P m
        → ((a : A) → Performs P (f a))
        → Performs P (m >>= f)
    unfolding resume
    Performs-bind {A} {B} m f p q = record { at = λ w. going w (m w).0 (m w).1 (p.at w) }
      where
        going :
            (w : World) (r : Result A) (v : World)
            → Performed P w v
            → Performed P w (resume f r v).1
        going w (ok a) v c = Performed-trans c ((q a).at v)
        going w (err e) v c = c

    -- What a test has let through may be used.
    pub Performs-test :
        {A B : Type 0} (r : Result A) (f : A → Action B)
        → ((a : A) → r ≡ ok a → Performs P (f a))
        → Performs P (lift r >>= f)
    unfolding resume
    Performs-test (ok a) f q = q a refl
    Performs-test (err e) f q = record { at = λ w. Performed-none w }
