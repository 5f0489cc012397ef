-- ===== src/Service/Methods/Listing/Outcome.antt =====
-- What a call of `listIntents` returns.
use parimit.Common.{ℕ, ◌≤◌, ◌≡◌, refl, Option, none, some, List}
use parimit.Text.{Text}
use parimit.Types.{IntentStatus}
use parimit.Result.{Result, ok, err}
use parimit.Exec.{World}
use parimit.Exec.Yields.{Yields, returns, throws, Yields-result, Yields-returned}
use parimit.Service.{Service}
use parimit.Service.Validation.Laws.{in_range-eq-ok}
use parimit.Service.Methods.Read.{IntentView}
use parimit.Service.Methods.Listing.{require_limit}
use parimit.Service.Methods.Listing.Query.{list_intents}
use parimit.Service.Methods.Listing.Shown.{Shows, views_of-Shows}

require_limit-le : (limit : Option ℕ) {n : ℕ} → require_limit limit ≡ ok n → n ≤ 200
unfolding require_limit
require_limit-le none h = (in_range-eq-ok 200 100 h).1
require_limit-le (some n) h = (in_range-eq-ok 200 n h).1

Yields-query :
    {A : Type 0} {P : A → World → Type 0} (r : Result A) (w : World)
    → ((a : A) → r ≡ ok a → P a w)
    → Yields P (r, w)
Yields-query (ok a) w h = returns (h a refl)
Yields-query (err e) w h = throws

module _ (svc : Service) (agent : Option Text) (status : Option IntentStatus)
    (limit : Option ℕ) where
  list_intents-Yields :
      (w : World)
      → Yields
          (λ views v. Shows svc agent status v.db views)
          (list_intents svc agent status limit w)
  unfolding list_intents
  list_intents-Yields w = Yields-result _ _ _ λ _ _.
      Yields-result _ (require_limit limit) _ λ n small.
        Yields-query _ _
          λ views h. views_of-Shows svc _ agent status n (require_limit-le limit small) h

  -- Where `listIntents` returns, it shows at most 200 proposals, the newest first; each is stored in
  -- the database that the call leaves, passes the filters, and has a report that is valid.
  pub list_intents-Shows :
      (w : World) {views : List IntentView} {v : World}
      → list_intents svc agent status limit w ≡ (ok views, v)
      → Shows svc agent status v.db views
  list_intents-Shows w h = Yields-returned _ (list_intents-Yields w) h
