-- ===== src/Service/Policy/Laws.antt =====
-- What `decidePolicy` decides.
use parimit.Common.{
  ℕ, ◌+◌, ◌≤◌, ◌≡◌, refl, sym, subst, ◌↔◌, Bool, true, false, not, ◌&&◌, some, List, [], ◌∷◌, ◌++◌,
  ltb, if◌then◌else◌, length, last, last-append, length-append, arith,
}
use parimit.Text.{Text, lower}
use parimit.Types.{Proposal}
use parimit.Database.{Database}
use parimit.Service.{Service}
use parimit.Service.Policy.{
  decide_policy, denial_reasons, required_approvals_of, approval_reason, daily_exposure, has,
  is_unlisted, flag, is_nil,
}

is_nil-flags :
    (a b c d : Bool) (t u v w : Text)
    → is_nil (flag a t ++ flag b u ++ flag c v ++ flag d w) ≡ not a && (not b && (not c && not d))
is_nil-flags true b c d t u v w = refl
is_nil-flags false true c d t u v w = refl
is_nil-flags false false true d t u v w = refl
is_nil-flags false false false true t u v w = refl
is_nil-flags false false false false t u v w = refl

is_nil-length {ℓ} :
    {A : Type ℓ} (xs : List A) (y : A) → (is_nil xs ≡ true) ↔ (length (xs ++ y ∷ []) ≡ 1)
is_nil-length [] y = (λ _. refl, λ _. refl)
is_nil-length (x ∷ xs) y = (λ h. cc, λ h. absurd (omega (arith, length-append xs (y ∷ []), h)))

within_limits :
    (m n p q : ℕ) (b u : Bool)
    → ((not (ltb m n) && (not (ltb p q) && (not b && not u))) ≡ true)
      ↔ ((n ≤ m) × (q ≤ p) × (b ≡ false) × (u ≡ false))
within_limits m n p q b u = ground arith

module _ (svc : Service) (input : Proposal) (at : ℕ) (db : Database) where
  -- A proposal is allowed exactly when its amount is within the limit per transaction, its agent's
  -- exposure of the day with it is within the daily limit, its payee is not blocked and, where
  -- there is an allowlist, its payee is on it.
  pub decide_policy-allowed : ((decide_policy svc input at db).allowed ≡ true) ↔ (
      (input.amount_minor ≤ svc.policy.per_transaction_limit_minor)
      × (daily_exposure svc input.agent_id at db + input.amount_minor
          ≤ svc.policy.daily_agent_limit_minor)
      × (has svc.policy.blocked_payees (lower input.payee_reference) ≡ false)
      × (is_unlisted svc.policy.allowed_payees (lower input.payee_reference) ≡ false))
  unfolding decide_policy denial_reasons
  decide_policy-allowed =
      subst
        (λ b. (b ≡ true) ↔ (
          (input.amount_minor ≤ svc.policy.per_transaction_limit_minor)
          × (daily_exposure svc input.agent_id at db + input.amount_minor
              ≤ svc.policy.daily_agent_limit_minor)
          × (has svc.policy.blocked_payees (lower input.payee_reference) ≡ false)
          × (is_unlisted svc.policy.allowed_payees (lower input.payee_reference) ≡ false)))
        (sym (is_nil-flags _ _ _ _ _ _ _ _)) (within_limits _ _ _ _ _ _)

  -- Two distinct approvals are required above the threshold and one otherwise, the reasons end with
  -- the one that says so, and they hold nothing else exactly when the proposal is allowed.
  pub decide_policy-reasons :
      let decision = decide_policy svc input at db in
      (decision.required_approvals
        ≡ (if ltb svc.policy.dual_approval_threshold_minor input.amount_minor then 2 else 1))
      × (last decision.reasons ≡ some (approval_reason decision.required_approvals))
      × ((decision.allowed ≡ true) ↔ (length decision.reasons ≡ 1))
  unfolding decide_policy required_approvals_of
  decide_policy-reasons =
      let projected = daily_exposure svc input.agent_id at db + input.amount_minor in
      let denials = denial_reasons svc input projected in
      (refl, last-append denials _, is_nil-length denials _)
