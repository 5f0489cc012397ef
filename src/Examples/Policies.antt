-- ===== src/Examples/Policies.antt =====
-- The policy and the hashed texts on sample proposals.
use parimit.Common.{◌+◌, ◌≤◌, ◌≡◌, ◌↔◌, false, true, some, length, last, ltb, if◌then◌else◌}
use parimit.Text.{lower}
use parimit.Database.{empty}
use parimit.Service.Policy.{decide_policy, daily_exposure, has, is_unlisted, approval_reason}
use parimit.Service.Policy.Laws.{decide_policy-allowed, decide_policy-reasons}
use parimit.Examples.{sample_service, sample_proposal}

decide_policy-allowed_example :
    ((decide_policy sample_service sample_proposal 1704067200000 empty).allowed ≡ true) ↔ (
      (sample_proposal.amount_minor ≤ sample_service.policy.per_transaction_limit_minor)
      × (daily_exposure sample_service sample_proposal.agent_id 1704067200000 empty
            + sample_proposal.amount_minor
          ≤ sample_service.policy.daily_agent_limit_minor)
      × (has sample_service.policy.blocked_payees (lower sample_proposal.payee_reference) ≡ false)
      × (is_unlisted sample_service.policy.allowed_payees (lower sample_proposal.payee_reference)
          ≡ false))
decide_policy-allowed_example =
    decide_policy-allowed sample_service sample_proposal 1704067200000 empty

decide_policy-reasons_example :
    let decision = decide_policy sample_service sample_proposal 1704067200000 empty in
    (decision.required_approvals ≡ (
      if ltb sample_service.policy.dual_approval_threshold_minor sample_proposal.amount_minor
      then 2
      else 1))
    × (last decision.reasons ≡ some (approval_reason decision.required_approvals))
    × ((decision.allowed ≡ true) ↔ (length decision.reasons ≡ 1))
decide_policy-reasons_example =
    decide_policy-reasons sample_service sample_proposal 1704067200000 empty
