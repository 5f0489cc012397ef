-- ===== src/Service/Integrity/Reporting.antt =====
-- The flags of an integrity report and its list of failures agree.
use parimit.Common.{◌≡◌, refl, sym, ◌∙◌, true, false, not, List, [], ◌∷◌, arith, any, of_negated}
use parimit.Text.{Text}
use parimit.Database.{Database}
use parimit.Service.{Service}
use parimit.Service.Integrity.{Evidence, findings}
use parimit.Service.Integrity.Failures.{
  Finding, cleared, failed, intent_hash, approval_receipts, audit_chain, state_consistency, report,
}
use parimit.Service.Integrity.Agreement.{is_cleared, is_failed, findings-Agrees}

-- Without a cleared flag the report is valid, and with one it is not.
valid_is : (fs : List Finding) → (report fs).valid ≡ not (any is_cleared fs)
unfolding report
valid_is [] = refl
valid_is (failed t ∷ fs) = valid_is fs
valid_is (cleared intent_hash ∷ fs) = refl
valid_is (cleared approval_receipts ∷ fs) = ground arith
valid_is (cleared audit_chain ∷ fs) = ground arith
valid_is (cleared state_consistency ∷ fs) = ground arith

no_effects : (fs : List Finding) → any is_cleared fs ≡ false → any is_failed fs ≡ false → fs ≡ []
no_effects [] c f = refl
no_effects (cleared k ∷ fs) c f = cc
no_effects (failed t ∷ fs) c f = cc

pub findings-eq-nil :
    (svc : Service) (id : Text) (e : Evidence)
    → (report (findings svc id e)).valid ≡ true
    → findings svc id e ≡ []
findings-eq-nil svc id e h =
    let agrees = findings-Agrees svc id e in
    let none_cleared = of_negated _ (sym (valid_is (findings svc id e)) ∙ h) in
    no_effects (findings svc id e) none_cleared (sym agrees.same ∙ none_cleared)
