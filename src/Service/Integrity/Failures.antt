-- ===== src/Service/Integrity/Failures.antt =====
-- The failures that `verifyIntegrity` collects, and its report.
use parimit.Common.{
  ◌≡◌, refl, Bool, true, false, not, ◌&&◌, List, [], ◌∷◌, ◌++◌, if◌then◌else◌, any, all,
}
use parimit.Text.{Text, text_eq}

-- Which of the report's flags a failure clears.
pub data Kind : Type 0 where
  intent_hash approval_receipts audit_chain state_consistency : Kind

-- What a failed check does: it clears a flag, or it calls `addFailure`.
pub data Finding : Type 0 where
  cleared : Kind → Finding
  failed : Text → Finding

pub record Report : Type 0 where
  pub valid : Bool
  pub intent_hash_valid : Bool
  pub approval_receipts_valid : Bool
  pub audit_chain_valid : Bool
  pub state_consistency_valid : Bool
  pub failures : List Text

-- `if (!condition) { ... }`
unfoldable pub unless : Bool → List Finding → List Finding
unless true effects = []
unless false effects = effects

pub unless-eq-nil : (b : Bool) (f : Finding) (fs : List Finding) → unless b (f ∷ fs) ≡ [] → b ≡ true
unfolding unless
unless-eq-nil true f fs h = refl
unless-eq-nil false f fs h = cc

-- `addStateFailure`
abbrev pub add_state_failure : Text → List Finding
add_state_failure failure = cleared state_consistency ∷ failed failure ∷ []

-- `if (!condition) addStateFailure(failure)`
abbrev pub check : Bool → Text → List Finding
check condition failure = unless condition (add_state_failure failure)

abbrev pub is_kind : Kind → Kind → Bool
is_kind intent_hash intent_hash = true
is_kind approval_receipts approval_receipts = true
is_kind audit_chain audit_chain = true
is_kind state_consistency state_consistency = true
is_kind _ _ = false

abbrev pub clears : Kind → Finding → Bool
clears kind (cleared k) = is_kind kind k
clears kind (failed t) = false

abbrev pub free_of : Kind → List Finding → Bool
free_of kind fs = all (λ f. not (clears kind f)) fs

-- `addFailure`, which keeps the first of equal failures.
unfoldable pub add_failures : List Text → List Finding → List Text
add_failures failures [] = failures
add_failures failures (cleared k ∷ fs) = add_failures failures fs
add_failures failures (failed t ∷ fs) =
    add_failures (if any (λ u. text_eq u t) failures then failures else failures ++ t ∷ []) fs

unfoldable pub report : List Finding → Report
report fs = record {
  valid =
      free_of intent_hash fs
      && (free_of approval_receipts fs && (free_of audit_chain fs && free_of state_consistency fs));
  intent_hash_valid = free_of intent_hash fs;
  approval_receipts_valid = free_of approval_receipts fs;
  audit_chain_valid = free_of audit_chain fs;
  state_consistency_valid = free_of state_consistency fs;
  failures = add_failures [] fs;
}
