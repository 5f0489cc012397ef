-- ===== src/Service/Configuration/Laws.antt =====
-- What a configured policy guarantees.
use parimit.Common.{
  ℕ, ◌≤◌, ◌≡◌, refl, subst, ◌∙◌, inl, inr, true, false, ◌||◌, some, List, [], ◌∷◌, ◌++◌, ltb,
  leb→le, arith, Memᴰ, Bool-cases, &&-eq-true, if◌then◌else◌,
}
use parimit.Text.{Text, text_eq, text_eq_refl, is_empty, trim, lower}
use parimit.Types.{PolicyConfig}
use parimit.Result.{ok, fail_if, fail_if-eq-ok, >>=-eq-ok, ok_injective}
use parimit.Service.Policy.{has}
use parimit.Service.Validation.{max_safe_integer, is_string}
use parimit.Service.Validation.Laws.{of_not}
use parimit.Service.Configuration.{
  PolicyOptions, or_default, require_safe_positive_integer, require_configuration_string, add_all,
  payee_keys, normalize_payee_set, configure_policy, max_proposal_expiry_seconds,
}

abbrev pub IsSafePositive : ℕ → Type 0
IsSafePositive n = (1 ≤ n) × (n ≤ max_safe_integer)

pub record IsConfigured (options : PolicyOptions) (p : PolicyConfig) : Type 0 where
  pub version : is_string 128 p.rules_version ≡ true
  pub per_transaction : IsSafePositive p.per_transaction_limit_minor
  pub daily : IsSafePositive p.daily_agent_limit_minor
  pub threshold : IsSafePositive p.dual_approval_threshold_minor
  pub default_expiry :
      (1 ≤ p.default_expiry_seconds) × (p.default_expiry_seconds ≤ p.max_expiry_seconds)
  pub max_expiry : p.max_expiry_seconds ≤ max_proposal_expiry_seconds
  -- each payee that the options block is blocked, in whatever case and however padded it was written
  pub blocked :
      (given : List Text) (t : Text)
      → options.blocked_payees ≡ some given
      → Memᴰ t given
      → is_empty (lower (trim t)) ≡ false
      → has p.blocked_payees (lower (trim t)) ≡ true

pub require_safe_positive_integer-eq-ok :
    (n : ℕ) {m : ℕ} → require_safe_positive_integer n ≡ ok m → IsSafePositive m
unfolding require_safe_positive_integer
require_safe_positive_integer-eq-ok n h =
    let (_, tested, returned) = >>=-eq-ok (fail_if _ _ _) _ h in
    let (low, high) = &&-eq-true _ _ (of_not _ (fail_if-eq-ok _ _ _ tested)) in
    subst IsSafePositive (ok_injective returned) (leb→le _ _ low, leb→le _ _ high)

require_configuration_string-eq-ok :
    (maximum : ℕ) (s : Text) {t : Text}
    → require_configuration_string maximum s ≡ ok t
    → is_string maximum t ≡ true
unfolding require_configuration_string
require_configuration_string-eq-ok maximum s h =
    let (_, tested, returned) = >>=-eq-ok (fail_if _ _ _) _ h in
    subst (λ t. is_string maximum t ≡ true) (ok_injective returned)
      (of_not _ (fail_if-eq-ok _ _ _ tested))

pub not_ltb : (a b : ℕ) → ltb a b ≡ false → b ≤ a
not_ltb a b h = ground arith

has-append : (ts : List Text) (u t : Text) → has (ts ++ u ∷ []) t ≡ has ts t || text_eq u t
unfolding has
has-append [] u t = ground arith
has-append (x ∷ ts) u t = ground (arith, has-append ts u t)

-- What the set has, it keeps.
has-add_all : (set ts : List Text) (t : Text) → has set t ≡ true → has (add_all set ts) t ≡ true
unfolding add_all
has-add_all set [] t h = h
has-add_all set (u ∷ ts) t h = elim (Bool-cases (has set u)) [
  | inl known ↦ rw known (has-add_all set ts t h)
  | inr fresh ↦ rw fresh (has-add_all (set ++ u ∷ []) ts t (has-append set u t ∙ ground (arith, h)))
]

-- What is added, it has.
has-added :
    (ts : List Text) (set : List Text) (t : Text) → Memᴰ t ts → has (add_all set ts) t ≡ true
unfolding add_all
has-added [] set t m = elim m [ ]
has-added (u ∷ ts) set t (Memᴰ.tail m) = has-added ts (if has set u then set else set ++ u ∷ []) t m
has-added (u ∷ ts) set t (Memᴰ.head e) = elim (Bool-cases (has set u)) [
  | inl known ↦ rw known (has-add_all set ts t (rw e known))
  | inr fresh ↦ rw fresh (
      has-add_all (set ++ u ∷ []) ts t (has-append set u t ∙ rw (e, text_eq_refl u) (ground arith)))
]

mem-payee_keys :
    (ts : List Text) (t : Text)
    → Memᴰ t ts
    → is_empty (lower (trim t)) ≡ false
    → Memᴰ (lower (trim t)) (payee_keys ts)
unfolding payee_keys
mem-payee_keys [] t m h = elim m [ ]
mem-payee_keys (u ∷ ts) t (Memᴰ.head e) h = rw (← e, h) (Memᴰ.head refl)
mem-payee_keys (u ∷ ts) t (Memᴰ.tail m) h = elim (Bool-cases (is_empty (lower (trim u)))) [
  | inl none_left ↦ rw none_left (mem-payee_keys ts t m h)
  | inr kept ↦ rw kept (Memᴰ.tail (mem-payee_keys ts t m h))
]

normalize_payee_set-has :
    (options : PolicyOptions) (fallback given : List Text) (t : Text)
    → options.blocked_payees ≡ some given
    → Memᴰ t given
    → is_empty (lower (trim t)) ≡ false
    → has (normalize_payee_set (or_default options.blocked_payees fallback)) (lower (trim t)) ≡ true
unfolding normalize_payee_set
normalize_payee_set-has options fallback given t e m h =
    rw e (has-added (payee_keys given) [] (lower (trim t)) (mem-payee_keys given t m h))

-- A policy that the constructor accepts has a version, limits from 1 to 2^53 - 1 and a default expiry of
-- at most the maximum, which is at most a day; and it blocks each payee that the options name, in
-- whatever case and however padded they name it.
pub configure_policy-IsConfigured :
    (options : PolicyOptions) {p : PolicyConfig}
    → configure_policy options ≡ ok p
    → IsConfigured options p
unfolding configure_policy
configure_policy-IsConfigured options h =
    let (version, version_read, h₁) = >>=-eq-ok (require_configuration_string 128 _) _ h in
    let (single, single_read, h₂) = >>=-eq-ok (require_safe_positive_integer _) _ h₁ in
    let (daily, daily_read, h₃) = >>=-eq-ok (require_safe_positive_integer _) _ h₂ in
    let (threshold, threshold_read, h₄) = >>=-eq-ok (require_safe_positive_integer _) _ h₃ in
    let (default_expiry, default_read, h₅) = >>=-eq-ok (require_safe_positive_integer _) _ h₄ in
    let (max_expiry, max_read, h₆) = >>=-eq-ok (require_safe_positive_integer _) _ h₅ in
    let (_, ordered, h₇) = >>=-eq-ok (fail_if _ _ _) _ h₆ in
    let (_, limited, returned) = >>=-eq-ok (fail_if _ _ _) _ h₇ in
    subst (IsConfigured options) (ok_injective returned) (record {
      version = require_configuration_string-eq-ok 128 _ version_read;
      per_transaction = require_safe_positive_integer-eq-ok _ single_read;
      daily = require_safe_positive_integer-eq-ok _ daily_read;
      threshold = require_safe_positive_integer-eq-ok _ threshold_read;
      default_expiry = (
        (require_safe_positive_integer-eq-ok _ default_read).0,
        not_ltb max_expiry default_expiry (fail_if-eq-ok _ _ _ ordered),
      );
      max_expiry = not_ltb max_proposal_expiry_seconds max_expiry (fail_if-eq-ok _ _ _ limited);
      blocked = λ given t. normalize_payee_set-has options _ given t;
    })
