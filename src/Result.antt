-- ===== src/Result.antt =====
-- src/errors.ts: a call returns a value or throws a `ParimitError`.
use parimit.Common.{arith, ℕ, ◌≡◌, refl, ◌⊎◌, inl, inr, Bool, true, false, Option, none, some}

pub data ErrorCode : Type 0 where
  validation_error not_found idempotency_conflict clock_rollback_detected : ErrorCode
  human_approver_required agent_cannot_approve invalid_state state_conflict : ErrorCode
  duplicate_approver proposal_expired_error forbidden integrity_failure : ErrorCode
  intent_hash_mismatch legacy_intent_read_only in_doubt_frozen : ErrorCode
  -- what SQLite throws where a row breaks a PRIMARY KEY or UNIQUE constraint
  constraint_violation internal_error : ErrorCode
  invalid_configuration : ErrorCode
  envelope_audience_not_allowed envelope_requires_v3_intent : ErrorCode
  envelope_expiry_exceeds_intent envelope_invalid envelope_replay_detected : ErrorCode
  envelope_expired signing_key_integrity_failure : ErrorCode
  authentication_required invalid_token auth_provider_unavailable : ErrorCode
  role_not_authorized ambiguous_role demo_auth_required invalid_demo_identity : ErrorCode
  body_too_large invalid_json invalid_path invalid_identity_provider_result : ErrorCode
  actor_identity_mismatch invalid_auth_configuration : ErrorCode
  receipt_key_mismatch unattested_identity_history trust_root_missing : ErrorCode
  signing_key_conflict database_migration_failed demo_only_build : ErrorCode

-- The messages are left out.
pub record ParimitError : Type 0 where
  pub code : ErrorCode
  pub status_code : ℕ

pub data Result {ℓ} (A : Type ℓ) : Type ℓ where
  ok : A → Result A
  err : ParimitError → Result A

infixl 5 ◌>>◌ ◌>>=◌
-- What follows runs with the value, and a thrown error passes through.
abbrev pub ◌>>=◌ {ℓ κ} : {V : Type ℓ} {W : Type κ} → Result V → (V → Result W) → Result W
err thrown >>= next = err thrown
ok value >>= next = next value

abbrev pub ◌>>◌ {ℓ} : {W : Type ℓ} → Result (Unit {0}) → Result W → Result W
test >> next = test >>= λ _. next

abbrev pub fail {ℓ} : {A : Type ℓ} → ErrorCode → ℕ → Result A
fail code status = err (record { code = code; status_code = status })

unfoldable pub fail_if : Bool → ErrorCode → ℕ → Result (Unit {0})
fail_if true code status = fail code status
fail_if false code status = ok tt

-- `requiredRow`.
unfoldable pub required {ℓ} : {A : Type ℓ} → Option A → Result A
required none = fail not_found 404
required (some a) = ok a

-- A test that let the call go on failed.
pub fail_if-eq-ok :
    (b : Bool) (code : ErrorCode) (status : ℕ) {u : Unit {0}}
    → fail_if b code status ≡ ok u
    → b ≡ false
unfolding fail_if
fail_if-eq-ok true code status h = cc
fail_if-eq-ok false code status h = refl

pub required-eq-ok {ℓ} : {A : Type ℓ} (o : Option A) {a : A} → required o ≡ ok a → o ≡ some a
unfolding required
required-eq-ok none h = cc
required-eq-ok (some a) h = ground arith

-- A chain of steps returned only if each of them did.
pub >>=-eq-ok {ℓ κ} :
    {V : Type ℓ} {W : Type κ} (step : Result V) (next : V → Result W) {result : W}
    → (step >>= next) ≡ ok result
    → (value : V) × (step ≡ ok value) × (next value ≡ ok result)
>>=-eq-ok (err thrown) next h = cc
>>=-eq-ok (ok value) next h = (value, refl, h)

pub Result-cases {ℓ} :
    {A : Type ℓ} (r : Result A) → ((a : A) × (r ≡ ok a)) ⊎ ((e : ParimitError) × (r ≡ err e))
Result-cases (ok a) = inl (a, refl)
Result-cases (err e) = inr (e, refl)

pub ok_injective {ℓ} : {A : Type ℓ} {a b : A} → ok a ≡ ok b → a ≡ b
ok_injective h = cc
