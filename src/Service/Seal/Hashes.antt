-- ===== src/Service/Seal/Hashes.antt =====
-- The payload that is hashed at creation is the one that is read back from the row.
use parimit.Common.{ℕ, ◌≡◌, refl, ap, ◌∙◌, some, [], Bool-cases, inl, inr}
use parimit.Text.{Text, lit, text_lt, text_eq_iff}
use parimit.Json.{Json}
use parimit.Json.Canonical.{canonical_json, canonicalize}
use parimit.Types.{Proposal, PolicyDecision, IntentStatus}
use parimit.Database.{IntentRow, advance}
use parimit.Service.{Service, digest}
use parimit.Service.Payload.{current_payload, intent_payload_from_row}
use parimit.Service.Policy.{policy_configuration_digest}
use parimit.Service.Integrity.Failures.{unless}
use parimit.Service.Integrity.Row.{hash_findings, hash_of}
use parimit.Service.Methods.Insert.{new_intent, intent_hash_of, initial_status_of, expiry_of}

hash_of-same :
    (svc : Service) (v w : Json)
    → canonical_json v ≡ canonical_json w
    → hash_of svc (digest svc w) (some v) ≡ []
unfolding digest unless
hash_of-same svc v w e =
    rw
      ((text_eq_iff (svc.sha256 (canonical_json v)) (svc.sha256 (canonical_json w))).1
        (ap svc.sha256 e))
      refl

module _ (svc : Service) (input : Proposal) (fingerprint id : Text) (policy : PolicyDecision)
    (at : ℕ) where
  same_payload :
      policy.config_digest ≡ policy_configuration_digest svc
      → (v : Json) × (intent_payload_from_row svc (new_intent svc input fingerprint policy id at)
          ≡ some v)
        × (canonical_json v
            ≡ canonical_json (
                current_payload id svc.tenant_id input at
                  (expiry_of input at)
                  policy
                  (initial_status_of policy.allowed)))
  unfolding intent_payload_from_row new_intent current_payload canonical_json canonicalize lit
      text_lt
  same_payload e = elim (Bool-cases policy.allowed) [
    | inl permitted ↦ (_, refl, rw (permitted, e) refl)
    | inr denied ↦ (_, refl, rw (denied, e) refl)
  ]

  -- The hash of a new row is right.
  pub new_intent-hashed :
      policy.config_digest ≡ policy_configuration_digest svc
      → hash_findings svc (new_intent svc input fingerprint policy id at) ≡ []
  unfolding hash_findings new_intent intent_hash_of
  new_intent-hashed e =
      let (v, read, same) = same_payload e in
      ap (hash_of svc (intent_hash_of svc input fingerprint policy id at)) read
      ∙ hash_of-same svc v _ same

-- A change of status leaves the hash right.
pub advance-hashed :
    (svc : Service) (next : IntentStatus) (x : IntentRow)
    → hash_findings svc (advance next x) ≡ hash_findings svc x
unfolding hash_findings intent_payload_from_row
advance-hashed svc next x = refl
