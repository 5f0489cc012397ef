-- ===== src/Envelope/Claims/Decision.antt =====
-- src/service.ts, `strictEnvelopeClaims`: the decision with its approvals, and the whole of the claims.
use parimit.Common.{
  ℕ, ◌+◌, ◌*◌, Bool, false, ◌&&◌, ◌||◌, Option, none, some, List, [], ◌∷◌, ◌++◌, map, ltb, leb,
  ◌==◌, all, length, last, if◌then◌else◌,
}
use parimit.Text.{Text, lit, text_eq, text_lt}
use parimit.Json.{Json, arr, Items, nil, cons, Fields}
use parimit.Json.Canonical.{canonical_json}
use parimit.Time.{canonical_time}
use parimit.Service.Integrity.Payloads.{are_distinct}
use parimit.Envelope.Base64.{to_base64url, from_base64url, is_base64url_unit}
use parimit.Envelope.Reading.{
  ◌>>=◌, ◌>>◌, check_that, object_of, object_at, text_at, number_at, list_at, has_text, has_number,
  has_bool, has_exact_keys, is_sha256_hex,
}
use parimit.Envelope.Claims.{
  digest_at, Head, read_head, Assurance, read_assurance, Snapshot, read_snapshot,
}

pub record ClaimedApproval : Type 0 where
  pub value : Json
  pub subject : Text
  pub intent_hash : Text
  pub decided_text : Text
  pub decided_at : ℕ

abbrev approval_keys : List Text
approval_keys =
    lit "subject"
    ∷ lit "role"
    ∷ lit "decision"
    ∷ lit "intent_hash"
    ∷ lit "decided_at"
    ∷ lit "record_digest"
    ∷ []

unfoldable pub read_approval : Json → Option ClaimedApproval
read_approval v = do
  a ← object_of v
  check_that (has_exact_keys approval_keys a)
  subject ← text_at (lit "subject") a
  check_that (has_text (lit "role") (lit "approver") a || has_text (lit "role") (lit "admin") a)
  check_that (has_text (lit "decision") (lit "APPROVE") a)
  intent_hash ← text_at (lit "intent_hash") a
  check_that (is_sha256_hex intent_hash)
  decided_text ← text_at (lit "decided_at") a
  decided_at ← canonical_time decided_text
  digest ← text_at (lit "record_digest") a
  check_that (is_sha256_hex digest)
  some (record {
    value = v;
    subject = subject;
    intent_hash = intent_hash;
    decided_text = decided_text;
    decided_at = decided_at;
  })

unfoldable pub read_approvals : List Json → Option (List ClaimedApproval)
read_approvals [] = some []
read_approvals (v ∷ vs) = do a ← read_approval v; rest ← read_approvals vs; some (a ∷ rest)

pub record ClaimedDecision : Type 0 where
  pub state_version : ℕ
  pub required_approvals : ℕ
  pub fully_approved_text : Text
  pub fully_approved_at : ℕ
  pub approval_set_digest : Text
  pub approvals : List ClaimedApproval

abbrev decision_keys : List Text
decision_keys =
    lit "state"
    ∷ lit "authorization_state_version"
    ∷ lit "required_approvals"
    ∷ lit "fully_approved_at"
    ∷ lit "approval_set_digest"
    ∷ lit "approvals"
    ∷ []

unfoldable pub read_decision : Fields → Option ClaimedDecision
read_decision v = do
  d ← object_at (lit "decision") v
  check_that (has_exact_keys decision_keys d)
  check_that (has_text (lit "state") (lit "AUTHORIZED_NO_DISPATCH") d)
  version ← number_at (lit "authorization_state_version") d
  check_that (leb 2 version)
  required ← number_at (lit "required_approvals") d
  check_that (required == 1 || required == 2)
  fully_text ← text_at (lit "fully_approved_at") d
  fully_at ← canonical_time fully_text
  set_digest ← digest_at (lit "approval_set_digest") d
  values ← list_at (lit "approvals") d
  check_that (length values == required)
  approvals ← read_approvals values
  some (record {
    state_version = version;
    required_approvals = required;
    fully_approved_text = fully_text;
    fully_approved_at = fully_at;
    approval_set_digest = set_digest;
    approvals = approvals;
  })

-- `compareCodeUnits` on the times, then on the subjects; `sort` is stable.
abbrev is_after : ClaimedApproval → ClaimedApproval → Bool
is_after a b =
    text_lt b.decided_text a.decided_text
    || (text_eq a.decided_text b.decided_text && text_lt b.subject a.subject)

unfoldable pub insert_claimed : ClaimedApproval → List ClaimedApproval → List ClaimedApproval
insert_claimed a [] = a ∷ []
insert_claimed a (b ∷ bs) = if is_after a b then b ∷ insert_claimed a bs else a ∷ b ∷ bs

unfoldable pub sort_claimed : List ClaimedApproval → List ClaimedApproval
unfolding insert_claimed
sort_claimed [] = []
sort_claimed (a ∷ rest) = insert_claimed a (sort_claimed rest)

abbrev pub items : List Json → Items
items [] = nil
items (v ∷ vs) = cons v (items vs)

abbrev pub values_of : List ClaimedApproval → Json
values_of claimed = arr (items (map (λ a. a.value) claimed))

abbrev decided_last : Text → Option ClaimedApproval → Bool
decided_last time none = false
decided_last time (some a) = text_eq a.decided_text time

-- One approval against the snapshot, the issuance and the digest.
abbrev pub fits_envelope : Head → Snapshot → Text → ClaimedApproval → Bool
fits_envelope h s digest a =
    leb s.created_at a.decided_at
    && (ltb a.decided_at s.expires_at
        && (leb a.decided_at h.issued_at && text_eq a.intent_hash digest))

unfoldable pub is_consistent : Head → Snapshot → Text → ClaimedDecision → Bool
is_consistent h s digest d =
    text_eq s.tenant_id h.tenant_id
    && (text_eq h.sub (lit "urn:parimit:intent:" ++ s.id)
        && (d.required_approvals == s.required_approvals
            && (d.state_version == length d.approvals + 1
                && (are_distinct (map (λ a. a.subject) d.approvals)
                    && (text_eq (canonical_json (values_of d.approvals))
                          (canonical_json (values_of (sort_claimed d.approvals)))
                        && (decided_last d.fully_approved_text (last d.approvals)
                            && (leb d.fully_approved_at h.issued_at
                                && (leb s.created_at h.issued_at
                                    && (ltb h.issued_at (h.exp * 1000)
                                        && (all (fits_envelope h s digest) d.approvals
                                            && (ltb s.created_at s.expires_at
                                                && leb (h.exp * 1000) s.expires_at)))))))))))

-- `replay`, with the nonce.
unfoldable pub read_replay : Fields → Option Text
read_replay v = do
  r ← object_at (lit "replay") v
  check_that (has_exact_keys (lit "nonce" ∷ lit "use_limit" ∷ []) r)
  nonce ← text_at (lit "nonce") r
  check_that (length nonce == 43 && all is_base64url_unit nonce)
  check_that
      (length (from_base64url nonce) == 32 && text_eq (to_base64url (from_base64url nonce)) nonce)
  check_that (has_number (lit "use_limit") 1 r)
  some nonce

pub record SourceAudit : Type 0 where
  pub event_count : ℕ
  pub chain_tip : Text

unfoldable pub read_source : Fields → Option SourceAudit
read_source v = do
  a ← object_at (lit "source_audit") v
  check_that (has_exact_keys (lit "event_count" ∷ lit "chain_tip" ∷ []) a)
  count ← number_at (lit "event_count") a
  check_that (leb 1 count)
  tip ← text_at (lit "chain_tip") a
  check_that (is_sha256_hex tip)
  some (record { event_count = count; chain_tip = tip })

abbrev capability_keys : List Text
capability_keys =
    lit "kind"
    ∷ lit "payment_dispatch_authorized"
    ∷ lit "execution_authorized"
    ∷ lit "provider_instruction"
    ∷ lit "moves_money"
    ∷ []

-- An envelope is evidence only.
unfoldable pub is_capability : Fields → Bool
is_capability c =
    has_exact_keys capability_keys c
    && (has_text (lit "kind") (lit "EVIDENCE_ONLY") c
        && (has_bool (lit "payment_dispatch_authorized") false c
            && (has_bool (lit "execution_authorized") false c
                && (has_bool (lit "provider_instruction") false c
                    && has_bool (lit "moves_money") false c))))

pub record Claims : Type 0 where
  pub fields : Fields
  pub head : Head
  pub assurance : Assurance
  pub snapshot : Snapshot
  pub intent_digest : Text
  pub policy_digest : Text
  pub decision : ClaimedDecision
  pub nonce : Text
  pub source_audit : SourceAudit

-- `strictEnvelopeClaims`: `none` where it throws.
unfoldable pub strict_claims : Fields → Option Claims
strict_claims v = do
  head ← read_head v
  assurance ← read_assurance v
  intent ← object_at (lit "intent") v
  check_that (has_exact_keys (lit "snapshot" ∷ lit "digest" ∷ []) intent)
  snapshot_fields ← object_at (lit "snapshot") intent
  snapshot ← read_snapshot snapshot_fields
  intent_digest ← digest_at (lit "digest") intent
  policy_digest ← digest_at (lit "policy_digest") v
  decision ← read_decision v
  check_that (is_consistent head snapshot intent_digest decision)
  nonce ← read_replay v
  source ← read_source v
  capability ← object_at (lit "capability") v
  check_that (is_capability capability)
  some (record {
    fields = v;
    head = head;
    assurance = assurance;
    snapshot = snapshot;
    intent_digest = intent_digest;
    policy_digest = policy_digest;
    decision = decision;
    nonce = nonce;
    source_audit = source;
  })
