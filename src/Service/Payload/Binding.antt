-- ===== src/Service/Payload/Binding.antt =====
-- What the hash of a proposal and the receipt of a review pin down.
use parimit.Common.{
  ◌≡◌, refl, sym, ap, subst, false, if◌then◌else◌, ◌∙◌, ℕ, arith, Option, none, some, List, [], ◌∷◌,
  true, &&-eq-true,
}
use parimit.Text.{Text, lit, text_eq, text_eq_iff}
use parimit.Text.Decimal.{number, number-decimal}
use parimit.Json.{Json, num, str, obj, Fields, get_field}
use parimit.Json.Build.{nullable, object}
use parimit.Json.Canonical.{canonical_json}
use parimit.Json.Canonical.Normal.{normal}
use parimit.Json.Canonical.Injective.{canonical_json-injective}
use parimit.Json.Canonical.Members.{normal-member, normal-member_text}
use parimit.Time.{to_iso_string}
use parimit.Types.{IntentVersion, v1, v2, v3, is_v1, version_text}
use parimit.Database.{IntentRow, ApprovalRow}
use parimit.Service.{Service, digest}
use parimit.Service.Payload.{
  agent_json, amount_json, bound_payload, intent_payload_from_row, with_reasons, stored_policy,
}
use parimit.Service.Policy.{policy_configuration_digest}
use parimit.Service.Integrity.Failures.{unless}
use parimit.Service.Integrity.Approvals.{is_receipt_valid}
use parimit.Service.Integrity.Row.{hash_findings}

-- The members that every version of the payload has.
record Carries (row : IntentRow) (version : IntentVersion) (fs : Fields) : Type 0 where
  version_member : get_field (lit "version") fs ≡ some (str (version_text version))
  id : get_field (lit "id") fs ≡ some (str row.id)
  idempotency_key : get_field (lit "idempotency_key") fs ≡ some (str row.idempotency_key)
  requested_by : get_field (lit "requested_by") fs ≡ some (agent_json row.agent_id)
  on_behalf_of : get_field (lit "on_behalf_of") fs ≡ some (nullable row.on_behalf_of)
  payee_reference : get_field (lit "payee_reference") fs ≡ some (str row.payee_reference)
  purpose : get_field (lit "purpose") fs ≡ some (str row.purpose)
  created_at : get_field (lit "created_at") fs ≡ some (str (to_iso_string row.created_at))
  expires_at : get_field (lit "expires_at") fs ≡ some (str (to_iso_string row.expires_at))
  amount : get_field (lit "amount") fs ≡ some (amount_json row.amount_minor)

some-eq : {v w : Json} → some v ≡ some w → v ≡ w
some-eq e = cc

bound_payload-Carries :
    (version : IntentVersion) (row : IntentRow) (policy : Json) (rest : List (Text × Json))
    → (fs : Fields) × (bound_payload version row policy rest ≡ obj fs)
      × Carries row version fs
      × (get_field (lit "policy") fs ≡ some policy)
unfolding get_field lit text_eq
bound_payload-Carries version row policy rest = (
  _,
  refl,
  record {
    version_member = refl;
    id = refl;
    idempotency_key = refl;
    requested_by = refl;
    on_behalf_of = refl;
    payee_reference = refl;
    purpose = refl;
    created_at = refl;
    expires_at = refl;
    amount = refl;
  },
  refl,
)

-- From the second version on, the policy is bound too.
abbrev BindsPolicy : IntentVersion → IntentRow → Fields → Type 0
BindsPolicy v1 row fs = Unit {0}
BindsPolicy version row fs =
    (ps : Fields) × (get_field (lit "policy") fs ≡ some (obj ps))
    × (get_field (lit "rules_version") ps ≡ some (str row.rules_version))
    × (get_field (lit "required_approvals") ps ≡ some (num row.required_approvals))

with_reasons-Carries :
    (svc : Service) (row : IntentRow) (version : IntentVersion) (reasons : Option Json) {v : Json}
    → with_reasons svc row version reasons ≡ some v
    → (fs : Fields) × (v ≡ obj fs) × Carries row version fs × BindsPolicy version row fs
unfolding get_field lit text_eq
with_reasons-Carries svc row v1 reasons h = (
  _,
  sym (some-eq h),
  record {
    version_member = refl;
    id = refl;
    idempotency_key = refl;
    requested_by = refl;
    on_behalf_of = refl;
    payee_reference = refl;
    purpose = refl;
    created_at = refl;
    expires_at = refl;
    amount = refl;
  },
  tt,
)
with_reasons-Carries svc row v2 none h = cc
with_reasons-Carries svc row v2 (some reasons) h =
    let (fs, same, carries, policy) =
      bound_payload-Carries v2 row (object (stored_policy row reasons [])) [] in
    (fs, sym (some-eq h) ∙ same, carries, (_, policy, refl, refl))
with_reasons-Carries svc row v3 none h = cc
with_reasons-Carries svc row v3 (some reasons) h =
    let digest_member = (lit "config_digest", str (policy_configuration_digest svc)) ∷ [] in
    let (fs, same, carries, policy) =
      bound_payload-Carries v3 row (object (stored_policy row reasons digest_member))
        ((lit "tenant_id", str row.tenant_id) ∷ []) in
    (fs, sym (some-eq h) ∙ same, carries, (_, policy, refl, refl))

nullable-injective : (s t : Option Text) → normal (nullable s) ≡ normal (nullable t) → s ≡ t
unfolding normal
nullable-injective none none e = refl
nullable-injective none (some t) e = cc
nullable-injective (some s) none e = cc
nullable-injective (some s) (some t) e = cc

agent_json-injective : (s t : Text) → normal (agent_json s) ≡ normal (agent_json t) → s ≡ t
unfolding get_field lit text_eq
agent_json-injective s t e = normal-member_text (lit "id") _ _ e refl refl

amount_json-injective : (n m : ℕ) → normal (amount_json n) ≡ normal (amount_json m) → n ≡ m
unfolding get_field lit text_eq
amount_json-injective n m e =
    sym (number-decimal n)
    ∙ ap number (normal-member_text (lit "minor") _ _ e refl refl)
    ∙ number-decimal m

version_of : Text → IntentVersion
version_of t =
    if text_eq t (lit "parimit-payment-intent-v1")
    then v1
    else if text_eq t (lit "parimit-payment-intent-v2")
    then v2
    else v3

version_of-version_text : (v : IntentVersion) → version_of (version_text v) ≡ v
unfolding version_of version_text text_eq lit
version_of-version_text v1 = refl
version_of-version_text v2 = refl
version_of-version_text v3 = refl

version_text-injective : (a b : IntentVersion) → version_text a ≡ version_text b → a ≡ b
version_text-injective a b e =
    sym (version_of-version_text a) ∙ ap version_of e ∙ version_of-version_text b

num-injective : (n m : ℕ) → normal (num n) ≡ normal (num m) → n ≡ m
unfolding normal
num-injective n m e = cc

same_policy :
    (version : IntentVersion) (x y : IntentRow) (fs gs : Fields)
    → BindsPolicy version x fs
    → BindsPolicy version y gs
    → normal (obj fs) ≡ normal (obj gs)
    → is_v1 version ≡ false
    → (x.rules_version ≡ y.rules_version) × (x.required_approvals ≡ y.required_approvals)
same_policy v1 x y fs gs p q e h = cc
same_policy v2 x y fs gs (ps, at, rules, needed) (qs, at', rules', needed') e h =
    let same = normal-member _ fs gs e at at' in
    (
      normal-member_text _ ps qs same rules rules',
      num-injective _ _ (normal-member _ ps qs same needed needed'),
    )
same_policy v3 x y fs gs (ps, at, rules, needed) (qs, at', rules', needed') e h =
    let same = normal-member _ fs gs e at at' in
    (
      normal-member_text _ ps qs same rules rules',
      num-injective _ _ (normal-member _ ps qs same needed needed'),
    )

-- What a reviewer was shown: `x` and `y` agree in it.
pub record SameTerms (x y : IntentRow) : Type 0 where
  pub intent_version : x.intent_version ≡ y.intent_version
  pub id : x.id ≡ y.id
  pub idempotency_key : x.idempotency_key ≡ y.idempotency_key
  pub agent_id : x.agent_id ≡ y.agent_id
  pub on_behalf_of : x.on_behalf_of ≡ y.on_behalf_of
  pub payee_reference : x.payee_reference ≡ y.payee_reference
  pub amount_minor : x.amount_minor ≡ y.amount_minor
  pub purpose : x.purpose ≡ y.purpose
  pub created_at : to_iso_string x.created_at ≡ to_iso_string y.created_at
  pub expires_at : to_iso_string x.expires_at ≡ to_iso_string y.expires_at
  pub policy :
      is_v1 x.intent_version ≡ false
      → (x.rules_version ≡ y.rules_version) × (x.required_approvals ≡ y.required_approvals)

Carries-SameTerms :
    (x y : IntentRow) (fs gs : Fields)
    → Carries x x.intent_version fs
    → Carries y y.intent_version gs
    → BindsPolicy x.intent_version x fs
    → BindsPolicy y.intent_version y gs
    → normal (obj fs) ≡ normal (obj gs)
    → SameTerms x y
Carries-SameTerms x y fs gs p q m n e =
    let same_version =
      version_text-injective _ _ (normal-member_text _ fs gs e p.version_member q.version_member) in
    record {
      intent_version = same_version;
      id = normal-member_text _ fs gs e p.id q.id;
      idempotency_key = normal-member_text _ fs gs e p.idempotency_key q.idempotency_key;
      agent_id = agent_json-injective _ _ (normal-member _ fs gs e p.requested_by q.requested_by);
      on_behalf_of = nullable-injective _ _ (normal-member _ fs gs e p.on_behalf_of q.on_behalf_of);
      payee_reference = normal-member_text _ fs gs e p.payee_reference q.payee_reference;
      amount_minor = amount_json-injective _ _ (normal-member _ fs gs e p.amount q.amount);
      purpose = normal-member_text _ fs gs e p.purpose q.purpose;
      created_at = normal-member_text _ fs gs e p.created_at q.created_at;
      expires_at = normal-member_text _ fs gs e p.expires_at q.expires_at;
      policy =
          same_policy x.intent_version x y fs gs m
            (subst (λ v. BindsPolicy v y gs) (sym same_version) n) e;
    }

module _ (svc : Service) (x y : IntentRow) {v w : Json} where
  -- One hash, one content.
  hash-binds :
      intent_payload_from_row svc x ≡ some v
      → intent_payload_from_row svc y ≡ some w
      → canonical_json v ≡ canonical_json w
      → SameTerms x y
  unfolding intent_payload_from_row
  hash-binds p q e =
      let (fs, v_is, carries, policy) = with_reasons-Carries svc x x.intent_version _ p in
      let (gs, w_is, carries', policy') = with_reasons-Carries svc y y.intent_version _ q in
      Carries-SameTerms x y fs gs carries carries' policy policy'
        (sym (ap normal v_is) ∙ (canonical_json-injective v w).0 e ∙ ap normal w_is)

-- The stored hash is that of the payload.
hashed :
    (svc : Service) (x : IntentRow) {v : Json}
    → intent_payload_from_row svc x ≡ some v
    → hash_findings svc x ≡ []
    → digest svc v ≡ x.intent_hash
unfolding hash_findings unless
hashed svc x {v} p h = ground (arith, rw p at h, text_eq_iff (digest svc v) x.intent_hash)

bound_to :
    (svc : Service) (id hash : Text) (a : ApprovalRow)
    → is_receipt_valid svc id hash a ≡ true
    → a.intent_hash ≡ hash
unfolding is_receipt_valid
bound_to svc id hash a h = (text_eq_iff a.intent_hash hash).0 ((&&-eq-true _ _ h).1)

-- The receipt of a review is valid for one content only: where SHA-256 does not give the payloads of two
-- proposals one hash, and the stored hashes have no finding, two proposals for which the receipt of one
-- review is valid have the same version, id, idempotency key, agent, principal, payee, amount, purpose
-- and times, and from the second version on the same rules and number of required approvals.
pub is_receipt_valid-binds :
    (svc : Service) (x y : IntentRow) (a : ApprovalRow) {v w : Json}
    → intent_payload_from_row svc x ≡ some v
    → intent_payload_from_row svc y ≡ some w
    → (svc.sha256 (canonical_json v) ≡ svc.sha256 (canonical_json w)
        → canonical_json v ≡ canonical_json w)
    → hash_findings svc x ≡ []
    → hash_findings svc y ≡ []
    → is_receipt_valid svc x.id x.intent_hash a ≡ true
    → is_receipt_valid svc y.id y.intent_hash a ≡ true
    → SameTerms x y
unfolding digest
is_receipt_valid-binds svc x y a p q no_collision h h' r r' = hash-binds svc x y p q (
    no_collision (
      hashed svc x p h
      ∙ sym (bound_to svc x.id x.intent_hash a r)
      ∙ bound_to svc y.id y.intent_hash a r'
      ∙ sym (hashed svc y q h')))
