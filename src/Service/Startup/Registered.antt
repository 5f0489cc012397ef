-- ===== src/Service/Startup/Registered.antt =====
-- `registerEnvelopeSigningKey` returns only with the key of the service in the attested registry.
use parimit.Common.{
  ◌≡◌, refl, sym, ap, subst, ◌∙◌, Bool, true, false, Option, none, some, List, [], ◌∷◌, ◌++◌, any,
  find, arith, Bool-cases, inl, inr,
}
use mathlib.Core.List.{append-nil, append_assoc}
use parimit.Text.{Text, text_eq_refl, text_eq_iff}
use parimit.Json.{Json}
use parimit.Json.Canonical.{canonical_json}
use parimit.Result.{ok, fail_if, fail_if-eq-ok, >>=-eq-ok, ok_injective}
use parimit.Database.{Database, SigningKeyRow}
use parimit.Exec.{World, resume}
use parimit.Exec.Yields.{Yields, Yields-result, Yields-lift, Yields-stored}
use parimit.Service.{Service, hmac_sha256, now}
use parimit.Service.Keys.{attestation_payload, registry_of, insert_key, order_keys, validated_keys}
use parimit.Service.Startup.{validate_key_rows, registry_state}
use parimit.Service.Startup.Key.{new_key, store_key, store_checked, update_state, same_key}
use parimit.Service.Startup.Open.{register_key, register_signing_key}
use parimit.Service.Startup.Bound.{IsBound, has_key_id, passed, registry_state-is_checkpoint}

module _ (p : SigningKeyRow → Bool) where
  find-insert_key_other :
      (k : SigningKeyRow) (ks : List SigningKeyRow)
      → p k ≡ false
      → find p (insert_key k ks) ≡ find p ks
  unfolding insert_key
  find-insert_key_other k [] h = ground arith
  find-insert_key_other k (l ∷ ks) h = ground (arith, find-insert_key_other k ks h)

  -- A row that alone passes the test is found, wherever it is put.
  find-order_keys :
      (row : SigningKeyRow) (ks : List SigningKeyRow)
      → p row ≡ true
      → any p ks ≡ false
      → find p (order_keys (ks ++ row ∷ [])) ≡ some row
  unfolding order_keys insert_key
  find-order_keys row [] h none_of = ground arith
  find-order_keys row (k ∷ ks) h none_of =
      let other : p k ≡ false = ground arith in
      let rest : any p ks ≡ false = ground arith in
      find-insert_key_other k (order_keys (ks ++ row ∷ [])) other ∙ find-order_keys row ks h rest

-- The tables other than the registry are as they were, and no key is lost.
pub record KeepsRows (db db' : Database) : Type 0 where
  pub intents : db'.intents ≡ db.intents
  pub approvals : db'.approvals ≡ db.approvals
  pub observations : db'.observations ≡ db.observations
  pub audit_events : db'.audit_events ≡ db.audit_events
  pub envelopes : db'.envelopes ≡ db.envelopes
  pub keys : (ks : List SigningKeyRow) × (db'.signing_keys ≡ db.signing_keys ++ ks)

pub KeepsRows-refl : (db : Database) → KeepsRows db db
KeepsRows-refl db = record {
  intents = refl;
  approvals = refl;
  observations = refl;
  audit_events = refl;
  envelopes = refl;
  keys = ([], sym (append-nil db.signing_keys));
}

pub KeepsRows-trans : {a b c : Database} → KeepsRows a b → KeepsRows b c → KeepsRows a c
KeepsRows-trans {a} p q = record {
  intents = q.intents ∙ p.intents;
  approvals = q.approvals ∙ p.approvals;
  observations = q.observations ∙ p.observations;
  audit_events = q.audit_events ∙ p.audit_events;
  envelopes = q.envelopes ∙ p.envelopes;
  keys =
      let (ks, e) = p.keys in
      let (ls, f) = q.keys in
      (ks ++ ls, f ∙ ap (λ t. t ++ ls) e ∙ append_assoc a.signing_keys ks ls);
}

-- The row of the service's key holds that key, and its attestation.
pub record HasKey (svc : Service) (public_jwk : Json) (db : Database) : Type 0 where
  pub row : SigningKeyRow
  pub stored : Json
  pub found : find (has_key_id svc.envelope_key_id) (order_keys db.signing_keys) ≡ some row
  pub parsed : row.public_jwk ≡ some stored
  pub same : canonical_json stored ≡ canonical_json public_jwk
  pub attested :
      row.attestation_hmac
      ≡ hmac_sha256 svc (attestation_payload svc.envelope_key_id stored row.created_at)

module _ (svc : Service) where
  update_state-eq-ok :
      (o : Option Text) (state : Text) (db : Database) {db' : Database}
      → update_state svc o state db ≡ ok db'
      → db' ≡ record db { registry_state = some state }
  update_state-eq-ok none state db h = cc
  update_state-eq-ok (some old) state db h = sym (ok_injective h)

  abbrev Stored : SigningKeyRow → Database → Database → Type 0
  Stored row db db' =
      IsBound svc db'
      × KeepsRows db db'
      × (find (has_key_id row.key_id) (order_keys db'.signing_keys) ≡ some row)

  store_key-IsBound :
      (row : SigningKeyRow) (db : Database) {db' : Database}
      → IsBound svc db
      → store_key svc row db ≡ ok db'
      → Stored row db db'
  unfolding store_key store_checked validate_key_rows
  store_key-IsBound row db bound h =
      elim (Bool-cases (any (has_key_id row.key_id) db.signing_keys)) [
        | inl clash ↦ cc (rw clash at h)
        | inr fresh ↦
            let keys = order_keys (db.signing_keys ++ row ∷ []) in
            let (_, valid, h₁) = >>=-eq-ok (validate_key_rows svc _ keys) _ (rw fresh at h) in
            let (state, computed, h₂) = >>=-eq-ok (registry_state svc keys) _ h₁ in
            let whole = update_state-eq-ok db.registry_state state _ h₂ in
            subst (Stored row db) (sym whole) (
              record {
                root = bound.root;
                attested = passed _ _ valid;
                checkpoint = registry_state-is_checkpoint svc keys computed;
              },
              record {
                intents = refl;
                approvals = refl;
                observations = refl;
                audit_events = refl;
                envelopes = refl;
                keys = (row ∷ [], refl);
              },
              find-order_keys (has_key_id row.key_id) row db.signing_keys (text_eq_refl row.key_id)
                  fresh,
            )
      ]

  pub IsBound-validated :
      (db : Database)
      → IsBound svc db
      → validated_keys svc (registry_of db) ≡ ok (order_keys db.signing_keys)
  unfolding validated_keys fail_if
  IsBound-validated db bound = rw bound.attested (rw bound.checkpoint refl)

  module _ (public_jwk : Json) where
    same_key-eq-ok :
        (row : SigningKeyRow) (o : Option Json) {u : Unit {0}}
        → same_key svc public_jwk row o ≡ ok u
        → (stored : Json) × (o ≡ some stored)
          × (canonical_json stored ≡ canonical_json public_jwk)
          × (row.attestation_hmac
              ≡ hmac_sha256 svc (attestation_payload svc.envelope_key_id stored row.created_at))
    same_key-eq-ok row none h = cc
    same_key-eq-ok row (some stored) h =
        let clear = fail_if-eq-ok _ _ _ h in
        (stored, refl, (text_eq_iff _ _).0 (ground arith), (text_eq_iff _ _).0 (ground arith))

    abbrev pub Registered : Database → Database → Type 0
    Registered db db' = IsBound svc db' × KeepsRows db db' × HasKey svc public_jwk db'

    register_key-Yields :
        (o : Option SigningKeyRow) (w : World)
        → IsBound svc w.db
        → find (has_key_id svc.envelope_key_id) (order_keys w.db.signing_keys) ≡ o
        → Yields (λ _ w'. Registered w.db w'.db) (register_key svc public_jwk o w)
    unfolding now resume new_key
    register_key-Yields (some row) w bound found = Yields-lift _ w λ _ h.
        let (stored, parsed, same, attested) = same_key-eq-ok row row.public_jwk h in
        (
          bound,
          KeepsRows-refl w.db,
          record {
            row = row;
            stored = stored;
            found = found;
            parsed = parsed;
            same = same;
            attested = attested;
          },
        )
    register_key-Yields none w bound found = Yields-stored _ _ λ db h.
        let fresh = new_key svc public_jwk (svc.clock w.clock_reads) in
        let (bound', keeps, found') = store_key-IsBound fresh w.db bound h in
        (
          bound',
          keeps,
          record {
            row = fresh;
            stored = public_jwk;
            found = found';
            parsed = refl;
            same = refl;
            attested = refl;
          },
        )

    -- The key of the service is in the registry, and no row was lost.
    pub register_signing_key-Yields :
        (w : World)
        → IsBound svc w.db
        → Yields (λ _ w'. Registered w.db w'.db) (register_signing_key svc public_jwk w)
    unfolding register_signing_key resume
    register_signing_key-Yields w bound =
        Yields-result
          (λ rows. register_key svc public_jwk (find (has_key_id svc.envelope_key_id) rows))
          (validated_keys svc (registry_of w.db)) w
          λ rows h.
            subst
              (λ ks.
                Yields (λ _ w'. Registered w.db w'.db)
                  (register_key svc public_jwk (find (has_key_id svc.envelope_key_id) ks) w))
              (ok_injective (sym (IsBound-validated w.db bound) ∙ h))
              (register_key-Yields _ w bound refl)
