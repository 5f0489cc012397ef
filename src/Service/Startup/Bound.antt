-- ===== src/Service/Startup/Bound.antt =====
-- What the constructor leaves behind: the database is bound to the configuration, its key registry is
-- attested, and the key of the service is in it.
use parimit.Common.{
  ◌≡◌, refl, sym, ap, subst, ◌∙◌, Bool, true, false, not, Option, none, some, List, [], ◌∷◌, all,
  arith,
}
use parimit.Text.{Text, text_eq, text_eq_refl, text_eq_iff}
use parimit.Result.{ok, fail_if, fail_if-eq-ok, >>=-eq-ok, ok_injective, ErrorCode}
use parimit.Database.{Database, SigningKeyRow}
use parimit.Service.{Service}
use parimit.Service.Keys.{is_attested, is_checkpoint, order_keys}
use parimit.Service.Startup.{
  has_rows, expected_root, assert_root_matches, validate_key_rows, assert_registry_state,
  register_root, register_receipt_integrity_root, register_state, registry_state,
  register_signing_key_registry_state, bind_database, validate_receipt_bound_evidence,
  has_all_references,
}

not-eq-false : (b : Bool) → not b ≡ false → b ≡ true
not-eq-false true h = refl
not-eq-false false h = cc

pub passed :
    (b : Bool) (code : ErrorCode) {u : Unit {0}} → fail_if (not b) code 500 ≡ ok u → b ≡ true
passed b code h = not-eq-false b (fail_if-eq-ok _ _ _ h)

abbrev pub has_key_id : Text → SigningKeyRow → Bool
has_key_id id k = text_eq k.key_id id

-- `db` is bound to the configuration of `svc`, and its registry of keys is what `svc` attested.
pub record IsBound (svc : Service) (db : Database) : Type 0 where
  pub root : db.integrity_root ≡ some (expected_root svc)
  pub attested : all (is_attested svc) (order_keys db.signing_keys) ≡ true
  pub checkpoint : is_checkpoint svc db.registry_state (order_keys db.signing_keys) ≡ true

module _ (svc : Service) where
  register_root-eq-ok :
      (o : Option Text) (db : Database) {db' : Database}
      → db.integrity_root ≡ o
      → register_root svc o db ≡ ok db'
      → db' ≡ record db { integrity_root = some (expected_root svc) }
  unfolding assert_root_matches
  register_root-eq-ok none db e h =
      let (_, _, same) = >>=-eq-ok (validate_receipt_bound_evidence svc db) _ h in
      sym (ok_injective same)
  register_root-eq-ok (some value) db e h =
      let (_, matched, same) = >>=-eq-ok (assert_root_matches svc value) _ h in
      let equal = (text_eq_iff value (expected_root svc)).0 (passed _ _ matched) in
      sym (ok_injective same) ∙ ap (λ r. record db { integrity_root = r }) (e ∙ ap some equal)

  pub registry_state-is_checkpoint :
      (rows : List SigningKeyRow) {state : Text}
      → registry_state svc rows ≡ ok state
      → is_checkpoint svc (some state) rows ≡ true
  unfolding registry_state is_checkpoint
  registry_state-is_checkpoint rows {state} h = ground (arith, text_eq_refl state)

  no_rows : {A : Type 0} (xs : List A) → has_rows xs ≡ false → xs ≡ []
  no_rows [] h = refl
  no_rows (x ∷ xs) h = cc

  register_state-eq-ok :
      (o : Option Text) (db : Database) {db' : Database}
      → db.registry_state ≡ o
      → register_state svc o db ≡ ok db'
      → (state : Text) × (db' ≡ record db { registry_state = some state })
        × (is_checkpoint svc (some state) (order_keys db.signing_keys) ≡ true)
  unfolding assert_registry_state
  register_state-eq-ok none db e h =
      let (_, empty, h₁) = >>=-eq-ok (fail_if (has_rows db.signing_keys) _ 500) _ h in
      let (state, computed, same) =
        >>=-eq-ok (registry_state svc (order_keys db.signing_keys)) _ h₁ in
      (state, sym (ok_injective same), registry_state-is_checkpoint _ computed)
  register_state-eq-ok (some value) db e h =
      let (_, matched, same) =
        >>=-eq-ok
          (fail_if (not (is_checkpoint svc db.registry_state (order_keys db.signing_keys))) _ 500) _
          h in
      (
        value,
        sym (ok_injective same) ∙ ap (λ r. record db { registry_state = r }) e,
        subst (λ r. is_checkpoint svc r (order_keys db.signing_keys) ≡ true) e (passed _ _ matched),
      )

  abbrev with_state : Text → Database → Database
  with_state state db = record db { registry_state = some state }

  -- The transaction of `initializeSchema` writes the root and the checkpoint, if they are missing.
  pub bind_database-eq-ok :
      (db : Database) {db' : Database}
      → bind_database svc db ≡ ok db'
      → (state : Text) × (db'
          ≡ record db { integrity_root = some (expected_root svc); registry_state = some state })
        × IsBound svc db'
  unfolding bind_database register_receipt_integrity_root register_signing_key_registry_state
      validate_key_rows
  bind_database-eq-ok db h =
      let (bound, h₁, h₂) = >>=-eq-ok (register_receipt_integrity_root svc db) _ h in
      let (registered, h₃, h₄) = >>=-eq-ok (register_signing_key_registry_state svc bound) _ h₂ in
      let (_, _, same) = >>=-eq-ok (fail_if (not (has_all_references registered)) _ 500) _ h₄ in
      let (_, valid, h₅) =
        >>=-eq-ok (validate_key_rows svc _ (order_keys bound.signing_keys)) _ h₃ in
      let at_root = register_root-eq-ok db.integrity_root db refl h₁ in
      let (state, at_state, checkpoint) = register_state-eq-ok bound.registry_state bound refl h₅ in
      let whole = sym (ok_injective same) ∙ at_state ∙ ap (with_state state) at_root in
      let keys = ap (λ d. d.signing_keys) at_root in
      (
        state,
        whole,
        subst (IsBound svc) (sym whole) (record {
          root = refl;
          attested =
              subst (λ ks. all (is_attested svc) (order_keys ks) ≡ true) keys (passed _ _ valid);
          checkpoint =
              subst (λ ks. is_checkpoint svc (some state) (order_keys ks) ≡ true) keys checkpoint;
        }),
      )
