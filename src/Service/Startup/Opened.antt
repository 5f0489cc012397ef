-- ===== src/Service/Startup/Opened.antt =====
-- What the constructor does to a database: where it returns, the database is bound to the configuration;
-- a bound database is opened again as it is, and refused to any other configuration.
use parimit.Common.{
  ◌≡◌, ◌≢◌, refl, sym, subst, true, false, Option, none, some, [], Bool-cases, inl, inr,
}
use mathlib.Core.List.{append-nil}
use parimit.Text.{Text, text_eq, text_eq_iff, text_eq_refl}
use parimit.Json.{Json}
use parimit.Result.{ok, fail, fail_if, receipt_key_mismatch}
use parimit.Database.{Database}
use parimit.Exec.{World, execute, resume, store, finish, transaction}
use parimit.Exec.Yields.{
  Yields, Yields-result, Yields-then, Yields-stored, Yields-finish, Yields-returned, Yields-weaken,
}
use parimit.Service.{Service}
use parimit.Service.Keys.{is_checkpoint}
use parimit.Service.Startup.{
  expected_root, assert_root_matches, validate_key_rows, assert_registry_state,
  preflight_receipt_integrity, register_receipt_integrity_root, register_signing_key_registry_state,
  register_state, bind_database, has_all_references,
}
use parimit.Service.Startup.Open.{register_signing_key, open_database}
use parimit.Service.Startup.Bound.{IsBound, bind_database-eq-ok}
use parimit.Service.Startup.Registered.{
  KeepsRows, KeepsRows-trans, HasKey, Registered, register_signing_key-Yields, IsBound-validated,
}

text_eq_complete : {s t : Text} → s ≡ t → text_eq s t ≡ true
text_eq_complete {s} {t} e = (text_eq_iff s t).1 e

differs : (s t : Text) → s ≢ t → text_eq s t ≡ false
differs s t n = elim (Bool-cases (text_eq s t)) [
  | inl same ↦ absurd (n ((text_eq_iff s t).0 same))
  | inr other ↦ other
]

module _ (svc : Service) where
  abbrev Prepared : Database → Unit {0} → World → Type 0
  Prepared db u v = IsBound svc v.db × KeepsRows db v.db

  bind_database-Prepared :
      (w : World) → Yields (Prepared w.db) (transaction (execute (bind_database svc)) w)
  unfolding transaction
  bind_database-Prepared w = Yields-finish w (
      Yields-stored w (bind_database svc w.db) λ db h.
        let (state, whole, bound) = bind_database-eq-ok svc w.db h in
        (
          bound,
          subst (KeepsRows w.db) (sym whole) (record {
            intents = refl;
            approvals = refl;
            observations = refl;
            audit_events = refl;
            envelopes = refl;
            keys = ([], sym (append-nil w.db.signing_keys));
          }),
        ))

  module _ (public_jwk : Json) where
    open_database-Yields :
        (w : World)
        → Yields (λ _ w'. Registered svc public_jwk w.db w'.db) (open_database svc public_jwk w)
    unfolding open_database transaction
    open_database-Yields w = Yields-result _ (preflight_receipt_integrity svc w.db) w λ _ _.
        Yields-then {Q = Prepared w.db} _ (bind_database-Prepared w) λ _ v (bound, kept).
          Yields-finish v (
            Yields-weaken (λ _ w' (bound', kept', key). (bound', KeepsRows-trans kept kept', key))
              (register_signing_key-Yields svc public_jwk v bound))

    -- Where the constructor returns, the database is bound to its configuration and its registry of keys
    -- is attested and has the service's key; no proposal, review, observation, event, envelope or key
    -- was changed or lost.
    pub open_database-Registered :
        (w : World) {u : Unit {0}} {w' : World}
        → open_database svc public_jwk w ≡ (ok u, w')
        → Registered svc public_jwk w.db w'.db
    open_database-Registered w h = Yields-returned _ (open_database-Yields w) h

  preflight-bound : (db : Database) → IsBound svc db → preflight_receipt_integrity svc db ≡ ok tt
  unfolding preflight_receipt_integrity assert_root_matches validate_key_rows assert_registry_state
      fail_if
  preflight-bound db bound =
      rw bound.root
        (rw (text_eq_refl (expected_root svc)) (rw bound.attested (rw bound.checkpoint refl)))

  register_root-bound :
      (db : Database) → IsBound svc db → register_receipt_integrity_root svc db ≡ ok db
  unfolding register_receipt_integrity_root assert_root_matches fail_if
  register_root-bound db bound = rw bound.root (rw (text_eq_refl (expected_root svc)) refl)

  no_state : (db : Database) → IsBound svc db → db.registry_state ≢ none
  unfolding is_checkpoint
  no_state db bound e = cc (rw e at bound.checkpoint)

  register_state-bound :
      (o : Option Text) (db : Database)
      → IsBound svc db
      → db.registry_state ≡ o
      → register_state svc o db ≡ ok db
  unfolding assert_registry_state fail_if
  register_state-bound (some value) db bound e = rw bound.checkpoint refl
  register_state-bound none db bound e = absurd (no_state db bound e)

  bind_database-bound :
      (db : Database) → IsBound svc db → has_all_references db ≡ true → bind_database svc db ≡ ok db
  unfolding bind_database register_signing_key_registry_state validate_key_rows fail_if
  bind_database-bound db bound references = rw (register_root-bound db bound) (
      rw bound.attested
        (rw (register_state-bound db.registry_state db bound refl) (rw references refl)))

  register_signing_key-bound :
      (public_jwk : Json) (w : World)
      → IsBound svc w.db
      → HasKey svc public_jwk w.db
      → register_signing_key svc public_jwk w ≡ (ok tt, w)
  unfolding register_signing_key resume fail_if
  register_signing_key-bound public_jwk w bound key = rw (IsBound-validated svc w.db bound) (
      rw key.found
        (rw key.parsed (rw (text_eq_complete key.same) (rw (text_eq_complete key.attested) refl))))

  -- A database that is bound to the configuration and has the key is opened again as it is.
  pub open_database-again :
      (public_jwk : Json) (w : World)
      → IsBound svc w.db
      → HasKey svc public_jwk w.db
      → has_all_references w.db ≡ true
      → open_database svc public_jwk w ≡ (ok tt, w)
  unfolding open_database resume transaction store finish
  open_database-again public_jwk w bound key references = rw (preflight-bound w.db bound) (
      rw (bind_database-bound w.db bound references)
        (rw (register_signing_key-bound public_jwk w bound key) refl))

-- Another configuration is refused.
pub open_database-refuses :
    (svc other : Service) (public_jwk : Json) (w : World)
    → IsBound svc w.db
    → expected_root other ≢ expected_root svc
    → open_database other public_jwk w ≡ (fail receipt_key_mismatch 500, w)
unfolding open_database resume preflight_receipt_integrity assert_root_matches fail_if
open_database-refuses svc other public_jwk w bound ne =
    rw bound.root (rw (differs (expected_root svc) (expected_root other) (λ e. ne (sym e))) refl)
