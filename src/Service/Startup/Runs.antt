-- ===== src/Service/Startup/Runs.antt =====
-- No call of a method touches the key registry or the integrity root.
use parimit.Common.{◌≡◌, ◌≢◌, refl, sym, subst, ◌∙◌, true, List, [], ◌∷◌, inl, inr, ℕ}
use parimit.Text.{Text}
use parimit.Json.{Json}
use parimit.Types.{EventType}
use parimit.Result.{ok, fail, receipt_key_mismatch, >>=-eq-ok, ok_injective}
use parimit.Database.{Database, IntentRow}
use parimit.Exec.{World}
use parimit.Service.{Service}
use parimit.Service.Methods.Deadline.{expire_one, expire_all}
use parimit.Service.Methods.Calls.{Call, run}
use parimit.Service.Commit.{
  Commit, expiry, creation, deadline, review, cancellation, observation, issuance, consumption,
  Commits, here, next,
}
use parimit.Service.Commit.Methods.{run-Commits}
use parimit.Service.Effects.{
  Wrote, expire_one-cases, expire_at_deadline-Wrote, insert_and_record-Wrote,
  store_cancellation-Wrote,
}
use parimit.Service.Effects.Reviews.{store_review-Wrote, store_observation-Wrote}
use parimit.Service.Effects.Evidence.{store_envelope-Wrote, store_consumption-Wrote}
use parimit.Service.Startup.{expected_root, has_all_references}
use parimit.Service.Startup.Open.{open_database}
use parimit.Service.Startup.Bound.{IsBound}
use parimit.Service.Startup.Registered.{HasKey}
use parimit.Service.Startup.Opened.{
  open_database-Registered, open_database-again, open_database-refuses,
}

record SameTrust (db db' : Database) : Type 0 where
  signing_keys : db'.signing_keys ≡ db.signing_keys
  registry_state : db'.registry_state ≡ db.registry_state
  integrity_root : db'.integrity_root ≡ db.integrity_root

same_trust :
    {db db' : Database}
    → db'.signing_keys ≡ db.signing_keys
    → db'.registry_state ≡ db.registry_state
    → db'.integrity_root ≡ db.integrity_root
    → SameTrust db db'
same_trust k s r = record { signing_keys = k; registry_state = s; integrity_root = r }

SameTrust-refl : (db : Database) → SameTrust db db
SameTrust-refl db = record { signing_keys = refl; registry_state = refl; integrity_root = refl }

SameTrust-trans : {a b c : Database} → SameTrust a b → SameTrust b c → SameTrust a c
SameTrust-trans p q = record {
  signing_keys = q.signing_keys ∙ p.signing_keys;
  registry_state = q.registry_state ∙ p.registry_state;
  integrity_root = q.integrity_root ∙ p.integrity_root;
}

module _ (svc : Service) where
  -- A write of another table, and its event.
  Wrote-SameTrust :
      {id : Text} {type : EventType} {actor : Text} {payload : Json} {at : ℕ}
      {db mid db' : Database}
      → SameTrust db mid
      → Wrote svc id type actor payload at mid db'
      → SameTrust db db'
  Wrote-SameTrust same wrote = SameTrust-trans same (record {
    signing_keys = wrote.signing_keys;
    registry_state = wrote.registry_state;
    integrity_root = wrote.integrity_root;
  })

  expire_one-SameTrust :
      (id : Text) (at : ℕ) (db db' : Database) → expire_one svc at id db ≡ ok db' → SameTrust db db'
  expire_one-SameTrust id at db db' h = elim (expire_one-cases svc id at db h) [
    | inl same ↦ subst (SameTrust db) (sym same) (same_trust refl refl refl)
    | inr (_, wrote) ↦ Wrote-SameTrust (same_trust refl refl refl) wrote
  ]

  expire_all-SameTrust :
      (at : ℕ) (rows : List IntentRow) (db db' : Database)
      → expire_all svc at rows db ≡ ok db'
      → SameTrust db db'
  unfolding expire_all
  expire_all-SameTrust at [] db db' h = subst (SameTrust db) (ok_injective h) (SameTrust-refl db)
  expire_all-SameTrust at (r ∷ rows) db db' h =
      let (mid, e, h') = >>=-eq-ok _ _ h in
      SameTrust-trans (expire_one-SameTrust r.id at db mid e)
        (expire_all-SameTrust at rows mid db' h')

  Commit-SameTrust : {db db' : Database} → Commit svc db db' → SameTrust db db'
  Commit-SameTrust {db} {db'} (expiry at h) = expire_all-SameTrust at _ db db' h
  Commit-SameTrust {db} (creation input id reading created_at _ h) =
      let (_, _, wrote) = insert_and_record-Wrote svc input _ _ id created_at db h in
      Wrote-SameTrust (same_trust refl refl refl) wrote
  Commit-SameTrust {db} (deadline id row at _ _ _ h) =
      let (_, wrote) = expire_at_deadline-Wrote svc id at db h in
      Wrote-SameTrust (same_trust refl refl refl) wrote
  Commit-SameTrust {db} (review id row actor role decision at uuid _ _ _ _ _ h) =
      let (_, _, _, wrote) = store_review-Wrote svc row actor role decision at uuid db h in
      Wrote-SameTrust (same_trust refl refl refl) wrote
  Commit-SameTrust {db} (cancellation id row actor role at _ _ _ _ h) =
      let (_, wrote) = store_cancellation-Wrote svc id actor at db h in
      Wrote-SameTrust (same_trust refl refl refl) wrote
  Commit-SameTrust {db} (observation id row status reference actor at uuid _ _ _ h) =
      let (_, wrote) = store_observation-Wrote svc id status reference actor at uuid db h in
      Wrote-SameTrust (same_trust refl refl refl) wrote
  Commit-SameTrust {db} (issuance id input s actor _ _ _ _ _ h) =
      let (_, wrote) = store_envelope-Wrote svc input s actor db h in
      Wrote-SameTrust (same_trust refl refl refl) wrote
  Commit-SameTrust {db} (consumption id row audience actor key at _ _ _ _ h) =
      let (_, wrote) = store_consumption-Wrote svc row audience actor key at db h in
      Wrote-SameTrust (same_trust refl refl refl) wrote

  Commits-SameTrust : {db db' : Database} → Commits svc db db' → SameTrust db db'
  Commits-SameTrust {db} here = SameTrust-refl db
  Commits-SameTrust (next cs c) = SameTrust-trans (Commits-SameTrust cs) (Commit-SameTrust c)

SameTrust-IsBound :
    (svc : Service) {db db' : Database} → SameTrust db db' → IsBound svc db → IsBound svc db'
SameTrust-IsBound svc same bound = record {
  root = same.integrity_root ∙ bound.root;
  attested = rw same.signing_keys bound.attested;
  checkpoint = rw same.signing_keys (rw same.registry_state bound.checkpoint);
}

SameTrust-HasKey :
    (svc : Service) (public_jwk : Json) {db db' : Database}
    → SameTrust db db'
    → HasKey svc public_jwk db
    → HasKey svc public_jwk db'
SameTrust-HasKey svc public_jwk same key = record {
  row = key.row;
  stored = key.stored;
  found = rw same.signing_keys key.found;
  parsed = key.parsed;
  same = key.same;
  attested = key.attested;
}

-- Once the constructor has returned, and whatever calls are served since, the same configuration with
-- the same key opens the database again and leaves it as it is, where its foreign keys hold; and a
-- configuration whose integrity root is another one is refused with RECEIPT_KEY_MISMATCH, and nothing is
-- written.
pub open_database-run :
    (svc other : Service) (public_jwk jwk' : Json) (calls : List Call) (w : World) {u : Unit {0}}
    {w' : World}
    → open_database svc public_jwk w ≡ (ok u, w')
    → has_all_references (run svc calls w').db ≡ true
    → expected_root other ≢ expected_root svc
    → (open_database svc public_jwk (run svc calls w') ≡ (ok tt, run svc calls w'))
      × (open_database other jwk' (run svc calls w')
          ≡ (fail receipt_key_mismatch 500, run svc calls w'))
open_database-run svc other public_jwk jwk' calls w {u} {w'} h references differs =
    let (bound, _, key) = open_database-Registered svc public_jwk w h in
    let same = Commits-SameTrust svc (run-Commits svc calls w') in
    let bound' = SameTrust-IsBound svc same bound in
    (
      open_database-again svc public_jwk (run svc calls w') bound'
          (SameTrust-HasKey svc public_jwk same key) references,
      open_database-refuses svc other jwk' (run svc calls w') bound' differs,
    )
