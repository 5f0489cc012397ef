-- ===== src/Service/Startup/Open.antt =====
-- src/service.ts, `registerEnvelopeSigningKey`, and what the constructor does to the database, in its
-- order. What fails before the last step leaves what the steps before it committed.
use parimit.Common.{Option, none, some, find}
use parimit.Text.{text_eq}
use parimit.Json.{Json}
use parimit.Database.{SigningKeyRow}
use parimit.Exec.{Action, ◌>>=◌, ◌>>◌, lift, query_result, execute, transaction}
use parimit.Service.{Service, now}
use parimit.Service.Keys.{registry_of, validated_keys}
use parimit.Service.Startup.{preflight_receipt_integrity, bind_database}
use parimit.Service.Startup.Key.{new_key, store_key, same_key}

module _ (svc : Service) (public_jwk : Json) where
  abbrev pub register_key : Option SigningKeyRow → Action (Unit {0})
  register_key (some row) = lift (same_key svc public_jwk row row.public_jwk)
  register_key none = do
    created_at ← now svc
    execute (store_key svc (new_key svc public_jwk created_at))

  -- The transaction of `registerEnvelopeSigningKey`.
  unfoldable pub register_signing_key : Action (Unit {0})
  register_signing_key = do
    rows ← query_result (λ db. validated_keys svc (registry_of db))
    register_key (find (λ k. text_eq k.key_id svc.envelope_key_id) rows)

  unfoldable pub open_database : Action (Unit {0})
  open_database = do
    query_result (preflight_receipt_integrity svc)
    transaction (execute (bind_database svc))
    transaction register_signing_key
