-- ===== src/Database/Envelopes.antt =====
-- The statements of src/service.ts on the table `authorization_envelopes`.
use parimit.Common.{
  ℕ, Bool, true, false, not, ◌&&◌, ◌||◌, Option, none, some, List, [], ◌∷◌, ◌++◌, ltb, ◌==◌,
  if◌then◌else◌, any, select, find, length,
}
use parimit.Text.{Text, text_eq, text_lt}
use parimit.Result.{Result, ok, fail, constraint_violation}
use parimit.Database.{Database, EnvelopeRow}

-- `WHERE id = ? AND tenant_id = ?`
abbrev pub is_envelope : Text → Text → EnvelopeRow → Bool
is_envelope tenant id e = text_eq e.id id && text_eq e.tenant_id tenant

unfoldable pub find_envelope : Text → Text → Database → Option EnvelopeRow
find_envelope tenant id db = find (is_envelope tenant id) db.envelopes

-- `SELECT * FROM authorization_envelopes WHERE id = ?`
unfoldable pub envelope_row : Text → Database → Option EnvelopeRow
envelope_row id db = find (λ e. text_eq e.id id) db.envelopes

-- `WHERE tenant_id = ? AND intent_id = ? AND state_version = ? AND audience = ?`
abbrev pub is_issued_for : Text → Text → ℕ → Text → EnvelopeRow → Bool
is_issued_for tenant intent version audience e =
    text_eq e.tenant_id tenant
    && (text_eq e.intent_id intent && (e.state_version == version && text_eq e.audience audience))

unfoldable pub find_issued : Text → Text → ℕ → Text → Database → Option EnvelopeRow
find_issued tenant intent version audience db =
    find (is_issued_for tenant intent version audience) db.envelopes

abbrev pub breaks_constraint : EnvelopeRow → EnvelopeRow → Bool
breaks_constraint row e =
    text_eq e.id row.id
    || text_eq e.compact_jws row.compact_jws
    || is_issued_for row.tenant_id row.intent_id row.state_version row.audience e
    || (text_eq e.tenant_id row.tenant_id && text_eq e.nonce_hash row.nonce_hash)

-- The foreign keys: the proposal and the key are stored.
unfoldable pub has_references : EnvelopeRow → Database → Bool
has_references row db =
    any (λ r. text_eq r.id row.intent_id) db.intents
    && any (λ k. text_eq k.key_id row.key_id) db.signing_keys

-- `INSERT INTO authorization_envelopes`, under its PRIMARY KEY, its UNIQUE constraints and its foreign
-- keys.
unfoldable pub insert_envelope : EnvelopeRow → Database → Result Database
insert_envelope row db =
    if any (breaks_constraint row) db.envelopes || not (has_references row db)
    then fail constraint_violation 500
    else ok (record db { envelopes = db.envelopes ++ row ∷ [] })

abbrev is_null : Option ℕ → Bool
is_null none = true
is_null (some t) = false

-- `consumed_at IS NULL`
abbrev pub is_unconsumed : EnvelopeRow → Bool
is_unconsumed e = is_null e.consumed_at

-- `WHERE id = ? AND tenant_id = ? AND consumed_at IS NULL`
abbrev pub is_claimable : Text → Text → EnvelopeRow → Bool
is_claimable tenant id e = is_envelope tenant id e && is_unconsumed e

abbrev pub claim : ℕ → Text → Text → EnvelopeRow → EnvelopeRow
claim at actor key e = record e {
  consumed_at = some at;
  consumed_by = some actor;
  consumption_idempotency_key = some key;
}

unfoldable pub claim_rows : Text → Text → ℕ → Text → Text → List EnvelopeRow → List EnvelopeRow
claim_rows tenant id at actor key [] = []
claim_rows tenant id at actor key (e ∷ es) =
    (if is_claimable tenant id e then claim at actor key e else e)
    ∷ claim_rows tenant id at actor key es

-- The UPDATE that consumes, with the number of changes.
unfoldable pub claim_envelope : Text → Text → ℕ → Text → Text → Database → Database × ℕ
unfolding claim_rows
claim_envelope tenant id at actor key db = (
  record db { envelopes = claim_rows tenant id at actor key db.envelopes },
  length (select (is_claimable tenant id) db.envelopes),
)

-- `ORDER BY issued_at, id`
abbrev is_issued_before : EnvelopeRow → EnvelopeRow → Bool
is_issued_before a b =
    ltb a.issued_at b.issued_at || (a.issued_at == b.issued_at && text_lt a.id b.id)

unfoldable pub insert_by_issue : EnvelopeRow → List EnvelopeRow → List EnvelopeRow
insert_by_issue a [] = a ∷ []
insert_by_issue a (b ∷ bs) = if is_issued_before b a then b ∷ insert_by_issue a bs else a ∷ b ∷ bs

unfoldable pub order_envelopes : List EnvelopeRow → List EnvelopeRow
unfolding insert_by_issue
order_envelopes [] = []
order_envelopes (a ∷ rest) = insert_by_issue a (order_envelopes rest)

-- `SELECT * FROM authorization_envelopes WHERE intent_id = ? ORDER BY issued_at, id`
unfoldable pub envelopes_for : Text → Database → List EnvelopeRow
envelopes_for id db = order_envelopes (select (λ e. text_eq e.intent_id id) db.envelopes)
