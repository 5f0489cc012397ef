-- ===== src/Examples/Issued.antt =====
-- An authorized proposal, a registered key, and the envelope that the service issues.
-- signature is one of zeros, and JSON is read from a table.
use parimit.Common.{
  ℕ, suc, zero, ◌∷◌, ◌++◌, Bool, true, false, Option, some, List, [], if◌then◌else◌,
}
use parimit.Json.{Json, null, num, str}
use parimit.Json.Build.{object}
use parimit.Text.{Text}
use parimit.Result.{Result, ok, err}
use parimit.Exec.{World}
use parimit.Service.Methods.Calls.{Call, creates, approves}
use parimit.Envelope.{header_json}
use parimit.Envelope.Base64.{to_base64url}
use parimit.Service.Envelopes.{IssueInput, EnvelopeView}
use parimit.Service.Envelopes.Store.{claims_json, Sources}
use parimit.Service.Envelopes.Issue.{gather, issue_authorization_envelope}
use parimit.Examples.{sample_service, sample_body, sample_proposal, start}
use parimit.Database.{IntentRow, empty}
use parimit.Service.{Service}
use parimit.Service.Methods.Calls.{run}
use parimit.Service.Methods.Insert.{new_intent}
use parimit.Service.Policy.{decide_policy}
use parimit.Text.{lit, text_lt}
use parimit.Text.Decimal.{decimal}

unfoldable pub zeros : ℕ → Text
zeros zero = []
zeros (suc n) = b'0' ∷ zeros n

unfoldable pub zero_bytes : ℕ → List ℕ
zero_bytes zero = []
zero_bytes (suc n) = 0 ∷ zero_bytes n

unfoldable pub base_service : Service
base_service = record sample_service {
  sha256 = λ t. zeros 64;
  hmac = λ key t. lit "mac";
  random_uuid = λ n. lit "00000000-0000-4000-8000-00000000000" ++ decimal n;
  random_bytes = λ n. zero_bytes 32;
}

abbrev calls : List Call
calls =
    creates sample_body
    ∷ approves (lit "00000000-0000-4000-8000-000000000000") (some (str (lit "alice")))
        (lit "approver") (some (str (lit "APPROVE")))
    ∷ approves (lit "00000000-0000-4000-8000-000000000000") (some (str (lit "bob"))) (lit "admin")
        (some (str (lit "APPROVE")))
    ∷ []

abbrev authorized : World
authorized = run base_service calls start

abbrev row_of : List IntentRow → IntentRow
row_of [] =
    new_intent sample_service sample_proposal (lit "")
      (decide_policy sample_service sample_proposal 0 empty) (lit "") 0
row_of (r ∷ rs) = r

abbrev row : IntentRow
row = row_of authorized.db.intents

abbrev input : IssueInput
input = record {
  audience = lit "urn:parimit:consumer:local-demo";
  idempotency_key = lit "issue-1";
  expires_in_seconds = 60;
}

abbrev claims_in : Result Sources → Json
claims_in (ok s) = claims_json base_service input s
claims_in (err e) = null

abbrev claims : Json
claims = claims_in (gather base_service row.id row 1704067200000 1704067200000 authorized).0

unfoldable pub jwk : Json
jwk = object (
    (lit "kty", str (lit "OKP"))
    ∷ (lit "crv", str (lit "Ed25519"))
    ∷ (lit "x", str (to_base64url (zero_bytes 32)))
    ∷ (lit "kid", str (lit "key"))
    ∷ [])

-- `JSON.parse` of a header and of the claims.
unfoldable pub table : Text → Option Json
table t = if text_lt t (lit "{\"am") then some (header_json (lit "key")) else some claims

unfoldable pub evidence_service : Service
evidence_service = record base_service {
  platform = record {
    utf8 = λ t. t;
    from_utf8 = some;
    parse_json = table;
    sign = λ t. zero_bytes 64;
    is_public_key = λ k. true;
    verify = λ k t s. true;
  };
}

-- The key is registered, and attested by the constant digest.
unfoldable pub registered : World
registered = record authorized {
  db = record authorized.db {
    signing_keys =
        record {
          key_id = lit "key";
          public_jwk = some jwk;
          created_at = 0;
          attestation_hmac = lit "mac";
        }
        ∷ [];
    registry_state = some (lit "mac");
  };
}

abbrev body : Json
body = object (
    (lit "audience", str (lit "urn:parimit:consumer:local-demo"))
    ∷ (lit "idempotency_key", str (lit "issue-1"))
    ∷ (lit "expires_in_seconds", num 60)
    ∷ [])

abbrev pub issuance : Result EnvelopeView × World
issuance =
    issue_authorization_envelope evidence_service row.id body (some (str (lit "alice")))
      (lit "approver") registered

abbrev pub is_issued_view : Result EnvelopeView → Bool
is_issued_view (ok v) = true
is_issued_view (err e) = false

abbrev jws_in : Result EnvelopeView → Text
jws_in (ok v) = v.row.compact_jws
jws_in (err e) = []

abbrev pub jws : Text
jws = jws_in issuance.0

abbrev pub audience : Option Json
audience = some (str (lit "urn:parimit:consumer:local-demo"))
