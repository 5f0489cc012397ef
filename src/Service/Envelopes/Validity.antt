-- ===== src/Service/Envelopes/Validity.antt =====
-- What a valid verification says.
use parimit.Common.{
  ℕ, ◌/◌, ◌≤◌, ◌<◌, ◌≡◌, refl, Bool, true, false, Option, none, some, List, [], ◌∷◌, arith, length,
  ◌==◌, leb→le, ltb→lt, &&-eq-true, append-eq-nil, ==_iff,
}
use parimit.Text.{Text, text_eq, text_eq_iff}
use parimit.Json.{Json, str}
use parimit.Types.{IntentStatus, is_v3, is_authorized, authorized_no_dispatch}
use parimit.Result.{Result, ok}
use parimit.Database.{Database, IntentRow, EnvelopeRow, find_intent}
use parimit.Database.Envelopes.{find_envelope}
use parimit.Envelope.Claims.Decision.{Claims}
use parimit.Exec.{World}
use parimit.Exec.Yields.{Yields, returns, Yields-ok, Yields-returned}
use parimit.Service.{Service, now}
use parimit.Service.Integrity.{verify_integrity}
use parimit.Service.Integrity.Failures.{Report}
use parimit.Service.Envelopes.Store.{is_oidc}
use parimit.Service.Envelopes.Verify.{
  Verification, is_time_valid, audience_matches, is_artifact, is_local, is_bound, with_report,
  is_binding_valid, judge, failing, same_flag, Reading, unsigned, signed, complete, read_signed,
  judge_reading, verify_authorization_envelope,
}

authorized_of : (s : IntentStatus) → is_authorized s ≡ true → s ≡ authorized_no_dispatch
authorized_of s h = ground arith

no_failure : (b : Bool) (t : Text) → failing b t ≡ [] → b ≡ true
no_failure true t h = refl
no_failure false t h = cc

no_element : (ts : List Text) → (length ts == 0) ≡ true → ts ≡ []
no_element [] h = refl
no_element (t ∷ ts) h = ground arith

module _ (svc : Service) (jws : Text) (c : Claims) where
  -- The stored row that proves that the service issued this very text.
  pub record Issued (db : Database) : Type 0 where
    pub row : EnvelopeRow
    pub found : find_envelope svc.tenant_id c.head.jti db ≡ some row
    pub same : row.compact_jws ≡ jws

  -- The proposal that the claims are about, as it stands.
  pub record Bound (db : Database) : Type 0 where
    pub row : IntentRow
    pub report : Report
    pub found : find_intent svc.tenant_id c.snapshot.id db ≡ some row
    pub verified : verify_integrity svc c.snapshot.id db ≡ ok report
    pub sound : report.valid ≡ true
    pub authorized : row.status ≡ authorized_no_dispatch
    pub version : row.state_version ≡ c.decision.state_version
    pub hash : row.intent_hash ≡ c.intent_digest

  artifact_text : (row : EnvelopeRow) → is_artifact svc jws c row ≡ true → row.compact_jws ≡ jws
  unfolding is_artifact
  artifact_text row h = (text_eq_iff row.compact_jws jws).0 ((&&-eq-true _ _ h).0)

  issued_of :
      (o : Option EnvelopeRow) (db : Database)
      → find_envelope svc.tenant_id c.head.jti db ≡ o
      → is_local svc jws c o ≡ true
      → Issued db
  issued_of none db e h = cc
  issued_of (some row) db e h = record { row = row; found = e; same = artifact_text row h }

  with_report-Bound :
      (o : Option IntentRow) (r : Result Report) (db : Database)
      → find_intent svc.tenant_id c.snapshot.id db ≡ o
      → verify_integrity svc c.snapshot.id db ≡ r
      → with_report svc jws c o r db ≡ true
      → Bound db
  unfolding is_bound
  with_report-Bound none r db e f h = cc
  with_report-Bound (some row) (Result.err x) db e f h = cc
  with_report-Bound (some row) (ok report) db e f h =
      let (sound, h₁) = &&-eq-true report.valid _ h in
      let (_, h₂) = &&-eq-true (is_v3 row.intent_version) _ h₁ in
      let (status, h₃) = &&-eq-true (is_authorized row.status) _ h₂ in
      let (_, h₄) = &&-eq-true (text_eq row.tenant_id c.head.tenant_id) _ h₃ in
      let (_, h₅) =
        &&-eq-true (same_flag c.assurance.is_oidc (is_oidc svc.authentication_mode)) _ h₄ in
      let (_, h₆) =
        &&-eq-true (text_eq c.assurance.trust_domain_id svc.identity_trust_domain_id) _ h₅ in
      let (hash, h₇) = &&-eq-true (text_eq row.intent_hash c.intent_digest) _ h₆ in
      let (version, _) = &&-eq-true (row.state_version == c.decision.state_version) _ h₇ in
      record {
        row = row;
        report = report;
        found = e;
        verified = f;
        sound = sound;
        authorized = authorized_of row.status status;
        version = (==_iff _ _).0 version;
        hash = (text_eq_iff _ _).0 hash;
      }

  in_window :
      (now_seconds : ℕ)
      → is_time_valid svc jws c now_seconds ≡ true
      → (c.head.nbf ≤ now_seconds) × (now_seconds < c.head.exp)
  unfolding is_time_valid
  in_window now_seconds h =
      let (_, h₁) = &&-eq-true _ _ h in
      let (from, h₂) = &&-eq-true _ _ h₁ in
      let (until, _) = &&-eq-true _ _ h₂ in (leb→le _ _ from, ltb→lt _ _ until)

  -- What the verification of readable claims says where it is valid.
  pub record Proven (audience : Option Json) (at : ℕ) (db : Database) : Type 0 where
    pub window : (c.head.nbf ≤ at / 1000) × (at / 1000 < c.head.exp)
    pub issuer : c.head.iss ≡ svc.envelope_issuer
    pub tenant : c.head.tenant_id ≡ svc.tenant_id
    pub addressed : audience_matches svc jws c audience ≡ true
    pub issued : Issued db
    pub bound : Bound db

  pub judge-Proven :
      (audience : Option Json) (at : ℕ) (db : Database)
      → (judge svc jws c audience at db).valid ≡ true
      → Proven audience at db
  unfolding judge is_binding_valid
  judge-Proven audience at db h =
      let (time, h₁) = &&-eq-true _ _ h in
      let (local, h₂) = &&-eq-true _ _ h₁ in
      let (bound, none_failed) = &&-eq-true _ _ h₂ in
      let (_, f₁) = append-eq-nil _ _ (no_element _ none_failed) in
      let (issuer, f₂) = append-eq-nil _ _ f₁ in
      let (audience_ok, f₃) = append-eq-nil _ _ f₂ in
      let (tenant, _) = append-eq-nil _ _ f₃ in
      record {
        window = in_window (at / 1000) time;
        issuer = (text_eq_iff _ _).0 (no_failure _ _ issuer);
        tenant = (text_eq_iff _ _).0 (no_failure _ _ tenant);
        addressed = no_failure _ _ audience_ok;
        issued = issued_of _ db refl local;
        bound = with_report-Bound _ _ db refl refl bound;
      }

module _ (svc : Service) (jws : Text) (audience : Option Json) (w : World) where
  abbrev ValidProves : Verification → World → Type 0
  ValidProves v w' =
      v.valid ≡ true
      → (c : Claims) × (v.claims ≡ some c)
        × (read_signed svc jws w.db ≡ complete c)
        × Proven svc jws c audience (svc.clock w.clock_reads) w'.db

  judge_reading-Yields :
      (reading : Reading)
      → read_signed svc jws w.db ≡ reading
      → Yields ValidProves (judge_reading svc jws audience reading w)
  unfolding judge_reading now judge
  judge_reading-Yields unsigned e = returns λ valid. cc
  judge_reading-Yields signed e = returns λ valid. cc
  judge_reading-Yields (complete c) e =
      Yields-ok _ _ _ (returns λ valid. (c, refl, e, judge-Proven svc jws c audience _ w.db valid))

  verify-Yields : Yields ValidProves (verify_authorization_envelope svc (some (str jws)) audience w)
  unfolding verify_authorization_envelope
  verify-Yields = Yields-ok _ _ w (judge_reading-Yields _ refl)

  -- Where `verifyAuthorizationEnvelope` finds a text valid, its signature and schema could be read; at
  -- the time of the check it is in its lifetime; issuer, tenant and audience are the service's; a stored
  -- envelope holds this very text; and the proposal that it names is stored, authorized, in the state
  -- and with the hash that it states, and has a valid integrity report.
  pub verify_authorization_envelope-Proven :
      (v : Verification) (w' : World)
      → verify_authorization_envelope svc (some (str jws)) audience w ≡ (ok v, w')
      → v.valid ≡ true
      → (c : Claims) × (v.claims ≡ some c)
        × (read_signed svc jws w.db ≡ complete c)
        × Proven svc jws c audience (svc.clock w.clock_reads) w'.db
  verify_authorization_envelope-Proven v w' h = Yields-returned _ verify-Yields h
