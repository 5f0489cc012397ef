-- ===== src/Service/Envelopes/Total.antt =====
-- `verifyAuthorizationEnvelope` answers whatever it is given.
use parimit.Common.{
  ℕ, suc, ◌/◌, arith, ◌≡◌, refl, Bool, true, false, ◌&&◌, Option, none, some, List, [], ◌∷◌, ◌++◌,
  ◌==◌, length,
}
use parimit.Text.{Text, lit, text_eq}
use parimit.Json.{Json, null, bool, num, str, arr, obj}
use parimit.Result.{Result, ok}
use parimit.Exec.{World, resume, pure}
use parimit.Database.Envelopes.{find_envelope}
use parimit.Service.{Service, now}
use parimit.Service.Envelopes.Verify.{
  Verification, failing, refused, Reading, unsigned, signed, complete, judge, judge_reading,
  read_signed, is_time_valid, is_binding_valid, is_local, audience_matches,
  verify_authorization_envelope,
}

abbrev pub is_clear : List Text → Bool
is_clear [] = true
is_clear (t ∷ ts) = false

never : (b c : Bool) (n : ℕ) → (b && (c && suc n == 0)) ≡ false
never b c n = ground arith

-- The flags agree with the failures that are listed.
valid-is_clear :
    (time issuer audience tenant local bound : Bool) (a b c d e f : Text)
    → (time
        && (local
            && (bound
                && length (
                    failing time a
                    ++ (failing issuer b
                        ++ (failing audience c
                            ++ (failing tenant d ++ (failing local e ++ failing bound f)))))
                  == 0)))
      ≡ is_clear (
          failing time a
          ++ (failing issuer b
              ++ (failing audience c
                  ++ (failing tenant d ++ (failing local e ++ failing bound f)))))
valid-is_clear false i u t l k a b c d e f = refl
valid-is_clear true false u t l k a b c d e f = never l k _
valid-is_clear true true false t l k a b c d e f = never l k _
valid-is_clear true true true false l k a b c d e f = never l k _
valid-is_clear true true true true false k a b c d e f = refl
valid-is_clear true true true true true false a b c d e f = refl
valid-is_clear true true true true true true a b c d e f = refl

-- `m` returned a verification that is valid exactly when it lists no failure, and wrote nothing.
pub record Answers (w : World) (m : Result Verification × World) : Type 0 where
  pub v : Verification
  pub w' : World
  pub returned : m ≡ (ok v, w')
  pub untouched : w'.db ≡ w.db
  pub agrees : v.valid ≡ is_clear v.failures

module _ (svc : Service) (audience : Option Json) (w : World) where
  refused-Answers :
      (signature : Bool) (failure : Text) → Answers w (pure (refused signature failure) w)
  refused-Answers signature failure = record {
    v = _;
    w' = w;
    returned = refl;
    untouched = refl;
    agrees = refl;
  }

  judge_reading-Answers :
      (jws : Text) (reading : Reading) → Answers w (judge_reading svc jws audience reading w)
  unfolding judge_reading now resume judge
  judge_reading-Answers jws unsigned = refused-Answers _ _
  judge_reading-Answers jws signed = refused-Answers _ _
  judge_reading-Answers jws (complete c) = record {
    v = _;
    w' = _;
    returned = refl;
    untouched = refl;
    agrees =
        valid-is_clear (is_time_valid svc jws c (svc.clock w.clock_reads / 1000))
          (text_eq c.head.iss svc.envelope_issuer) (audience_matches svc jws c audience)
          (text_eq c.head.tenant_id svc.tenant_id)
          (is_local svc jws c (find_envelope svc.tenant_id c.head.jti w.db))
          (is_binding_valid svc jws c w.db) (lit "ENVELOPE_TIME_INVALID") (lit "ISSUER_MISMATCH")
          (lit "AUDIENCE_MISMATCH") (lit "TENANT_MISMATCH") (lit "LOCAL_ISSUANCE_NOT_PROVEN")
          (lit "INTENT_BINDING_INVALID");
  }

  -- Whatever text is given, and whatever the database holds, `verifyAuthorizationEnvelope` returns and
  -- does not throw; it writes nothing, and finds the text valid exactly when it lists no failure.
  pub verify_authorization_envelope-Answers :
      (jws : Option Json) → Answers w (verify_authorization_envelope svc jws audience w)
  unfolding verify_authorization_envelope resume
  verify_authorization_envelope-Answers none = refused-Answers _ _
  verify_authorization_envelope-Answers (some (str jws)) =
      judge_reading-Answers jws (read_signed svc jws w.db)
  verify_authorization_envelope-Answers (some null) = refused-Answers _ _
  verify_authorization_envelope-Answers (some (bool b)) = refused-Answers _ _
  verify_authorization_envelope-Answers (some (num n)) = refused-Answers _ _
  verify_authorization_envelope-Answers (some (arr vs)) = refused-Answers _ _
  verify_authorization_envelope-Answers (some (obj fs)) = refused-Answers _ _
