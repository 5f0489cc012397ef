-- ===== src/Auth/Trust.antt =====
-- What an actor that `OidcIdentityProvider.authenticate` returns stands for.
use parimit.Common.{
  ℕ, ◌+◌, ◌<◌, ◌≡◌, refl, subst, ap, Bool, true, false, Option, none, some, List, [], ◌∷◌,
  &&-eq-true, ltb→lt, not,
}
use parimit.Text.{is_empty, lit}
use parimit.Json.{Json, null, bool, num, str, arr, obj, Fields, get_field}
use parimit.Types.{oidc}
use parimit.Result.{ok, ok_injective, >>=-eq-ok, fail_if-eq-ok}
use parimit.Service.Integrity.Payloads.{is_str}
use parimit.Exec.Yields.{Yields, Yields-result, Yields-then, Yields-lift, Yields-returned}
use parimit.Envelope.{signing_input}
use parimit.Auth.{ActorRole, AuthenticatedActor, Headers}
use parimit.Auth.Provider.{OidcProvider, ProviderState}
use parimit.Auth.Claims.{
  are_registered, claim_values, mapped_roles, only_role, lives, audience_matches, is_subject,
}
use parimit.Auth.Accept.{
  Token, read_token, accept, verify_jwt_signature, subject_of, stable_actor_id,
}
use parimit.Auth.Choice.{Chosen, ReadBetween, find_key-Chosen}
use parimit.Auth.Oidc.{authenticate}

not-eq-false : (b : Bool) → not b ≡ false → b ≡ true
not-eq-false true h = refl
not-eq-false false h = cc

is_subject-filled :
    (claim : Option Json) → is_subject claim ≡ true → is_empty (subject_of claim) ≡ false
is_subject-filled (some (str [])) h = cc
is_subject-filled (some (str (c ∷ s))) h = refl
is_subject-filled none h = cc
is_subject-filled (some null) h = cc
is_subject-filled (some (bool b)) h = cc
is_subject-filled (some (num n)) h = cc
is_subject-filled (some (arr vs)) h = cc
is_subject-filled (some (obj fs)) h = cc

module _ (p : OidcProvider) where
  only_role-eq-ok :
      (roles : List ActorRole) {role : ActorRole} → only_role roles ≡ ok role → roles ≡ role ∷ []
  unfolding only_role
  only_role-eq-ok [] h = cc
  only_role-eq-ok (r ∷ []) h = ap (λ x. x ∷ []) (ok_injective h)
  only_role-eq-ok (r ∷ s ∷ rest) h = cc

  -- The token is still alive at the time of the call, the skew of the clocks granted.
  abbrev pub Alive : Fields → ℕ → Type 0
  Alive claims now =
      (exp : ℕ) × (get_field (lit "exp") claims ≡ some (num exp))
      × (now < exp + p.clock_skew_seconds)

  lives-Alive :
      (claims : Fields) (now : ℕ) (claim : Option Json)
      → get_field (lit "exp") claims ≡ claim
      → lives p claims now claim ≡ true
      → Alive claims now
  lives-Alive claims now (some (num exp)) e h =
      let (alive, _) = &&-eq-true _ _ h in (exp, e, ltb→lt _ _ alive)
  lives-Alive claims now none e h = cc
  lives-Alive claims now (some (str s)) e h = cc
  lives-Alive claims now (some (arr vs)) e h = cc
  lives-Alive claims now (some (obj fs)) e h = cc
  lives-Alive claims now (some null) e h = cc
  lives-Alive claims now (some (bool b)) e h = cc

  -- What an authenticated actor stands for: a token that was sent, its key, and the time of the check.
  pub record Vouched (t : Token) (jwk : Fields) (now : ℕ) (a : AuthenticatedActor) : Type 0 where
    pub signed :
        verify_jwt_signature p t.header.alg (signing_input t.segments) t.signature jwk ≡ true
    pub issuer : is_str p.issuer (get_field (lit "iss") t.claims) ≡ true
    pub audience : audience_matches (get_field (lit "aud") t.claims) p.audiences ≡ true
    pub alive : Alive t.claims now
    pub role : mapped_roles p (claim_values (get_field p.role_claim t.claims)) ≡ a.actor_role ∷ []
    pub subject : a.subject ≡ subject_of (get_field (lit "sub") t.claims)
    pub filled : is_empty a.subject ≡ false
    pub id : a.actor_id ≡ stable_actor_id p a.subject
    pub method : a.authentication_method ≡ oidc

  accept-Vouched :
      (t : Token) (jwk : Fields) (now : ℕ) {a : AuthenticatedActor}
      → accept p t jwk now ≡ ok a
      → Vouched t jwk now a
  unfolding accept are_registered
  accept-Vouched t jwk now h =
      let (_, e₁, h₁) = >>=-eq-ok _ _ h in
      let (_, e₂, h₂) = >>=-eq-ok _ _ h₁ in
      let (role, e₃, h₃) = >>=-eq-ok _ _ h₂ in
      let signed = not-eq-false _ (fail_if-eq-ok _ _ _ e₁) in
      let registered = not-eq-false _ (fail_if-eq-ok _ _ _ e₂) in
      let (issuer, r₁) = &&-eq-true _ _ registered in
      let (audience, r₂) = &&-eq-true _ _ r₁ in
      let (named, alive) = &&-eq-true _ _ r₂ in
      subst (Vouched t jwk now) (ok_injective h₃) (record {
        signed = signed;
        issuer = issuer;
        audience = audience;
        alive = lives-Alive t.claims now _ refl alive;
        role = only_role-eq-ok _ e₃;
        subject = refl;
        filled = is_subject-filled (get_field (lit "sub") t.claims) named;
        id = refl;
        method = refl;
      })

  -- The token that was sent, and the key that the cache now holds for it.
  pub record Trusted (headers : Headers) (s : ProviderState) (a : AuthenticatedActor)
      (s' : ProviderState) : Type 0 where
    pub token : Token
    pub jwk : Fields
    pub now : ℕ
    pub sent : read_token p headers ≡ ok token
    pub chosen : Chosen token.header jwk s'
    pub read : ReadBetween p s s' now
    pub vouched : Vouched token jwk now a

  authenticate-Yields :
      (headers : Headers) (s : ProviderState)
      → Yields (Trusted headers s) (authenticate p headers s)
  unfolding authenticate
  authenticate-Yields headers s = Yields-result _ _ _ λ t sent.
      Yields-then _ (find_key-Chosen p t.header s) λ found s' (chosen, read).
        Yields-lift (accept p t found.0 found.1) s' λ a e. record {
          token = t;
          jwk = found.0;
          now = found.1;
          sent = sent;
          chosen = chosen;
          read = read;
          vouched = accept-Vouched t found.0 found.1 e;
        }

  pub authenticate-Trusted :
      (headers : Headers) (s s' : ProviderState) (a : AuthenticatedActor)
      → authenticate p headers s ≡ (ok a, s')
      → Trusted headers s a s'
  authenticate-Trusted headers s s' a h = Yields-returned _ (authenticate-Yields headers s) h
