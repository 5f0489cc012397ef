-- ===== src/Service/Backing.antt =====
-- Every evidence envelope is backed: its proposal is authorized by the approvals that it requires.
use parimit.Common.{
  ℕ, ◌+◌, ◌*◌, ◌≤◌, ◌≡◌, refl, sym, subst, inl, inr, List, [], ◌∷◌, arith, Memᴰ, Bool-cases,
}
use parimit.Text.{Text}
use parimit.Types.{authorized_no_dispatch}
use parimit.Database.{Database, IntentRow, EnvelopeRow}
use parimit.Database.Envelopes.{is_claimable, claim_rows}
use parimit.Exec.{World}
use parimit.Service.{Service}
use parimit.Service.Effects.Envelopes.{EnvelopeChange, quiet, added, used, Commit-EnvelopeChange}
use parimit.Service.Commit.{Commits, here, next}
use parimit.Service.Commit.Methods.{run-Commits}
use parimit.Service.Methods.Calls.{Call, run}
use parimit.Service.Envelopes.{IssueInput}
use parimit.Service.Envelopes.Store.{Sources, new_envelope}
use parimit.Service.History.{Later, Evolves}
use parimit.Service.History.Writes.{Commit-Evolves}
use parimit.Service.Quorum.{Quorum, approvals_of}
use parimit.Service.Quorum.Writes.{Commits-Quorum}
use parimit.Service.Quorum.Tables.{mem-append_one}

-- The proposal of an envelope, authorized in the state that the envelope names, and with a deadline
-- that the envelope does not outlive.
pub record Backed (intents : List IntentRow) (e : EnvelopeRow) : Type 0 where
  pub row : IntentRow
  pub listed : Memᴰ row intents
  pub named : e.intent_id ≡ row.id
  pub authorized : row.status ≡ authorized_no_dispatch
  pub version : e.state_version ≡ row.state_version
  pub lifetime : e.expires_at ≤ row.expires_at

abbrev pub AllBacked : Database → Type 0
AllBacked db = (e : EnvelopeRow) → Memᴰ e db.envelopes → Backed db.intents e

mem-Evolves :
    (xs ys : List IntentRow) {x : IntentRow}
    → Evolves xs ys
    → Memᴰ x xs
    → (y : IntentRow) × Memᴰ y ys × Later x y
mem-Evolves [] ys e m = elim m [ ]
mem-Evolves (x ∷ xs) [] e m = absurd e
mem-Evolves (x ∷ xs) (y ∷ ys) (later, e) (Memᴰ.head same) =
    (y, Memᴰ.head refl, subst (λ z. Later z y) (sym same) later)
mem-Evolves (x ∷ xs) (y ∷ ys) (later, e) (Memᴰ.tail m) =
    let (z, n, l) = mem-Evolves xs ys e m in (z, Memᴰ.tail n, l)

-- An authorized proposal never changes again.
final : (x y : IntentRow) → Later x y → x.status ≡ authorized_no_dispatch → y ≡ x
final x y later authorized = elim (later.moved) [
  | inl (status, version) ↦ rw (later.same, status, version) refl
  | inr (awaits, _) ↦ cc
]

later-Backed :
    (xs ys : List IntentRow) (e : EnvelopeRow) → Evolves xs ys → Backed xs e → Backed ys e
later-Backed xs ys e evolves b =
    let (y, listed, later) = mem-Evolves xs ys evolves (b.listed) in
    record {
      row = b.row;
      listed = subst (λ z. Memᴰ z ys) (final (b.row) y later (b.authorized)) listed;
      named = b.named;
      authorized = b.authorized;
      version = b.version;
      lifetime = b.lifetime;
    }

-- A row that the UPDATE leaves is one of before, with other consumption columns at most.
claim-Backed :
    (intents : List IntentRow) (tenant id : Text) (at : ℕ) (actor key : Text)
    (xs : List EnvelopeRow)
    → ((e : EnvelopeRow) → Memᴰ e xs → Backed intents e)
    → (e : EnvelopeRow) → Memᴰ e (claim_rows tenant id at actor key xs)
    → Backed intents e
unfolding claim_rows
claim-Backed intents tenant id at actor key [] all_backed e m = elim m [ ]
claim-Backed intents tenant id at actor key (x ∷ xs) all_backed e (Memᴰ.head same) =
    let b = all_backed x (Memᴰ.head refl) in
    subst (Backed intents) (sym same) (elim (Bool-cases (is_claimable tenant id x)) [
      | inl hit ↦ rw hit (record {
        row = b.row;
        listed = b.listed;
        named = b.named;
        authorized = b.authorized;
        version = b.version;
        lifetime = b.lifetime;
      })
      | inr miss ↦ rw miss b
    ])
claim-Backed intents tenant id at actor key (x ∷ xs) all_backed e (Memᴰ.tail m) =
    claim-Backed intents tenant id at actor key xs (λ f n. all_backed f (Memᴰ.tail n)) e m

module _ (svc : Service) where
  issued-Backed :
      (input : IssueInput) (s : Sources) (intents : List IntentRow)
      → Memᴰ s.row intents
      → s.row.status ≡ authorized_no_dispatch
      → s.issued_at + input.expires_in_seconds * 1000 ≤ s.row.expires_at
      → Backed intents (new_envelope svc input s)
  unfolding new_envelope
  issued-Backed input s intents listed authorized lives = record {
    row = s.row;
    listed = listed;
    named = refl;
    authorized = authorized;
    version = refl;
    lifetime = omega (arith, lives);
  }

  changed-AllBacked :
      (db db' : Database)
      → Evolves db.intents db'.intents
      → EnvelopeChange svc db db'
      → AllBacked db
      → AllBacked db'
  changed-AllBacked db db' evolves (quiet same) before e m =
      later-Backed db.intents db'.intents e evolves (before e (subst (Memᴰ e) same m))
  changed-AllBacked db db' evolves (added id input s proposal authorized lives _ same rows) before e
        m =
      elim (mem-append_one db.envelopes (subst (Memᴰ e) same m)) [
        | inl n ↦ later-Backed db.intents db'.intents e evolves (before e n)
        | inr new ↦ subst (Backed db'.intents) (sym new) (
            issued-Backed input s db'.intents (subst (Memᴰ s.row) (sym rows) (proposal.listed))
              authorized lives)
      ]
  changed-AllBacked db db' evolves (used id row actor key at _ _ _ _ _ same) before e m =
      later-Backed db.intents db'.intents e evolves (
        claim-Backed db.intents svc.tenant_id row.id at actor key db.envelopes before e
          (subst (Memᴰ e) same m))

  Commits-AllBacked : {db db' : Database} → Commits svc db db' → AllBacked db → AllBacked db'
  Commits-AllBacked here before = before
  Commits-AllBacked (next {db'} {db''} p c) before =
      changed-AllBacked db' db'' (Commit-Evolves svc c) (Commit-EnvelopeChange svc c)
        (Commits-AllBacked p before)

-- Whatever calls are served from a database that satisfies `Quorum`, in which every envelope is about
-- a stored proposal that is authorized, in the state that the envelope names and with a deadline no
-- earlier than the envelope's end, this still holds afterwards, and each such proposal has at least as
-- many approvals as it requires.
pub run-Backed :
    (svc : Service) (calls : List Call) (w : World)
    → Quorum w.db
    → AllBacked w.db
    → (e : EnvelopeRow) → Memᴰ e (run svc calls w).db.envelopes
    → (b : Backed (run svc calls w).db.intents e) × (b.row.required_approvals
        ≤ approvals_of b.row.id (run svc calls w).db.approvals)
run-Backed svc calls w quorum before e m =
    let c = run-Commits svc calls w in
    let b = Commits-AllBacked svc c before e m in
    (b, (Commits-Quorum svc c quorum).met (b.row) (b.listed) (b.authorized))
