-- ===== src/Service/SingleUse/Writes.antt =====
-- Each commit lets every envelope evolve, and so do whatever calls are served.
use parimit.Common.{
  ℕ, ◌≤◌, ◌<◌, ◌≡◌, refl, subst, true, none, some, List, select, length, find-eq-some, &&-eq-true,
}
use parimit.Text.{Text, text_eq_refl}
use parimit.Database.{Database, EnvelopeRow}
use parimit.Database.Envelopes.{find_envelope, is_envelope, is_claimable, claim_rows}
use parimit.Exec.{World}
use parimit.Service.{Service}
use parimit.Service.Effects.Envelopes.{EnvelopeChange, quiet, added, used, Commit-EnvelopeChange}
use parimit.Service.Commit.{Commits, here, next}
use parimit.Service.Commit.Methods.{run-Commits}
use parimit.Service.Methods.Calls.{Call, run}
use parimit.Service.SingleUse.{
  EnvelopesEvolve, EnvelopesEvolve-refl, EnvelopesEvolve-trans, EnvelopesEvolve-append,
  EnvelopesEvolve-claim, select-single,
}

claimable_of :
    (tenant id : Text) (e : EnvelopeRow)
    → is_envelope tenant id e ≡ true
    → e.consumed_at ≡ none
    → is_claimable tenant id e ≡ true
claimable_of tenant id e named free = rw (named, free) refl

module _ (svc : Service) where
  -- One row may be claimed, and it is the one that was read.
  consumption-EnvelopesEvolve :
      (id : Text) (row : EnvelopeRow) (actor key : Text) (at : ℕ) (db : Database)
      → find_envelope svc.tenant_id id db ≡ some row
      → row.consumed_at ≡ none
      → row.issued_at ≤ at
      → at < row.expires_at
      → length (select (is_claimable svc.tenant_id row.id) db.envelopes) ≡ 1
      → EnvelopesEvolve db.envelopes (claim_rows svc.tenant_id row.id at actor key db.envelopes)
  unfolding find_envelope
  consumption-EnvelopesEvolve id row actor key at db found free lo hi one =
      let (named, listed) = find-eq-some (is_envelope svc.tenant_id id) db.envelopes found in
      EnvelopesEvolve-claim svc.tenant_id row.id at actor key db.envelopes λ e m t.
        let same : row ≡ e =
          select-single (is_claimable svc.tenant_id row.id) db.envelopes one listed
            (claimable_of svc.tenant_id row.id row (named_self row named) free) m t in
        subst (λ x. (x.consumed_at ≡ none) × (x.issued_at ≤ at) × (at < x.expires_at)) same
          (free, lo, hi)
    where
      named_self :
          (r : EnvelopeRow)
          → is_envelope svc.tenant_id id r ≡ true
          → is_envelope svc.tenant_id r.id r ≡ true
      named_self r t = rw (text_eq_refl r.id) ((&&-eq-true _ _ t).1)

  changed-EnvelopesEvolve :
      (db db' : Database) → EnvelopeChange svc db db' → EnvelopesEvolve db.envelopes db'.envelopes
  changed-EnvelopesEvolve db db' (quiet e) = rw e (EnvelopesEvolve-refl db.envelopes)
  changed-EnvelopesEvolve db db' (added id input s _ _ _ _ e _) =
      rw e (EnvelopesEvolve-append db.envelopes _)
  changed-EnvelopesEvolve db db' (used id row actor key at found free lo hi one e) =
      rw e (consumption-EnvelopesEvolve id row actor key at db found free lo hi one)

  Commits-EnvelopesEvolve :
      {db db' : Database} → Commits svc db db' → EnvelopesEvolve db.envelopes db'.envelopes
  Commits-EnvelopesEvolve {db} here = EnvelopesEvolve-refl db.envelopes
  Commits-EnvelopesEvolve {db} (next {db'} {db''} p c) =
      EnvelopesEvolve-trans db.envelopes db'.envelopes db''.envelopes (Commits-EnvelopesEvolve p)
        (changed-EnvelopesEvolve db' db'' (Commit-EnvelopeChange svc c))

-- Whatever calls are served, every envelope that was stored stays at its place and as it is, but for
-- one consumption: only an envelope that has none gets one, within its lifetime, and then it never
-- changes again.
pub run-EnvelopesEvolve :
    (svc : Service) (calls : List Call) (w : World)
    → EnvelopesEvolve w.db.envelopes (run svc calls w).db.envelopes
run-EnvelopesEvolve svc calls w = Commits-EnvelopesEvolve svc (run-Commits svc calls w)
