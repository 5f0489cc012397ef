-- ===== src/Service/Chain.antt =====
-- The hash chain of each proposal, and what one more event does to it.
pub mod Keeps
pub mod Writes
use parimit.Common.{
  ℕ, ◌≤◌, ◌≡◌, refl, sym, subst, ◌∙◌, ap, Bool, true, false, not, ◌&&◌, Option, none, some, List,
  [], ◌∷◌, ◌++◌, ltb, last, select, Memᴰ, arith, append-eq-nil,
}
use parimit.Text.{Text, lit, text_eq, text_eq_refl, text_eq_iff}
use parimit.Database.{Database, IntentRow, AuditRow, is_event_of}
use parimit.Service.{Service}
use parimit.Service.Audit.{tip, is_before, genesis}
use parimit.Service.Integrity.Failures.{unless, unless-eq-nil}
use parimit.Service.Integrity.Payloads.{is_defined}
use parimit.Service.Integrity.Chain.{
  chain_findings, is_linked, is_chronological, is_earlier, genesis_tip,
}

pub record Chained (svc : Service) (intents : List IntentRow) (events : List AuditRow)
    : Type 0 where
  -- every event is of a stored proposal
  pub owned :
      (e : AuditRow) → Memᴰ e events → (x : IntentRow) × Memᴰ x intents × (x.id ≡ e.intent_id)
  -- `verifyIntegrity` finds nothing wrong with the chain of any proposal
  pub linked :
      (x : IntentRow)
      → Memᴰ x intents
      → chain_findings svc x.id x genesis_tip none (select (is_event_of x.id) events) ≡ []

-- `previousHash` and `previousOccurredAt` behind the loop.
abbrev pub tip_from : Text → List AuditRow → Text
tip_from previous [] = previous
tip_from previous (e ∷ es) = tip_from e.event_hash es

abbrev pub time_from : Option ℕ → List AuditRow → Option ℕ
time_from at [] = at
time_from at (e ∷ es) = time_from (some e.occurred_at) es

pub tip_from-last : (es : List AuditRow) → tip_from genesis_tip es ≡ tip (last es)
unfolding genesis_tip
tip_from-last [] = refl
tip_from-last (e ∷ []) = refl
tip_from-last (e ∷ d ∷ es) = tip_from-last (d ∷ es)

pub time_from-last :
    (at : ℕ) (es : List AuditRow) → is_earlier at (time_from none es) ≡ is_before at (last es)
time_from-last at [] = refl
time_from-last at (e ∷ []) = refl
time_from-last at (e ∷ d ∷ es) = time_from-last at (d ∷ es)

module _ (svc : Service) (id : Text) (row : IntentRow) where
  chain-step :
      (previous : Text) (at : Option ℕ) (e : AuditRow) (es : List AuditRow)
      → is_defined e.payload ≡ true
      → is_linked svc id row previous e ≡ true
      → is_chronological svc id row at e ≡ true
      → chain_findings svc id row previous at (e ∷ es)
        ≡ chain_findings svc id row e.event_hash (some e.occurred_at) es
  unfolding chain_findings unless
  chain-step previous at e es d l c = rw (d, l, c) refl

  chain-parts :
      (previous : Text) (at : Option ℕ) (e : AuditRow) (es : List AuditRow)
      → chain_findings svc id row previous at (e ∷ es) ≡ []
      → (is_defined e.payload ≡ true)
        × (is_linked svc id row previous e ≡ true)
        × (is_chronological svc id row at e ≡ true)
        × (chain_findings svc id row e.event_hash (some e.occurred_at) es ≡ [])
  unfolding chain_findings
  chain-parts previous at e es h =
      let (d, h₁) = append-eq-nil _ _ h in
      let (l, h₂) = append-eq-nil _ _ h₁ in
      let (c, rest) = append-eq-nil _ _ h₂ in
      (unless-eq-nil _ _ _ d, unless-eq-nil _ _ _ l, unless-eq-nil _ _ _ c, rest)

  -- A chain without findings goes on with an event that is linked to its end.
  pub chain-append :
      (previous : Text) (at : Option ℕ) (es : List AuditRow) (e : AuditRow)
      → chain_findings svc id row previous at es ≡ []
      → is_defined e.payload ≡ true
      → is_linked svc id row (tip_from previous es) e ≡ true
      → is_chronological svc id row (time_from at es) e ≡ true
      → chain_findings svc id row previous at (es ++ e ∷ []) ≡ []
  unfolding chain_findings
  chain-append previous at [] e h d l c = chain-step previous at e [] d l c
  chain-append previous at (x ∷ es) e h d l c =
      let (dx, lx, cx, rest) = chain-parts previous at x es h in
      chain-step previous at x (es ++ e ∷ []) dx lx cx
      ∙ chain-append x.event_hash (some x.occurred_at) es e rest d l c

  -- Of the row, the chain depends on the creation time only.
  pub chain-frame :
      (other : IntentRow) (previous : Text) (at : Option ℕ) (es : List AuditRow)
      → other.created_at ≡ row.created_at
      → chain_findings svc id other previous at es ≡ chain_findings svc id row previous at es
  unfolding chain_findings is_chronological is_linked
  chain-frame other previous at [] same = refl
  chain-frame other previous at (e ∷ es) same =
      rw (chain-frame other e.event_hash (some e.occurred_at) es same, same) refl
