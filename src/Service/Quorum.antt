-- ===== src/Service/Quorum.antt =====
-- Who approved what: the invariant behind `AUTHORIZED_NO_DISPATCH`.
pub mod Tables
pub mod Keeps
pub mod Writes
pub mod Views
use parimit.Common.{
  ℕ, suc, ◌+◌, ◌≤◌, ◌≡◌, ◌≢◌, Bool, true, false, ◌&&◌, List, [], ◌∷◌, any, select, length, Memᴰ,
}
use parimit.Text.{Text, text_eq}
use parimit.Types.{authorized_no_dispatch}
use parimit.Database.{Database, IntentRow, ApprovalRow, is_by, is_approval_of}

-- No actor reviews one proposal twice.
abbrev pub Once : List ApprovalRow → Type 0
Once [] = Unit {0}
Once (a ∷ rest) = (any (is_by a.intent_id a.actor_id) rest ≡ false) × Once rest

-- What `count_approvals` counts.
abbrev pub approvals_of : Text → List ApprovalRow → ℕ
approvals_of id approvals = length (select (is_approval_of id) approvals)

pub record Reviewed (intents : List IntentRow) (approvals : List ApprovalRow) : Type 0 where
  -- an id names one proposal
  pub unique : (x y : IntentRow) → Memᴰ x intents → Memᴰ y intents → x.id ≡ y.id → x ≡ y
  -- every review is of a stored proposal
  pub owned :
      (a : ApprovalRow) → Memᴰ a approvals → (x : IntentRow) × Memᴰ x intents × (x.id ≡ a.intent_id)
  -- no agent reviews its own proposal
  pub no_self :
      (a : ApprovalRow) (x : IntentRow)
      → Memᴰ a approvals
      → Memᴰ x intents
      → x.id ≡ a.intent_id
      → a.actor_id ≢ x.agent_id
  -- and nobody reviews one twice
  pub once : Once approvals
  -- an authorized proposal has the approvals that it requires
  pub met :
      (x : IntentRow)
      → Memᴰ x intents
      → x.status ≡ authorized_no_dispatch
      → x.required_approvals ≤ approvals_of x.id approvals

abbrev pub Quorum : Database → Type 0
Quorum db = Reviewed db.intents db.approvals
