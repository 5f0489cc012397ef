-- ===== src/Service/Seal.antt =====
-- The hash of each proposal and the receipt of each review.
pub mod Hashes
pub mod Writes
use parimit.Common.{ℕ, ◌≡◌, ◌≤◌, ◌<◌, true, List, [], Memᴰ}
use parimit.Database.{Database, IntentRow, ApprovalRow}
use parimit.Service.{Service}
use parimit.Service.Integrity.Row.{hash_findings}
use parimit.Service.Integrity.Approvals.{is_receipt_valid}

pub record Sealed (svc : Service) (intents : List IntentRow) (approvals : List ApprovalRow)
    : Type 0 where
  -- the stored hash of every proposal is the hash of its payload
  pub hashed : (x : IntentRow) → Memᴰ x intents → hash_findings svc x ≡ []
  -- the receipt of every review is authentic and bound to that hash
  pub signed :
      (a : ApprovalRow) (x : IntentRow)
      → Memᴰ a approvals
      → Memᴰ x intents
      → x.id ≡ a.intent_id
      → is_receipt_valid svc x.id x.intent_hash a ≡ true
  -- and the review was made after the creation of its proposal and before its deadline
  pub timely :
      (a : ApprovalRow) (x : IntentRow)
      → Memᴰ a approvals
      → Memᴰ x intents
      → x.id ≡ a.intent_id
      → (x.created_at ≤ a.created_at) × (a.created_at < x.expires_at)

abbrev pub Seals : Service → Database → Type 0
Seals svc db = Sealed svc db.intents db.approvals
