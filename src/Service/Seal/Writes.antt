-- ===== src/Service/Seal/Writes.antt =====
-- The hashes and the receipts under each commit, and under whatever calls are served.
use parimit.Common.{
  ◌≤◌, ◌<◌, ℕ, ◌≡◌, refl, sym, ◌∙◌, ap, inl, inr, true, false, List, [], ◌∷◌, ◌++◌, any, Memᴰ,
  Bool-cases,
}
use parimit.Text.{Text, text_eq, text_eq_refl}
use parimit.Types.{IntentStatus, expired, cancelled}
use parimit.Result.{ok, >>=-eq-ok, ok_injective}
use parimit.Database.{Database, IntentRow, ApprovalRow, is_open, advance_rows}
use parimit.Exec.{World}
use parimit.Service.{Service}
use parimit.Service.Effects.{
  expire_one-cases, expire_at_deadline-Wrote, insert_and_record-Wrote, store_cancellation-Wrote,
}
use parimit.Service.Effects.Found.{updated-times, Wrote-found_moved}
use parimit.Service.Effects.Reviews.{store_review-Wrote, store_observation-Wrote, reviewed, outcome}
use parimit.Service.Effects.Evidence.{store_envelope-Wrote, store_consumption-Wrote}
use parimit.Service.Commit.{
  Commit, Commits, here, next, expiry, creation, deadline, review, cancellation, observation,
  issuance, consumption,
}
use parimit.Service.Commit.Methods.{run-Commits}
use parimit.Service.Methods.Calls.{Call, run}
use parimit.Service.Methods.Deadline.{expire_one, expire_all}
use parimit.Service.Methods.Insert.{new_intent}
use parimit.Service.Methods.Decide.{new_approval, receipt_hmac_of}
use parimit.Service.Policy.{decide_policy}
use parimit.Service.Integrity.Row.{hash_findings}
use parimit.Service.Integrity.Approvals.{is_receipt_valid}
use parimit.Service.Quorum.{Quorum}
use parimit.Service.Quorum.Tables.{mem-append_one, updated, mem-advance, updated-frame}
use parimit.Service.Quorum.Keeps.{fresh-id}
use parimit.Service.Quorum.Writes.{Commits-Quorum}
use parimit.Service.Seal.{Sealed, Seals}
use parimit.Service.Seal.Hashes.{new_intent-hashed, advance-hashed}

updated-hashed :
    (svc : Service) (tenant id : Text) (status : IntentStatus) (x : IntentRow)
    → hash_findings svc (updated tenant id status x) ≡ hash_findings svc x
updated-hashed svc tenant id status x = elim (Bool-cases (is_open tenant id x)) [
  | inl e ↦ rw e (advance-hashed svc status x)
  | inr e ↦ rw e refl
]

updated-intent_hash :
    (tenant id : Text) (status : IntentStatus) (x : IntentRow)
    → (updated tenant id status x).intent_hash ≡ x.intent_hash
updated-intent_hash tenant id status x = elim (Bool-cases (is_open tenant id x)) [
  | inl e ↦ rw e refl
  | inr e ↦ rw e refl
]

module _ (svc : Service) where
  Sealed-advance :
      (id : Text) (status : IntentStatus) (xs : List IntentRow) (approvals : List ApprovalRow)
      → Sealed svc xs approvals
      → Sealed svc (advance_rows svc.tenant_id id status xs) approvals
  Sealed-advance id status xs approvals before = record {
    hashed = λ y m.
        let (x, n, same) = mem-advance svc.tenant_id id status xs m in
        ap (hash_findings svc) same
        ∙ updated-hashed svc svc.tenant_id id status x
        ∙ before.hashed x n;
    signed = λ a y m n e.
        let (x, p, same) = mem-advance svc.tenant_id id status xs n in
        let same_id : y.id ≡ x.id =
          ap (λ z. z.id) same ∙ (updated-frame svc.tenant_id id status x).0 in
        let same_hash : y.intent_hash ≡ x.intent_hash =
          ap (λ z. z.intent_hash) same ∙ updated-intent_hash svc.tenant_id id status x in
        rw (same_id, same_hash) (before.signed a x m p (sym same_id ∙ e));
    timely = λ a y m n e.
        let (x, p, same) = mem-advance svc.tenant_id id status xs n in
        let same_id : y.id ≡ x.id =
          ap (λ z. z.id) same ∙ (updated-frame svc.tenant_id id status x).0 in
        let (created, expires) = updated-times svc.tenant_id id status x in
        rw (ap (λ z. z.created_at) same ∙ created, ap (λ z. z.expires_at) same ∙ expires)
          (before.timely a x m p (sym same_id ∙ e));
  }

  Sealed-insert :
      (r : IntentRow) (db : Database)
      → Quorum db
      → any (λ y. text_eq y.id r.id) db.intents ≡ false
      → hash_findings svc r ≡ []
      → Seals svc db
      → Sealed svc (db.intents ++ r ∷ []) db.approvals
  Sealed-insert r db quorum fresh right before = record {
    hashed = λ x m. elim (mem-append_one db.intents m) [
      | inl n ↦ before.hashed x n
      | inr same ↦ ap (hash_findings svc) same ∙ right
    ];
    signed = λ a x m n e. elim (mem-append_one db.intents n) [
      | inl p ↦ before.signed a x m p e
      | inr same ↦
          let (y, q, f) = quorum.owned a m in
          absurd
            (fresh-id db.intents db.approvals quorum r y fresh q (f ∙ sym e ∙ ap (λ z. z.id) same))
    ];
    timely = λ a x m n e. elim (mem-append_one db.intents n) [
      | inl p ↦ before.timely a x m p e
      | inr same ↦
          let (y, q, f) = quorum.owned a m in
          absurd
            (fresh-id db.intents db.approvals quorum r y fresh q (f ∙ sym e ∙ ap (λ z. z.id) same))
    ];
  }

  Sealed-review :
      (a : ApprovalRow) (row : IntentRow) (db : Database)
      → Quorum db
      → Memᴰ row db.intents
      → row.id ≡ a.intent_id
      → is_receipt_valid svc row.id row.intent_hash a ≡ true
      → (row.created_at ≤ a.created_at) × (a.created_at < row.expires_at)
      → Seals svc db
      → Sealed svc db.intents (db.approvals ++ a ∷ [])
  Sealed-review a row db quorum listed e right in_time before = record {
    hashed = before.hashed;
    signed = λ b x m n f. elim (mem-append_one db.approvals m) [
      | inl p ↦ before.signed b x p n f
      | inr same ↦
          let whose : x ≡ row =
            quorum.unique x row n listed (f ∙ ap (λ z. z.intent_id) same ∙ sym e) in
          rw (same, whose) right
    ];
    timely = λ b x m n f. elim (mem-append_one db.approvals m) [
      | inl p ↦ before.timely b x p n f
      | inr same ↦
          let whose : x ≡ row =
            quorum.unique x row n listed (f ∙ ap (λ z. z.intent_id) same ∙ sym e) in
          rw (same, whose) in_time
    ];
  }

  expire_one-Seals :
      (id : Text) (at : ℕ) (db db' : Database)
      → expire_one svc at id db ≡ ok db'
      → Seals svc db
      → Seals svc db'
  expire_one-Seals id at db db' h before =
      let lapsed = Sealed-advance id expired db.intents db.approvals before in
      elim (expire_one-cases svc id at db h) [
        | inl same ↦ rw same lapsed
        | inr (_, wrote) ↦ rw (wrote.intents, wrote.approvals) lapsed
      ]

  expire_all-Seals :
      (at : ℕ) (rows : List IntentRow) (db db' : Database)
      → expire_all svc at rows db ≡ ok db'
      → Seals svc db
      → Seals svc db'
  unfolding expire_all
  expire_all-Seals at [] db db' h before = rw (← ok_injective h) before
  expire_all-Seals at (r ∷ rows) db db' h before =
      let (mid, e, h') = >>=-eq-ok _ _ h in
      expire_all-Seals at rows mid db' h' (expire_one-Seals r.id at db mid e before)

  Commit-Seals : {db db' : Database} → Commit svc db db' → Quorum db → Seals svc db → Seals svc db'
  unfolding new_approval receipt_hmac_of is_receipt_valid decide_policy new_intent
  Commit-Seals {db} {db'} (expiry at h) quorum before = expire_all-Seals at _ db db' h before
  Commit-Seals {db} (creation input id reading created_at _ h) quorum before =
      let (fresh, _, wrote) = insert_and_record-Wrote svc input _ _ id created_at db h in
      rw (wrote.intents, wrote.approvals)
        (Sealed-insert _ db quorum fresh (new_intent-hashed svc input _ id _ created_at refl)
          before)
  Commit-Seals {db} (deadline id row at _ _ _ h) quorum before =
      let (_, wrote) = expire_at_deadline-Wrote svc id at db h in
      rw (wrote.intents, wrote.approvals) (Sealed-advance id expired db.intents db.approvals before)
  Commit-Seals {db} (review id row actor role decision at uuid proposal _ _ early _ h) quorum
        before =
      let (_, _, _, wrote) = store_review-Wrote svc row actor role decision at uuid db h in
      let created =
        Wrote-found_moved svc row.id _ _ _ at (outcome svc row actor role decision at uuid db)
          (reviewed svc row actor role decision at uuid db) row wrote
          (λ x m e. quorum.unique x row m proposal.listed e) in
      rw (wrote.intents, wrote.approvals)
        (Sealed-advance row.id _ db.intents _ (
          Sealed-review (new_approval svc row actor role decision at uuid) row db quorum
            proposal.listed refl
            (rw
              (
                text_eq_refl (receipt_hmac_of svc row actor role decision at uuid),
                text_eq_refl row.intent_hash,
              )
              refl)
            (created, early) before))
  Commit-Seals {db} (cancellation id row actor role at _ _ _ _ h) quorum before =
      let (_, wrote) = store_cancellation-Wrote svc id actor at db h in
      rw (wrote.intents, wrote.approvals)
        (Sealed-advance id cancelled db.intents db.approvals before)
  Commit-Seals {db} (observation id row status reference actor at uuid _ _ _ h) quorum before =
      let (_, wrote) = store_observation-Wrote svc id status reference actor at uuid db h in
      rw (wrote.intents, wrote.approvals) before
  Commit-Seals {db} (issuance id input s actor _ _ _ _ _ h) quorum before =
      let (_, wrote) = store_envelope-Wrote svc input s actor db h in
      rw (wrote.intents, wrote.approvals) before
  Commit-Seals {db} (consumption id row audience actor key at _ _ _ _ h) quorum before =
      let (_, wrote) = store_consumption-Wrote svc row audience actor key at db h in
      rw (wrote.intents, wrote.approvals) before

  Commits-Seals :
      {db db' : Database} → Commits svc db db' → Quorum db → Seals svc db → Seals svc db'
  Commits-Seals here quorum before = before
  Commits-Seals (next p c) quorum before =
      Commit-Seals c (Commits-Quorum svc p quorum) (Commits-Seals p quorum before)

-- Whatever calls are served from a database that satisfies `Quorum`, in which the stored hash of every
-- proposal is the hash of its payload, the receipt of every review is authentic and bound to that hash,
-- and every review was made after the creation of its proposal and before its deadline, all of this
-- still holds afterwards.
pub run-Seals :
    (svc : Service) (calls : List Call) (w : World)
    → Quorum w.db
    → Seals svc w.db
    → Seals svc (run svc calls w).db
run-Seals svc calls w quorum before = Commits-Seals svc (run-Commits svc calls w) quorum before
