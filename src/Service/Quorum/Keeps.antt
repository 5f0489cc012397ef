-- ===== src/Service/Quorum/Keeps.antt =====
-- The invariant under the writes to the tables.
use parimit.Common.{
  ◌≤◌, ◌≡◌, ◌≢◌, sym, ◌∙◌, ap, inl, inr, true, false, List, [], ◌∷◌, ◌++◌, any, select, length,
  length-append, select-append, Bool-cases, arith, Memᴰ,
}
use parimit.Text.{Text, text_eq, text_eq_iff}
use parimit.Types.{IntentStatus, authorized_no_dispatch}
use parimit.Database.{IntentRow, ApprovalRow, is_open, is_by, is_approval_of, advance_rows}
use parimit.Service.Quorum.{Reviewed, approvals_of}
use parimit.Service.Quorum.Tables.{
  mem-append_one, mem-append_left, not_any, updated, mem-advance, mem-advance_of, updated-frame,
  Once-append,
}

-- The UPDATE keeps ids unique.
pub advance_unique :
    (tenant id : Text) (next : IntentStatus) (xs : List IntentRow)
    → ((x y : IntentRow) → Memᴰ x xs → Memᴰ y xs → x.id ≡ y.id → x ≡ y)
    → (x y : IntentRow) → Memᴰ x (advance_rows tenant id next xs)
    → Memᴰ y (advance_rows tenant id next xs)
    → x.id ≡ y.id
    → x ≡ y
advance_unique tenant id next xs unique x y m n e =
    let (x₀, p, ex) = mem-advance tenant id next xs m in
    let (y₀, q, ey) = mem-advance tenant id next xs n in
    let ix : x.id ≡ x₀.id = ap (λ z. z.id) ex ∙ (updated-frame tenant id next x₀).0 in
    let iy : y.id ≡ y₀.id = ap (λ z. z.id) ey ∙ (updated-frame tenant id next y₀).0 in
    ex ∙ ap (updated tenant id next) (unique x₀ y₀ p q (sym ix ∙ e ∙ iy)) ∙ sym ey

module _ (xs : List IntentRow) (approvals : List ApprovalRow) (before : Reviewed xs approvals) where
  pub fresh-id :
      (r x : IntentRow) → any (λ y. text_eq y.id r.id) xs ≡ false → Memᴰ x xs → x.id ≢ r.id
  fresh-id r x fresh m e =
      ground (arith, not_any (λ y. text_eq y.id r.id) xs fresh m, text_eq_iff x.id r.id)

  pub Reviewed-insert :
      (r : IntentRow)
      → any (λ y. text_eq y.id r.id) xs ≡ false
      → r.status ≢ authorized_no_dispatch
      → Reviewed (xs ++ r ∷ []) approvals
  Reviewed-insert r fresh unauthorized = record {
    unique = λ x y m n e. elim (mem-append_one xs m) [
      | inl p ↦ elim (mem-append_one xs n) [
        | inl q ↦ before.unique x y p q e
        | inr q ↦ absurd (fresh-id r x fresh p (e ∙ ap (λ z. z.id) q))
      ]
      | inr p ↦ elim (mem-append_one xs n) [
        | inl q ↦ absurd (fresh-id r y fresh q (sym e ∙ ap (λ z. z.id) p))
        | inr q ↦ p ∙ sym q
      ]
    ];
    owned = λ a m. let (x, n, e) = before.owned a m in (x, mem-append_left (r ∷ []) n, e);
    no_self = λ a x m n e. elim (mem-append_one xs n) [
      | inl p ↦ before.no_self a x m p e
      | inr p ↦
          let (y, q, f) = before.owned a m in
          absurd (fresh-id r y fresh q (f ∙ sym e ∙ ap (λ z. z.id) p))
    ];
    once = before.once;
    met = λ x m authorized. elim (mem-append_one xs m) [
      | inl p ↦ before.met x p authorized
      | inr p ↦ absurd (unauthorized (sym (ap (λ z. z.status) p) ∙ authorized))
    ];
  }

  module _ (tenant id : Text) (next : IntentStatus) where
    met_later :
        (x : IntentRow)
        → Memᴰ x xs
        → (is_open tenant id x ≡ true
            → next ≡ authorized_no_dispatch
            → x.required_approvals ≤ approvals_of x.id approvals)
        → (updated tenant id next x).status ≡ authorized_no_dispatch
        → x.required_approvals ≤ approvals_of x.id approvals
    met_later x m enough authorized = elim (Bool-cases (is_open tenant id x)) [
      | inl e ↦ enough e (rw e at authorized)
      | inr e ↦ before.met x m (rw e at authorized)
    ]

    pub Reviewed-advance :
        ((x : IntentRow)
          → Memᴰ x xs
          → is_open tenant id x ≡ true
          → next ≡ authorized_no_dispatch
          → x.required_approvals ≤ approvals_of x.id approvals)
        → Reviewed (advance_rows tenant id next xs) approvals
    Reviewed-advance enough = record {
      unique = advance_unique tenant id next xs before.unique;
      owned = λ a m.
          let (x, n, e) = before.owned a m in
          (
            updated tenant id next x,
            mem-advance_of tenant id next n,
            (updated-frame tenant id next x).0 ∙ e,
          );
      no_self = λ a x m n e.
          let (x₀, p, ex) = mem-advance tenant id next xs n in
          let ix : x.id ≡ x₀.id = ap (λ z. z.id) ex ∙ (updated-frame tenant id next x₀).0 in
          let agent : x.agent_id ≡ x₀.agent_id =
            ap (λ z. z.agent_id) ex ∙ (updated-frame tenant id next x₀).1 in
          λ g. before.no_self a x₀ m p (sym ix ∙ e) (g ∙ agent);
      once = before.once;
      met = λ x m authorized.
          let (x₀, p, ex) = mem-advance tenant id next xs m in
          let (same_id, _, same_need) = updated-frame tenant id next x₀ in
          rw (ap (λ z. z.id) ex ∙ same_id, ap (λ z. z.required_approvals) ex ∙ same_need)
            (met_later x₀ p (enough x₀ p) (sym (ap (λ z. z.status) ex) ∙ authorized));
    }

  pub Reviewed-review :
      (a : ApprovalRow) (row : IntentRow)
      → Memᴰ row xs
      → row.id ≡ a.intent_id
      → a.actor_id ≢ row.agent_id
      → any (is_by a.intent_id a.actor_id) approvals ≡ false
      → Reviewed xs (approvals ++ a ∷ [])
  Reviewed-review a row listed e other first = record {
    unique = before.unique;
    owned = λ b m. elim (mem-append_one approvals m) [
      | inl p ↦ before.owned b p
      | inr p ↦ (row, listed, e ∙ sym (ap (λ z. z.intent_id) p))
    ];
    no_self = λ b x m n f. elim (mem-append_one approvals m) [
      | inl p ↦ before.no_self b x p n f
      | inr p ↦
          let same : x ≡ row = before.unique x row n listed (f ∙ ap (λ z. z.intent_id) p ∙ sym e) in
          λ g. other (sym (ap (λ z. z.actor_id) p) ∙ g ∙ ap (λ z. z.agent_id) same)
    ];
    once = Once-append approvals a before.once first;
    met = λ x m authorized. omega (
      arith,
      before.met x m authorized,
      ap length (select-append (is_approval_of x.id) approvals (a ∷ [])),
      length-append (select (is_approval_of x.id) approvals)
          (select (is_approval_of x.id) (a ∷ [])),
    );
  }
