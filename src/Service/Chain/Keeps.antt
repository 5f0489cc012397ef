-- ===== src/Service/Chain/Keeps.antt =====
-- The chains under the writes to the tables.
use parimit.Common.{
  ℕ, ◌≤◌, ◌≡◌, refl, sym, subst, ◌∙◌, ap, inl, inr, true, false, Option, none, List, [], ◌∷◌, ◌++◌,
  any, last, select, select-append_one, select-skip, Memᴰ, arith, Bool-cases,
}
use parimit.Text.{Text, text_eq, text_eq_iff}
use parimit.Types.{IntentStatus}
use parimit.Database.{IntentRow, AuditRow, is_event_of, advance_rows}
use parimit.Service.{Service}
use parimit.Service.Audit.{tip, is_before}
use parimit.Service.Integrity.Payloads.{is_defined}
use parimit.Service.Integrity.Chain.{
  chain_findings, is_linked, is_chronological, is_earlier, genesis_tip, event_digest,
}
use parimit.Service.Quorum.Tables.{
  mem-append_one, mem-append_left, not_any, updated, mem-advance, mem-advance_of, updated-frame,
}
use parimit.Service.Effects.Found.{updated-times}
use parimit.Service.Chain.{
  Chained, chain-append, chain-frame, tip_from, time_from, tip_from-last, time_from-last,
}

event-id : (id : Text) (e : AuditRow) → is_event_of id e ≡ true → id ≡ e.intent_id
event-id id e h = ground (arith, text_eq_iff e.intent_id id)

event-of : (id : Text) (e : AuditRow) → id ≡ e.intent_id → is_event_of id e ≡ true
event-of id e h = ground (arith, text_eq_iff e.intent_id id)

linked-of :
    (svc : Service) (row : IntentRow) (e : AuditRow) (previous : Text)
    → row.id ≡ e.intent_id
    → e.previous_hash ≡ previous
    → e.event_hash ≡ event_digest svc e
    → is_linked svc row.id row previous e ≡ true
unfolding is_linked
linked-of svc row e previous mine p h = ground (
  arith,
  text_eq_iff e.intent_id row.id,
  text_eq_iff e.previous_hash previous,
  text_eq_iff e.event_hash (event_digest svc e),
)

chronological-of :
    (svc : Service) (row : IntentRow) (e : AuditRow) (at : Option ℕ)
    → row.created_at ≤ e.occurred_at
    → is_earlier e.occurred_at at ≡ false
    → is_chronological svc row.id row at e ≡ true
unfolding is_chronological
chronological-of svc row e at created later = ground arith

module _ (svc : Service) (xs : List IntentRow) (es : List AuditRow)
    (before : Chained svc xs es) where
  pub Chained-advance :
      (tenant id : Text) (next : IntentStatus) → Chained svc (advance_rows tenant id next xs) es
  Chained-advance tenant id next = record {
    owned = λ e m.
        let (x, n, i) = before.owned e m in
        (
          updated tenant id next x,
          mem-advance_of tenant id next n,
          (updated-frame tenant id next x).0 ∙ i,
        );
    linked = λ y m.
        let (x, n, same) = mem-advance tenant id next xs m in
        let same_id : y.id ≡ x.id = ap (λ z. z.id) same ∙ (updated-frame tenant id next x).0 in
        let same_created : y.created_at ≡ x.created_at =
          ap (λ z. z.created_at) same ∙ (updated-times tenant id next x).0 in
        subst (λ i. chain_findings svc i y genesis_tip none (select (is_event_of i) es) ≡ [])
          (sym same_id)
          (chain-frame svc x.id x y genesis_tip none _ same_created ∙ before.linked x n);
  }

  no_events :
      (r : IntentRow)
      → any (λ x. text_eq x.id r.id) xs ≡ false
      → (ds : List AuditRow) → ((e : AuditRow) → Memᴰ e ds → Memᴰ e es)
      → select (is_event_of r.id) ds ≡ []
  no_events r fresh [] sub = refl
  no_events r fresh (d ∷ ds) sub = elim (Bool-cases (is_event_of r.id d)) [
    | inl mine ↦
        let (x, n, i) = before.owned d (sub d (Memᴰ.head refl)) in
        absurd (
          ground (
            arith,
            not_any (λ x. text_eq x.id r.id) xs fresh n,
            text_eq_iff x.id r.id,
            text_eq_iff d.intent_id r.id,
            i,
            mine,
          ))
    | inr other ↦ rw other (no_events r fresh ds λ e m. sub e (Memᴰ.tail m))
  ]

  pub Chained-insert :
      (r : IntentRow) → any (λ x. text_eq x.id r.id) xs ≡ false → Chained svc (xs ++ r ∷ []) es
  unfolding chain_findings
  Chained-insert r fresh = record {
    owned = λ e m. let (x, n, i) = before.owned e m in (x, mem-append_left (r ∷ []) n, i);
    linked = λ x m. elim (mem-append_one xs m) [
      | inl n ↦ before.linked x n
      | inr same ↦ rw (same, no_events r fresh es (λ e n. n)) refl
    ];
  }

  -- One more event, linked to the end of its proposal's chain.
  pub Chained-event :
      (row : IntentRow) (e : AuditRow)
      → Memᴰ row xs
      → ((x : IntentRow) → Memᴰ x xs → x.id ≡ row.id → x ≡ row)
      → row.id ≡ e.intent_id
      → is_defined e.payload ≡ true
      → e.previous_hash ≡ tip (last (select (is_event_of row.id) es))
      → e.event_hash ≡ event_digest svc e
      → row.created_at ≤ e.occurred_at
      → is_before e.occurred_at (last (select (is_event_of row.id) es)) ≡ false
      → Chained svc xs (es ++ e ∷ [])
  Chained-event row e listed unique mine defined previous hash created later = record {
    owned = λ d m. elim (mem-append_one es m) [
      | inl n ↦ before.owned d n
      | inr same ↦ (row, listed, mine ∙ sym (ap (λ z. z.intent_id) same))
    ];
    linked = λ x m. elim (Bool-cases (is_event_of x.id e)) [
      | inl its ↦
          let same : x ≡ row = unique x m (event-id x.id e its ∙ sym mine) in
          subst
            (λ z.
              chain_findings svc z.id z genesis_tip none (select (is_event_of z.id) (es ++ e ∷ []))
              ≡ [])
            (sym same) extended
      | inr other ↦ rw (select-skip (is_event_of x.id) es e other) (before.linked x m)
    ];
  }
    where
      extended :
          chain_findings svc row.id row genesis_tip none
            (select (is_event_of row.id) (es ++ e ∷ []))
          ≡ []
      extended = rw (select-append_one (is_event_of row.id) es e (event-of row.id e mine)) (
          chain-append svc row.id row genesis_tip none (select (is_event_of row.id) es) e
            (before.linked row listed) defined
            (linked-of svc row e (tip_from genesis_tip (select (is_event_of row.id) es)) mine
              (previous ∙ sym (tip_from-last (select (is_event_of row.id) es))) hash)
            (chronological-of svc row e (time_from none (select (is_event_of row.id) es)) created
              (time_from-last e.occurred_at (select (is_event_of row.id) es) ∙ later)))
