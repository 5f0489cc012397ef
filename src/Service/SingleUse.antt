-- ===== src/Service/SingleUse.antt =====
-- An envelope is consumed at most once: how the envelope table changes over time.
pub mod Writes
pub mod Methods
use parimit.Common.{
  ℕ, suc, ◌≤◌, ◌<◌, ◌≡◌, refl, sym, subst, ◌∙◌, ap, ◌⊎◌, inl, inr, Bool, true, false, ◌&&◌, Option,
  none, some, List, [], ◌∷◌, ◌++◌, arith, select, find, length, Memᴰ, Bool-cases, if◌then◌else◌,
}
use parimit.Text.{Text}
use parimit.Database.{EnvelopeRow}
use parimit.Database.Envelopes.{is_envelope, is_claimable, claim, claim_rows}

-- `f` is the envelope `e` at a later time: the same row, or the same with one consumption in its
-- lifetime, where it had none.
pub data LaterEnvelope (e f : EnvelopeRow) : Type 0 where
  kept : f ≡ e → LaterEnvelope e f
  claimed :
      (at : ℕ) (actor key : Text)
      → e.consumed_at ≡ none
      → e.issued_at ≤ at
      → at < e.expires_at
      → f ≡ claim at actor key e
      → LaterEnvelope e f

-- Each envelope of the first table stands, at a later time, at its place in the second.
abbrev pub EnvelopesEvolve : List EnvelopeRow → List EnvelopeRow → Type 0
EnvelopesEvolve [] ys = Unit {0}
EnvelopesEvolve (x ∷ xs) [] = ⊥
EnvelopesEvolve (x ∷ xs) (y ∷ ys) = LaterEnvelope x y × EnvelopesEvolve xs ys

pub LaterEnvelope-trans :
    (x y z : EnvelopeRow) → LaterEnvelope x y → LaterEnvelope y z → LaterEnvelope x z
LaterEnvelope-trans x y z (kept e) q = subst (λ v. LaterEnvelope v z) e q
LaterEnvelope-trans x y z (claimed at actor key free lo hi e) (kept f) =
    claimed at actor key free lo hi (f ∙ e)
LaterEnvelope-trans x y z (claimed at actor key free lo hi e) (claimed _ _ _ again _ _ f) =
    let taken : some at ≡ none = sym (ap (λ v. v.consumed_at) e) ∙ again in cc

pub EnvelopesEvolve-refl : (xs : List EnvelopeRow) → EnvelopesEvolve xs xs
EnvelopesEvolve-refl [] = tt
EnvelopesEvolve-refl (x ∷ xs) = (kept refl, EnvelopesEvolve-refl xs)

pub EnvelopesEvolve-trans :
    (xs ys zs : List EnvelopeRow)
    → EnvelopesEvolve xs ys
    → EnvelopesEvolve ys zs
    → EnvelopesEvolve xs zs
EnvelopesEvolve-trans [] ys zs p q = tt
EnvelopesEvolve-trans (x ∷ xs) [] zs p q = absurd p
EnvelopesEvolve-trans (x ∷ xs) (y ∷ ys) [] p q = absurd q
EnvelopesEvolve-trans (x ∷ xs) (y ∷ ys) (z ∷ zs) (p, ps) (q, qs) =
    (LaterEnvelope-trans x y z p q, EnvelopesEvolve-trans xs ys zs ps qs)

pub EnvelopesEvolve-append :
    (xs : List EnvelopeRow) (e : EnvelopeRow) → EnvelopesEvolve xs (xs ++ e ∷ [])
EnvelopesEvolve-append [] e = tt
EnvelopesEvolve-append (x ∷ xs) e = (kept refl, EnvelopesEvolve-append xs e)

-- Nothing passes a test that selects nothing, and what passes one that selects one row is that row.
select-none :
    (p : EnvelopeRow → Bool) (xs : List EnvelopeRow) {x : EnvelopeRow}
    → length (select p xs) ≡ 0
    → Memᴰ x xs
    → p x ≡ true
    → ⊥
select-none p [] h m t = elim m [ ]
select-none p (y ∷ ys) h (Memᴰ.head e) t =
    let hit = ap p (sym e) ∙ t in absurd (omega (arith, rw hit at h))
select-none p (y ∷ ys) h (Memᴰ.tail m) t = elim (Bool-cases (p y)) [
  | inl hit ↦ absurd (omega (arith, rw hit at h))
  | inr miss ↦ select-none p ys (rw miss at h) m t
]

select-head :
    (p : EnvelopeRow → Bool) (z : EnvelopeRow) (zs : List EnvelopeRow) {x : EnvelopeRow}
    → length (select p zs) ≡ 0
    → Memᴰ x (z ∷ zs)
    → p x ≡ true
    → x ≡ z
select-head p z zs none_left (Memᴰ.head e) t = e
select-head p z zs none_left (Memᴰ.tail m) t = absurd (select-none p zs none_left m t)

tail_of :
    (p : EnvelopeRow → Bool) (z : EnvelopeRow) {zs : List EnvelopeRow} {x : EnvelopeRow}
    → p z ≡ false
    → Memᴰ x (z ∷ zs)
    → p x ≡ true
    → Memᴰ x zs
tail_of p z miss (Memᴰ.head e) t = cc (ap p e)
tail_of p z miss (Memᴰ.tail m) t = m

pub select-single :
    (p : EnvelopeRow → Bool) (xs : List EnvelopeRow) {x y : EnvelopeRow}
    → length (select p xs) ≡ 1
    → Memᴰ x xs
    → p x ≡ true
    → Memᴰ y xs
    → p y ≡ true
    → x ≡ y
select-single p [] h m s n t = elim m [ ]
select-single p (z ∷ zs) h m s n t = elim (Bool-cases (p z)) [
  | inl hit ↦
      let rest : length (select p zs) ≡ 0 = omega (arith, rw hit at h) in
      select-head p z zs rest m s ∙ sym (select-head p z zs rest n t)
  | inr miss ↦ select-single p zs (rw miss at h) (tail_of p z miss m s) s (tail_of p z miss n t) t
]

-- The UPDATE, where every row that it changes may be claimed at that time.
pub EnvelopesEvolve-claim :
    (tenant id : Text) (at : ℕ) (actor key : Text) (xs : List EnvelopeRow)
    → ((e : EnvelopeRow)
        → Memᴰ e xs
        → is_claimable tenant id e ≡ true
        → (e.consumed_at ≡ none) × (e.issued_at ≤ at) × (at < e.expires_at))
    → EnvelopesEvolve xs (claim_rows tenant id at actor key xs)
unfolding claim_rows
EnvelopesEvolve-claim tenant id at actor key [] may = tt
EnvelopesEvolve-claim tenant id at actor key (e ∷ es) may = (
  elim (Bool-cases (is_claimable tenant id e)) [
    | inl hit ↦
        let (free, lo, hi) = may e (Memᴰ.head refl) hit in
        rw hit (claimed at actor key free lo hi refl)
    | inr miss ↦ rw miss (kept refl)
  ],
  EnvelopesEvolve-claim tenant id at actor key es λ f m. may f (Memᴰ.tail m),
)
