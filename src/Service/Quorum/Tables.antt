-- ===== src/Service/Quorum/Tables.antt =====
-- Membership under the writes that change a table.
use parimit.Common.{
  ◌≡◌, refl, sym, ap, subst, ◌∙◌, ◌⊎◌, inl, inr, Bool, false, List, [], ◌∷◌, ◌++◌, any, arith, Memᴰ,
  Bool-cases, if◌then◌else◌,
}
use parimit.Text.{Text, text_eq, text_eq_iff}
use parimit.Types.{IntentStatus}
use parimit.Database.{IntentRow, ApprovalRow, is_open, advance, advance_rows, is_by}
use parimit.Service.Quorum.{Once}

module _ {ℓ} {A : Type ℓ} where
  pub mem-append_one : (xs : List A) {x r : A} → Memᴰ x (xs ++ r ∷ []) → Memᴰ x xs ⊎ (x ≡ r)
  mem-append_one [] (Memᴰ.head e) = inr e
  mem-append_one [] (Memᴰ.tail m) = elim m [ ]
  mem-append_one (y ∷ ys) (Memᴰ.head e) = inl (Memᴰ.head e)
  mem-append_one (y ∷ ys) (Memᴰ.tail m) = elim (mem-append_one ys m) [
    | inl n ↦ inl (Memᴰ.tail n)
    | inr e ↦ inr e
  ]

  pub mem-append_left : {x : A} {xs : List A} (ys : List A) → Memᴰ x xs → Memᴰ x (xs ++ ys)
  mem-append_left ys (Memᴰ.head e) = Memᴰ.head e
  mem-append_left ys (Memᴰ.tail m) = Memᴰ.tail (mem-append_left ys m)

  pub mem-append_last : (xs : List A) (r : A) → Memᴰ r (xs ++ r ∷ [])
  mem-append_last [] r = Memᴰ.head refl
  mem-append_last (x ∷ xs) r = Memᴰ.tail (mem-append_last xs r)

  pub not_any : (p : A → Bool) (xs : List A) {x : A} → any p xs ≡ false → Memᴰ x xs → p x ≡ false
  not_any p [] h m = elim m [ ]
  not_any p (y ∷ ys) h (Memᴰ.head e) = subst (λ z. p z ≡ false) (sym e) (ground arith)
  not_any p (y ∷ ys) h (Memᴰ.tail m) = not_any p ys (ground arith) m

-- A row as the UPDATE leaves it.
abbrev pub updated : Text → Text → IntentStatus → IntentRow → IntentRow
updated tenant id next x = if is_open tenant id x then advance next x else x

pub mem-advance :
    (tenant id : Text) (next : IntentStatus) (xs : List IntentRow) {y : IntentRow}
    → Memᴰ y (advance_rows tenant id next xs)
    → (x : IntentRow) × Memᴰ x xs × (y ≡ updated tenant id next x)
unfolding advance_rows
mem-advance tenant id next [] m = elim m [ ]
mem-advance tenant id next (x ∷ xs) (Memᴰ.head e) = (x, Memᴰ.head refl, e)
mem-advance tenant id next (x ∷ xs) (Memᴰ.tail m) =
    let (z, n, e) = mem-advance tenant id next xs m in (z, Memᴰ.tail n, e)

pub mem-advance_of :
    (tenant id : Text) (next : IntentStatus) {x : IntentRow} {xs : List IntentRow}
    → Memᴰ x xs
    → Memᴰ (updated tenant id next x) (advance_rows tenant id next xs)
unfolding advance_rows
mem-advance_of tenant id next (Memᴰ.head e) = Memᴰ.head (ap (updated tenant id next) e)
mem-advance_of tenant id next (Memᴰ.tail m) = Memᴰ.tail (mem-advance_of tenant id next m)

-- The UPDATE changes only the status and the version.
pub updated-frame :
    (tenant id : Text) (next : IntentStatus) (x : IntentRow)
    → ((updated tenant id next x).id ≡ x.id)
      × ((updated tenant id next x).agent_id ≡ x.agent_id)
      × ((updated tenant id next x).required_approvals ≡ x.required_approvals)
updated-frame tenant id next x = elim (Bool-cases (is_open tenant id x)) [
  | inl e ↦ rw e (refl, refl, refl)
  | inr e ↦ rw e (refl, refl, refl)
]

text_eq_sym : (s t : Text) → text_eq s t ≡ text_eq t s
text_eq_sym s t = ground (arith, text_eq_iff s t, text_eq_iff t s)

is_by_sym : (x a : ApprovalRow) → is_by a.intent_id a.actor_id x ≡ is_by x.intent_id x.actor_id a
is_by_sym x a = rw (text_eq_sym x.intent_id a.intent_id, text_eq_sym x.actor_id a.actor_id) refl

any-append_one {ℓ} :
    {A : Type ℓ} (p : A → Bool) (xs : List A) (y : A)
    → any p xs ≡ false
    → p y ≡ false
    → any p (xs ++ y ∷ []) ≡ false
any-append_one p [] y h t = ground arith
any-append_one p (x ∷ xs) y h t = ground (arith, any-append_one p xs y (ground arith) t)

pub Once-append :
    (xs : List ApprovalRow) (a : ApprovalRow)
    → Once xs
    → any (is_by a.intent_id a.actor_id) xs ≡ false
    → Once (xs ++ a ∷ [])
Once-append [] a o h = (refl, tt)
Once-append (x ∷ xs) a (first, o) h = (
  any-append_one (is_by x.intent_id x.actor_id) xs a first
      (sym (is_by_sym x a) ∙ not_any (is_by a.intent_id a.actor_id) (x ∷ xs) h (Memᴰ.head refl)),
  Once-append xs a o (ground arith),
)
