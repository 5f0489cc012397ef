-- ===== src/Common/Lists.antt =====
-- Lists measured by native numbers and searched by Boolean tests.
use Prim.Native.Nat.{ℕ, suc, ◌+◌}
use mathlib.Core.Path.{◌≡◌, refl, sym, subst}
use mathlib.Core.Logic.{inl, inr}
use mathlib.Core.Bool.{Bool, true, false, ◌&&◌, ◌||◌}
use mathlib.Core.Option.{Option, none, some}
use mathlib.Core.List.{List, [], ◌∷◌, ◌++◌, Memᴰ}
use native.Mathlib.Omega.{arith}
use parimit.Common.Tests.{if◌then◌else◌, Bool-cases}

module _ {ℓ} {A : Type ℓ} where
  abbrev pub length : List A → ℕ
  length [] = 0
  length (x ∷ xs) = suc (length xs)

  abbrev pub all : (A → Bool) → List A → Bool
  all p [] = true
  all p (x ∷ xs) = p x && all p xs

  abbrev pub any : (A → Bool) → List A → Bool
  any p [] = false
  any p (x ∷ xs) = p x || any p xs

  -- `Array.prototype.filter`, and the rows of a table that a `WHERE` clause selects.
  abbrev pub select : (A → Bool) → List A → List A
  select p [] = []
  select p (x ∷ xs) = if p x then x ∷ select p xs else select p xs

  -- `Array.prototype.find`, and the row that `.get()` returns.
  abbrev pub find : (A → Bool) → List A → Option A
  find p [] = none
  find p (x ∷ xs) = if p x then some x else find p xs

  -- `array.at(-1)`.
  abbrev pub last : List A → Option A
  last [] = none
  last (x ∷ []) = some x
  last (x ∷ y ∷ xs) = last (y ∷ xs)

  pub length-append : (xs ys : List A) → length (xs ++ ys) ≡ length xs + length ys
  length-append [] ys = omega arith
  length-append (x ∷ xs) ys = omega (arith, length-append xs ys)

  pub select-append :
      (p : A → Bool) (xs ys : List A) → select p (xs ++ ys) ≡ select p xs ++ select p ys
  select-append p [] ys = refl
  select-append p (x ∷ xs) ys = ground (arith, select-append p xs ys)

  pub select-append_one :
      (p : A → Bool) (xs : List A) (y : A)
      → p y ≡ true
      → select p (xs ++ y ∷ []) ≡ select p xs ++ y ∷ []
  select-append_one p [] y t = rw t refl
  select-append_one p (x ∷ xs) y t = ground (arith, select-append_one p xs y t)

  pub select-skip :
      (p : A → Bool) (xs : List A) (y : A) → p y ≡ false → select p (xs ++ y ∷ []) ≡ select p xs
  select-skip p [] y t = rw t refl
  select-skip p (x ∷ xs) y t = ground (arith, select-skip p xs y t)

  pub last-append : (xs : List A) (y : A) → last (xs ++ y ∷ []) ≡ some y
  last-append [] y = refl
  last-append (x ∷ []) y = refl
  last-append (x ∷ z ∷ xs) y = last-append (z ∷ xs) y

  -- What is found passes the test and stands in the list.
  pub find-eq-some :
      (p : A → Bool) (xs : List A) {x : A} → find p xs ≡ some x → (p x ≡ true) × Memᴰ x xs
  find-eq-some p [] h = cc
  find-eq-some p (y ∷ ys) {x} h = elim (Bool-cases (p y)) [
    | inl hit ↦
        let same : y ≡ x = ground arith in (subst (λ z. p z ≡ true) same hit, Memᴰ.head (sym same))
    | inr miss ↦ let (t, m) = find-eq-some p ys (rw miss at h) in (t, Memᴰ.tail m)
  ]

  -- An element of a list that begins with one that passes the test.
  kept :
      (p : A → Bool) (y : A) (ys selected : List A) {x : A}
      → p y ≡ true
      → (Memᴰ x selected → (p x ≡ true) × Memᴰ x ys)
      → Memᴰ x (y ∷ selected)
      → (p x ≡ true) × Memᴰ x (y ∷ ys)
  kept p y ys selected hit rest (Memᴰ.head e) = (subst (λ z. p z ≡ true) (sym e) hit, Memᴰ.head e)
  kept p y ys selected hit rest (Memᴰ.tail n) = let (t, m) = rest n in (t, Memᴰ.tail m)

  -- What is selected passes the test and stands in the list.
  pub Memᴰ-select :
      (p : A → Bool) (xs : List A) {x : A} → Memᴰ x (select p xs) → (p x ≡ true) × Memᴰ x xs
  Memᴰ-select p [] m = elim m [ ]
  Memᴰ-select p (y ∷ ys) {x} m = elim (Bool-cases (p y)) [
    | inl hit ↦ kept p y ys (select p ys) hit (λ n. Memᴰ-select p ys n) (rw hit at m)
    | inr miss ↦ let (t, n) = Memᴰ-select p ys (rw miss at m) in (t, Memᴰ.tail n)
  ]

-- A predicate of every element.
abbrev pub All {ℓ κ} : {A : Type ℓ} → (A → Type κ) → List A → Type κ
All P [] = Unit
All P (x ∷ xs) = P x × All P xs

pub append-eq-nil {ℓ} : {A : Type ℓ} (xs ys : List A) → xs ++ ys ≡ [] → (xs ≡ []) × (ys ≡ [])
append-eq-nil [] ys h = (refl, h)
append-eq-nil (x ∷ xs) ys h = cc
