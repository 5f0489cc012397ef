-- ===== src/Json/Canonical/Quote.antt =====
-- `JSON.stringify` of a string can be read in one way only, also in front of other text.
use parimit.Common.{
  ℕ, ◌+◌, ◌-◌, ◌*◌, ◌/◌, ◌%◌, ◌<◌, ◌≡◌, ◌≢◌, refl, sym, ap, ◌∙◌, Bool, true, false, ◌&&◌, ◌||◌,
  Option, none, some, [], ◌∷◌, ◌++◌, arith, ltb, ◌==◌, if◌then◌else◌, Bool-cases, inl, inr,
  &&-eq-true,
}
use mathlib.Core.Path.{ap₂}
use mathlib.Core.List.{append-nil, append_assoc}
use parimit.Text.{Text}
use parimit.Json.Canonical.{
  hex_digit, unicode_escape, is_high, is_low, quote_unit, quote_units, quote,
}

hex_value : ℕ → ℕ
hex_value d = if ltb d 58 then d - 48 else d - 87

hex_value-hex_digit : (d : ℕ) → d < 16 → hex_value (hex_digit d) ≡ d
unfolding hex_value hex_digit
hex_value-hex_digit d h = ground arith

short : ℕ → ℕ
short e =
    if e == b'b'
    then 8
    else if e == b't'
    then 9
    else if e == b'n'
    then 10
    else if e == b'f'
    then 12
    else if e == b'r'
    then 13
    else e

after_u : Text → Option (ℕ × Text)
after_u (a ∷ b ∷ c ∷ d ∷ t) =
    some (hex_value a * 4096 + hex_value b * 256 + hex_value c * 16 + hex_value d, t)
after_u _ = none

after_backslash : Text → Option (ℕ × Text)
unfolding short after_u
after_backslash [] = none
after_backslash (e ∷ t) = if e == b'u' then after_u t else some (short e, t)

-- The code unit that a text inside quotes begins with; none at the closing quote.
first_unit : Text → Option (ℕ × Text)
unfolding after_backslash
first_unit [] = none
first_unit (c ∷ t) =
    if c == b'"' then none else if c == b'\\' then after_backslash t else some (c, t)

first_unit-escape :
    (c : ℕ) (t : Text) → c < 65536 → first_unit (unicode_escape c ++ t) ≡ some (c, t)
unfolding first_unit unicode_escape
first_unit-escape c t h = ground (
  arith,
  hex_value-hex_digit (c / 4096 % 16),
  hex_value-hex_digit (c / 256 % 16),
  hex_value-hex_digit (c / 16 % 16),
  hex_value-hex_digit (c % 16),
)

first_unit-quote_unit : (c : ℕ) (t : Text) → first_unit (quote_unit c ++ t) ≡ some (c, t)
unfolding first_unit quote_unit
first_unit-quote_unit c t = ground (arith, first_unit-escape c t)

-- `c` and the unit behind it are a surrogate pair.
is_pair : ℕ → Text → Bool
is_pair c [] = false
is_pair c (d ∷ s) = is_high c && is_low d

-- `quote_units` one unit at a time: the flag says that the first unit is the end of a pair.
quote_from : Bool → Text → Text
unfolding is_pair
quote_from ends [] = []
quote_from true (c ∷ s) = c ∷ quote_from false s
quote_from false (c ∷ s) =
    (if is_pair c s then c ∷ [] else quote_unit c) ++ quote_from (is_pair c s) s

quote_units-eq-quote_from : (s : Text) → quote_units s ≡ quote_from false s
unfolding quote_from quote_units
quote_units-eq-quote_from [] = refl
quote_units-eq-quote_from (c ∷ []) = sym (append-nil (quote_unit c))
quote_units-eq-quote_from (c ∷ d ∷ s) = elim (Bool-cases (is_high c && is_low d)) [
  | inl pair ↦ rw (pair, quote_units) (ap (λ t. c ∷ d ∷ t) (quote_units-eq-quote_from s))
  | inr lone ↦
      rw (lone, quote_units) (ap (λ t. quote_unit c ++ t) (quote_units-eq-quote_from (d ∷ s)))
]

abbrev is_low_first : Text → Bool
is_low_first [] = false
is_low_first (c ∷ s) = is_low c

-- Half of a surrogate pair stands for itself.
first_unit-half :
    (c : ℕ) (t : Text) → (is_high c || is_low c) ≡ true → first_unit (c ∷ t) ≡ some (c, t)
unfolding first_unit
first_unit-half c t h = ground arith

is_pair-halves :
    (c : ℕ) (s : Text) → is_pair c s ≡ true → (is_high c ≡ true) × (is_low_first s ≡ true)
unfolding is_pair
is_pair-halves c [] h = cc
is_pair-halves c (d ∷ s) h = &&-eq-true _ _ h

first_unit-quote_from :
    (ends : Bool) (c : ℕ) (s t : Text)
    → (ends ≡ true → is_low c ≡ true)
    → (next : Bool) × (next ≡ true → is_low_first s ≡ true)
      × (first_unit (quote_from ends (c ∷ s) ++ t) ≡ some (c, quote_from next s ++ t))
unfolding quote_from
first_unit-quote_from true c s t h = (false, λ e. cc, first_unit-half c _ (ground (arith, h refl)))
first_unit-quote_from false c s t h = (
  is_pair c s,
  (λ e. (is_pair-halves c s e).1),
  elim (Bool-cases (is_pair c s)) [
    | inl pair ↦ rw pair (first_unit-half c _ (ground (arith, is_pair-halves c s pair)))
    | inr lone ↦ rw lone (rw append_assoc (first_unit-quote_unit c _))
  ],
)

∷-injective : {a b : ℕ} {s t : Text} → (a ∷ s) ≡ (b ∷ t) → s ≡ t
∷-injective e = cc

some-injective :
    {a b : ℕ} {s t : Text}
    → ◌≡◌ {A = Option (ℕ × Text)} (some (a, s)) (some (b, t))
    → (a ≡ b) × (s ≡ t)
some-injective e = (cc, cc)

quote_from-end : (b : Bool) (r : Text) → quote_from b [] ++ b'"' ∷ r ≡ b'"' ∷ r
unfolding quote_from
quote_from-end true r = refl
quote_from-end false r = refl

first_unit-closed :
    (b : Bool) (r : Text) {u : ℕ × Text} → first_unit (quote_from b [] ++ b'"' ∷ r) ≢ some u
unfolding quote_from first_unit
first_unit-closed true r e = cc
first_unit-closed false r e = cc

-- What was quoted, and what stands behind the closing quote, can be told from the text.
quote_from-injective :
    (b b' : Bool) (s s' r r' : Text)
    → (b ≡ true → is_low_first s ≡ true)
    → (b' ≡ true → is_low_first s' ≡ true)
    → quote_from b s ++ b'"' ∷ r ≡ quote_from b' s' ++ b'"' ∷ r'
    → (s ≡ s') × (r ≡ r')
quote_from-injective b b' [] [] r r' h h' e =
    (refl, ∷-injective (sym (quote_from-end b r) ∙ e ∙ quote_from-end b' r'))
quote_from-injective b b' [] (d ∷ s') r r' h h' e =
    let (_, _, first) = first_unit-quote_from b' d s' (b'"' ∷ r') h' in
    absurd (first_unit-closed b r (ap first_unit e ∙ first))
quote_from-injective b b' (c ∷ s) [] r r' h h' e =
    let (_, _, first) = first_unit-quote_from b c s (b'"' ∷ r) h in
    absurd (first_unit-closed b' r' (ap first_unit (sym e) ∙ first))
quote_from-injective b b' (c ∷ s) (d ∷ s') r r' h h' e =
    let (next, low, first) = first_unit-quote_from b c s (b'"' ∷ r) h in
    let (next', low', first') = first_unit-quote_from b' d s' (b'"' ∷ r') h' in
    let (unit, rest) = some-injective (sym first ∙ ap first_unit e ∙ first') in
    let (same, behind) = quote_from-injective next next' s s' r r' low low' rest in
    (ap₂ (λ (x : ℕ) (t : Text). x ∷ t) unit same, behind)

quote-opens : (s r : Text) → quote s ++ r ≡ b'"' ∷ (quote_from false s ++ b'"' ∷ r)
unfolding quote
quote-opens s r =
    ap (λ t. b'"' ∷ t)
      (append_assoc (quote_units s) _ r ∙ ap (λ t. t ++ b'"' ∷ r) (quote_units-eq-quote_from s))

pub quote-injective : (s s' r r' : Text) → quote s ++ r ≡ quote s' ++ r' → (s ≡ s') × (r ≡ r')
quote-injective s s' r r' e =
    quote_from-injective false false s s' r r' (λ x. cc) (λ x. cc)
      (∷-injective (sym (quote-opens s r) ∙ e ∙ quote-opens s' r'))
