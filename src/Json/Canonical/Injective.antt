-- ===== src/Json/Canonical/Injective.antt =====
-- Two values have the same canonical text only if they are the same up to the order of members.
use mathlib.Core.Path.{ap₂}
use mathlib.Core.List.{append-nil}
use parimit.Common.{
  ℕ, ◌<◌, ◌↔◌, ◌≡◌, ◌≢◌, refl, sym, ap, ◌∙◌, Bool, true, false, [], ◌∷◌, ◌++◌, arith, ◌==◌,
  if◌then◌else◌, ◌||◌,
}
use parimit.Text.{Text, is_digit, lit}
use parimit.Text.Decimal.{decimal}
use parimit.Text.Decimal.Reading.{starts_digit, decimal-injective, decimal_start}
use parimit.Json.{Json, null, bool, num, str, arr, obj, Items, nil, cons, Fields, end, field}
use parimit.Json.Canonical.{members, quote, canonicalize, canonical_json}
use parimit.Json.Canonical.Quote.{quote-injective}
use parimit.Json.Canonical.Normal.{normal, print, print_items, print_fields, canonicalize-eq-print}
use parimit.Json.Canonical.Parts.{
  behind, behind-closes, tail-eq, array_opens, object_opens, member_opens, item_opens, no_items,
  no_members, array_closed, object_closed, quote_opens, apart,
}

-- The kind of a value, and the kind that the first character of a text shows.
tag : Json → ℕ
tag null = 0
tag (bool b) = 1
tag (num n) = 2
tag (str s) = 3
tag (arr vs) = 4
tag (obj fs) = 5

first_tag : Text → ℕ
first_tag [] = 6
first_tag (c ∷ t) =
    if c == b'n'
    then 0
    else if c == b't' || c == b'f'
    then 1
    else if is_digit c
    then 2
    else if c == b'"'
    then 3
    else if c == b'['
    then 4
    else if c == b'{'
    then 5
    else 6

first_tag-digit : (t : Text) → starts_digit t ≡ true → first_tag t ≡ 2
unfolding first_tag
first_tag-digit [] h = cc
first_tag-digit (c ∷ t) h = ground arith

first_tag-print : (v : Json) (r : Text) → first_tag (print v ++ r) ≡ tag v
unfolding first_tag tag print canonicalize lit quote
first_tag-print null r = refl
first_tag-print (bool true) r = refl
first_tag-print (bool false) r = refl
first_tag-print (num n) r = first_tag-digit (decimal n ++ r) (decimal_start n r)
first_tag-print (str s) r = refl
first_tag-print (arr vs) r = refl
first_tag-print (obj fs) r = refl

tag_lt : (v : Json) → tag v < 6
unfolding tag
tag_lt null = omega arith
tag_lt v = omega arith

-- A closing bracket does not begin a value.
first_tag-closed :
    (v : Json) (close : ℕ) (r s : Text) → first_tag (close ∷ r) ≡ 6 → close ∷ r ≢ print v ++ s
first_tag-closed v close r s h e =
    absurd (omega (arith, tag_lt v, h, ap first_tag e, first_tag-print v s))

-- `v` and `w` can be told apart from their texts, whatever stands behind.
abbrev Separates : Json → Json → Type 0
Separates v w =
    (r s : Text)
    → starts_digit r ≡ false
    → starts_digit s ≡ false
    → print v ++ r ≡ print w ++ s
    → (v ≡ w) × (r ≡ s)

element_first :
    (v : Json) (vs : Items) (w : Json) (ws : Items) (r s : Text)
    → Separates v w
    → (behind b']' (print_items vs) r ≡ behind b']' (print_items ws) s → (vs ≡ ws) × (r ≡ s))
    → print v ++ behind b']' (print_items vs) r ≡ print w ++ behind b']' (print_items ws) s
    → (cons v vs ≡ cons w ws) × (r ≡ s)
element_first v vs w ws r s first others e =
    let (head, rest) =
      first _ _ (behind-closes b']' (print_items vs) r refl)
        (behind-closes b']' (print_items ws) s refl) e in
    let (tail, last) = others rest in (ap₂ cons head tail, last)

member_first :
    (i : Text) (v : Json) (fs : Fields) (j : Text) (w : Json) (gs : Fields) (r s : Text)
    → Separates v w
    → (behind b'}' (members (print_fields fs)) r ≡ behind b'}' (members (print_fields gs)) s
        → (fs ≡ gs) × (r ≡ s))
    → quote i ++ b':' ∷ (print v ++ behind b'}' (members (print_fields fs)) r)
      ≡ quote j ++ b':' ∷ (print w ++ behind b'}' (members (print_fields gs)) s)
    → (field i v fs ≡ field j w gs) × (r ≡ s)
member_first i v fs j w gs r s first others e =
    let (key, from_value) = quote-injective i j _ _ e in
    let (head, rest) =
      first _ _ (behind-closes b'}' (members (print_fields fs)) r refl)
        (behind-closes b'}' (members (print_fields gs)) s refl) (tail-eq from_value) in
    let (tail, last) = others rest in (cc, last)

null_rest : (r s : Text) → print null ++ r ≡ print null ++ s → r ≡ s
unfolding print canonicalize lit
null_rest r s e = tail-eq (tail-eq (tail-eq (tail-eq e)))

bool_rest :
    (a b : Bool) (r s : Text)
    → print (bool a) ++ r ≡ print (bool b) ++ s
    → (bool a ≡ bool b) × (r ≡ s)
unfolding print canonicalize lit
bool_rest true true r s e = (refl, tail-eq (tail-eq (tail-eq (tail-eq e))))
bool_rest false false r s e = (refl, tail-eq (tail-eq (tail-eq (tail-eq (tail-eq e)))))
bool_rest true false r s e = absurd (omega (arith, apart e))
bool_rest false true r s e = absurd (omega (arith, apart e))

num-Separates : (n m : ℕ) → Separates (num n) (num m)
unfolding print canonicalize
num-Separates n m r s h k e =
    let (same, rest) = decimal-injective n m r s h k e in (ap num same, rest)

str-Separates : (t u : Text) → Separates (str t) (str u)
unfolding print
str-Separates t u r s h k e = let (same, rest) = quote-injective t u r s e in (ap str same, rest)

empty_array :
    (w : Json) (ws : Items) (r s : Text) → print (arr nil) ++ r ≢ print (arr (cons w ws)) ++ s
unfolding first_tag
empty_array w ws r s e =
    first_tag-closed w b']' r _ refl (tail-eq (sym (array_closed r) ∙ e ∙ array_opens w ws s))

empty_object :
    (j : Text) (w : Json) (gs : Fields) (r s : Text)
    → print (obj end) ++ r ≢ print (obj (field j w gs)) ++ s
empty_object j w gs r s e =
    omega
      (arith, apart (tail-eq (sym (object_closed r) ∙ e ∙ object_opens j w gs s) ∙ quote_opens j _))

other_tag : (v w : Json) (r s : Text) → print v ++ r ≡ print w ++ s → tag v ≡ tag w
other_tag v w r s e = sym (first_tag-print v r) ∙ ap first_tag e ∙ first_tag-print w s

mutual
  unfolding tag

  print-injective : (v w : Json) → Separates v w
  print-injective null null r s h k e = (refl, null_rest r s e)
  print-injective (bool a) (bool b) r s h k e = bool_rest a b r s e
  print-injective (num n) (num m) r s h k e = num-Separates n m r s h k e
  print-injective (str t) (str u) r s h k e = str-Separates t u r s h k e
  print-injective (arr nil) (arr nil) r s h k e =
      (refl, tail-eq (tail-eq (sym (array_closed r) ∙ e ∙ array_closed s)))
  print-injective (arr nil) (arr (cons w ws)) r s h k e = absurd (empty_array w ws r s e)
  print-injective (arr (cons v vs)) (arr nil) r s h k e = absurd (empty_array v vs s r (sym e))
  print-injective (arr (cons v vs)) (arr (cons w ws)) r s h k e =
      let (same, rest) =
        element_first v vs w ws r s (print-injective v w) (items-injective vs ws r s)
          (tail-eq (sym (array_opens v vs r) ∙ e ∙ array_opens w ws s)) in
      (ap arr same, rest)
  print-injective (obj end) (obj end) r s h k e =
      (refl, tail-eq (tail-eq (sym (object_closed r) ∙ e ∙ object_closed s)))
  print-injective (obj end) (obj (field j w gs)) r s h k e = absurd (empty_object j w gs r s e)
  print-injective (obj (field i v fs)) (obj end) r s h k e =
      absurd (empty_object i v fs s r (sym e))
  print-injective (obj (field i v fs)) (obj (field j w gs)) r s h k e =
      let (same, rest) =
        member_first i v fs j w gs r s (print-injective v w) (fields-injective fs gs r s)
          (tail-eq (sym (object_opens i v fs r) ∙ e ∙ object_opens j w gs s)) in
      (ap obj same, rest)
  print-injective v w r s h k e = absurd (omega (arith, other_tag v w r s e))

  items-injective :
      (vs ws : Items) (r s : Text)
      → behind b']' (print_items vs) r ≡ behind b']' (print_items ws) s
      → (vs ≡ ws) × (r ≡ s)
  items-injective nil nil r s e = (refl, tail-eq (sym (no_items r) ∙ e ∙ no_items s))
  items-injective nil (cons w ws) r s e =
      absurd (omega (arith, apart (sym (no_items r) ∙ e ∙ item_opens w ws s)))
  items-injective (cons v vs) nil r s e =
      absurd (omega (arith, apart (sym (no_items s) ∙ sym e ∙ item_opens v vs r)))
  items-injective (cons v vs) (cons w ws) r s e =
      element_first v vs w ws r s (print-injective v w) (items-injective vs ws r s)
        (tail-eq (sym (item_opens v vs r) ∙ e ∙ item_opens w ws s))

  fields-injective :
      (fs gs : Fields) (r s : Text)
      → behind b'}' (members (print_fields fs)) r ≡ behind b'}' (members (print_fields gs)) s
      → (fs ≡ gs) × (r ≡ s)
  fields-injective end end r s e = (refl, tail-eq (sym (no_members r) ∙ e ∙ no_members s))
  fields-injective end (field j w gs) r s e =
      absurd (omega (arith, apart (sym (no_members r) ∙ e ∙ member_opens j w gs s)))
  fields-injective (field i v fs) end r s e =
      absurd (omega (arith, apart (sym (no_members s) ∙ sym e ∙ member_opens i v fs r)))
  fields-injective (field i v fs) (field j w gs) r s e =
      member_first i v fs j w gs r s (print-injective v w) (fields-injective fs gs r s)
        (tail-eq (sym (member_opens i v fs r) ∙ e ∙ member_opens j w gs s))

-- Two values have the same canonical text exactly when they have the same normal form, in which the
-- members of every object are sorted by their keys: they differ at most in the order of members.
pub canonical_json-injective :
    (v w : Json) → (canonical_json v ≡ canonical_json w) ↔ (normal v ≡ normal w)
unfolding canonical_json
canonical_json-injective v w = (
  λ e.
      (print-injective (normal v) (normal w) [] [] refl refl (
        append-nil _
        ∙ sym (canonicalize-eq-print v)
        ∙ e
        ∙ canonicalize-eq-print w
        ∙ sym (append-nil _))).0,
  λ e. canonicalize-eq-print v ∙ ap print e ∙ sym (canonicalize-eq-print w),
)
