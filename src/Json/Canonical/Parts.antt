-- ===== src/Json/Canonical/Parts.antt =====
-- How the printed text of an array and of an object begins, and what stands behind its first part.
use mathlib.Core.List.{append_assoc}
use parimit.Common.{ℕ, ◌≡◌, refl, sym, ap, ◌∙◌, false, List, [], ◌∷◌, ◌++◌}
use parimit.Text.{Text, is_digit}
use parimit.Text.Decimal.Reading.{starts_digit}
use parimit.Json.{Json, arr, obj, Items, nil, cons, Fields, end, field}
use parimit.Json.Canonical.{join, members, quote, quote_units}
use parimit.Json.Canonical.Normal.{print, print_items, print_fields}

-- What stands behind the first part, up to the closing bracket and the rest.
pub behind : ℕ → List Text → Text → Text
behind close [] r = close ∷ r
behind close (t ∷ ts) r = b',' ∷ (t ++ behind close ts r)

pub join-behind :
    (close : ℕ) (t : Text) (ts : List Text) (r : Text)
    → (join (t ∷ ts) ++ close ∷ []) ++ r ≡ t ++ behind close ts r
unfolding join behind
join-behind close t [] r = append_assoc t _ r
join-behind close t (u ∷ ts) r =
    simp append_assoc
      (ap (λ x. t ++ b',' ∷ x) (sym (append_assoc (join (u ∷ ts)) _ r) ∙ join-behind close u ts r))

pub behind-closes :
    (close : ℕ) (ts : List Text) (r : Text)
    → is_digit close ≡ false
    → starts_digit (behind close ts r) ≡ false
unfolding behind
behind-closes close [] r h = h
behind-closes close (t ∷ ts) r h = refl

pub tail-eq : {a b : ℕ} {s t : Text} → (a ∷ s) ≡ (b ∷ t) → s ≡ t
tail-eq e = cc

pub array_opens :
    (v : Json) (vs : Items) (r : Text)
    → print (arr (cons v vs)) ++ r ≡ b'[' ∷ (print v ++ behind b']' (print_items vs) r)
unfolding print
array_opens v vs r = ap (λ t. b'[' ∷ t) (join-behind b']' (print v) (print_items vs) r)

pub object_opens :
    (k : Text) (v : Json) (fs : Fields) (r : Text)
    → print (obj (field k v fs)) ++ r
      ≡ b'{' ∷ (quote k ++ b':' ∷ (print v ++ behind b'}' (members (print_fields fs)) r))
unfolding print members
object_opens k v fs r =
    ap (λ t. b'{' ∷ t)
      (join-behind b'}' _ (members (print_fields fs)) r ∙ append_assoc (quote k) _ _)

pub member_opens :
    (k : Text) (v : Json) (fs : Fields) (r : Text)
    → behind b'}' (members (print_fields (field k v fs))) r
      ≡ b',' ∷ (quote k ++ b':' ∷ (print v ++ behind b'}' (members (print_fields fs)) r))
unfolding behind members print
member_opens k v fs r = ap (λ t. b',' ∷ t) (append_assoc (quote k) _ _)

pub item_opens :
    (v : Json) (vs : Items) (r : Text)
    → behind b']' (print_items (cons v vs)) r ≡ b',' ∷ (print v ++ behind b']' (print_items vs) r)
unfolding behind print
item_opens v vs r = refl

pub no_items : (r : Text) → behind b']' (print_items nil) r ≡ b']' ∷ r
unfolding behind print
no_items r = refl

pub no_members : (r : Text) → behind b'}' (members (print_fields end)) r ≡ b'}' ∷ r
unfolding behind members print
no_members r = refl

pub array_closed : (r : Text) → print (arr nil) ++ r ≡ b'[' ∷ b']' ∷ r
unfolding print join
array_closed r = refl

pub object_closed : (r : Text) → print (obj end) ++ r ≡ b'{' ∷ b'}' ∷ r
unfolding print join members
object_closed r = refl

pub quote_opens : (k r : Text) → quote k ++ r ≡ b'"' ∷ ((quote_units k ++ b'"' ∷ []) ++ r)
unfolding quote
quote_opens k r = refl

pub apart : {a b : ℕ} {s t : Text} → (a ∷ s) ≡ (b ∷ t) → a ≡ b
apart e = cc
