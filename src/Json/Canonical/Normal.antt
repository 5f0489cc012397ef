-- ===== src/Json/Canonical/Normal.antt =====
-- `canonicalize` prints the normal form of a value, in which the members of every object are sorted.
use mathlib.Core.Path.{ap₂}
use parimit.Common.{
  ◌≡◌, refl, sym, ap, ◌∙◌, Bool-cases, inl, inr, List, [], ◌∷◌, ◌++◌, if◌then◌else◌,
}
use parimit.Text.{Text, text_lt}
use parimit.Json.{Json, null, bool, num, str, arr, obj, Items, nil, cons, Fields, end, field}
use parimit.Json.Canonical.{
  insert, sort, join, members, quote, object_text, canonicalize, canonicalize_items,
  canonicalize_fields,
}

unfoldable pub insert_field : Text → Json → Fields → Fields
insert_field k v end = field k v end
insert_field k v (field j w fs) =
    if text_lt j k then field j w (insert_field k v fs) else field k v (field j w fs)

-- The members of every object in the order of their keys.
unfoldable mutual
  unfolding insert_field

  pub normal : Json → Json
  normal null = null
  normal (bool b) = bool b
  normal (num n) = num n
  normal (str s) = str s
  normal (arr vs) = arr (normal_items vs)
  normal (obj fs) = obj (normal_fields fs)

  pub normal_items : Items → Items
  normal_items nil = nil
  normal_items (cons v vs) = cons (normal v) (normal_items vs)

  pub normal_fields : Fields → Fields
  normal_fields end = end
  normal_fields (field k v fs) = insert_field k (normal v) (normal_fields fs)

-- `canonicalize` without the sorting.
unfoldable mutual
  unfolding quote join members

  pub print : Json → Text
  print null = canonicalize null
  print (bool b) = canonicalize (bool b)
  print (num n) = canonicalize (num n)
  print (str s) = quote s
  print (arr vs) = b'[' ∷ join (print_items vs) ++ b']' ∷ []
  print (obj fs) = b'{' ∷ join (members (print_fields fs)) ++ b'}' ∷ []

  pub print_items : Items → List Text
  print_items nil = []
  print_items (cons v vs) = print v ∷ print_items vs

  pub print_fields : Fields → List (Text × Text)
  print_fields end = []
  print_fields (field k v fs) = (k, print v) ∷ print_fields fs

print_fields-insert_field :
    (k : Text) (v : Json) (fs : Fields)
    → print_fields (insert_field k v fs) ≡ insert (k, print v) (print_fields fs)
unfolding print insert insert_field
print_fields-insert_field k v end = refl
print_fields-insert_field k v (field j w fs) = elim (Bool-cases (text_lt j k)) [
  | inl before ↦ rw before (ap (λ es. (j, print w) ∷ es) (print_fields-insert_field k v fs))
  | inr after ↦ rw after refl
]

mutual
  unfolding canonicalize normal print sort object_text

  pub canonicalize-eq-print : (v : Json) → canonicalize v ≡ print (normal v)
  canonicalize-eq-print null = refl
  canonicalize-eq-print (bool b) = refl
  canonicalize-eq-print (num n) = refl
  canonicalize-eq-print (str s) = refl
  canonicalize-eq-print (arr vs) =
      ap (λ ts. b'[' ∷ join ts ++ b']' ∷ []) (canonicalize_items-eq-print vs)
  canonicalize-eq-print (obj fs) =
      ap (λ es. b'{' ∷ join (members es) ++ b'}' ∷ []) (canonicalize_fields-eq-print fs)

  canonicalize_items-eq-print : (vs : Items) → canonicalize_items vs ≡ print_items (normal_items vs)
  canonicalize_items-eq-print nil = refl
  canonicalize_items-eq-print (cons v vs) =
      ap₂ (λ (t : Text) (ts : List Text). t ∷ ts) (canonicalize-eq-print v)
        (canonicalize_items-eq-print vs)

  canonicalize_fields-eq-print :
      (fs : Fields) → sort (canonicalize_fields fs) ≡ print_fields (normal_fields fs)
  canonicalize_fields-eq-print end = refl
  canonicalize_fields-eq-print (field k v fs) =
      ap₂ (λ (t : Text) (es : List (Text × Text)). insert (k, t) es) (canonicalize-eq-print v)
        (canonicalize_fields-eq-print fs)
      ∙ sym (print_fields-insert_field k (normal v) (normal_fields fs))
