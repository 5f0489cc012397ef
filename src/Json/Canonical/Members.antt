-- ===== src/Json/Canonical/Members.antt =====
-- Objects with the same canonical text have the same members.
use mathlib.Core.Option
use parimit.Common.{◌≡◌, refl, sym, ap, ◌∙◌, false, some, arith, if◌then◌else◌, [], ◌∷◌}
use parimit.Text.{Text, text_eq, text_eq_iff, text_lt}
use parimit.Json.{Json, obj, str, Fields, end, field, get_field}
use parimit.Json.Canonical.Normal.{normal, normal_fields, insert_field}

lt_irrefl : (s : Text) → text_lt s s ≡ false
unfolding text_lt
lt_irrefl [] = refl
lt_irrefl (c ∷ s) = ground (arith, lt_irrefl s)

get_field-insert_field :
    (k j : Text) (v : Json) (fs : Fields)
    → get_field k (insert_field j v fs) ≡ (if text_eq j k then some v else get_field k fs)
unfolding get_field insert_field
get_field-insert_field k j v end = refl
get_field-insert_field k j v (field i w fs) =
    ground (arith, text_eq_iff i k, text_eq_iff j k, lt_irrefl k, get_field-insert_field k j v fs)

get_field-normal_fields :
    (k : Text) (fs : Fields) → get_field k (normal_fields fs) ≡ Option.map normal (get_field k fs)
unfolding normal get_field
get_field-normal_fields k end = refl
get_field-normal_fields k (field j v fs) =
    ground (
      arith,
      get_field-insert_field k j (normal v) (normal_fields fs),
      get_field-normal_fields k fs,
    )

fields-eq : {fs gs : Fields} → obj fs ≡ obj gs → fs ≡ gs
fields-eq e = cc

some-eq : {v w : Json} → some v ≡ some w → v ≡ w
some-eq e = cc

str-eq : {s t : Text} → str s ≡ str t → s ≡ t
str-eq e = cc

-- Where two objects have one normal form, so have their members.
pub normal-member :
    (k : Text) (fs gs : Fields) {v w : Json}
    → normal (obj fs) ≡ normal (obj gs)
    → get_field k fs ≡ some v
    → get_field k gs ≡ some w
    → normal v ≡ normal w
unfolding normal
normal-member k fs gs {v} {w} e p q =
    let same : Option.map normal (get_field k fs) ≡ Option.map normal (get_field k gs) =
      sym (get_field-normal_fields k fs)
      ∙ ap (λ f. get_field k f) (fields-eq e)
      ∙ get_field-normal_fields k gs in
    some-eq (sym (ap (Option.map normal) p) ∙ same ∙ ap (Option.map normal) q)

pub normal-member_text :
    (k : Text) (fs gs : Fields) {s t : Text}
    → normal (obj fs) ≡ normal (obj gs)
    → get_field k fs ≡ some (str s)
    → get_field k gs ≡ some (str t)
    → s ≡ t
unfolding normal
normal-member_text k fs gs e p q = str-eq (normal-member k fs gs e p q)
