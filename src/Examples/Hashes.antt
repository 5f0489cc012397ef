-- ===== src/Examples/Hashes.antt =====
-- The hashed texts on a sample object, and the report on a damaged proposal.
use parimit.Text.{Text, lit}
use parimit.Database.{Database, IntentRow, empty}
use parimit.Service.Policy.{decide_policy}
use parimit.Service.Methods.Insert.{new_intent}
use parimit.Examples.{sample_service, sample_proposal}
use mathlib.Core.List.{Permᴰ, Perm, Memᴰ, Nodup, Nodup-cons, not-mem-nil}
use mathlib.Core.List.Pairwise
use mathlib.Core.HLevel.{⊥_prop}
use mathlib.Core.Logic.{∥∥₁_elim}
use parimit.Common.{ap, length, arith, ◌≡◌, refl, [], ◌∷◌, map, ◌↔◌}
use parimit.Json.{Fields, field, end, null, num, obj}
use parimit.Json.Canonical.{canonical_json}
use parimit.Json.Canonical.Normal.{normal}
use parimit.Json.Canonical.Injective.{canonical_json-injective}
use parimit.Json.Canonical.Order.{members_of, canonical_json_perm}

abbrev one_way : Fields
one_way = field (97 ∷ []) null (field (97 ∷ 98 ∷ []) (num 3) end)

abbrev other_way : Fields
other_way = field (97 ∷ 98 ∷ []) (num 3) (field (97 ∷ []) null end)

same_members : Perm (members_of one_way) (members_of other_way)
same_members = ∣ Permᴰ.swap refl refl ∣₁

distinct_keys : Nodup (map (λ m. m.0) (members_of one_way))
distinct_keys =
    (Nodup-cons.1 ((λ h. ∥∥₁_elim h ⊥_prop apart), Nodup-cons.1 (not-mem-nil, Pairwise.nil)))
  where
    apart : Memᴰ {A = Text} (97 ∷ []) ((97 ∷ 98 ∷ []) ∷ []) → ⊥
    apart (Memᴰ.head e) = omega (arith, ap length e)
    apart (Memᴰ.tail m) = elim m [ ]

canonical_json_perm_example : canonical_json (obj one_way) ≡ canonical_json (obj other_way)
canonical_json_perm_example = canonical_json_perm one_way other_way same_members distinct_keys

canonical_json-injective_example :
    (canonical_json (obj one_way) ≡ canonical_json (obj other_way))
    ↔ (normal (obj one_way) ≡ normal (obj other_way))
canonical_json-injective_example = canonical_json-injective (obj one_way) (obj other_way)

-- A proposal whose events are missing.
abbrev lone_row : IntentRow
lone_row =
    new_intent sample_service sample_proposal (lit "fingerprint")
      (decide_policy sample_service sample_proposal 1704067200000 empty) (lit "0") 1704067200000

abbrev lone : Database
lone = record empty { intents = lone_row ∷ [] }
