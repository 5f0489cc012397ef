-- ===== src/Json/Build.antt =====
-- Literals of JSON objects and arrays.
use parimit.Common.{List, [], ◌∷◌, Option, none, some}
use parimit.Text.{Text}
use parimit.Json.{Json, null, str, obj, Items, nil, cons, Fields, end, field}

abbrev pub fields : List (Text × Json) → Fields
fields [] = end
fields ((k, v) ∷ ms) = field k v (fields ms)

abbrev pub object : List (Text × Json) → Json
object ms = obj (fields ms)

abbrev pub strings : List Text → Items
strings [] = nil
strings (t ∷ ts) = cons (str t) (strings ts)

-- `value ?? null` on an optional string.
abbrev pub nullable : Option Text → Json
nullable none = null
nullable (some t) = str t
