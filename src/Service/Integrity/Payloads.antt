-- ===== src/Service/Integrity/Payloads.antt =====
-- Reading parsed JSON: `isRecord(value) ? value.key : undefined` and comparisons by `===`.
use parimit.Common.{ℕ, Bool, true, false, ◌&&◌, Option, none, some, List, [], ◌∷◌, ◌==◌, any, not}
use parimit.Text.{Text, text_eq}
use parimit.Json.{Json, null, bool, num, str, arr, obj, Items, nil, cons, get_field}

-- `isRecord`
abbrev pub is_object : Option Json → Bool
is_object (some (obj fs)) = true
is_object _ = false

-- The member of an object; `none`, `undefined`, of any other value.
unfoldable pub member : Text → Option Json → Option Json
member k none = none
member k (some null) = none
member k (some (bool b)) = none
member k (some (num n)) = none
member k (some (str s)) = none
member k (some (arr vs)) = none
member k (some (obj fs)) = get_field k fs

abbrev pub is_str : Text → Option Json → Bool
is_str t (some (str s)) = text_eq s t
is_str t _ = false

abbrev pub is_num : ℕ → Option Json → Bool
is_num n (some (num m)) = m == n
is_num n _ = false

abbrev pub is_bool : Bool → Option Json → Bool
is_bool true (some (bool true)) = true
is_bool false (some (bool false)) = true
is_bool _ _ = false

abbrev pub is_defined : Option Json → Bool
is_defined none = false
is_defined (some v) = true

push : Option (List Text) → Text → Option (List Text)
push none t = none
push (some ts) t = some (t ∷ ts)

-- `Array.isArray(value) && value.every((item) => typeof item === "string")`
unfoldable pub item_texts : Items → Option (List Text)
unfolding push
item_texts nil = some []
item_texts (cons (str t) vs) = push (item_texts vs) t
item_texts (cons _ vs) = none

unfoldable pub string_array : Option Json → Option (List Text)
unfolding item_texts
string_array (some (arr vs)) = item_texts vs
string_array _ = none

-- `new Set(texts).size === texts.length`
unfoldable pub are_distinct : List Text → Bool
are_distinct [] = true
are_distinct (t ∷ ts) = not (any (λ u. text_eq u t) ts) && are_distinct ts
