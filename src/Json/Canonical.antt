-- ===== src/Json/Canonical.antt =====
-- src/crypto.ts, `canonicalize` and `canonicalJson`: the text that is hashed.
pub mod Normal
pub mod Parts
pub mod Injective
pub mod Members
pub mod Quote
pub mod Order
use parimit.Common.{
  ℕ, ◌+◌, ◌-◌, ◌/◌, ◌%◌, ◌≡◌, refl, Bool, true, false, ◌&&◌, ◌||◌, List, [], ◌∷◌, ◌++◌, ltb, leb,
  ◌==◌, if◌then◌else◌,
}
use parimit.Text.{Text, lit, text_lt}
use parimit.Text.Decimal.{decimal}
use parimit.Json.{Json, null, bool, num, str, arr, obj, Items, nil, cons, Fields, end, field}

pub hex_digit : ℕ → ℕ
hex_digit d = if ltb d 10 then b'0' + d else b'a' + (d - 10)

-- `\uXXXX`.
pub unicode_escape : ℕ → Text
unfolding hex_digit
unicode_escape c =
    b'\\'
    ∷ b'u'
    ∷ hex_digit (c / 4096 % 16)
    ∷ hex_digit (c / 256 % 16)
    ∷ hex_digit (c / 16 % 16)
    ∷ hex_digit (c % 16)
    ∷ []

abbrev pub is_high : ℕ → Bool
is_high c = leb 55296 c && leb c 56319

abbrev pub is_low : ℕ → Bool
is_low c = leb 56320 c && leb c 57343

-- One code unit of `JSON.stringify` that is no half of a surrogate pair.
pub quote_unit : ℕ → Text
unfolding unicode_escape
quote_unit c =
    if c == b'"'
    then b'\\' ∷ b'"' ∷ []
    else if c == b'\\'
    then b'\\' ∷ b'\\' ∷ []
    else if c == 8
    then b'\\' ∷ b'b' ∷ []
    else if c == 9
    then b'\\' ∷ b't' ∷ []
    else if c == 10
    then b'\\' ∷ b'n' ∷ []
    else if c == 12
    then b'\\' ∷ b'f' ∷ []
    else if c == 13
    then b'\\' ∷ b'r' ∷ []
    else if ltb c 32 || is_high c || is_low c
    then unicode_escape c
    else c ∷ []

pub quote_units : Text → Text
unfolding quote_unit
quote_units [] = []
quote_units (c ∷ []) = quote_unit c
quote_units (c ∷ d ∷ s) = elim (is_high c && is_low d) [
  | true ↦ c ∷ d ∷ quote_units s
  | false ↦ quote_unit c ++ quote_units (d ∷ s)
]

-- `JSON.stringify` of a string.
pub quote : Text → Text
unfolding quote_units
quote s = b'"' ∷ quote_units s ++ b'"' ∷ []

-- `items.join(",")`.
pub join : List Text → Text
join [] = []
join (t ∷ []) = t
join (t ∷ u ∷ ts) = t ++ b',' ∷ join (u ∷ ts)

pub insert : Text × Text → List (Text × Text) → List (Text × Text)
insert e [] = e ∷ []
insert e (x ∷ xs) = if text_lt x.0 e.0 then x ∷ insert e xs else e ∷ x ∷ xs

-- `Object.keys(record).sort()`, each key with its printed value.
pub sort : List (Text × Text) → List (Text × Text)
unfolding insert
sort [] = []
sort (e ∷ es) = insert e (sort es)

pub members : List (Text × Text) → List Text
unfolding quote
members [] = []
members ((k, v) ∷ es) = (quote k ++ b':' ∷ v) ∷ members es

-- The text of an object whose members are printed already.
pub object_text : List (Text × Text) → Text
unfolding sort members join
object_text es = b'{' ∷ join (members (sort es)) ++ b'}' ∷ []

unfoldable mutual
  unfolding quote join object_text

  pub canonicalize : Json → Text
  canonicalize null = lit "null"
  canonicalize (bool true) = lit "true"
  canonicalize (bool false) = lit "false"
  canonicalize (num n) = decimal n
  canonicalize (str s) = quote s
  canonicalize (arr vs) = b'[' ∷ join (canonicalize_items vs) ++ b']' ∷ []
  canonicalize (obj fs) = object_text (canonicalize_fields fs)

  pub canonicalize_items : Items → List Text
  canonicalize_items nil = []
  canonicalize_items (cons v vs) = canonicalize v ∷ canonicalize_items vs

  pub canonicalize_fields : Fields → List (Text × Text)
  canonicalize_fields end = []
  canonicalize_fields (field k v fs) = (k, canonicalize v) ∷ canonicalize_fields fs

unfoldable pub canonical_json : Json → Text
unfolding canonicalize
canonical_json v = canonicalize v

sample : Json
sample =
    obj (
      field (lit "b") (num 12)
        (field (lit "a") (arr (cons null (cons (str (lit "x\"y")) nil))) end))

canonical_json-sample : canonical_json sample ≡ lit "{\"a\":[null,\"x\\\"y\"],\"b\":12}"
unfolding canonical_json sample lit text_lt decimal
canonical_json-sample = refl
