-- ===== src/Json.antt =====
-- Values that src/crypto.ts serialises: JSON with numbers that are non-negative integers.
pub mod Build
pub mod Canonical
use parimit.Common.{ℕ, Bool, true, false, if◌then◌else◌, Option, none, some, List, [], ◌∷◌}
use parimit.Text.{Text, text_eq}

mutual
  pub data Json : Type 0 where
    null : Json
    bool : Bool → Json
    num : ℕ → Json
    str : Text → Json
    arr : Items → Json
    obj : Fields → Json

  pub data Items : Type 0 where
    nil : Items
    cons : Json → Items → Items

  pub data Fields : Type 0 where
    end : Fields
    field : Text → Json → Fields → Fields

-- `record[key]`, `undefined` where the key is missing.
unfoldable pub get_field : Text → Fields → Option Json
get_field k end = none
get_field k (field j v fs) = if text_eq j k then some v else get_field k fs

-- `Object.keys(record)`.
abbrev pub keys : Fields → List Text
keys end = []
keys (field k v fs) = k ∷ keys fs

abbrev pub elements : Items → List Json
elements nil = []
elements (cons v vs) = v ∷ elements vs
