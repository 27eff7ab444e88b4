-- ===== src/Json.antt =====
-- The JSON values of serde_json that the protocol reads and writes. Numbers other than integers stand
-- as `float`, by a text.
use stratum_server_nng.Base.{
  ℕ, zero, suc, String, Bool, true, false, Option, none, some, if◌then◌else◌, str_eq,
}
use stratum_server_nng.Int.{ℤ}

mutual
  pub data Json : Type 0 where
    null : Json
    boolean : Bool → Json
    int : ℤ → Json
    float : String → Json
    text : String → Json
    array : Items → Json
    object : Fields → Json

  pub data Items : Type 0 where
    nil : Items
    cons : Json → Items → Items

  pub data Fields : Type 0 where
    end : Fields
    field : String → Json → Fields → Fields

-- `as_str`, `is_array`, `as_array().cloned().unwrap_or_default()`.
abbrev pub as_str : Json → Option String
as_str (text s) = some s
as_str _ = none

abbrev pub is_array : Json → Bool
is_array (array _) = true
is_array _ = false

abbrev pub items_of : Json → Items
items_of (array xs) = xs
items_of _ = nil

-- `arr.get(i)`.
abbrev pub item_at : ℕ → Items → Option Json
item_at i nil = none
item_at zero (cons x xs) = some x
item_at (suc i) (cons x xs) = item_at i xs

abbrev str_or_empty : Option Json → String
str_or_empty none = ""
str_or_empty (some v) = elim (as_str v) [ none ↦ "" | some s ↦ s ]

-- `params.get(i).and_then(|v| v.as_str()).unwrap_or_default()` on the array of the parameters.
abbrev pub str_param : ℕ → Json → String
str_param i params = str_or_empty (item_at i (items_of params))

-- `value.get(key)` of an object; the parser keeps one entry for a key.
abbrev field_of : String → Fields → Option Json
field_of k end = none
field_of k (field j v fs) = if str_eq j k then some v else field_of k fs

abbrev pub get_field : String → Json → Option Json
get_field k (object fs) = field_of k fs
get_field k _ = none
