-- ===== src/Json.antt =====
-- What the wires take from `encoding/json` and `unicode/utf8`, and the maps of raw values they
-- decode into.
use steady_proxy.Base.{Bool, List, [], ◌∷◌, Option, none, some, ℤ, Text, str_eq, if◌then◌else◌}

-- The shape of a value: only the keys of objects are told apart.
mutual
  pub data Value : Type 0 where
    scalar : Value
    array : Items → Value
    object : Fields → Value

  pub data Items : Type 0 where
    no_items : Items
    item : Value → Items → Items

  pub data Fields : Type 0 where
    no_fields : Fields
    field : Text → Value → Fields → Fields

-- `entries` are the keys of an object with their raw values, in order, as a `Decoder` yields them
-- where nothing but the object stands in the text; `shape` is a text's one value. `as_string`,
-- `as_int` and `as_list` are `Unmarshal` into a pointer to a string, an `int64` and a slice of raw
-- values: none for an error, and `some none` for null. `as_map` is `Unmarshal` into a map, each key
-- once, and empty for null.
pub record JsonLib : Type 0 where
  pub is_utf8 : Text → Bool
  pub is_valid : Text → Bool
  pub entries : Text → Option (List (Text × Text))
  pub shape : Text → Option Value
  pub as_string : Text → Option (Option Text)
  pub as_int : Text → Option (Option ℤ)
  pub as_list : Text → Option (Option (List Text))
  pub as_map : Text → Option (List (Text × Text))
  pub encode_string : Text → Text
  pub encode_map : List (Text × Text) → Text

-- The value of a key.
unfoldable pub lookup : Text → List (Text × Text) → Option Text
lookup k [] = none
lookup k ((n, v) ∷ m) = let rest = lookup k m in if str_eq n k then some v else rest

-- `m[k] = v`.
unfoldable pub put : Text → Text → List (Text × Text) → List (Text × Text)
put k v [] = (k, v) ∷ []
put k v ((n, w) ∷ m) = let rest = put k v m in if str_eq n k then (n, v) ∷ m else (n, w) ∷ rest

-- `m[k]`, empty for a key that is not there.
abbrev pub or_empty : Option Text → Text
or_empty none = []
or_empty (some v) = v
