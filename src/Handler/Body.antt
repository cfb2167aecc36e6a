-- ===== src/Handler/Body.antt =====
-- `swapModel` of main.go, on a codec of JSON objects.
use steady_proxy.Base.{List, [], ◌∷◌, Option, none, some, Text, text, str_eq, if◌then◌else◌}

-- `encoding/json`, as the proxy uses it: an object's fields with their raw values.
pub record Json : Type 0 where
  pub decode_object : Text → Option (List (Text × Text))
  pub encode_object : List (Text × Text) → Text
  pub encode_string : Text → Text

-- The value of a key.
pub lookup : Text → List (Text × Text) → Option Text
lookup k [] = none
lookup k ((n, v) ∷ m) = let rest = lookup k m in if str_eq n k then some v else rest

-- `m[k] = v` for a key that is there.
pub assign : Text → Text → List (Text × Text) → List (Text × Text)
assign k v [] = []
assign k v ((n, w) ∷ m) = let rest = assign k v m in (n, if str_eq n k then v else w) ∷ rest

-- `swapModel`.
unfoldable pub swap_model : Json → Text → Text → Option Text
unfolding lookup assign
swap_model j b model = elim (j.decode_object b) [
  | none ↦ none
  | some m ↦ elim (lookup (text "model") m) [
    | none ↦ none
    | some old ↦ some (j.encode_object (assign (text "model") (j.encode_string model) m))
  ]
]
