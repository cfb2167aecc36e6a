-- ===== src/Route.antt =====
-- Routes: the path tests of wire.go and systemone.go. A path is its bytes.
pub mod Disjoint
pub mod Gemini
use steady_proxy.Base.{
  ℕ, Bool, true, false, not, ◌&&◌, ◌||◌, List, [], ◌∷◌, ◌++◌, Option, none, some, Text, text,
  is_nil, any, str_eq, has_prefix, contains, cut_prefix, cut, trim_prefix, leb, if◌then◌else◌,
  ◌>>=◌, ◌>>◌, guard,
}

-- `pathIs`.
unfoldable pub path_is : Text → Text → Bool
path_is path base = str_eq path base || has_prefix path (base ++ text "/")

unfoldable pub is_messages_path : Text → Bool
is_messages_path path =
    path_is path (text "/v1/messages") && not (contains path (text "count_tokens"))

unfoldable pub is_responses_path : Text → Bool
is_responses_path path = path_is path (text "/v1/responses")

unfoldable pub is_system_one_path : Text → Bool
is_system_one_path path = path_is path (text "/v1/systemone")

is_letter : ℕ → Bool
is_letter c = (leb b'a' c && leb c b'z') || (leb b'A' c && leb c b'Z')

all_letters : Text → Bool
unfolding is_letter
all_letters [] = true
all_letters (c ∷ s) = is_letter c && all_letters s

-- `isASCIILetters`: a run of letters that is not empty.
unfoldable pub is_ascii_letters : Text → Bool
unfolding all_letters
is_ascii_letters s = not (is_nil s) && all_letters s

unfoldable pub is_gemini_version : Text → Bool
is_gemini_version v =
    str_eq v (text "v1")
    || str_eq v (text "v1beta")
    || str_eq v (text "v1alpha")
    || str_eq v (text "v1beta1")

-- A path segment that stands for a project or a location.
is_segment : Text → Bool
is_segment s = not (is_nil s) && not (contains s (text "/"))

vertex_name : Text → Option Text
unfolding is_segment
vertex_name rest = do
  (project, rest') ← cut rest (text "/locations/")
  guard (is_segment project)
  (location, name) ← cut rest' (text "/publishers/google/models/")
  guard (is_segment location)
  some name

-- The `model:method` part of the resource.
resource_name : Text → Option Text
unfolding vertex_name
resource_name resource = elim (cut_prefix resource (text "projects/")) [
  | some rest ↦ vertex_name rest
  | none ↦ elim (cut_prefix resource (text "publishers/google/models/")) [
    | some name ↦ some name
    | none ↦ cut_prefix resource (text "models/")
  ]
]

split_name : Text → Option (Text × Text)
unfolding is_ascii_letters
split_name name = do
  guard (not (contains name (text "/")))
  (model, method) ← cut name (text ":")
  guard (not (is_nil model) && is_ascii_letters method)
  some (model, method)

-- `geminiTarget`, with `none` for `"", ""`.
find_gemini_target : Text → Option (Text × Text)
unfolding is_gemini_version resource_name split_name
find_gemini_target path = do
  (version, resource) ← cut (trim_prefix path (text "/")) (text "/")
  guard (is_gemini_version version)
  name ← resource_name resource
  split_name name

-- `geminiTarget`.
unfoldable pub gemini_target : Text → Text × Text
unfolding find_gemini_target
gemini_target path = elim (find_gemini_target path) [ none ↦ ([], []) | some t ↦ t ]

unfoldable pub is_gemini_path : Text → Bool
is_gemini_path path = not (is_nil (gemini_target path).1)
