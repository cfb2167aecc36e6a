-- ===== src/Route/Gemini.antt =====
-- What `geminiTarget` recognizes.
use steady_proxy.Base.{
  true, false, [], ◌∷◌, ◌++◌, ◌≡◌, refl, arith, Text, text, str_eq_iff, cut_prefix, trim_prefix,
  cut_at, contains_byte, any, any-append, is_nil, cut_prefix_append, ◌==◌, some, ◌∙◌,
}
use steady_proxy.Route.{
  is_gemini_version, is_segment, vertex_name, resource_name, split_name, find_gemini_target,
  gemini_target, is_ascii_letters, all_letters,
}

-- A text with no slash.
abbrev pub NoSlash : Text → Type 0
NoSlash s = any (◌==◌ b'/') s ≡ false

version-NoSlash : (v : Text) → is_gemini_version v ≡ true → NoSlash v
unfolding is_gemini_version
version-NoSlash v h = ground (
  arith,
  str_eq_iff v (text "v1"),
  str_eq_iff v (text "v1beta"),
  str_eq_iff v (text "v1alpha"),
  str_eq_iff v (text "v1beta1"),
)

letters-NoSlash : (s : Text) → all_letters s ≡ true → NoSlash s
unfolding all_letters
letters-NoSlash [] h = refl
letters-NoSlash (c ∷ s) h = ground (arith, letters-NoSlash s)

-- A model name and a method that a path can carry.
pub record IsCall (model method : Text) : Type 0 where
  pub model_ne_nil : is_nil model ≡ false
  pub model_no_slash : NoSlash model
  pub model_no_colon : any (◌==◌ b':') model ≡ false
  pub method_letters : is_ascii_letters method ≡ true

split_name_call :
    (model method : Text)
    → IsCall model method
    → split_name (model ++ (text ":" ++ method)) ≡ some (model, method)
unfolding split_name
split_name_call model method h =
    let plain : NoSlash (model ++ (text ":" ++ method)) =
      any-append (◌==◌ b'/') model (text ":" ++ method)
      ∙ ground (arith, h.model_no_slash, letters-NoSlash method, h.method_letters) in
    ground (
      arith,
      contains_byte b'/' (model ++ (text ":" ++ method)) plain,
      cut_at b':' [] model method h.model_no_colon,
      h.model_ne_nil,
      h.method_letters,
    )

find_gemini_target_call :
    (v resource name model method : Text)
    → is_gemini_version v ≡ true
    → resource_name resource ≡ some name
    → split_name name ≡ some (model, method)
    → gemini_target (text "/" ++ (v ++ (text "/" ++ resource))) ≡ (model, method)
unfolding gemini_target find_gemini_target trim_prefix cut_prefix
find_gemini_target_call v resource name model method h r s =
    ground (arith, cut_at b'/' [] v resource (version-NoSlash v h), h, r, s)

plain_resource : (name : Text) → resource_name (text "models/" ++ name) ≡ some name
unfolding resource_name cut_prefix
plain_resource name = refl

vertex_resource :
    (project location name : Text)
    → is_nil project ≡ false
    → NoSlash project
    → is_nil location ≡ false
    → NoSlash location
    → resource_name (
        text "projects/"
        ++ (project
            ++ (text "/locations/" ++ (location ++ (text "/publishers/google/models/" ++ name)))))
      ≡ some name
unfolding resource_name vertex_name is_segment
vertex_resource project location name pn ps ln ls = ground (
  arith,
  cut_prefix_append (text "projects/") (
      project ++ (text "/locations/" ++ (location ++ (text "/publishers/google/models/" ++ name)))),
  cut_at b'/' (text "locations/") project (location ++ (text "/publishers/google/models/" ++ name))
      ps,
  cut_at b'/' (text "publishers/google/models/") location name ls,
  contains_byte b'/' project ps,
  contains_byte b'/' location ls,
)

-- The resource forms of the Developer API, of Vertex AI express mode, and of a Vertex AI project.
pub data Form : Type 0 where
  developer express : Form
  vertex : Text → Text → Form

abbrev pub IsForm : Form → Type 0
IsForm developer = Unit {0}
IsForm express = Unit {0}
IsForm (vertex project location) =
    (is_nil project ≡ false) × NoSlash project × (is_nil location ≡ false) × NoSlash location

abbrev pub print_resource : Form → Text → Text
print_resource developer name = text "models/" ++ name
print_resource express name = text "publishers/google/models/" ++ name
print_resource (vertex project location) name =
    text "projects/"
    ++ (project
        ++ (text "/locations/" ++ (location ++ (text "/publishers/google/models/" ++ name))))

abbrev pub print_target : Text → Form → Text → Text → Text
print_target version form model method =
    text "/" ++ (version ++ (text "/" ++ print_resource form (model ++ (text ":" ++ method))))

print_resource_lem :
    (form : Form) (name : Text) → IsForm form → resource_name (print_resource form name) ≡ some name
print_resource_lem developer name h = plain_resource name
print_resource_lem express name h = unfold resource_name cut_prefix in refl
print_resource_lem (vertex project location) name h =
    vertex_resource project location name h.0 h.1 h.2 h.3

-- `geminiTarget` finds the model and the method in every path of the three native forms, for the
-- four versions, a project and a location that are not empty and hold no slash, a model that is
-- not empty and holds neither slash nor colon, and a method of ASCII letters.
pub gemini_target-print_target :
    (version : Text) (form : Form) (model method : Text)
    → is_gemini_version version ≡ true
    → IsForm form
    → IsCall model method
    → gemini_target (print_target version form model method) ≡ (model, method)
gemini_target-print_target version form model method v f c =
    find_gemini_target_call version _ (model ++ (text ":" ++ method)) model method v
      (print_resource_lem form _ f) (split_name_call model method c)
