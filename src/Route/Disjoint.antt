-- ===== src/Route/Disjoint.antt =====
-- A path belongs to one wire at most.
use steady_proxy.Base.{
  ℕ, suc, ◌≤◌, Bool, true, false, List, [], ◌∷◌, ◌++◌, ◌≡◌, refl, arith, ◌⊎◌, inl, inr, Text, text,
  str_eq, str_eq_iff, has_prefix, has_prefix_split, cut, cut_prefix, trim_prefix, Bool-cases,
}
use steady_proxy.Route.{
  path_is, is_messages_path, is_responses_path, is_system_one_path, gemini_target, is_gemini_path,
}

-- A path under a base is the base, or goes on behind a slash.
path_is_split :
    (path base : Text)
    → path_is path base ≡ true
    → (path ≡ base) ⊎ ((r : Text) × (path ≡ (base ++ text "/") ++ r))
unfolding path_is
path_is_split path base h = elim (Bool-cases (str_eq path base)) [
  | inl e ↦ inl ((str_eq_iff path base).0 e)
  | inr e ↦ inr (has_prefix_split path (base ++ text "/") (ground arith))
]

-- A path under one base is under no other, and no Gemini path.
messages_only :
    (path : Text)
    → path_is path (text "/v1/messages") ≡ true
    → (is_responses_path path ≡ false)
      × (is_system_one_path path ≡ false)
      × (is_gemini_path path ≡ false)
unfolding is_responses_path is_system_one_path is_gemini_path gemini_target path_is str_eq
    has_prefix cut cut_prefix trim_prefix
messages_only path h = elim (path_is_split path (text "/v1/messages") h) [
  | inl e ↦ rw e (refl, refl, refl)
  | inr (r, e) ↦ rw e (refl, refl, refl)
]

pub responses_only :
    (path : Text)
    → is_responses_path path ≡ true
    → (path_is path (text "/v1/messages") ≡ false)
      × (is_system_one_path path ≡ false)
      × (is_gemini_path path ≡ false)
unfolding is_responses_path is_system_one_path is_gemini_path gemini_target path_is str_eq
    has_prefix cut cut_prefix trim_prefix
responses_only path h = elim (path_is_split path (text "/v1/responses") h) [
  | inl e ↦ rw e (refl, refl, refl)
  | inr (r, e) ↦ rw e (refl, refl, refl)
]

system_one_only :
    (path : Text)
    → is_system_one_path path ≡ true
    → (path_is path (text "/v1/messages") ≡ false)
      × (is_responses_path path ≡ false)
      × (is_gemini_path path ≡ false)
unfolding is_responses_path is_system_one_path is_gemini_path gemini_target path_is str_eq
    has_prefix cut cut_prefix trim_prefix
system_one_only path h = elim (path_is_split path (text "/v1/systemone") h) [
  | inl e ↦ rw e (refl, refl, refl)
  | inr (r, e) ↦ rw e (refl, refl, refl)
]

-- How many of the tests a path passes.
abbrev pub count_true : List Bool → ℕ
count_true [] = 0
count_true (true ∷ bs) = suc (count_true bs)
count_true (false ∷ bs) = count_true bs

-- A path passes at most one of the four route tests, so no request is read by two wires.
pub routes_disjoint :
    (path : Text)
    → count_true (
        is_messages_path path
        ∷ is_responses_path path
        ∷ is_system_one_path path
        ∷ is_gemini_path path
        ∷ [])
      ≤ 1
unfolding is_messages_path
routes_disjoint path = ground (arith, messages_only path, responses_only path, system_one_only path)
