-- ===== src/Version/Token.antt =====
-- What stands in a token, and which values win.
use steady_proxy.Base.{
  ℕ, Bool, true, false, not, [], ◌∷◌, map, Text, is_nil, any, is_space, trim_space, trim_space_id,
  if◌then◌else◌, ◌≡◌, refl, arith, Bool-cases, inl, inr,
}
use steady_proxy.Version.{is_token_char, token_part}

abbrev safe_char : ℕ → ℕ
safe_char c = if is_token_char c then c else b'_'

abbrev pub all_token_chars : Text → Bool
all_token_chars s = not (any (λ c. not (is_token_char c)) s)

map_safe-token_chars : (s : Text) → all_token_chars (map safe_char s) ≡ true
unfolding is_token_char
map_safe-token_chars [] = refl
map_safe-token_chars (c ∷ s) = elim (Bool-cases (is_token_char c)) [
  | inl y ↦ ground (arith, y, map_safe-token_chars s)
  | inr n ↦ ground (arith, n, map_safe-token_chars s)
]

map_safe_id : (s : Text) → all_token_chars s ≡ true → map safe_char s ≡ s
map_safe_id [] h = refl
map_safe_id (c ∷ s) h = ground (arith, h, map_safe_id s)

token_chars-space : (s : Text) → all_token_chars s ≡ true → any is_space s ≡ false
unfolding is_token_char is_space
token_chars-space [] h = refl
token_chars-space (c ∷ s) h = ground (arith, h, token_chars-space s)

map_safe-nil : (s : Text) → is_nil s ≡ false → is_nil (map safe_char s) ≡ false
map_safe-nil [] h = h
map_safe-nil (c ∷ s) h = refl

token_part-fits :
    (s : Text) → (all_token_chars (token_part s) ≡ true) × (is_nil (token_part s) ≡ false)
unfolding token_part is_token_char
token_part-fits s = elim (Bool-cases (is_nil (trim_space s))) [
  | inl y ↦ rw (y) ((refl, refl))
  | inr n ↦ rw (n) ((map_safe-token_chars (trim_space s), map_safe-nil (trim_space s) n))
]

-- A text of such characters is its own part.
token_part_id : (s : Text) → all_token_chars s ≡ true → is_nil s ≡ false → token_part s ≡ s
unfolding token_part
token_part_id s h n = rw (trim_space_id s (token_chars-space s h), n) (map_safe_id s h)

-- Whatever text a version is, its part of the token is not empty, has only ASCII letters, digits,
-- dots, dashes and underscores, and is its own part.
pub token_part-token_part :
    (s : Text)
    → (all_token_chars (token_part s) ≡ true)
      × (is_nil (token_part s) ≡ false)
      × (token_part (token_part s) ≡ token_part s)
token_part-token_part s =
    let (safe, full) = token_part-fits s in (safe, full, token_part_id (token_part s) safe full)
