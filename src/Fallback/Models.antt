-- ===== src/Fallback/Models.antt =====
-- The list of fallback models that the settings give.
use steady_proxy.Base.{
  Bool, true, false, not, ◌||◌, ◌&&◌, List, [], ◌∷◌, ◌++◌, Option, none, some, Text, text, ◌≡◌,
  refl, arith, str_eq, any-append, trim_space, is_nil, contains, to_lower,
}
use steady_proxy.Headers.{member, split_at}
use steady_proxy.Fallback.{
  is_claude_model, Loaded, models, removed_setting, not_claude, load_entries, load_value, load_from,
  load_claude_refusal_fallbacks,
}

abbrev pub all_claude : List Text → Bool
all_claude [] = true
all_claude (m ∷ ms) = is_claude_model m && all_claude ms

abbrev pub distinct : List Text → Bool
distinct [] = true
distinct (m ∷ ms) = not (member m ms) && distinct ms

abbrev pub Usable : Loaded → Type 0
Usable (models ms) = (all_claude ms ≡ true) × (distinct ms ≡ true)
Usable removed_setting = Unit
Usable (not_claude m) = is_claude_model m ≡ false

all_claude-append :
    (ms : List Text) (m : Text)
    → all_claude ms ≡ true
    → is_claude_model m ≡ true
    → all_claude (ms ++ m ∷ []) ≡ true
all_claude-append [] m h g = ground (arith, h, g)
all_claude-append (x ∷ xs) m h g = ground (arith, h, g, all_claude-append xs m)

str_eq_sym : (s t : Text) → str_eq t s ≡ false → str_eq s t ≡ false
unfolding str_eq
str_eq_sym [] [] h = h
str_eq_sym [] (b ∷ t) h = refl
str_eq_sym (a ∷ s) [] h = refl
str_eq_sym (a ∷ s) (b ∷ t) h = ground (arith, h, str_eq_sym s t)

distinct-append :
    (ms : List Text) (m : Text)
    → distinct ms ≡ true
    → member m ms ≡ false
    → distinct (ms ++ m ∷ []) ≡ true
unfolding member
distinct-append [] m h g = refl
distinct-append (x ∷ xs) m h g =
    ground (arith, h, g, any-append (str_eq x) xs (m ∷ []), distinct-append xs m, str_eq_sym x m)

load_entries-Usable :
    (unique entries : List Text)
    → all_claude unique ≡ true
    → distinct unique ≡ true
    → Usable (load_entries unique entries)
unfolding load_entries
load_entries-Usable unique [] h g = (h, g)
load_entries-Usable unique (e ∷ es) h g =
    let m = trim_space e in
    ground (
      arith,
      load_entries-Usable unique es h g,
      load_entries-Usable (unique ++ m ∷ []) es,
      all_claude-append unique m,
      distinct-append unique m,
    )

load_from-Usable :
    (equal_fold : Text → Text → Bool) (old new : Option Text)
    → Usable (load_from equal_fold old new)
unfolding load_from load_value is_claude_model member contains to_lower str_eq
load_from-Usable equal_fold (some v) new = tt
load_from-Usable equal_fold none none = (refl, refl)
load_from-Usable equal_fold none (some v) =
    let t = trim_space v in
    let off =
      is_nil t
      || equal_fold t (text "off")
      || equal_fold t (text "none")
      || equal_fold t (text "disabled") in
    let loaded = load_entries-Usable [] (split_at b',' t) refl refl in ground (arith, loaded)

-- Whatever the settings are, the models that load name Claude models only, and none twice; an
-- entry that is refused names no Claude model.
pub load_claude_refusal_fallbacks-Usable :
    (equal_fold : Text → Text → Bool)
    → (lookup : Text → Option Text) → Usable (load_claude_refusal_fallbacks equal_fold lookup)
unfolding load_claude_refusal_fallbacks
load_claude_refusal_fallbacks-Usable equal_fold lookup =
    load_from-Usable equal_fold (lookup (text "PROXY_REFUSAL_FALLBACK_MODEL"))
      (lookup (text "PROXY_CLAUDE_REFUSAL_FALLBACK_MODELS"))
