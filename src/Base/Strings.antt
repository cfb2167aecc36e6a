-- ===== src/Base/Strings.antt =====
-- Texts as lists of numbers, and the functions of Go's `strings` that the proxy calls.
-- A text holds bytes where the source walks bytes (SSE framing, paths) and code points where it
-- maps runes; both readings agree on ASCII, and every literal of the source is ASCII.
use Prim.Native.Char.{code}
use Prim.Native.String.{String}
use Prim.Native.Nat.{ℕ, ◌+◌, ◌-◌}
use mathlib.Core.Path.{◌≡◌, refl}
use mathlib.Core.Logic.{◌↔◌}
use mathlib.Core.Bool.{Bool, true, false, ◌&&◌, ◌||◌}
use mathlib.Core.List.{List, [], ◌∷◌, ◌++◌, map}
use mathlib.Core.Option
use mathlib.Core.Option.{Option, none, some}
use native.Mathlib.Omega.{arith}
use steady_proxy.Base.Tests.{leb, ◌==◌, if◌then◌else◌}
use steady_proxy.Base.Lists.{is_nil, any}

abbrev pub Text : Type 0
Text = List ℕ

-- A literal.
abbrev pub text : String → Text
text String.[] = []
text (String.◌∷◌ c s) = code c ∷ text s

unfoldable pub str_eq : Text → Text → Bool
str_eq [] [] = true
str_eq (x ∷ xs) (y ∷ ys) = x == y && str_eq xs ys
str_eq _ _ = false

pub str_eq_iff : (a b : Text) → (str_eq a b ≡ true) ↔ (a ≡ b)
unfolding str_eq
str_eq_iff (x ∷ a) (y ∷ b) = ground (arith, str_eq_iff a b)
str_eq_iff _ _ = ground arith

pub str_eq_refl : (a : Text) → str_eq a a ≡ true
str_eq_refl a = (str_eq_iff a a).1 refl

pub str_eq_comm : (a b : Text) → str_eq a b ≡ str_eq b a
unfolding str_eq
str_eq_comm [] [] = refl
str_eq_comm [] (y ∷ b) = refl
str_eq_comm (x ∷ a) [] = refl
str_eq_comm (x ∷ a) (y ∷ b) = ground (arith, str_eq_comm a b)

-- `strings.HasPrefix s p`.
unfoldable pub has_prefix : Text → Text → Bool
has_prefix s [] = true
has_prefix [] (y ∷ p) = false
has_prefix (x ∷ s) (y ∷ p) = x == y && has_prefix s p

-- `strings.Contains s sub`.
unfoldable pub contains : Text → Text → Bool
unfolding has_prefix
contains [] sub = is_nil sub
contains (c ∷ s) sub = has_prefix (c ∷ s) sub || contains s sub

-- `strings.CutPrefix s p`; `none` for `found == false`.
unfoldable pub cut_prefix : Text → Text → Option Text
cut_prefix s [] = some s
cut_prefix [] (y ∷ p) = none
cut_prefix (x ∷ s) (y ∷ p) = let r = cut_prefix s p in if x == y then r else none

-- `strings.Cut s sep` for a separator that is not empty; `none` for `found == false`.
unfoldable pub cut : Text → Text → Option (Text × Text)
unfolding cut_prefix
cut [] sep = none
cut (c ∷ s) sep = elim (cut_prefix (c ∷ s) sep) [
  | some after ↦ some ([], after)
  | none ↦ Option.map (λ (p : Text × Text). (c ∷ p.0, p.1)) (cut s sep)
]

-- `strings.TrimPrefix s p`.
unfoldable pub trim_prefix : Text → Text → Text
unfolding cut_prefix
trim_prefix s p = Option.get_or (cut_prefix s p) s

abbrev within : ℕ → ℕ → ℕ → Bool
within lo hi c = leb lo c && leb c hi

-- `unicode.ToLower` as far as a search for an ASCII text can see it: the letters A to Z, and the
-- two other code points whose lower case is an ASCII letter (U+0130 and U+212A). All others
-- outside ASCII stay outside ASCII, and are left alone here.
unfoldable pub lower_rune : ℕ → ℕ
lower_rune c =
    if within b'A' b'Z' c
    then c + 32
    else if c == 0x130
    then b'i'
    else if c == 0x212a
    then b'k'
    else c

unfoldable pub to_lower : Text → Text
unfolding lower_rune
to_lower = map lower_rune

-- `strings.ToUpper` as far as a test against an ASCII text can see it: the letters a to z, and the
-- two other code points whose upper case is an ASCII letter (U+0131 and U+017F).
upper_rune : ℕ → ℕ
upper_rune c =
    if within b'a' b'z' c
    then c - 32
    else if c == 0x131
    then b'I'
    else if c == 0x17f
    then b'S'
    else c

unfoldable pub to_upper : Text → Text
unfolding upper_rune
to_upper = map upper_rune

-- `unicode.IsSpace`.
unfoldable pub is_space : ℕ → Bool
is_space c =
    within 9 13 c
    || c == 32
    || c == 0x85
    || c == 0xa0
    || c == 0x1680
    || within 0x2000 0x200a c
    || c == 0x2028
    || c == 0x2029
    || c == 0x202f
    || c == 0x205f
    || c == 0x3000

trim_left : Text → Text
unfolding is_space
trim_left [] = []
trim_left (c ∷ s) = let rest = trim_left s in if is_space c then rest else c ∷ s

trim_right : Text → Text
unfolding is_space
trim_right [] = []
trim_right (c ∷ s) = let rest = trim_right s in if is_nil rest && is_space c then [] else c ∷ rest

-- `strings.TrimSpace`.
unfoldable pub trim_space : Text → Text
unfolding trim_left trim_right
trim_space s = trim_left (trim_right s)

-- What holds no space is left alone.
trim_left_id : (s : Text) → any is_space s ≡ false → trim_left s ≡ s
unfolding trim_left
trim_left_id [] h = refl
trim_left_id (c ∷ s) h = ground arith

trim_right_id : (s : Text) → any is_space s ≡ false → trim_right s ≡ s
unfolding trim_right
trim_right_id [] h = refl
trim_right_id (c ∷ s) h = ground (arith, trim_right_id s)

pub trim_space_id : (s : Text) → any is_space s ≡ false → trim_space s ≡ s
unfolding trim_space
trim_space_id s h = rw (trim_right_id s h, trim_left_id s h)

pub has_prefix_append : (p s : Text) → has_prefix (p ++ s) p ≡ true
unfolding has_prefix
has_prefix_append [] [] = refl
has_prefix_append [] (c ∷ s) = refl
has_prefix_append (y ∷ p) s = ground (arith, has_prefix_append p s)

-- A text with a prefix is the prefix and a rest.
pub has_prefix_split : (s p : Text) → has_prefix s p ≡ true → (r : Text) × (s ≡ p ++ r)
unfolding has_prefix
has_prefix_split s [] h = (s, refl)
has_prefix_split [] (y ∷ p) h = cc
has_prefix_split (x ∷ s) (y ∷ p) h =
    let (r, e) = has_prefix_split s p (ground arith) in (r, ground arith)

pub cut_prefix_append : (p s : Text) → cut_prefix (p ++ s) p ≡ some s
unfolding cut_prefix
cut_prefix_append [] [] = refl
cut_prefix_append [] (c ∷ s) = refl
cut_prefix_append (y ∷ p) s = ground (arith, cut_prefix_append p s)

-- `strings.Cut` at a separator whose first byte does not stand in front of it.
pub cut_at :
    (b : ℕ) (sep s t : Text)
    → any (◌==◌ b) s ≡ false
    → cut (s ++ ((b ∷ sep) ++ t)) (b ∷ sep) ≡ some (s, t)
unfolding cut
cut_at b sep [] t h = ground (arith, cut_prefix_append (b ∷ sep) t)
cut_at b sep (x ∷ s) t h = unfold cut_prefix in ground (arith, cut_at b sep s t)

pub any-append {ℓ} :
    {A : Type ℓ} (p : A → Bool) (s t : List A) → any p (s ++ t) ≡ (any p s || any p t)
any-append p [] t = refl
any-append p (x ∷ s) t = ground (arith, any-append p s t)

pub contains_byte : (b : ℕ) (s : Text) → any (◌==◌ b) s ≡ false → contains s (b ∷ []) ≡ false
unfolding contains
contains_byte b [] h = refl
contains_byte b (x ∷ []) h = ground arith
contains_byte b (x ∷ y ∷ s) h = ground (arith, contains_byte b (y ∷ s))

-- `strings.TrimRight s "/"`.
unfoldable pub trim_slashes : Text → Text
trim_slashes [] = []
trim_slashes (c ∷ s) =
    let rest = trim_slashes s in if is_nil rest && c == b'/' then [] else c ∷ rest

-- The last of a text, if there is one, is a given code.
abbrev pub last_is : ℕ → Text → Bool
last_is b [] = false
last_is b (c ∷ []) = c == b
last_is b (c ∷ d ∷ s) = last_is b (d ∷ s)

last_is_cons : (b c : ℕ) (s : Text) → last_is b (c ∷ s) ≡ (if is_nil s then c == b else last_is b s)
last_is_cons b c [] = refl
last_is_cons b c (d ∷ s) = refl

pub trim_slashes-slash : (s : Text) → last_is b'/' (trim_slashes s) ≡ false
unfolding trim_slashes
trim_slashes-slash [] = refl
trim_slashes-slash (c ∷ s) =
    ground (arith, trim_slashes-slash s, last_is_cons b'/' c (trim_slashes s))
