-- ===== src/Gemini/Decimal/Delay.antt =====
-- A delay is rounded up to whole seconds, never below what is asked.
use Prim.Native.Nat.mul
use native.Mathlib.Nat.{mul_comm, pow-suc}
use steady_proxy.Base.{
  ℕ, zero, suc, ◌+◌, ◌-◌, ◌*◌, ◌^◌, ◌≤◌, ◌<◌, Bool, true, false, not, [], ◌∷◌, ◌++◌, ◌&&◌, leb,
  Option, none, some, Text, text, is_nil, any, length, cut, ◌==◌, ◌≡◌, refl, arith, Bool-cases, inl,
  inr,
}
use steady_proxy.Gemini.Decimal.{
  cut_seconds, all_digits, rounded, whole_seconds, gemini_retry_delay_seconds,
}
use steady_proxy.Number.{parse_onto}

-- A decimal, whatever is before it, and a fraction in units of a nanosecond: the first digit stands
-- for 10 to the `k - 1`.
unfoldable pub value_onto : ℕ → Text → ℕ
value_onto acc [] = acc
value_onto acc (c ∷ s) = value_onto (acc * 10 + (c - b'0')) s

pub nanos : ℕ → Text → ℕ
nanos k [] = 0
nanos zero (c ∷ s) = 0
nanos (suc k) (c ∷ s) = (c - b'0') * 10 ^ k + nanos k s

parse_onto-value_onto :
    (acc : ℕ) (s : Text) → all_digits s ≡ true → parse_onto acc s ≡ some (value_onto acc s)
unfolding parse_onto value_onto
parse_onto-value_onto acc [] h = refl
parse_onto-value_onto acc (c ∷ s) h =
    ground (arith, h, parse_onto-value_onto (acc * 10 + (c - b'0')) s)

cut_seconds-append : (s : Text) → cut_seconds (s ++ text "s") ≡ some s
unfolding cut_seconds
cut_seconds-append [] = ground arith
cut_seconds-append (c ∷ []) = ground arith
cut_seconds-append (c ∷ d ∷ s) = ground (arith, cut_seconds-append (d ∷ s))

cut_dot : (s t : Text) → all_digits s ≡ true → cut (s ++ b'.' ∷ t) (text ".") ≡ some (s, t)
unfolding cut
cut_dot [] t h = ground arith
cut_dot (c ∷ s) t h = ground (arith, h, cut_dot s t)

digit_times : (d p : ℕ) → d ≤ 9 → d * p ≤ 9 * p
digit_times d zero h = omega (arith, mul.zero d)
digit_times d (suc q) h = omega (arith, mul.suc d q, digit_times d q h)

digit_least : (d p : ℕ) → 1 ≤ d → p ≤ d * p
digit_least d zero h = omega arith
digit_least d (suc q) h = omega (arith, mul.suc d q, digit_least d q h)

power_pos : (k : ℕ) → 1 ≤ 10 ^ k
power_pos zero = omega arith
power_pos (suc k) = omega (arith, pow-suc 10 k, power_pos k)

-- The fraction is less than a second.
nanos-bound : (k : ℕ) (s : Text) → all_digits s ≡ true → length s ≤ k → nanos k s < 10 ^ k
unfolding nanos
nanos-bound k [] h l = power_pos k
nanos-bound zero (c ∷ s) h l = absurd (omega (arith, l))
nanos-bound (suc k) (c ∷ s) h l =
    let digit : c - b'0' ≤ 9 = ground (arith, h) in
    let rest = nanos-bound k s (ground (arith, h)) (omega (arith, l)) in
    omega (arith, pow-suc 10 k, digit_times (c - b'0') (10 ^ k) digit, rest)

-- It is 0 exactly if all its digits are.
abbrev some_nonzero : Text → Bool
some_nonzero s = any (λ c. not (c == b'0')) s

nanos-zero : (k : ℕ) (s : Text) → some_nonzero s ≡ false → nanos k s ≡ 0
unfolding nanos
nanos-zero k [] h = refl
nanos-zero zero (c ∷ s) h = refl
nanos-zero (suc k) (c ∷ s) h =
    let digit : c - b'0' ≡ 0 = ground (arith, h) in
    let rest = nanos-zero k s (ground (arith, h)) in
    rw (digit) (omega (arith, mul_comm 0 (10 ^ k), mul.zero (10 ^ k), rest))

nanos-positive :
    (k : ℕ) (s : Text) → all_digits s ≡ true → length s ≤ k → some_nonzero s ≡ true → 1 ≤ nanos k s
unfolding nanos
nanos-positive k [] h l n = ground (arith, n)
nanos-positive zero (c ∷ s) h l n = absurd (omega (arith, l))
nanos-positive (suc k) (c ∷ s) h l n = elim (Bool-cases (c == b'0')) [
  | inl z ↦
      let rest = nanos-positive k s (ground (arith, h)) (omega (arith, l)) (ground (arith, n, z)) in
      omega (arith, rest)
  | inr z ↦
      let digit : 1 ≤ c - b'0' = ground (arith, h, z) in
      omega (arith, digit_least (c - b'0') (10 ^ k) digit, power_pos k)
]

rounded-up :
    (v : ℕ) (f : Text)
    → all_digits f ≡ true
    → length f ≤ 9
    → v ≤ 315576000000
    → (v * 1000000000 + nanos 9 f ≤ rounded v f * 1000000000)
      × (rounded v f * 1000000000 < v * 1000000000 + nanos 9 f + 1000000000)
unfolding rounded
rounded-up v f h l b = elim (Bool-cases (some_nonzero f)) [
  | inl y ↦ ground (arith, y, b, nanos-bound 9 f h l, nanos-positive 9 f h l y)
  | inr n ↦ ground (arith, n, b, nanos-zero 9 f n)
]

delay-rounded :
    (w f : Text)
    → all_digits w ≡ true
    → is_nil w ≡ false
    → all_digits f ≡ true
    → is_nil f ≡ false
    → length f ≤ 9
    → gemini_retry_delay_seconds ((w ++ b'.' ∷ f) ++ text "s") ≡ rounded (value_onto 0 w) f
unfolding gemini_retry_delay_seconds whole_seconds
delay-rounded w f h e g d l = ground (
  arith,
  h,
  e,
  g,
  d,
  l,
  cut_seconds-append (w ++ b'.' ∷ f),
  cut_dot w f h,
  parse_onto-value_onto 0 w h,
)

-- The text of a delay: whole seconds, and a fraction if it has one.
abbrev pub printed : Text → Option Text → Text
printed w none = w ++ text "s"
printed w (some f) = (w ++ b'.' ∷ f) ++ text "s"

-- One to nine digits.
abbrev pub is_fraction : Option Text → Bool
is_fraction none = true
is_fraction (some f) = all_digits f && not (is_nil f) && leb (length f) 9

abbrev pub fraction_nanos : Option Text → ℕ
fraction_nanos none = 0
fraction_nanos (some f) = nanos 9 f

cut_no_dot : (s : Text) → all_digits s ≡ true → cut s (text ".") ≡ none
unfolding cut
cut_no_dot [] h = ground arith
cut_no_dot (c ∷ s) h =
    let digit : (c == b'.') ≡ false = ground (arith, h) in
    let rest : all_digits s ≡ true = ground (arith, h) in ground (arith, digit, cut_no_dot s rest)

whole-rounded :
    (w : Text)
    → all_digits w ≡ true
    → is_nil w ≡ false
    → gemini_retry_delay_seconds (w ++ text "s") ≡ rounded (value_onto 0 w) []
unfolding gemini_retry_delay_seconds whole_seconds
whole-rounded w h e =
    ground (arith, h, e, cut_seconds-append w, cut_no_dot w h, parse_onto-value_onto 0 w h)

-- A delay of Google's RetryInfo in whole seconds, or with a fraction of one to nine digits, within
-- the range of a Duration, gives the least number of whole seconds that is not below it.
pub gemini_retry_delay_seconds-rounds_up :
    (w : Text) (f : Option Text)
    → all_digits w ≡ true
    → is_nil w ≡ false
    → is_fraction f ≡ true
    → value_onto 0 w ≤ 315576000000
    → (value_onto 0 w * 1000000000 + fraction_nanos f
        ≤ gemini_retry_delay_seconds (printed w f) * 1000000000)
      × (gemini_retry_delay_seconds (printed w f) * 1000000000
          < value_onto 0 w * 1000000000 + fraction_nanos f + 1000000000)
unfolding nanos
gemini_retry_delay_seconds-rounds_up w none h e g b =
    rw (whole-rounded w h e) (rounded-up (value_onto 0 w) [] refl (omega arith) b)
gemini_retry_delay_seconds-rounds_up w (some f) h e g b =
    let digits : all_digits f ≡ true = ground (arith, g) in
    let short : length f ≤ 9 = ground (arith, g) in
    rw (delay-rounded w f h e digits (ground (arith, g)) short)
      (rounded-up (value_onto 0 w) f digits short b)
