-- ===== src/Base/Int.antt =====
-- Signed integers: `negsuc n` is -(n + 1).
use Prim.Native.Nat.{ℕ, zero, suc, ◌+◌, ◌-◌, ◌%◌, ◌^◌}
use mathlib.Core.Path.{◌≡◌}
use mathlib.Core.Bool.{Bool, true, false}
use native.Mathlib.Omega.{arith}
use steady_proxy.Base.Tests.{ltb, leb, ◌==◌, if◌then◌else◌}

pub data ℤ : Type 0 where
  pos : ℕ → ℤ
  negsuc : ℕ → ℤ

-- -n
abbrev pub neg_ℕ : ℕ → ℤ
neg_ℕ zero = pos 0
neg_ℕ (suc n) = negsuc n

-- The value where it is not negative, and 0 where it is.
abbrev pub pos_part : ℤ → ℕ
pos_part (pos n) = n
pos_part (negsuc n) = 0

abbrev pub neg_part : ℤ → ℕ
neg_part (pos n) = 0
neg_part (negsuc n) = suc n

-- a - b, as an integer.
abbrev pub sub_ℕ : ℕ → ℕ → ℤ
sub_ℕ a b = if leb b a then pos (a - b) else negsuc (b - a - 1)

infixl 65 ◌+ℤ◌ ◌-ℤ◌
unfoldable pub ◌+ℤ◌ : ℤ → ℤ → ℤ
a +ℤ b = sub_ℕ (pos_part a + pos_part b) (neg_part a + neg_part b)

unfoldable pub ◌-ℤ◌ : ℤ → ℤ → ℤ
a -ℤ b = sub_ℕ (pos_part a + neg_part b) (neg_part a + pos_part b)

abbrev pub is_positive : ℤ → Bool
is_positive (pos n) = ltb 0 n
is_positive (negsuc n) = false

abbrev pub is_negative : ℤ → Bool
is_negative (pos n) = false
is_negative (negsuc n) = true

-- a < b
abbrev pub ltb_ℤ : ℤ → ℤ → Bool
ltb_ℤ a b = ltb (pos_part a + neg_part b) (pos_part b + neg_part a)

-- A 64-bit `int` from its bits.
of_bits : ℕ → ℤ
of_bits u = if ltb u (2 ^ 63) then pos u else negsuc (2 ^ 64 - 1 - u)

-- The 64-bit `int` of a sum: it wraps around.
unfoldable pub wrap64 : ℤ → ℤ
unfolding of_bits
wrap64 (pos n) = of_bits (n % 2 ^ 64)
wrap64 (negsuc n) = of_bits (2 ^ 64 - 1 - n % 2 ^ 64)

unfoldable pub eq_ℤ : ℤ → ℤ → Bool
eq_ℤ (pos m) (pos n) = m == n
eq_ℤ (negsuc m) (negsuc n) = m == n
eq_ℤ _ _ = false

pub eq_ℤ_eq : (a b : ℤ) → eq_ℤ a b ≡ true → a ≡ b
unfolding eq_ℤ
eq_ℤ_eq (pos m) (pos n) h = ground (arith, h)
eq_ℤ_eq (negsuc m) (negsuc n) h = ground (arith, h)
eq_ℤ_eq (pos m) (negsuc n) h = ground (arith, h)
eq_ℤ_eq (negsuc m) (pos n) h = ground (arith, h)

pub eq_ℤ_refl : (a : ℤ) → eq_ℤ a a ≡ true
unfolding eq_ℤ
eq_ℤ_refl (pos m) = ground arith
eq_ℤ_refl (negsuc m) = ground arith
