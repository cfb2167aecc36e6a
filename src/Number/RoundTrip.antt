-- ===== src/Number/RoundTrip.antt =====
-- Reading back what `itoa` prints.
use steady_proxy.Base.{
  ℕ, zero, suc, ◌+◌, ◌-◌, ◌*◌, ◌/◌, ◌%◌, ◌^◌, ◌<◌, false, inl, inr, [], ◌∷◌, some, ℤ, pos, negsuc,
  neg_ℕ, Text, ◌==◌, trim_space, trim_space_id, is_space, any, ap, Bool-cases, ◌≡◌, refl, ◌∙◌,
  arith,
}
use native.Mathlib.Nat.{pow-suc}
use steady_proxy.Number.{digits_onto, itoa, parse_onto, atoi_safe}

shift : (n : ℕ) → n / 10 * 10 + n % 10 ≡ n
shift n = omega arith

fewer : (room n : ℕ) → n < 10 ^ suc room → n / 10 < 10 ^ room
fewer room n h = omega (arith, pow-suc 10 room)

parse_onto-digits_onto :
    (room n : ℕ) (acc : Text)
    → n < 10 ^ room
    → parse_onto 0 (digits_onto room n acc) ≡ parse_onto n acc
unfolding digits_onto parse_onto
parse_onto-digits_onto zero n acc h = ground (arith, h)
parse_onto-digits_onto (suc room) n acc h = elim (Bool-cases (n == 0)) [
  | inl done ↦ ground arith
  | inr more ↦
      let digit : parse_onto (n / 10) ((b'0' + n % 10) ∷ acc) ≡ parse_onto n acc =
        ground (arith, ap (λ (v : ℕ). parse_onto v acc) (shift n)) in
      rw more
        (parse_onto-digits_onto room (n / 10) ((b'0' + n % 10) ∷ acc) (fewer room n h) ∙ digit)
]

-- A text of digits holds no space.
no_space : (a n : ℕ) (s : Text) → parse_onto a s ≡ some n → any is_space s ≡ false
unfolding parse_onto is_space
no_space a n [] h = refl
no_space a n (c ∷ s) h = ground (arith, no_space (a * 10 + (c - b'0')) n s)

-- A text of digits, read with no sign and with a minus.
atoi_safe_pos :
    (n : ℕ) (s : Text) → parse_onto 0 s ≡ some n → 0 < n → n < 2 ^ 63 → atoi_safe s ≡ pos n
unfolding atoi_safe parse_onto
atoi_safe_pos n [] h p l = ground arith
atoi_safe_pos n (c ∷ s) h p l = rw (trim_space_id (c ∷ s) (no_space 0 n (c ∷ s) h)) (ground arith)

atoi_safe_neg :
    (n : ℕ) (s : Text)
    → parse_onto 0 s ≡ some n
    → 0 < n
    → n < 2 ^ 63
    → atoi_safe (b'-' ∷ s) ≡ neg_ℕ n
unfolding atoi_safe parse_onto is_space
atoi_safe_neg n [] h p l = ground arith
atoi_safe_neg n (c ∷ s) h p l =
    rw (trim_space_id (b'-' ∷ c ∷ s) (no_space 0 n (c ∷ s) h)) (ground arith)

printed : (n : ℕ) → n < 2 ^ 63 → parse_onto 0 (digits_onto 20 n []) ≡ some n
printed n h = parse_onto-digits_onto 20 n [] (omega arith) ∙ unfold parse_onto in refl

-- The values of a 64-bit `int` but the least.
abbrev pub IsInt : ℤ → Type 0
IsInt (pos n) = n < 2 ^ 63
IsInt (negsuc n) = suc n < 2 ^ 63

-- `atoiSafe` reads back what `itoa` prints, for every `int` but the least.
pub atoi_safe-itoa : (n : ℤ) → IsInt n → atoi_safe (itoa n) ≡ n
unfolding itoa
atoi_safe-itoa (pos zero) h = unfold atoi_safe trim_space parse_onto in refl
atoi_safe-itoa (pos (suc n)) h =
    ground (arith, atoi_safe_pos (suc n) (digits_onto 20 (suc n) []) (printed (suc n) h))
atoi_safe-itoa (negsuc n) h =
    ground (arith, atoi_safe_neg (suc n) (digits_onto 20 (suc n) []) (printed (suc n) h))
