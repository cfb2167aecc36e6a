-- ===== src/Number.antt =====
-- Decimals: `itoa` of classify.go and `atoiSafe` of main.go, over a 64-bit `int`.
pub mod RoundTrip
use steady_proxy.Base.{
  ℕ, zero, suc, ◌+◌, ◌-◌, ◌*◌, ◌/◌, ◌%◌, ◌^◌, Bool, true, false, not, ◌&&◌, List, [], ◌∷◌, Option,
  none, some, ℤ, pos, negsuc, neg_ℕ, Text, text, leb, ltb, ◌==◌, if◌then◌else◌, trim_space,
}

-- `b[i] = byte('0' + n%10)` from the right, as long as `n > 0`; the buffer has 20 bytes.
unfoldable pub digits_onto : ℕ → ℕ → Text → Text
digits_onto zero n acc = acc
digits_onto (suc room) n acc =
    let more = digits_onto room (n / 10) ((b'0' + n % 10) ∷ acc) in if n == 0 then acc else more

-- `itoa`. The least `int` is its own negation, so its loop makes no round.
unfoldable pub itoa : ℤ → Text
itoa (pos n) = if n == 0 then text "0" else digits_onto 20 n []
itoa (negsuc n) = b'-' ∷ (if suc n == 2 ^ 63 then [] else digits_onto 20 (suc n) [])

unfoldable pub parse_onto : ℕ → Text → Option ℕ
parse_onto acc [] = some acc
parse_onto acc (c ∷ s) =
    let rest = parse_onto (acc * 10 + (c - b'0')) s in
    if leb b'0' c && leb c b'9' then rest else none

-- `strconv.Atoi`'s digits: at least one, and nothing else.
unfoldable pub parse_digits : Text → Option ℕ
unfolding parse_onto
parse_digits [] = none
parse_digits (c ∷ s) = parse_onto 0 (c ∷ s)

-- The result of `strconv.Atoi` with its error dropped: 0 for a text that is no number, the nearest
-- `int` for a number out of range.
at_most : ℕ → Option ℕ → ℕ
at_most bound none = 0
at_most bound (some n) = if ltb bound n then bound else n

atoi : Text → ℤ
unfolding parse_digits at_most
atoi [] = pos 0
atoi (c ∷ s) =
    if c == b'-'
    then neg_ℕ (at_most (2 ^ 63) (parse_digits s))
    else if c == b'+'
    then pos (at_most (2 ^ 63 - 1) (parse_digits s))
    else pos (at_most (2 ^ 63 - 1) (parse_digits (c ∷ s)))

-- `atoiSafe`.
unfoldable pub atoi_safe : Text → ℤ
unfolding atoi
atoi_safe s = atoi (trim_space s)
