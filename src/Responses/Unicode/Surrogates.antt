-- ===== src/Responses/Unicode/Surrogates.antt =====
-- Escaped code units pass exactly if their surrogates stand in pairs.
use mathlib.Core.List.{append_assoc}
use steady_proxy.Base.{
  ℕ, zero, suc, ◌+◌, ◌-◌, ◌/◌, ◌%◌, ◌<◌, Bool, true, false, not, ◌&&◌, List, [], ◌∷◌, ◌++◌, some,
  Text, length, ltb, if◌then◌else◌, ◌≡◌, refl, arith, Bool-cases, inl, inr,
}
use steady_proxy.Json.{JsonLib}
use steady_proxy.Responses.Unicode.{
  hex_value, hex_onto, responses_hex4, is_high, is_low, after_unit, scan,
  valid_responses_json_unicode,
}

hex_digit : ℕ → ℕ
hex_digit n = if ltb n 10 then b'0' + n else b'a' + (n - 10)

-- A code unit as its escape.
pub escape : ℕ → Text
unfolding hex_digit
escape u =
    b'\\'
    ∷ b'u'
    ∷ hex_digit (u / 4096)
    ∷ hex_digit (u / 256 % 16)
    ∷ hex_digit (u / 16 % 16)
    ∷ hex_digit (u % 16)
    ∷ []

pub escapes : List ℕ → Text
escapes [] = []
escapes (u ∷ us) = escape u ++ escapes us

-- UTF-16: each high surrogate is followed by a low one, and each low one follows a high one.
pub paired : List ℕ → Bool
paired [] = true
paired (u ∷ []) = not (is_high u) && not (is_low u)
paired (u ∷ v ∷ us) =
    let rest = paired us in
    let next = paired (v ∷ us) in if is_high u then is_low v && rest else not (is_low u) && next

abbrev pub AllUnits : List ℕ → Type 0
AllUnits [] = Unit
AllUnits (u ∷ us) = (u < 0x10000) × AllUnits us

hex_value-digit : (n : ℕ) → n < 16 → hex_value (hex_digit n) ≡ some n
unfolding hex_value hex_digit
hex_value-digit n h = ground arith

hex4-escape :
    (u : ℕ)
    → u < 0x10000
    → responses_hex4 (
        hex_digit (u / 4096)
        ∷ hex_digit (u / 256 % 16)
        ∷ hex_digit (u / 16 % 16)
        ∷ hex_digit (u % 16)
        ∷ [])
      ≡ some u
unfolding responses_hex4 hex_onto
hex4-escape u h = ground (
  arith,
  hex_value-digit (u / 4096) (omega arith),
  hex_value-digit (u / 256 % 16) (omega arith),
  hex_value-digit (u / 16 % 16) (omega arith),
  hex_value-digit (u % 16) (omega arith),
)

abbrev pub quote : Text
quote = b'"' ∷ []

-- The scan in a string meets an escape of four digits.
scan_digits :
    (n a b c d u : ℕ) (s : Text)
    → responses_hex4 (a ∷ b ∷ c ∷ d ∷ []) ≡ some u
    → scan (suc n) true (b'\\' ∷ b'u' ∷ a ∷ b ∷ c ∷ d ∷ s) ≡ after_unit (scan n true) u s
unfolding scan
scan_digits n a b c d u s h = ground (arith, h)

after_high_digits :
    (n a b c d u v : ℕ) (s : Text)
    → is_high u ≡ true
    → responses_hex4 (a ∷ b ∷ c ∷ d ∷ []) ≡ some v
    → after_unit (scan n true) u (b'\\' ∷ b'u' ∷ a ∷ b ∷ c ∷ d ∷ s) ≡ (is_low v && scan n true s)
unfolding after_unit
after_high_digits n a b c d u v s h k = ground (arith, h, k)

scan-escape :
    (n u : ℕ) (s : Text)
    → u < 0x10000
    → scan (suc n) true (escape u ++ s) ≡ after_unit (scan n true) u s
unfolding escape
scan-escape n u s h = scan_digits n _ _ _ _ u s (hex4-escape u h)

-- Behind a high surrogate.
after_high :
    (n u v : ℕ) (s : Text)
    → is_high u ≡ true
    → v < 0x10000
    → after_unit (scan n true) u (escape v ++ s) ≡ (is_low v && scan n true s)
unfolding escape
after_high n u v s h k = after_high_digits n _ _ _ _ u v s h (hex4-escape v k)

-- What follows a unit that is no high surrogate is read on its own.
after_plain :
    (n u : ℕ) (s : Text)
    → is_high u ≡ false
    → after_unit (scan n true) u s ≡ (not (is_low u) && scan n true s)
unfolding after_unit
after_plain n u s h = ground (arith, h)

scan-quote : (n : ℕ) → scan (suc n) true quote ≡ true
unfolding scan
scan-quote zero = refl
scan-quote (suc n) = refl

lone_high : (n u : ℕ) → is_high u ≡ true → after_unit (scan n true) u quote ≡ false
unfolding after_unit
lone_high n u h = ground (arith, h)

escapes_step :
    (u : ℕ) (us : List ℕ) (s : Text) → escapes (u ∷ us) ++ s ≡ escape u ++ (escapes us ++ s)
unfolding escapes
escapes_step u us s = append_assoc (escape u) (escapes us) s

length-escapes : (us : List ℕ) → length us < length (escapes us ++ quote)
unfolding escapes escape
length-escapes [] = omega arith
length-escapes (u ∷ us) = omega (arith, length-escapes us)

scan_open : (n : ℕ) (s : Text) → scan (suc n) false (b'"' ∷ s) ≡ scan n true s
unfolding scan
scan_open n s = refl

scan-escapes :
    (us : List ℕ) (n : ℕ)
    → AllUnits us
    → length us < n
    → scan n true (escapes us ++ quote) ≡ paired us
unfolding escapes paired
scan-escapes us zero h l = absurd (omega arith)
scan-escapes [] (suc n) h l = scan-quote n
scan-escapes (u ∷ []) (suc zero) h l = absurd (omega arith)
scan-escapes (u ∷ []) (suc (suc n)) h l =
    rw (escapes_step u [] quote, scan-escape (suc n) u quote h.0)
      (elim (Bool-cases (is_high u)) [
        | inl e ↦ ground (arith, e, lone_high (suc n) u e)
        | inr e ↦ ground (arith, e, after_plain (suc n) u quote e, scan-quote n)
      ])
scan-escapes (u ∷ v ∷ us) (suc n) h l =
    let rest = escapes us ++ quote in
    let behind = escape v ++ rest in
    rw (escapes_step u (v ∷ us) quote, escapes_step v us quote, scan-escape n u behind h.0)
      (elim (Bool-cases (is_high u)) [
        | inl e ↦
            ground
              (arith, e, after_high n u v rest e h.1.0, scan-escapes us n h.1.1 (omega (arith, l)))
        | inr e ↦
            let alone = scan-escapes (v ∷ us) n h.1 (omega (arith, l)) in
            ground (arith, e, after_plain n u behind e, alone, escapes_step v us quote)
      ])

-- In a JSON string that is written as the escapes of 16-bit code units, and in UTF-8, the source
-- accepts exactly the texts whose surrogates stand in pairs, a high one before a low one.
pub valid_responses_json_unicode-escapes :
    (json : JsonLib) (us : List ℕ)
    → AllUnits us
    → json.is_utf8 (quote ++ (escapes us ++ quote)) ≡ true
    → valid_responses_json_unicode json (quote ++ (escapes us ++ quote)) ≡ paired us
unfolding valid_responses_json_unicode
valid_responses_json_unicode-escapes json us h g =
    let n = length (escapes us ++ quote) in
    ground (arith, g, scan_open n (escapes us ++ quote), scan-escapes us n h (length-escapes us))
