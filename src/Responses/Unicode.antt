-- ===== src/Responses/Unicode.antt =====
-- `validResponsesJSONUnicode` of responses.go: no lone surrogate is escaped in a string.
pub mod Surrogates
use steady_proxy.Base.{
  ℕ, zero, suc, ◌+◌, ◌-◌, ◌*◌, Bool, true, false, not, ◌&&◌, ◌||◌, List, [], ◌∷◌, ◌++◌, Option,
  none, some, Text, text, length, take, drop, leb, ltb, ◌==◌, if◌then◌else◌,
}
use steady_proxy.Json.{JsonLib}

-- One digit of `responsesHex4`.
hex_value : ℕ → Option ℕ
hex_value c =
    if leb b'0' c && leb c b'9'
    then some (c - b'0')
    else if leb b'a' c && leb c b'f'
    then some (c - b'a' + 10)
    else if leb b'A' c && leb c b'F'
    then some (c - b'A' + 10)
    else none

-- The loop of `responsesHex4`; four digits fit 16 bits.
hex_onto : ℕ → Text → Option ℕ
unfolding hex_value
hex_onto acc [] = some acc
hex_onto acc (c ∷ s) = elim (hex_value c) [ none ↦ none | some d ↦ hex_onto (acc * 16 + d) s ]

-- `responsesHex4`.
pub responses_hex4 : Text → Option ℕ
unfolding hex_onto
responses_hex4 s = if length s == 4 then hex_onto 0 s else none

is_high : ℕ → Bool
is_high u = leb 0xd800 u && leb u 0xdbff

is_low : ℕ → Bool
is_low u = leb 0xdc00 u && leb u 0xdfff

starts_escape : Text → Bool
starts_escape (a ∷ b ∷ s) = a == b'\\' && b == b'u'
starts_escape _ = false

-- Behind the code unit of an escape: a high surrogate wants a low one, escaped, at once.
after_unit : (Text → Bool) → ℕ → Text → Bool
unfolding starts_escape
after_unit go u s =
    let low : Bool = elim (responses_hex4 (take 4 (drop 2 s))) [
      | none ↦ false
      | some v ↦ is_low v
    ] in
    if is_high u
    then if ltb (length s) 6 || not (starts_escape s)
      then false
      else if low
      then go (drop 6 s)
      else false
    else if is_low u
    then false
    else go s

-- Behind the letter `u` of an escape.
after_u : (Text → Bool) → Text → Bool
unfolding after_unit
after_u go s =
    if ltb (length s) 4
    then false
    else elim (responses_hex4 (take 4 s)) [ none ↦ false | some u ↦ after_unit go u (drop 4 s) ]

-- Behind a backslash in a string.
after_backslash : (Text → Bool) → Text → Bool
unfolding after_u
after_backslash go [] = true
after_backslash go (d ∷ s) = if d == b'u' then after_u go s else go s

-- The loop; each round consumes a byte, so the length is enough fuel.
scan : ℕ → Bool → Text → Bool
unfolding after_backslash
scan zero in_string s = true
scan (suc fuel) in_string [] = true
scan (suc fuel) in_string (c ∷ s) =
    let toggled = scan fuel (not in_string) s in
    let escaped = after_backslash (scan fuel true) s in
    let plain = scan fuel in_string s in
    if c == b'"' then toggled else if c == b'\\' && in_string then escaped else plain

-- `validResponsesJSONUnicode`.
pub valid_responses_json_unicode : JsonLib → Text → Bool
unfolding scan
valid_responses_json_unicode json s = json.is_utf8 s && scan (length s) false s
