-- ===== src/Gemini/Decimal.antt =====
-- Numbers of Gemini messages: `geminiInt32` and `geminiEnum` of gemini.go, and
-- `geminiRetryDelaySeconds` of gemini_errors.go.
pub mod Delay
use mathlib.Core.Option
use steady_proxy.Base.{
  ℕ, zero, suc, ◌+◌, ◌-◌, ◌*◌, ◌^◌, Bool, true, false, not, ◌&&◌, ◌||◌, List, [], ◌∷◌, ◌++◌, Option,
  none, some, ◌>>=◌, ◌>>◌, guard, ℤ, pos, negsuc, neg_ℕ, pos_part, is_negative, ◌+ℤ◌, ◌-ℤ◌, ltb_ℤ,
  Text, text, is_nil, any, length, str_eq, has_prefix, trim_prefix, trim_space, cut, leb, ltb, ◌==◌,
  if◌then◌else◌,
}
use steady_proxy.Number.{itoa, parse_onto}

-- `number` is `json.Unmarshal` into a `json.Number`. `envelope` are the raw values that
-- `json.Unmarshal` hands to the field `error` of a struct, in order, and `envelope_array` those of an
-- array of one such struct.
pub record GeminiLib : Type 0 where
  pub number : Text → Option Text
  pub envelope : Text → Option (List Text)
  pub envelope_array : Text → Option (List Text)

abbrev pub is_null : Text → Bool
is_null raw = str_eq (trim_space raw) (text "null")

-- Mantissa and exponent.
split_exponent : Text → Text × Text
split_exponent [] = ([], text "0")
split_exponent (c ∷ s) =
    let (m, e) = split_exponent s in if c == b'e' || c == b'E' then ([], s) else (c ∷ m, e)

-- The first loop of `geminiInt32`: where the digits other than 0 begin and end.
pub record Scan : Type 0 where
  pub first : Option ℕ
  pub last : ℕ
  pub digits : ℕ
  pub fraction : ℕ
  pub after_dot : Bool

scan_digits : Text → Scan → Scan
scan_digits [] s = s
scan_digits (c ∷ m) s =
    let at = s.digits in
    let first : Option ℕ = elim s.first [ none ↦ some at | some f ↦ some f ] in
    let nonzero = not (c == b'0') in
    let counted = record s {
      first = if nonzero then first else s.first;
      last = if nonzero then at else s.last;
      digits = at + 1;
      fraction = if s.after_dot then s.fraction + 1 else s.fraction;
    } in
    scan_digits m (if c == b'.' then record s { after_dot = true } else counted)

-- The second loop: the digits from `first` to `last`.
digits_value : ℕ → ℕ → ℕ → Text → ℕ → ℕ
digits_value first last position [] value = value
digits_value first last position (c ∷ m) value =
    let taken =
      if leb first position && leb position last then value * 10 + (c - b'0') else value in
    if c == b'.'
    then digits_value first last position m value
    else digits_value first last (position + 1) m taken

-- `strconv.ParseInt(s, 10, 32)`.
signed : Bool → Option ℕ → Option ℤ
signed negative none = none
signed negative (some n) =
    if negative
    then (if leb n (2 ^ 31) then some (neg_ℕ n) else none)
    else if ltb n (2 ^ 31)
    then some (pos n)
    else none

some_digits : Text → Option ℕ
some_digits s = if is_nil s then none else parse_onto 0 s

parse_int32 : Text → Option ℤ
unfolding signed some_digits
parse_int32 [] = none
parse_int32 (c ∷ s) =
    if c == b'-'
    then signed true (some_digits s)
    else if c == b'+'
    then signed false (some_digits s)
    else signed false (some_digits (c ∷ s))

-- The part behind the first loop.
scaled : Bool → Text → Text → Scan → ℕ → Option ℤ
unfolding digits_value
scaled negative mantissa exponent_text s first = do
  exponent ← parse_int32 exponent_text
  let scale = (exponent -ℤ pos s.fraction) +ℤ pos (s.digits - s.last - 1)
  guard (not (is_negative scale || ltb 10 (s.last - first + 1 + pos_part scale)))
  let value = digits_value first s.last 0 mantissa 0 * 10 ^ pos_part scale
  signed negative (some value)

-- `geminiInt32`.
pub gemini_int32 : GeminiLib → Text → Option ℤ
unfolding split_exponent scan_digits scaled parse_int32
gemini_int32 lib raw =
    let of_number : Text → Option ℤ = λ (number : Text).
      let negative = has_prefix number (text "-") in
      let (mantissa, exponent_text) = split_exponent (trim_prefix number (text "-")) in
      let s =
        scan_digits mantissa
          (record { first = none; last = 0; digits = 0; fraction = 0; after_dot = false }) in
      elim s.first [
        | none ↦ some (pos 0)
        | some first ↦ scaled negative mantissa exponent_text s first
      ] in
    if is_null raw then some (pos 0) else lib.number raw >>= of_number

name_at : ℕ → List Text → Option Text
name_at n [] = none
name_at zero (name ∷ names) = some name
name_at (suc n) (name ∷ names) = name_at n names

unfoldable pub enum_name : List Text → ℤ → Text
unfolding name_at
enum_name names (pos n) = Option.get_or (name_at n names) (itoa (pos n))
enum_name names (negsuc n) = itoa (negsuc n)

-- `strings.CutSuffix(s, "s")`.
unfoldable pub cut_seconds : Text → Option Text
cut_seconds [] = none
cut_seconds (c ∷ s) =
    let rest = cut_seconds s in
    if is_nil s && c == b's' then some [] else Option.map (λ (t : Text). c ∷ t) rest

abbrev pub is_digit : ℕ → Bool
is_digit c = leb b'0' c && leb c b'9'

abbrev pub all_digits : Text → Bool
all_digits s = not (any (λ c. not (is_digit c)) s)

-- The seconds of a delay, rounded up, and the bound of a `Duration`.
unfoldable pub rounded : ℕ → Text → ℕ
rounded seconds fraction =
    if ltb 315576000000 seconds
    then 0
    else if any (λ c. not (c == b'0')) fraction
    then seconds + 1
    else seconds

unfoldable pub whole_seconds : Text → Text → ℕ
whole_seconds whole fraction = elim (parse_onto 0 whole) [
  | none ↦ 0
  | some seconds ↦
      if is_nil whole || not (all_digits whole && all_digits fraction)
      then 0
      else rounded seconds fraction
]

-- `geminiRetryDelaySeconds`.
unfoldable pub gemini_retry_delay_seconds : Text → ℕ
unfolding cut_seconds whole_seconds
gemini_retry_delay_seconds value = elim (cut_seconds value) [
  | none ↦ 0
  | some t ↦ elim (cut t (text ".")) [
    | none ↦ whole_seconds t []
    | some (whole, fraction) ↦
        if is_nil fraction || ltb 9 (length fraction) then 0 else whole_seconds whole fraction
  ]
]
