-- ===== src/Responses/Delta.antt =====
-- The text deltas that a replay may combine: `parseResponsesTextDelta`, `compatible` and `merge` of
-- responses.go.
use mathlib.Core.Option
use steady_proxy.Base.{
  ℕ, suc, ◌+◌, Bool, true, false, not, ◌&&◌, List, [], ◌∷◌, ◌++◌, Option, none, some, ◌>>=◌, guard,
  ◌>>◌, ◌≡◌, refl, subst, some_inj, ℤ, eq_ℤ, pos, Text, text, is_nil, length, any, str_eq, cut,
  ◌==◌, if◌then◌else◌,
}
use steady_proxy.Headers.{member, split_at}
use steady_proxy.Json.{JsonLib, lookup, put, or_empty}
use steady_proxy.Responses.Event.{decode_responses_object, responses_string}
use steady_proxy.Sse.Parser.{Event}

-- `responsesTextDeltaGroup`.
pub record DeltaGroup : Type 0 where
  pub event_name : Text
  pub fields : List (Text × Text)
  pub raw : Text
  pub delta : Text
  pub payload_bytes : ℕ
  pub count : ℕ
  pub item_id : Text
  pub output_index : ℤ
  pub content_index : ℤ
  pub has_logprobs : Bool
  pub has_sequence : Bool
  pub has_obfuscation : Bool

-- The parts of a delta that its data give.
record DeltaParts : Type 0 where
  fields : List (Text × Text)
  delta : Text
  item_id : Text
  output_index : ℤ
  content_index : ℤ
  has_logprobs : Bool
  has_sequence : Bool
  has_obfuscation : Bool

-- The group of one event.
group_of : Event → DeltaParts → DeltaGroup
group_of ev p = record {
  event_name = ev.name;
  fields = p.fields;
  raw = ev.raw;
  delta = p.delta;
  payload_bytes = length ev.data_text;
  count = 1;
  item_id = p.item_id;
  output_index = p.output_index;
  content_index = p.content_index;
  has_logprobs = p.has_logprobs;
  has_sequence = p.has_sequence;
  has_obfuscation = p.has_obfuscation;
}

map-group_of :
    (ev : Event) (o : Option DeltaParts) (g : DeltaGroup)
    → Option.map (group_of ev) o ≡ some g
    → (g.count ≡ 1) × (g.raw ≡ ev.raw)
unfolding group_of
map-group_of ev none g h = cc
map-group_of ev (some p) g h =
    subst (λ (d : DeltaGroup). (d.count ≡ 1) × (d.raw ≡ ev.raw)) (some_inj h) (refl, refl)

-- The bytes with each CRLF, and then each CR, as a LF.
line_feeds : Text → Text
line_feeds [] = []
line_feeds (c ∷ []) = (if c == b'\r' then b'\n' else c) ∷ []
line_feeds (c ∷ d ∷ s) =
    let rest = line_feeds (d ∷ s) in
    if c == b'\r' then if d == b'\n' then rest else b'\n' ∷ rest else c ∷ rest

-- The value of a line behind its colon, less one space.
unspaced : Text → Text
unspaced [] = []
unspaced (c ∷ s) = if c == b' ' then s else c ∷ s

-- The loop of `simpleResponsesSSEFrame`: the event lines and data lines, none where it returns.
simple_lines : Event → List Text → ℕ × ℕ → Option (ℕ × ℕ)
unfolding unspaced
simple_lines ev [] n = some n
simple_lines ev (line ∷ lines) (e, d) = elim (cut line (text ":")) [
  | none ↦ if is_nil line then simple_lines ev lines (e, d) else none
  | some (field, v) ↦
      let as_event = simple_lines ev lines (suc e, d) in
      let as_data = simple_lines ev lines (e, suc d) in
      if str_eq field (text "event")
      then if str_eq (unspaced v) ev.name then as_event else none
      else if str_eq field (text "data")
      then if str_eq (unspaced v) ev.data_text then as_data else none
      else none
]

-- `simpleResponsesSSEFrame`.
simple_responses_sse_frame : Event → Bool
unfolding line_feeds simple_lines
simple_responses_sse_frame ev = elim (simple_lines ev (split_at b'\n' (line_feeds ev.raw)) (0, 0)) [
  | none ↦ false
  | some (e, d) ↦ if is_nil ev.name then e == 0 && d == 1 else e == 1 && d == 1
]

abbrev delta_field : Text → Bool
delta_field k = member k (
    text "type"
    ∷ text "item_id"
    ∷ text "output_index"
    ∷ text "content_index"
    ∷ text "delta"
    ∷ text "logprobs"
    ∷ text "sequence_number"
    ∷ text "obfuscation"
    ∷ [])

-- `Unmarshal` into a string or an `int64`, where null leaves the zero value.
abbrev string_or_zero : Option Text → Text
string_or_zero none = []
string_or_zero (some s) = s

abbrev int_or_zero : Option ℤ → ℤ
int_or_zero none = pos 0
int_or_zero (some n) = n

module _ (json : JsonLib) where
  -- An optional field: whether it is there, and none where it does not decode.
  optional : Option Text → (Text → Bool) → Option Bool
  optional none ok = some false
  optional (some raw) ok = if ok raw then some true else none

  -- `logprobs` is an empty array.
  empty_list : Text → Bool
  empty_list raw = elim (json.as_list raw) [ some (some []) ↦ true | _ ↦ false ]

  is_int : Text → Bool
  is_int raw = elim (json.as_int raw) [ none ↦ false | some n ↦ true ]

  is_string : Text → Bool
  is_string raw = elim (json.as_string raw) [ none ↦ false | some s ↦ true ]

  -- What `parseResponsesTextDelta` reads from the data of an event.
  delta_parts : Event → Option DeltaParts
  unfolding simple_responses_sse_frame optional empty_list is_int is_string
  delta_parts ev = do
    guard (simple_responses_sse_frame ev)
    m ← decode_responses_object json ev.data_text true
    guard (
        str_eq (responses_string json (or_empty (lookup (text "type") m)))
          (text "response.output_text.delta"))
    guard (not (any (λ e. not (delta_field e.0)) m))
    item_raw ← lookup (text "item_id") m
    item ← json.as_string item_raw
    output_raw ← lookup (text "output_index") m
    output ← json.as_int output_raw
    content_raw ← lookup (text "content_index") m
    content ← json.as_int content_raw
    delta_raw ← lookup (text "delta") m
    delta ← json.as_string delta_raw
    logprobs ← optional (lookup (text "logprobs") m) empty_list
    sequence ← optional (lookup (text "sequence_number") m) is_int
    obfuscation ← optional (lookup (text "obfuscation") m) is_string
    some (record {
      fields = m;
      delta = string_or_zero delta;
      item_id = string_or_zero item;
      output_index = int_or_zero output;
      content_index = int_or_zero content;
      has_logprobs = logprobs;
      has_sequence = sequence;
      has_obfuscation = obfuscation;
    })

  -- `parseResponsesTextDelta`.
  pub parse_responses_text_delta : Event → Option DeltaGroup
  unfolding group_of
  parse_responses_text_delta ev = Option.map (group_of ev) (delta_parts ev)

  pub parse_responses_text_delta-reading :
      (ev : Event) (g : DeltaGroup)
      → parse_responses_text_delta ev ≡ some g
      → (g.count ≡ 1) × (g.raw ≡ ev.raw)
  unfolding parse_responses_text_delta
  parse_responses_text_delta-reading ev g h = map-group_of ev (delta_parts ev) g h

abbrev bool_eq : Bool → Bool → Bool
bool_eq true b = b
bool_eq false b = not b

-- `compatible`.
unfoldable pub compatible : DeltaGroup → DeltaGroup → Bool
unfolding eq_ℤ
compatible g n =
    str_eq g.event_name n.event_name
    && str_eq g.item_id n.item_id
    && eq_ℤ g.output_index n.output_index
    && eq_ℤ g.content_index n.content_index
    && bool_eq g.has_logprobs n.has_logprobs
    && bool_eq g.has_sequence n.has_sequence
    && bool_eq g.has_obfuscation n.has_obfuscation

-- The field of the later delta, where the group has it.
keep_last : Bool → Text → DeltaGroup → List (Text × Text) → List (Text × Text)
keep_last has k n m = if has then put k (or_empty (lookup k n.fields)) m else m

-- `merge`.
unfoldable pub merge : DeltaGroup → DeltaGroup → DeltaGroup
unfolding keep_last
merge g n =
    let m = keep_last g.has_sequence (text "sequence_number") n g.fields in
    record g {
      delta = g.delta ++ n.delta;
      payload_bytes = g.payload_bytes + n.payload_bytes;
      count = g.count + n.count;
      fields = keep_last g.has_obfuscation (text "obfuscation") n m;
    }
