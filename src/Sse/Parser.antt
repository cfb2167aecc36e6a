-- ===== src/Sse/Parser.antt =====
-- The incremental SSE parser of sse.go (`sseParser`). Bytes are numbers; a slice of `curRaw` is a
-- value, since an emitted event copies it. `feedChunk`'s loop is `feed_loop`, on fuel.
pub mod Bytewise
mod Rounds
mod Loop
pub mod Chunks
use steady_proxy.Base.{
  ℕ, zero, suc, ◌+◌, ◌-◌, Bool, true, false, not, ◌&&◌, ◌||◌, List, [], ◌∷◌, ◌++◌, Option, none,
  some, Text, text, length, take, drop, is_nil, str_eq, cut, trim_prefix, ltb, ◌==◌, if◌then◌else◌,
}

pub record Event : Type 0 where
  pub name : Text
  pub data_text : Text
  pub raw : Text

pub record CurEvent : Type 0 where
  pub has : Bool
  pub has_data : Bool
  pub name : Text
  pub data_text : Text

abbrev pub no_event : CurEvent
no_event = record { has = false; has_data = false; name = []; data_text = [] }

-- `err` is true for `errTooLarge`; `max_event_bytes` is 0 for no bound.
pub record Parser : Type 0 where
  pub max_event_bytes : ℕ
  pub err : Bool
  pub cur_raw : Text
  pub line_start : ℕ
  pub cr : Bool
  pub started : Bool
  pub cur : CurEvent

abbrev pub new_parser : ℕ → Parser
new_parser limit = record {
  max_event_bytes = limit;
  err = false;
  cur_raw = [];
  line_start = 0;
  cr = false;
  started = false;
  cur = no_event;
}

-- `appendRaw`: the parser, and whether the bytes fitted. The test is the source's
-- `len(b) > maxEventBytes - len(curRaw)` without the subtraction.
pub append_raw : Parser → Text → Parser × Bool
append_raw p b =
    if ltb 0 p.max_event_bytes && ltb p.max_event_bytes (length p.cur_raw + length b)
    then (record p { err = true }, false)
    else (record p { cur_raw = p.cur_raw ++ b }, true)

-- The value behind the first colon, less one leading space.
field_value : Text → Text
field_value [] = []
field_value (c ∷ v) = if c == 32 then v else c ∷ v

-- The field and the value of a line.
split_field : Text → Text × Text
unfolding field_value
split_field line = elim (cut line (text ":")) [
  | none ↦ (line, [])
  | some (field, value) ↦ (field, field_value value)
]

take_field : CurEvent → Text × Text → CurEvent
take_field cur (field, value) =
    if str_eq field (text "event")
    then record cur { has = true; name = value }
    else if str_eq field (text "data")
    then record cur {
      has = true;
      has_data = true;
      data_text = (if cur.has_data then cur.data_text ++ b'\n' ∷ [] else cur.data_text) ++ value;
    }
    else record cur { has = true }

emit : Parser → List Event
emit p =
    if p.cur.has
    then record { name = p.cur.name; data_text = p.cur.data_text; raw = p.cur_raw } ∷ []
    else []

-- What `finishLine` does with a line, its end and the byte order mark already cut off.
read_line : Parser → Text → Parser × List Event
unfolding split_field take_field emit
read_line p [] =
    (record p { cur = if p.cur.has then no_event else p.cur; cur_raw = []; line_start = 0 }, emit p)
read_line p (c ∷ line) =
    if c == b':'
    then (p, [])
    else (record p { cur = take_field p.cur (split_field (c ∷ line)) }, [])

byte_order_mark : Text
byte_order_mark = 0xef ∷ 0xbb ∷ 0xbf ∷ []

-- The line just ended, the mark cut off the first one.
line_of : ℕ → Parser → Text
unfolding byte_order_mark
line_of ending p =
    let line = drop p.line_start (take (length p.cur_raw - ending) p.cur_raw) in
    if p.started then line else trim_prefix line byte_order_mark

-- `finishLine`: the parser, and the event that the line completes.
pub finish_line : ℕ → Parser → Parser × List Event
unfolding read_line line_of
finish_line ending p =
    read_line (record p { line_start = length p.cur_raw; started = true }) (line_of ending p)

-- A round of the loop goes on with the bytes left, or breaks.
pub data Round : Type 0 where
  next : Parser → List Event → Text → Round
  stop : Parser → List Event → Round

pub finish_next : ℕ → Parser → List Event → Text → Round
finish_next ending p out b = let (q, evs) = finish_line ending p in next q (out ++ evs) b

-- A final CR of the last chunk: an LF that follows belongs to the same line end.
pub settle : Bool → Parser → List Event → Text → Round
unfolding finish_next
settle eof p out [] =
    if p.cr
    then if eof then finish_next 1 (record p { cr = false }) out [] else stop p out
    else next p out []
settle eof p out (c ∷ b) =
    let (q, fits) = append_raw p (c ∷ []) in
    if p.cr
    then if c == b'\n'
      then if fits then finish_next 2 (record q { cr = false }) out b else stop q out
      else finish_next 1 (record p { cr = false }) out (c ∷ b)
    else next p out (c ∷ b)

abbrev pub is_line_end : ℕ → Bool
is_line_end c = c == b'\r' || c == b'\n'

-- The bytes through the first CR or LF, whether there is one, and the bytes behind it.
pub split_line : Text → Text × Bool × Text
split_line [] = ([], false, [])
split_line (c ∷ b) =
    let (line, found, rest) = split_line b in
    if is_line_end c then (c ∷ [], true, b) else (c ∷ line, found, rest)

pub ends_in : ℕ → Text → Bool
ends_in e [] = false
ends_in e (c ∷ s) = if is_nil s then c == e else ends_in e s

-- The rest of the round: the bytes through the next line end.
pub advance : Parser → List Event → Text → Round
unfolding finish_next
advance p out [] = stop p out
advance p out (c ∷ b) =
    let (line, found, rest) = split_line (c ∷ b) in
    let (q, fits) = append_raw p line in
    if not fits || not found
    then stop q out
    else if ends_in b'\r' q.cur_raw
    then next (record q { cr = true }) out rest
    else finish_next 1 q out rest

abbrev pub Read : Type 0
Read = Parser × List Event

-- What follows a round: the end of the loop, or `go`.
abbrev pub after_round : (Parser → List Event → Text → Read) → Round → Read
after_round go (stop q evs) = (q, evs)
after_round go (next q evs rest) = go q evs rest

pub feed_loop : ℕ → Bool → Parser → List Event → Text → Read
feed_loop zero eof p out b = (p, out)
feed_loop (suc fuel) eof p out b = elim p.err [
  | true ↦ (p, out)
  | false ↦
      after_round (λ q evs c. after_round (feed_loop fuel eof) (advance q evs c))
        (settle eof p out b)
]

-- `feedChunk`. Each round but the last consumes a byte.
unfoldable pub feed_chunk : Parser → Text → Bool → Parser × List Event
unfolding feed_loop settle advance split_line append_raw ends_in finish_line
feed_chunk p b eof = feed_loop (suc (length b)) eof p [] b
