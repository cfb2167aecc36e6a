-- ===== src/Sse/Normalizer.antt =====
-- `toolJSONReplayNormalizer` of sse.go: the input of a tool block, one delta at the end of the block.
-- JSON is decoded and encoded by parameters. A frame is the event as it was, or a delta of its own.
pub mod Pending
use steady_proxy.Base.{
  ℕ, ◌+◌, ◌-◌, Bool, true, false, not, ◌&&◌, ◌||◌, List, [], ◌∷◌, ◌++◌, map, Option, none, some, ℤ,
  eq_ℤ, Text, text, is_nil, length, str_eq, ltb, if◌then◌else◌,
}
use steady_proxy.Config.{Config}
use steady_proxy.Sse.Parser.{Event}
use steady_proxy.Sse.ToolJson.{
  Payload, Decoder, TruncVerdict, trunc_reject, trunc_wait, trunc_excused,
  judge_truncated_tool_input, block_uses_input_json, valid_json_object,
}

-- What goes out.
pub data Frame : Type 0 where
  as_it_was : Text → Frame
  input_delta : ℤ → Text → Frame

-- `encodeSSEFrame` of `toolInputDeltaEvent`, with the encoder of its JSON.
unfoldable pub render_frame : (ℤ → Text → Text) → Frame → Text
render_frame encode (as_it_was raw) = raw
render_frame encode (input_delta i partial) =
    text "event: content_block_delta\ndata: " ++ (encode i partial ++ text "\n\n")

-- `toolReplayBlock`; the JSON input flag is always set.
pub record ReplayBlock : Type 0 where
  pub saw_input_delta : Bool
  pub input : Text
  pub raw_deltas : List Text
  pub raw_bytes : ℕ

abbrev pub new_block : ReplayBlock
new_block = record { saw_input_delta = false; input = []; raw_deltas = []; raw_bytes = 0 }

-- `toolJSONReplayNormalizer`; the map of blocks is a list.
pub record Normalizer : Type 0 where
  pub blocks : List (ℤ × ReplayBlock)
  pub retained_bytes : ℕ
  pub held : Option (List Frame)
  pub held_bytes : ℕ

abbrev pub new_normalizer : Normalizer
new_normalizer = record { blocks = []; retained_bytes = 0; held = none; held_bytes = 0 }

-- The errors of `accept`.
pub data NormError : Type 0 where
  frame_too_large invalid_tool_json undecodable : NormError

pub record Normalized : Type 0 where
  pub norm : Normalizer
  pub out : List Frame
  pub error : Option NormError

unfoldable pub block_of : ℤ → List (ℤ × ReplayBlock) → Option ReplayBlock
block_of i [] = none
block_of i ((j, b) ∷ bs) = let rest = block_of i bs in if eq_ℤ i j then some b else rest

unfoldable pub drop_block : ℤ → List (ℤ × ReplayBlock) → List (ℤ × ReplayBlock)
drop_block i [] = []
drop_block i ((j, b) ∷ bs) = let rest = drop_block i bs in if eq_ℤ i j then rest else (j, b) ∷ rest

abbrev pub bytes_of : Option ReplayBlock → ℕ
bytes_of none = 0
bytes_of (some b) = b.raw_bytes

-- `takeBlock`, less the block.
unfoldable pub take_block : ℤ → Normalizer → Normalizer
take_block i n = record n {
  blocks = drop_block i n.blocks;
  retained_bytes = n.retained_bytes - bytes_of (block_of i n.blocks);
}

abbrev pub or_new : Option ReplayBlock → ReplayBlock
or_new none = new_block
or_new (some b) = b

-- A block with one more delta: only an input that is empty all along keeps its events.
unfoldable pub extended : Text → Text → ReplayBlock → ReplayBlock
extended raw partial b = record {
  saw_input_delta = true;
  input = b.input ++ partial;
  raw_deltas =
      if not (is_nil partial)
      then []
      else if is_nil b.input
      then b.raw_deltas ++ raw ∷ []
      else b.raw_deltas;
  raw_bytes = b.raw_bytes + length raw;
}

emit : List Frame → Normalizer → Normalized
emit out n = record { norm = n; out = out; error = none }

stop_with : NormError → Normalizer → Normalized
stop_with e n = record { norm = n; out = []; error = some e }

module _ (cfg : Config) (json : Decoder) (encode : ℤ → Text → Text) where
  -- The part for the events behind a held block.
  unfoldable pub on_held : List Frame → TruncVerdict → Text → Normalizer → Normalized
  unfolding emit stop_with
  on_held frames trunc_wait raw n =
      if ltb cfg.max_response_bytes (n.retained_bytes + length raw)
      then stop_with frame_too_large n
      else emit [] (record n {
        held = some (frames ++ as_it_was raw ∷ []);
        retained_bytes = n.retained_bytes + length raw;
        held_bytes = n.held_bytes + length raw;
      })
  on_held frames trunc_excused raw n =
      emit (frames ++ as_it_was raw ∷ [])
        (record n { held = none; retained_bytes = n.retained_bytes - n.held_bytes; held_bytes = 0 })
  on_held frames trunc_reject raw n = stop_with invalid_tool_json n

  -- The case `content_block_start`.
  unfoldable pub norm_start : Payload → Text → Normalizer → Normalized
  unfolding take_block emit
  norm_start p raw n =
      let t = take_block p.index n in
      if block_uses_input_json p.block_type
      then emit (as_it_was raw ∷ []) (record t { blocks = (p.index, new_block) ∷ t.blocks })
      else emit (as_it_was raw ∷ []) n

  -- The case `content_block_delta`.
  unfoldable pub norm_delta : Payload → Text → Normalizer → Normalized
  unfolding emit stop_with extended
  norm_delta p raw n =
      let b = extended raw p.partial_json (or_new (block_of p.index n.blocks)) in
      if not (str_eq p.delta_type (text "input_json_delta"))
      then emit (as_it_was raw ∷ []) n
      else if ltb cfg.max_response_bytes (n.retained_bytes + length raw)
      then stop_with frame_too_large n
      else emit [] (record n {
        blocks = (p.index, b) ∷ drop_block p.index n.blocks;
        retained_bytes = n.retained_bytes + length raw;
      })

  -- A block whose input is not valid waits for the next event.
  unfoldable pub hold : ℤ → Text → Text → Normalizer → Normalized
  unfolding emit stop_with render_frame
  hold i input raw t =
      let size = length (render_frame encode (input_delta i input)) + length raw in
      if ltb cfg.max_response_bytes (t.retained_bytes + size)
      then stop_with frame_too_large t
      else emit [] (record t {
        held = some (input_delta i input ∷ as_it_was raw ∷ []);
        held_bytes = size;
        retained_bytes = t.retained_bytes + size;
      })

  -- The case `content_block_stop`, behind `takeBlock`.
  unfoldable pub norm_stop : ℤ → Option ReplayBlock → Text → Normalizer → Normalized
  unfolding emit hold
  norm_stop i none raw t = emit (as_it_was raw ∷ []) t
  norm_stop i (some b) raw t =
      if not b.saw_input_delta
      then emit (as_it_was raw ∷ []) t
      else if is_nil b.input
      then emit (map as_it_was b.raw_deltas ++ as_it_was raw ∷ []) t
      else if not (valid_json_object cfg json b.input)
      then hold i b.input raw t
      else emit (input_delta i b.input ∷ as_it_was raw ∷ []) t

  -- The switch on the type.
  unfoldable pub norm_payload : Payload → Text → Normalizer → Normalized
  unfolding norm_start norm_delta norm_stop take_block emit
  norm_payload p raw n =
      if str_eq p.kind (text "content_block_start")
      then norm_start p raw n
      else if str_eq p.kind (text "content_block_delta")
      then norm_delta p raw n
      else if str_eq p.kind (text "content_block_stop")
      then norm_stop p.index (block_of p.index n.blocks) raw (take_block p.index n)
      else emit (as_it_was raw ∷ []) n

  -- The payload of an event, the zero one where it has no data.
  unfoldable pub payload_of : Event → Option Payload
  payload_of ev =
      let zero_payload : Payload = record {
        kind = [];
        index = ℤ.pos 0;
        block_type = [];
        block_input = [];
        delta_type = [];
        partial_json = [];
        stop_reason = [];
      } in
      if is_nil ev.data_text then some zero_payload else json.decode ev.data_text

  pub norm_decoded : Event → Option Payload → Option (List Frame) → Text → Normalizer → Normalized
  unfolding on_held norm_payload emit stop_with
  norm_decoded ev none held raw n = stop_with undecodable n
  norm_decoded ev (some p) (some frames) raw n =
      on_held frames (judge_truncated_tool_input ev p) raw n
  norm_decoded ev (some p) none raw n =
      if is_nil ev.data_text then emit (as_it_was raw ∷ []) n else norm_payload p raw n

  -- `accept`.
  unfoldable pub normalize : Event → Text → Normalizer → Normalized
  unfolding norm_decoded payload_of emit
  normalize ev raw n =
      if not (cfg.validate_json && cfg.normalize_tool_json)
      then emit (as_it_was raw ∷ []) n
      else norm_decoded ev (payload_of ev) n.held raw n
