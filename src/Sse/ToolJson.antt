-- ===== src/Sse/ToolJson.antt =====
-- The input of tool blocks over several events: `toolJSONValidator` of sse.go, with
-- `judgeTruncatedToolInput`, `validateSSEEventShape` and `validJSONObject`. `encoding/json` is a
-- parameter.
pub mod Budget
use steady_proxy.Base.{
  ℕ, ◌+◌, ◌-◌, Bool, true, false, not, ◌&&◌, ◌||◌, List, [], ◌∷◌, ◌++◌, Option, none, some, Text,
  text, is_nil, length, any, str_eq, trim_space, ltb, ◌==◌, if◌then◌else◌, ℤ, pos, negsuc,
}
use steady_proxy.Config.{Config}
use steady_proxy.Failure.{Failure, zero_failure}
use steady_proxy.Sse.Capture.{classify_buffer_error}
use steady_proxy.Sse.Parser.{Event}
use steady_proxy.Sse.Spool.{too_large}

-- `streamPayload`.
pub record Payload : Type 0 where
  pub kind : Text
  pub index : ℤ
  pub block_type : Text
  pub block_input : Text
  pub delta_type : Text
  pub partial_json : Text
  pub stop_reason : Text

-- `decode` is `json.Unmarshal` into a `streamPayload`, `is_valid` is `json.Valid`.
pub record Decoder : Type 0 where
  pub decode : Text → Option Payload
  pub is_valid : Text → Bool

-- `toolJSONBlock`.
pub record Block : Type 0 where
  pub json_input : Bool
  pub saw_input_delta : Bool
  pub input : Text

-- `toolJSONValidator`; the map is a list with one entry per index.
pub record ToolJson : Type 0 where
  pub blocks : List (ℤ × Block)
  pub truncated : Bool
  pub input_bytes : ℕ

abbrev pub new_tool_json : ToolJson
new_tool_json = record { blocks = []; truncated = false; input_bytes = 0 }

-- `malformedSSE`.
unfoldable pub malformed_sse : Text → Failure
malformed_sse msg = record zero_failure {
  transient = true;
  status = 502;
  atype = text "api_error";
  code = text "malformed_sse";
  message = msg;
}

abbrev pub invalid_tool_input_message : Text
invalid_tool_input_message = text "invalid tool input JSON in stream event"

-- `validateSSEEventShape`.
unfoldable pub validate_sse_event_shape : Event → Option Failure
unfolding malformed_sse
validate_sse_event_shape ev =
    if str_eq ev.name (text "ping") && is_nil ev.data_text
    then none
    else if not (is_nil ev.name) && is_nil ev.data_text
    then some (malformed_sse (text "stream event missing JSON data"))
    else if is_nil ev.name && not (is_nil ev.data_text)
    then some (malformed_sse (text "stream event missing event name"))
    else none

same_index : ℤ → ℤ → Bool
same_index (pos m) (pos n) = m == n
same_index (negsuc m) (negsuc n) = m == n
same_index _ _ = false

pub block_at : ℤ → List (ℤ × Block) → Option Block
unfolding same_index
block_at i [] = none
block_at i ((j, b) ∷ bs) = let rest = block_at i bs in if same_index i j then some b else rest

pub without : ℤ → List (ℤ × Block) → List (ℤ × Block)
unfolding same_index
without i [] = []
without i ((j, b) ∷ bs) = let rest = without i bs in if same_index i j then bs else (j, b) ∷ rest

abbrev pub input_length : Option Block → ℕ
input_length none = 0
input_length (some b) = length b.input

-- `blockUsesInputJSON`.
unfoldable pub block_uses_input_json : Text → Bool
block_uses_input_json t = str_eq t (text "tool_use") || str_eq t (text "server_tool_use")

begins_object : Text → Bool
begins_object [] = false
begins_object (c ∷ s) = c == b'{'

-- `judgeTruncatedToolInput`.
pub data TruncVerdict : Type 0 where
  trunc_reject trunc_wait trunc_excused : TruncVerdict

pub judge_truncated_tool_input : Event → Payload → TruncVerdict
judge_truncated_tool_input ev p =
    let exhausted =
      str_eq p.stop_reason (text "max_tokens")
      || str_eq p.stop_reason (text "model_context_window_exceeded") in
    if str_eq ev.name (text "ping")
    then trunc_wait
    else if str_eq p.kind (text "message_delta") && exhausted
    then trunc_excused
    else trunc_reject

module _ (cfg : Config) (json : Decoder) where
  -- `validJSONObject`.
  unfoldable pub valid_json_object : Text → Bool
  unfolding begins_object
  valid_json_object p = let t = trim_space p in begins_object t && json.is_valid t

  -- The case `content_block_start`.
  on_start : Payload → ToolJson → ToolJson × Option Failure
  unfolding malformed_sse
  on_start p v =
      let previous = input_length (block_at p.index v.blocks) in
      let opened : Block = record { json_input = true; saw_input_delta = false; input = [] } in
      if not (block_uses_input_json p.block_type)
      then (v, none)
      else if not (is_nil p.block_input) && not (json.is_valid p.block_input)
      then (v, some (malformed_sse invalid_tool_input_message))
      else (
        record v {
          blocks = (p.index, opened) ∷ without p.index v.blocks;
          input_bytes = v.input_bytes - previous;
        },
        none,
      )

  -- The case `content_block_delta`.
  on_delta : Payload → ToolJson → ToolJson × Option Failure
  on_delta p v =
      let held : Text = elim (block_at p.index v.blocks) [ none ↦ [] | some b ↦ b.input ] in
      let is_json : Bool = elim (block_at p.index v.blocks) [
        | none ↦ true
        | some b ↦ b.json_input
      ] in
      let b : Block = record {
        json_input = is_json;
        saw_input_delta = true;
        input = held ++ p.partial_json;
      } in
      if not (str_eq p.delta_type (text "input_json_delta"))
      then (v, none)
      else if ltb cfg.max_response_bytes (v.input_bytes + length p.partial_json)
      then (v, some (classify_buffer_error too_large))
      else (
        record v {
          blocks = (p.index, b) ∷ without p.index v.blocks;
          input_bytes = v.input_bytes + length p.partial_json;
        },
        none,
      )

  -- The case `content_block_stop`.
  on_stop : Payload → ToolJson → ToolJson × Option Failure
  unfolding valid_json_object
  on_stop p v = elim (block_at p.index v.blocks) [
    | none ↦ (v, none)
    | some b ↦
        let cut =
          b.json_input
          && b.saw_input_delta
          && not (is_nil b.input)
          && not (valid_json_object b.input) in
        (
          record v {
            blocks = without p.index v.blocks;
            truncated = v.truncated || cut;
            input_bytes = v.input_bytes - length b.input;
          },
          none,
        )
  ]

  -- The switch on the type.
  on_payload : Payload → ToolJson → ToolJson × Option Failure
  unfolding on_start on_delta on_stop
  on_payload p v =
      if str_eq p.kind (text "content_block_start")
      then on_start p v
      else if str_eq p.kind (text "content_block_delta")
      then on_delta p v
      else if str_eq p.kind (text "content_block_stop")
      then on_stop p v
      else (v, none)

  on_truncated : TruncVerdict → ToolJson → ToolJson × Option Failure
  unfolding malformed_sse
  on_truncated trunc_wait v = (v, none)
  on_truncated trunc_excused v = (record v { truncated = false }, none)
  on_truncated trunc_reject v = (v, some (malformed_sse invalid_tool_input_message))

  -- `accept`.
  unfoldable pub accept_tool : Event → ToolJson → ToolJson × Option Failure
  unfolding on_payload on_truncated judge_truncated_tool_input
  accept_tool ev v = elim (json.decode ev.data_text) [
    | none ↦
        if is_nil ev.data_text
        then (v, none)
        else (v, some (malformed_sse (text "invalid JSON in stream event")))
    | some p ↦
        let unfinished = any (λ e. e.1.saw_input_delta) v.blocks in
        if is_nil ev.data_text
        then (v, none)
        else if str_eq ev.name (text "message_stop") && unfinished
        then (v, some (malformed_sse invalid_tool_input_message))
        else if v.truncated
        then on_truncated (judge_truncated_tool_input ev p) v
        else on_payload p v
  ]
