-- ===== src/Tests/Anthropic.antt =====
-- The Anthropic wire and its tool input on concrete events.
use steady_proxy.Base.{
  true, false, List, [], ◌∷◌, map, none, some, ◌≡◌, refl, Text, text, pos, arith, str_eq,
}
use steady_proxy.Classify.Codec.{Codec}
use steady_proxy.Sse.Anthropic.{new_anthropic_wire, anthropic_buffered}
use steady_proxy.Sse.Anthropic.Complete.{completes, completes-Message}
use steady_proxy.Sse.Parser.{Event}
use steady_proxy.Sse.ToolJson.{Decoder, ToolJson, accept_tool, validate_sse_event_shape}
use steady_proxy.Sse.ToolJson.Budget.{Counted, accept_tool-Counted}
use steady_proxy.Sse.Validator.{kind_of, accept, accept_kind, terminal}
use steady_proxy.Sse.Validator.Grammar.{Message}
use steady_proxy.Tests.Streams.{small}

abbrev no_codec : Codec
no_codec = record {
  json_valid = λ b. true;
  error_fields = λ b. record { kind = []; code = []; message = [] };
  stripped_url = λ u. none;
  parse_time = λ t. none;
  now = 0;
}

-- Every event is a delta of tool input, with its own data as the fragment.
abbrev deltas : Decoder
deltas = record {
  decode = λ d. some (record {
    kind = text "content_block_delta";
    index = pos 0;
    block_type = [];
    block_input = [];
    delta_type = text "input_json_delta";
    partial_json = d;
    stop_reason = [];
  });
  is_valid = λ b. true;
}

abbrev with_data : Text → Text → Event × Text
with_data n d = (record { name = n; data_text = d; raw = [] }, [])

abbrev filled : ToolJson
filled = record {
  blocks = (pos 0, record { json_input = true; saw_input_delta = true; input = text "{" }) ∷ [];
  truncated = false;
  input_bytes = 1;
}

accept_tool-Counted_example :
    Counted small
      (accept_tool small deltas (with_data (text "content_block_delta") (text "}")).0 filled).0
accept_tool-Counted_example =
    accept_tool-Counted small deltas (with_data (text "content_block_delta") (text "}")).0 filled
      (refl, omega arith)

-- Payloads of no kind.
abbrev plain_json : Decoder
plain_json = record {
  decode = λ d. some (record {
    kind = d;
    index = pos 0;
    block_type = [];
    block_input = [];
    delta_type = [];
    partial_json = [];
    stop_reason = [];
  });
  is_valid = λ b. true;
}

abbrev message_events : List (Event × Text)
message_events =
    with_data (text "message_start") (text "a")
    ∷ with_data (text "content_block_start") (text "a")
    ∷ with_data (text "content_block_delta") (text "a")
    ∷ with_data (text "content_block_stop") (text "a")
    ∷ with_data (text "message_stop") (text "a")
    ∷ []

message_completes :
    completes small no_codec plain_json message_events (new_anthropic_wire false) ≡ true
unfolding completes anthropic_buffered str_eq accept accept_kind kind_of terminal
    validate_sse_event_shape accept_tool
message_completes = refl

completes-Message_example : Message (map (λ ev. kind_of ev.name) (map (λ e. e.0) message_events))
completes-Message_example =
    completes-Message small no_codec plain_json false message_events message_completes

abbrev overloaded : Codec
overloaded = record no_codec {
  error_fields = λ b. record { kind = text "overloaded_error"; code = []; message = b };
}
