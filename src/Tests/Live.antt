-- ===== src/Tests/Live.antt =====
-- The normalizer of tool input and the live half of the Anthropic wire on small streams.
use steady_proxy.Base.{
  eq_ℤ, ◌++◌, true, false, List, [], ◌∷◌, none, some, ℤ, pos, Text, text, str_eq, trim_space, ◌≡◌,
  refl,
}
use steady_proxy.Classify.Codec.{Codec}
use steady_proxy.Config.{Config}
use steady_proxy.Sse.Anthropic.{new_anthropic_wire}
use steady_proxy.Sse.AnthropicLive.{LiveWire, anthropic_live}
use steady_proxy.Sse.AnthropicLive.Frames.{Treated, is_final_error, anthropic_live-Treated}
use steady_proxy.Classify.Sse.{classify_sse_error}
use steady_proxy.Sse.Normalizer.{
  new_normalizer, normalize, block_of, drop_block, take_block, render_frame,
}
use steady_proxy.Sse.Normalizer.Pending.{frames_text, pending}
use steady_proxy.Sse.Normalizer.Pending.Runs.{run, brought, all_fresh, run-brought}
use steady_proxy.Sse.Parser.{Event}
use steady_proxy.Sse.ToolJson.{Payload, Decoder, block_uses_input_json, valid_json_object}

abbrev checked : Config
checked = record {
  max_buffer_mem = 100;
  max_response_bytes = 1000;
  validate_json = true;
  normalize_tool_json = true;
  sdk_retry_cap = 2;
  tx_local_retries = 2;
  local_backoff_cap = 0;
  claude_refusal_fallbacks = [];
  responses_early_commit = false;
  keepalive = 0;
  wf_keepalive = 0;
  responses_keepalive = 0;
  responses_buffer = 0;
  gemini_buffer = 0;
}

abbrev payload : Text → Text → Payload
payload kind partial = record {
  kind = kind;
  index = pos 1;
  block_type = text "tool_use";
  block_input = [];
  delta_type = text "input_json_delta";
  partial_json = partial;
  stop_reason = [];
}

-- The data is the type of the event; a delta brings a brace.
abbrev by_kind : Decoder
by_kind = record { decode = λ s. some (payload s (text "{")); is_valid = λ s. true }

abbrev encode : ℤ → Text → Text
encode i partial = partial

abbrev of_kind : Text → Event
of_kind k = record { name = k; data_text = k; raw = k }

abbrev tool_use : List Event
tool_use =
    of_kind (text "content_block_start")
    ∷ of_kind (text "content_block_delta")
    ∷ of_kind (text "content_block_delta")
    ∷ of_kind (text "content_block_stop")
    ∷ []

tool_use-fresh : all_fresh checked by_kind encode tool_use new_normalizer ≡ true
unfolding all_fresh run normalize str_eq block_uses_input_json valid_json_object block_of drop_block
    take_block render_frame trim_space
tool_use-fresh = refl

tool_use-error : (run checked by_kind encode tool_use new_normalizer).error ≡ none
unfolding all_fresh run normalize str_eq block_uses_input_json valid_json_object block_of drop_block
    take_block render_frame trim_space eq_ℤ
tool_use-error = refl

run-brought_example :
    frames_text (pos 1) (run checked by_kind encode tool_use new_normalizer).out
      ++ pending (pos 1) (run checked by_kind encode tool_use new_normalizer).norm
    ≡ brought checked by_kind encode (pos 1) tool_use new_normalizer
run-brought_example =
    run-brought checked by_kind encode (pos 1) tool_use refl tool_use-fresh tool_use-error

abbrev deaf : Codec
deaf = record {
  json_valid = λ b. false;
  error_fields = λ b. record { kind = text "invalid_request_error"; code = []; message = [] };
  stripped_url = λ u. none;
  parse_time = λ v. none;
  now = 0;
}

abbrev live_wire : LiveWire
live_wire = record {
  base = new_anthropic_wire false;
  tool_norm = new_normalizer;
  stream_tool_deltas = false;
}

anthropic_live-Treated_example :
    Treated
      (is_final_error checked deaf by_kind encode (of_kind (text "error")))
      (of_kind (text "error"))
      (classify_sse_error deaf (of_kind (text "error")).data_text)
      (anthropic_live checked deaf by_kind encode (of_kind (text "error")) live_wire)
anthropic_live-Treated_example =
    anthropic_live-Treated checked deaf by_kind encode (of_kind (text "error")) live_wire
