-- ===== src/Sse/Anthropic.antt =====
-- The Anthropic wire on a stream that is not committed: `anthropicWire` and its `buffered`, of
-- wire.go.
pub mod Complete
use steady_proxy.Base.{
  ℕ, Bool, true, false, not, ◌&&◌, ◌||◌, Option, none, some, Text, text, str_eq, if◌then◌else◌,
}
use steady_proxy.Classify.Codec.{Codec}
use steady_proxy.Classify.Sse.{classify_sse_error}
use steady_proxy.Config.{Config}
use steady_proxy.Failure.{Failure, zero_failure}
use steady_proxy.Sse.Capture.{refusal_fallback_code}
use steady_proxy.Sse.Parser.{Event}
use steady_proxy.Sse.ToolJson.{
  Decoder, ToolJson, new_tool_json, accept_tool, malformed_sse, validate_sse_event_shape,
}
use steady_proxy.Sse.Validator.{Validator, new_validator, accept, terminal}

-- `anthropicWire`, less the normalizer of a live stream.
pub record AnthropicWire : Type 0 where
  pub val : Validator
  pub tool_val : ToolJson
  pub saw_progress : Bool
  pub intercept_refusal : Bool

-- `newAnthropicWire`.
abbrev pub new_anthropic_wire : Bool → AnthropicWire
new_anthropic_wire intercept = record {
  val = new_validator;
  tool_val = new_tool_json;
  saw_progress = false;
  intercept_refusal = intercept;
}

refusal_failure : Failure
refusal_failure = record zero_failure {
  status = 502;
  atype = text "api_error";
  code = refusal_fallback_code;
  message = text "model refused; retrying with fallback model";
}

-- The wire behind an event, whether the stream is complete, and the failure that ends it.
pub record Judged : Type 0 where
  pub wire : AnthropicWire
  pub is_done : Bool
  pub fail : Option Failure

module _ (cfg : Config) (codec : Codec) (json : Decoder) where
  refuse : AnthropicWire → Failure → Judged
  refuse a f = record { wire = a; is_done = false; fail = some f }

  -- The part behind the checks of the event's data; `stop` is the stop reason so far.
  validate : Event → Text → AnthropicWire → Judged
  unfolding refuse malformed_sse refusal_failure
  validate ev stop a =
      let v = accept a.val ev in
      let moved = record a { val = v } in
      let b = record moved {
        saw_progress = a.saw_progress || str_eq ev.name (text "content_block_delta");
      } in
      if v.invalid
      then refuse moved (malformed_sse (text "out-of-order stream event"))
      else if terminal v
      then if a.intercept_refusal && str_eq stop (text "refusal")
        then refuse b refusal_failure
        else record { wire = b; is_done = true; fail = none }
      else record { wire = b; is_done = false; fail = none }

  -- The tool input, where JSON is checked.
  check_tool : Event → Text → AnthropicWire → Judged
  unfolding refuse validate
  check_tool ev stop a =
      let (t, fail) = accept_tool cfg json ev a.tool_val in
      let b = record a { tool_val = t } in
      if cfg.validate_json
      then elim fail [ some f ↦ refuse b f | none ↦ validate ev stop b ]
      else validate ev stop a

  -- `buffered`.
  unfoldable pub anthropic_buffered : Event → Text → AnthropicWire → Judged
  unfolding refuse check_tool
  anthropic_buffered ev stop a =
      let shape : Option Failure =
        if cfg.validate_json then validate_sse_event_shape ev else none in
      elim shape [
        | some f ↦ refuse a f
        | none ↦
            if str_eq ev.name (text "error")
            then refuse a (classify_sse_error codec ev.data_text)
            else check_tool ev stop a
      ]
