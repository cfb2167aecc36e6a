-- ===== src/Sse/AnthropicLive.antt =====
-- The live half of `anthropicWire` (wire.go): `live`, with the normalizer of tool input.
pub mod Frames
use steady_proxy.Base.{
  ℕ, Bool, true, false, not, ◌&&◌, ◌||◌, List, [], ◌∷◌, map, Option, none, some, ℤ, Text, text,
  str_eq, if◌then◌else◌,
}
use steady_proxy.Classify.Codec.{Codec}
use steady_proxy.Classify.Sse.{classify_sse_error}
use steady_proxy.Config.{Config}
use steady_proxy.Failure.{Failure}
use steady_proxy.Sse.Anthropic.{AnthropicWire}
use steady_proxy.Sse.Capture.{classify_buffer_error}
use steady_proxy.Sse.Normalizer.{
  Frame, as_it_was, Normalizer, NormError, frame_too_large, invalid_tool_json, undecodable,
  Normalized, normalize, render_frame,
}
use steady_proxy.Sse.Parser.{Event}
use steady_proxy.Sse.Spool.{too_large}
use steady_proxy.Sse.ToolJson.{
  Decoder, accept_tool, validate_sse_event_shape, malformed_sse, invalid_tool_input_message,
}
use steady_proxy.Sse.Validator.{accept, terminal}

-- The fields of `anthropicWire` that only `live` uses, beside the others.
pub record LiveWire : Type 0 where
  pub base : AnthropicWire
  pub tool_norm : Normalizer
  pub stream_tool_deltas : Bool

-- What `live` returns: the wire, the bytes to forward, whether the stream is complete, the failure.
pub record Lived : Type 0 where
  pub wire : LiveWire
  pub forward : List Text
  pub is_done : Bool
  pub fail : Option Failure

-- The failure of an error of the normalizer.
unfoldable pub failure_of_norm : NormError → Failure
failure_of_norm frame_too_large = classify_buffer_error too_large
failure_of_norm invalid_tool_json = malformed_sse invalid_tool_input_message
failure_of_norm undecodable = malformed_sse (text "invalid JSON in stream event")

drop_with : LiveWire → Failure → Lived
drop_with w f = record { wire = w; forward = []; is_done = false; fail = some f }

module _ (cfg : Config) (codec : Codec) (json : Decoder) (encode : ℤ → Text → Text) where
  -- The validator takes the event.
  validated : Event → LiveWire → LiveWire
  validated ev w = let a = w.base in record w { base = record a { val = accept a.val ev } }

  -- Behind the normalizer.
  after_norm : Event → Option NormError → List Frame → LiveWire → Lived
  unfolding drop_with validated
  after_norm ev (some e) frames w = drop_with w (failure_of_norm e)
  after_norm ev none frames w =
      let v = validated ev w in
      record {
        wire = v;
        forward = map (render_frame encode) frames;
        is_done = str_eq ev.name (text "message_stop") || terminal v.base.val;
        fail = none;
      }

  -- The part behind the checks.
  forward_event : Event → LiveWire → Lived
  unfolding after_norm validated
  forward_event ev w =
      let r = normalize cfg json encode ev ev.raw w.tool_norm in
      if w.stream_tool_deltas
      then record {
        wire = validated ev w;
        forward = ev.raw ∷ [];
        is_done = str_eq ev.name (text "message_stop");
        fail = none;
      }
      else after_norm ev r.error r.out (record w { tool_norm = r.norm })

  after_tool : Event → Option Failure → LiveWire → Lived
  unfolding drop_with forward_event
  after_tool ev (some f) w = drop_with w f
  after_tool ev none w = forward_event ev w

  -- An error of the upstream: a final one is delivered.
  on_error : Event → LiveWire → Lived
  unfolding drop_with
  on_error ev w =
      let f = classify_sse_error codec ev.data_text in
      if f.transient then drop_with w f else record {
        wire = w;
        forward = ev.raw ∷ [];
        is_done = false;
        fail = some (record f { delivered = true });
      }

  after_shape : Event → Option Failure → LiveWire → Lived
  unfolding drop_with after_tool forward_event on_error
  after_shape ev (some f) w = drop_with w f
  after_shape ev none w =
      let (t, fail) = accept_tool cfg json ev w.base.tool_val in
      let a = w.base in
      let checked = record w { base = record a { tool_val = t } } in
      if str_eq ev.name (text "error")
      then on_error ev w
      else if cfg.validate_json
      then after_tool ev fail checked
      else forward_event ev w

  -- `live`.
  unfoldable pub anthropic_live : Event → LiveWire → Lived
  unfolding after_shape
  anthropic_live ev w =
      after_shape ev (if cfg.validate_json then validate_sse_event_shape ev else none) w
