-- ===== src/Sse/Usage.antt =====
-- The token counts of a stream: `scrapeUsage` and `setInputUsage` of sse.go, over 64-bit integers.
-- `encoding/json` into the source's structs is the parameter `UsageLib`.
pub mod Totals
use steady_proxy.Base.{
  ℕ, Bool, true, false, not, [], ◌&&◌, ◌||◌, Option, none, some, ℤ, pos, ◌+ℤ◌, wrap64, is_positive,
  eq_ℤ, Text, text, is_nil, str_eq, if◌then◌else◌,
}
use steady_proxy.Config.{Config}
use steady_proxy.Sse.Parser.{Event}
use steady_proxy.Sse.Wire.{CaptureStats}

-- The decoded parts of a `message_start`.
pub record StartUsage : Type 0 where
  pub model : Text
  pub input : ℤ
  pub cache_creation : ℤ
  pub cache_read : ℤ

-- The decoded parts of a `message_delta`; `details` is the raw `stop_details`.
pub record DeltaUsage : Type 0 where
  pub input : ℤ
  pub cache_creation : ℤ
  pub cache_read : ℤ
  pub output : ℤ
  pub stop : Text
  pub details : Text

-- None where `json.Unmarshal` fails; `stop_details` gives category and explanation.
pub record UsageLib : Type 0 where
  pub message_start : Text → Option StartUsage
  pub message_delta : Text → Option DeltaUsage
  pub stop_details : Text → Option (Text × Text)

-- `totalInputTokens`.
unfoldable pub total_input_tokens : ℤ → ℤ → ℤ → ℤ
total_input_tokens input creation read = wrap64 (wrap64 (input +ℤ creation) +ℤ read)

-- `positiveOr`.
unfoldable pub positive_or : ℤ → ℤ → ℤ
positive_or v held = if is_positive v then v else held

-- `setInputUsage`.
unfoldable pub set_input_usage : ℤ → ℤ → ℤ → CaptureStats → CaptureStats
set_input_usage input creation read st =
    let total = total_input_tokens input creation read in
    if is_positive total
    then record st {
      input_tok = input;
      cache_creation_tok = creation;
      cache_read_tok = read;
      in_tok = total;
    }
    else st

-- `shouldBackfillMessageStartUsage`.
unfoldable pub should_backfill : Config → CaptureStats → Bool
should_backfill cfg st =
    cfg.validate_json
    && st.delta_input_usage
    && is_positive st.in_tok
    && not (
        eq_ℤ st.start_input_tok st.input_tok
        && eq_ℤ st.start_cache_creation_tok st.cache_creation_tok
        && eq_ℤ st.start_cache_read_tok st.cache_read_tok)

module _ (lib : UsageLib) where
  -- The case `message_start`.
  on_message_start : StartUsage → CaptureStats → CaptureStats
  on_message_start m st = set_input_usage m.input m.cache_creation m.cache_read (record st {
    model = if is_nil m.model then st.model else m.model;
    start_input_tok = m.input;
    start_cache_creation_tok = m.cache_creation;
    start_cache_read_tok = m.cache_read;
  })

  -- The usage of a `message_delta` overrides what is held, field by field.
  merge_usage : DeltaUsage → CaptureStats → CaptureStats
  merge_usage d st =
      if is_positive d.input || is_positive d.cache_creation || is_positive d.cache_read
      then set_input_usage (positive_or d.input st.input_tok)
          (positive_or d.cache_creation st.cache_creation_tok)
          (positive_or d.cache_read st.cache_read_tok) (record st { delta_input_usage = true })
      else st

  -- The stop reason, and the details of a refusal.
  merge_stop : DeltaUsage → CaptureStats → CaptureStats
  merge_stop d st =
      let stopped = record st { stop = d.stop; refusal_category = []; refusal_reason = [] } in
      let refused : CaptureStats = elim (lib.stop_details d.details) [
        | none ↦ stopped
        | some (category, reason) ↦ record stopped {
          refusal_category = category;
          refusal_reason = reason;
        }
      ] in
      if is_nil d.stop then st else if str_eq d.stop (text "refusal") then refused else stopped

  -- The case `message_delta`.
  on_message_delta : DeltaUsage → CaptureStats → CaptureStats
  on_message_delta d st =
      let u = merge_usage d st in
      merge_stop d (if is_positive d.output then record u { out_tok = d.output } else u)

  -- `scrapeUsage`.
  pub scrape_usage : Event → CaptureStats → CaptureStats
  scrape_usage ev st =
      let start : CaptureStats = elim (lib.message_start ev.data_text) [
        | none ↦ st
        | some m ↦ on_message_start m st
      ] in
      let delta : CaptureStats = elim (lib.message_delta ev.data_text) [
        | none ↦ st
        | some d ↦ on_message_delta d st
      ] in
      if str_eq ev.name (text "message_start")
      then start
      else if str_eq ev.name (text "message_delta")
      then delta
      else st
