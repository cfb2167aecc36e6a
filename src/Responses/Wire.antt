-- ===== src/Responses/Wire.antt =====
-- The wire of OpenAI Responses: `openaiWire` of responses.go. `encoding/json` into the structs of
-- `scrape` is the parameter `SnapshotLib`.
pub mod Outcome
pub mod Totals
use steady_proxy.Base.{
  ℕ, Bool, true, false, not, ◌&&◌, ◌||◌, List, [], ◌∷◌, ◌++◌, Option, none, some, ℤ, pos, ◌-ℤ◌,
  wrap64, is_positive, is_negative, Text, text, is_nil, str_eq, if◌then◌else◌,
}
use steady_proxy.Failure.{Failure, zero_failure}
use steady_proxy.Json.{JsonLib}
use steady_proxy.Responses.Event.{
  responses_event_type, responses_terminal_valid, parse_responses_error, is_responses_error_frame,
  is_responses_output_event, is_codex_recoverable_error,
}
use steady_proxy.Responses.Fault.{classify_responses_error}
use steady_proxy.Sse.Parser.{Event}
use steady_proxy.Sse.Usage.{set_input_usage}
use steady_proxy.Sse.Wire.{CaptureStats, Ingest, WireModel, Replay, replayed}

-- The decoded parts of a terminal snapshot.
pub record Snapshot : Type 0 where
  pub model : Text
  pub status : Text
  pub input : ℤ
  pub output : ℤ
  pub cached : ℤ
  pub reason : Text

-- None where `json.Unmarshal` fails; `created_model` is of the first events.
pub record SnapshotLib : Type 0 where
  pub created_model : Text → Option Text
  pub snapshot : Text → Option Snapshot

-- `openaiWire`, less the replay's limit.
pub record OpenaiWire : Type 0 where
  pub saw_content : Bool

-- `newOpenAIWire`.
abbrev pub new_openai_wire : OpenaiWire
new_openai_wire = record { saw_content = false }

-- `responsesInvalidCompleted`.
abbrev pub responses_invalid_completed : Failure
responses_invalid_completed = record zero_failure {
  transient = true;
  status = 502;
  atype = text "api_error";
  code = text "responses_invalid_completed";
  message =
      text
        "upstream terminal response snapshot is malformed (needs a response id and complete integer usage)";
}

-- The value, or what is held where it is empty.
non_empty : Text → Text → Text
non_empty v held = if is_nil v then held else v

-- `input_tokens` holds the cached part, which is taken off.
unfoldable pub split_input : ℤ → ℤ → CaptureStats → CaptureStats
split_input input cached st =
    let rest = wrap64 (input -ℤ cached) in
    if is_negative rest
    then set_input_usage (pos 0) (pos 0) input st
    else set_input_usage rest (pos 0) cached st

-- The stop field.
stop_of : Text → Snapshot → Text → Text
unfolding non_empty
stop_of typ s held =
    if str_eq typ (text "response.incomplete")
    then (if is_nil s.reason then text "incomplete" else text "incomplete:" ++ s.reason)
    else non_empty s.status held

-- The terminal events in `scrape`.
unfoldable pub scrape_snapshot : Text → Snapshot → CaptureStats → CaptureStats
unfolding stop_of non_empty
scrape_snapshot typ s st =
    let named = record st { model = non_empty s.model st.model; stop = stop_of typ s st.stop } in
    let counted = if is_positive s.input then split_input s.input s.cached named else named in
    if is_positive s.output then record counted { out_tok = s.output } else counted

-- The first events, decoded.
on_created : Option Text → CaptureStats → CaptureStats
unfolding non_empty
on_created none st = st
on_created (some model) st = record st { model = non_empty model st.model }

on_ended : Text → Option Snapshot → CaptureStats → CaptureStats
on_ended typ none st = st
on_ended typ (some s) st = scrape_snapshot typ s st

module _ (json : JsonLib) (lib : SnapshotLib) where
  -- `scrape`.
  unfoldable pub openai_scrape : Event → CaptureStats → CaptureStats
  unfolding on_created on_ended
  openai_scrape ev st =
      let typ = responses_event_type json ev in
      if str_eq typ (text "response.created") || str_eq typ (text "response.in_progress")
      then on_created (lib.created_model ev.data_text) st
      else if str_eq typ (text "response.completed")
          || str_eq typ (text "response.incomplete")
          || str_eq typ (text "response.failed")
      then on_ended typ (lib.snapshot ev.data_text) st
      else st

is_terminal : Text → Bool
is_terminal t = str_eq t (text "response.completed") || str_eq t (text "response.incomplete")

module _ (json : JsonLib) (message_delay : Text → ℕ) where
  -- `classifyResponsesFrame`: the failure, and whether Codex recovers from the frame by itself.
  unfoldable pub classify_responses_frame : Event → Text → Failure × Bool
  classify_responses_frame ev t =
      let (typ, code, msg) = parse_responses_error json ev t in
      (
        classify_responses_error message_delay typ code msg,
        str_eq t (text "response.failed") && is_codex_recoverable_error code,
      )

  -- `buffered`.
  unfoldable pub openai_buffered : OpenaiWire → Event → CaptureStats → Ingest OpenaiWire
  unfolding is_terminal
  openai_buffered o ev st =
      let t = responses_event_type json ev in
      let (fail, native) = classify_responses_frame ev t in
      let quiet : Ingest OpenaiWire = record {
        wire = o;
        stats = st;
        forward = [];
        done = false;
        fail = none;
      } in
      if is_responses_error_frame t
      then (if native then record quiet { done = true } else record quiet { fail = some fail })
      else if is_terminal t
      then (if responses_terminal_valid json ev t
          then record quiet { done = true }
          else record quiet { fail = some responses_invalid_completed })
      else if is_responses_output_event t
      then record quiet { wire = record { saw_content = true } }
      else quiet

  -- `live`.
  unfoldable pub openai_live : OpenaiWire → Event → CaptureStats → Ingest OpenaiWire
  unfolding is_terminal
  openai_live o ev st =
      let t = responses_event_type json ev in
      let (fail, native) = classify_responses_frame ev t in
      let sent : Ingest OpenaiWire = record {
        wire = o;
        stats = st;
        forward = ev.raw ∷ [];
        done = false;
        fail = none;
      } in
      if is_responses_error_frame t
      then (if fail.transient && not native
          then record sent { forward = []; fail = some fail }
          else record sent { done = true; fail = some (record fail { delivered = true }) })
      else if is_terminal t
      then (if responses_terminal_valid json ev t
          then record sent { done = true }
          else record sent { fail = some responses_invalid_completed })
      else sent

-- `keepalive`.
openai_keepalive : Text
openai_keepalive =
    text "event: response.proxy_keepalive\ndata: {\"type\":\"response.proxy_keepalive\"}\n\n"
