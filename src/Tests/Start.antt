-- ===== src/Tests/Start.antt =====
-- The start of the proxy and of a request on small inputs.

use steady_proxy.Base.{
  true, false, List, [], ◌∷◌, Option, none, some, pos, negsuc, Text, text, str_eq, contains,
  trim_space, is_space, trim_slashes, has_prefix, trim_prefix, cut, ◌≡◌, refl, if◌then◌else◌, inl,
}
use steady_proxy.Config.{Config}
use steady_proxy.Config.Env.{
  EnvLib, Settings, read_max_buffer_mem, read_max_response_bytes, read_max_request_bytes,
  read_resp_header_to, read_upstream_byte_idle, read_keepalive, read_wf_keepalive,
  read_responses_keepalive, read_responses_buffer, read_gemini_buffer, read_responses_replay_bytes,
  read_max_request_dur, read_sdk_retry_cap, read_tx_local_retries, read_local_backoff_cap,
  parse_int64, int64, ms, str, parse_upstream, fallbacks, all_errors, settings, parse_config,
}
use steady_proxy.Config.Env.Chosen.{IsChosen, parse_config-IsChosen}
use steady_proxy.Json.{JsonLib}
use steady_proxy.Gemini.Decimal.{GeminiLib}
use steady_proxy.AccessLog.{BodyLib, request_wants_stream, is_workflow_agent}
use steady_proxy.Archive.Attempt.{Incoming}
use steady_proxy.Version.{VersionInfo, handle_version_request}
use steady_proxy.Route.{path_is, is_messages_path, is_responses_path, is_gemini_path, gemini_target}
use steady_proxy.Route.Disjoint.{count_true}
use steady_proxy.Handler.Admit.{
  Plan, plan, window_of, keepalive_window, is_gemini_stream, is_transactional, admit, deadlines_set,
  held,
}
use steady_proxy.Handler.Admit.Window.{owned_window, admit-held}
use steady_proxy.Number.{parse_digits, parse_onto}
use steady_proxy.Fallback.{load_claude_refusal_fallbacks}
use steady_proxy.Handler.Reading.{Stream, read_http_error_body, read_body, read_whole, too_big}
use steady_proxy.Handler.Reading.Agreement.{read_http_error_body-archived}
use steady_proxy.Transport.{eof, buffer_deadline, with_byte_idle}
use steady_proxy.Transport.Silence.{Visit, late, refused, reads, answered, reads-answered}

abbrev go : EnvLib
go = record {
  parse_url = λ s. some (text "https", text "h");
  equal_fold = str_eq;
  quote = λ s. s;
  temp_dir = text "/tmp";
}

-- Three variables are set.
abbrev env : Text → Option Text
env k =
    if str_eq k (text "PROXY_UPSTREAM_URL")
    then some (text "https://h/p/")
    else if str_eq k (text "PROXY_SDK_RETRY_CAP")
    then some (text " 7")
    else if str_eq k (text "PROXY_KEEPALIVE_MS")
    then some (text "5000")
    else none

negative : parse_int64 (text "-12") ≡ some (negsuc 11)
unfolding parse_int64 parse_digits parse_onto
negative = refl

abbrev started : Settings
started = settings go env

env_accepted : parse_config go env ≡ inl started
unfolding parse_config all_errors parse_upstream trim_space trim_slashes str str_eq fallbacks
    load_claude_refusal_fallbacks int64 ms parse_int64 parse_digits parse_onto is_space
    read_max_buffer_mem read_max_response_bytes read_max_request_bytes read_resp_header_to
    read_upstream_byte_idle read_keepalive read_wf_keepalive read_responses_keepalive
    read_responses_buffer read_gemini_buffer read_responses_replay_bytes read_max_request_dur
    read_sdk_retry_cap read_tx_local_retries read_local_backoff_cap
env_accepted = refl

parse_config-IsChosen_example : IsChosen go env started
parse_config-IsChosen_example = parse_config-IsChosen go env started env_accepted

abbrev failing : Stream
failing = record { pieces = text "ab" ∷ text "cd" ∷ []; fault = some (text "reset") }

capped : read_body 3 none failing ≡ too_big
unfolding read_body
capped = refl

read_http_error_body-archived_example :
    ((read_http_error_body false failing).bytes ≡ (read_http_error_body true failing).bytes)
    × ((read_http_error_body false failing).complete ≡ (read_http_error_body true failing).complete)
    × ((read_http_error_body false failing).fault ≡ (
        if (read_http_error_body true failing).complete
        then (read_http_error_body true failing).fault
        else none))
read_http_error_body-archived_example = read_http_error_body-archived failing

-- The client is slow behind the first answer; the second comes too late, and the third is not read.
abbrev slow : List Visit
slow =
    record { pull = record { wait = 3; bytes = text "a"; fault = none }; pause = 90 }
    ∷ record { pull = record { wait = 9; bytes = text "b"; fault = some eof }; pause = 1 }
    ∷ record { pull = record { wait = 1; bytes = text "c"; fault = some eof }; pause = 0 }
    ∷ []

reads-answered_example :
    reads 7 (with_byte_idle 5) slow
    ≡ record { bytes = text "a"; fault = none; waited = 3 } ∷ late 5 ∷ late 0 ∷ []
unfolding answered refused
reads-answered_example = reads-answered 5 7 slow

abbrev no_text : Text → Option Text
no_text s = none

abbrev no_json : JsonLib
no_json = record {
  is_utf8 = λ s. true;
  is_valid = λ s. false;
  entries = λ s. none;
  shape = λ s. none;
  as_string = λ s. none;
  as_int = λ s. none;
  as_list = λ s. none;
  as_map = λ s. none;
  encode_string = λ s. s;
  encode_map = λ m. [];
}

abbrev no_gemini : GeminiLib
no_gemini = record { number = λ s. none; envelope = λ s. none; envelope_array = λ s. none }

abbrev streaming : BodyLib
streaming = record {
  body_model = λ b. text "claude";
  reasoning_effort = λ b. [];
  output_effort = λ b. [];
  body_stream = λ b. true;
  body_system = λ b. some (text "workflow orchestration script");
}

abbrev windows : Config
windows = record {
  max_buffer_mem = 0;
  max_response_bytes = 1;
  validate_json = true;
  normalize_tool_json = true;
  sdk_retry_cap = 1;
  tx_local_retries = 0;
  local_backoff_cap = 0;
  claude_refusal_fallbacks = [];
  responses_early_commit = true;
  keepalive = 240;
  wf_keepalive = 10;
  responses_keepalive = 30;
  responses_buffer = 241;
  gemini_buffer = 242;
}

abbrev message : Incoming
message = record {
  method = text "POST";
  request_uri = text "/v1/messages";
  path = text "/v1/messages";
  raw_query = [];
  host = [];
  proto = [];
  content_length = pos 2;
  transfer_encoding = [];
  header = [];
  body = text "{}";
}

abbrev nameless : VersionInfo
nameless = record {
  program = [];
  version = [];
  commit = [];
  build_date = [];
  dirty = false;
  dirty_known = false;
}

abbrev held_plan : Plan
held_plan = plan windows streaming no_json no_gemini (λ q. []) 5 message (text "{}")

message_held :
    admit windows streaming no_json no_gemini
      (λ q. [])
      nameless
      5
      deadlines_set
      true
      message
      (read_whole (text "{}"))
    ≡ held held_plan
unfolding admit handle_version_request is_transactional is_gemini_stream request_wants_stream
    is_messages_path path_is gemini_target has_prefix contains str_eq cut trim_prefix
message_held = refl

held_window : held_plan.commit_by ≡ some 15
unfolding plan window_of is_gemini_stream is_messages_path is_responses_path path_is gemini_target
    has_prefix contains str_eq buffer_deadline keepalive_window is_workflow_agent cut trim_prefix
held_window = refl

admit-held_example :
    (message.method ≡ text "POST")
    × (count_true (
          is_messages_path message.path
          ∷ is_responses_path message.path
          ∷ is_gemini_path message.path
          ∷ [])
        ≡ 1)
    × (held_plan.commit_by
        ≡ buffer_deadline 5
            (owned_window windows streaming no_json no_gemini (λ q. []) message.path (text "{}")))
admit-held_example =
    admit-held windows streaming no_json no_gemini (λ q. []) nameless 5 deadlines_set true message
      (text "{}") held_plan message_held
