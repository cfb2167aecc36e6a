-- ===== src/Tests/Streams.antt =====
-- The engine, the validator, the spool and the headers on concrete streams.
use steady_proxy.Base.{
  if◌then◌else◌, ◌||◌, Bool, true, false, List, [], ◌∷◌, Option, none, ◌≡◌, ◌↔◌, refl, Text, text,
  arith, str_eq, to_lower, map,
}
use steady_proxy.Config.{Config}
use steady_proxy.Failure.{Header, get}
use steady_proxy.Headers.{upstream_headers, connection_tokens, member}
use steady_proxy.Headers.EndToEnd.{upstream_headers-get, proxy_owned}
use steady_proxy.Classify.Http.{running}
use steady_proxy.Sse.Parser.{Event}
use steady_proxy.Sse.Validator.{new_validator, terminal, kind_of}
use steady_proxy.Sse.Validator.Grammar.{Message, run, terminal-run}
use steady_proxy.Sse.Spool.{new_spool, contents}
use steady_proxy.Sse.Spool.Contents.{IsSound}
use steady_proxy.Sse.Wire.{CaptureStats, replayed, Ingest, WireModel}
use steady_proxy.Sse.Capture.{
  Capture, Outcome, going, returned, Input, read, keep_tick, idle_tick, Policy, is_some, start,
}
use steady_proxy.Sse.Capture as Engine
use steady_proxy.Sse.Capture.Transaction.{Kept, run-Kept}

abbrev pub small : Config
small = record {
  max_buffer_mem = 4;
  max_response_bytes = 200;
  validate_json = true;
  normalize_tool_json = true;
  sdk_retry_cap = 2;
  tx_local_retries = 2;
  local_backoff_cap = 0;
  claude_refusal_fallbacks = [];
  responses_early_commit = false;
  keepalive = 0;
  wf_keepalive = 0;
  responses_keepalive = 0;
  responses_buffer = 0;
  gemini_buffer = 0;
}

abbrev no_fault : Text → Text → Option Text
no_fault file p = none

empty-IsSound : IsSound small new_spool
unfolding contents
empty-IsSound = record { in_memory = omega arith; counted = refl; capped = omega arith }

abbrev named : Text → Event
named n = record { name = n; data_text = []; raw = [] }

abbrev message : List Event
message =
    named (text "message_start")
    ∷ named (text "content_block_start")
    ∷ named (text "ping")
    ∷ named (text "content_block_stop")
    ∷ named (text "message_stop")
    ∷ []

terminal-run_example :
    (terminal (run new_validator message) ≡ true) ↔ Message (map (λ ev. kind_of ev.name) message)
terminal-run_example = terminal-run message

-- A wire that is done at a `stop` event, and forwards the events as they are.
abbrev ingest : Bool → Event → CaptureStats → List Text → Ingest Bool
ingest w ev st fwd = record {
  wire = true;
  stats = st;
  forward = fwd;
  done = str_eq ev.name (text "stop");
  fail = none;
}

abbrev plain : WireModel Bool
plain = record {
  scrape = λ w ev st. st;
  buffered = λ w ev st. ingest w ev st [];
  complete_on_eof = λ w. false;
  live = λ w ev st. ingest w ev st (ev.raw ∷ []);
  keepalive = text ": keepalive\n\n";
  replay_buffered = λ w b st. record { wire = w; written = b ∷ []; ended = replayed };
  replay_prefix = λ w b. record { wire = w; written = b ∷ []; ended = replayed };
  forwardable = λ w. w;
}

abbrev gated : Policy
gated = record { keep_every = 5; progress_gated = true; early_commit = false; upstream_header = [] }

abbrev inputs : List Input
inputs =
    keep_tick
    ∷ read (text "event: a\n\n") none running
    ∷ keep_tick
    ∷ read (text "event: stop\n\n") none running
    ∷ []

run-Kept_example :
    Kept (Engine.run small no_fault plain gated (start small no_fault plain gated false) inputs)
run-Kept_example = run-Kept small no_fault plain gated false inputs

abbrev request : Header
request =
    (text "Connection", text "X-Debug, close" ∷ [])
    ∷ (text "X-Debug", text "1" ∷ [])
    ∷ (text "Accept", text "a" ∷ [])
    ∷ []

upstream_headers-get_example : get (upstream_headers request) (text "X-Debug") ≡ (
    if str_eq (text "X-Debug") (text "Accept-Encoding")
    then text "identity"
    else if str_eq (to_lower (text "X-Debug")) (text "accept-encoding")
        || member (to_lower (text "X-Debug")) (connection_tokens request)
        || member (to_lower (text "X-Debug")) proxy_owned
    then []
    else get request (text "X-Debug"))
upstream_headers-get_example = upstream_headers-get request (text "X-Debug")
