-- ===== src/Sse/Wire.antt =====
-- What the engine asks of a wire: `wireModel` of wire.go, with the facts of a response and the
-- bytes that reach the client.
use steady_proxy.Base.{ℕ, ℤ, pos, Bool, false, List, [], Option, none, Text}
use steady_proxy.Failure.{Failure, Header}
use steady_proxy.Sse.Parser.{Event}
use steady_proxy.Sse.Spool.{Spool}

-- The error of a read from the upstream body.
pub data ReadError : Type 0 where
  eof unexpected_eof : ReadError
  other_error : Text → ReadError

-- `captureStats`, less the tee into the request archive.
pub record CaptureStats : Type 0 where
  pub mode : Text
  pub bytes : ℕ
  pub max_ping_run : ℕ
  pub cur_ping_run : ℕ
  pub in_tok : ℤ
  pub input_tok : ℤ
  pub cache_creation_tok : ℤ
  pub cache_read_tok : ℤ
  pub start_input_tok : ℤ
  pub start_cache_creation_tok : ℤ
  pub start_cache_read_tok : ℤ
  pub delta_input_usage : Bool
  pub out_tok : ℤ
  pub stop : Text
  pub refusal_category : Text
  pub refusal_reason : Text
  pub model : Text
  pub read_err : Option ReadError
  pub held_refusal : Option Spool

abbrev pub new_stats : CaptureStats
new_stats = record {
  mode = [];
  bytes = 0;
  max_ping_run = 0;
  cur_ping_run = 0;
  in_tok = pos 0;
  input_tok = pos 0;
  cache_creation_tok = pos 0;
  cache_read_tok = pos 0;
  start_input_tok = pos 0;
  start_cache_creation_tok = pos 0;
  start_cache_read_tok = pos 0;
  delta_input_usage = false;
  out_tok = pos 0;
  stop = [];
  refusal_category = [];
  refusal_reason = [];
  model = [];
  read_err = none;
  held_refusal = none;
}

-- What the client gets: a response head of status 200, and body bytes.
pub data Sent : Type 0 where
  head : Header → Sent
  body : Text → Sent

-- How the replay of a buffer ended; `replay_too_large` is `errTooLarge`.
pub data ReplayEnd : Type 0 where
  replayed replay_too_large replay_failed : ReplayEnd

-- A replay: the wire behind it, the bytes written, and how it ended.
pub record Replay (W : Type 0) : Type 0 where
  pub wire : W
  pub written : List Text
  pub ended : ReplayEnd

-- What an event does: the wire and the facts behind it, the bytes to forward (live only), whether
-- the stream is complete, and the failure that ends it.
pub record Ingest (W : Type 0) : Type 0 where
  pub wire : W
  pub stats : CaptureStats
  pub forward : List Text
  pub done : Bool
  pub fail : Option Failure

-- `wireModel` on a state `W` of the wire. A replay reads the contents of the spool.
pub record WireModel (W : Type 0) : Type 0 where
  pub scrape : W → Event → CaptureStats → CaptureStats
  pub buffered : W → Event → CaptureStats → Ingest W
  pub complete_on_eof : W → Bool
  pub live : W → Event → CaptureStats → Ingest W
  pub keepalive : Text
  pub replay_buffered : W → Text → CaptureStats → Replay W
  pub replay_prefix : W → Text → Replay W
  pub forwardable : W → Bool
