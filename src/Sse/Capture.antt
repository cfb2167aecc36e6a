-- ===== src/Sse/Capture.antt =====
-- The transactional engine of sse.go: `captureSSECore` and what it calls. The goroutine, the
-- timers and the context are the environment's: they offer one `Input` at a time to `step`. The
-- archive tee and flushes are not modelled.
pub mod Transaction
use mathlib.Core.List.{map}
use steady_proxy.Base.{
  ℕ, suc, ◌+◌, Bool, true, false, not, ◌&&◌, ◌||◌, List, [], ◌∷◌, ◌++◌, Option, none, some, Text,
  text, length, str_eq, ltb, ◌==◌, if◌then◌else◌,
}
use steady_proxy.Classify.Http.{
  ContextEnd, running, deadline_exceeded, canceled, deadline_failure, client_gone_failure,
}
use steady_proxy.Config.{Config}
use steady_proxy.Failure.{Failure, Header, zero_failure}
use steady_proxy.Headers.{safe_response_headers, keep}
use steady_proxy.Sse.Parser.{Parser, Event, feed_chunk, new_parser}
use steady_proxy.Sse.Spool.{
  Spool, new_spool, WriteError, no_error, too_large, disk_fault, write, contents,
}
use steady_proxy.Sse.Wire.{
  ReadError, eof, unexpected_eof, other_error, CaptureStats, new_stats, Sent, head, body, ReplayEnd,
  replayed, replay_too_large, replay_failed, Replay, Ingest, WireModel,
}

bad_gateway : Bool → Text → Text → Failure
bad_gateway retried code msg = record zero_failure {
  transient = retried;
  status = 502;
  atype = text "api_error";
  code = code;
  message = msg;
}

-- `classifyBufferError`.
pub classify_buffer_error : WriteError → Failure
unfolding bad_gateway
classify_buffer_error (disk_fault msg) =
    bad_gateway true (text "spool_error") (text "buffering upstream response: " ++ msg)
classify_buffer_error e =
    bad_gateway false (text "response_too_large") (text "response exceeded proxy buffer cap")

replay_failure : ReplayEnd → Option Failure
unfolding bad_gateway classify_buffer_error
replay_failure replayed = none
replay_failure replay_too_large = some (classify_buffer_error too_large)
replay_failure replay_failed =
    some
      (bad_gateway true (text "response_replay_failed") (text "failed replaying buffered response"))

idle_failure : Failure
idle_failure = record zero_failure {
  transient = true;
  status = 504;
  atype = text "timeout_error";
  code = text "upstream_idle";
  message = text "upstream stalled with no bytes";
}

-- The failure of a context that is done.
context_failure : ContextEnd → Failure
context_failure deadline_exceeded = deadline_failure
context_failure ended = record client_gone_failure { message = text "context done" }

-- The failure of `onReadErr`.
read_failure : ReadError → ContextEnd → Failure
unfolding bad_gateway
read_failure e deadline_exceeded = deadline_failure
read_failure e canceled = client_gone_failure
read_failure (other_error msg) running = bad_gateway true (text "stream_read_error") msg
read_failure e running =
    bad_gateway true (text "truncated_stream") (text "stream ended before a complete response")

-- `refusalFallbackCode`.
abbrev pub refusal_fallback_code : Text
refusal_fallback_code = text "refusal_fallback"

-- The variables of `captureSSECore`; `sent` is what the client got so far, and `grace_elapsed`
-- that the window has run out once.
pub record Capture (W : Type 0) : Type 0 where
  pub wire : W
  pub spool : Spool
  pub parser : Parser
  pub stats : CaptureStats
  pub sent : List Sent
  pub committed : Bool
  pub head_written : Bool
  pub grace_elapsed : Bool

-- Where the engine stands: still capturing, or returned with `wrote` and `fail`.
pub data Outcome (W : Type 0) : Type 0 where
  going : Capture W → Outcome W
  returned : Bool → Option Failure → Capture W → Outcome W

-- What the environment offers: a read with its bytes and error and the context at that time, a
-- tick of the keepalive timer or of the idle timer, or the end of the context.
pub data Input : Type 0 where
  read : Text → Option ReadError → ContextEnd → Input
  keep_tick idle_tick : Input
  context_done : ContextEnd → Input

-- The parameters of a call: the window, and the two commit policies.
pub record Policy : Type 0 where
  pub keep_every : ℕ
  pub progress_gated : Bool
  pub early_commit : Bool
  pub upstream_header : Header

abbrev pub is_some {ℓ} : {A : Type ℓ} → Option A → Bool
is_some none = false
is_some (some a) = true

bodies : List Text → List Sent
bodies = map body

-- The headers that `writeStreamHead` commits.
stream_head : Header → Text → Header
stream_head h mode =
    (text "Content-Type", text "text/event-stream" ∷ [])
    ∷ (text "X-Steady-Proxy-Mode", mode ∷ [])
    ∷ keep
        (λ k. not (
          str_eq k (text "content-encoding")
          || str_eq k (text "content-type")
          || str_eq k (text "x-steady-proxy-mode")))
        (safe_response_headers h false)

module _ {W : Type 0} (cfg : Config) (disk : Text → Text → Option Text) (m : WireModel W)
    (pol : Policy) where
  -- The variables at the start; `max_response_bytes` bounds an event, and is at least 1.
  pub start : W → Capture W
  start w = record {
    wire = w;
    spool = new_spool;
    parser = new_parser (if cfg.max_response_bytes == 0 then 1 else cfg.max_response_bytes);
    stats = new_stats;
    sent = [];
    committed = false;
    head_written = false;
    grace_elapsed = false;
  }

  -- `writeHead` and `writeStreamHead`.
  write_head : Text → Capture W → Capture W
  write_head mode s = if s.head_written then s else record s {
    sent = s.sent ++ head (stream_head pol.upstream_header mode) ∷ [];
    head_written = true;
    stats = record (s.stats) { mode = mode };
  }

  send : List Text → Capture W → Capture W
  send ps s = record s { sent = s.sent ++ bodies ps }

  -- `replayCaptured`: the whole buffer, at the end of the stream.
  replay_captured : Capture W → Outcome W
  unfolding write_head send replay_failure
  replay_captured s =
      let h = write_head (text "buffered") s in
      let r = m.replay_buffered h.wire (contents h.spool) h.stats in
      returned true (replay_failure r.ended) (send r.written (record h { wire = r.wire }))

  -- `commitLive`: the head and the buffered prefix.
  commit_live : Capture W → Capture W × Option Failure
  unfolding write_head send replay_failure
  commit_live s =
      let h = write_head (text "live") s in
      let r = m.replay_prefix h.wire (contents h.spool) in
      (send r.written (record h { wire = r.wire; committed = true }), replay_failure r.ended)

  -- The facts of an event, on either path.
  observe : Event → Capture W → Capture W
  observe ev s =
      let st = s.stats in
      let run = if str_eq ev.name (text "ping") then suc st.cur_ping_run else 0 in
      let longest = if ltb st.max_ping_run run then run else st.max_ping_run in
      let st' = record st {
        bytes = st.bytes + length ev.raw;
        cur_ping_run = run;
        max_ping_run = longest;
      } in
      record s { stats = m.scrape s.wire ev st' }

  -- An event of a committed stream.
  live_event : Event → Capture W → Outcome W
  unfolding send
  live_event ev s =
      let r = m.live s.wire ev s.stats in
      let t = send r.forward (record s { wire = r.wire; stats = r.stats }) in
      let quiet : Capture W = elim r.forward [ [] ↦ send (m.keepalive ∷ []) t | p ∷ ps ↦ t ] in
      elim r.fail [
        | some f ↦ returned true (some f) t
        | none ↦ if r.done then returned true none quiet else going quiet
      ]

  -- A complete refusal is kept for the caller; any other failure drops the buffer.
  buffered_failure : Event → Failure → Capture W → Outcome W
  unfolding classify_buffer_error
  buffered_failure ev f s =
      let (sp, e) = write cfg disk s.spool ev.raw in
      if str_eq f.code refusal_fallback_code
      then elim e [
        | no_error ↦
            returned false (some f)
              (record s { spool = sp; stats = record (s.stats) { held_refusal = some sp } })
        | other ↦ returned false (some (classify_buffer_error other)) s
      ]
      else returned false (some f) s

  -- The event goes into the spool once the wire has accepted it.
  store_event : Event → Bool → Capture W → Outcome W
  unfolding classify_buffer_error replay_captured
  store_event ev done s =
      let (sp, e) = write cfg disk s.spool ev.raw in
      let t = record s { spool = sp } in
      elim e [
        | no_error ↦ if done then replay_captured t else going t
        | other ↦ returned false (some (classify_buffer_error other)) t
      ]

  -- An event of a stream that is not committed.
  buffered_event : Event → Capture W → Outcome W
  unfolding buffered_failure store_event
  buffered_event ev s =
      let r = m.buffered s.wire ev s.stats in
      let t = record s { wire = r.wire; stats = r.stats } in
      elim r.fail [ some f ↦ buffered_failure ev f t | none ↦ store_event ev r.done t ]

  one_event : Event → Capture W → Outcome W
  unfolding observe live_event buffered_event
  one_event ev s =
      let t = observe ev s in if t.committed then live_event ev t else buffered_event ev t

  -- A return ends the engine; else it goes on.
  then_go : (Capture W → Outcome W) → Outcome W → Outcome W
  then_go go (going s) = go s
  then_go go (returned wrote fail s) = returned wrote fail s

  -- `process`, less the check of the parser.
  process : List Event → Capture W → Outcome W
  process [] s = going s
  process (ev ∷ evs) s = then_go (process evs) (one_event ev s)

  -- The parser's own failure, behind the events that it still emitted.
  check_parser : Capture W → Outcome W
  unfolding classify_buffer_error
  check_parser s =
      if s.parser.err
      then returned s.committed (some (classify_buffer_error too_large)) s
      else going s

  -- No event is left open, and the last line is ended.
  at_boundary : Parser → Bool
  at_boundary p = not p.cur.has && p.line_start == length p.cur_raw

  -- The read failed or ended.
  end_of_read : ReadError → ContextEnd → Capture W → Outcome W
  unfolding at_boundary replay_captured read_failure
  end_of_read e ended s =
      let alive : Bool = elim ended [ running ↦ true | _ ↦ false ] in
      let clean : Bool = elim e [ eof ↦ true | _ ↦ false ] in
      if clean && alive && at_boundary s.parser && m.complete_on_eof s.wire
      then if s.committed then returned true none s else replay_captured s
      else returned s.committed (some (read_failure e ended)) s

  commit_then : (Capture W → Outcome W) → Capture W → Outcome W
  unfolding commit_live
  commit_then go s =
      let (t, fail) = commit_live s in elim fail [ some f ↦ returned true (some f) t | none ↦ go t ]

  -- A gated or early-committing caller goes live once real content is buffered.
  commit_early : Capture W → Outcome W
  unfolding commit_then
  commit_early s =
      if not s.committed
        && m.forwardable s.wire
        && (pol.early_commit || (pol.progress_gated && s.grace_elapsed))
      then commit_then going s
      else going s

  -- What follows the events of a read.
  after_events : Option ReadError → ContextEnd → Capture W → Outcome W
  after_events (some e) ended s = end_of_read e ended s
  after_events none ended s = commit_early s

  on_read : Text → Option ReadError → ContextEnd → Capture W → Outcome W
  unfolding process check_parser after_events then_go
  on_read data_bytes err ended s =
      let (p, evs) = feed_chunk s.parser data_bytes (is_some err) in
      let fault : Option ReadError = elim err [
        | some eof ↦ s.stats.read_err
        | none ↦ s.stats.read_err
        | e ↦ e
      ] in
      let t = record s { parser = p; stats = record (s.stats) { read_err = fault } } in
      then_go (after_events err ended) (then_go check_parser (process evs t))

  ping : Capture W → Outcome W
  unfolding send
  ping s = going (send (m.keepalive ∷ []) s)

  -- The window has run out: commit, unless a gated caller has nothing to forward yet, and keep
  -- the client's connection alive.
  on_keep_tick : Capture W → Outcome W
  unfolding commit_then ping
  on_keep_tick s =
      let t = record s { grace_elapsed = true } in
      if pol.keep_every == 0
      then going s
      else if s.committed
      then ping t
      else if pol.progress_gated && not (m.forwardable s.wire)
      then going t
      else commit_then ping t

  -- One turn of the `select` loop.
  pub step : Capture W → Input → Outcome W
  unfolding on_read on_keep_tick idle_failure context_failure
  step s (read data_bytes err ended) = on_read data_bytes err ended s
  step s keep_tick = on_keep_tick s
  step s idle_tick = returned s.committed (some idle_failure) s
  step s (context_done ended) = returned s.committed (some (context_failure ended)) s

  -- `captureSSECore` on the inputs of its environment.
  pub run : Capture W → List Input → Outcome W
  run s [] = going s
  run s (i ∷ is) = then_go (λ t. run t is) (step s i)
