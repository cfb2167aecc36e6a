-- ===== src/Lib.antt =====
-- steady-proxy: the core of a transactional reverse proxy for the Anthropic Messages, OpenAI
-- Responses and native Gemini APIs. A request that asks for a stream is sent upstream by the handler;
-- the upstream's stream is parsed, checked and held back until it is complete or a window runs out, so
-- that a failure before that can be retried unseen, or be reported with a status and headers that make
-- the client's SDK do the right thing.
--
-- The parts, and the files that model them:
-- - Base and its children: numbers, lists, text and their Boolean tests. Text is a list of numbers
--   (bytes, or code points where the source works on runes).
-- - Config: the settings of `config` in main.go that the model reads. Durations are nanoseconds.
--   Config.Env: `parseConfig`, `parseUpstream` and `envReader`, over any environment.
-- - Number: `itoa` (classify.go) and `atoiSafe` (main.go) on 64-bit integers.
-- - Route: the route tests of wire.go and systemone.go, and `geminiTarget`.
-- - Headers: `copyForwardHeaders`, `safeResponseHeaders` and what they drop, and the headers that
--   `roundTrip` sends (main.go). A header map is
--   an association list of canonical keys.
-- - Failure: the `failure` of classify.go and its readings.
-- - Classify.Http: `classifyTransport` and `classifyHTTPErrorBytesShaped`; Classify.Sse:
--   `classifySSEError`; Classify.Surface: `surface`, `surfaceFor`, `retrySurfaceFor`. JSON, URL and
--   date parsing are the parameters of Classify.Codec.
-- - Sse.Parser: `sseParser` of sse.go, with `feedChunk` as a loop whose fuel is one more than the
--   length of the chunk: each round but the last consumes a byte. Sse.Validator: `streamValidator`.
--   Sse.Spool: `spool`, with the file system as a parameter. Sse.Wire: the interface `wireModel` of
--   wire.go, a record of operations on a state of the wire. Sse.Capture: `captureSSECore`, `process`
--   and what they call, as a step function: the reader's chunks, the two timers and the context are
--   inputs, one at a time. Sse.ToolJson: `toolJSONValidator` on payloads that a decoder, a parameter,
--   reads from an event's data. Sse.Anthropic: `anthropicWire` and its `buffered`, of wire.go.
--   Sse.Usage: `scrapeUsage` and `setInputUsage`. Sse.Replay: `replayBufferedWithNormalizer` and who
--   calls it, with the input usage moved to `message_start`, on trees that `encoding/json` decodes.
-- - Json: what the wires take from `encoding/json` and `unicode/utf8`, a record of parameters, and maps
--   of raw values.
-- - Responses: responses.go. Responses.Fault: the identity of an error and its verdicts;
--   Responses.Unicode: `validResponsesJSONUnicode`; Responses.Event: how events are read;
--   Responses.Delta and Responses.Coalesce: the text deltas and the coalescer of a replay;
--   Responses.Reader: `replayResponsesReader`, which yields what it asks of the coalescer, for any cut
--   of the spool into reads; Responses.Wire: `scrape`, `buffered` and `live` of `openaiWire`.
-- - Gemini: gemini.go and gemini_errors.go. Gemini.Decimal: `geminiInt32`, `geminiEnum` and
--   `geminiRetryDelaySeconds`; Gemini.Object: `geminiObject` and the messages; Gemini.Wire: the state
--   machine of `geminiWire`; Gemini.Errors: the envelope, the verdicts and the statuses. The decoder is
--   a parameter that yields the fields of an object in order.
-- - SystemOne: systemone.go. Classify.ForPath: `classifyHTTPErrorForPath`, over the classifiers of the
--   four routes; Classify.Writers: the four writers of errors. Version: version.go.
-- - Sse.Normalizer: `toolJSONReplayNormalizer`, on decoded payloads; Sse.AnthropicLive: `live` of
--   `anthropicWire`.
-- - Retry: `localRetryDelay`, `localRetryExtraBackoff` (main.go) and `retryAfterFor` (classify.go).
-- - Fallback: `claudeFallbackAction`, `loadClaudeRefusalFallbacks` and `nextFallback` (main.go).
-- - Handler.Body: `swapModel`; Handler.Turn: the body of the retry loop of `handle`; Handler.Loop: the
--   loop; Handler.Finish: the verdict and the reply behind it, with `writeFailure` (all main.go). What
--   the upstream does at an attempt, and what the timers say after it, are inputs. The fuel of the
--   loop is the number of attempts; the potential of Handler.Turn.Potential bounds it. Handler.Once:
--   `proxyOnce`. Handler.Admit: `handle` up to its loop, and `keepaliveWindow`; Handler.Reading:
--   `readBody`, `readHTTPErrorBody` and `bufferNonSSE`, on bodies that come in pieces and may break off.
-- - Transport: the guards on time of transport.go and main.go: `byteIdleReader`, `cancelBody`,
--   `roundTripBefore`, `canWaitForLocalRetry`. How long the upstream takes for each read is an input, and
--   so is how long the client takes between its reads.
-- - AccessLog: the labels of a request and of its line in the log (main.go).
-- - Archive: requestlog.go. Archive.Capture: `bodyCapture`; Archive.Redact: what is masked of headers,
--   queries and URLs; Archive.Attempt and Archive.Recorder: `reqRecorder`, its attempts and their
--   notes; Archive.Report: `archive`; Archive.Writer: `writeArchive` and the writers of its parts.
--   Files, SHA-256, net/url and `encoding/json` are parameters.
-- - Tests: small runs, and the theorems at concrete inputs.
--
-- The handler calls the engine through the outcome of an attempt; the engine calls the wire through
-- `WireModel`, and the parser, the spool and the header filter directly; the handler's reply goes
-- through Classify.Surface.
--
-- Archive.Recorder is filled by the handler at each attempt; its captures take the bodies that
-- Handler.Reading reads. Handler.Admit yields the window that the engine commits by.
--
-- Not modelled: the set-up of net/http and of the server, the names, the opening and the closing of the
-- files of the archive, random ids, logging, the test upstream (a tool), and
-- `parseRetryAfterFromMessage`, whose arithmetic is of floating point. Flushes and the tee into the
-- archive leave no trace in the engine.
pub mod AccessLog
pub mod Archive
pub mod Base
pub mod Classify
pub mod Config
pub mod Failure
pub mod Fallback
pub mod Gemini
pub mod Handler
pub mod Headers
pub mod Json
pub mod Number
pub mod Responses
pub mod Retry
pub mod Route
pub mod Sse
pub mod SystemOne
pub mod Tests
pub mod Transport
pub mod Version
