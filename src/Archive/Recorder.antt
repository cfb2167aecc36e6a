-- ===== src/Archive/Recorder.antt =====
-- `reqRecorder` (requestlog.go): one request and its attempts. The current attempt is the last one,
-- so the attempts are the earlier ones and the current one. A request without a recorder (the
-- source's nil) is not modelled: every operation then does nothing.
pub mod Actions
pub mod Bodies
pub mod References
pub mod Secrets
use steady_proxy.Base.{
  ℕ, ◌+◌, ◌-◌, ◌/◌, suc, Bool, List, [], ◌∷◌, ◌++◌, Option, none, some, ℤ, pos, Text, text, is_nil,
  length, str_eq, if◌then◌else◌, ◌==◌,
}
use mathlib.Core.Option
use steady_proxy.Config.{Config}
use steady_proxy.Number.{itoa}
use steady_proxy.Failure.{Failure, Header}
use steady_proxy.Sse.Wire.{CaptureStats, ReadError}
use steady_proxy.Version.{VersionInfo}
use steady_proxy.AccessLog.{BodyLib, request_model_of, who, who_with_resolved_model, dash}
use steady_proxy.Archive.Redact.{
  UrlLib, mask_headers, mask_headers_with_names, redact_query_with_names, redacted_request_uri,
  redacted_upstream_url,
}
use steady_proxy.Archive.Capture.{
  TempFiles, BodyCapture, new_body_capture, write_body, ArchiveBody, make_archive_body,
  archive_body, cleanup,
}
use steady_proxy.Archive.Attempt.{
  Incoming, ArchiveResponse, ArchiveFailure, ArchiveStats, ArchiveModelSwap, ArchiveAttempt,
  stats_archive,
}

-- `reqRecorder`; `attempts` is `earlier`, and then `cur`.
pub record Recorder : Type 0 where
  pub id : Text
  pub when_started : ℕ
  pub method : Text
  pub request_uri : Text
  pub path : Text
  pub query : Text
  pub host : Text
  pub proto : Text
  pub content_len : ℤ
  pub transfer_enc : List Text
  pub who : Text
  pub outcome_who : Text
  pub req_headers : Header
  pub req_body : Text
  pub earlier : List ArchiveAttempt
  pub cur : Option ArchiveAttempt
  pub body_refs : List (Text × Text)
  pub stats : Option CaptureStats
  pub proxy_retries : ℕ
  pub outcome : Text
  pub orig_status : ℕ
  pub status : ℕ
  pub code : Text

pub attempt_list : Option ArchiveAttempt → List ArchiveAttempt
attempt_list none = []
attempt_list (some a) = a ∷ []

-- `rec.attempts`.
unfoldable pub attempts_of : Recorder → List ArchiveAttempt
unfolding attempt_list
attempts_of rec = rec.earlier ++ attempt_list rec.cur

-- The value of a key, empty where there is none.
find_ref : Text → List (Text × Text) → Text
find_ref key [] = []
find_ref key ((k, ref) ∷ refs) = let rest = find_ref key refs in if str_eq k key then ref else rest

-- The reference to the body of the attempt of an index.
unfoldable pub attempt_ref : ℕ → Text
attempt_ref idx = text "attempts." ++ (itoa (pos idx) ++ text ".request_body")

abbrev pub client_ref : Text
client_ref = text "client_request.body"

-- A change of the current attempt, if there is one.
abbrev pub on_current : (ArchiveAttempt → ArchiveAttempt) → Recorder → Recorder
on_current f rec = record rec { cur = Option.map f rec.cur }

unfoldable pub millis : ℕ → ℕ
millis ns = ns / 1000000

-- `ensureAttemptResponse`; no status is 0.
response_with : ℕ → Option Header → ArchiveResponse → ArchiveResponse
response_with st h r = record r {
  status = if st == 0 then r.status else st;
  headers = elim h [ none ↦ r.headers | some hs ↦ some (mask_headers hs) ];
}

ensure_attempt_response : ℕ → Option Header → ArchiveAttempt → ArchiveAttempt
unfolding response_with
ensure_attempt_response st h a = record a {
  response = some (
      response_with st h
        (Option.get_or a.response (record { status = 0; headers = none; body = none })));
}

-- `noteAttemptResponseHeaders`.
unfoldable pub note_attempt_response_headers : ℕ → Header → Recorder → Recorder
unfolding ensure_attempt_response
note_attempt_response_headers st h = on_current (ensure_attempt_response st (some h))

-- `respWriter`, and a write to what it returns.
unfoldable pub write_response : Config → TempFiles → Text → Recorder → Recorder
unfolding ensure_attempt_response
write_response cfg files p = on_current λ a. record (ensure_attempt_response 0 none a) {
  response_capture =
      some (write_body cfg files p (Option.get_or a.response_capture new_body_capture));
}

error_of : ReadError → Text
error_of ReadError.eof = text "EOF"
error_of ReadError.unexpected_eof = text "unexpected EOF"
error_of (ReadError.other_error msg) = msg

-- The first error of a capture is kept.
faulted : ReadError → BodyCapture → BodyCapture
unfolding error_of
faulted err c = elim c.error [ some msg ↦ c | none ↦ record c { error = some (error_of err) } ]

-- `noteResponseReadError`.
unfoldable pub note_response_read_error : Option ReadError → Recorder → Recorder
unfolding faulted
note_response_read_error none rec = rec
note_response_read_error (some err) rec =
    on_current (λ a. record a { response_capture = Option.map (faulted err) a.response_capture })
      rec

with_result : Text → ArchiveAttempt → ArchiveAttempt
with_result result a = if is_nil result then a else record a { result = result }

-- `noteAttemptFailure`.
unfoldable pub note_attempt_failure : Failure → Text → Recorder → Recorder
unfolding with_result
note_attempt_failure f result = on_current λ a. with_result result (record a {
  failure = some (record {
    code = f.code;
    atype = f.atype;
    message = f.message;
    transient = f.transient;
    fast_retry = f.fast_retry;
    status = f.status;
    orig_status = f.orig_status;
    retry_after = f.retry_after;
  });
})

-- `noteAttemptResult`.
unfoldable pub note_attempt_result : Text → Recorder → Recorder
note_attempt_result result = on_current λ a. record a { result = result }

-- `noteAttemptRetry`.
unfoldable pub note_attempt_retry : Text → ℕ → Recorder → Recorder
unfolding millis
note_attempt_retry result wait =
    on_current λ a. record a { result = result; retry_wait_ms = millis wait }

-- `noteAttemptStats`, which does nothing with no attempt.
unfoldable pub note_attempt_stats : CaptureStats → Recorder → Recorder
unfolding note_response_read_error
note_attempt_stats st rec = elim rec.cur [
  | none ↦ rec
  | some a ↦
      note_response_read_error st.read_err
        (record rec { cur = some (record a { stats = some (stats_archive st) }); stats = some st })
]

-- `noteDeliveredAnswer`.
unfoldable pub note_delivered_answer : Text → Option CaptureStats → Recorder → Recorder
note_delivered_answer req_who st rec = record rec { outcome_who = req_who; stats = st }

-- `noteProxyRetries`.
unfoldable pub note_proxy_retries : ℕ → Recorder → Recorder
note_proxy_retries n rec = record rec { proxy_retries = n }

-- `noteModelSwap`.
unfoldable pub note_model_swap : Text → Text → Text → Recorder → Recorder
note_model_swap reason from to = on_current λ a. record a {
  model_swap = some (record { reason = reason; from = from; to = to });
  result = text "model_swap";
}

-- `note`.
unfoldable pub note : Text → ℕ → ℕ → Text → Recorder → Recorder
note outcome orig surfaced code rec = record rec {
  outcome = outcome;
  orig_status = orig;
  status = surfaced;
  code = code;
}

module _ (digest : Text → Text) where
  -- `bodyKey`.
  unfoldable pub body_key : Text → Text
  body_key p = itoa (pos (length p)) ++ (b':' ∷ digest p)

  captured : Option BodyCapture → ArchiveBody
  captured none = make_archive_body digest []
  captured (some c) = archive_body digest c

  -- The body of a response is archived once.
  closed_response : Option BodyCapture → ArchiveResponse → ArchiveResponse
  unfolding captured
  closed_response capture r = elim r.body [
    | some b ↦ r
    | none ↦ record r { body = some (captured capture) }
  ]

  -- `finishCurrentAttempt`, at a time.
  unfoldable pub finish_current_attempt : ℕ → Recorder → Recorder
  unfolding closed_response millis
  finish_current_attempt now = on_current λ a. record a {
    duration_ms = if a.duration_ms == 0 then millis (now - a.started) else a.duration_ms;
    response = Option.map (closed_response a.response_capture) a.response;
  }

  -- `bodyReference`: the reference, the body if it is new, and the references known then.
  unfoldable pub body_reference :
      Text → Text → List (Text × Text) → Text × Option ArchiveBody × List (Text × Text)
  unfolding find_ref
  body_reference body new_ref refs =
      let ref = find_ref (body_key body) refs in
      if is_nil ref
      then (new_ref, some (make_archive_body digest body), (body_key body, new_ref) ∷ refs)
      else (ref, none, refs)

  module _ (lib : BodyLib) where
    -- `beginAttempt`, at a time.
    unfoldable pub begin_attempt : ℕ → Text → Text → ℕ → Recorder → Recorder
    begin_attempt now body req_who retries rec =
        let r = finish_current_attempt now rec in
        let idx = suc (length (attempts_of r)) in
        let (ref, archived, refs) = body_reference body (attempt_ref idx) r.body_refs in
        record r {
          stats = none;
          outcome_who = req_who;
          body_refs = refs;
          earlier = attempts_of r;
          cur = some (record {
            index = idx;
            started = now;
            duration_ms = 0;
            who = req_who;
            model = request_model_of lib r.path body;
            proxy_retry = retries;
            request_body_ref = ref;
            request_body_size = length body;
            request_body_sha256 = digest body;
            request_body = archived;
            response = none;
            failure = none;
            stats = none;
            model_swap = none;
            result = [];
            retry_wait_ms = 0;
            response_capture = none;
          });
        }

    -- `newReqRecorder`, at a time and with an id.
    unfoldable pub new_req_recorder : UrlLib → Text → ℕ → Incoming → Recorder
    new_req_recorder urls id start r = record {
      id = id;
      when_started = start;
      method = r.method;
      request_uri = redacted_request_uri urls r.request_uri r.path r.raw_query;
      path = r.path;
      query = r.raw_query;
      host = r.host;
      proto = r.proto;
      content_len = r.content_length;
      transfer_enc = r.transfer_encoding;
      who = who lib r.path r.header r.body;
      outcome_who = who lib r.path r.header r.body;
      req_headers = r.header;
      req_body = r.body;
      earlier = [];
      cur = none;
      body_refs = (body_key r.body, client_ref) ∷ [];
      stats = none;
      proxy_retries = 0;
      outcome = [];
      orig_status = 0;
      status = 0;
      code = [];
    }
