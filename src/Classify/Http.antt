-- ===== src/Classify/Http.antt =====
-- classify.go: upstream HTTP errors and transport faults.
pub mod Verdicts
use steady_proxy.Base.{
  ℕ, ◌+◌, ◌-◌, ◌*◌, ◌/◌, ◌^◌, Bool, true, false, not, ◌&&◌, ◌||◌, List, [], ◌∷◌, ◌++◌, Option, none,
  some, Text, text, is_nil, str_eq, to_lower, trim_space, leb, ltb, ◌==◌, if◌then◌else◌, pos,
  pos_part,
}
use steady_proxy.Classify.Codec.{Codec, ErrorFields}
use steady_proxy.Failure.{Failure, Header, get, zero_failure, any_contains}
use steady_proxy.Number.{itoa, atoi_safe}

-- `requestShapeSigs`.
pub request_shape_sigs : List Text
request_shape_sigs =
    text "context_length"
    ∷ text "context length"
    ∷ text "maximum context"
    ∷ text "prompt is too long"
    ∷ text "tool_use"
    ∷ text "tool_result"
    ∷ text "tool use concurrency"
    ∷ text "missing tool result"
    ∷ text "duplicate tool_use"
    ∷ text "unexpected tool_use_id"
    ∷ text "thinking blocks"
    ∷ text "thinking.budget_tokens"
    ∷ text "max_tokens must be"
    ∷ text "extra inputs are not permitted"
    ∷ text "unexpected value"
    ∷ text "anthropic-beta"
    ∷ text "context_management"
    ∷ text "input_examples"
    ∷ text "image dimensions"
    ∷ text "model_not_found"
    ∷ []

-- How the request's context ended, if it did.
pub data ContextEnd : Type 0 where
  running deadline_exceeded canceled : ContextEnd

-- What `errors.Is` finds in the error of a round trip or a read; joined errors may hold both.
pub record Fault : Type 0 where
  pub is_deadline : Bool
  pub is_canceled : Bool

abbrev pub deadline_failure : Failure
deadline_failure = record zero_failure {
  transient = true;
  status = 504;
  atype = text "timeout_error";
  code = text "deadline";
  message = text "attempt deadline exceeded";
}

abbrev pub client_gone_failure : Failure
client_gone_failure = record zero_failure {
  status = 499;
  atype = text "api_error";
  code = text "client_gone";
  message = text "client cancelled";
}

abbrev pub transport_failure : Failure
transport_failure = record zero_failure {
  transient = true;
  fast_retry = true;
  status = 502;
  atype = text "api_error";
  code = text "transport_error";
  message = text "upstream connection failed";
}

abbrev pub is_exceeded : ContextEnd → Bool
is_exceeded deadline_exceeded = true
is_exceeded running = false
is_exceeded canceled = false

abbrev pub is_canceled : ContextEnd → Bool
is_canceled canceled = true
is_canceled running = false
is_canceled deadline_exceeded = false

-- `classifyTransport`: a deadline, of the context or in the error, is looked for first.
unfoldable pub classify_transport : Fault → ContextEnd → Failure
classify_transport fault ended =
    if is_exceeded ended || fault.is_deadline
    then deadline_failure
    else if is_canceled ended || fault.is_canceled
    then client_gone_failure
    else transport_failure

-- `errorVerdict`.
pub data Verdict : Type 0 where
  unknown transient permanent : Verdict

-- `errorBodyRule`: type, code, message and the lowered body.
abbrev pub BodyRule : Type 0
BodyRule = Text → Text → Text → Text → Verdict

-- `anthropicErrorVerdict`.
pub anthropic_error_verdict : BodyRule
anthropic_error_verdict atype code msg body_lower =
    if any_contains (to_lower (atype ++ (text " " ++ (code ++ (text " " ++ msg)))) ++ body_lower)
      request_shape_sigs
    then permanent
    else if str_eq atype (text "rate_limit_error")
        || str_eq atype (text "overloaded_error")
        || str_eq atype (text "timeout_error")
    then transient
    else unknown

-- The header that decides, and its verdict.
pub data Hint : Type 0 where
  no_hint : Hint
  gateway should_retry : Bool → Hint

-- `httpRetryHint`.
unfoldable pub http_retry_hint : Header → Hint
http_retry_hint h =
    let x = to_lower (get h (text "X-Gateway-Retryable")) in
    let y = to_lower (get h (text "X-Should-Retry")) in
    if str_eq x (text "true")
    then gateway true
    else if str_eq x (text "false")
    then gateway false
    else if str_eq y (text "true")
    then should_retry true
    else if str_eq y (text "false")
    then should_retry false
    else no_hint

-- `mapTransientStatus`.
unfoldable pub map_transient_status : ℕ → ℕ
map_transient_status st = if leb 400 st && ltb st 500 && not (st == 429) then 502 else st

-- `typeFor5xx`.
pub type_for_5xx : ℕ → Text
type_for_5xx st =
    if st == 529
    then text "overloaded_error"
    else if st == 504
    then text "timeout_error"
    else text "api_error"

-- `retryAfterSeconds`.
pub retry_after_seconds : Codec → Text → ℕ
retry_after_seconds c v =
    let s = trim_space v in
    let n = pos_part (atoi_safe s) in
    if is_nil s then 0 else if ltb 0 n then n else elim (c.parse_time s) [
      | none ↦ 0
      | some t ↦ if leb t c.now then 0 else (t - c.now + 10 ^ 9 - 1) / 10 ^ 9
    ]

-- `redirectTarget`.
pub redirect_target : Codec → Text → Text
redirect_target c location = elim (c.stripped_url location) [
  | none ↦ text "an unparseable location"
  | some u ↦ if is_nil location then text "an unparseable location" else u
]

-- An upstream response: status, headers, and the bounded prefix of its body.
pub record Response : Type 0 where
  pub status : ℕ
  pub header : Header
  pub body : Text

pub status_code : Text → ℕ → Text
status_code name st = name ++ itoa (pos st)

pub redirect_failure : Codec → Response → Failure
redirect_failure c r = record zero_failure {
  status = 502;
  atype = text "api_error";
  code = status_code (text "upstream_redirect_") r.status;
  message =
      text "upstream redirected to "
      ++ (redirect_target c (get r.header (text "Location"))
          ++ text "; fix PROXY_UPSTREAM_URL (redirects are not followed)");
}

-- The failure of a status with no hint, by the verdict of the wire on the body.
unfoldable pub judge_status : ℕ → Text → Text → ℕ → Verdict → Failure
judge_status st atype msg ra verdict =
    let base = record zero_failure { status = st; atype = atype; message = msg } in
    let retried = record base { transient = true; retry_after = ra } in
    let is_permanent : Bool = elim verdict [ permanent ↦ true | _ ↦ false ] in
    let is_transient : Bool = elim verdict [ transient ↦ true | _ ↦ false ] in
    if st == 408 || st == 409
    then record retried { fast_retry = true; code = status_code (text "http_") st }
    else if st == 429 && is_permanent
    then record base { code = text "http_429" }
    else if st == 429
    then record retried { atype = text "rate_limit_error"; code = text "rate_limit" }
    else if leb 500 st
    then record retried {
      fast_retry = st == 502 || st == 503;
      atype = type_for_5xx st;
      code = status_code (text "http_") st;
    }
    else if is_transient
    then record retried {
      status = 502;
      atype = text "api_error";
      code = status_code (text "retryable_4xx_") st;
    }
    else record base {
      code = if is_permanent then text "request_shape" else status_code (text "http_") st;
    }

-- The failure that a hint decides.
unfoldable pub judge_hint : ℕ → Text → Text → ℕ → Bool → Bool → Failure
judge_hint st atype msg ra is_gateway true = record zero_failure {
  transient = true;
  status = map_transient_status st;
  atype = atype;
  code = status_code (if is_gateway then text "gateway_retryable_" else text "upstream_retry_") st;
  message = msg;
  retry_after = ra;
}
judge_hint st atype msg ra is_gateway false = record zero_failure {
  status = st;
  atype = atype;
  code = if is_gateway then text "gateway_permanent" else text "upstream_no_retry";
  message = msg;
  retry_after = if is_gateway then ra else 0;
}

-- The two authoritative headers, and then status and body.
unfoldable pub judge : Hint → ℕ → Text → Text → ℕ → Verdict → Failure
judge (gateway retry) st atype msg ra verdict = judge_hint st atype msg ra true retry
judge (should_retry retry) st atype msg ra verdict = judge_hint st atype msg ra false retry
judge no_hint st atype msg ra verdict = judge_status st atype msg ra verdict

unfoldable pub is_redirect : ℕ → Bool
is_redirect st = leb 300 st && ltb st 400

-- `classifyHTTPErrorBytesShaped`. The rule is called where no hint decides.
unfoldable pub classify_http_error_bytes_shaped : Codec → Response → BodyRule → Failure
classify_http_error_bytes_shaped c r rule =
    let lowered = if c.json_valid r.body then [] else to_lower r.body in
    let ra = retry_after_seconds c (get r.header (text "Retry-After")) in
    let e = c.error_fields r.body in
    let atype = if is_nil e.kind then text "api_error" else e.kind in
    let verdict = rule e.kind e.code e.message lowered in
    let judged = judge (http_retry_hint r.header) r.status atype e.message ra verdict in
    if is_redirect r.status
    then redirect_failure c r
    else record judged { orig_type = e.kind; orig_code = e.code }

-- `classifyHTTPErrorBytes`.
unfoldable pub classify_http_error_bytes : Codec → Response → Failure
classify_http_error_bytes c r = classify_http_error_bytes_shaped c r anthropic_error_verdict
