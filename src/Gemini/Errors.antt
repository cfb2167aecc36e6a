-- ===== src/Gemini/Errors.antt =====
-- gemini_errors.go: the error envelope of Google's APIs, its verdicts, and the statuses.
pub mod Statuses
pub mod Verdicts
use steady_proxy.Base.{
  ℕ, ◌+◌, Bool, true, false, not, ◌&&◌, ◌||◌, List, [], ◌∷◌, ◌++◌, Option, none, some, ◌>>=◌, max,
  ℤ, pos, negsuc, Text, text, is_nil, any, str_eq, to_lower, to_upper, trim_space, contains, leb,
  ltb, ◌==◌, if◌then◌else◌,
}
use steady_proxy.Classify.Codec.{Codec}
use steady_proxy.Classify.Http.{
  BodyRule, Verdict, unknown, transient, permanent, Response, request_shape_sigs,
  anthropic_error_verdict, retry_after_seconds, classify_http_error_bytes,
  classify_http_error_bytes_shaped,
}
use steady_proxy.Failure.{Failure, zero_failure, any_contains, get}
use steady_proxy.Gemini.Decimal.{GeminiLib, gemini_int32, gemini_retry_delay_seconds}
use steady_proxy.Gemini.Object.{named, gemini_object, string_field, slice}
use steady_proxy.Headers.{member}
use steady_proxy.Json.{JsonLib}

-- `geminiErrorDetail`; the delay and the violations are raw.
pub record Detail : Type 0 where
  pub kind : Text
  pub retry_delay : Text
  pub violations : Text

-- `geminiAPIError`.
pub record ApiError : Type 0 where
  pub code : ℤ
  pub status : Text
  pub message : Text
  pub details : List Detail
  pub fallback_type : Text

abbrev pub zero_error : ApiError
zero_error = record { code = pos 0; status = []; message = []; details = []; fallback_type = [] }

-- `geminiHTTPStatus`.
unfoldable pub gemini_http_status : Text → ℕ
gemini_http_status s =
    if str_eq s (text "INVALID_ARGUMENT")
      || str_eq s (text "FAILED_PRECONDITION")
      || str_eq s (text "OUT_OF_RANGE")
    then 400
    else if str_eq s (text "UNAUTHENTICATED")
    then 401
    else if str_eq s (text "PERMISSION_DENIED")
    then 403
    else if str_eq s (text "NOT_FOUND")
    then 404
    else if str_eq s (text "ALREADY_EXISTS") || str_eq s (text "ABORTED")
    then 409
    else if str_eq s (text "RESOURCE_EXHAUSTED")
    then 429
    else if str_eq s (text "CANCELLED")
    then 499
    else if str_eq s (text "UNKNOWN") || str_eq s (text "INTERNAL") || str_eq s (text "DATA_LOSS")
    then 500
    else if str_eq s (text "UNIMPLEMENTED")
    then 501
    else if str_eq s (text "UNAVAILABLE")
    then 503
    else if str_eq s (text "DEADLINE_EXCEEDED")
    then 504
    else 0

-- `geminiStatusForHTTP`.
unfoldable pub gemini_status_for_http : ℕ → Text
gemini_status_for_http st =
    if st == 400 || st == 413 || st == 422
    then text "INVALID_ARGUMENT"
    else if st == 401
    then text "UNAUTHENTICATED"
    else if st == 403
    then text "PERMISSION_DENIED"
    else if st == 404
    then text "NOT_FOUND"
    else if st == 408 || st == 504
    then text "DEADLINE_EXCEEDED"
    else if st == 409
    then text "ABORTED"
    else if st == 412
    then text "FAILED_PRECONDITION"
    else if st == 416
    then text "OUT_OF_RANGE"
    else if st == 429
    then text "RESOURCE_EXHAUSTED"
    else if st == 499
    then text "CANCELLED"
    else if st == 500
    then text "INTERNAL"
    else if st == 501
    then text "UNIMPLEMENTED"
    else if st == 503
    then text "UNAVAILABLE"
    else text "UNKNOWN"

-- The three groups of `geminiErrorVerdict`.
unfoldable pub clears_by_itself : Text → Bool
unfolding member
clears_by_itself s = member s (
    text "UNAVAILABLE"
    ∷ text "DEADLINE_EXCEEDED"
    ∷ text "INTERNAL"
    ∷ text "UNKNOWN"
    ∷ text "ABORTED"
    ∷ [])

unfoldable pub rejects_request : Text → Bool
unfolding member
rejects_request s = member s (
    text "INVALID_ARGUMENT"
    ∷ text "FAILED_PRECONDITION"
    ∷ text "OUT_OF_RANGE"
    ∷ text "UNAUTHENTICATED"
    ∷ text "PERMISSION_DENIED"
    ∷ text "NOT_FOUND"
    ∷ text "ALREADY_EXISTS"
    ∷ text "UNIMPLEMENTED"
    ∷ [])

abbrev pub canonical : Text → Text
canonical s = to_upper (trim_space s)

-- A code that is a status of an error, or the status of its name.
unfoldable pub code_or : ℤ → ℕ → ℕ
code_or (pos n) of_name = if ltb n 400 || ltb 599 n then of_name else n
code_or (negsuc n) of_name = of_name

-- The status of an error in a stream; 0 where it names none.
unfoldable pub stream_status : ApiError → ℕ
unfolding code_or
stream_status e = code_or e.code (gemini_http_status (canonical e.status))

starts_array : Text → Bool
starts_array [] = false
starts_array (c ∷ s) = c == b'['

module _ (json : JsonLib) (lib : GeminiLib) where
  detail_field : Text → Text → Detail → Option Detail
  unfolding string_field named
  detail_field name value d =
      let kinded = string_field json lib value >>= λ s. some (record d { kind = s }) in
      if str_eq name (text "@type")
      then kinded
      else if named name (text "retryDelay") (text "retry_delay")
      then some (record d { retry_delay = value })
      else if str_eq name (text "violations")
      then some (record d { violations = value })
      else some d

  -- `geminiErrorDetail`.
  detail : Text → Option Detail
  unfolding detail_field
  detail raw =
      gemini_object json lib detail_field raw
        (record { kind = []; retry_delay = []; violations = [] })

  error_field : Text → Text → ApiError → Option ApiError
  unfolding detail string_field
  error_field name value e =
      let coded = gemini_int32 lib value >>= λ n. some (record e { code = n }) in
      let statused = string_field json lib value >>= λ s. some (record e { status = s }) in
      let messaged = string_field json lib value >>= λ s. some (record e { message = s }) in
      let kind : Text = elim (string_field json lib value) [ none ↦ [] | some s ↦ s ] in
      let detailed = slice json lib detail value >>= λ ds. some (record e { details = ds }) in
      if str_eq name (text "code")
      then coded
      else if str_eq name (text "status")
      then statused
      else if str_eq name (text "message")
      then messaged
      else if str_eq name (text "type")
      then some (record e { fallback_type = kind })
      else if str_eq name (text "details")
      then detailed
      else some e

  -- `geminiAPIError`.
  api_error : Text → Option ApiError
  unfolding error_field
  api_error raw = gemini_object json lib error_field raw zero_error

  -- The values of a field, one after the other: each replaces what stands there.
  last_error : ApiError → List Text → Option ApiError
  unfolding api_error
  last_error e [] = some e
  last_error e (raw ∷ raws) = api_error raw >>= λ next. last_error next raws

  quota_field : Text → Text → Text → Option Text
  unfolding string_field named
  quota_field name value id =
      let read = string_field json lib value in
      if named name (text "quotaId") (text "quota_id") then read else some id

  per_day : Text → Bool
  unfolding quota_field
  per_day value = elim (gemini_object json lib quota_field value []) [
    | none ↦ false
    | some id ↦ contains id (text "PerDay")
  ]

  daily_detail : Detail → Bool
  unfolding per_day
  daily_detail d =
      let daily : Bool = elim (json.as_list d.violations) [
        | some (some vs) ↦ any per_day vs
        | _ ↦ false
      ] in
      if str_eq d.kind (text "type.googleapis.com/google.rpc.QuotaFailure") then daily else false

  -- `geminiDailyQuotaExhausted`.
  pub gemini_daily_quota_exhausted : ApiError → Bool
  unfolding daily_detail
  gemini_daily_quota_exhausted e = any daily_detail e.details

  -- `geminiErrorVerdict`.
  unfoldable pub gemini_error_verdict : Text → ApiError → Verdict
  gemini_error_verdict status e =
      if clears_by_itself status
      then transient
      else if str_eq status (text "RESOURCE_EXHAUSTED")
      then (if gemini_daily_quota_exhausted e then permanent else transient)
      else if rejects_request status
      then permanent
      else if any_contains (to_lower e.message) request_shape_sigs
      then permanent
      else unknown

  -- The longest of the delays in the details.
  detail_delay : List Detail → ℕ
  detail_delay [] = 0
  detail_delay (d ∷ ds) =
      let rest = detail_delay ds in
      let delay : ℕ = elim (json.as_string d.retry_delay) [
        | none ↦ 0
        | some none ↦ gemini_retry_delay_seconds []
        | some (some s) ↦ gemini_retry_delay_seconds s
      ] in
      if str_eq d.kind (text "type.googleapis.com/google.rpc.RetryInfo")
      then max delay rest
      else rest

  -- The rule for the body of `classifyGeminiErrorBytes`.
  unfoldable pub gemini_rule : ApiError → BodyRule
  gemini_rule e _ _ _ _ =
      let native = canonical e.status in
      if is_nil native
      then anthropic_error_verdict e.fallback_type [] e.message []
      else gemini_error_verdict native e

  -- The fields that `classifyGeminiErrorBytes` sets.
  unfoldable pub dressed : Codec → Response → ApiError → Failure → Failure
  unfolding detail_delay
  dressed codec r e f =
      let native = canonical e.status in
      let said = retry_after_seconds codec (get r.header (text "Retry-After")) in
      let atype =
        if not (is_nil native)
        then native
        else if not f.transient
        then gemini_status_for_http f.status
        else f.atype in
      let waits = if said == 0 then detail_delay e.details else said in
      record f {
        message = e.message;
        atype = atype;
        retry_after = if f.transient && f.retry_after == 0 then waits else f.retry_after;
      }

  -- `classifyGeminiErrorBytes`.
  unfoldable pub classify_gemini_error_bytes : Codec → Response → ApiError → Failure
  unfolding dressed gemini_rule
  classify_gemini_error_bytes codec r e =
      dressed codec r e (classify_http_error_bytes_shaped codec r (gemini_rule e))

  -- A body that is no envelope of Google's is judged as on the other routes.
  judge_decoded : Codec → Response → Option ApiError → Failure
  judge_decoded codec r none = classify_http_error_bytes codec r
  judge_decoded codec r (some e) = classify_gemini_error_bytes codec r e

  -- `classifyGeminiHTTPErrorBytes`.
  pub classify_gemini_http_error_bytes : Codec → Response → Failure
  unfolding last_error starts_array judge_decoded
  classify_gemini_http_error_bytes codec r =
      let trimmed = trim_space r.body in
      let raws =
        if starts_array trimmed then lib.envelope_array trimmed else lib.envelope trimmed in
      judge_decoded codec r (raws >>= last_error zero_error)

  -- `classifyGeminiSSEError`, behind the decoding.
  unfoldable pub classify_stream_error : Codec → Text → ApiError → Failure
  unfolding stream_status classify_gemini_error_bytes
  classify_stream_error codec body e =
      let upstream = stream_status e in
      let st = if upstream == 0 then 502 else upstream in
      let f =
        classify_gemini_error_bytes codec (record { status = st; header = []; body = body }) e in
      record f { orig_status = upstream; code = text "gemini_sse_" ++ f.code }

  -- `classifyGeminiSSEError`.
  pub classify_gemini_sse_error : Codec → Text → Failure
  unfolding last_error
  classify_gemini_sse_error codec body = elim (lib.envelope body >>= last_error zero_error) [
    | none ↦ record zero_failure {
      transient = true;
      status = 502;
      atype = text "api_error";
      code = text "gemini_sse_error";
      message = text "invalid Gemini error envelope";
    }
    | some e ↦ classify_stream_error codec body e
  ]
