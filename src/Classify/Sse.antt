-- ===== src/Classify/Sse.antt =====
-- classify.go: an `event: error` in the middle of an Anthropic stream.
pub mod Verdicts
use steady_proxy.Base.{
  ℕ, true, not, ◌||◌, ◌++◌, Text, text, str_eq, to_lower, ◌==◌, if◌then◌else◌, is_nil,
}
use steady_proxy.Classify.Codec.{Codec}
use steady_proxy.Classify.Http.{request_shape_sigs}
use steady_proxy.Failure.{Failure, zero_failure, any_contains}

-- `anthropicPermanentStatus`.
pub anthropic_permanent_status : Text → ℕ
anthropic_permanent_status t =
    if str_eq t (text "invalid_request_error")
    then 400
    else if str_eq t (text "authentication_error")
    then 401
    else if str_eq t (text "billing_error")
    then 402
    else if str_eq t (text "permission_error")
    then 403
    else if str_eq t (text "not_found_error")
    then 404
    else if str_eq t (text "request_too_large")
    then 413
    else 0

-- The one message that overrides the label of an invalid request.
pub disconnect_message : Text
disconnect_message =
    text "stream error: stream disconnected before completion: "
    ++ text "stream closed before response.completed"

retried : ℕ → Text → Text → Text → Failure
retried st atype code msg = record zero_failure {
  transient = true;
  status = st;
  atype = atype;
  code = code;
  message = msg;
}

final : ℕ → Text → Text → Text → Failure
final st atype code msg = record zero_failure {
  status = st;
  atype = atype;
  code = code;
  message = msg;
}

-- The cases of the switch on the type.
sse_failure : Text → Text → Failure
unfolding retried final
sse_failure t msg =
    if str_eq t (text "overloaded_error")
    then retried 529 (text "overloaded_error") (text "sse_overloaded") msg
    else if str_eq t (text "rate_limit_error")
    then retried 429 (text "rate_limit_error") (text "sse_rate_limit") msg
    else if str_eq t (text "api_error") || str_eq t (text "timeout_error") || is_nil t
    then retried 502 (text "api_error") (text "sse_api_error") msg
    else if str_eq t (text "invalid_request_error")
    then if str_eq msg disconnect_message
      then retried 502 (text "api_error") (text "sse_stream_disconnect") msg
      else final 400 t (text "sse_request_shape") msg
    else if not (anthropic_permanent_status t == 0)
    then final (anthropic_permanent_status t) t (text "sse_" ++ t) msg
    else if any_contains (to_lower (t ++ (text " " ++ msg))) request_shape_sigs
    then final 400 t (text "sse_request_shape") msg
    else retried 502 (text "api_error") (text "sse_retryable") msg

-- `classifySSEError`.
unfoldable pub classify_sse_error : Codec → Text → Failure
unfolding sse_failure
classify_sse_error c body =
    let e = c.error_fields body in
    record (sse_failure e.kind e.message) { orig_type = e.kind; orig_code = e.code }
