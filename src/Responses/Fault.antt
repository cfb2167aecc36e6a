-- ===== src/Responses/Fault.antt =====
-- The identity of an OpenAI error and the two verdicts that read it: in-band and over HTTP
-- (responses.go). `parseRetryAfterFromMessage` scans a message by regular expressions and floats,
-- and is the parameter `message_delay`.
pub mod Agreement
use steady_proxy.Base.{
  ℕ, Bool, true, false, not, ◌&&◌, ◌||◌, List, [], ◌∷◌, ◌++◌, Text, text, is_nil, str_eq, contains,
  to_lower, trim_space, ltb, ◌==◌, if◌then◌else◌,
}
use steady_proxy.Classify.Codec.{Codec}
use steady_proxy.Classify.Http.{
  BodyRule, Verdict, unknown, transient, permanent, Response, request_shape_sigs,
  classify_http_error_bytes_shaped,
}
use steady_proxy.Failure.{Failure, zero_failure, any_contains}
use steady_proxy.Headers.{member}

-- `responsesFault`.
pub data Fault : Type 0 where
  fault_unknown fault_timeout fault_rate_limit fault_overloaded : Fault
  fault_request_shape fault_quota fault_rejected : Fault

-- `responsesIdent`.
unfoldable pub responses_ident : Text → Text
responses_ident s = to_lower (trim_space s)

-- `isResponsesQuotaIdentity`.
unfoldable pub is_responses_quota_identity : Text → Bool
unfolding member
is_responses_quota_identity s =
    member s
      (text "insufficient_quota" ∷ text "usage_limit_reached" ∷ text "usage_not_included" ∷ [])

-- `isResponsesRequestShapeCode`.
pub is_responses_request_shape_code : Text → Bool
unfolding member
is_responses_request_shape_code c = member c (
    text "context_length_exceeded"
    ∷ text "string_above_max_length"
    ∷ text "invalid_prompt"
    ∷ text "invalid_image"
    ∷ text "invalid_image_format"
    ∷ text "invalid_image_url"
    ∷ text "invalid_base64_image"
    ∷ text "image_parse_error"
    ∷ text "image_too_large"
    ∷ text "invalid_image_mode"
    ∷ text "empty_image_file"
    ∷ text "unknown_parameter"
    ∷ text "unsupported_parameter"
    ∷ text "missing_required_parameter"
    ∷ text "model_not_found"
    ∷ text "unsupported_value"
    ∷ text "invalid_type"
    ∷ text "bio_policy"
    ∷ text "cyber_policy"
    ∷ [])

-- `responsesRejectedStatus`.
unfoldable pub responses_rejected_status : Text → ℕ
responses_rejected_status t =
    if str_eq t (text "authentication_error")
    then 401
    else if str_eq t (text "permission_error")
    then 403
    else if str_eq t (text "not_found_error")
    then 404
    else 0

-- `responsesRequestTooLarge`.
responses_request_too_large : Text
responses_request_too_large = text "must be reduced in order to run successfully"

-- The second switch of `responsesFaultOf`, on the type.
fault_of_type : Text → Text → Fault
fault_of_type t msg =
    if str_eq t (text "timeout_error")
    then fault_timeout
    else if str_eq t (text "rate_limit_error")
    then fault_rate_limit
    else if str_eq t (text "overloaded_error") || str_eq t (text "service_unavailable_error")
    then fault_overloaded
    else if str_eq t (text "invalid_request_error")
    then fault_request_shape
    else if is_nil t
    then if any_contains msg request_shape_sigs then fault_request_shape else fault_unknown
    else if not (responses_rejected_status t == 0)
    then fault_rejected
    else fault_unknown

-- `responsesFaultOf`, on a normalized type and code and a lowered message.
unfoldable pub responses_fault_of : Text → Text → Text → Fault
unfolding fault_of_type responses_request_too_large
responses_fault_of t c msg =
    if is_responses_quota_identity t || is_responses_quota_identity c
    then fault_quota
    else if contains msg responses_request_too_large || is_responses_request_shape_code c
    then fault_request_shape
    else if str_eq c (text "request_timeout")
    then fault_timeout
    else if str_eq c (text "rate_limit_exceeded")
    then fault_rate_limit
    else if str_eq c (text "server_is_overloaded") || str_eq c (text "overloaded")
    then fault_overloaded
    else fault_of_type t msg

-- `responsesErrorVerdict`, by the fault.
verdict_of : Fault → Verdict
verdict_of fault_timeout = transient
verdict_of fault_rate_limit = transient
verdict_of fault_overloaded = transient
verdict_of fault_request_shape = permanent
verdict_of fault_quota = permanent
verdict_of other = unknown

-- `responsesErrorVerdict`.
unfoldable pub responses_error_verdict : BodyRule
unfolding verdict_of
responses_error_verdict atype code msg body_lower =
    verdict_of (responses_fault_of (responses_ident atype) (responses_ident code) (to_lower msg))

module _ (message_delay : Text → ℕ) where
  -- The cases of `classifyResponsesError`.
  failure_of : Fault → Text → Text → Text → Failure
  failure_of fault_timeout t c msg = record zero_failure {
    transient = true;
    status = 504;
    atype = text "timeout_error";
    code = text "responses_timeout";
    message = msg;
  }
  failure_of fault_rate_limit t c msg = record zero_failure {
    transient = true;
    status = 429;
    atype = text "rate_limit_error";
    code = text "responses_rate_limit";
    message = msg;
    retry_after = message_delay msg;
  }
  failure_of fault_overloaded t c msg = record zero_failure {
    transient = true;
    status = 529;
    atype = text "overloaded_error";
    code = text "responses_overloaded";
    message = msg;
  }
  failure_of fault_quota t c msg = record zero_failure {
    status = 429;
    atype = if is_responses_quota_identity t then t else c;
    code = text "responses_quota";
    message = msg;
  }
  failure_of fault_request_shape t c msg = record zero_failure {
    status = 400;
    atype = text "invalid_request_error";
    code = text "responses_request_shape";
    message = msg;
  }
  failure_of fault_rejected t c msg = record zero_failure {
    status = responses_rejected_status t;
    atype = t;
    code = text "responses_" ++ t;
    message = msg;
  }
  failure_of fault_unknown t c msg = record zero_failure {
    transient = true;
    status = 502;
    atype = text "api_error";
    code = text "responses_error";
    message = msg;
  }

  -- `classifyResponsesError`.
  unfoldable pub classify_responses_error : Text → Text → Text → Failure
  unfolding failure_of
  classify_responses_error err_type err_code message =
      let t = responses_ident err_type in
      let c = responses_ident err_code in
      failure_of (responses_fault_of t c (to_lower message)) t c message

  -- `classifyResponsesHTTPErrorBytes`.
  unfoldable pub classify_responses_http_error_bytes : Codec → Response → Failure
  classify_responses_http_error_bytes codec r =
      let f = classify_http_error_bytes_shaped codec r responses_error_verdict in
      let d = message_delay f.message in
      if f.transient && f.retry_after == 0 && ltb 0 d then record f { retry_after = d } else f
