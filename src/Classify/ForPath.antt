-- ===== src/Classify/ForPath.antt =====
-- `classifyHTTPErrorForPath` of responses.go: the classifier of each route, and bodies that break
-- off.
pub mod Hinted
use steady_proxy.Base.{
  ℕ, Bool, true, false, not, ◌||◌, [], Option, none, some, Text, text, if◌then◌else◌,
}
use steady_proxy.Classify.Codec.{Codec}
use steady_proxy.Classify.Http.{
  Hint, no_hint, gateway, should_retry, ContextEnd, running, deadline_exceeded, canceled, Fault,
  Response, classify_transport, http_retry_hint, retry_after_seconds, classify_http_error_bytes,
}
use steady_proxy.Failure.{Failure, Header, get}
use steady_proxy.Gemini.Decimal.{GeminiLib}
use steady_proxy.Gemini.Errors.{classify_gemini_http_error_bytes}
use steady_proxy.Json.{JsonLib}
use steady_proxy.Responses.Fault.{classify_responses_http_error_bytes}
use steady_proxy.Route.{is_responses_path, is_gemini_path, is_system_one_path}
use steady_proxy.SystemOne.{
  Millis, system_one_retry_after_seconds, classify_system_one_http_error_bytes,
}

abbrev pub is_none : Hint → Bool
is_none no_hint = true
is_none (gateway b) = false
is_none (should_retry b) = false

abbrev pub has_ended : ContextEnd → Bool
has_ended running = false
has_ended deadline_exceeded = true
has_ended canceled = true

module _ (json : JsonLib) (lib : GeminiLib) (codec : Codec) (message_delay : Text → ℕ)
    (millis : Text → Option Millis) where
  -- The classifier of the route.
  unfoldable pub classify_for_route : Text → Response → Failure
  classify_for_route path r =
      if is_responses_path path
      then classify_responses_http_error_bytes message_delay codec r
      else if is_gemini_path path
      then classify_gemini_http_error_bytes json lib codec r
      else if is_system_one_path path
      then classify_system_one_http_error_bytes json millis codec r
      else classify_http_error_bytes codec r

  -- The failure of a read, with the delay of the headers.
  unfoldable pub classify_broken : Text → Fault → ContextEnd → Header → Failure
  classify_broken path fault ended h =
      let f = classify_transport fault ended in
      let delay =
        if is_system_one_path path
        then system_one_retry_after_seconds json millis codec h
        else retry_after_seconds codec (get h (text "Retry-After")) in
      if f.transient then record f { retry_after = delay } else f

  -- `classifyHTTPErrorForPath`.
  unfoldable pub classify_http_error_for_path :
      Text → Response → Option Fault → ContextEnd → Failure
  unfolding classify_for_route classify_broken
  classify_http_error_for_path path r none ended = classify_for_route path r
  classify_http_error_for_path path r (some fault) ended =
      if is_none (http_retry_hint r.header) || has_ended ended
      then classify_broken path fault ended r.header
      else classify_for_route path (record r { body = [] })
