-- ===== src/Classify/Writers.antt =====
-- The errors that the proxy itself answers with: `errorWriterFor` and the four writers, of
-- classify.go, responses.go, gemini_errors.go and systemone.go.
pub mod Signals
use steady_proxy.Base.{
  ℕ, Bool, true, false, List, [], ◌∷◌, ◌++◌, Text, text, ltb, ◌==◌, if◌then◌else◌, pos, to_upper,
  trim_space,
}
use steady_proxy.Gemini.Errors.{canonical, gemini_http_status, gemini_status_for_http}
use steady_proxy.Number.{itoa}
use steady_proxy.Route.{is_responses_path, is_gemini_path, is_system_one_path}

-- The values that the writers encode as JSON.
pub data ErrorBody : Type 0 where
  anthropic_body : Text → Text → ErrorBody
  openai_body : Text → Text → ErrorBody
  gemini_body : ℕ → Text → Text → ErrorBody
  system_one_body : Text → ErrorBody

-- What a writer sets, in order, the status, and the body.
pub record Written : Type 0 where
  pub headers : List (Text × Text)
  pub status : ℕ
  pub body : ErrorBody

unfoldable pub status_or_502 : ℕ → ℕ
status_or_502 st = if st == 0 then 502 else st

-- `errorWriter`: the verdict, status, type, message, wait and code.
abbrev pub ErrorWriter : Type 0
ErrorWriter = Bool → ℕ → Text → Text → ℕ → Text → Written

-- `writeAnthropicError`.
unfoldable pub write_anthropic_error : ErrorWriter
unfolding status_or_502
write_anthropic_error can_retry st atype message retry_after code = record {
  headers =
      (text "Content-Type", text "application/json")
      ∷ (text "X-Should-Retry", if can_retry then text "true" else text "false")
      ∷ ((if ltb 0 retry_after then (text "Retry-After", itoa (pos retry_after)) ∷ [] else [])
          ++ (text "X-Steady-Proxy-Reason", code) ∷ []);
  status = status_or_502 st;
  body = anthropic_body atype message;
}

-- `writeOpenAIError`.
unfoldable pub write_openai_error : ErrorWriter
unfolding status_or_502
write_openai_error can_retry st atype message retry_after code = record {
  headers =
      (text "Content-Type", text "application/json")
      ∷ (text "X-Should-Retry", if can_retry then text "true" else text "false")
      ∷ ((if ltb 0 retry_after then (text "Retry-After", itoa (pos retry_after)) ∷ [] else [])
          ++ (text "X-Steady-Proxy-Reason", code) ∷ []);
  status = status_or_502 st;
  body = openai_body message atype;
}

-- The canonical status of `writeGeminiError`: the type's own, or that of the HTTP status.
unfoldable pub native_status : Text → ℕ → Text
native_status atype st =
    let native = canonical atype in
    if gemini_http_status native == 0 then gemini_status_for_http st else native

-- `writeGeminiError`.
unfoldable pub write_gemini_error : ErrorWriter
unfolding status_or_502 native_status
write_gemini_error can_retry st atype message retry_after code = record {
  headers =
      (text "Content-Type", text "application/json")
      ∷ (text "X-Should-Retry", if can_retry then text "true" else text "false")
      ∷ ((if ltb 0 retry_after then (text "Retry-After", itoa (pos retry_after)) ∷ [] else [])
          ++ (text "X-Steady-Proxy-Reason", code) ∷ []);
  status = status_or_502 st;
  body = gemini_body (status_or_502 st) (native_status atype (status_or_502 st)) message;
}

-- `writeSystemOneError`.
unfoldable pub write_system_one_error : ErrorWriter
unfolding status_or_502
write_system_one_error can_retry st atype message retry_after code = record {
  headers =
      (text "Content-Type", text "application/json")
      ∷ (text "X-Should-Retry", if can_retry then text "true" else text "false")
      ∷ ((if ltb 0 retry_after then (text "Retry-After", itoa (pos retry_after)) ∷ [] else [])
          ++ (text "X-Steady-Proxy-Reason", code) ∷ []);
  status = status_or_502 st;
  body = system_one_body message;
}

-- `errorWriterFor`.
unfoldable pub error_writer_for : Text → ErrorWriter
error_writer_for path =
    if is_responses_path path
    then write_openai_error
    else if is_gemini_path path
    then write_gemini_error
    else if is_system_one_path path
    then write_system_one_error
    else write_anthropic_error
