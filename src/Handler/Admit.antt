-- ===== src/Handler/Admit.antt =====
-- `handle` (main.go) up to its retry loop: what is refused at once, what is proxied once, and how a
-- stream that is held is to be handled. `keepaliveWindow` too.
pub mod Window
use steady_proxy.Base.{
  ℕ, zero, Bool, true, false, not, ◌&&◌, ◌||◌, ◌++◌, Option, none, some, ℤ, Text, text, is_nil,
  str_eq, if◌then◌else◌,
}
use steady_proxy.Config.{Config}
use steady_proxy.Failure.{Failure, Header, zero_failure, get}
use steady_proxy.Number.{atoi_safe}
use steady_proxy.Json.{JsonLib}
use steady_proxy.Gemini.Decimal.{GeminiLib}
use steady_proxy.Route.{is_messages_path, is_responses_path, gemini_target}
use steady_proxy.Classify.Surface.{surface_for}
use steady_proxy.Fallback.{is_claude_model, next_fallback}
use steady_proxy.AccessLog.{
  BodyLib, request_wants_stream, is_workflow_agent, model_of, who, reasoning_effort_of,
}
use steady_proxy.Archive.Attempt.{Incoming}
use steady_proxy.Handler.Reading.{BodyRead, read_whole, too_big, read_failed}
use steady_proxy.Transport.{buffer_deadline}
use steady_proxy.Version.{VersionInfo, VersionReply, handle_version_request, not_handled}

-- `config.keepaliveWindow`.
unfoldable pub keepalive_window : Config → Bool → Bool → Bool → ℕ
keepalive_window cfg is_resp early_commit gated =
    if early_commit
    then cfg.responses_keepalive
    else if is_resp
    then cfg.responses_buffer
    else if gated
    then cfg.wf_keepalive
    else cfg.keepalive

-- An answer of the proxy's own, with no retry.
pub record Refusal : Type 0 where
  pub status : ℕ
  pub atype : Text
  pub message : Text
  pub code : Text
  pub closes : Bool

-- The variables that the loop reads.
pub record Plan : Type 0 where
  pub is_resp : Bool
  pub is_messages : Bool
  pub gemini_stream : Bool
  pub early_commit : Bool
  pub gated : Bool
  pub intercept_refusal : Bool
  pub retry_count : ℤ
  pub req_who : Text
  pub req_effort : Text
  pub first_model : Text
  pub commit_by : Option ℕ

pub data Admission : Type 0 where
  version_reply : VersionReply → Admission
  refused : Refusal → Admission
  single_shot : Text → Admission
  held : Plan → Admission

-- The outcome of setting the two deadlines of the connection.
pub data Deadlines : Type 0 where
  deadlines_set read_unset write_unset : Deadlines

is_some : Option Text → Bool
is_some none = false
is_some (some m) = true

-- The body does not fit: the status by the route's client.
oversized : Text → Bool → Refusal
oversized path http1 =
    let (st, ty) =
      surface_for path
        (record zero_failure { status = 413; atype = text "invalid_request_error" }) in
    record {
      status = st;
      atype = ty;
      message = text "steady-proxy: " ++ text "request body exceeds limit";
      code = text "request_too_large";
      closes = http1;
    }

refusal : ℕ → Text → Text → Refusal
refusal st message code = record {
  status = st;
  atype = text "api_error";
  message = message;
  code = code;
  closes = false;
}

-- `alt` is the query's value of that name.
module _ (cfg : Config) (lib : BodyLib) (json : JsonLib) (gemini : GeminiLib)
    (alt : Text → Text) where
  -- `geminiStream`.
  unfoldable pub is_gemini_stream : Incoming → Bool
  is_gemini_stream r =
      str_eq (gemini_target r.path).1 (text "streamGenerateContent")
      && str_eq (alt r.raw_query) (text "sse")

  -- `transactional`.
  unfoldable pub is_transactional : Incoming → Text → Bool
  is_transactional r body =
      str_eq r.method (text "POST")
      && (is_gemini_stream r
          || (request_wants_stream lib body
              && (is_messages_path r.path || is_responses_path r.path)))

  unfoldable pub window_of : Incoming → Text → ℕ
  window_of r body =
      if is_gemini_stream r
      then cfg.gemini_buffer
      else keepalive_window cfg (is_responses_path r.path)
          (is_responses_path r.path && cfg.responses_early_commit)
          (is_messages_path r.path && is_workflow_agent lib body)

  unfoldable pub plan : ℕ → Incoming → Text → Plan
  unfolding is_some
  plan start r body = record {
    is_resp = is_responses_path r.path;
    is_messages = is_messages_path r.path;
    gemini_stream = is_gemini_stream r;
    early_commit = is_responses_path r.path && cfg.responses_early_commit;
    gated = is_messages_path r.path && is_workflow_agent lib body;
    intercept_refusal =
        is_messages_path r.path
        && is_claude_model (model_of lib body)
        && is_some (next_fallback (model_of lib body) cfg.claude_refusal_fallbacks 0).1;
    retry_count = atoi_safe (get r.header (text "X-Stainless-Retry-Count"));
    req_who = who lib r.path r.header body;
    req_effort = reasoning_effort_of lib json gemini r.path body;
    first_model = model_of lib body;
    commit_by = buffer_deadline start (window_of r body);
  }

  -- With the body.
  with_body : ℕ → Bool → Incoming → BodyRead → Admission
  unfolding oversized refusal
  with_body start http1 r too_big = refused (oversized r.path http1)
  with_body start http1 r (read_failed err) =
      refused (refusal 502 (text "proxy: reading request body") (text "read_body"))
  with_body start http1 r (read_whole body) =
      if is_transactional r body then held (plan start r body) else single_shot body

  -- `handle`, by the time, the deadlines, whether the protocol is HTTP/1, and the body.
  unfoldable pub admit : VersionInfo → ℕ → Deadlines → Bool → Incoming → BodyRead → Admission
  unfolding with_body refusal
  admit version start deadlines http1 r body =
      elim (handle_version_request version r.path r.method) [
        | not_handled ↦ elim deadlines [
          | read_unset ↦
              refused
                (refusal 500 (text "proxy: setting request read deadline") (text "read_deadline"))
          | write_unset ↦
              refused (
                refusal 500 (text "proxy: setting response write deadline") (text "write_deadline"))
          | deadlines_set ↦ with_body start http1 r body
        ]
        | reply ↦ version_reply reply
      ]
