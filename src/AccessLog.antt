-- ===== src/AccessLog.antt =====
-- The labels of the access log and of the archive (main.go): whose request it is, its effort, and
-- the fields of a line that stand only where they say something. `encoding/json` is a parameter.
use steady_proxy.Base.{
  Bool, false, not, ◌&&◌, ◌||◌, [], ◌∷◌, ◌++◌, Option, none, some, ℤ, pos, is_positive, zero, Text,
  text, is_nil, str_eq, contains, to_lower, trim_space, cut_prefix, if◌then◌else◌,
}
use steady_proxy.Number.{itoa}
use steady_proxy.Failure.{Header, get}
use steady_proxy.Route.{gemini_target, is_gemini_path, is_messages_path, is_responses_path}
use steady_proxy.Json.{JsonLib}
use steady_proxy.Gemini.Decimal.{GeminiLib}
use steady_proxy.Gemini.Object.{gemini_settings_of}

-- The members of a request's body that the labels read, each empty where the body has none: the
-- model, the two efforts, and `stream`; and the raw `system`, none where the body is no object.
pub record BodyLib : Type 0 where
  pub body_model : Text → Text
  pub reasoning_effort : Text → Text
  pub output_effort : Text → Text
  pub body_stream : Text → Bool
  pub body_system : Text → Option Text

-- `isEventStream`.
pub is_event_stream : Text → Bool
is_event_stream content_type = contains (to_lower content_type) (text "text/event-stream")

-- `agentKind`.
unfoldable pub agent_kind : Header → Text
agent_kind h =
    if not (is_nil (get h (text "X-Claude-Code-Parent-Agent-Id")))
      || contains (get h (text "User-Agent")) (text "sdk-cli")
    then text "sub"
    else text "main"

module _ (lib : BodyLib) where
  -- `requestWantsStream`.
  unfoldable pub request_wants_stream : Text → Bool
  request_wants_stream body = lib.body_stream body

  -- `isWorkflowAgent`.
  unfoldable pub is_workflow_agent : Text → Bool
  is_workflow_agent body = elim (lib.body_system body) [
    | none ↦ false
    | some system ↦ contains system (text "workflow orchestration script")
  ]

  -- `agentKindFull`.
  unfoldable pub agent_kind_full : Text → Header → Text → Text
  agent_kind_full path h body =
      if is_messages_path path && is_workflow_agent body then text "wf" else agent_kind h

  -- `modelOf`.
  unfoldable pub model_of : Text → Text
  model_of body = if is_nil (lib.body_model body) then text "?" else lib.body_model body

  -- `requestModelOf`.
  unfoldable pub request_model_of : Text → Text → Text
  request_model_of path body =
      if is_nil (gemini_target path).0 then model_of body else (gemini_target path).0

  -- `who`.
  unfoldable pub who : Text → Header → Text → Text
  who path h body = request_model_of path body ++ (text "/" ++ agent_kind_full path h body)

  -- `reasoningEffortOf`.
  pub reasoning_effort_of : JsonLib → GeminiLib → Text → Text → Text
  reasoning_effort_of json gemini path body =
      if is_gemini_path path
      then (gemini_settings_of json gemini body).thinking_level
      else if is_responses_path path
      then trim_space (lib.reasoning_effort body)
      else if is_messages_path path
      then trim_space (lib.output_effort body)
      else []

-- A text cut at the last place of a separator: `strings.LastIndex`.
unfoldable pub cut_last : Text → Text → Option (Text × Text)
cut_last sep [] = none
cut_last sep (c ∷ s) = elim (cut_last sep s) [
  | some (before, after) ↦ some (c ∷ before, after)
  | none ↦ elim (cut_prefix (c ∷ s) sep) [ none ↦ none | some after ↦ some ([], after) ]
]

is_unknown : Text → Bool
is_unknown model = is_nil model || str_eq model (text "?")

-- The model that a chain of fallbacks ended with is the resolved one.
ends_with : Text → Text → Bool
ends_with resolved model = elim (cut_last (text "~>") model) [
  | none ↦ false
  | some (before, after) ↦ str_eq after resolved
]

resolve_in : Text → Text → Option (Text × Text) → Text
unfolding is_unknown ends_with
resolve_in req_who resolved none =
    if is_unknown req_who
    then resolved
    else if str_eq req_who resolved
    then req_who
    else req_who ++ (text "->" ++ resolved)
resolve_in req_who resolved (some (req_model, agent)) =
    if str_eq req_model resolved
    then req_who
    else if ends_with resolved req_model
    then req_who
    else if is_unknown req_model
    then resolved ++ (text "/" ++ agent)
    else req_model ++ (text "->" ++ (resolved ++ (text "/" ++ agent)))

-- `whoWithResolvedModel`.
unfoldable pub who_with_resolved_model : Text → Text → Text
unfolding resolve_in
who_with_resolved_model req_who resolved =
    let model = trim_space resolved in
    if is_nil model then req_who else resolve_in req_who model (cut_last (text "/") req_who)

-- `dash`.
pub dash : Text → Text
dash s = if is_nil s then text "-" else s

-- `effortField` and `localRetryModeField`.
pub effort_field : Text → Text
effort_field effort = if is_nil effort then [] else text "  " ++ effort

pub local_retry_mode_field : Text → Text
local_retry_mode_field mode = if is_nil mode then [] else text "  mode=" ++ mode

-- `att`.
pub att : ℤ → Text
att (pos zero) = []
att n = text "  attempt=" ++ itoa n

-- `retryField`, `proxyRetryField` and `prunField`.
pub retry_field : ℤ → Text
retry_field secs = if is_positive secs then text "  retry-after=" ++ (itoa secs ++ text "s") else []

pub proxy_retry_field : ℤ → Text
proxy_retry_field n = if is_positive n then text "  proxy-retries=" ++ itoa n else []

pub prun_field : ℤ → Text
prun_field n = if is_positive n then text "  prun=" ++ itoa n else []

-- `refusalFields`; `quote` is Go's `%q`.
pub refusal_fields : (Text → Text) → Text → Text → Text
refusal_fields quote category reason =
    (if is_nil category then [] else text "  refusal-category=" ++ quote category)
    ++ (if is_nil reason then [] else text "  refusal-reason=" ++ quote reason)
