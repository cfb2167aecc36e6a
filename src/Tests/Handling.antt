-- ===== src/Tests/Handling.antt =====
-- Retries and fallbacks on concrete requests.
use steady_proxy.Base.{
  ltb_ℤ, pos, ℕ, true, false, not, ◌&&◌, [], ◌∷◌, Option, none, some, ◌≡◌, ◌⊎◌, refl, Text, text,
  str_eq, pos, arith, contains, to_lower, if◌then◌else◌, ◌+◌, ◌*◌,
}
use steady_proxy.Config.{Config}
use steady_proxy.Failure.{Failure, zero_failure, orig_status_of, orig_type_of}
use steady_proxy.Fallback.{
  claude_fallback_action, fallback_next, is_claude_fallback_account_error, is_refusal,
  is_missing_model, is_model_safeguard_refusal,
}
use steady_proxy.Retry.{local_retry_delay, second, max_duration}
use steady_proxy.Retry.Bounds.{minimum, pow2, local_retry_delay_lem}
use steady_proxy.Sse.Spool.{new_spool}
use steady_proxy.Sse.Wire.{new_stats}
use steady_proxy.Handler.Body.{Json}
use steady_proxy.Handler.Turn.{
  Request, Held, Handling, Attempt, unreachable, Clock, fallback_active,
}
use steady_proxy.Handler.Finish.{Ending, finish}
use steady_proxy.Handler.Finish.Verdict.{invites, final_failure, finish-invites}
use steady_proxy.Handler.Loop.{Answer, fresh, handle_loop}
use steady_proxy.Handler.Loop.Ends.{handle_loop_total}
use steady_proxy.Handler.Loop.Original.{delivered, handle_loop-Delivers}
use steady_proxy.Classify.Surface.Clients.{by_status}
use steady_proxy.Handler.Once.{proxy_once, no_response}
use steady_proxy.Handler.Once.Clients.{Agrees, proxy_once-Agrees}
use steady_proxy.Route.{is_responses_path, path_is, is_gemini_path, is_system_one_path}
use steady_proxy.Tests.Streams.{small}

local_retry_delay_lem_example :
    local_retry_delay (5 * second) (pos 2) (pos 3)
    ≡ minimum max_duration (2 * second + minimum (5 * second) (second * pow2 3))
local_retry_delay_lem_example = local_retry_delay_lem (5 * second) (pos 2) (pos 3) (omega arith)

abbrev missing : Failure
missing = record zero_failure { status = 404; code = text "upstream_404" }

missing_next : claude_fallback_action missing ≡ fallback_next
unfolding claude_fallback_action is_claude_fallback_account_error orig_status_of str_eq orig_type_of
    is_refusal is_model_safeguard_refusal contains to_lower is_missing_model
missing_next = refl

abbrev setting : Text → Option Text
setting k =
    if str_eq k (text "PROXY_CLAUDE_REFUSAL_FALLBACK_MODELS")
    then some (text "claude-a, claude-b,claude-a")
    else none

-- Objects with the field `model` only.
abbrev models_only : Json
models_only = record {
  decode_object = λ b. some ((text "model", b) ∷ []);
  encode_object = λ m. elim m [ [] ↦ [] | (k, v) ∷ r ↦ v ];
  encode_string = λ s. s;
}

abbrev chained : Config
chained = record small { claude_refusal_fallbacks = text "claude-a" ∷ text "claude-b" ∷ [] }

abbrev request : Request
request = record {
  path = text "/v1/messages";
  is_head = false;
  first_model = text "claude-a";
  intercept_refusal = true;
  retry_count = pos 0;
}

abbrev clock : Clock
clock = record { quick = true; can_wait = λ d. true; wait_ended = none; window_open = true }

abbrev open_end : Ending
open_end = record { ended = none; client_here = true; jitter = 0 }

abbrev held : Held
held = record { spool = new_spool; header = []; stats = new_stats }

abbrev holding : Handling
holding = record (fresh (text "claude-a")) { held_refusal = some held }

abbrev broken : Failure
broken = record zero_failure { transient = true; status = 503; code = text "upstream_503" }

abbrev always_broken : ℕ → Attempt × Clock
always_broken n = (unreachable broken, clock)

finish-invites_example :
    invites (finish chained models_only request open_end (record (fresh []) { last = broken })) ≡ (
      not (fallback_active (record (fresh []) { last = broken }))
      && (final_failure open_end (record (fresh []) { last = broken })).transient
      && ltb_ℤ request.retry_count (pos chained.sdk_retry_cap))
finish-invites_example =
    finish-invites chained models_only request open_end (record (fresh []) { last = broken })

handle_loop_total_example :
    (a : Answer) × (handle_loop chained models_only request always_broken open_end 6 0
        (fresh (text "claude-a"))
      ≡ some a)
handle_loop_total_example =
    handle_loop_total chained models_only request always_broken open_end (text "claude-a")

handle_loop-Delivers_example :
    let o = handle_loop chained models_only request always_broken open_end 6 0 holding in
    (delivered o ≡ none) ⊎ (delivered o ≡ some held)
handle_loop-Delivers_example =
    handle_loop-Delivers chained models_only request always_broken open_end 6 0 holding refl

abbrev codex : Request
codex = record request { path = text "/v1/responses" }

codex_by_status : by_status codex.path ≡ true
unfolding by_status is_responses_path path_is is_gemini_path is_system_one_path str_eq
codex_by_status = refl

proxy_once-Agrees_example :
    Agrees chained models_only codex true
      (proxy_once chained models_only codex true open_end (no_response broken))
proxy_once-Agrees_example =
    proxy_once-Agrees chained models_only codex true open_end (no_response broken) codex_by_status
