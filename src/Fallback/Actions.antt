-- ===== src/Fallback/Actions.antt =====
-- When a fallback chain moves on to another model.
use steady_proxy.Base.{Bool, true, false, ◌||◌, ◌≡◌, ◌==◌, text, str_eq, arith, not, ◌&&◌}
use steady_proxy.Failure.{Failure, orig_status_of, orig_type_of}
use steady_proxy.Fallback.{
  claude_fallback_action, fallback_next, is_claude_fallback_account_error, is_refusal,
  is_missing_model, is_bad_request,
}

-- A rate limit of the account, or a fault of the proxy's own disk.
abbrev pub is_local : Failure → Bool
is_local f =
    str_eq (orig_type_of f) (text "rate_limit_error")
    || orig_status_of f == 429
    || str_eq f.code (text "spool_error")

-- A chain moves on to the next model only behind a failure that is no account error, and then only
-- for a refusal, or, where the upstream does not report a rate limit, for a missing model or a
-- transient failure that is neither a bad request, a rate limit nor a fault of the proxy's disk.
pub claude_fallback_action-next :
    (f : Failure)
    → claude_fallback_action f ≡ fallback_next
    → (is_claude_fallback_account_error f ≡ false)
      × ((is_refusal f
            || not (str_eq (orig_type_of f) (text "rate_limit_error"))
              && (is_missing_model f || f.transient && not (is_bad_request f) && not (is_local f)))
          ≡ true)
unfolding claude_fallback_action
claude_fallback_action-next f h = ground (arith, h)
