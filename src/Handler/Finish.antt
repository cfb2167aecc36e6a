-- ===== src/Handler/Finish.antt =====
-- What the client gets behind the loop: the end of `handle`, and `writeFailure`, of main.go.
pub mod Verdict
use steady_proxy.Base.{
  ℕ, Bool, true, false, not, ◌&&◌, ◌||◌, List, [], ◌∷◌, ◌++◌, Option, none, some, Text, text,
  str_eq, to_lower, ◌==◌, if◌then◌else◌,
}
use steady_proxy.Classify.Surface.{retry_surface_for}
use steady_proxy.Config.{Config}
use steady_proxy.Failure.{Failure, Header, UpstreamReply, msg_for}
use steady_proxy.Fallback.{Disposition, fallback_stop, claude_fallback_action}
use steady_proxy.Headers.{safe_response_headers, keep, set_header}
use steady_proxy.Retry.{retry_after_for}
use steady_proxy.Handler.Body.{Json}
use steady_proxy.Handler.Turn.{Request, Held, Handling, fallback_active, budget_left, Sent}

-- What the client gets: the stream that is held, the upstream's own response, or an error envelope
-- with the retry verdict, the status, the type, the message, the wait and the code.
pub data Reply : Type 0 where
  original : Held → Reply
  verbatim : ℕ → Header → Text → Reply
  envelope : Bool → ℕ → Text → Text → ℕ → Text → Reply

-- `writeFailure`.
unfoldable pub write_failure : Bool → Failure → Bool → ℕ → Text → ℕ → Reply
write_failure is_head f can_retry st atype after =
    let synthesized = envelope can_retry st atype (msg_for f) after f.code in
    elim f.upstream [
      | none ↦ synthesized
      | some u ↦
          let h = set_header (text "X-Steady-Proxy-Reason") (text "x-steady-proxy-reason") f.code (
            set_header (text "X-Should-Retry") (text "x-should-retry") (text "false")
              (safe_response_headers u.header is_head)) in
          let no_delay =
            keep (λ k. not (str_eq k (text "retry-after") || str_eq k (text "retry-after-ms"))) h in
          if f.transient
          then synthesized
          else verbatim st (if st == u.status then h else no_delay) u.body
    ]

-- What holds once the loop is over: the failure of the request's end, if it has ended; the client
-- is still there; and the jitter.
pub record Ending : Type 0 where
  pub ended : Option Failure
  pub client_here : Bool
  pub jitter : ℕ

module _ (cfg : Config) (json : Json) (req : Request) where
  -- The verdict and the reply for a failure.
  unfoldable pub reply_to : Ending → Failure → Bool → Reply
  unfolding write_failure
  reply_to e f can_retry =
      let after =
        if not can_retry
        then 0
        else if f.retry_after == 0
        then retry_after_for e.jitter req.retry_count
        else f.retry_after in
      let (st, atype) = retry_surface_for req.path f can_retry in
      write_failure req.is_head f can_retry st atype after

  -- The end of `handle`.
  unfoldable pub finish : Ending → Handling → Reply
  finish e s =
      let last : Failure = elim e.ended [ none ↦ s.last | some f ↦ f ] in
      let can_retry = not (fallback_active s) && last.transient && budget_left cfg json req in
      let stops : Bool = elim (claude_fallback_action last) [ fallback_stop ↦ true | _ ↦ false ] in
      let kept : Reply = elim s.held_refusal [
        | some h ↦ original h
        | none ↦ elim s.held_safeguard [
          | some f ↦ reply_to e f can_retry
          | none ↦ reply_to e last can_retry
        ]
      ] in
      if fallback_active s && e.client_here && not stops then kept else reply_to e last can_retry
