-- ===== src/Handler/Once/Clients.antt =====
-- What the clients that decide by the status make of a failed attempt.
use steady_proxy.Base.{ℕ, Bool, true, false, ◌&&◌, Text, ◌≡◌, arith, Option-cases, inl, inr}
use steady_proxy.Classify.Surface.{retry_surface_for}
use steady_proxy.Classify.Surface.Clients.{
  by_status, client_resends, retry_surface_for-client_resends,
}
use steady_proxy.Config.{Config}
use steady_proxy.Failure.{Failure}
use steady_proxy.Handler.Body.{Json}
use steady_proxy.Handler.Finish.{
  Reply, original, verbatim, envelope, Ending, write_failure, reply_to,
}
use steady_proxy.Handler.Finish.Verdict.{invites, reply_to-invites}
use steady_proxy.Handler.Once.{
  Upstream, no_response, response, Once, failed, passed, cut, fail_with, proxy_once,
}
use steady_proxy.Handler.Turn.{Request, budget_left, classify_upstream_http_error}

-- The status of a reply; a held stream has 200.
abbrev pub reply_status : Reply → ℕ
reply_status (original h) = 200
reply_status (verbatim st h b) = st
reply_status (envelope r st atype msg after code) = st

write_failure-status :
    (is_head : Bool) (f : Failure) (can_retry : Bool) (st : ℕ) (atype : Text) (after : ℕ)
    → reply_status (write_failure is_head f can_retry st atype after) ≡ st
unfolding write_failure
write_failure-status is_head f can_retry st atype after = elim (Option-cases f.upstream) [
  | inl e ↦ ground (arith, e)
  | inr (u, e) ↦ ground (arith, e)
]

module _ (cfg : Config) (json : Json) (req : Request) (is_get : Bool) where
  reply_to-status :
      (e : Ending) (f : Failure) (can_retry : Bool)
      → reply_status (reply_to cfg json req e f can_retry)
        ≡ (retry_surface_for req.path f can_retry).0
  unfolding reply_to
  reply_to-status e f can_retry = write_failure-status req.is_head f can_retry _ _ _

  -- The status of a reply and its verdict say the same; anything else holds no reply.
  abbrev pub Agrees : Once → Type 0
  Agrees (failed r) = client_resends req.path (reply_status r) ≡ invites r
  Agrees (passed st h) = Unit
  Agrees (cut st h) = Unit

  fail_with-Agrees :
      (e : Ending) (f : Failure)
      → by_status req.path ≡ true
      → Agrees (fail_with cfg json req is_get e f)
  unfolding fail_with
  fail_with-Agrees e f h =
      let can_retry = f.transient && budget_left cfg json req in
      let may : can_retry ≡ true → f.transient ≡ true = λ k. ground (arith, k) in
      rw (reply_to-status e f can_retry, reply_to-invites cfg json req e f can_retry may)
        (retry_surface_for-client_resends req.path f can_retry h may)

  -- On the routes whose clients decide by the status, the status of the reply to a failed attempt
  -- makes the client send the request again exactly if the reply's verdict tells it to.
  pub proxy_once-Agrees :
      (e : Ending) (u : Upstream)
      → by_status req.path ≡ true
      → Agrees (proxy_once cfg json req is_get e u)
  unfolding proxy_once
  proxy_once-Agrees e (no_response f) h = fail_with-Agrees e f h
  proxy_once-Agrees e (response r copied) h =
      ground (arith, h, fail_with-Agrees e (classify_upstream_http_error r false) h)
