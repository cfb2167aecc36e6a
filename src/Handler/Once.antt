-- ===== src/Handler/Once.antt =====
-- `proxyOnce` of main.go: one attempt, whose response is passed on as it is or becomes a failure.
-- Logging, the archive and the diagnostics of System One responses are left out.
pub mod Clients
use steady_proxy.Base.{
  ℕ, Bool, true, false, not, ◌&&◌, ◌||◌, Option, none, some, Text, leb, ltb, ◌==◌, if◌then◌else◌,
}
use steady_proxy.Config.{Config}
use steady_proxy.Failure.{Failure, Header}
use steady_proxy.Headers.{safe_response_headers}
use steady_proxy.Handler.Body.{Json}
use steady_proxy.Handler.Finish.{Reply, Ending, reply_to}
use steady_proxy.Handler.Turn.{Request, Rejection, budget_left, classify_upstream_http_error}

-- What the upstream did: no response, with the failure of `classifyTransport`; or a response, with
-- what classification would make of it and whether its whole body was copied.
pub data Upstream : Type 0 where
  no_response : Failure → Upstream
  response : Rejection → Bool → Upstream

-- What the client gets: a reply for a failure; or the status and headers of the upstream, with the
-- whole body, or with a cut connection.
pub data Once : Type 0 where
  failed : Reply → Once
  passed : ℕ → Header → Once
  cut : ℕ → Header → Once

module _ (cfg : Config) (json : Json) (req : Request) (is_get : Bool) where
  fail_with : Ending → Failure → Once
  fail_with e f = failed (reply_to cfg json req e f (f.transient && budget_left cfg json req))

  -- The test for a failure: not 304 to GET or HEAD, and no 2xx.
  is_failure : ℕ → Bool
  is_failure st = not (st == 304 && (is_get || req.is_head)) && (ltb st 200 || leb 300 st)

  -- `proxyOnce`.
  pub proxy_once : Ending → Upstream → Once
  unfolding fail_with is_failure
  proxy_once e (no_response f) = fail_with e f
  proxy_once e (response r copied) =
      let h = safe_response_headers r.header (req.is_head || r.status == 304) in
      if is_failure r.status
      then fail_with e (classify_upstream_http_error r false)
      else if copied
      then passed r.status h
      else cut r.status h
