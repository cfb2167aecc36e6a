-- ===== src/Classify/Surface/Clients.antt =====
-- What the surfaced status makes a client do, for the clients that read nothing else.
use steady_proxy.Base.{
  ℕ, Bool, true, false, not, ◌||◌, ◌≡◌, refl, arith, Text, leb, ◌==◌, if◌then◌else◌,
}
use steady_proxy.Classify.Surface.{retry_surface_for}
use steady_proxy.Failure.{Failure, status_for}
use steady_proxy.Route.{is_responses_path, is_gemini_path, is_system_one_path}
use steady_proxy.Route.Disjoint.{responses_only}

-- The routes whose clients ignore `X-Should-Retry`.
unfoldable pub by_status : Text → Bool
by_status path = is_responses_path path || is_gemini_path path || is_system_one_path path

-- Codex re-sends after every status but 400 and 429; the Gemini and System One SDKs re-send after
-- 408, 429 and 5xx.
pub client_resends : Text → ℕ → Bool
client_resends path st =
    if is_responses_path path
    then not (st == 400 || st == 429)
    else st == 408 || st == 429 || leb 500 st

-- On the routes whose clients decide by the status, the surfaced status makes the client re-send
-- exactly if the proxy wants a retry. The proxy wants one of transient failures only.
pub retry_surface_for-client_resends :
    (path : Text) (f : Failure) (can_retry : Bool)
    → by_status path ≡ true
    → (can_retry ≡ true → f.transient ≡ true)
    → client_resends path (retry_surface_for path f can_retry).0 ≡ can_retry
unfolding retry_surface_for by_status client_resends status_for
retry_surface_for-client_resends path f true s h = ground (arith, h refl)
retry_surface_for-client_resends path f false s h = ground (arith, responses_only path)
