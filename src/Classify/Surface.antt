-- ===== src/Classify/Surface.antt =====
-- classify.go: the status and the type that the client sees.
pub mod Clients
use steady_proxy.Base.{ℕ, Bool, true, false, not, ◌&&◌, ◌||◌, Text, text, leb, ◌==◌, if◌then◌else◌}
use steady_proxy.Failure.{Failure, status_for}
use steady_proxy.Route.{is_responses_path, is_gemini_path, is_system_one_path}

-- `surface`: every retryable failure has one generic shape.
unfoldable pub surface : Failure → ℕ × Text
surface f = if f.transient then (503, text "api_error") else (status_for f, f.atype)

-- `surfaceFor`.
unfoldable pub surface_for : Text → Failure → ℕ × Text
unfolding surface
surface_for path f =
    let (st, atype) = surface f in
    if not f.transient && is_responses_path path && not (st == 400) && not (st == 429)
    then (400, atype)
    else (st, atype)

-- `f` with the status that stops a client which retries by status.
stopped : Text → Failure → Failure
stopped path f =
    let st = status_for f in
    let by_status = is_gemini_path path || is_system_one_path path in
    if by_status && (f.transient || st == 408 || st == 429 || leb 500 st)
    then record f { transient = false; status = 400 }
    else record f { transient = false }

-- `retrySurfaceFor`.
unfoldable pub retry_surface_for : Text → Failure → Bool → ℕ × Text
unfolding surface_for stopped
retry_surface_for path f can_retry =
    if (is_responses_path path || is_gemini_path path || is_system_one_path path) && not can_retry
    then surface_for path (stopped path f)
    else surface_for path f
