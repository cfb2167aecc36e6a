-- ===== src/Classify/Sse/Verdicts.antt =====
-- The verdict on an error event.
use steady_proxy.Base.{true, ◌&&◌, ◌||◌, Text, leb, ltb, ◌==◌, ◌≡◌, arith}
use steady_proxy.Classify.Codec.{Codec}
use steady_proxy.Classify.Sse.{anthropic_permanent_status, classify_sse_error}

-- The status of a permanent type is none, or below 429.
permanent_status_final :
    (t : Text)
    → (anthropic_permanent_status t == 0
        || leb 400 (anthropic_permanent_status t) && ltb (anthropic_permanent_status t) 429)
      ≡ true
unfolding anthropic_permanent_status
permanent_status_final t = ground arith

-- Whatever an error event holds, its failure has a status of at least 400, and is transient exactly
-- if that is 429 or at least 500.
pub classify_sse_error-transient :
    (c : Codec) (b : Text)
    → let f = classify_sse_error c b in
      (f.transient ≡ (f.status == 429 || leb 500 f.status)) × (leb 400 f.status ≡ true)
unfolding classify_sse_error
classify_sse_error-transient c b = ground (arith, permanent_status_final (c.error_fields b).kind)
