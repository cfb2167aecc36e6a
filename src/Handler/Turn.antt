-- ===== src/Handler/Turn.antt =====
-- One turn of the loop: the outcome of an attempt decides whether another one is made.
pub mod Potential
pub mod Original
use steady_proxy.Base.{
  ℕ, suc, ◌+◌, Bool, true, false, not, ◌&&◌, ◌||◌, List, [], ◌∷◌, ◌++◌, Option, none, some, Text,
  text, is_nil, drop, ◌==◌, ltb, leb, if◌then◌else◌, ℤ, pos, negsuc,
}
use steady_proxy.Config.{Config}
use steady_proxy.Failure.{Failure, Header, UpstreamReply, orig_type_of}
use steady_proxy.Fallback.{
  Disposition, fallback_stop, fallback_next, fallback_original, claude_fallback_action,
  is_model_safeguard_refusal, next_fallback,
}
use steady_proxy.Retry.{local_retry_delay}
use steady_proxy.Sse.Capture.{is_some}
use steady_proxy.Sse.Spool.{Spool}
use steady_proxy.Sse.Wire.{CaptureStats}
use steady_proxy.Handler.Body.{Json, swap_model}

-- What `handle` fixes before the loop.
pub record Request : Type 0 where
  pub path : Text
  pub is_head : Bool
  pub first_model : Text
  pub intercept_refusal : Bool
  pub retry_count : ℤ

-- `bufferedStream`.
pub record Held : Type 0 where
  pub spool : Spool
  pub header : Header
  pub stats : CaptureStats

-- The variables of the loop.
pub record Handling : Type 0 where
  pub body : Text
  pub last : Failure
  pub proxy_retries : ℕ
  pub legacy_fast_used : Bool
  pub fallback_index : ℕ
  pub held_refusal : Option Held
  pub held_safeguard : Option Failure

-- A response that is no success: its classification by `classifyHTTPErrorForPath`, and whether its
-- body was read and is complete.
pub record Rejection : Type 0 where
  pub status : ℕ
  pub header : Header
  pub body : Text
  pub classified : Failure
  pub was_read : Bool
  pub is_complete : Bool

-- What came of an attempt: no response; a rejection; a body that is no stream, with the failure of
-- buffering it or else whether its replay worked; a captured stream.
pub data Attempt : Type 0 where
  unreachable : Failure → Attempt
  rejected : Rejection → Attempt
  unreadable : Failure → Attempt
  plain_body : Bool → Attempt
  captured : Bool → Option Failure → CaptureStats → Header → Attempt

-- What the timers say after it: less than three seconds have passed; `canWait`; the wait ran out
-- before the request ended, or the failure of the end; a fallback may still be tried.
pub record Clock : Type 0 where
  pub quick : Bool
  pub can_wait : ℕ → Bool
  pub wait_ended : Option Failure
  pub window_open : Bool

-- What the client got once the loop is over: a complete answer, the upstream's own error frame at
-- the end of a live stream, or a cut connection.
pub data Sent : Type 0 where
  answered delivered_failure aborted : Sent

-- Another attempt, the end of the loop with the last failure, or a return.
pub data Turn : Type 0 where
  again stop : Handling → Turn
  done : Sent → Turn

abbrev pub fallback_active : Handling → Bool
fallback_active s = is_some s.held_refusal || is_some s.held_safeguard

abbrev pub below : ℤ → ℕ → Bool
below (pos n) m = ltb n m
below (negsuc n) m = true

-- 250 milliseconds.
abbrev fast_wait : ℕ
fast_wait = 250000000

-- The part of `classifyUpstreamHTTPError` that follows the classification.
unfoldable pub classify_upstream_http_error : Rejection → Bool → Failure
classify_upstream_http_error r in_fallback =
    let f = record (r.classified) { orig_status = r.status } in
    let stops : Bool = elim (claude_fallback_action f) [ fallback_stop ↦ true | _ ↦ false ] in
    let g =
      if in_fallback && r.was_read && f.transient && stops
      then record f {
        transient = false;
        fast_retry = false;
        status = r.status;
        atype = orig_type_of f;
      }
      else f in
    if not g.transient && r.was_read && r.is_complete && leb 400 r.status
    then record g {
      upstream = some (record { status = r.status; header = r.header; body = r.body });
    }
    else g

module _ (cfg : Config) (json : Json) (req : Request) where
  -- `budgetLeft`.
  abbrev pub budget_left : Bool
  budget_left = below req.retry_count cfg.sdk_retry_cap

  -- `waitToRetry`: the state, and whether to go on.
  wait_to_retry : Clock → Handling → Bool × Handling
  wait_to_retry c s = elim c.wait_ended [
    | none ↦ (true, s)
    | some f ↦ (false, record s { last = f })
  ]

  -- `tryLocalRetry`.
  unfoldable pub try_local_retry : Clock → Failure → Handling → Bool × Handling
  unfolding wait_to_retry
  try_local_retry c f s =
      let wait =
        local_retry_delay cfg.local_backoff_cap (pos f.retry_after) (pos s.proxy_retries) in
      let (go, t) = wait_to_retry c s in
      if fallback_active s
        || cfg.tx_local_retries == 0
        || leb cfg.tx_local_retries s.proxy_retries
        || not f.transient
        || not budget_left
        || not (c.can_wait wait)
      then (false, s)
      else if go
      then (true, record t { proxy_retries = suc t.proxy_retries })
      else (false, t)

  -- The request for the model at the index, and the index behind it; or no attempt.
  adopt : Handling → Option Text → Bool × Handling
  adopt s none = (false, s)
  adopt s (some b) = (true, record s { fallback_index = suc s.fallback_index; body = b })

  -- `swapToFallback`.
  unfoldable pub swap_to_fallback : Clock → Handling → Bool × Handling
  unfolding adopt
  swap_to_fallback c s =
      let (i, target) =
        next_fallback req.first_model (drop s.fallback_index cfg.claude_refusal_fallbacks)
          s.fallback_index in
      let moved = record s { fallback_index = i } in
      let swapped : Bool × Handling = elim target [
        | none ↦ (false, moved)
        | some model ↦ adopt moved (if is_nil model then none else swap_model json s.body model)
      ] in
      if c.window_open then swapped else (false, s)

  -- `advanceFallback`.
  unfoldable pub advance_fallback : Clock → Failure → Handling → Bool × Handling
  unfolding swap_to_fallback
  advance_fallback c f s =
      let next : Bool = elim (claude_fallback_action f) [ fallback_next ↦ true | _ ↦ false ] in
      if fallback_active s && next then swap_to_fallback c s else (false, s)

  -- The single fast retry, which the request shares.
  unfoldable pub legacy_fast : Clock → Handling → Turn
  unfolding wait_to_retry
  legacy_fast c s =
      let (go, t) = wait_to_retry c s in
      if go
      then again (record t { legacy_fast_used = true; proxy_retries = suc t.proxy_retries })
      else stop t

  -- Another attempt where the test passed.
  unfoldable pub or_else : Bool × Handling → (Handling → Turn) → Turn
  or_else (true, s) go = again s
  or_else (false, s) go = go s

  unfoldable pub may_be_fast : Clock → Handling → Bool
  may_be_fast c s =
      not s.legacy_fast_used && s.last.fast_retry && budget_left && c.quick && c.can_wait fast_wait

  -- No response came.
  unfoldable pub on_unreachable : Clock → Failure → Handling → Turn
  on_unreachable c f s = or_else (try_local_retry c f (record s { last = f })) (λ t.
      if (fallback_active t || cfg.tx_local_retries == 0) && may_be_fast c t
      then legacy_fast c t
      else or_else (advance_fallback c t.last t) stop)

  -- The original model's safeguard refusal is kept, and the next model tried.
  unfoldable pub keep_safeguard : Failure → Handling → Handling
  keep_safeguard f s = if fallback_active s then s else record s { held_safeguard = some f }

  -- The fast retry behind a rejection.
  unfoldable pub rejected_fast : Clock → Handling → Turn
  unfolding legacy_fast may_be_fast
  rejected_fast c s =
      if not (fallback_active s)
        && cfg.tx_local_retries == 0
        && s.last.retry_after == 0
        && may_be_fast c s
      then legacy_fast c s
      else stop s

  unfoldable pub on_rejected : Clock → Failure → Handling → Turn
  on_rejected c f s =
      let t = record s { last = f } in
      if req.intercept_refusal && is_model_safeguard_refusal f
      then or_else (swap_to_fallback c (keep_safeguard f t)) stop
      else or_else (advance_fallback c f t) (λ u. or_else (try_local_retry c f u) (rejected_fast c))

  -- A failure before anything was sent: the next model, or else a local retry.
  unfoldable pub on_failure : Clock → Failure → Handling → Turn
  on_failure c f s =
      or_else (advance_fallback c f (record s { last = f }))
        (λ t. or_else (try_local_retry c f t) stop)

  unfoldable pub keep_refusal : Held → Handling → Handling
  keep_refusal h s = if fallback_active s then s else record s { held_refusal = some h }

  unfoldable pub on_stream_failure :
      Clock → Bool → Failure → CaptureStats → Header → Handling → Turn
  on_stream_failure c wrote f st hdr s = elim st.held_refusal [
    | some sp ↦
        let held : Held = record {
          spool = sp;
          header = hdr;
          stats = record st { held_refusal = none };
        } in
        or_else (swap_to_fallback c (record (keep_refusal held s) { last = f })) stop
    | none ↦
        if not wrote && req.intercept_refusal && is_model_safeguard_refusal f
        then or_else (swap_to_fallback c (keep_safeguard f s)) (λ t. stop (record t { last = f }))
        else if wrote
        then done (if f.delivered then delivered_failure else aborted)
        else on_failure c f s
  ]

  unfoldable pub turn : Attempt → Clock → Handling → Turn
  unfolding on_unreachable on_rejected on_failure on_stream_failure
  turn (unreachable f) c s = on_unreachable c f s
  turn (rejected r) c s = on_rejected c (classify_upstream_http_error r (fallback_active s)) s
  turn (unreadable f) c s = on_failure c f s
  turn (plain_body true) c s = done answered
  turn (plain_body false) c s = done aborted
  turn (captured wrote none st hdr) c s = done answered
  turn (captured wrote (some f) st hdr) c s = on_stream_failure c wrote f st hdr s
