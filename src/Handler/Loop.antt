-- ===== src/Handler/Loop.antt =====
-- The loop of `handle`: turns until one returns or ends it.
pub mod Ends
pub mod Original
use steady_proxy.Base.{ℕ, zero, suc, Bool, true, false, Option, none, some, Text}
use steady_proxy.Config.{Config}
use steady_proxy.Failure.{Failure, zero_failure}
use steady_proxy.Handler.Body.{Json}
use steady_proxy.Handler.Turn.{
  Request, Handling, Attempt, Clock, Turn, again, stop, done, Sent, turn,
}
use steady_proxy.Handler.Finish.{Reply, Ending, finish}

-- What `handle` leaves: the outcome of a stream or a body that was sent, or a reply.
pub data Answer : Type 0 where
  sent : Sent → Answer
  replied : Reply → Answer

-- The variables at the start.
abbrev pub fresh : Text → Handling
fresh body = record {
  body = body;
  last = zero_failure;
  proxy_retries = 0;
  legacy_fast_used = false;
  fallback_index = 0;
  held_refusal = none;
  held_safeguard = none;
}

module _ (cfg : Config) (json : Json) (req : Request) where
  -- A turn ends the loop, or `go` goes on.
  after_turn : Ending → (Handling → Option Answer) → Turn → Option Answer
  after_turn e go (again t) = go t
  after_turn e go (stop t) = some (replied (finish cfg json req e t))
  after_turn e go (done x) = some (sent x)

  -- `world n` is what the upstream and the timers do at attempt `n`; none where the fuel, the
  -- number of attempts, is used up.
  pub handle_loop : (ℕ → Attempt × Clock) → Ending → ℕ → ℕ → Handling → Option Answer
  unfolding after_turn
  handle_loop world e zero n s = none
  handle_loop world e (suc fuel) n s =
      after_turn e (handle_loop world e fuel (suc n)) (turn cfg json req (world n).0 (world n).1 s)
