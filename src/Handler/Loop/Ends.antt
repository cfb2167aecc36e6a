-- ===== src/Handler/Loop/Ends.antt =====
-- The loop ends.
use steady_proxy.Base.{ℕ, zero, suc, ◌+◌, ◌≤◌, Option, some, Text, length, arith, ◌≡◌, refl}
use steady_proxy.Config.{Config}
use steady_proxy.Handler.Body.{Json}
use steady_proxy.Handler.Turn.{Request, Handling, Attempt, Clock, Turn, again, stop, done, turn}
use steady_proxy.Handler.Turn.Potential.{potential, Shrinks, turn-Shrinks}
use steady_proxy.Handler.Finish.{Ending, finish}
use steady_proxy.Handler.Loop.{Answer, sent, replied, fresh, after_turn, handle_loop}

module _ (cfg : Config) (json : Json) (req : Request) where
  abbrev Known : Option Answer → Type 0
  Known o = (a : Answer) × (o ≡ some a)

  after_turn-Known :
      (e : Ending) (go : Handling → Option Answer) (s : Handling) (r : Turn)
      → Shrinks cfg json req s r
      → ((t : Handling) → suc (potential cfg json req t) ≤ potential cfg json req s → Known (go t))
      → Known (after_turn cfg json req e go r)
  unfolding after_turn
  after_turn-Known e go s (again t) h k = k t h
  after_turn-Known e go s (stop t) h k = (replied (finish cfg json req e t), refl)
  after_turn-Known e go s (done x) h k = (sent x, refl)

  handle_loop-Known :
      (world : ℕ → Attempt × Clock) (e : Ending) (fuel n : ℕ) (s : Handling)
      → suc (potential cfg json req s) ≤ fuel
      → Known (handle_loop cfg json req world e fuel n s)
  unfolding handle_loop
  handle_loop-Known world e zero n s h = absurd (omega (arith, h))
  handle_loop-Known world e (suc fuel) n s h =
      let (a, c) = world n in
      after_turn-Known e (handle_loop cfg json req world e fuel (suc n)) s (turn cfg json req a c s)
        (turn-Shrinks cfg json req a c s)
        (λ t g. handle_loop-Known world e fuel (suc n) t (omega (arith, h, g)))

  -- Whatever the upstream and the timers do at each attempt, the handler has an answer for the
  -- client after at most two attempts more than the local retries and the fallback models that are
  -- configured.
  pub handle_loop_total :
      (world : ℕ → Attempt × Clock) (e : Ending) (request : Text)
      → (a : Answer) × (handle_loop cfg json req world e
            (2 + cfg.tx_local_retries + length cfg.claude_refusal_fallbacks)
            0
            (fresh request)
          ≡ some a)
  handle_loop_total world e request = handle_loop-Known world e _ 0 (fresh request) (omega arith)
