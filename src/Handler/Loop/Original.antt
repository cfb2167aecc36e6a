-- ===== src/Handler/Loop/Original.antt =====
-- The answer that is delivered behind a fallback chain is the one that started it.
use steady_proxy.Base.{
  ℕ, zero, suc, Bool, true, false, not, ◌&&◌, Option, none, some, Text, arith, ◌≡◌, refl,
  Option-cases, Bool-cases, ◌⊎◌, inl, inr,
}
use steady_proxy.Config.{Config}
use steady_proxy.Failure.{Failure}
use steady_proxy.Handler.Body.{Json}
use steady_proxy.Handler.Turn.{
  Request, Held, Handling, Attempt, Clock, Turn, again, stop, done, fallback_active, budget_left,
  turn,
}
use steady_proxy.Fallback.{fallback_stop, claude_fallback_action}
use steady_proxy.Handler.Turn.Original.{SameOriginal, Retains, turn-Retains}
use steady_proxy.Handler.Finish.{
  Reply, original, verbatim, envelope, Ending, finish, reply_to, write_failure,
}
use steady_proxy.Handler.Loop.{Answer, sent, replied, after_turn, handle_loop}

abbrev of_reply : Reply → Option Held
of_reply (original h) = some h
of_reply (verbatim st h b) = none
of_reply (envelope r st atype msg after code) = none

-- The held stream that an answer delivers.
abbrev pub delivered : Option Answer → Option Held
delivered none = none
delivered (some (sent x)) = none
delivered (some (replied r)) = of_reply r

write_failure-of_reply :
    (is_head : Bool) (f : Failure) (can_retry : Bool) (st : ℕ) (atype : Text) (after : ℕ)
    → of_reply (write_failure is_head f can_retry st atype after) ≡ none
unfolding write_failure
write_failure-of_reply is_head f can_retry st atype after = elim (Option-cases f.upstream) [
  | inl e ↦ ground (arith, e)
  | inr (u, e) ↦ ground (arith, e)
]

module _ (cfg : Config) (json : Json) (req : Request) where
  abbrev Delivers : Handling → Option Answer → Type 0
  Delivers s o = (delivered o ≡ none) ⊎ (delivered o ≡ s.held_refusal)

  reply_to-of_reply :
      (e : Ending) (f : Failure) (can_retry : Bool)
      → of_reply (reply_to cfg json req e f can_retry) ≡ none
  unfolding reply_to
  reply_to-of_reply e f can_retry = write_failure-of_reply req.is_head f can_retry _ _ _

  finish-Delivers :
      (e : Ending) (s : Handling) → Delivers s (some (replied (finish cfg json req e s)))
  unfolding finish
  finish-Delivers e s =
      let last : Failure = elim e.ended [ none ↦ s.last | some f ↦ f ] in
      let stops : Bool = elim (claude_fallback_action last) [ fallback_stop ↦ true | _ ↦ false ] in
      let plain = reply_to-of_reply e last in
      elim (Option-cases s.held_refusal) [
        | inl g ↦ elim (Option-cases s.held_safeguard) [
          | inl k ↦ inl (ground (arith, g, k, plain (last.transient && budget_left cfg json req)))
          | inr (f, k) ↦ inl (ground (arith, g, k, plain false, reply_to-of_reply e f false))
        ]
        | inr (h, g) ↦ elim (Bool-cases (e.client_here && not stops)) [
          | inl k ↦ inr (ground (arith, g, k))
          | inr k ↦ inl (ground (arith, g, k, plain false))
        ]
      ]

  after_turn-Delivers :
      (e : Ending) (go : Handling → Option Answer) (s : Handling) (r : Turn)
      → Retains cfg json req s r
      → ((t : Handling) → SameOriginal s t → Delivers s (go t))
      → Delivers s (after_turn cfg json req e go r)
  unfolding after_turn
  after_turn-Delivers e go s (again t) h k = k t h
  after_turn-Delivers e go s (stop t) h k = rw⁻¹ h.0 (finish-Delivers e t)
  after_turn-Delivers e go s (done x) h k = inl refl

  -- Once a refusal is held, whatever the upstream and the timers do, the client gets either that
  -- refusal or no held stream at all.
  pub handle_loop-Delivers :
      (world : ℕ → Attempt × Clock) (e : Ending) (fuel n : ℕ) (s : Handling)
      → fallback_active s ≡ true
      → Delivers s (handle_loop cfg json req world e fuel n s)
  unfolding handle_loop
  handle_loop-Delivers world e zero n s h = inl refl
  handle_loop-Delivers world e (suc fuel) n s h =
      let (a, c) = world n in
      after_turn-Delivers e (handle_loop cfg json req world e fuel (suc n)) s
        (turn cfg json req a c s) (turn-Retains cfg json req a c s h)
        (λ t g. rw⁻¹ g.0 (handle_loop-Delivers world e fuel (suc n) t (rw (g.0, g.1) h)))
