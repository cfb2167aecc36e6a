-- ===== src/Handler/Finish/Verdict.antt =====
-- The verdict that the reply carries.
use steady_proxy.Base.{
  ℕ, Bool, true, false, not, ◌&&◌, ◌||◌, none, some, Text, text, str_eq, to_lower, ℤ, pos, negsuc,
  ltb_ℤ, arith, refl, ◌≡◌, ◌==◌, Option-cases, Bool-cases, inl, inr,
}
use steady_proxy.Config.{Config}
use steady_proxy.Failure.{Failure, Header, get}
use steady_proxy.Headers.{safe_response_headers, keep, set_header}
use steady_proxy.Handler.Body.{Json}
use steady_proxy.Handler.Turn.{Request, Handling, fallback_active, budget_left, below}
use steady_proxy.Handler.Finish.{
  Reply, original, verbatim, envelope, Ending, write_failure, reply_to, finish,
}

-- The reply tells the client to send the request again: by its headers, or by the verdict that the
-- writer of the envelope puts there.
abbrev pub invites : Reply → Bool
invites (original h) = false
invites (verbatim st h b) = str_eq (get h (text "X-Should-Retry")) (text "true")
invites (envelope can_retry st atype msg after code) = can_retry

-- The failure that ends the request.
abbrev pub final_failure : Ending → Handling → Failure
final_failure e s = elim e.ended [ none ↦ s.last | some f ↦ f ]

-- The headers of a verbatim reply, with and without a delay, are marked as final.
abbrev final_headers : Text → Header → Header
final_headers code h =
    set_header (text "X-Steady-Proxy-Reason") (text "x-steady-proxy-reason") code
      (set_header (text "X-Should-Retry") (text "x-should-retry") (text "false") h)

marked :
    (code : Text) (h : Header)
    → str_eq (get (final_headers code h) (text "X-Should-Retry")) (text "true") ≡ false
unfolding get set_header keep str_eq to_lower
marked code h = refl

marked_undelayed :
    (code : Text) (h : Header)
    → str_eq
        (get
          (keep
            (λ k. not (str_eq k (text "retry-after") || str_eq k (text "retry-after-ms")))
            (final_headers code h))
          (text "X-Should-Retry"))
        (text "true")
      ≡ false
unfolding get set_header keep str_eq to_lower
marked_undelayed code h = refl

write_failure-invites :
    (is_head : Bool) (f : Failure) (can_retry : Bool) (st : ℕ) (atype : Text) (after : ℕ)
    → (can_retry ≡ true → f.transient ≡ true)
    → invites (write_failure is_head f can_retry st atype after) ≡ can_retry
unfolding write_failure
write_failure-invites is_head f can_retry st atype after h = elim (Option-cases f.upstream) [
  | inl e ↦ ground (arith, e)
  | inr (u, e) ↦
      let base = safe_response_headers u.header is_head in
      elim (Bool-cases f.transient) [
        | inl y ↦ ground (arith, e, y)
        | inr n ↦
            let final : can_retry ≡ false = ground (arith, h, n) in
            elim (Bool-cases (st == u.status)) [
              | inl same ↦ rw (e, n, same, final) (marked f.code base)
              | inr other ↦ rw (e, n, other, final) (marked_undelayed f.code base)
            ]
      ]
]

below-ltb : (n : ℤ) (m : ℕ) → below n m ≡ ltb_ℤ n (pos m)
below-ltb (pos n) m = ground arith
below-ltb (negsuc n) m = ground arith

module _ (cfg : Config) (json : Json) (req : Request) where
  pub reply_to-invites :
      (e : Ending) (f : Failure) (can_retry : Bool)
      → (can_retry ≡ true → f.transient ≡ true)
      → invites (reply_to cfg json req e f can_retry) ≡ can_retry
  unfolding reply_to
  reply_to-invites e f can_retry h = write_failure-invites req.is_head f can_retry _ _ _ h

  -- The retries of the client are below the cap.
  budget : budget_left cfg json req ≡ ltb_ℤ req.retry_count (pos cfg.sdk_retry_cap)
  budget = below-ltb req.retry_count cfg.sdk_retry_cap

  -- The client is told to send the request again exactly if no fallback chain was started, the
  -- failure that ends the request is transient and the client's retries are below the cap.
  pub finish-invites :
      (e : Ending) (s : Handling)
      → invites (finish cfg json req e s) ≡ (
          not (fallback_active s)
          && (final_failure e s).transient
          && ltb_ℤ req.retry_count (pos cfg.sdk_retry_cap))
  unfolding finish
  finish-invites e s =
      let last = final_failure e s in
      let can_retry = not (fallback_active s) && last.transient && budget_left cfg json req in
      let plain = reply_to-invites e last can_retry (λ h. ground (arith, h)) in
      rw (← budget) (elim (Option-cases s.held_refusal) [
        | inr (r, g) ↦ ground (arith, g, plain)
        | inl g ↦ elim (Option-cases s.held_safeguard) [
          | inl k ↦ ground (arith, g, k, plain)
          | inr (f, k) ↦
              ground (arith, g, k, plain, reply_to-invites e f false (λ h. ground (arith, h)))
        ]
      ])
