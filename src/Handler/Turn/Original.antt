-- ===== src/Handler/Turn/Original.antt =====
-- The first refusal is the one that is kept.
use steady_proxy.Base.{Bool, true, false, none, some, arith, ◌≡◌, refl, inl, inr, Option-cases, ◌∙◌}
use steady_proxy.Config.{Config}
use steady_proxy.Failure.{Failure, Header}
use steady_proxy.Sse.Wire.{CaptureStats}
use steady_proxy.Handler.Body.{Json}
use steady_proxy.Handler.Turn.{
  Request, Held, Handling, Attempt, unreachable, rejected, unreadable, plain_body, captured, Clock,
  Turn, again, stop, done, fallback_active, classify_upstream_http_error, try_local_retry,
  swap_to_fallback, advance_fallback, legacy_fast, or_else, may_be_fast, on_unreachable,
  keep_safeguard, rejected_fast, on_rejected, on_failure, keep_refusal, on_stream_failure, turn,
}

abbrev pub SameOriginal : Handling → Handling → Type 0
SameOriginal s t = (t.held_refusal ≡ s.held_refusal) × (t.held_safeguard ≡ s.held_safeguard)

trans_original : (s t u : Handling) → SameOriginal s t → SameOriginal t u → SameOriginal s u
trans_original s t u h g = (g.0 ∙ h.0, g.1 ∙ h.1)

module _ (cfg : Config) (json : Json) (req : Request) where
  abbrev Tried : Handling → Bool × Handling → Type 0
  Tried s r = SameOriginal s r.1

  -- Another attempt, and the end of the loop, hold the same refusal as `s`.
  abbrev pub Retains : Handling → Turn → Type 0
  Retains s (again t) = SameOriginal s t
  Retains s (stop t) = SameOriginal s t
  Retains s (done x) = Unit

  try_local_retry-Tried :
      (c : Clock) (f : Failure) (s : Handling) → Tried s (try_local_retry cfg json req c f s)
  unfolding try_local_retry
  try_local_retry-Tried c f s = ground arith

  swap_to_fallback-Tried : (c : Clock) (s : Handling) → Tried s (swap_to_fallback cfg json req c s)
  unfolding swap_to_fallback
  swap_to_fallback-Tried c s = ground arith

  advance_fallback-Tried :
      (c : Clock) (f : Failure) (s : Handling) → Tried s (advance_fallback cfg json req c f s)
  unfolding advance_fallback
  advance_fallback-Tried c f s = ground (arith, swap_to_fallback-Tried c s)

  or_else-Retains :
      (s t : Handling) (r : Bool × Handling) (go : Handling → Turn)
      → SameOriginal s t
      → Tried t r
      → ((u : Handling) → SameOriginal s u → Retains s (go u))
      → Retains s (or_else cfg json req r go)
  unfolding or_else
  or_else-Retains s t (true, u) go h g k = trans_original s t u h g
  or_else-Retains s t (false, u) go h g k = k u (trans_original s t u h g)

  or_stop-Retains :
      (s t : Handling) (r : Bool × Handling)
      → SameOriginal s t
      → Tried t r
      → Retains s (or_else cfg json req r stop)
  or_stop-Retains s t r h g = or_else-Retains s t r stop h g (λ u k. k)

  legacy_fast-Retains :
      (c : Clock) (s t : Handling) → SameOriginal s t → Retains s (legacy_fast cfg json req c t)
  unfolding legacy_fast
  legacy_fast-Retains c s t h = ground (arith, h)

  rejected_fast-Retains :
      (c : Clock) (s t : Handling) → SameOriginal s t → Retains s (rejected_fast cfg json req c t)
  unfolding rejected_fast
  rejected_fast-Retains c s t h = ground (arith, h, legacy_fast-Retains c s t h)

  keep_safeguard-same :
      (f : Failure) (s : Handling) → fallback_active s ≡ true → keep_safeguard cfg json req f s ≡ s
  unfolding keep_safeguard
  keep_safeguard-same f s h = rw h refl

  keep_refusal-same :
      (r : Held) (s : Handling) → fallback_active s ≡ true → keep_refusal cfg json req r s ≡ s
  unfolding keep_refusal
  keep_refusal-same r s h = rw h refl

  on_unreachable-Retains :
      (c : Clock) (f : Failure) (s : Handling) → Retains s (on_unreachable cfg json req c f s)
  unfolding on_unreachable may_be_fast
  on_unreachable-Retains c f s =
      let t = record s { last = f } in
      or_else-Retains s t (try_local_retry cfg json req c f t) _ (refl, refl)
        (try_local_retry-Tried c f t)
        (λ u h.
          let quiet =
            or_stop-Retains s u (advance_fallback cfg json req c u.last u) h
              (advance_fallback-Tried c u.last u) in
          ground (arith, quiet, legacy_fast-Retains c s u h))

  on_rejected-Retains :
      (c : Clock) (f : Failure) (s : Handling)
      → fallback_active s ≡ true
      → Retains s (on_rejected cfg json req c f s)
  unfolding on_rejected
  on_rejected-Retains c f s active =
      let t = record s { last = f } in
      let same = keep_safeguard-same f t active in
      let kept =
        or_stop-Retains s t (swap_to_fallback cfg json req c t) (refl, refl)
          (swap_to_fallback-Tried c t) in
      let other =
        or_else-Retains s t (advance_fallback cfg json req c f t) _ (refl, refl)
          (advance_fallback-Tried c f t)
          (λ u h.
            or_else-Retains s u (try_local_retry cfg json req c f u) (rejected_fast cfg json req c)
              h (try_local_retry-Tried c f u) (rejected_fast-Retains c s)) in
      ground (arith, same, kept, other)

  on_failure-Retains :
      (c : Clock) (f : Failure) (s : Handling) → Retains s (on_failure cfg json req c f s)
  unfolding on_failure
  on_failure-Retains c f s =
      let t = record s { last = f } in
      or_else-Retains s t (advance_fallback cfg json req c f t) _ (refl, refl)
        (advance_fallback-Tried c f t)
        (λ u h.
          or_stop-Retains s u (try_local_retry cfg json req c f u) h (try_local_retry-Tried c f u))

  on_stream_failure-Retains :
      (c : Clock) (wrote : Bool) (f : Failure) (st : CaptureStats) (hdr : Header) (s : Handling)
      → fallback_active s ≡ true
      → Retains s (on_stream_failure cfg json req c wrote f st hdr s)
  unfolding on_stream_failure
  on_stream_failure-Retains c wrote f st hdr s active =
      let same = keep_safeguard-same f s active in
      let cut = on_failure-Retains c f s in
      let safe =
        or_else-Retains s s (swap_to_fallback cfg json req c s) (λ t. stop (record t { last = f }))
          (refl, refl) (swap_to_fallback-Tried c s) (λ u h. h) in
      elim (Option-cases st.held_refusal) [
        | inl e ↦ ground (arith, e, same, cut, safe)
        | inr (sp, e) ↦
            let held : Held = record {
              spool = sp;
              header = hdr;
              stats = record st { held_refusal = none };
            } in
            let t = record s { last = f } in
            ground (
              arith,
              e,
              keep_refusal-same held s active,
              or_stop-Retains s t (swap_to_fallback cfg json req c t) (refl, refl)
                  (swap_to_fallback-Tried c t),
            )
      ]

  -- Once a refusal is held, whatever the upstream and the timers do, another attempt and the end of
  -- the loop hold that same refusal.
  pub turn-Retains :
      (a : Attempt) (c : Clock) (s : Handling)
      → fallback_active s ≡ true
      → Retains s (turn cfg json req a c s)
  unfolding turn
  turn-Retains (unreachable f) c s h = on_unreachable-Retains c f s
  turn-Retains (rejected r) c s h =
      on_rejected-Retains c (classify_upstream_http_error r (fallback_active s)) s h
  turn-Retains (unreadable f) c s h = on_failure-Retains c f s
  turn-Retains (plain_body true) c s h = tt
  turn-Retains (plain_body false) c s h = tt
  turn-Retains (captured wrote none st hdr) c s h = tt
  turn-Retains (captured wrote (some f) st hdr) c s h =
      on_stream_failure-Retains c wrote f st hdr s h
