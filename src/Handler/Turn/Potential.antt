-- ===== src/Handler/Turn/Potential.antt =====
-- Every further attempt uses up something.
use steady_proxy.Base.{
  ℕ, zero, suc, ◌+◌, ◌-◌, ◌≤◌, ◌<◌, Bool, true, false, List, [], ◌∷◌, none, some, Text, length,
  drop, if◌then◌else◌, arith, ◌≡◌, inl, inr, Option-cases,
}
use steady_proxy.Config.{Config}
use steady_proxy.Failure.{Failure, Header}
use steady_proxy.Fallback.{next_fallback}
use steady_proxy.Sse.Wire.{CaptureStats}
use steady_proxy.Handler.Body.{Json}
use steady_proxy.Handler.Turn.{
  Request, Held, Handling, Attempt, unreachable, rejected, unreadable, plain_body, captured, Clock,
  Turn, again, stop, done, fallback_active, classify_upstream_http_error, try_local_retry,
  swap_to_fallback, advance_fallback, legacy_fast, or_else, may_be_fast, on_unreachable,
  keep_safeguard, rejected_fast, on_rejected, on_failure, keep_refusal, on_stream_failure, turn,
}

next_fallback-bound :
    (first : Text) (ms : List Text) (i : ℕ) (m : Text)
    → (next_fallback first ms i).1 ≡ some m
    → (i ≤ (next_fallback first ms i).0) × ((next_fallback first ms i).0 < i + length ms)
unfolding next_fallback
next_fallback-bound first [] i m h = ground (arith, h)
next_fallback-bound first (x ∷ xs) i m h = ground (arith, h, next_fallback-bound first xs (suc i) m)

next_fallback-le : (first : Text) (ms : List Text) (i : ℕ) → (i ≤ (next_fallback first ms i).0)
unfolding next_fallback
next_fallback-le first [] i = ground arith
next_fallback-le first (x ∷ xs) i = ground (arith, next_fallback-le first xs (suc i))

length-drop : (n : ℕ) (ms : List Text) → length (drop n ms) ≡ length ms - n
length-drop zero ms = ground arith
length-drop (suc n) [] = ground arith
length-drop (suc n) (m ∷ ms) = ground (arith, length-drop n ms)

module _ (cfg : Config) (json : Json) (req : Request) where
  -- Local retries, the fast retry and fallback models that are left.
  abbrev pub potential : Handling → ℕ
  potential s =
      (cfg.tx_local_retries - s.proxy_retries)
      + (if s.legacy_fast_used then 0 else 1)
      + (length cfg.claude_refusal_fallbacks - s.fallback_index)

  -- From `s` a test went up: down the potential where it passed, and not up where it did not.
  abbrev Down : Handling → Bool × Handling → Type 0
  Down s (true, t) = suc (potential t) ≤ potential s
  Down s (false, t) = potential t ≤ potential s

  abbrev pub Shrinks : Handling → Turn → Type 0
  Shrinks s (again t) = suc (potential t) ≤ potential s
  Shrinks s (stop t) = Unit
  Shrinks s (done x) = Unit

  try_local_retry-Down :
      (c : Clock) (f : Failure) (s : Handling) → Down s (try_local_retry cfg json req c f s)
  unfolding try_local_retry
  try_local_retry-Down c f s = ground arith

  swap_to_fallback-Down : (c : Clock) (s : Handling) → Down s (swap_to_fallback cfg json req c s)
  unfolding swap_to_fallback
  swap_to_fallback-Down c s =
      let fb = cfg.claude_refusal_fallbacks in
      let n = next_fallback req.first_model (drop s.fallback_index fb) s.fallback_index in
      elim (Option-cases n.1) [
        | inl e ↦
            ground (
              arith,
              e,
              next_fallback-le req.first_model (drop s.fallback_index fb) s.fallback_index,
            )
        | inr (m, e) ↦ ground (
          arith,
          e,
          length-drop s.fallback_index fb,
          next_fallback-bound req.first_model (drop s.fallback_index fb) s.fallback_index m e,
        )
      ]

  advance_fallback-Down :
      (c : Clock) (f : Failure) (s : Handling) → Down s (advance_fallback cfg json req c f s)
  unfolding advance_fallback
  advance_fallback-Down c f s = ground (arith, swap_to_fallback-Down c s)

  or_else-Shrinks :
      (s : Handling) (r : Bool × Handling) (go : Handling → Turn)
      → Down s r
      → ((t : Handling) → potential t ≤ potential s → Shrinks s (go t))
      → Shrinks s (or_else cfg json req r go)
  unfolding or_else
  or_else-Shrinks s (true, t) go h g = h
  or_else-Shrinks s (false, t) go h g = g t h

  legacy_fast-Shrinks :
      (c : Clock) (s t : Handling)
      → potential t ≤ potential s
      → t.legacy_fast_used ≡ false
      → Shrinks s (legacy_fast cfg json req c t)
  unfolding legacy_fast
  legacy_fast-Shrinks c s t h g = ground arith

  stop-Shrinks : (s t : Handling) → potential t ≤ potential s → Shrinks s (stop t)
  stop-Shrinks s t h = tt

  then_stop-Shrinks :
      (s : Handling) (r : Bool × Handling) (g : Handling → Handling)
      → Down s r
      → Shrinks s (or_else cfg json req r (λ t. stop (g t)))
  then_stop-Shrinks s r g d = or_else-Shrinks s r (λ t. stop (g t)) d (λ t h. tt)

  later-Down :
      (s t : Handling) (r : Bool × Handling) → potential t ≤ potential s → Down t r → Down s r
  later-Down s t (true, u) h d = omega (arith, h, d)
  later-Down s t (false, u) h d = omega (arith, h, d)

  or_stop-Shrinks :
      (s t : Handling) (r : Bool × Handling)
      → potential t ≤ potential s
      → Down t r
      → Shrinks s (or_else cfg json req r stop)
  or_stop-Shrinks s t r h d = or_else-Shrinks s r stop (later-Down s t r h d) (λ u g. tt)

  on_unreachable-Shrinks :
      (c : Clock) (f : Failure) (s : Handling) → Shrinks s (on_unreachable cfg json req c f s)
  unfolding on_unreachable may_be_fast
  on_unreachable-Shrinks c f s =
      let t = record s { last = f } in
      or_else-Shrinks s (try_local_retry cfg json req c f t) _ (try_local_retry-Down c f t) (λ u h.
        let quiet =
          or_stop-Shrinks s u (advance_fallback cfg json req c u.last u) h
            (advance_fallback-Down c u.last u) in
        ground (arith, quiet, legacy_fast-Shrinks c s u h))

  keep_safeguard-potential :
      (f : Failure) (s : Handling) → potential (keep_safeguard cfg json req f s) ≡ potential s
  unfolding keep_safeguard
  keep_safeguard-potential f s = ground arith

  keep_refusal-potential :
      (h : Held) (s : Handling) → potential (keep_refusal cfg json req h s) ≡ potential s
  unfolding keep_refusal
  keep_refusal-potential h s = ground arith

  swap_then_stop-Shrinks :
      (c : Clock) (g : Handling → Handling) (s t : Handling)
      → potential t ≡ potential s
      → Shrinks s (or_else cfg json req (swap_to_fallback cfg json req c t) (λ u. stop (g u)))
  swap_then_stop-Shrinks c g s t h =
      let r = swap_to_fallback cfg json req c t in
      then_stop-Shrinks s r g (later-Down s t r (omega (arith, h)) (swap_to_fallback-Down c t))

  rejected_fast-Shrinks :
      (c : Clock) (s t : Handling)
      → potential t ≤ potential s
      → Shrinks s (rejected_fast cfg json req c t)
  unfolding rejected_fast may_be_fast
  rejected_fast-Shrinks c s t h = ground (arith, legacy_fast-Shrinks c s t h)

  on_rejected-Shrinks :
      (c : Clock) (f : Failure) (s : Handling) → Shrinks s (on_rejected cfg json req c f s)
  unfolding on_rejected
  on_rejected-Shrinks c f s =
      let t = record s { last = f } in
      let kept =
        swap_then_stop-Shrinks c (λ u. u) s (keep_safeguard cfg json req f t)
          (keep_safeguard-potential f t) in
      let other =
        or_else-Shrinks s (advance_fallback cfg json req c f t) _ (advance_fallback-Down c f t)
          (λ u h.
            or_else-Shrinks s (try_local_retry cfg json req c f u) (rejected_fast cfg json req c)
              (later-Down s u (try_local_retry cfg json req c f u) h (try_local_retry-Down c f u))
              (rejected_fast-Shrinks c s)) in
      ground (arith, kept, other)

  on_failure-Shrinks :
      (c : Clock) (f : Failure) (s : Handling) → Shrinks s (on_failure cfg json req c f s)
  unfolding on_failure
  on_failure-Shrinks c f s =
      let t = record s { last = f } in
      or_else-Shrinks s (advance_fallback cfg json req c f t) _ (advance_fallback-Down c f t)
        (λ u h.
          or_stop-Shrinks s u (try_local_retry cfg json req c f u) h (try_local_retry-Down c f u))

  on_stream_failure-Shrinks :
      (c : Clock) (wrote : Bool) (f : Failure) (st : CaptureStats) (hdr : Header) (s : Handling)
      → Shrinks s (on_stream_failure cfg json req c wrote f st hdr s)
  unfolding on_stream_failure
  on_stream_failure-Shrinks c wrote f st hdr s =
      let cut = on_failure-Shrinks c f s in
      let safe =
        swap_then_stop-Shrinks c (λ u. record u { last = f }) s (keep_safeguard cfg json req f s)
          (keep_safeguard-potential f s) in
      elim (Option-cases st.held_refusal) [
        | inl e ↦ ground (arith, e, cut, safe)
        | inr (sp, e) ↦
            let held : Held = record {
              spool = sp;
              header = hdr;
              stats = record st { held_refusal = none };
            } in
            let kept = record (keep_refusal cfg json req held s) { last = f } in
            ground
              (arith, e, swap_then_stop-Shrinks c (λ u. u) s kept (keep_refusal-potential held s))
      ]

  pub turn-Shrinks : (a : Attempt) (c : Clock) (s : Handling) → Shrinks s (turn cfg json req a c s)
  unfolding turn
  turn-Shrinks (unreachable f) c s = on_unreachable-Shrinks c f s
  turn-Shrinks (rejected r) c s =
      on_rejected-Shrinks c (classify_upstream_http_error r (fallback_active s)) s
  turn-Shrinks (unreadable f) c s = on_failure-Shrinks c f s
  turn-Shrinks (plain_body true) c s = tt
  turn-Shrinks (plain_body false) c s = tt
  turn-Shrinks (captured wrote none st hdr) c s = tt
  turn-Shrinks (captured wrote (some f) st hdr) c s = on_stream_failure-Shrinks c wrote f st hdr s
