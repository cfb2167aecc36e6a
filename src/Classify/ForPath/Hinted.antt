-- ===== src/Classify/ForPath/Hinted.antt =====
-- The hint headers decide on every route.
use steady_proxy.Base.{
  ℕ, ◌≤◌, Bool, true, false, ◌&&◌, [], Option, none, some, Text, ltb, ◌==◌, if◌then◌else◌, ◌≡◌, ◌⊎◌,
  ◌∙◌, ap, sym, refl, arith, inl, inr,
}
use steady_proxy.Classify.Codec.{Codec}
use steady_proxy.Classify.ForPath.{
  is_none, has_ended, classify_for_route, classify_http_error_for_path,
}
use steady_proxy.Classify.Http.{
  Hint, no_hint, gateway, should_retry, ContextEnd, Fault, BodyRule, Response, http_retry_hint,
  is_redirect, classify_http_error_bytes_shaped, classify_http_error_bytes, anthropic_error_verdict,
}
use steady_proxy.Classify.Http.Verdicts.{
  sdk_retries, says, told, hint_says, http_retry_hint-says, verdict_of,
  classify_http_error_bytes_shaped-retries,
}
use steady_proxy.Failure.{Failure}
use steady_proxy.Gemini.Decimal.{GeminiLib}
use steady_proxy.Gemini.Errors.Verdicts.{classify_gemini_http_error_bytes-shaped}
use steady_proxy.Json.{JsonLib}
use steady_proxy.Responses.Fault.{responses_error_verdict, classify_responses_http_error_bytes}
use steady_proxy.Route.{is_responses_path, is_gemini_path, is_system_one_path}
use steady_proxy.SystemOne.{
  Millis, hinted, system_one_base, system_one_retry_after_seconds,
  classify_system_one_http_error_bytes,
}

-- On a response that is no redirect, a rule does not matter.
shaped-hinted :
    (codec : Codec) (r : Response) (rule : BodyRule) (b : Bool)
    → 400 ≤ r.status
    → hint_says (http_retry_hint r.header) ≡ some b
    → (classify_http_error_bytes_shaped codec r rule).transient ≡ b
shaped-hinted codec r rule b l e =
    (classify_http_error_bytes_shaped-retries codec r rule l).0
    ∙ ap (λ (o : Option Bool). told o (sdk_retries r.status (verdict_of codec r rule)))
        (sym (http_retry_hint-says r.header) ∙ e)

branch-transient :
    (c b : Bool) (x y : Failure)
    → x.transient ≡ b
    → y.transient ≡ b
    → (if c then x else y).transient ≡ b
branch-transient true b x y h g = h
branch-transient false b x y h g = g

-- A record of the three routes that have a rule of their own.
hinted-transient :
    (h : Hint) (st : ℕ) (f : Failure) (b : Bool)
    → hint_says h ≡ some b
    → (hinted h st f).transient ≡ b
unfolding hinted
hinted-transient no_hint st f b e = ground (arith, e)
hinted-transient (gateway c) st f b e = ground (arith, e)
hinted-transient (should_retry c) st f b e = ground (arith, e)

error_status : (st : ℕ) → 400 ≤ st → is_redirect st ≡ false
unfolding is_redirect
error_status st h = ground (arith, h)

module _ (json : JsonLib) (lib : GeminiLib) (codec : Codec) (message_delay : Text → ℕ)
    (millis : Text → Option Millis) where
  classify_responses-hinted :
      (r : Response) (b : Bool)
      → 400 ≤ r.status
      → hint_says (http_retry_hint r.header) ≡ some b
      → (classify_responses_http_error_bytes message_delay codec r).transient ≡ b
  unfolding classify_responses_http_error_bytes
  classify_responses-hinted r b l e =
      let f = classify_http_error_bytes_shaped codec r responses_error_verdict in
      let d = message_delay f.message in
      let k = shaped-hinted codec r responses_error_verdict b l e in
      branch-transient (f.transient && f.retry_after == 0 && ltb 0 d) b
        (record f { retry_after = d }) f k k

  classify_system_one-hinted :
      (r : Response) (b : Bool)
      → 400 ≤ r.status
      → hint_says (http_retry_hint r.header) ≡ some b
      → (classify_system_one_http_error_bytes json millis codec r).transient ≡ b
  unfolding classify_system_one_http_error_bytes
  classify_system_one-hinted r b l e =
      let base = system_one_base json r in
      let f = hinted (http_retry_hint r.header) r.status base in
      let k = hinted-transient (http_retry_hint r.header) r.status base b e in
      rw (error_status r.status l) (
        branch-transient f.transient b
          (record f { retry_after = system_one_retry_after_seconds json millis codec r.header }) f k
          k)

  classify_for_route-hinted :
      (path : Text) (r : Response) (b : Bool)
      → 400 ≤ r.status
      → hint_says (http_retry_hint r.header) ≡ some b
      → (classify_for_route json lib codec message_delay millis path r).transient ≡ b
  unfolding classify_for_route classify_http_error_bytes
  classify_for_route-hinted path r b l e =
      let shaped = λ (rule : BodyRule). shaped-hinted codec r rule b l e in
      let gemini = classify_gemini_http_error_bytes-shaped json lib codec r in
      branch-transient (is_responses_path path) b _ _ (classify_responses-hinted r b l e) (
        branch-transient (is_gemini_path path) b _ _ (gemini.1 ∙ shaped gemini.0) (
          branch-transient (is_system_one_path path) b _ _ (classify_system_one-hinted r b l e)
            (shaped anthropic_error_verdict)))

  hint-is_none : (h : Hint) (b : Bool) → hint_says h ≡ some b → is_none h ≡ false
  hint-is_none no_hint b e = ground (arith, e)
  hint-is_none (gateway c) b e = refl
  hint-is_none (should_retry c) b e = refl

  -- By the classifier of the routes, before a Claude fallback chain has its say: on every route, the
  -- hint headers of an error response of status 400 or more, where they say true or false and the
  -- gateway's before the SDKs', decide whether it is retried, whatever its body holds and even if the
  -- body breaks off, unless the request itself has ended when the body breaks off.
  pub classify_http_error_for_path-hinted :
      (path : Text) (r : Response) (broken : Option Fault) (ended : ContextEnd) (b : Bool)
      → 400 ≤ r.status
      → says r.header ≡ some b
      → (broken ≡ none) ⊎ (has_ended ended ≡ false)
      → (classify_http_error_for_path json lib codec message_delay millis path r broken
          ended).transient
        ≡ b
  unfolding classify_http_error_for_path
  classify_http_error_for_path-hinted path r none ended b l e h =
      classify_for_route-hinted path r b l (http_retry_hint-says r.header ∙ e)
  classify_http_error_for_path-hinted path r (some fault) ended b l e (inl h) = ground (arith, h)
  classify_http_error_for_path-hinted path r (some fault) ended b l e (inr h) =
      let said = http_retry_hint-says r.header ∙ e in
      rw (hint-is_none (http_retry_hint r.header) b said, h)
        (classify_for_route-hinted path (record r { body = [] }) b l said)
