-- ===== src/Classify/Http/Verdicts.antt =====
-- Which upstream HTTP errors are retried, and under which status.
use steady_proxy.Base.{
  Option, none, some, str_eq, refl, ap, ◌∙◌, Bool-cases, inl, inr, ℕ, ◌≤◌, [], text, is_nil,
  to_lower, Bool, true, false, ◌&&◌, ◌||◌, ◌≡◌, arith, Text, leb, ltb, ◌==◌, if◌then◌else◌,
}
use steady_proxy.Classify.Codec.{Codec}
use steady_proxy.Classify.Http.{
  Verdict, unknown, transient, permanent, BodyRule, Hint, no_hint, gateway, should_retry,
  http_retry_hint, Response, map_transient_status, judge_status, judge_hint, is_redirect, judge,
  retry_after_seconds, classify_http_error_bytes_shaped,
}
use steady_proxy.Failure.{Failure, Header, get}

-- The retry rule of the official SDKs, refined by the verdict on the body.
pub sdk_retries : ℕ → Verdict → Bool
sdk_retries st permanent = st == 408 || st == 409 || leb 500 st
sdk_retries st transient = true
sdk_retries st unknown = st == 408 || st == 409 || st == 429 || leb 500 st

-- A header that says true or false, in any case of letters.
unfoldable pub flag : Text → Option Bool
flag s =
    if str_eq (to_lower s) (text "true")
    then some true
    else if str_eq (to_lower s) (text "false")
    then some false
    else none

-- What the hint headers say: the gateway's beats the one of the SDKs.
unfoldable pub first_of : Option Bool → Option Bool → Option Bool
first_of (some b) o = some b
first_of none o = o

unfoldable pub says : Header → Option Bool
says h = first_of (flag (get h (text "X-Gateway-Retryable"))) (flag (get h (text "X-Should-Retry")))

-- A hint beats the rule.
abbrev pub told : Option Bool → Bool → Bool
told none rule = rule
told (some b) rule = b

abbrev pub hint_says : Hint → Option Bool
hint_says no_hint = none
hint_says (gateway b) = some b
hint_says (should_retry b) = some b

pub http_retry_hint-says : (h : Header) → hint_says (http_retry_hint h) ≡ says h
unfolding http_retry_hint says flag first_of
http_retry_hint-says h =
    let x = to_lower (get h (text "X-Gateway-Retryable")) in
    let y = to_lower (get h (text "X-Should-Retry")) in
    elim (Bool-cases (str_eq x (text "true"))) [
      | inl a ↦ rw a refl
      | inr a ↦ elim (Bool-cases (str_eq x (text "false"))) [
        | inl b ↦ rw (a, b) refl
        | inr b ↦ elim (Bool-cases (str_eq y (text "true"))) [
          | inl c ↦ rw (a, b, c) refl
          | inr c ↦ elim (Bool-cases (str_eq y (text "false"))) [
            | inl d ↦ rw (a, b, c, d) refl
            | inr d ↦ rw (a, b, c, d) refl
          ]
        ]
      ]
    ]

unfoldable pub retries : Hint → ℕ → Verdict → Bool
retries (gateway b) st v = b
retries (should_retry b) st v = b
retries no_hint st v = sdk_retries st v

retries-told :
    (h : Hint) (st : ℕ) (v : Verdict) → retries h st v ≡ told (hint_says h) (sdk_retries st v)
unfolding retries
retries-told no_hint st v = refl
retries-told (gateway b) st v = refl
retries-told (should_retry b) st v = refl

-- What the caller may rely on in a failure of status `st`: a retried one carries a status that an
-- SDK retries, and a final one the upstream's own.
abbrev pub StatusFits : ℕ → Failure → Type 0
StatusFits st f =
    (f.transient ≡ true
      → (f.status == 408 || f.status == 409 || f.status == 429 || leb 500 f.status) ≡ true)
    × (f.transient ≡ false → f.status ≡ st)

judge_status_lem :
    (st : ℕ) (atype msg : Text) (ra : ℕ) (v : Verdict)
    → let f = judge_status st atype msg ra v in (f.transient ≡ sdk_retries st v) × StatusFits st f
unfolding judge_status sdk_retries
judge_status_lem st atype msg ra unknown = ground arith
judge_status_lem st atype msg ra transient = ground arith
judge_status_lem st atype msg ra permanent = ground arith

judge_hint_lem :
    (st : ℕ) (atype msg : Text) (ra : ℕ) (g b : Bool)
    → 400 ≤ st
    → let f = judge_hint st atype msg ra g b in (f.transient ≡ b) × StatusFits st f
unfolding judge_hint map_transient_status
judge_hint_lem st atype msg ra g true h = ground arith
judge_hint_lem st atype msg ra g false h = ground arith

not_redirect : (st : ℕ) → 400 ≤ st → (leb 300 st && ltb st 400) ≡ false
not_redirect st h = ground arith

judge_lem :
    (h : Hint) (st : ℕ) (atype msg : Text) (ra : ℕ) (v : Verdict)
    → 400 ≤ st
    → let f = judge h st atype msg ra v in (f.transient ≡ retries h st v) × StatusFits st f
unfolding judge retries
judge_lem no_hint st atype msg ra v h = judge_status_lem st atype msg ra v
judge_lem (gateway b) st atype msg ra v h = judge_hint_lem st atype msg ra true b h
judge_lem (should_retry b) st atype msg ra v h = judge_hint_lem st atype msg ra false b h

-- The verdict of the wire's rule on a response.
abbrev pub verdict_of : Codec → Response → BodyRule → Verdict
verdict_of c r rule =
    let e = c.error_fields r.body in
    rule e.kind e.code e.message (if c.json_valid r.body then [] else to_lower r.body)

-- By the classifier that the routes but System One's share, before a Claude fallback chain has its
-- say: a response of status 400 or more is retried exactly as the hint headers say, the gateway's
-- before the SDKs', and where neither says true or false as the SDKs do, refined by the wire's verdict
-- on the body. A retried failure carries a status that SDKs retry, whatever the upstream's was; a
-- final one keeps the upstream's.
pub classify_http_error_bytes_shaped-retries :
    (c : Codec) (r : Response) (rule : BodyRule)
    → 400 ≤ r.status
    → let f = classify_http_error_bytes_shaped c r rule in
      (f.transient ≡ told (says r.header) (sdk_retries r.status (verdict_of c r rule)))
      × StatusFits r.status f
unfolding classify_http_error_bytes_shaped is_redirect
classify_http_error_bytes_shaped-retries c r rule h =
    let e = c.error_fields r.body in
    let hint = http_retry_hint r.header in
    let v = verdict_of c r rule in
    let fact =
      judge_lem hint r.status (if is_nil e.kind then text "api_error" else e.kind) e.message
        (retry_after_seconds c (get r.header (text "Retry-After"))) v h in
    let as_told : retries hint r.status v ≡ told (says r.header) (sdk_retries r.status v) =
      retries-told hint r.status v
      ∙ ap (λ (o : Option Bool). told o (sdk_retries r.status v)) (http_retry_hint-says r.header) in
    rw (not_redirect r.status h) (fact.0 ∙ as_told, fact.1)
