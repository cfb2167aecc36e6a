-- ===== src/Classify/Writers/Signals.antt =====
-- Whatever the route, an error carries the same verdict.
use steady_proxy.Base.{
  ℕ, suc, Bool, true, false, not, ◌&&◌, none, some, Text, text, str_eq, ltb, ◌==◌, if◌then◌else◌,
  pos, ◌≡◌, ◌≢◌, refl, arith, Bool-cases, inl, inr,
}
use steady_proxy.Classify.Writers.{
  ErrorBody, anthropic_body, openai_body, gemini_body, system_one_body, Written, status_or_502,
  write_anthropic_error, write_openai_error, native_status, write_gemini_error,
  write_system_one_error, error_writer_for,
}
use steady_proxy.Gemini.Errors.{canonical, gemini_http_status, gemini_status_for_http}
use steady_proxy.Json.{lookup}
use steady_proxy.Number.{itoa}
use steady_proxy.Route.Disjoint.{routes_disjoint}
use steady_proxy.Route.{is_responses_path, is_gemini_path, is_system_one_path}

abbrev pub is_openai : ErrorBody → Bool
is_openai (openai_body message atype) = true
is_openai _ = false

abbrev pub is_system_one : ErrorBody → Bool
is_system_one (system_one_body message) = true
is_system_one _ = false

-- A body of Google's, with the HTTP status and a name that stands for one.
abbrev pub is_google : ℕ → ErrorBody → Bool
is_google st (gemini_body code name message) = (code == st) && not (gemini_http_status name == 0)
is_google st _ = false

abbrev pub message_of : ErrorBody → Text
message_of (anthropic_body atype message) = message
message_of (openai_body message atype) = message
message_of (gemini_body code name message) = message
message_of (system_one_body message) = message

-- The body is of the route's own kind.
abbrev pub Fits : Text → ℕ → ErrorBody → Type 0
Fits path st b =
    (is_openai b ≡ is_responses_path path)
    × (is_google st b ≡ is_gemini_path path)
    × (is_system_one b ≡ is_system_one_path path)

abbrev pub Signals : Bool → ℕ → Text → ℕ → Text → Written → Type 0
Signals can_retry st message retry_after code w =
    (lookup (text "X-Should-Retry") w.headers
      ≡ some (if can_retry then text "true" else text "false"))
    × (lookup (text "Retry-After") w.headers
        ≡ (if ltb 0 retry_after then some (itoa (pos retry_after)) else none))
    × (lookup (text "X-Steady-Proxy-Reason") w.headers ≡ some code)
    × (w.status ≡ (if st == 0 then 502 else st))
    × (message_of w.body ≡ message)

-- A name that stands for an HTTP status.
Named : Text → Type 0
Named s = gemini_http_status s ≢ 0

named : (s : Text) (n : ℕ) → gemini_http_status s ≡ suc n → Named s
unfolding Named
named s n h = omega (arith, h)

branch-Named : (b : Bool) (x y : Text) → Named x → Named y → Named (if b then x else y)
branch-Named true x y h g = h
branch-Named false x y h g = g

status_for_http-Named : (st : ℕ) → Named (gemini_status_for_http st)
unfolding gemini_http_status gemini_status_for_http str_eq
status_for_http-Named st =
    (branch-Named _ _ _ (named (text "INVALID_ARGUMENT") 399 refl) (
      branch-Named _ _ _ (named (text "UNAUTHENTICATED") 400 refl) (
        branch-Named _ _ _ (named (text "PERMISSION_DENIED") 402 refl) (
          branch-Named _ _ _ (named (text "NOT_FOUND") 403 refl) (
            branch-Named _ _ _ (named (text "DEADLINE_EXCEEDED") 503 refl) (
              branch-Named _ _ _ (named (text "ABORTED") 408 refl) (
                branch-Named _ _ _ (named (text "FAILED_PRECONDITION") 399 refl) (
                  branch-Named _ _ _ (named (text "OUT_OF_RANGE") 399 refl) (
                    branch-Named _ _ _ (named (text "RESOURCE_EXHAUSTED") 428 refl) (
                      branch-Named _ _ _ (named (text "CANCELLED") 498 refl) (
                        branch-Named _ _ _ (named (text "INTERNAL") 499 refl) (
                          branch-Named _ _ _ (named (text "UNIMPLEMENTED") 500 refl) (
                            branch-Named _ _ _ (named (text "UNAVAILABLE") 502 refl)
                              (named (text "UNKNOWN") 499 refl))))))))))))))

native_status-Named : (atype : Text) (st : ℕ) → Named (native_status atype st)
unfolding native_status Named
native_status-Named atype st = elim (Bool-cases (gemini_http_status (canonical atype) == 0)) [
  | inl y ↦ rw (y) (status_for_http-Named st)
  | inr n ↦ rw (n) (ground (arith, n))
]

openai-Signals :
    (can_retry : Bool) (st : ℕ) (atype message : Text) (retry_after : ℕ) (code : Text)
    → Signals can_retry st message retry_after code
        (write_openai_error can_retry st atype message retry_after code)
unfolding write_openai_error status_or_502 lookup str_eq
openai-Signals can_retry st atype message retry_after code = elim (Bool-cases (ltb 0 retry_after)) [
  | inl y ↦ rw y (refl, refl, refl, refl, refl)
  | inr n ↦ rw n (refl, refl, refl, refl, refl)
]

anthropic-Signals :
    (can_retry : Bool) (st : ℕ) (atype message : Text) (retry_after : ℕ) (code : Text)
    → Signals can_retry st message retry_after code
        (write_anthropic_error can_retry st atype message retry_after code)
unfolding write_anthropic_error status_or_502 lookup str_eq
anthropic-Signals can_retry st atype message retry_after code =
    elim (Bool-cases (ltb 0 retry_after)) [
      | inl y ↦ rw y (refl, refl, refl, refl, refl)
      | inr n ↦ rw n (refl, refl, refl, refl, refl)
    ]

system_one-Signals :
    (can_retry : Bool) (st : ℕ) (atype message : Text) (retry_after : ℕ) (code : Text)
    → Signals can_retry st message retry_after code
        (write_system_one_error can_retry st atype message retry_after code)
unfolding write_system_one_error status_or_502 lookup str_eq
system_one-Signals can_retry st atype message retry_after code =
    elim (Bool-cases (ltb 0 retry_after)) [
      | inl y ↦ rw y (refl, refl, refl, refl, refl)
      | inr n ↦ rw n (refl, refl, refl, refl, refl)
    ]

gemini-Signals :
    (can_retry : Bool) (st : ℕ) (atype message : Text) (retry_after : ℕ) (code : Text)
    → Signals can_retry st message retry_after code
        (write_gemini_error can_retry st atype message retry_after code)
unfolding write_gemini_error status_or_502 lookup str_eq
gemini-Signals can_retry st atype message retry_after code = elim (Bool-cases (ltb 0 retry_after)) [
  | inl y ↦ rw y (refl, refl, refl, refl, refl)
  | inr n ↦ rw n (refl, refl, refl, refl, refl)
]

gemini-google :
    (can_retry : Bool) (st : ℕ) (atype message : Text) (retry_after : ℕ) (code : Text)
    → is_google
        (if st == 0 then 502 else st)
        (write_gemini_error can_retry st atype message retry_after code).body
      ≡ true
unfolding write_gemini_error status_or_502 Named
gemini-google can_retry st atype message retry_after code =
    ground (arith, native_status-Named atype (if st == 0 then 502 else st))

-- On every route, an error of the proxy's own carries the verdict, the wait and the reason that it is
-- written with, its status, 502 where there is none, and its message; its body is OpenAI's exactly on
-- the Responses routes, System One's exactly on its own, and Google's exactly on the Gemini routes,
-- with that status and a canonical name that stands for an HTTP status, whatever the type is.
pub error_writer_for-Signals :
    (path : Text) (can_retry : Bool) (st : ℕ) (atype message : Text) (retry_after : ℕ) (code : Text)
    → Signals can_retry st message retry_after code
        (error_writer_for path can_retry st atype message retry_after code)
      × Fits path
          (if st == 0 then 502 else st)
          (error_writer_for path can_retry st atype message retry_after code).body
unfolding error_writer_for write_openai_error write_system_one_error write_anthropic_error
error_writer_for-Signals path can_retry st atype message retry_after code =
    let google = gemini-google can_retry st atype message retry_after code in
    let other = routes_disjoint path in
    elim (Bool-cases (is_responses_path path)) [
      | inl r ↦ (
        rw r (openai-Signals can_retry st atype message retry_after code),
        rw r (refl, ground (arith, r, other), ground (arith, r, other)),
      )
      | inr nr ↦ elim (Bool-cases (is_gemini_path path)) [
        | inl g ↦ (
          rw (nr, g) (gemini-Signals can_retry st atype message retry_after code),
          rw (nr, g)
              (
                unfold write_gemini_error in refl,
                google,
                unfold write_gemini_error in ground (arith, g, other),
              ),
        )
        | inr ng ↦ elim (Bool-cases (is_system_one_path path)) [
          | inl s ↦ (
            rw (nr, ng, s) (system_one-Signals can_retry st atype message retry_after code),
            rw (nr, ng, s) (refl, refl, refl),
          )
          | inr ns ↦ (
            rw (nr, ng, ns) (anthropic-Signals can_retry st atype message retry_after code),
            rw (nr, ng, ns) (refl, refl, refl),
          )
        ]
      ]
    ]
