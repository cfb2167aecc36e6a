-- ===== src/Config/Env/Chosen.antt =====
-- No setting is a default that the operator did not choose.
use steady_proxy.Base.{
  ℕ, ◌*◌, ◌^◌, ◌≤◌, Bool, true, false, List, [], ◌∷◌, ◌++◌, concat, Option, none, some, pos, negsuc,
  Text, text, is_nil, last_is, trim_slashes-slash, trim_space, ltb, ◌≡◌, refl, arith, ◌⊎◌, inl, inr,
  subst, Bool-cases, Option-cases,
}
use steady_proxy.Number.{itoa}
use steady_proxy.Fallback.{
  Loaded, models, removed_setting, not_claude, load_claude_refusal_fallbacks,
}
use steady_proxy.Fallback.Models.{Usable, load_claude_refusal_fallbacks-Usable}
use steady_proxy.Config.Env.{
  EnvLib, Settings, parse_int64, max_ms, int64, int_value, checked, ms, str, parse_upstream,
  fallbacks, fallbacks_of, all_errors, settings, parse_config, read_max_buffer_mem,
  read_max_response_bytes, read_max_request_bytes, read_resp_header_to, read_upstream_byte_idle,
  read_keepalive, read_wf_keepalive, read_responses_keepalive, read_responses_buffer,
  read_gemini_buffer, read_responses_replay_bytes, read_max_request_dur, read_sdk_retry_cap,
  read_tx_local_retries, read_local_backoff_cap,
}

abbrev AllNil : List (List Text) → Type 0
AllNil [] = Unit
AllNil (xs ∷ xss) = (is_nil xs ≡ true) × AllNil xss

concat-nil : (xss : List (List Text)) → is_nil (concat xss) ≡ true → AllNil xss
concat-nil [] h = tt
concat-nil ([] ∷ xss) h = (refl, concat-nil xss h)
concat-nil ((x ∷ xs) ∷ xss) h = cc

is_nil-snoc {ℓ} : {A : Type ℓ} (xs : List A) (x : A) → is_nil (xs ++ x ∷ []) ≡ false
is_nil-snoc [] x = refl
is_nil-snoc (y ∷ xs) x = refl

module _ (lib : EnvLib) (lookup : Text → Option Text) where
  -- A variable is absent or empty.
  abbrev pub unset : Text → Bool
  unset k = elim (lookup k) [ none ↦ true | some v ↦ is_nil v ]

  -- A number is the default of a variable that is not set, or the integer that is set, which is not
  -- below the least.
  abbrev pub ChosenInt : Text → ℕ → ℕ → ℕ → Type 0
  ChosenInt k d least n =
      ((unset k ≡ true) × (n ≡ d))
      ⊎ ((v : Text) × (lookup k ≡ some v)
          × (parse_int64 (trim_space v) ≡ some (pos n))
          × (least ≤ n))

  -- So too for milliseconds, as nanoseconds that fit 64 bits.
  abbrev pub ChosenMs : Text → ℕ → ℕ → ℕ → Type 0
  ChosenMs k d least n = (m : ℕ) × ChosenInt k d least m × (m ≤ max_ms) × (n ≡ m * 1000000)

  int64-Chosen :
      (k : Text) (d least : ℕ)
      → is_nil (int64 lib lookup k d least).1 ≡ true
      → ChosenInt k d least (int64 lib lookup k d least).0
  unfolding int64 int_value checked
  int64-Chosen k d least h = elim (Option-cases (lookup k)) [
    | inl e ↦ inl (ground (arith, e))
    | inr (v, e) ↦ elim (Bool-cases (is_nil v)) [
      | inl empty ↦ inl (ground (arith, e, empty))
      | inr full ↦ elim (Option-cases (parse_int64 (trim_space v))) [
        | inl bad ↦ absurd (ground (arith, e, full, bad, h))
        | inr (pos n, good) ↦
            inr (v, e, ground (arith, e, full, good, h), ground (arith, e, full, good, h))
        | inr (negsuc n, good) ↦ absurd (ground (arith, e, full, good, h))
      ]
    ]
  ]

  ms-Chosen :
      (k : Text) (d least : ℕ)
      → is_nil (ms lib lookup k d least).1 ≡ true
      → ChosenMs k d least (ms lib lookup k d least).0
  unfolding ms
  ms-Chosen k d least h = elim (Bool-cases (ltb max_ms (int64 lib lookup k d least).0)) [
    | inl big ↦ absurd (
        ground (
          arith,
          big,
          h,
          is_nil-snoc (int64 lib lookup k d least).1 (
              k
              ++ (b'='
                  ∷ (itoa (pos (int64 lib lookup k d least).0)
                      ++ (text ": must be <= " ++ itoa (pos max_ms))))),
        ))
    | inr fits ↦ (
      (int64 lib lookup k d least).0,
      int64-Chosen k d least (ground (arith, fits, h)),
      ground (arith, fits),
      ground (arith, fits),
    )
  ]

  -- What the start of the proxy may rely on.
  pub record IsChosen (s : Settings) : Type 0 where
    pub max_buffer_mem :
        ChosenInt (text "PROXY_MAX_BUFFER_MEM_BYTES") (2 ^ 20) 0 s.config.max_buffer_mem
    pub max_response_bytes :
        ChosenInt (text "PROXY_MAX_RESPONSE_BYTES") (2 ^ 27) 1 s.config.max_response_bytes
    pub max_request_bytes :
        ChosenInt (text "PROXY_MAX_REQUEST_BYTES") (2 ^ 26) 1 s.max_request_bytes
    pub resp_header_to : ChosenMs (text "PROXY_RESP_HEADER_TIMEOUT_MS") 60000 0 s.resp_header_to
    pub upstream_byte_idle :
        ChosenMs (text "PROXY_UPSTREAM_BYTE_IDLE_MS") 600000 1 s.upstream_byte_idle
    pub keepalive : ChosenMs (text "PROXY_KEEPALIVE_MS") 240000 0 s.config.keepalive
    pub wf_keepalive : ChosenMs (text "PROXY_WORKFLOW_KEEPALIVE_MS") 10000 0 s.config.wf_keepalive
    pub responses_keepalive :
        ChosenMs (text "PROXY_RESPONSES_KEEPALIVE_MS") 30000 0 s.config.responses_keepalive
    pub responses_buffer :
        ChosenMs (text "PROXY_RESPONSES_BUFFER_MS") 240000 0 s.config.responses_buffer
    pub gemini_buffer : ChosenMs (text "PROXY_GEMINI_BUFFER_MS") 240000 0 s.config.gemini_buffer
    pub responses_replay_bytes :
        ChosenInt (text "PROXY_RESPONSES_REPLAY_DELTA_BYTES") (2 ^ 16) 0 s.responses_replay_bytes
    pub max_request_dur :
        ChosenMs (text "PROXY_MAX_REQUEST_DURATION_MS") 1500000 1 s.max_request_dur
    pub sdk_retry_cap : ChosenInt (text "PROXY_SDK_RETRY_CAP") 100 0 s.config.sdk_retry_cap
    pub tx_local_retries :
        ChosenInt (text "PROXY_TRANSACTIONAL_LOCAL_RETRIES") 0 0 s.config.tx_local_retries
    pub local_backoff_cap :
        ChosenMs (text "PROXY_LOCAL_RETRY_EXTRA_BACKOFF_CAP_MS") 10000 0 s.config.local_backoff_cap
    pub no_slash : last_is b'/' s.upstream ≡ false
    pub usable : Usable (models s.config.claude_refusal_fallbacks)

  fallbacks_of-Usable :
      (l : Loaded)
      → Usable l
      → is_nil (fallbacks_of lib lookup l).1 ≡ true
      → Usable (models (fallbacks_of lib lookup l).0)
  unfolding fallbacks_of
  fallbacks_of-Usable (models ms) u h = u
  fallbacks_of-Usable removed_setting u h = cc
  fallbacks_of-Usable (not_claude m) u h = cc

  fallbacks-Usable :
      is_nil (fallbacks lib lookup).1 ≡ true → Usable (models (fallbacks lib lookup).0)
  unfolding fallbacks
  fallbacks-Usable h =
      fallbacks_of-Usable (load_claude_refusal_fallbacks lib.equal_fold lookup)
        (load_claude_refusal_fallbacks-Usable lib.equal_fold lookup) h

  parse_upstream-no_slash :
      (value : Text) → last_is b'/' (parse_upstream lib lookup value).0.0 ≡ false
  unfolding parse_upstream
  parse_upstream-no_slash value = ground (arith, trim_slashes-slash (trim_space value))

  settings-IsChosen : AllNil (all_errors lib lookup) → IsChosen (settings lib lookup)
  unfolding all_errors settings read_max_buffer_mem read_max_response_bytes read_max_request_bytes
      read_resp_header_to read_upstream_byte_idle read_keepalive read_wf_keepalive
      read_responses_keepalive read_responses_buffer read_gemini_buffer read_responses_replay_bytes
      read_max_request_dur read_sdk_retry_cap read_tx_local_retries read_local_backoff_cap
  settings-IsChosen h = record {
    max_buffer_mem = int64-Chosen (text "PROXY_MAX_BUFFER_MEM_BYTES") (2 ^ 20) 0 h.1.1.0;
    max_response_bytes = int64-Chosen (text "PROXY_MAX_RESPONSE_BYTES") (2 ^ 27) 1 h.1.1.1.0;
    max_request_bytes = int64-Chosen (text "PROXY_MAX_REQUEST_BYTES") (2 ^ 26) 1 h.1.1.1.1.0;
    resp_header_to = ms-Chosen (text "PROXY_RESP_HEADER_TIMEOUT_MS") 60000 0 h.1.1.1.1.1.0;
    upstream_byte_idle = ms-Chosen (text "PROXY_UPSTREAM_BYTE_IDLE_MS") 600000 1 h.1.1.1.1.1.1.0;
    keepalive = ms-Chosen (text "PROXY_KEEPALIVE_MS") 240000 0 h.1.1.1.1.1.1.1.0;
    wf_keepalive = ms-Chosen (text "PROXY_WORKFLOW_KEEPALIVE_MS") 10000 0 h.1.1.1.1.1.1.1.1.0;
    responses_keepalive =
        ms-Chosen (text "PROXY_RESPONSES_KEEPALIVE_MS") 30000 0 h.1.1.1.1.1.1.1.1.1.0;
    responses_buffer =
        ms-Chosen (text "PROXY_RESPONSES_BUFFER_MS") 240000 0 h.1.1.1.1.1.1.1.1.1.1.0;
    gemini_buffer = ms-Chosen (text "PROXY_GEMINI_BUFFER_MS") 240000 0 h.1.1.1.1.1.1.1.1.1.1.1.0;
    responses_replay_bytes =
        int64-Chosen (text "PROXY_RESPONSES_REPLAY_DELTA_BYTES") (2 ^ 16) 0
          h.1.1.1.1.1.1.1.1.1.1.1.1.0;
    max_request_dur =
        ms-Chosen (text "PROXY_MAX_REQUEST_DURATION_MS") 1500000 1 h.1.1.1.1.1.1.1.1.1.1.1.1.1.0;
    sdk_retry_cap = int64-Chosen (text "PROXY_SDK_RETRY_CAP") 100 0 h.1.1.1.1.1.1.1.1.1.1.1.1.1.1.0;
    tx_local_retries =
        int64-Chosen (text "PROXY_TRANSACTIONAL_LOCAL_RETRIES") 0 0
          h.1.1.1.1.1.1.1.1.1.1.1.1.1.1.1.0;
    local_backoff_cap =
        ms-Chosen (text "PROXY_LOCAL_RETRY_EXTRA_BACKOFF_CAP_MS") 10000 0
          h.1.1.1.1.1.1.1.1.1.1.1.1.1.1.1.1.0;
    no_slash = parse_upstream-no_slash (str lib lookup (text "PROXY_UPSTREAM_URL") []);
    usable = fallbacks-Usable h.1.0;
  }

  -- Where the proxy starts, every integer setting is the one of the environment, at least its least
  -- value, or its default where the variable is absent or empty, and durations fit 64 bits; the
  -- upstream ends in no slash; and the fallback models are Claude models, none twice.
  pub parse_config-IsChosen : (s : Settings) → parse_config lib lookup ≡ inl s → IsChosen s
  unfolding parse_config
  parse_config-IsChosen s h = elim (Bool-cases (is_nil (concat (all_errors lib lookup)))) [
    | inl y ↦
        let e : settings lib lookup ≡ s = ground (arith, y, h) in
        subst IsChosen e (settings-IsChosen (concat-nil (all_errors lib lookup) y))
    | inr n ↦ absurd (ground (arith, n, h))
  ]
