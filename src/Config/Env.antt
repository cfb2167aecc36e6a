-- ===== src/Config/Env.antt =====
-- The settings as main.go reads them from the environment: `parseConfig`, `parseUpstream` and
-- `envReader`. Every malformed value is an error, and the errors are returned together.
pub mod Chosen
use steady_proxy.Base.{
  ℕ, ◌-◌, ◌*◌, ◌/◌, ◌^◌, Bool, true, false, not, ◌&&◌, ◌||◌, List, [], ◌∷◌, ◌++◌, concat, Option,
  none, some, ℤ, pos, negsuc, neg_ℕ, Text, text, is_nil, any, str_eq, trim_space, trim_slashes, leb,
  ltb, ◌==◌, if◌then◌else◌, ◌⊎◌, inl, inr,
}
use steady_proxy.Config.{Config}
use steady_proxy.Number.{itoa, parse_digits}
use steady_proxy.Fallback.{
  Loaded, models, removed_setting, not_claude, load_claude_refusal_fallbacks,
}

-- What the reader takes from outside the repository: `url.Parse`, as the scheme and the host,
-- `strings.EqualFold`, Go's `%q`, and `os.TempDir`.
pub record EnvLib : Type 0 where
  pub parse_url : Text → Option (Text × Text)
  pub equal_fold : Text → Text → Bool
  pub quote : Text → Text
  pub temp_dir : Text

-- The rest of `config`.
pub record Settings : Type 0 where
  pub config : Config
  pub listen_addr : Text
  pub upstream : Text
  pub upstream_host : Text
  pub max_request_bytes : ℕ
  pub resp_header_to : ℕ
  pub upstream_byte_idle : ℕ
  pub responses_replay_bytes : ℕ
  pub max_request_dur : ℕ
  pub spool_dir : Text
  pub request_log_dir : Text
  pub verbose : Bool

in_int64 : ℕ → Option ℕ → Option ℕ
in_int64 bound none = none
in_int64 bound (some n) = if leb n bound then some n else none

negated : Option ℕ → Option ℤ
negated none = none
negated (some n) = some (neg_ℕ n)

positive : Option ℕ → Option ℤ
positive none = none
positive (some n) = some (pos n)

-- `strconv.ParseInt s 10 64`.
unfoldable pub parse_int64 : Text → Option ℤ
unfolding in_int64 negated positive
parse_int64 [] = none
parse_int64 (c ∷ s) =
    if c == b'-'
    then negated (in_int64 (2 ^ 63) (parse_digits s))
    else if c == b'+'
    then positive (in_int64 (2 ^ 63 - 1) (parse_digits s))
    else positive (in_int64 (2 ^ 63 - 1) (parse_digits (c ∷ s)))

-- The `maxMS` of `envReader.ms`.
abbrev pub max_ms : ℕ
max_ms = (2 ^ 63 - 1) / 1000000

module _ (lib : EnvLib) (lookup : Text → Option Text) where
  -- `envReader.str`.
  unfoldable pub str : Text → Text → Text
  str k d = elim (lookup k) [ none ↦ d | some v ↦ if is_nil v then d else v ]

  too_low : Text → ℕ → ℤ → Text
  too_low k least n = k ++ (b'=' ∷ (itoa n ++ (text ": must be >= " ++ itoa (pos least))))

  checked : Text → ℕ → ℕ → ℤ → ℕ × List Text
  unfolding too_low
  checked k d least (negsuc n) = (d, too_low k least (negsuc n) ∷ [])
  checked k d least (pos n) = if ltb n least then (d, too_low k least (pos n) ∷ []) else (n, [])

  int_value : Text → ℕ → ℕ → Text → ℕ × List Text
  unfolding checked
  int_value k d least v = elim (parse_int64 (trim_space v)) [
    | none ↦ (d, (k ++ (b'=' ∷ (lib.quote v ++ text ": not an integer"))) ∷ [])
    | some n ↦ checked k d least n
  ]

  -- `envReader.int64`: the value, and the errors that it adds.
  unfoldable pub int64 : Text → ℕ → ℕ → ℕ × List Text
  unfolding int_value
  int64 k d least = elim (lookup k) [
    | none ↦ (d, [])
    | some v ↦ if is_nil v then (d, []) else int_value k d least v
  ]

  -- `envReader.ms`, in nanoseconds.
  unfoldable pub ms : Text → ℕ → ℕ → ℕ × List Text
  ms k d least =
      let (n, errs) = int64 k d least in
      if ltb max_ms n
      then (
        d * 1000000,
        errs ++ (k ++ (b'=' ∷ (itoa (pos n) ++ (text ": must be <= " ++ itoa (pos max_ms))))) ∷ [],
      )
      else (n * 1000000, errs)

  -- What `parseUpstream` returns: the upstream and its host, or an error.
  unfoldable pub parse_upstream : Text → (Text × Text) × List Text
  parse_upstream value =
      let raw = trim_space value in
      let refused : Text → (Text × Text) × List Text =
        λ why. (([], []), (text "PROXY_UPSTREAM_URL" ++ why) ∷ []) in
      if is_nil raw
      then refused (text " is required, e.g. https://gateway.example.com")
      else elim (lib.parse_url raw) [
        | none ↦ refused (text ": invalid URL")
        | some (scheme, host) ↦
            if not (str_eq scheme (text "http") || str_eq scheme (text "https")) || is_nil host
            then refused (text ": must be http(s)://host[:port][/prefix]")
            else if any (λ c. c == b'?' || c == b'#') raw
            then refused (text ": must not carry a query or fragment")
            else ((trim_slashes raw, host), [])
      ]

  -- The models, and the error of their setting.
  fallbacks_of : Loaded → List Text × List Text
  fallbacks_of (models ms) = (ms, [])
  fallbacks_of removed_setting = (
    [],
    (text "PROXY_REFUSAL_FALLBACK_MODEL was replaced by "
          ++ text "PROXY_CLAUDE_REFUSAL_FALLBACK_MODELS")
        ∷ [],
  )
  fallbacks_of (not_claude m) = (
    [],
    (text "PROXY_CLAUDE_REFUSAL_FALLBACK_MODELS"
          ++ (text ": expected a Claude model, got " ++ lib.quote m))
        ∷ [],
  )

  -- The fallback models that load.
  unfoldable pub fallbacks : List Text × List Text
  unfolding fallbacks_of
  fallbacks = fallbacks_of (load_claude_refusal_fallbacks lib.equal_fold lookup)

  unfoldable pub read_max_buffer_mem : ℕ × List Text
  read_max_buffer_mem = int64 (text "PROXY_MAX_BUFFER_MEM_BYTES") (2 ^ 20) 0

  unfoldable pub read_max_response_bytes : ℕ × List Text
  read_max_response_bytes = int64 (text "PROXY_MAX_RESPONSE_BYTES") (2 ^ 27) 1

  unfoldable pub read_max_request_bytes : ℕ × List Text
  read_max_request_bytes = int64 (text "PROXY_MAX_REQUEST_BYTES") (2 ^ 26) 1

  unfoldable pub read_resp_header_to : ℕ × List Text
  read_resp_header_to = ms (text "PROXY_RESP_HEADER_TIMEOUT_MS") 60000 0

  unfoldable pub read_upstream_byte_idle : ℕ × List Text
  read_upstream_byte_idle = ms (text "PROXY_UPSTREAM_BYTE_IDLE_MS") 600000 1

  unfoldable pub read_keepalive : ℕ × List Text
  read_keepalive = ms (text "PROXY_KEEPALIVE_MS") 240000 0

  unfoldable pub read_wf_keepalive : ℕ × List Text
  read_wf_keepalive = ms (text "PROXY_WORKFLOW_KEEPALIVE_MS") 10000 0

  unfoldable pub read_responses_keepalive : ℕ × List Text
  read_responses_keepalive = ms (text "PROXY_RESPONSES_KEEPALIVE_MS") 30000 0

  unfoldable pub read_responses_buffer : ℕ × List Text
  read_responses_buffer = ms (text "PROXY_RESPONSES_BUFFER_MS") 240000 0

  unfoldable pub read_gemini_buffer : ℕ × List Text
  read_gemini_buffer = ms (text "PROXY_GEMINI_BUFFER_MS") 240000 0

  unfoldable pub read_responses_replay_bytes : ℕ × List Text
  read_responses_replay_bytes = int64 (text "PROXY_RESPONSES_REPLAY_DELTA_BYTES") (2 ^ 16) 0

  unfoldable pub read_max_request_dur : ℕ × List Text
  read_max_request_dur = ms (text "PROXY_MAX_REQUEST_DURATION_MS") 1500000 1

  unfoldable pub read_sdk_retry_cap : ℕ × List Text
  read_sdk_retry_cap = int64 (text "PROXY_SDK_RETRY_CAP") 100 0

  unfoldable pub read_tx_local_retries : ℕ × List Text
  read_tx_local_retries = int64 (text "PROXY_TRANSACTIONAL_LOCAL_RETRIES") 0 0

  unfoldable pub read_local_backoff_cap : ℕ × List Text
  read_local_backoff_cap = ms (text "PROXY_LOCAL_RETRY_EXTRA_BACKOFF_CAP_MS") 10000 0

  -- The errors, in the order of the source.
  unfoldable pub all_errors : List (List Text)
  all_errors =
      (parse_upstream (str (text "PROXY_UPSTREAM_URL") [])).1
      ∷ fallbacks.1
      ∷ read_max_buffer_mem.1
      ∷ read_max_response_bytes.1
      ∷ read_max_request_bytes.1
      ∷ read_resp_header_to.1
      ∷ read_upstream_byte_idle.1
      ∷ read_keepalive.1
      ∷ read_wf_keepalive.1
      ∷ read_responses_keepalive.1
      ∷ read_responses_buffer.1
      ∷ read_gemini_buffer.1
      ∷ read_responses_replay_bytes.1
      ∷ read_max_request_dur.1
      ∷ read_sdk_retry_cap.1
      ∷ read_tx_local_retries.1
      ∷ read_local_backoff_cap.1
      ∷ []

  unfoldable pub settings : Settings
  settings = record {
    config = record {
      max_buffer_mem = read_max_buffer_mem.0;
      max_response_bytes = read_max_response_bytes.0;
      keepalive = read_keepalive.0;
      wf_keepalive = read_wf_keepalive.0;
      responses_keepalive = read_responses_keepalive.0;
      responses_buffer = read_responses_buffer.0;
      gemini_buffer = read_gemini_buffer.0;
      sdk_retry_cap = read_sdk_retry_cap.0;
      tx_local_retries = read_tx_local_retries.0;
      local_backoff_cap = read_local_backoff_cap.0;
      validate_json = not (str_eq (str (text "PROXY_VALIDATE_JSON") (text "1")) (text "0"));
      normalize_tool_json =
          not (str_eq (str (text "PROXY_NORMALIZE_TOOL_JSON") (text "1")) (text "0"));
      claude_refusal_fallbacks = fallbacks.0;
      responses_early_commit =
          not (str_eq (str (text "PROXY_RESPONSES_EARLY_COMMIT") (text "1")) (text "0"));
    };
    listen_addr = str (text "PROXY_LISTEN_ADDR") (text "127.0.0.1:8789");
    upstream = (parse_upstream (str (text "PROXY_UPSTREAM_URL") [])).0.0;
    upstream_host = (parse_upstream (str (text "PROXY_UPSTREAM_URL") [])).0.1;
    max_request_bytes = read_max_request_bytes.0;
    resp_header_to = read_resp_header_to.0;
    upstream_byte_idle = read_upstream_byte_idle.0;
    responses_replay_bytes = read_responses_replay_bytes.0;
    max_request_dur = read_max_request_dur.0;
    spool_dir = str (text "PROXY_SPOOL_DIR") lib.temp_dir;
    request_log_dir = str (text "PROXY_REQUEST_LOG_DIR") [];
    verbose = str_eq (str (text "PROXY_VERBOSE") []) (text "1");
  }

  -- `parseConfig`: the settings, or else all the errors.
  unfoldable pub parse_config : Settings ⊎ List Text
  parse_config = let errs = concat all_errors in if is_nil errs then inl settings else inr errs
