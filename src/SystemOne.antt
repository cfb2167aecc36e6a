-- ===== src/SystemOne.antt =====
-- systemone.go: errors and counts of System One. Its retries go by the HTTP status alone. The
-- floating-point reading of `retry-after-ms` is the parameter `millis`: none where
-- `strconv.ParseFloat` fails or the value is no number, infinite or negative.
use steady_proxy.Base.{
  ℕ, ◌-◌, ◌^◌, Bool, ◌&&◌, ◌||◌, List, [], Option, none, some, ℤ, is_negative, Text, text, is_nil,
  str_eq, trim_space, leb, ltb, ◌==◌, if◌then◌else◌,
}
use steady_proxy.Classify.Codec.{Codec}
use steady_proxy.Classify.Http.{
  Hint, no_hint, gateway, should_retry, Response, http_retry_hint, is_redirect,
  map_transient_status, retry_after_seconds, redirect_failure, status_code,
}
use steady_proxy.Failure.{Failure, Header, zero_failure, get}
use steady_proxy.Json.{JsonLib, lookup, or_empty}

-- A count of milliseconds: whether it is 0, and `math.Ceil` of its thousandth.
pub record Millis : Type 0 where
  pub is_zero : Bool
  pub ceil_seconds : ℕ

-- `systemOneMetadata`.
pub record Metadata : Type 0 where
  pub model : Text
  pub input_tokens : Option ℤ
  pub output_tokens : Option ℤ

-- The verdict, the code and the status, by the hint.
unfoldable pub hinted : Hint → ℕ → Failure → Failure
hinted (gateway retry) st f = record f {
  transient = retry;
  code = if retry then status_code (text "gateway_retryable_") st else text "gateway_permanent";
  status = if retry then map_transient_status st else st;
}
hinted (should_retry retry) st f = record f {
  transient = retry;
  code = if retry then status_code (text "upstream_retry_") st else text "upstream_no_retry";
  status = if retry then map_transient_status st else st;
}
hinted no_hint st f = record f { transient = st == 408 || st == 429 || (leb 500 st && leb st 599) }

module _ (json : JsonLib) where
  -- `systemOneJSONString`.
  pub system_one_json_string : Text → Text
  system_one_json_string raw = elim (json.as_string raw) [ some (some s) ↦ s | _ ↦ [] ]

  at : Text → List (Text × Text) → Text
  at k m = or_empty (lookup k m)

  -- Type, code and message of an error object.
  identity_of : List (Text × Text) → Text × Text × Text
  unfolding at
  identity_of m = (
    system_one_json_string (at (text "type") m),
    system_one_json_string (at (text "code") m),
    system_one_json_string (at (text "message") m),
  )

  -- The error envelope of a gateway.
  gateway_identity : List (Text × Text) → Text × Text × Text
  unfolding identity_of at
  gateway_identity m = elim (json.as_map (at (text "error") m)) [
    | none ↦ ([], [], [])
    | some e ↦ identity_of e
  ]

  -- Native detail that is a text or an object; null and what is neither leave it to the gateway's.
  detail_identity : Text → List (Text × Text) → Text × Text × Text
  unfolding identity_of gateway_identity
  detail_identity detail m =
      let object : Text × Text × Text = elim (json.as_map detail) [
        | none ↦ gateway_identity m
        | some fields ↦ identity_of fields
      ] in
      if str_eq (trim_space detail) (text "null")
      then gateway_identity m
      else elim (json.as_string detail) [
        | none ↦ object
        | some none ↦ ([], [], [])
        | some (some message) ↦ ([], [], message)
      ]

  -- `systemOneErrorIdentity`.
  pub system_one_error_identity : Text → Text × Text × Text
  unfolding detail_identity gateway_identity at
  system_one_error_identity body = elim (json.as_map body) [
    | none ↦ ([], [], [])
    | some m ↦
        let detail = at (text "detail") m in
        if is_nil detail then gateway_identity m else detail_identity detail m
  ]

  -- `systemOneTokenCount`.
  token_count : Text → Option ℤ
  token_count raw = elim (json.as_int raw) [
    | some (some n) ↦ if is_negative n then none else some n
    | _ ↦ none
  ]

  -- `systemOneResponseMetadata`.
  pub system_one_response_metadata : Text → Metadata
  unfolding token_count at
  system_one_response_metadata body = elim (json.as_map body) [
    | none ↦ record { model = []; input_tokens = none; output_tokens = none }
    | some m ↦
        let usage : List (Text × Text) = elim (json.as_map (at (text "usage") m)) [
          | none ↦ []
          | some u ↦ u
        ] in
        let count : Text → Option ℤ =
          λ k. elim (lookup k usage) [ none ↦ none | some raw ↦ token_count raw ] in
        record {
          model = system_one_json_string (at (text "model") m);
          input_tokens = count (text "input_tokens");
          output_tokens = count (text "output_tokens");
        }
  ]

  -- The failure before the verdict.
  pub system_one_base : Response → Failure
  system_one_base r =
      let (kind, code, message) = system_one_error_identity r.body in
      record zero_failure {
        status = r.status;
        atype = if is_nil kind then text "api_error" else kind;
        code = status_code (text "http_") r.status;
        message = message;
        orig_type = kind;
        orig_code = code;
      }

  module _ (millis : Text → Option Millis) (codec : Codec) where
    -- `systemOneRetryAfterSeconds`.
    pub system_one_retry_after_seconds : Header → ℕ
    system_one_retry_after_seconds h = elim (millis (trim_space (get h (text "Retry-After-Ms")))) [
      | none ↦ retry_after_seconds codec (get h (text "Retry-After"))
      | some ms ↦
          if ms.is_zero
          then 0
          else if ltb ms.ceil_seconds 1
          then 1
          else if leb (2 ^ 63) ms.ceil_seconds
          then 2 ^ 63 - 1
          else ms.ceil_seconds
    ]

    -- `classifySystemOneHTTPErrorBytes`; a redirect is judged with no body.
    unfoldable pub classify_system_one_http_error_bytes : Response → Failure
    unfolding hinted
    classify_system_one_http_error_bytes r =
        let base = system_one_base r in
        let f = hinted (http_retry_hint r.header) r.status base in
        if is_redirect r.status
        then redirect_failure codec r
        else if f.transient
        then record f { retry_after = system_one_retry_after_seconds r.header }
        else f
