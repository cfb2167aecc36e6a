-- ===== src/Tests/Failures.antt =====
-- Classification and surfacing.
use steady_proxy.Base.{true, false, [], ◌∷◌, ◌≡◌, refl, arith, none, text, str_eq}
use steady_proxy.Classify.Codec.{Codec}
use steady_proxy.Classify.Http.{Response, anthropic_error_verdict, classify_http_error_bytes_shaped}
use steady_proxy.Classify.Http.Verdicts.{
  told, says, sdk_retries, verdict_of, StatusFits, classify_http_error_bytes_shaped-retries,
}
use steady_proxy.Classify.Surface.{retry_surface_for}
use steady_proxy.Classify.Surface.Clients.{
  by_status, client_resends, retry_surface_for-client_resends,
}
use steady_proxy.Failure.{Failure, zero_failure}
use steady_proxy.Route.{is_responses_path, path_is}

-- A decoder that finds nothing.
abbrev blind : Codec
blind = record {
  json_valid = λ b. false;
  error_fields = λ b. record { kind = []; code = []; message = [] };
  stripped_url = λ u. none;
  parse_time = λ v. none;
  now = 0;
}

abbrev overloaded : Response
overloaded = record {
  status = 529;
  header = (text "X-Should-Retry", text "FALSE" ∷ []) ∷ [];
  body = text "overloaded";
}

classify_http_error_bytes_shaped-retries_example :
    let f = classify_http_error_bytes_shaped blind overloaded anthropic_error_verdict in
    (f.transient
      ≡ told
          (says overloaded.header)
          (sdk_retries 529 (verdict_of blind overloaded anthropic_error_verdict)))
    × StatusFits 529 f
classify_http_error_bytes_shaped-retries_example =
    classify_http_error_bytes_shaped-retries blind overloaded anthropic_error_verdict (omega arith)

abbrev rate_limited : Failure
rate_limited = record zero_failure { transient = true; status = 429 }

responses_by_status : by_status (text "/v1/responses") ≡ true
unfolding by_status is_responses_path path_is str_eq
responses_by_status = refl

retry_surface_for-client_resends_example :
    client_resends
      (text "/v1/responses")
      (retry_surface_for (text "/v1/responses") rate_limited false).0
    ≡ false
retry_surface_for-client_resends_example =
    retry_surface_for-client_resends (text "/v1/responses") rate_limited false responses_by_status
      (λ e. refl)
