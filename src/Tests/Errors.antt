-- ===== src/Tests/Errors.antt =====
-- Classification by path, the writers and the version on small inputs.
use steady_proxy.Base.{
  ℕ, true, false, [], ◌∷◌, Option, none, some, Text, text, str_eq, to_lower, ◌≡◌, refl, arith, inr,
}
use steady_proxy.Classify.Codec.{Codec}
use steady_proxy.Classify.ForPath.{classify_http_error_for_path}
use steady_proxy.Classify.ForPath.Hinted.{classify_http_error_for_path-hinted}
use steady_proxy.Classify.Http.{Fault, running, Response}
use steady_proxy.Classify.Http.Verdicts.{says, flag, first_of}
use steady_proxy.Classify.Writers.{error_writer_for}
use steady_proxy.Classify.Writers.Signals.{Signals, Fits, error_writer_for-Signals}
use steady_proxy.Failure.{get}
use steady_proxy.Gemini.Decimal.{GeminiLib}
use steady_proxy.Json.{JsonLib}
use steady_proxy.SystemOne.{Millis}

abbrev blind : Codec
blind = record {
  json_valid = λ b. false;
  error_fields = λ b. record { kind = []; code = []; message = [] };
  stripped_url = λ u. none;
  parse_time = λ v. none;
  now = 0;
}

abbrev no_json : JsonLib
no_json = record {
  is_utf8 = λ s. true;
  is_valid = λ s. false;
  entries = λ s. none;
  shape = λ s. none;
  as_string = λ s. none;
  as_int = λ s. none;
  as_list = λ s. none;
  as_map = λ s. none;
  encode_string = λ s. s;
  encode_map = λ m. [];
}

abbrev no_gemini : GeminiLib
no_gemini = record { number = λ s. none; envelope = λ s. none; envelope_array = λ s. none }

abbrev no_delay : Text → ℕ
no_delay m = 0

abbrev no_millis : Text → Option Millis
no_millis s = none

-- A bad request that the gateway wants to be sent again.
abbrev retryable : Response
retryable = record {
  status = 400;
  header = (text "X-Gateway-Retryable", text "true" ∷ []) ∷ [];
  body = [];
}

abbrev broken_off : Fault
broken_off = record { is_deadline = false; is_canceled = false }

retryable-says : says retryable.header ≡ some true
unfolding says flag first_of get to_lower str_eq
retryable-says = refl

classify_http_error_for_path-hinted_example :
    (classify_http_error_for_path no_json no_gemini blind no_delay no_millis
      (text "/v1/systemone")
      retryable
      (some broken_off)
      running).transient
    ≡ true
classify_http_error_for_path-hinted_example =
    classify_http_error_for_path-hinted no_json no_gemini blind no_delay no_millis
      (text "/v1/systemone") retryable (some broken_off) running true (omega arith) retryable-says
      (inr refl)

error_writer_for-Signals_example :
    Signals true 0 (text "m") 7 (text "c") (
      error_writer_for
        (text "/v1beta/models/m:generateContent")
        true
        0
        (text "api_error")
        (text "m")
        7
        (text "c"))
    × Fits
        (text "/v1beta/models/m:generateContent")
        502
        (error_writer_for
          (text "/v1beta/models/m:generateContent")
          true
          0
          (text "api_error")
          (text "m")
          7
          (text "c")).body
error_writer_for-Signals_example =
    error_writer_for-Signals (text "/v1beta/models/m:generateContent") true 0 (text "api_error")
      (text "m") 7 (text "c")
