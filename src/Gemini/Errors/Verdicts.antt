-- ===== src/Gemini/Errors/Verdicts.antt =====
-- The Gemini classifier over HTTP, beside the shared one.
use steady_proxy.Base.{◌≡◌, refl, Option, none, some}
use steady_proxy.Classify.Codec.{Codec}
use steady_proxy.Classify.Http.{
  classify_http_error_bytes_shaped, classify_http_error_bytes, BodyRule, Response,
  anthropic_error_verdict,
}
use steady_proxy.Gemini.Decimal.{GeminiLib}
use steady_proxy.Gemini.Errors.{
  ApiError, judge_decoded, classify_gemini_http_error_bytes, gemini_rule, dressed,
  classify_gemini_error_bytes,
}
use steady_proxy.Json.{JsonLib}

module _ (json : JsonLib) (lib : GeminiLib) where
  judge_decoded-shaped :
      (codec : Codec) (r : Response) (e : Option ApiError)
      → (rule : BodyRule) × ((judge_decoded json lib codec r e).transient
          ≡ (classify_http_error_bytes_shaped codec r rule).transient)
  unfolding judge_decoded classify_gemini_error_bytes dressed classify_http_error_bytes
  judge_decoded-shaped codec r none = (anthropic_error_verdict, refl)
  judge_decoded-shaped codec r (some e) = (gemini_rule json lib e, refl)

  -- The classifier over HTTP retries what the shared classifier retries, under some rule.
  pub classify_gemini_http_error_bytes-shaped :
      (codec : Codec) (r : Response)
      → (rule : BodyRule) × ((classify_gemini_http_error_bytes json lib codec r).transient
          ≡ (classify_http_error_bytes_shaped codec r rule).transient)
  unfolding classify_gemini_http_error_bytes
  classify_gemini_http_error_bytes-shaped codec r = judge_decoded-shaped codec r _
