-- ===== src/Tests/Gemini.antt =====
-- The Gemini wire on small inputs.
use steady_proxy.Base.{
  ℕ, ◌+◌, ◌*◌, ◌≤◌, ◌<◌, true, false, [], ◌∷◌, none, some, text, str_eq, trim_space, has_prefix,
  if◌then◌else◌, ◌≡◌, ◌⊎◌, refl, arith,
}
use steady_proxy.Classify.Codec.{Codec}
use steady_proxy.Gemini.Decimal.{GeminiLib, gemini_retry_delay_seconds}
use steady_proxy.Gemini.Decimal.Delay.{
  value_onto, fraction_nanos, printed, gemini_retry_delay_seconds-rounds_up,
}
use steady_proxy.Gemini.Errors.{gemini_http_status, gemini_status_for_http}
use steady_proxy.Gemini.Errors.Statuses.{gemini_http_status-status_for_http}
use steady_proxy.Gemini.Object.{gemini_chunk}
use steady_proxy.Gemini.Wire.{
  wire_for, state_of, gemini_buffered, gemini_accept, accept_chunk, reason_given, complete_on_eof,
}
use steady_proxy.Gemini.Wire.Complete.{run, all_succeed}
use steady_proxy.Gemini.Wire.Ended.{EndedBy, complete_on_eof-EndedBy}
use steady_proxy.Json.{JsonLib, scalar}
use steady_proxy.Sse.Parser.{Event}
use steady_proxy.Sse.Wire.{new_stats}

abbrev blind : Codec
blind = record {
  json_valid = λ b. false;
  error_fields = λ b. record { kind = []; code = []; message = [] };
  stripped_url = λ u. none;
  parse_time = λ v. none;
  now = 0;
}

-- Numbers are as they stand.
abbrev plain : GeminiLib
plain = record { number = λ s. some s; envelope = λ s. none; envelope_array = λ s. none }

-- A chunk with one candidate that has finished; the text `{` is the chunk, and `c` the candidate.
abbrev chunks : JsonLib
chunks = record {
  is_utf8 = λ s. true;
  is_valid = λ s. true;
  entries = λ s. some (
      if str_eq s (text "{")
      then (text "candidates", text "cs") ∷ []
      else (text "finishReason", text "\"") ∷ []);
  shape = λ s. some scalar;
  as_string = λ s. some (some (text "STOP"));
  as_int = λ s. some none;
  as_list = λ s. some (some (text "c" ∷ []));
  as_map = λ s. none;
  encode_string = λ s. s;
  encode_map = λ m. [];
}

abbrev stop : Event
stop = record { name = []; data_text = text "{"; raw = [] }

one_stop_unblocked : (run chunks plain blind (stop ∷ []) (wire_for 1) new_stats).blocked ≡ false
unfolding run gemini_buffered gemini_accept has_prefix trim_space gemini_chunk str_eq accept_chunk
    state_of reason_given
one_stop_unblocked = refl

one_stop_complete :
    complete_on_eof (run chunks plain blind (stop ∷ []) (wire_for 1) new_stats) ≡ true
unfolding complete_on_eof run gemini_buffered gemini_accept has_prefix trim_space gemini_chunk
    str_eq accept_chunk state_of reason_given
one_stop_complete = refl

complete_on_eof-EndedBy_example :
    ((i : ℕ) → i < 1 → EndedBy chunks plain blind i (stop ∷ []))
    × (all_succeed chunks plain blind (stop ∷ []) (wire_for 1) new_stats ≡ true)
complete_on_eof-EndedBy_example =
    complete_on_eof-EndedBy chunks plain blind 1 (stop ∷ []) new_stats one_stop_unblocked
      one_stop_complete

three_fits : value_onto 0 (text "3") ≤ 315576000000
unfolding value_onto
three_fits = omega arith

gemini_retry_delay_seconds-rounds_up_example :
    (value_onto 0 (text "3") * 1000000000 + fraction_nanos none
      ≤ gemini_retry_delay_seconds (printed (text "3") none) * 1000000000)
    × (gemini_retry_delay_seconds (printed (text "3") none) * 1000000000
        < value_onto 0 (text "3") * 1000000000 + fraction_nanos none + 1000000000)
gemini_retry_delay_seconds-rounds_up_example =
    gemini_retry_delay_seconds-rounds_up (text "3") none refl refl refl three_fits

gemini_http_status-status_for_http_example :
    (gemini_http_status (text "ALREADY_EXISTS") ≡ 0)
    ⊎ (gemini_http_status (gemini_status_for_http (gemini_http_status (text "ALREADY_EXISTS")))
        ≡ gemini_http_status (text "ALREADY_EXISTS"))
gemini_http_status-status_for_http_example =
    gemini_http_status-status_for_http (text "ALREADY_EXISTS")
