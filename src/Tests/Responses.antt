-- ===== src/Tests/Responses.antt =====
-- The Responses wire on small streams.
use steady_proxy.Base.{
  ℕ, true, List, [], ◌∷◌, ◌++◌, concat, none, some, pos, negsuc, Text, text, ◌≡◌, refl, arith, inr,
}
use steady_proxy.Json.{JsonLib, scalar}
use steady_proxy.Responses.Coalesce.{Piece, new_coalescer, accept_frames}
use steady_proxy.Responses.Fault.{responses_error_verdict, classify_responses_error}
use steady_proxy.Responses.Fault.Agreement.{Agrees, classify_responses_error-Agrees}
use steady_proxy.Responses.Reader.{replay_calls}
use steady_proxy.Responses.Reader.Conserves.{call_bytes, Within, replay_calls-Conserves}
use steady_proxy.Responses.Unicode.{valid_responses_json_unicode}
use steady_proxy.Responses.Unicode.Surrogates.{
  quote, escapes, paired, valid_responses_json_unicode-escapes,
}
use steady_proxy.Responses.Wire.{
  SnapshotLib, classify_responses_frame, new_openai_wire, openai_buffered, openai_live,
  openai_scrape,
}
use steady_proxy.Responses.Event.{is_responses_error_frame, responses_event_type}
use steady_proxy.Responses.Wire.Outcome.{is_native, Fits, openai_live-Fits}
use steady_proxy.Responses.Wire.Totals.{Parts, openai_scrape-Parts}
use steady_proxy.Sse.Parser.{Event}
use steady_proxy.Sse.Usage.{UsageLib, scrape_usage}
use steady_proxy.Sse.Usage.Totals.{Totalled, scrape_usage-Totalled}
use steady_proxy.Sse.Wire.{new_stats}

-- A decoder of one object, which is a text delta.
abbrev delta_fields : List (Text × Text)
delta_fields =
    (text "type", text "response.output_text.delta")
    ∷ (text "item_id", text "i")
    ∷ (text "output_index", text "0")
    ∷ (text "content_index", text "0")
    ∷ (text "delta", text "hi")
    ∷ []

abbrev pub one_object : List (Text × Text) → JsonLib
one_object fields = record {
  is_utf8 = λ s. true;
  is_valid = λ s. true;
  entries = λ s. some fields;
  shape = λ s. some scalar;
  as_string = λ s. some (some s);
  as_int = λ s. some (some (pos 0));
  as_list = λ s. some (some []);
  as_map = λ s. some fields;
  encode_string = λ s. s;
  encode_map = λ m. [];
}

abbrev deltas : JsonLib
deltas = one_object delta_fields

abbrev no_delay : Text → ℕ
no_delay m = 0

abbrev delta_frame : Text
delta_frame = text "data: 1\n\n"

abbrev replayed_pieces : List Piece
replayed_pieces =
    (accept_frames deltas 100 (delta_frame ∷ delta_frame ∷ text ": ping\n\n" ∷ [])
      new_coalescer).out

abbrev reads : List Text
reads = text "data: 1\r" ∷ text "\n\r\ndata: 22" ∷ text "222222\n\ndata" ∷ []

replay_calls-Conserves_example :
    (call_bytes (replay_calls 12 reads) ≡ concat reads) × Within 12 (replay_calls 12 reads)
replay_calls-Conserves_example = replay_calls-Conserves 12 reads

classify_responses_error-Agrees_example :
    Agrees
      (responses_error_verdict (text "server_error") (text "rate_limit_exceeded") [] [])
      (classify_responses_error no_delay (text "server_error") (text "rate_limit_exceeded") [])
classify_responses_error-Agrees_example =
    classify_responses_error-Agrees no_delay (text "server_error") (text "rate_limit_exceeded") []
      []

valid_responses_json_unicode-escapes_example :
    valid_responses_json_unicode deltas (quote ++ (escapes (0xd83d ∷ 0xde00 ∷ []) ++ quote))
    ≡ paired (0xd83d ∷ 0xde00 ∷ [])
valid_responses_json_unicode-escapes_example =
    valid_responses_json_unicode-escapes deltas (0xd83d ∷ 0xde00 ∷ [])
      (omega arith, (omega arith, tt)) refl

-- A terminal event that names no response.
abbrev completed : Event
completed = record { name = []; data_text = text "1"; raw = text "data: 1\n\n" }

abbrev completion : JsonLib
completion = one_object ((text "type", text "response.completed") ∷ [])

openai_live-Fits_example :
    Fits completed.raw
      (is_responses_error_frame (responses_event_type completion completed))
      (is_native completion no_delay completed (responses_event_type completion completed))
      (classify_responses_frame completion no_delay completed
        (responses_event_type completion completed)).0
      (openai_buffered completion no_delay new_openai_wire completed new_stats).fail
      (openai_buffered completion no_delay new_openai_wire completed new_stats)
      (openai_live completion no_delay new_openai_wire completed new_stats)
openai_live-Fits_example = openai_live-Fits completion no_delay new_openai_wire completed new_stats

-- A snapshot with more cached tokens than tokens.
abbrev snapshots : SnapshotLib
snapshots = record {
  created_model = λ s. none;
  snapshot = λ s. some (record {
    model = [];
    status = text "completed";
    input = pos 10;
    output = pos 3;
    cached = pos 12;
    reason = [];
  });
}

openai_scrape-Parts_example : Parts (openai_scrape completion snapshots completed new_stats)
openai_scrape-Parts_example =
    openai_scrape-Parts completion snapshots completed new_stats
      (inr (refl, refl, refl, refl), refl)

abbrev usages : UsageLib
usages = record {
  message_start = λ s.
      some (record { model = []; input = pos 5; cache_creation = negsuc 2; cache_read = pos 1 });
  message_delta = λ s. none;
  stop_details = λ s. none;
}

abbrev message_start : Event
message_start = record { name = text "message_start"; data_text = []; raw = [] }

scrape_usage-Totalled_example : Totalled (scrape_usage usages message_start new_stats)
scrape_usage-Totalled_example =
    scrape_usage-Totalled usages message_start new_stats (inr (refl, refl, refl, refl))
