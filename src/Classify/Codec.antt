-- ===== src/Classify/Codec.antt =====
-- What classification takes from outside the repository: the JSON decoder and the clock.
use steady_proxy.Base.{ℕ, Bool, Option, Text}

-- The `error` object of an error body, each field empty where the body has none.
pub record ErrorFields : Type 0 where
  pub kind : Text
  pub code : Text
  pub message : Text

-- `json_valid` is `json.Valid`, `error_fields` the best-effort `json.Unmarshal` into the error
-- struct, `stripped_url` is `url.Parse` and `URL.String` with query, fragment and user cleared
-- (`none` where the parse fails), `parse_time` is `http.ParseTime` in nanoseconds, `now` the clock.
pub record Codec : Type 0 where
  pub json_valid : Text → Bool
  pub error_fields : Text → ErrorFields
  pub stripped_url : Text → Option Text
  pub parse_time : Text → Option ℕ
  pub now : ℕ
