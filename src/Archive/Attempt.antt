-- ===== src/Archive/Attempt.antt =====
-- An attempt as the archive records it (requestlog.go), and the request that comes in.
use steady_proxy.Base.{ℕ, Bool, List, Option, ℤ, Text}
use steady_proxy.Failure.{Header}
use steady_proxy.Sse.Wire.{CaptureStats}
use steady_proxy.Archive.Capture.{BodyCapture, ArchiveBody}

-- The parts of an `http.Request` that are recorded.
pub record Incoming : Type 0 where
  pub method : Text
  pub request_uri : Text
  pub path : Text
  pub raw_query : Text
  pub host : Text
  pub proto : Text
  pub content_length : ℤ
  pub transfer_encoding : List Text
  pub header : Header
  pub body : Text

-- `archiveResponse`; the body is none until the attempt is finished.
pub record ArchiveResponse : Type 0 where
  pub status : ℕ
  pub headers : Option Header
  pub body : Option ArchiveBody

-- `archiveFailure`.
pub record ArchiveFailure : Type 0 where
  pub code : Text
  pub atype : Text
  pub message : Text
  pub transient : Bool
  pub fast_retry : Bool
  pub status : ℕ
  pub orig_status : ℕ
  pub retry_after : ℕ

-- `archiveStats`.
pub record ArchiveStats : Type 0 where
  pub mode : Text
  pub bytes : ℕ
  pub input_tokens : ℤ
  pub cache_creation_tokens : ℤ
  pub cache_read_tokens : ℤ
  pub total_input_tokens : ℤ
  pub output_tokens : ℤ
  pub stop_reason : Text
  pub model : Text
  pub max_ping_run : ℕ

-- `archiveModelSwap`.
pub record ArchiveModelSwap : Type 0 where
  pub reason : Text
  pub from : Text
  pub to : Text

-- `archiveAttempt`. Times are nanoseconds.
pub record ArchiveAttempt : Type 0 where
  pub index : ℕ
  pub started : ℕ
  pub duration_ms : ℕ
  pub who : Text
  pub model : Text
  pub proxy_retry : ℕ
  pub request_body_ref : Text
  pub request_body_size : ℕ
  pub request_body_sha256 : Text
  pub request_body : Option ArchiveBody
  pub response : Option ArchiveResponse
  pub failure : Option ArchiveFailure
  pub stats : Option ArchiveStats
  pub model_swap : Option ArchiveModelSwap
  pub result : Text
  pub retry_wait_ms : ℕ
  pub response_capture : Option BodyCapture

-- `statsArchive`.
unfoldable pub stats_archive : CaptureStats → ArchiveStats
stats_archive st = record {
  mode = st.mode;
  bytes = st.bytes;
  input_tokens = st.input_tok;
  cache_creation_tokens = st.cache_creation_tok;
  cache_read_tokens = st.cache_read_tok;
  total_input_tokens = st.in_tok;
  output_tokens = st.out_tok;
  stop_reason = st.stop;
  model = st.model;
  max_ping_run = st.max_ping_run;
}
