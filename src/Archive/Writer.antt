-- ===== src/Archive/Writer.antt =====
-- How an archive is written (requestlog.go): `jsonObjectWriter` and the writers of the parts. The
-- output is what has been written; an error stops the writing, and nothing is promised of the file
-- then. `encoding/json`, base64 and the files are parameters.
pub mod Document
pub mod Grammar
pub mod Success
use steady_proxy.Base.{
  ℕ, Bool, true, false, not, List, [], ◌∷◌, ◌++◌, Option, none, some, ℤ, pos, Text, text, is_nil,
  ◌==◌, ◌>>=◌, if◌then◌else◌,
}
use steady_proxy.Failure.{Header}
use steady_proxy.Version.{VersionInfo, default_string}
use steady_proxy.Archive.Capture.{ArchiveBody}
use steady_proxy.Archive.Attempt.{
  ArchiveResponse, ArchiveFailure, ArchiveStats, ArchiveModelSwap, ArchiveAttempt,
}
use steady_proxy.Archive.Report.{ArchiveClientRequest, ArchiveOutcome, RequestArchive}

-- `accepts out p` is that writing `p` behind `out` does not fail; `json.Marshal` of the types of the
-- archive, none for an error; base64; and the bytes of a file, none where it cannot be read. A time
-- is given as the archive prints it.
pub record WriterLib : Type 0 where
  pub accepts : Text → Text → Bool
  pub of_text : Text → Option Text
  pub of_texts : List Text → Option Text
  pub of_int : ℤ → Option Text
  pub of_header : Header → Option Text
  pub of_version : VersionInfo → Option Text
  pub of_outcome : ArchiveOutcome → Option Text
  pub of_redactions : List Text → List Text → Option Text
  pub of_failure : ArchiveFailure → Option Text
  pub of_stats : ArchiveStats → Option Text
  pub of_swap : ArchiveModelSwap → Option Text
  pub base64 : Text → Text
  pub read_file : Text → Option Text
  pub print_time : ℕ → Text

-- A writer takes what is written to what is written then.
abbrev pub Write : Type 0
Write = Text → Option Text

-- `jsonObjectWriter`.
pub record ObjectWriter : Type 0 where
  pub first : Bool
  pub out : Text

abbrev pub Step : Type 0
Step = ObjectWriter → Option ObjectWriter

-- A field that stands only where there is something to say.
unfoldable pub when : Bool → Step → Step
when b s o = if b then s o else some o

unfoldable pub when_some : {A : Type 0} → Option A → (A → Step) → Step
when_some none s o = some o
when_some (some a) s o = s a o

-- The fields in order, up to the first error.
unfoldable pub all_fields : List Step → Step
all_fields [] o = some o
all_fields (s ∷ ss) o = s o >>= all_fields ss

module _ (lib : WriterLib) where
  unfoldable pub put : Text → Write
  put p out = if lib.accepts out p then some (out ++ p) else none

  unfoldable pub comma : ObjectWriter → Option Text
  unfolding put
  comma o = if o.first then some o.out else put (text ",") o.out

  -- `rawField`.
  unfoldable pub raw_field : Text → Write → Step
  raw_field name write o = do
    out ← comma o
    name_json ← lib.of_text name
    named ← put name_json out
    colon ← put (text ":") named
    done ← write colon
    some (record { first = false; out = done })

  -- `field`, with the marshalled value.
  unfoldable pub json_field : Text → Option Text → Step
  json_field name none o = none
  json_field name (some b) o = raw_field name (put b) o

  -- `newJSONObject`, the fields, and `end`.
  unfoldable pub write_object : List Step → Write
  write_object ss out = do
    opened ← put (text "{") out
    o ← all_fields ss (record { first = true; out = opened })
    put (text "}") o.out

  -- The base64 text between quotes; a file that cannot be read is an error.
  unfoldable pub write_data : ArchiveBody → Write
  write_data b out = do
    bytes ← elim b.file [ none ↦ some b.data_bytes | some f ↦ lib.read_file f ]
    quoted ← put (b'"' ∷ []) out
    encoded ← put (lib.base64 bytes) quoted
    put (b'"' ∷ []) encoded

  -- `writeArchiveBody`.
  unfoldable pub write_archive_body : ArchiveBody → Write
  write_archive_body b = write_object (
      json_field (text "encoding") (lib.of_text (default_string b.encoding (text "base64")))
      ∷ json_field (text "size") (lib.of_int (pos b.size))
      ∷ json_field (text "sha256") (lib.of_text b.sha256)
      ∷ when (not (is_nil b.capture_error))
          (json_field (text "capture_error") (lib.of_text b.capture_error))
      ∷ raw_field (text "data_base64") (write_data b)
      ∷ [])

  no_body : ArchiveBody
  no_body = record {
    encoding = [];
    size = 0;
    sha256 = [];
    data_bytes = [];
    capture_error = [];
    file = none;
  }

  unfoldable pub body_or : Option ArchiveBody → ArchiveBody
  unfolding no_body
  body_or none = no_body
  body_or (some b) = b

  unfoldable pub headers_of : Option Header → Header
  headers_of none = []
  headers_of (some h) = h

  -- `writeArchiveResponse`.
  unfoldable pub write_archive_response : ArchiveResponse → Write
  unfolding body_or headers_of
  write_archive_response r = write_object (
      when (not (r.status == 0)) (json_field (text "status") (lib.of_int (pos r.status)))
      ∷ when (not (is_nil (headers_of r.headers)))
          (json_field (text "headers") (lib.of_header (headers_of r.headers)))
      ∷ raw_field (text "body") (write_archive_body (body_or r.body))
      ∷ [])

  -- `writeArchiveAttempt`.
  unfoldable pub write_archive_attempt : ArchiveAttempt → Write
  write_archive_attempt a = write_object (
      json_field (text "index") (lib.of_int (pos a.index))
      ∷ json_field (text "started_at") (lib.of_text (lib.print_time a.started))
      ∷ json_field (text "duration_ms") (lib.of_int (pos a.duration_ms))
      ∷ json_field (text "who") (lib.of_text a.who)
      ∷ json_field (text "model") (lib.of_text a.model)
      ∷ json_field (text "proxy_retry") (lib.of_int (pos a.proxy_retry))
      ∷ json_field (text "request_body_ref") (lib.of_text a.request_body_ref)
      ∷ json_field (text "request_body_size") (lib.of_int (pos a.request_body_size))
      ∷ json_field (text "request_body_sha256") (lib.of_text a.request_body_sha256)
      ∷ when_some a.request_body (λ b. raw_field (text "request_body") (write_archive_body b))
      ∷ when_some a.response (λ r. raw_field (text "response") (write_archive_response r))
      ∷ when_some a.failure (λ f. json_field (text "failure") (lib.of_failure f))
      ∷ when_some a.stats (λ s. json_field (text "stats") (lib.of_stats s))
      ∷ when_some a.model_swap (λ s. json_field (text "model_swap") (lib.of_swap s))
      ∷ when (not (is_nil a.result)) (json_field (text "result") (lib.of_text a.result))
      ∷ when (not (a.retry_wait_ms == 0))
          (json_field (text "retry_wait_ms") (lib.of_int (pos a.retry_wait_ms)))
      ∷ [])

  -- The attempts behind the first one, each with its comma.
  unfoldable pub write_more : List ArchiveAttempt → Write
  write_more [] out = some out
  write_more (a ∷ attempts) out = do
    sep ← put (text ",") out
    written ← write_archive_attempt a sep
    write_more attempts written

  unfoldable pub write_list : List ArchiveAttempt → Write
  unfolding write_more
  write_list [] out = some out
  write_list (a ∷ attempts) out = write_archive_attempt a out >>= write_more attempts

  -- `writeArchiveAttempts`.
  unfoldable pub write_archive_attempts : List ArchiveAttempt → Write
  write_archive_attempts attempts out = do
    opened ← put (text "[") out
    written ← write_list attempts opened
    put (text "]") written

  -- `writeArchiveClientRequest`.
  unfoldable pub write_archive_client_request : ArchiveClientRequest → Write
  write_archive_client_request cr = write_object (
      json_field (text "method") (lib.of_text cr.method)
      ∷ when (not (is_nil cr.request_uri))
          (json_field (text "request_uri") (lib.of_text cr.request_uri))
      ∷ json_field (text "path") (lib.of_text cr.path)
      ∷ when (not (is_nil cr.query)) (json_field (text "query") (lib.of_text cr.query))
      ∷ when (not (is_nil cr.host)) (json_field (text "host") (lib.of_text cr.host))
      ∷ when (not (is_nil cr.proto)) (json_field (text "proto") (lib.of_text cr.proto))
      ∷ json_field (text "content_length") (lib.of_int cr.content_length)
      ∷ when (not (is_nil cr.transfer_encoding))
          (json_field (text "transfer_encoding") (lib.of_texts cr.transfer_encoding))
      ∷ json_field (text "who") (lib.of_text cr.who)
      ∷ json_field (text "headers") (lib.of_header cr.headers)
      ∷ raw_field (text "body") (write_archive_body cr.body)
      ∷ json_field (text "body_reference") (lib.of_text cr.body_reference)
      ∷ [])

  -- `writeArchive`.
  unfoldable pub write_archive : RequestArchive → Write
  write_archive ar out = do
    written ←
        write_object
          (json_field (text "schema") (lib.of_text ar.schema)
            ∷ json_field (text "id") (lib.of_text ar.id)
            ∷ json_field (text "started_at") (lib.of_text (lib.print_time ar.started))
            ∷ json_field (text "finished_at") (lib.of_text (lib.print_time ar.finished))
            ∷ json_field (text "duration_ms") (lib.of_int (pos ar.duration_ms))
            ∷ json_field (text "proxy_version") (lib.of_version ar.proxy_version)
            ∷ when (not (is_nil ar.upstream_url))
                (json_field (text "upstream_url") (lib.of_text ar.upstream_url))
            ∷ raw_field (text "client_request") (write_archive_client_request ar.client_request)
            ∷ raw_field (text "attempts") (write_archive_attempts ar.attempts)
            ∷ json_field (text "outcome") (lib.of_outcome ar.outcome)
            ∷ json_field (text "redactions") (lib.of_redactions ar.header_names ar.query_params)
            ∷ [])
          out
    put (10 ∷ []) written
