-- ===== src/Archive/Writer/Success.antt =====
-- An archive is written wherever nothing outside fails.
use steady_proxy.Base.{
  Bool, true, false, not, List, [], ◌∷◌, ◌++◌, Option, none, some, ℤ, pos, Text, text, is_nil, ◌==◌,
  ◌≡◌, refl, Bool-cases, Option-cases, inl, inr,
}
use steady_proxy.Failure.{Header}
use steady_proxy.Version.{VersionInfo, default_string}
use steady_proxy.Archive.Capture.{ArchiveBody}
use steady_proxy.Archive.Attempt.{
  ArchiveResponse, ArchiveFailure, ArchiveStats, ArchiveModelSwap, ArchiveAttempt,
}
use steady_proxy.Archive.Report.{ArchiveClientRequest, ArchiveOutcome, RequestArchive}
use steady_proxy.Archive.Writer.{
  WriterLib, Write, ObjectWriter, Step, put, comma, raw_field, json_field, when, when_some,
  all_fields, write_object, write_data, write_archive_body, write_archive_response,
  write_archive_attempt, write_more, write_list, write_archive_attempts,
  write_archive_client_request, write_archive, body_or, headers_of,
}
use steady_proxy.Archive.Writer.Grammar.{IsJson, Marshals}
use steady_proxy.Archive.Writer.Document.{write_archive-IsJson}

-- Some value.
abbrev Gives : {A : Type 0} → Option A → Type 0
Gives {A} x = (b : A) × (x ≡ some b)

-- Nothing outside fails: the output takes every write, every value is marshalled, and every file of a
-- capture can be read.
pub record Works (lib : WriterLib) : Type 0 where
  pub accepts_all : (out p : Text) → lib.accepts out p ≡ true
  pub texts : (x : Text) → Gives (lib.of_text x)
  pub lists : (x : List Text) → Gives (lib.of_texts x)
  pub ints : (x : ℤ) → Gives (lib.of_int x)
  pub headers : (x : Header) → Gives (lib.of_header x)
  pub versions : (x : VersionInfo) → Gives (lib.of_version x)
  pub outcomes : (x : ArchiveOutcome) → Gives (lib.of_outcome x)
  pub redactions : (x y : List Text) → Gives (lib.of_redactions x y)
  pub failures : (x : ArchiveFailure) → Gives (lib.of_failure x)
  pub stats : (x : ArchiveStats) → Gives (lib.of_stats x)
  pub swaps : (x : ArchiveModelSwap) → Gives (lib.of_swap x)
  pub files : (f : Text) → Gives (lib.read_file f)

module _ (lib : WriterLib) (ok : Works lib) where
  -- A write, and a step, that give a result from any state.
  abbrev Writes : Write → Type 0
  Writes w = (out : Text) → Gives (w out)

  abbrev Steps : Step → Type 0
  Steps s = (o : ObjectWriter) → Gives (s o)

  put-Writes : (p : Text) → Writes (put lib p)
  unfolding put
  put-Writes p out = (out ++ p, rw (ok.accepts_all out p) refl)

  comma-Gives : (o : ObjectWriter) → Gives (comma lib o)
  unfolding comma
  comma-Gives o = elim (Bool-cases o.first) [
    | inl y ↦ (o.out, rw y refl)
    | inr n ↦ let (out, e) = put-Writes (text ",") o.out in (out, rw (n, e) refl)
  ]

  raw_field-Steps : (name : Text) (w : Write) → Writes w → Steps (raw_field lib name w)
  unfolding raw_field
  raw_field-Steps name w g o =
      let (out, e1) = comma-Gives o in
      let (name_json, e2) = ok.texts name in
      let (named, e3) = put-Writes name_json out in
      let (colon, e4) = put-Writes (text ":") named in
      let (done, e5) = g colon in
      (record { first = false; out = done }, rw (e1, e2, e3, e4, e5) refl)

  json_field-Steps : (name : Text) (v : Option Text) → Gives v → Steps (json_field lib name v)
  unfolding json_field
  json_field-Steps name v (b, e) o =
      let (next, f) = raw_field-Steps name (put lib b) (put-Writes b) o in (next, rw (e, f) refl)

  when-Steps : (b : Bool) (s : Step) → Steps s → Steps (when b s)
  unfolding when
  when-Steps true s g o = g o
  when-Steps false s g o = (o, refl)

  when_some-Steps :
      {A : Type 0} (a : Option A) (s : A → Step) → ((x : A) → Steps (s x)) → Steps (when_some a s)
  unfolding when_some
  when_some-Steps none s g o = (o, refl)
  when_some-Steps (some a) s g o = g a o

  infixr 5 ◌⨟◌
  data AllStep : List Step → Type 0 where
    no_more : AllStep []
    ◌⨟◌ : {s : Step} {ss : List Step} → Steps s → AllStep ss → AllStep (s ∷ ss)

  all_fields-Steps : (ss : List Step) → AllStep ss → Steps (all_fields ss)
  unfolding all_fields
  all_fields-Steps [] no_more o = (o, refl)
  all_fields-Steps (s ∷ ss) (g ⨟ gs) o =
      let (next, e) = g o in let (done, f) = all_fields-Steps ss gs next in (done, rw (e, f) refl)

  write_object-Writes : (ss : List Step) → AllStep ss → Writes (write_object lib ss)
  unfolding write_object
  write_object-Writes ss gs out =
      let (opened, e1) = put-Writes (text "{") out in
      let (o, e2) = all_fields-Steps ss gs (record { first = true; out = opened }) in
      let (next, e3) = put-Writes (text "}") o.out in (next, rw (e1, e2, e3) refl)

  -- The bytes of a body.
  data_bytes-Gives :
      (b : ArchiveBody)
      → Gives (elim b.file [ none ↦ some b.data_bytes | some f ↦ lib.read_file f ])
  data_bytes-Gives b = elim (Option-cases b.file) [
    | inl e ↦ (b.data_bytes, rw e refl)
    | inr (f, e) ↦ let (bytes, h) = ok.files f in (bytes, rw e h)
  ]

  write_data-Writes : (b : ArchiveBody) → Writes (write_data lib b)
  unfolding write_data
  write_data-Writes b out =
      let (bytes, e1) = data_bytes-Gives b in
      let (quoted, e2) = put-Writes (b'"' ∷ []) out in
      let (encoded, e3) = put-Writes (lib.base64 bytes) quoted in
      let (next, e4) = put-Writes (b'"' ∷ []) encoded in (next, rw (e1, e2, e3, e4) refl)

  text_field : (name x : Text) → Steps (json_field lib name (lib.of_text x))
  text_field name x = json_field-Steps name (lib.of_text x) (ok.texts x)

  int_field : (name : Text) (x : ℤ) → Steps (json_field lib name (lib.of_int x))
  int_field name x = json_field-Steps name (lib.of_int x) (ok.ints x)

  text_if : (b : Bool) (name x : Text) → Steps (when b (json_field lib name (lib.of_text x)))
  text_if b name x = when-Steps b _ (text_field name x)

  write_archive_body-Writes : (b : ArchiveBody) → Writes (write_archive_body lib b)
  unfolding write_archive_body
  write_archive_body-Writes b = write_object-Writes _ (
      text_field (text "encoding") (default_string b.encoding (text "base64"))
      ⨟ int_field (text "size") (pos b.size)
      ⨟ text_field (text "sha256") b.sha256
      ⨟ text_if (not (is_nil b.capture_error)) (text "capture_error") b.capture_error
      ⨟ raw_field-Steps (text "data_base64") (write_data lib b) (write_data-Writes b)
      ⨟ no_more)

  write_archive_response-Writes : (r : ArchiveResponse) → Writes (write_archive_response lib r)
  unfolding write_archive_response
  write_archive_response-Writes r = write_object-Writes _ (
      when-Steps (not (r.status == 0)) _ (int_field (text "status") (pos r.status))
      ⨟ when-Steps (not (is_nil (headers_of lib r.headers))) _
          (json_field-Steps (text "headers") _ (ok.headers (headers_of lib r.headers)))
      ⨟ raw_field-Steps (text "body") (write_archive_body lib (body_or lib r.body))
          (write_archive_body-Writes (body_or lib r.body))
      ⨟ no_more)

  write_archive_attempt-Writes : (a : ArchiveAttempt) → Writes (write_archive_attempt lib a)
  unfolding write_archive_attempt
  write_archive_attempt-Writes a = write_object-Writes _ (
      int_field (text "index") (pos a.index)
      ⨟ text_field (text "started_at") (lib.print_time a.started)
      ⨟ int_field (text "duration_ms") (pos a.duration_ms)
      ⨟ text_field (text "who") a.who
      ⨟ text_field (text "model") a.model
      ⨟ int_field (text "proxy_retry") (pos a.proxy_retry)
      ⨟ text_field (text "request_body_ref") a.request_body_ref
      ⨟ int_field (text "request_body_size") (pos a.request_body_size)
      ⨟ text_field (text "request_body_sha256") a.request_body_sha256
      ⨟ when_some-Steps a.request_body _ (λ x.
        raw_field-Steps (text "request_body") (write_archive_body lib x)
          (write_archive_body-Writes x))
      ⨟ when_some-Steps a.response _ (λ x.
        raw_field-Steps (text "response") (write_archive_response lib x)
          (write_archive_response-Writes x))
      ⨟ when_some-Steps a.failure _ (λ x. json_field-Steps (text "failure") _ (ok.failures x))
      ⨟ when_some-Steps a.stats _ (λ x. json_field-Steps (text "stats") _ (ok.stats x))
      ⨟ when_some-Steps a.model_swap _ (λ x. json_field-Steps (text "model_swap") _ (ok.swaps x))
      ⨟ text_if (not (is_nil a.result)) (text "result") a.result
      ⨟ when-Steps (not (a.retry_wait_ms == 0)) _
          (int_field (text "retry_wait_ms") (pos a.retry_wait_ms))
      ⨟ no_more)

  write_more-Writes : (attempts : List ArchiveAttempt) → Writes (write_more lib attempts)
  unfolding write_more
  write_more-Writes [] out = (out, refl)
  write_more-Writes (a ∷ attempts) out =
      let (sep, e1) = put-Writes (text ",") out in
      let (written, e2) = write_archive_attempt-Writes a sep in
      let (next, e3) = write_more-Writes attempts written in (next, rw (e1, e2, e3) refl)

  write_list-Writes : (attempts : List ArchiveAttempt) → Writes (write_list lib attempts)
  unfolding write_list
  write_list-Writes [] out = (out, refl)
  write_list-Writes (a ∷ attempts) out =
      let (written, e1) = write_archive_attempt-Writes a out in
      let (next, e2) = write_more-Writes attempts written in (next, rw (e1, e2) refl)

  write_archive_attempts-Writes :
      (attempts : List ArchiveAttempt) → Writes (write_archive_attempts lib attempts)
  unfolding write_archive_attempts
  write_archive_attempts-Writes attempts out =
      let (opened, e1) = put-Writes (text "[") out in
      let (written, e2) = write_list-Writes attempts opened in
      let (next, e3) = put-Writes (text "]") written in (next, rw (e1, e2, e3) refl)

  write_archive_client_request-Writes :
      (cr : ArchiveClientRequest) → Writes (write_archive_client_request lib cr)
  unfolding write_archive_client_request
  write_archive_client_request-Writes cr = write_object-Writes _ (
      text_field (text "method") cr.method
      ⨟ text_if (not (is_nil cr.request_uri)) (text "request_uri") cr.request_uri
      ⨟ text_field (text "path") cr.path
      ⨟ text_if (not (is_nil cr.query)) (text "query") cr.query
      ⨟ text_if (not (is_nil cr.host)) (text "host") cr.host
      ⨟ text_if (not (is_nil cr.proto)) (text "proto") cr.proto
      ⨟ int_field (text "content_length") cr.content_length
      ⨟ when-Steps (not (is_nil cr.transfer_encoding)) _
          (json_field-Steps (text "transfer_encoding") _ (ok.lists cr.transfer_encoding))
      ⨟ text_field (text "who") cr.who
      ⨟ json_field-Steps (text "headers") _ (ok.headers cr.headers)
      ⨟ raw_field-Steps (text "body") (write_archive_body lib cr.body)
          (write_archive_body-Writes cr.body)
      ⨟ text_field (text "body_reference") cr.body_reference
      ⨟ no_more)

  write_archive-Writes : (ar : RequestArchive) → Writes (write_archive lib ar)
  unfolding write_archive
  write_archive-Writes ar out =
      let (written, e1) =
        write_object-Writes _
          (text_field (text "schema") ar.schema
            ⨟ text_field (text "id") ar.id
            ⨟ text_field (text "started_at") (lib.print_time ar.started)
            ⨟ text_field (text "finished_at") (lib.print_time ar.finished)
            ⨟ int_field (text "duration_ms") (pos ar.duration_ms)
            ⨟ json_field-Steps (text "proxy_version") _ (ok.versions ar.proxy_version)
            ⨟ text_if (not (is_nil ar.upstream_url)) (text "upstream_url") ar.upstream_url
            ⨟ raw_field-Steps (text "client_request")
                (write_archive_client_request lib ar.client_request)
                (write_archive_client_request-Writes ar.client_request)
            ⨟ raw_field-Steps (text "attempts") (write_archive_attempts lib ar.attempts)
                (write_archive_attempts-Writes ar.attempts)
            ⨟ json_field-Steps (text "outcome") _ (ok.outcomes ar.outcome)
            ⨟ json_field-Steps (text "redactions") _ (ok.redactions ar.header_names ar.query_params)
            ⨟ no_more)
          out in
      let (next, e2) = put-Writes (10 ∷ []) written in (next, rw (e1, e2) refl)

  -- Whatever parts an archive lacks: where nothing outside fails, it is written, as one JSON document
  -- and a line end, if `json.Marshal` yields JSON and base64 needs no escapes.
  pub write_archive_total :
      (IsLeaf : Text → Type 0)
      → Marshals lib IsLeaf
      → (ar : RequestArchive)
      → (next v : Text) × (write_archive lib ar [] ≡ some next)
        × (next ≡ v ++ 10 ∷ [])
        × IsJson IsLeaf v
  write_archive_total IsLeaf marshals ar =
      let (next, e) = write_archive-Writes ar [] in
      let (v, f, j) = write_archive-IsJson lib IsLeaf marshals ar next e in (next, v, e, f, j)
