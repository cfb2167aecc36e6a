-- ===== src/Archive/Report.antt =====
-- `archive` (requestlog.go): what is written of a request when it is done.
use steady_proxy.Base.{
  ℕ, ◌-◌, List, [], ◌∷◌, ◌++◌, Option, none, some, ℤ, Text, text, is_nil, if◌then◌else◌,
}
use mathlib.Core.Option
use steady_proxy.Failure.{Header}
use steady_proxy.Version.{VersionInfo}
use steady_proxy.AccessLog.{who_with_resolved_model, dash}
use steady_proxy.Archive.Redact.{
  UrlLib, mask_headers_with_names, redact_query_with_names, redacted_upstream_url,
}
use steady_proxy.Archive.Capture.{ArchiveBody, make_archive_body}
use steady_proxy.Archive.Attempt.{ArchiveStats, ArchiveModelSwap, ArchiveAttempt, stats_archive}
use steady_proxy.Archive.Recorder.{Recorder, attempts_of, client_ref, millis}

-- `archiveClientRequest`.
pub record ArchiveClientRequest : Type 0 where
  pub method : Text
  pub request_uri : Text
  pub path : Text
  pub query : Text
  pub host : Text
  pub proto : Text
  pub content_length : ℤ
  pub transfer_encoding : List Text
  pub who : Text
  pub headers : Header
  pub body : ArchiveBody
  pub body_reference : Text

-- `archiveOutcome`.
pub record ArchiveOutcome : Type 0 where
  pub result : Text
  pub who : Text
  pub orig_status : ℕ
  pub status : ℕ
  pub code : Text
  pub proxy_retries : ℕ
  pub model_swaps : List ArchiveModelSwap
  pub stats : Option ArchiveStats
  pub duration_ms : ℕ

-- `requestArchive`; the redactions are its last two fields.
pub record RequestArchive : Type 0 where
  pub schema : Text
  pub id : Text
  pub started : ℕ
  pub finished : ℕ
  pub duration_ms : ℕ
  pub proxy_version : VersionInfo
  pub upstream_url : Text
  pub client_request : ArchiveClientRequest
  pub attempts : List ArchiveAttempt
  pub outcome : ArchiveOutcome
  pub header_names : List Text
  pub query_params : List Text

-- `displayWho`.
unfoldable pub display_who : Recorder → Text
display_who rec =
    let w = if is_nil rec.outcome_who then rec.who else rec.outcome_who in
    elim rec.stats [ none ↦ w | some st ↦ who_with_resolved_model w st.model ]

swaps_of : List ArchiveAttempt → List ArchiveModelSwap
swaps_of [] = []
swaps_of (a ∷ more) =
    let rest = swaps_of more in elim a.model_swap [ none ↦ rest | some s ↦ s ∷ rest ]

-- `modelSwaps`.
unfoldable pub model_swaps : Recorder → List ArchiveModelSwap
unfolding swaps_of
model_swaps rec = swaps_of (attempts_of rec)

-- `archive`, at a time and with the setting of the upstream.
unfoldable pub archive : (Text → Text) → UrlLib → Text → VersionInfo → ℕ → Recorder → RequestArchive
unfolding millis
archive digest urls upstream version finished rec =
    let (headers, header_names) = mask_headers_with_names rec.req_headers in
    let (query, query_params) = redact_query_with_names urls rec.query in
    record {
      schema = text "steady-" ++ text "proxy.payload.v3";
      id = rec.id;
      started = rec.when_started;
      finished = finished;
      duration_ms = millis (finished - rec.when_started);
      proxy_version = version;
      upstream_url = redacted_upstream_url urls upstream rec.path rec.query;
      client_request = record {
        method = rec.method;
        request_uri = rec.request_uri;
        path = rec.path;
        query = query;
        host = rec.host;
        proto = rec.proto;
        content_length = rec.content_len;
        transfer_encoding = rec.transfer_enc;
        who = rec.who;
        headers = headers;
        body = make_archive_body digest rec.req_body;
        body_reference = client_ref;
      };
      attempts = attempts_of rec;
      outcome = record {
        result = dash rec.outcome;
        who = display_who rec;
        orig_status = rec.orig_status;
        status = rec.status;
        code = rec.code;
        proxy_retries = rec.proxy_retries;
        model_swaps = model_swaps rec;
        stats = Option.map stats_archive rec.stats;
        duration_ms = millis (finished - rec.when_started);
      };
      header_names = urls.sort_strings header_names;
      query_params = urls.sort_strings query_params;
    }
