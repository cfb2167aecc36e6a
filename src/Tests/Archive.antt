-- ===== src/Tests/Archive.antt =====
-- The archive on small inputs.
use steady_proxy.Base.{
  true, false, [], ◌∷◌, ◌++◌, map, none, some, pos, Text, text, str_eq, to_lower, trim_space,
  cut_prefix, cut, length, inl, inr, ◌≡◌, refl, arith, ◌⊎◌, ◌≤◌, List,
}
use steady_proxy.Config.{Config}
use steady_proxy.Headers.{member, split_at}
use steady_proxy.Version.{VersionInfo}
use steady_proxy.AccessLog.{BodyLib, who_with_resolved_model, cut_last}
use steady_proxy.Archive.Capture.{
  TempFiles, ArchiveBody, new_body_capture, request_archive_memory_limit, archive_body, stored,
}
use steady_proxy.Archive.Capture.Stored.{write_pieces, write_pieces-stored}
use steady_proxy.Archive.Redact.{
  UrlLib, is_secret_header, mask_header, name_part, is_secret_name, redact_query_with_names,
  redact_parts, join, redacted_part,
}
use steady_proxy.Archive.Attempt.{Incoming, ArchiveAttempt}
use steady_proxy.Archive.Recorder.{new_req_recorder}
use steady_proxy.Archive.Report.{RequestArchive, archive}
use steady_proxy.Archive.Recorder.Actions.{Action, began, wrote, result, run}
use steady_proxy.Archive.Recorder.Bodies.{restored, run-restored}
use steady_proxy.Archive.Recorder.Secrets.{RequestsAlike, archive-hides}
use steady_proxy.Archive.Writer.{
  WriterLib, write_archive, write_object, put, all_fields, json_field, raw_field, comma, when,
  write_archive_body, write_data,
}
use steady_proxy.Archive.Writer.Grammar.{IsJson, Marshals}
use steady_proxy.Archive.Writer.Success.{Works, write_archive_total}

-- Texts are names as they stand.
abbrev urls : UrlLib
urls = record {
  query_unescape = λ s. some s;
  parse_url = λ s. none;
  escaped_path = λ s. s;
  sort_strings = λ ss. ss;
}

abbrev no_model : BodyLib
no_model = record {
  body_model = λ b. [];
  reasoning_effort = λ b. [];
  output_effort = λ b. [];
  body_stream = λ b. false;
  body_system = λ b. none;
}

abbrev small : Config
small = record {
  max_buffer_mem = 4;
  max_response_bytes = 1000;
  validate_json = true;
  normalize_tool_json = true;
  sdk_retry_cap = 2;
  tx_local_retries = 2;
  local_backoff_cap = 0;
  claude_refusal_fallbacks = [];
  responses_early_commit = false;
  keepalive = 0;
  wf_keepalive = 0;
  responses_keepalive = 0;
  responses_buffer = 0;
  gemini_buffer = 0;
}

abbrev sound_disk : TempFiles
sound_disk = record { create_error = λ m. none; write_error = λ f p. none }

-- A digest that tells all of a body.
abbrev whole : Text → Text
whole p = p

abbrev unversioned : VersionInfo
unversioned = record {
  program = [];
  version = [];
  commit = [];
  build_date = [];
  dirty = false;
  dirty_known = false;
}

abbrev query_of : Text → Text
query_of secret = text "beta=1&key=" ++ secret

abbrev request : Text → Text → Incoming
request secret bearer = record {
  method = text "POST";
  request_uri = text "/v1/messages?" ++ query_of secret;
  path = text "/v1/messages";
  raw_query = query_of secret;
  host = text "h";
  proto = text "HTTP/1.1";
  content_length = pos 2;
  transfer_encoding = [];
  header = (text "Accept", text "a" ∷ []) ∷ (text "Authorization", bearer ∷ []) ∷ [];
  body = text "{}";
}

abbrev mine : Incoming
mine = request (text "abc") (text "Bearer aaa1234")

abbrev yours : Incoming
yours = request (text "xyz-0") (text "Bearer bbb1234")

redacted_key :
    redact_query_with_names urls mine.raw_query ≡ (text "beta=1&key=REDACTED", text "key" ∷ [])
unfolding redact_query_with_names redact_parts redacted_part join name_part is_secret_name member
    split_at str_eq to_lower cut
redacted_key = refl

masked_bearer :
    mask_header (text "Authorization") (text "Bearer aaa1234") ≡ text "***redacted (...1234)***"
unfolding mask_header is_secret_header member str_eq to_lower
masked_bearer = refl

requests_alike : RequestsAlike urls mine yours
unfolding split_at name_part is_secret_name is_secret_header member str_eq to_lower cut
requests_alike = record {
  same_method = refl;
  same_path = refl;
  same_host = refl;
  same_proto = refl;
  same_length = refl;
  same_encoding = refl;
  same_body = refl;
  alike_headers = (refl, inl refl, (refl, inr (refl, (refl, tt)), tt));
  alike_query = record {
    both_empty = refl;
    parts = (inl refl, (inr (refl, (text "key", refl, refl)), tt));
  };
  alike_uri = inr (inr (text "/v1/messages", refl, refl, refl));
}

abbrev calls : List Action
calls =
    began 1 (text "{}") (text "w") 0
    ∷ wrote (text "no")
    ∷ began 2 (text "{2}") (text "w") 1
    ∷ result (text "ok")
    ∷ began 3 (text "{2}") (text "w") 2
    ∷ []

abbrev archived : Incoming → RequestArchive
archived r = archive whole urls [] unversioned 9 (
    run small sound_disk whole no_model calls
      (new_req_recorder whole no_model urls (text "id") 0 r))

archive-hides_example : archived mine ≡ archived yours
archive-hides_example =
    archive-hides small sound_disk whole no_model urls [] unversioned (text "id") 0 9 calls mine
      yours requests_alike

run-restored_example :
    restored small sound_disk whole no_model (
      run small sound_disk whole no_model calls
        (new_req_recorder whole no_model urls (text "id") 0 mine))
    ≡ map some (text "{}" ∷ text "{2}" ∷ text "{2}" ∷ [])
run-restored_example =
    run-restored small sound_disk whole no_model urls (text "id") 0 mine calls (λ a b p q e. e)
      (omega arith)

abbrev pieces : List Text
pieces = text "abc" ∷ text "def" ∷ []

write_pieces-stored_example :
    ((archive_body whole (write_pieces small sound_disk pieces new_body_capture)).size ≡ 6)
    × ((archive_body whole (write_pieces small sound_disk pieces new_body_capture)).sha256
        ≡ text "abcdef")
    × (length (write_pieces small sound_disk pieces new_body_capture).mem
        ≤ request_archive_memory_limit small)
    × ((stored (archive_body whole (write_pieces small sound_disk pieces new_body_capture))
          ≡ text "abcdef")
        ⊎ ((msg : Text) × ((write_pieces small sound_disk pieces new_body_capture).error
              ≡ some msg)))
write_pieces-stored_example = write_pieces-stored small sound_disk whole pieces

resolved_label : who_with_resolved_model (text "a~>b/main") (text "b") ≡ text "a~>b/main"
unfolding who_with_resolved_model cut_last str_eq trim_space cut_prefix
resolved_label = refl

-- Every value is written as 0.
abbrev zeros : WriterLib
zeros = record {
  accepts = λ out p. true;
  of_text = λ x. some (text "0");
  of_texts = λ x. some (text "0");
  of_int = λ x. some (text "0");
  of_header = λ x. some (text "0");
  of_version = λ x. some (text "0");
  of_outcome = λ x. some (text "0");
  of_redactions = λ x y. some (text "0");
  of_failure = λ x. some (text "0");
  of_stats = λ x. some (text "0");
  of_swap = λ x. some (text "0");
  base64 = λ x. [];
  read_file = λ f. some f;
  print_time = λ t. [];
}

-- The texts of the values: the numeral 0 and the empty string.
abbrev IsZero : Text → Type 0
IsZero v = (v ≡ text "0") ⊎ (v ≡ b'"' ∷ b'"' ∷ [])

some-IsZero : (b : Text) → some (text "0") ≡ some b → IsZero b
some-IsZero b e = inl (ground (arith, e))

zeros-Marshals : Marshals zeros IsZero
zeros-Marshals = record {
  texts_json = λ x b e. some-IsZero b e;
  lists_json = λ x b e. some-IsZero b e;
  ints_json = λ x b e. some-IsZero b e;
  headers_json = λ x b e. some-IsZero b e;
  version_json = λ x b e. some-IsZero b e;
  outcome_json = λ x b e. some-IsZero b e;
  redactions_json = λ x y b e. some-IsZero b e;
  failure_json = λ x b e. some-IsZero b e;
  stats_json = λ x b e. some-IsZero b e;
  swap_json = λ x b e. some-IsZero b e;
  base64_json = λ x. inr refl;
}

abbrev one_body : ArchiveBody
one_body = record {
  encoding = text "base64";
  size = 2;
  sha256 = [];
  data_bytes = text "{}";
  capture_error = [];
  file = none;
}

abbrev one_attempt : ArchiveAttempt
one_attempt = record {
  index = 1;
  started = 0;
  duration_ms = 0;
  who = [];
  model = [];
  proxy_retry = 0;
  request_body_ref = text "client_request.body";
  request_body_size = 2;
  request_body_sha256 = [];
  request_body = none;
  response = some (record { status = 200; headers = none; body = none });
  failure = none;
  stats = none;
  model_swap = none;
  result = text "ok";
  retry_wait_ms = 0;
  response_capture = none;
}

abbrev small_archive : RequestArchive
small_archive = record {
  schema = [];
  id = [];
  started = 0;
  finished = 1;
  duration_ms = 0;
  proxy_version = unversioned;
  upstream_url = [];
  client_request = record {
    method = text "POST";
    request_uri = [];
    path = text "/";
    query = [];
    host = [];
    proto = [];
    content_length = pos 2;
    transfer_encoding = [];
    who = [];
    headers = [];
    body = one_body;
    body_reference = text "client_request.body";
  };
  attempts = one_attempt ∷ one_attempt ∷ [];
  outcome = record {
    result = text "-";
    who = [];
    orig_status = 200;
    status = 200;
    code = [];
    proxy_retries = 0;
    model_swaps = [];
    stats = none;
    duration_ms = 0;
  };
  header_names = [];
  query_params = [];
}

zeros-Works : Works zeros
zeros-Works = record {
  accepts_all = λ out p. refl;
  texts = λ x. (text "0", refl);
  lists = λ x. (text "0", refl);
  ints = λ x. (text "0", refl);
  headers = λ x. (text "0", refl);
  versions = λ x. (text "0", refl);
  outcomes = λ x. (text "0", refl);
  redactions = λ x y. (text "0", refl);
  failures = λ x. (text "0", refl);
  stats = λ x. (text "0", refl);
  swaps = λ x. (text "0", refl);
  files = λ f. (f, refl);
}

write_archive_total_example :
    (next v : Text) × (write_archive zeros small_archive [] ≡ some next)
    × (next ≡ v ++ 10 ∷ [])
    × IsJson IsZero v
write_archive_total_example =
    write_archive_total zeros zeros-Works IsZero zeros-Marshals small_archive

abbrev body_document : Text
body_document = text "{0:0,0:0,0:0,0:" ++ (b'"' ∷ b'"' ∷ text "}")

body_written : write_archive_body zeros one_body [] ≡ some body_document
unfolding write_object put all_fields json_field raw_field comma when write_archive_body write_data
body_written = refl
