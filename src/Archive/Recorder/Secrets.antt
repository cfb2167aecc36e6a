-- ===== src/Archive/Recorder/Secrets.antt =====
-- What an archive tells of the secrets of a request: their hints.
use steady_proxy.Base.{
  ℕ, false, List, [], ◌∷◌, Option, none, some, Text, text, str_eq, to_lower, str_eq_iff, ◌≡◌, refl,
  arith, sym, ap, ◌∙◌, inl, inr, Option-cases,
}
use steady_proxy.Config.{Config}
use steady_proxy.Headers.{member}
use steady_proxy.Failure.{Header, get}
use steady_proxy.Version.{VersionInfo}
use steady_proxy.Sse.Wire.{CaptureStats, ReadError}
use steady_proxy.AccessLog.{BodyLib, agent_kind, agent_kind_full, who}
use steady_proxy.Archive.Capture.{TempFiles}
use steady_proxy.Archive.Redact.{UrlLib, is_secret_header}
use steady_proxy.Archive.Redact.Secrecy.{
  HeadersAlike, mask_headers-Alike, QueryAlike, redact_query_with_names-Alike, UrisAlike,
  redacted_request_uri-Alike, redacted_upstream_url-Alike,
}
use steady_proxy.Archive.Attempt.{Incoming, stats_archive}
use steady_proxy.Archive.Recorder.{
  Recorder, attempts_of, begin_attempt, finish_current_attempt, new_req_recorder,
  note_attempt_response_headers, write_response, note_response_read_error, note_attempt_failure,
  note_attempt_result, note_attempt_retry, note_attempt_stats, note_delivered_answer,
  note_proxy_retries, note_model_swap, note,
}
use steady_proxy.Archive.Report.{archive, model_swaps, display_who}
use steady_proxy.Archive.Recorder.Actions.{Action, step, run}

-- Requests that differ in the values of secret headers, of which they share the hints, and in the
-- values of secret parameters of the query.
pub record RequestsAlike (urls : UrlLib) (r other : Incoming) : Type 0 where
  pub same_method : r.method ≡ other.method
  pub same_path : r.path ≡ other.path
  pub same_host : r.host ≡ other.host
  pub same_proto : r.proto ≡ other.proto
  pub same_length : r.content_length ≡ other.content_length
  pub same_encoding : r.transfer_encoding ≡ other.transfer_encoding
  pub same_body : r.body ≡ other.body
  pub alike_headers : HeadersAlike r.header other.header
  pub alike_query : QueryAlike urls r.raw_query other.raw_query
  pub alike_uri : UrisAlike urls r.request_uri other.request_uri r.raw_query other.raw_query

get-Alike :
    (h g : Header) (k : Text) → is_secret_header k ≡ false → HeadersAlike h g → get h k ≡ get g k
unfolding get
get-Alike [] [] k s a = refl
get-Alike ((j, vs) ∷ h) ((i, ws) ∷ g) k s a = elim a.1 [
  | inl e ↦ ground (arith, a.0, e, get-Alike h g k s a.2)
  | inr (t, alike) ↦ ground (arith, s, t, a.0, str_eq_iff j k, get-Alike h g k s a.2)
]
get-Alike [] ((i, ws) ∷ g) k s a = absurd a
get-Alike ((j, vs) ∷ h) [] k s a = absurd a

agent_kind-Alike : (h g : Header) → HeadersAlike h g → agent_kind h ≡ agent_kind g
unfolding agent_kind is_secret_header member str_eq to_lower
agent_kind-Alike h g a = rw (
  get-Alike h g (text "X-Claude-Code-Parent-Agent-Id") refl a,
  get-Alike h g (text "User-Agent") refl a,
)

-- The parts of a recorder that hold secrets.
abbrev with_secrets : Text → Header → Recorder → Recorder
with_secrets q h rec = record rec { query = q; req_headers = h }

module _ (cfg : Config) (files : TempFiles) (digest : Text → Text) (lib : BodyLib) where
  who-Alike :
      (path body : Text) (h g : Header)
      → HeadersAlike h g
      → who lib path h body ≡ who lib path g body
  unfolding who agent_kind_full
  who-Alike path body h g a = rw (agent_kind-Alike h g a)

  read_error-with_secrets :
      (e : Option ReadError) (q : Text) (h : Header) (rec : Recorder)
      → note_response_read_error e (with_secrets q h rec)
        ≡ with_secrets q h (note_response_read_error e rec)
  unfolding note_response_read_error
  read_error-with_secrets none q h rec = refl
  read_error-with_secrets (some e) q h rec = refl

  stats-with_secrets :
      (st : CaptureStats) (q : Text) (h : Header) (rec : Recorder)
      → note_attempt_stats st (with_secrets q h rec) ≡ with_secrets q h (note_attempt_stats st rec)
  unfolding note_attempt_stats
  stats-with_secrets st q h rec = elim (Option-cases rec.cur) [
    | inl e ↦ ground (arith, e)
    | inr (a, e) ↦ ground (
      arith,
      e,
      read_error-with_secrets st.read_err q h (record rec {
        cur = some (record a { stats = some (stats_archive st) });
        stats = some st;
      }),
    )
  ]

  step-with_secrets :
      (a : Action) (q : Text) (h : Header) (rec : Recorder)
      → step cfg files digest lib a (with_secrets q h rec)
        ≡ with_secrets q h (step cfg files digest lib a rec)
  unfolding step begin_attempt finish_current_attempt note_attempt_response_headers write_response
      note_attempt_failure note_attempt_result note_attempt_retry note_delivered_answer
      note_proxy_retries note_model_swap note attempts_of
  step-with_secrets (Action.stats st) q h rec = stats-with_secrets st q h rec
  step-with_secrets (Action.read_error e) q h rec = read_error-with_secrets e q h rec
  step-with_secrets _ q h rec = refl

  run-with_secrets :
      (acts : List Action) (q : Text) (h : Header) (rec : Recorder)
      → run cfg files digest lib acts (with_secrets q h rec)
        ≡ with_secrets q h (run cfg files digest lib acts rec)
  unfolding run
  run-with_secrets [] q h rec = refl
  run-with_secrets (a ∷ acts) q h rec =
      ap (run cfg files digest lib acts) (step-with_secrets a q h rec)
      ∙ run-with_secrets acts q h (step cfg files digest lib a rec)

  archive-with_secrets :
      (urls : UrlLib) (upstream : Text) (version : VersionInfo) (now : ℕ) (q p : Text)
      (h g : Header) (rec : Recorder)
      → HeadersAlike h g
      → QueryAlike urls q p
      → archive digest urls upstream version now (with_secrets q h rec)
        ≡ archive digest urls upstream version now (with_secrets p g rec)
  unfolding archive attempts_of model_swaps display_who
  archive-with_secrets urls upstream version now q p h g rec a b =
      rw
        (
          mask_headers-Alike h g a,
          redact_query_with_names-Alike urls q p b,
          redacted_upstream_url-Alike urls upstream rec.path q p b,
        )
        refl

  new_req_recorder-with_secrets :
      (urls : UrlLib) (id : Text) (start : ℕ) (r other : Incoming)
      → RequestsAlike urls r other
      → new_req_recorder digest lib urls id start r
        ≡ with_secrets r.raw_query r.header (new_req_recorder digest lib urls id start other)
  unfolding new_req_recorder
  new_req_recorder-with_secrets urls id start r other v = ground (
    arith,
    v.same_method,
    v.same_path,
    v.same_host,
    v.same_proto,
    v.same_length,
    v.same_encoding,
    v.same_body,
    redacted_request_uri-Alike urls r.path r.request_uri other.request_uri r.raw_query
        other.raw_query v.alike_query v.alike_uri,
    who-Alike r.path r.body r.header other.header v.alike_headers,
  )

  -- Whatever happens to a request and its attempts: the archive is the same for a request that
  -- differs in the values of the API secrets in its query, and in those of its headers of which the
  -- hints agree (the last four characters, for a value of at least eight).
  pub archive-hides :
      (urls : UrlLib) (upstream : Text) (version : VersionInfo) (id : Text) (start now : ℕ)
      → (acts : List Action) (r other : Incoming) → RequestsAlike urls r other
      → archive digest urls upstream version now
          (run cfg files digest lib acts (new_req_recorder digest lib urls id start r))
        ≡ archive digest urls upstream version now
            (run cfg files digest lib acts (new_req_recorder digest lib urls id start other))
  archive-hides urls upstream version id start now acts r other v =
      let base = new_req_recorder digest lib urls id start other in
      ap
        (λ (rec : Recorder).
          archive digest urls upstream version now (run cfg files digest lib acts rec))
        (new_req_recorder-with_secrets urls id start r other v)
      ∙ (ap (archive digest urls upstream version now)
            (run-with_secrets acts r.raw_query r.header base)
          ∙ (archive-with_secrets urls upstream version now r.raw_query other.raw_query r.header
                other.header (run cfg files digest lib acts base) v.alike_headers v.alike_query
              ∙ ap (archive digest urls upstream version now) (
                  sym (run-with_secrets acts other.raw_query other.header base)
                  ∙ ap (run cfg files digest lib acts) (unfold new_req_recorder in refl))))
