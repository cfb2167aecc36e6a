-- ===== src/Archive/Writer/Document.antt =====
-- An archive is one JSON document.
use steady_proxy.Base.{
  Bool, true, false, not, List, [], ◌∷◌, ◌++◌, Option, none, some, ℤ, pos, Text, text, is_nil, ◌==◌,
  >>=-some, some_inj, ◌≡◌, refl, arith, sym, ap, ◌∙◌, subst, Bool-cases, inl, inr, if◌then◌else◌,
}
use mathlib.Core.List.{append_assoc, append-nil}
use steady_proxy.Version.{default_string}
use steady_proxy.Archive.Capture.{ArchiveBody}
use steady_proxy.Archive.Attempt.{ArchiveResponse, ArchiveAttempt}
use steady_proxy.Archive.Report.{ArchiveClientRequest, RequestArchive}
use steady_proxy.Archive.Writer.{
  WriterLib, Write, ObjectWriter, Step, put, comma, raw_field, json_field, when, when_some,
  all_fields, write_object, write_data, write_archive_body, write_archive_response,
  write_archive_attempt, write_more, write_list, write_archive_attempts,
  write_archive_client_request, write_archive, body_or, headers_of,
}
use steady_proxy.Archive.Writer.Grammar.{
  IsJson, leaf, object, array, IsMembers, no_members, member, members, IsElements, no_elements,
  element, elements, Marshals,
}

module _ (lib : WriterLib) (IsLeaf : Text → Type 0) (ok : Marshals lib IsLeaf) where
  -- What a write adds, where it does not fail.
  abbrev Writes : (Text → Type 0) → Write → Type 0
  Writes P w = (out next : Text) → w out ≡ some next → (v : Text) × (next ≡ out ++ v) × P v

  -- A step on an object adds members.
  abbrev Grows : Step → Type 0
  Grows s =
      (base m : Text) (o next : ObjectWriter)
      → o.out ≡ base ++ m
      → IsMembers IsLeaf o.first m
      → s o ≡ some next
      → (m' : Text) × (next.out ≡ base ++ m') × IsMembers IsLeaf next.first m'

  put_lem : (p out next : Text) → put lib p out ≡ some next → next ≡ out ++ p
  unfolding put
  put_lem p out next h = elim (Bool-cases (lib.accepts out p)) [
    | inl y ↦ ground (arith, y, h)
    | inr n ↦ absurd (ground (arith, n, h))
  ]

  comma_lem :
      (o : ObjectWriter) (out : Text)
      → comma lib o ≡ some out
      → out ≡ o.out ++ (if o.first then [] else text ",")
  unfolding comma
  comma_lem o out h = elim (Bool-cases o.first) [
    | inl y ↦ ground (arith, y, h, append-nil o.out)
    | inr n ↦ ground (arith, n, h, put_lem (text ",") o.out out)
  ]

  more-IsMembers :
      (first : Bool) (m n v : Text)
      → IsMembers IsLeaf first m
      → IsLeaf n
      → IsJson IsLeaf v
      → IsMembers IsLeaf false (m ++ ((if first then [] else text ",") ++ (n ++ (text ":" ++ v))))
  more-IsMembers _ _ n v no_members l j = member l j
  more-IsMembers _ _ n v (member a b) l j = members (member a b) l j
  more-IsMembers _ _ n v (members a b c) l j = members (members a b c) l j

  raw_field-Grows :
      (name : Text) (w : Write) → Writes (IsJson IsLeaf) w → Grows (raw_field lib name w)
  unfolding raw_field
  raw_field-Grows name w v base m o next e mem h =
      let (out, c, h1) = >>=-some (comma lib o) _ h in
      let (nj, n, h2) = >>=-some (lib.of_text name) _ h1 in
      let (named, p, h3) = >>=-some (put lib nj out) _ h2 in
      let (colon, q, h4) = >>=-some (put lib (text ":") named) _ h3 in
      let (done, r, h5) = >>=-some (w colon) _ h4 in
      let (val, f, j) = v colon done r in
      let sep : Text = if o.first then [] else text "," in
      let at_end : done ≡ base ++ (m ++ (sep ++ (nj ++ (text ":" ++ val)))) =
        f
        ∙ (ap (λ (t : Text). t ++ val) (put_lem (text ":") named colon q)
            ∙ (ap (λ (t : Text). (t ++ text ":") ++ val) (put_lem nj out named p)
                ∙ (ap (λ (t : Text). ((t ++ nj) ++ text ":") ++ val) (comma_lem o out c)
                    ∙ (ap (λ (t : Text). (((t ++ sep) ++ nj) ++ text ":") ++ val) e
                        ∙ simp append_assoc)))) in
      let all = more-IsMembers o.first m nj val mem (ok.texts_json name nj n) j in
      subst (λ (x : ObjectWriter). (m' : Text) × (x.out ≡ base ++ m') × IsMembers IsLeaf x.first m')
        (some_inj h5) (m ++ (sep ++ (nj ++ (text ":" ++ val))), at_end, all)

  -- A step that adds nothing.
  same :
      (base m : Text) (o next : ObjectWriter)
      → o.out ≡ base ++ m
      → IsMembers IsLeaf o.first m
      → o ≡ next
      → (m' : Text) × (next.out ≡ base ++ m') × IsMembers IsLeaf next.first m'
  same base m o next e mem h =
      subst (λ (x : ObjectWriter). (m' : Text) × (x.out ≡ base ++ m') × IsMembers IsLeaf x.first m')
        h (m, e, mem)

  json_field-Grows :
      (name : Text) (v : Option Text)
      → ((b : Text) → v ≡ some b → IsLeaf b)
      → Grows (json_field lib name v)
  unfolding json_field
  json_field-Grows name none l base m o next e mem h = cc
  json_field-Grows name (some b) l base m o next e mem h =
      raw_field-Grows name (put lib b) (λ out next h. (b, put_lem b out next h, leaf (l b refl)))
        base m o next e mem h

  when-Grows : (b : Bool) (s : Step) → Grows s → Grows (when b s)
  unfolding when
  when-Grows true s g base m o next e mem h = g base m o next e mem h
  when-Grows false s g base m o next e mem h = same base m o next e mem (some_inj h)

  when_some-Grows :
      {A : Type 0} (a : Option A) (s : A → Step) → ((x : A) → Grows (s x)) → Grows (when_some a s)
  unfolding when_some
  when_some-Grows none s g base m o next e mem h = same base m o next e mem (some_inj h)
  when_some-Grows (some a) s g base m o next e mem h = g a base m o next e mem h

  -- All the steps of an object add members.
  infixr 5 ◌⨟◌
  data AllGrow : List Step → Type 0 where
    no_more : AllGrow []
    ◌⨟◌ : {s : Step} {ss : List Step} → Grows s → AllGrow ss → AllGrow (s ∷ ss)

  all_fields-Grows : (ss : List Step) → AllGrow ss → Grows (all_fields ss)
  unfolding all_fields
  all_fields-Grows [] no_more base m o next e mem h = same base m o next e mem (some_inj h)
  all_fields-Grows (s ∷ ss) (g ⨟ gs) base m o next e mem h =
      let (o', h1, h2) = >>=-some (s o) _ h in
      let (m', e', mem') = g base m o o' e mem h1 in
      all_fields-Grows ss gs base m' o' next e' mem' h2

  write_object-IsJson : (ss : List Step) → AllGrow ss → Writes (IsJson IsLeaf) (write_object lib ss)
  unfolding write_object
  write_object-IsJson ss g out next h =
      let (opened, h1, h2) = >>=-some (put lib (text "{") out) _ h in
      let (o, h3, h4) = >>=-some (all_fields ss (record { first = true; out = opened })) _ h2 in
      let (m, e, mem) =
        all_fields-Grows ss g opened [] (record { first = true; out = opened }) o
          (sym (append-nil opened)) no_members h3 in
      (
        text "{" ++ (m ++ text "}"),
        put_lem (text "}") o.out next h4
            ∙ (ap (λ (t : Text). t ++ text "}") e
                ∙ (ap (λ (t : Text). (t ++ m) ++ text "}") (put_lem (text "{") out opened h1)
                    ∙ simp append_assoc)),
        object mem,
      )

  write_data-IsJson : (b : ArchiveBody) → Writes (IsJson IsLeaf) (write_data lib b)
  unfolding write_data
  write_data-IsJson b out next h =
      let (bytes, h1, h2) =
        >>=-some (elim b.file [ none ↦ some b.data_bytes | some f ↦ lib.read_file f ]) _ h in
      let (quoted, h3, h4) = >>=-some (put lib (b'"' ∷ []) out) _ h2 in
      let (encoded, h5, h6) = >>=-some (put lib (lib.base64 bytes) quoted) _ h4 in
      (
        b'"' ∷ (lib.base64 bytes ++ b'"' ∷ []),
        put_lem (b'"' ∷ []) encoded next h6
            ∙ (ap (λ (t : Text). t ++ b'"' ∷ []) (put_lem (lib.base64 bytes) quoted encoded h5)
                ∙ (ap (λ (t : Text). (t ++ lib.base64 bytes) ++ b'"' ∷ [])
                      (put_lem (b'"' ∷ []) out quoted h3)
                    ∙ simp append_assoc)),
        leaf (ok.base64_json bytes),
      )

  of_text-Grows : (name x : Text) → Grows (json_field lib name (lib.of_text x))
  of_text-Grows name x = json_field-Grows name (lib.of_text x) (ok.texts_json x)

  of_int-Grows : (name : Text) (x : ℤ) → Grows (json_field lib name (lib.of_int x))
  of_int-Grows name x = json_field-Grows name (lib.of_int x) (ok.ints_json x)

  text_if-Grows : (b : Bool) (name x : Text) → Grows (when b (json_field lib name (lib.of_text x)))
  text_if-Grows b name x = when-Grows b (json_field lib name (lib.of_text x)) (of_text-Grows name x)

  write_archive_body-IsJson : (b : ArchiveBody) → Writes (IsJson IsLeaf) (write_archive_body lib b)
  unfolding write_archive_body
  write_archive_body-IsJson b = write_object-IsJson _ (
      of_text-Grows (text "encoding") (default_string b.encoding (text "base64"))
      ⨟ of_int-Grows (text "size") (pos b.size)
      ⨟ of_text-Grows (text "sha256") b.sha256
      ⨟ text_if-Grows (not (is_nil b.capture_error)) (text "capture_error") b.capture_error
      ⨟ raw_field-Grows (text "data_base64") (write_data lib b) (write_data-IsJson b)
      ⨟ no_more)

  write_archive_response-IsJson :
      (r : ArchiveResponse) → Writes (IsJson IsLeaf) (write_archive_response lib r)
  unfolding write_archive_response
  write_archive_response-IsJson r = write_object-IsJson _ (
      when-Grows (not (r.status == 0)) _
        (json_field-Grows (text "status") (lib.of_int (pos r.status)) (ok.ints_json (pos r.status)))
      ⨟ when-Grows (not (is_nil (headers_of lib r.headers))) _ (
          json_field-Grows (text "headers") (lib.of_header (headers_of lib r.headers))
            (ok.headers_json (headers_of lib r.headers)))
      ⨟ raw_field-Grows (text "body") (write_archive_body lib (body_or lib r.body))
          (write_archive_body-IsJson (body_or lib r.body))
      ⨟ no_more)

  write_archive_attempt-IsJson :
      (a : ArchiveAttempt) → Writes (IsJson IsLeaf) (write_archive_attempt lib a)
  unfolding write_archive_attempt
  write_archive_attempt-IsJson a = write_object-IsJson _ (
      of_int-Grows (text "index") (pos a.index)
      ⨟ of_text-Grows (text "started_at") (lib.print_time a.started)
      ⨟ of_int-Grows (text "duration_ms") (pos a.duration_ms)
      ⨟ of_text-Grows (text "who") a.who
      ⨟ of_text-Grows (text "model") a.model
      ⨟ of_int-Grows (text "proxy_retry") (pos a.proxy_retry)
      ⨟ of_text-Grows (text "request_body_ref") a.request_body_ref
      ⨟ of_int-Grows (text "request_body_size") (pos a.request_body_size)
      ⨟ of_text-Grows (text "request_body_sha256") a.request_body_sha256
      ⨟ when_some-Grows a.request_body _ (λ x.
        raw_field-Grows (text "request_body") (write_archive_body lib x)
          (write_archive_body-IsJson x))
      ⨟ when_some-Grows a.response _ (λ x.
        raw_field-Grows (text "response") (write_archive_response lib x)
          (write_archive_response-IsJson x))
      ⨟ when_some-Grows a.failure _
          (λ x. json_field-Grows (text "failure") (lib.of_failure x) (ok.failure_json x))
      ⨟ when_some-Grows a.stats _
          (λ x. json_field-Grows (text "stats") (lib.of_stats x) (ok.stats_json x))
      ⨟ when_some-Grows a.model_swap _
          (λ x. json_field-Grows (text "model_swap") (lib.of_swap x) (ok.swap_json x))
      ⨟ text_if-Grows (not (is_nil a.result)) (text "result") a.result
      ⨟ when-Grows (not (a.retry_wait_ms == 0)) _ (
          json_field-Grows (text "retry_wait_ms") (lib.of_int (pos a.retry_wait_ms))
            (ok.ints_json (pos a.retry_wait_ms)))
      ⨟ no_more)

  write_more-IsElements :
      (attempts : List ArchiveAttempt) (base m out next : Text)
      → out ≡ base ++ m
      → IsElements IsLeaf m
      → write_more lib attempts out ≡ some next
      → (m' : Text) × (next ≡ base ++ m') × IsElements IsLeaf m'
  unfolding write_more
  write_more-IsElements [] base m out next e els h = (m, sym (some_inj h) ∙ e, els)
  write_more-IsElements (a ∷ attempts) base m out next e els h =
      let (sep, h1, h2) = >>=-some (put lib (text ",") out) _ h in
      let (written, h3, h4) = >>=-some (write_archive_attempt lib a sep) _ h2 in
      let (v, f, j) = write_archive_attempt-IsJson a sep written h3 in
      let at : written ≡ base ++ (m ++ (text "," ++ v)) =
        f
        ∙ (ap (λ (t : Text). t ++ v) (put_lem (text ",") out sep h1)
            ∙ (ap (λ (t : Text). (t ++ text ",") ++ v) e ∙ simp append_assoc)) in
      write_more-IsElements attempts base (m ++ (text "," ++ v)) written next at (elements els j) h4

  write_list-IsElements :
      (attempts : List ArchiveAttempt) → Writes (IsElements IsLeaf) (write_list lib attempts)
  unfolding write_list
  write_list-IsElements [] out next h = ([], sym (some_inj h) ∙ sym (append-nil out), no_elements)
  write_list-IsElements (a ∷ attempts) out next h =
      let (written, h1, h2) = >>=-some (write_archive_attempt lib a out) _ h in
      let (v, e, j) = write_archive_attempt-IsJson a out written h1 in
      write_more-IsElements attempts out v written next e (element j) h2

  write_archive_attempts-IsJson :
      (attempts : List ArchiveAttempt)
      → Writes (IsJson IsLeaf) (write_archive_attempts lib attempts)
  unfolding write_archive_attempts
  write_archive_attempts-IsJson attempts out next h =
      let (opened, h1, h2) = >>=-some (put lib (text "[") out) _ h in
      let (written, h3, h4) = >>=-some (write_list lib attempts opened) _ h2 in
      let (m, e, els) = write_list-IsElements attempts opened written h3 in
      (
        text "[" ++ (m ++ text "]"),
        put_lem (text "]") written next h4
            ∙ (ap (λ (t : Text). t ++ text "]") e
                ∙ (ap (λ (t : Text). (t ++ m) ++ text "]") (put_lem (text "[") out opened h1)
                    ∙ simp append_assoc)),
        array els,
      )

  write_archive_client_request-IsJson :
      (cr : ArchiveClientRequest) → Writes (IsJson IsLeaf) (write_archive_client_request lib cr)
  unfolding write_archive_client_request
  write_archive_client_request-IsJson cr = write_object-IsJson _ (
      of_text-Grows (text "method") cr.method
      ⨟ text_if-Grows (not (is_nil cr.request_uri)) (text "request_uri") cr.request_uri
      ⨟ of_text-Grows (text "path") cr.path
      ⨟ text_if-Grows (not (is_nil cr.query)) (text "query") cr.query
      ⨟ text_if-Grows (not (is_nil cr.host)) (text "host") cr.host
      ⨟ text_if-Grows (not (is_nil cr.proto)) (text "proto") cr.proto
      ⨟ json_field-Grows (text "content_length") (lib.of_int cr.content_length)
          (ok.ints_json cr.content_length)
      ⨟ when-Grows (not (is_nil cr.transfer_encoding)) _ (
          json_field-Grows (text "transfer_encoding") (lib.of_texts cr.transfer_encoding)
            (ok.lists_json cr.transfer_encoding))
      ⨟ of_text-Grows (text "who") cr.who
      ⨟ json_field-Grows (text "headers") (lib.of_header cr.headers) (ok.headers_json cr.headers)
      ⨟ raw_field-Grows (text "body") (write_archive_body lib cr.body)
          (write_archive_body-IsJson cr.body)
      ⨟ of_text-Grows (text "body_reference") cr.body_reference
      ⨟ no_more)

  -- Where nothing fails to be written, a file holds one JSON document and a line end, whatever parts
  -- an archive lacks, if `json.Marshal` yields JSON and base64 needs no escapes.
  pub write_archive-IsJson :
      (ar : RequestArchive) (next : Text)
      → write_archive lib ar [] ≡ some next
      → (v : Text) × (next ≡ v ++ 10 ∷ []) × IsJson IsLeaf v
  unfolding write_archive
  write_archive-IsJson ar next h =
      let (written, h1, h2) = >>=-some _ _ h in
      let (v, e, j) =
        write_object-IsJson _
          (of_text-Grows (text "schema") ar.schema
            ⨟ of_text-Grows (text "id") ar.id
            ⨟ of_text-Grows (text "started_at") (lib.print_time ar.started)
            ⨟ of_text-Grows (text "finished_at") (lib.print_time ar.finished)
            ⨟ of_int-Grows (text "duration_ms") (pos ar.duration_ms)
            ⨟ json_field-Grows (text "proxy_version") (lib.of_version ar.proxy_version)
                (ok.version_json ar.proxy_version)
            ⨟ text_if-Grows (not (is_nil ar.upstream_url)) (text "upstream_url") ar.upstream_url
            ⨟ raw_field-Grows (text "client_request")
                (write_archive_client_request lib ar.client_request)
                (write_archive_client_request-IsJson ar.client_request)
            ⨟ raw_field-Grows (text "attempts") (write_archive_attempts lib ar.attempts)
                (write_archive_attempts-IsJson ar.attempts)
            ⨟ json_field-Grows (text "outcome") (lib.of_outcome ar.outcome)
                (ok.outcome_json ar.outcome)
            ⨟ json_field-Grows (text "redactions")
                (lib.of_redactions ar.header_names ar.query_params)
                (ok.redactions_json ar.header_names ar.query_params)
            ⨟ no_more)
          [] written h1 in
      (v, put_lem (10 ∷ []) written next h2 ∙ ap (λ (t : Text). t ++ 10 ∷ []) e, j)
