-- ===== src/Archive/Recorder/Bodies.antt =====
-- The bodies that the references of the attempts stand for.

use mathlib.Core.List.{append-nil, append_assoc}
use steady_proxy.Base.{
  ℕ, suc, ◌+◌, ◌^◌, ◌<◌, Bool, true, false, List, [], ◌∷◌, ◌++◌, map, Option, none, some, Text,
  length, length-append, any, any-append, str_eq, str_eq_refl, ◌≡◌, refl, arith, sym, ap, ◌∙◌, inl,
  inr, Option-cases, subst,
}
use steady_proxy.Config.{Config}
use steady_proxy.Failure.{Failure}
use steady_proxy.Sse.Wire.{CaptureStats, ReadError}
use steady_proxy.AccessLog.{BodyLib}
use steady_proxy.Archive.Capture.{TempFiles}
use steady_proxy.Archive.Redact.{UrlLib}
use steady_proxy.Archive.Recorder.References.{
  Key, key_of, resolve, Aligned, Restorable, body_reference-Restorable,
}
use steady_proxy.Archive.Attempt.{Incoming, ArchiveAttempt, stats_archive}
use steady_proxy.Archive.Recorder.{
  Recorder, attempts_of, attempt_ref, client_ref, on_current, body_reference, begin_attempt,
  finish_current_attempt, new_req_recorder, note_attempt_response_headers, write_response,
  note_response_read_error, note_attempt_failure, note_attempt_result, note_attempt_retry,
  note_attempt_stats, note_delivered_answer, note_proxy_retries, note_model_swap, note,
}
use steady_proxy.Archive.Recorder.Actions.{
  Action, began, finished, headers, wrote, read_error, failed, result, retry, stats, delivered,
  retries, swapped, noted, body_of, bodies, step, run,
}

-- Operations that leave the keys of the attempts and the references alone.
abbrev SameBodies : Recorder → Recorder → Type 0
SameBodies r rec =
    (map key_of (attempts_of r) ≡ map key_of (attempts_of rec)) × (r.body_refs ≡ rec.body_refs)

last_key :
    (xs : List ArchiveAttempt) (a b : ArchiveAttempt)
    → key_of a ≡ key_of b
    → map key_of (xs ++ a ∷ []) ≡ map key_of (xs ++ b ∷ [])
last_key [] a b e = ap (λ (k : Key). k ∷ []) e
last_key (x ∷ xs) a b e = ap (◌∷◌ (key_of x)) (last_key xs a b e)

map_snoc :
    (xs : List ArchiveAttempt) (a : ArchiveAttempt)
    → map key_of (xs ++ a ∷ []) ≡ map key_of xs ++ key_of a ∷ []
map_snoc [] a = refl
map_snoc (x ∷ xs) a = ap (◌∷◌ (key_of x)) (map_snoc xs a)

module _ (cfg : Config) (files : TempFiles) (digest : Text → Text) (lib : BodyLib) where
  on_current-SameBodies :
      (f : ArchiveAttempt → ArchiveAttempt) (rec : Recorder)
      → ((a : ArchiveAttempt) → key_of (f a) ≡ key_of a)
      → SameBodies (on_current f rec) rec
  unfolding attempts_of
  on_current-SameBodies f rec same = elim (Option-cases rec.cur) [
    | inl e ↦ (rw e refl, refl)
    | inr (a, e) ↦ (rw e (last_key rec.earlier (f a) a (same a)), refl)
  ]

  -- Only the begin of an attempt changes what the archive tells of bodies.
  abbrev begins : Action → Bool
  begins (began now body req_who n) = true
  begins _ = false

  read_error-SameBodies :
      (e : Option ReadError) (rec : Recorder) → SameBodies (note_response_read_error e rec) rec
  unfolding note_response_read_error
  read_error-SameBodies none rec = (refl, refl)
  read_error-SameBodies (some err) rec = on_current-SameBodies _ rec (λ a. refl)

  failed-SameBodies :
      (f : Failure) (t : Text) (rec : Recorder) → SameBodies (note_attempt_failure f t rec) rec
  unfolding note_attempt_failure
  failed-SameBodies f [] rec = on_current-SameBodies _ rec (λ a. refl)
  failed-SameBodies f (c ∷ t) rec = on_current-SameBodies _ rec (λ a. refl)

  stats-SameBodies :
      (st : CaptureStats) (rec : Recorder) → SameBodies (note_attempt_stats st rec) rec
  unfolding note_attempt_stats attempts_of
  stats-SameBodies st rec = elim (Option-cases rec.cur) [
    | inl e ↦ rw e (refl, refl)
    | inr (a, e) ↦
        let next = record rec {
          cur = some (record a { stats = some (stats_archive st) });
          stats = some st;
        } in
        let (keys, refs) = read_error-SameBodies st.read_err next in
        rw e (
          (keys ∙ last_key rec.earlier (record a { stats = some (stats_archive st) }) a refl, refs))
  ]

  step-SameBodies :
      (act : Action) (rec : Recorder)
      → begins act ≡ false
      → SameBodies (step cfg files digest lib act rec) rec
  unfolding step
  step-SameBodies (finished now) rec h =
      unfold finish_current_attempt in on_current-SameBodies _ rec (λ a. refl)
  step-SameBodies (headers st hs) rec h =
      unfold note_attempt_response_headers in on_current-SameBodies _ rec (λ a. refl)
  step-SameBodies (wrote p) rec h = unfold write_response in on_current-SameBodies _ rec (λ a. refl)
  step-SameBodies (read_error e) rec h = read_error-SameBodies e rec
  step-SameBodies (failed f t) rec h = failed-SameBodies f t rec
  step-SameBodies (result t) rec h =
      unfold note_attempt_result in on_current-SameBodies _ rec (λ a. refl)
  step-SameBodies (retry t wait) rec h =
      unfold note_attempt_retry in on_current-SameBodies _ rec (λ a. refl)
  step-SameBodies (stats st) rec h = stats-SameBodies st rec
  step-SameBodies (delivered who st) rec h =
      unfold note_delivered_answer in unfold attempts_of in (refl, refl)
  step-SameBodies (retries n) rec h =
      unfold note_proxy_retries in unfold attempts_of in (refl, refl)
  step-SameBodies (swapped reason from to) rec h =
      unfold note_model_swap in on_current-SameBodies _ rec (λ a. refl)
  step-SameBodies (noted outcome orig surfaced code) rec h =
      unfold note in unfold attempts_of in (refl, refl)
  step-SameBodies (began now body req_who n) rec h = cc

  abbrev IsRestorable : Text → (Text → Type 0) → Recorder → List Text → Type 0
  IsRestorable client P rec bs =
      Restorable digest client P (map key_of (attempts_of rec)) rec.body_refs bs

  length-keys : (xs : List ArchiveAttempt) → length (map key_of xs) ≡ length xs
  length-keys [] = refl
  length-keys (x ∷ xs) = ap suc (length-keys xs)

  finish_current_attempt-SameBodies :
      (now : ℕ) (rec : Recorder) → SameBodies (finish_current_attempt digest now rec) rec
  unfolding finish_current_attempt step
  finish_current_attempt-SameBodies now rec = step-SameBodies (finished now) rec refl

  -- What `bodyReference` gives at a number of attempts, among the keys.
  abbrev Next :
      Text → (Text → Type 0) → List Key → List (Text × Text) → Text → List Text → ℕ → Type 0
  Next client P ks refs body bs m =
      let r = body_reference digest body (attempt_ref (suc m)) refs in
      Restorable digest client P (ks ++ (suc m, r.0, r.1) ∷ []) r.2 (bs ++ body ∷ [])

  begin_attempt-keys :
      (now n : ℕ) (body who : Text) (rec : Recorder)
      → let r = finish_current_attempt digest now rec in
        let m = suc (length (attempts_of r)) in
        let b = body_reference digest body (attempt_ref m) r.body_refs in
        map key_of (attempts_of (begin_attempt digest lib now body who n rec))
        ≡ map key_of (attempts_of r) ++ (m, b.0, b.1) ∷ []
  unfolding begin_attempt attempts_of
  begin_attempt-keys now n body who rec =
      map_snoc (attempts_of (finish_current_attempt digest now rec)) _

  begin_attempt-IsRestorable :
      (client : Text) (P : Text → Type 0)
      → ((a b : Text) → P a → P b → digest a ≡ digest b → a ≡ b)
      → (now n : ℕ) (body who : Text) (rec : Recorder) (bs : List Text)
      → suc (length (attempts_of rec)) < 2 ^ 63
      → P body
      → IsRestorable client P rec bs
      → IsRestorable client P (begin_attempt digest lib now body who n rec) (bs ++ body ∷ [])
        × (length (attempts_of (begin_attempt digest lib now body who n rec))
            ≡ suc (length (attempts_of rec)))
  begin_attempt-IsRestorable client P free now n body who rec bs p there v =
      let r = finish_current_attempt digest now rec in
      let (keys, refs) = finish_current_attempt-SameBodies now rec in
      let same : length (map key_of (attempts_of r)) ≡ length (attempts_of r) =
        length-keys (attempts_of r) in
      let count : length (attempts_of r) ≡ length (attempts_of rec) =
        sym same ∙ (ap length keys ∙ length-keys (attempts_of rec)) in
      let w : IsRestorable client P r bs = rw (keys, refs) v in
      let next =
        body_reference-Restorable digest client P free (map key_of (attempts_of r)) r.body_refs bs
          body (omega (arith, p, same, count)) there w in
      let at : Next client P (map key_of (attempts_of r)) r.body_refs body bs
          (length (attempts_of r)) =
        subst (Next client P (map key_of (attempts_of r)) r.body_refs body bs) same next in
      let keyed = begin_attempt-keys now n body who rec in
      (
        rw keyed (unfold begin_attempt in at),
        omega (
          arith,
          length-keys (attempts_of (begin_attempt digest lib now body who n rec)),
          ap length keyed,
          length-append {0},
          same,
          count,
        ),
      )

  step-IsRestorable :
      (client : Text) (P : Text → Type 0)
      → (a : Action) (rec : Recorder) (bs : List Text) → begins a ≡ false
      → IsRestorable client P rec bs
      → IsRestorable client P (step cfg files digest lib a rec) bs
        × (length (attempts_of (step cfg files digest lib a rec)) ≡ length (attempts_of rec))
  step-IsRestorable client P a rec bs h v =
      let (keys, refs) = step-SameBodies a rec h in
      (
        rw (keys, refs) v,
        sym (length-keys (attempts_of (step cfg files digest lib a rec)))
            ∙ (ap length keys ∙ length-keys (attempts_of rec)),
      )

  step-any :
      (client : Text) (P : Text → Type 0)
      → ((a b : Text) → P a → P b → digest a ≡ digest b → a ≡ b)
      → (a : Action) (rec : Recorder) (bs : List Text)
      → length (attempts_of rec) + length (body_of a) < 2 ^ 63
      → ((b : Text) → any (str_eq b) (body_of a) ≡ true → P b)
      → IsRestorable client P rec bs
      → IsRestorable client P (step cfg files digest lib a rec) (bs ++ body_of a)
        × (length (attempts_of (step cfg files digest lib a rec))
            ≡ length (attempts_of rec) + length (body_of a))
  unfolding step
  step-any client P free (began now body who n) rec bs p there v =
      let (r, l) =
        begin_attempt-IsRestorable client P free now n body who rec bs (omega (arith, p))
          (there body (rw (str_eq_refl body) refl)) v in
      (r, omega (arith, l))
  step-any client P free a rec bs p there v =
      let (r, l) = step-IsRestorable client P a rec bs refl v in (rw append-nil r, omega (arith, l))

  run-IsRestorable :
      (client : Text) (P : Text → Type 0)
      → ((a b : Text) → P a → P b → digest a ≡ digest b → a ≡ b)
      → (acts : List Action) (rec : Recorder) (bs : List Text)
      → length (attempts_of rec) + length (bodies acts) < 2 ^ 63
      → ((b : Text) → any (str_eq b) (bodies acts) ≡ true → P b)
      → IsRestorable client P rec bs
      → IsRestorable client P (run cfg files digest lib acts rec) (bs ++ bodies acts)
  unfolding run
  run-IsRestorable client P free [] rec bs p there v = rw append-nil v
  run-IsRestorable client P free (a ∷ acts) rec bs p there v =
      let sum = length-append (body_of a) (bodies acts) in
      let (r, l) =
        step-any client P free a rec bs (omega (arith, p, sum))
          (λ b h. there b (ground (arith, h, any-append (str_eq b) (body_of a) (bodies acts)))) v in
      rw (← append_assoc bs (body_of a) (bodies acts)) (
        run-IsRestorable client P free acts (step cfg files digest lib a rec) (bs ++ body_of a)
          (omega (arith, p, l, sum))
          (λ b h. there b (ground (arith, h, any-append (str_eq b) (body_of a) (bodies acts)))) r)

  Aligned-map :
      (client : Text) (P : Text → Type 0) (all : List Key) (xs : List ArchiveAttempt)
      (bs : List Text)
      → Aligned digest client P all (map key_of xs) bs
      → map (λ (a : ArchiveAttempt). resolve client all a.request_body_ref) xs ≡ map some bs
  Aligned-map client P all [] [] h = refl
  Aligned-map client P all (x ∷ xs) (b ∷ bs) h = rw (h.0, Aligned-map client P all xs bs h.1)
  Aligned-map client P all [] (b ∷ bs) h = absurd h
  Aligned-map client P all (x ∷ xs) [] h = absurd h

  read_error-req_body :
      (e : Option ReadError) (rec : Recorder)
      → (note_response_read_error e rec).req_body ≡ rec.req_body
  unfolding note_response_read_error
  read_error-req_body none rec = refl
  read_error-req_body (some e) rec = refl

  stats-req_body :
      (st : CaptureStats) (rec : Recorder) → (note_attempt_stats st rec).req_body ≡ rec.req_body
  unfolding note_attempt_stats
  stats-req_body st rec = elim (Option-cases rec.cur) [
    | inl e ↦ rw e refl
    | inr (a, e) ↦ rw e (read_error-req_body st.read_err _)
  ]

  -- The body of the client stays as it is.
  step-req_body :
      (a : Action) (rec : Recorder) → (step cfg files digest lib a rec).req_body ≡ rec.req_body
  unfolding step begin_attempt finish_current_attempt note_attempt_response_headers write_response
      note_attempt_failure note_attempt_result note_attempt_retry note_delivered_answer
      note_proxy_retries note_model_swap note
  step-req_body (stats st) rec = stats-req_body st rec
  step-req_body (read_error e) rec = read_error-req_body e rec
  step-req_body _ rec = refl

  run-req_body :
      (acts : List Action) (rec : Recorder)
      → (run cfg files digest lib acts rec).req_body ≡ rec.req_body
  unfolding run
  run-req_body [] rec = refl
  run-req_body (a ∷ acts) rec =
      run-req_body acts (step cfg files digest lib a rec) ∙ step-req_body a rec

  new_req_recorder-IsRestorable :
      (urls : UrlLib) (id : Text) (start : ℕ) (r : Incoming)
      → (P : Text → Type 0) → P r.body
      → IsRestorable r.body P (new_req_recorder digest lib urls id start r) []
  unfolding new_req_recorder attempts_of
  new_req_recorder-IsRestorable urls id start r P there = record {
    known = ((r.body, there, refl, unfold resolve in rw (str_eq_refl client_ref) refl), tt);
    aligned = tt;
    below = tt;
  }

  -- The bodies that a reader of the archive gets by the references of the attempts.
  abbrev pub restored : Recorder → List (Option Text)
  restored rec =
      map
        (λ (a : ArchiveAttempt).
          resolve rec.req_body (map key_of (attempts_of rec)) a.request_body_ref)
        (attempts_of rec)

  -- Where no two of the bodies of a request, the client's and those of the attempts, have the same
  -- digest: whatever else is noted of the attempts, and although a body that was sent before is not
  -- stored again, the references of the attempts stand for the bodies that they were begun with, in
  -- order, if there are less than 2 ^ 63 attempts.
  pub run-restored :
      (urls : UrlLib) (id : Text) (start : ℕ) (r : Incoming) (acts : List Action)
      → ((a b : Text)
          → any (str_eq a) (r.body ∷ bodies acts) ≡ true
          → any (str_eq b) (r.body ∷ bodies acts) ≡ true
          → digest a ≡ digest b
          → a ≡ b)
      → length (bodies acts) < 2 ^ 63
      → restored (run cfg files digest lib acts (new_req_recorder digest lib urls id start r))
        ≡ map some (bodies acts)
  run-restored urls id start r acts free p =
      let P : Text → Type 0 = λ b. any (str_eq b) (r.body ∷ bodies acts) ≡ true in
      let rec = new_req_recorder digest lib urls id start r in
      let none_yet : length (attempts_of rec) ≡ 0 =
        unfold new_req_recorder in unfold attempts_of in refl in
      let client : (run cfg files digest lib acts rec).req_body ≡ r.body =
        run-req_body acts rec ∙ unfold new_req_recorder in refl in
      let v =
        run-IsRestorable r.body P free acts rec [] (omega (arith, p, none_yet))
          (λ b h. ground (arith, h))
          (new_req_recorder-IsRestorable urls id start r P (rw (str_eq_refl r.body) refl)) in
      subst
        (λ (c : Text).
          map
            (λ (a : ArchiveAttempt).
              resolve c (map key_of (attempts_of (run cfg files digest lib acts rec)))
                a.request_body_ref)
            (attempts_of (run cfg files digest lib acts rec))
          ≡ map some (bodies acts))
        (sym client)
        (Aligned-map r.body P (map key_of (attempts_of (run cfg files digest lib acts rec)))
          (attempts_of (run cfg files digest lib acts rec)) (bodies acts) v.aligned)
