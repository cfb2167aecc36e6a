-- ===== src/Gemini/Wire/Ended.antt =====
-- What lets a candidate count as finished.
use steady_proxy.Base.{
  ℕ, ◌<◌, Bool, true, false, not, ◌&&◌, ◌||◌, List, [], ◌∷◌, Option, none, some, ℤ, pos, negsuc,
  pos_part, is_negative, Text, text, is_nil, str_eq, trim_space, has_prefix, leb, ◌==◌,
  if◌then◌else◌, ◌%◌, ◌^◌, ◌+◌, ◌≡◌, refl, ◌∙◌, sym, ap, subst, arith, Bool-cases, inl, inr, ◌⊎◌,
}
use steady_proxy.Classify.Codec.{Codec}
use steady_proxy.Failure.{Failure}
use steady_proxy.Gemini.Decimal.{GeminiLib}
use steady_proxy.Gemini.Object.{Candidate, Chunk, Usage, gemini_chunk}
use steady_proxy.Gemini.Wire.{
  CandidateState, GeminiWire, wire_for, state_of, reason_given, Accepted, has_parts, has_error,
  refuse, note_candidate, accept_candidates, accept_feedback, accept_usage, unless_failed,
  accept_chunk, accept_decoded, gemini_accept, failed_by, gemini_buffered, complete_on_eof,
}
use steady_proxy.Gemini.Wire.Complete.{run, all_succeed, complete_on_eof-finished}
use steady_proxy.Gemini.Wire.Counted.{state_of-set_state}
use steady_proxy.Json.{JsonLib}
use steady_proxy.Sse.Parser.{Event}
use steady_proxy.Sse.Wire.{CaptureStats}

-- A candidate of an index with a reason to finish, that is not the unspecified one.
abbrev pub Ends : ℕ → Candidate → Type 0
Ends i c =
    (c.index ≡ pos i)
    × (is_nil c.finish_reason ≡ false)
    × (str_eq c.finish_reason (text "FINISH_REASON_UNSPECIFIED") ≡ false)

abbrev pub EndsIn : ℕ → List (Option Candidate) → Type 0
EndsIn i [] = ⊥
EndsIn i (none ∷ cs) = EndsIn i cs
EndsIn i (some c ∷ cs) = Ends i c ⊎ EndsIn i cs

-- The wire holds a candidate for finished.
abbrev Finished : ℕ → GeminiWire → Type 0
Finished i g = (state_of i g.candidates).finished ≡ true

pos_part-index : (n : ℤ) (i : ℕ) → is_negative n ≡ false → (pos_part n == i) ≡ true → n ≡ pos i
pos_part-index (pos n) i h e = ap pos (ground (arith, e))
pos_part-index (negsuc n) i h e = absurd (ground (arith, h))

note_candidate-Finished :
    (i : ℕ) (c : Candidate) (g : GeminiWire)
    → is_negative c.index ≡ false
    → Finished i (note_candidate (pos_part c.index) c g)
    → Finished i g ⊎ Ends i c
unfolding note_candidate reason_given
note_candidate-Finished i c g h f =
    let k = pos_part c.index in
    let held = state_of k g.candidates in
    let ends =
      not (is_nil c.finish_reason)
      && not (str_eq c.finish_reason (text "FINISH_REASON_UNSPECIFIED")) in
    let state : CandidateState = record held {
      chunk = g.chunk;
      finished = held.finished || ends;
    } in
    let e = state_of-set_state k i state g.candidates in
    elim (Bool-cases (k == i)) [
      | inr n ↦ inl (ground (arith, f, e, n))
      | inl y ↦
          let same : k ≡ i = ground (arith, y) in
          elim (Bool-cases held.finished) [
            | inl z ↦ inl (subst (λ (m : ℕ). (state_of m g.candidates).finished ≡ true) same z)
            | inr z ↦ inr (
              pos_part-index c.index i h y,
              ground (arith, f, e, y, z),
              ground (arith, f, e, y, z),
            )
          ]
    ]

branch-Finished :
    (i : ℕ) (b : Bool) (T : Type 0) (x y : Accepted)
    → (Finished i x.wire → T)
    → (b ≡ false → Finished i y.wire → T)
    → Finished i (if b then x else y).wire
    → T
branch-Finished i true T x y h g f = h f
branch-Finished i false T x y h g f = g refl f

accept_candidates-Finished :
    (i : ℕ) (cs : List (Option Candidate)) (g : GeminiWire) (st : CaptureStats)
    → Finished i (accept_candidates cs g st).wire
    → Finished i g ⊎ EndsIn i cs
unfolding accept_candidates refuse
accept_candidates-Finished i [] g st f = inl f
accept_candidates-Finished i (none ∷ cs) g st f = inl f
accept_candidates-Finished i (some c ∷ cs) g st f =
    let k = pos_part c.index in
    let held = state_of k g.candidates in
    let T = Finished i g ⊎ (Ends i c ⊎ EndsIn i cs) in
    branch-Finished i (is_negative c.index || leb g.candidate_count k) T _ _ (λ x. inl x)
      (λ r.
        let ok : is_negative c.index ≡ false = ground (arith, r) in
        branch-Finished i (held.chunk == g.chunk) T _ _ (λ x. inl x)
          (λ d.
            branch-Finished i (has_parts c && held.finished) T _ _ (λ x. inl x)
              (λ p x. elim (accept_candidates-Finished i cs (note_candidate k c g) _ x) [
                | inr later ↦ inr (inr later)
                | inl now ↦ elim (note_candidate-Finished i c g ok now) [
                  | inl before ↦ inl before
                  | inr here ↦ inr (inl here)
                ]
              ])))
      f

accept_feedback-candidates :
    (r : Option Text) (g : GeminiWire) (st : CaptureStats)
    → (accept_feedback r g st).0.candidates ≡ g.candidates
unfolding accept_feedback
accept_feedback-candidates none g st = refl
accept_feedback-candidates (some r) g st = refl

accept_usage-candidates :
    (u : Option Usage) (g : GeminiWire) (st : CaptureStats)
    → (accept_usage u g st).0.candidates ≡ g.candidates
unfolding accept_usage
accept_usage-candidates none g st = refl
accept_usage-candidates (some u) g st = refl

unless_failed-Finished :
    (i : ℕ) (f : Option Failure) (x y : Accepted)
    → y.wire.candidates ≡ x.wire.candidates
    → Finished i (unless_failed f x y).wire
    → Finished i x.wire
unless_failed-Finished i none x y e h = ap (λ m. (state_of i m).finished) (sym e) ∙ h
unless_failed-Finished i (some f) x y e h = h

accept_chunk-Finished :
    (i : ℕ) (c : Chunk) (g : GeminiWire) (st : CaptureStats)
    → Finished i (accept_chunk c g st).wire
    → Finished i g ⊎ EndsIn i c.candidates
unfolding accept_chunk
accept_chunk-Finished i c g st h =
    let next = record g { chunk = (g.chunk + 1) % 2 ^ 64 } in
    let a = accept_candidates c.candidates next st in
    accept_candidates-Finished i c.candidates next st (
      unless_failed-Finished i a.fail a _
        (accept_usage-candidates c.usage_metadata _ _
          ∙ accept_feedback-candidates c.prompt_feedback a.wire a.stats)
        h)

branch-wire :
    (i : ℕ) (b : Bool) (T : Type 0) (x y : Accepted)
    → (Finished i x.wire → T)
    → (Finished i y.wire → T)
    → Finished i (if b then x else y).wire
    → T
branch-wire i true T x y h g f = h f
branch-wire i false T x y h g f = g f

failed_by-Finished :
    (i : ℕ) (f : Option Failure) (g : GeminiWire) → Finished i (failed_by f g) → Finished i g
failed_by-Finished i none g h = h
failed_by-Finished i (some f) g h = h

module _ (json : JsonLib) (lib : GeminiLib) (codec : Codec) where
  -- An event whose chunk has a candidate of an index with a reason to finish.
  abbrev pub EndsAt : ℕ → Event → Type 0
  EndsAt i ev =
      (c : Chunk) × (gemini_chunk json lib (trim_space ev.data_text) ≡ some c)
      × EndsIn i c.candidates

  abbrev pub EndedBy : ℕ → List Event → Type 0
  EndedBy i [] = ⊥
  EndedBy i (ev ∷ evs) = EndsAt i ev ⊎ EndedBy i evs

  accept_decoded-Finished :
      (i : ℕ) (ev : Event) (t : Text) (o : Option Chunk) (g : GeminiWire) (st : CaptureStats)
      → Finished i (accept_decoded json lib codec ev t o g st).wire
      → Finished i g ⊎ ((c : Chunk) × (o ≡ some c) × EndsIn i c.candidates)
  unfolding accept_decoded refuse
  accept_decoded-Finished i ev t none g st h = inl h
  accept_decoded-Finished i ev t (some c) g st h =
      branch-wire i (str_eq ev.name (text "error") || has_error c)
        (Finished i g ⊎ ((d : Chunk) × (some c ≡ some d) × EndsIn i d.candidates)) _
        (accept_chunk c g st) (λ x. inl x)
        (λ x. elim (accept_chunk-Finished i c g st x) [
          | inl before ↦ inl before
          | inr here ↦ inr (c, refl, here)
        ])
        h

  gemini_accept-Finished :
      (i : ℕ) (ev : Event) (g : GeminiWire) (st : CaptureStats)
      → Finished i (gemini_accept json lib codec ev g st).wire
      → Finished i g ⊎ EndsAt i ev
  unfolding gemini_accept refuse
  gemini_accept-Finished i ev g st h =
      let t = trim_space ev.data_text in
      let T = Finished i g ⊎ EndsAt i ev in
      branch-wire i (is_nil ev.data_text && not (str_eq ev.name (text "error"))) T _ _ (λ x. inl x)
        (λ x.
          branch-wire i (not (has_prefix t (text "{"))) T _ _ (λ y. inl y)
            (accept_decoded-Finished i ev t (gemini_chunk json lib t) g st) x)
        h

  run-Finished :
      (i : ℕ) (evs : List Event) (g : GeminiWire) (st : CaptureStats)
      → Finished i (run json lib codec evs g st)
      → Finished i g ⊎ EndedBy i evs
  unfolding run gemini_buffered
  run-Finished i [] g st h = inl h
  run-Finished i (ev ∷ evs) g st h =
      let a = gemini_accept json lib codec ev g st in
      elim (run-Finished i evs (failed_by a.fail a.wire) a.stats h) [
        | inr later ↦ inr (inr later)
        | inl now ↦
            elim (gemini_accept-Finished i ev g st (failed_by-Finished i a.fail a.wire now)) [
              | inl before ↦ inl before
              | inr here ↦ inr (inl here)
            ]
      ]

  not_begun : (n i : ℕ) → Finished i (wire_for n) → ⊥
  unfolding state_of
  not_begun n i h = absurd (ground (arith, h))

  -- When a buffered Gemini stream with no block of the prompt counts as complete at its end, every
  -- candidate that the request asked for has come in a chunk of the stream with a finish reason, that
  -- is not the unspecified one, and no event of the stream has failed.
  pub complete_on_eof-EndedBy :
      (n : ℕ) (evs : List Event) (st : CaptureStats)
      → (run json lib codec evs (wire_for n) st).blocked ≡ false
      → complete_on_eof (run json lib codec evs (wire_for n) st) ≡ true
      → ((i : ℕ) → i < n → EndedBy i evs) × (all_succeed json lib codec evs (wire_for n) st ≡ true)
  complete_on_eof-EndedBy n evs st unblocked done =
      let (finished, fine) = complete_on_eof-finished json lib codec n evs st unblocked done in
      (
        (λ i l. elim (run-Finished i evs (wire_for n) st (finished i l)) [
          | inl before ↦ absurd (not_begun n i before)
          | inr ended ↦ ended
        ]),
        fine,
      )
