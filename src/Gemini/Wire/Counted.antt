-- ===== src/Gemini/Wire/Counted.antt =====
-- The wire's count of finished candidates is the number of candidates that have finished.
use steady_proxy.Base.{
  ℕ, zero, suc, ◌+◌, ◌≤◌, ◌<◌, Bool, true, false, ◌&&◌, ◌||◌, List, [], ◌∷◌, Option, none, some,
  pos_part, is_negative, Text, text, leb, ◌==◌, if◌then◌else◌, ◌%◌, ◌^◌, ◌≡◌, refl, ◌∙◌, arith,
  Bool-cases, inl, inr,
}
use steady_proxy.Failure.{Failure}
use steady_proxy.Gemini.Object.{Candidate, Chunk, Usage}
use steady_proxy.Gemini.Wire.{
  CandidateState, GeminiWire, state_of, set_state, reason_given, Accepted, has_parts, refuse,
  note_candidate, note_stop, accept_candidates, accept_feedback, accept_usage, unless_failed,
  accept_chunk,
}
use steady_proxy.Sse.Wire.{CaptureStats}

abbrev pub bit : Bool → ℕ
bit b = if b then 1 else 0

-- The finished ones of the first `n` candidates.
unfoldable pub count : ℕ → List (ℕ × CandidateState) → ℕ
count zero m = 0
count (suc n) m = count n m + bit (state_of n m).finished

pub state_of-set_state :
    (i j : ℕ) (t : CandidateState) (m : List (ℕ × CandidateState))
    → state_of j (set_state i t m) ≡ (if i == j then t else state_of j m)
unfolding state_of set_state
state_of-set_state i j t [] = ground arith
state_of-set_state i j t ((k, s) ∷ m) = elim (Bool-cases (k == i)) [
  | inl y ↦ ground (arith, y, state_of-set_state i j t m)
  | inr n ↦ ground (arith, n, state_of-set_state i j t m)
]

count-set_above :
    (n i : ℕ) (t : CandidateState) (m : List (ℕ × CandidateState))
    → n ≤ i
    → count n (set_state i t m) ≡ count n m
unfolding count
count-set_above zero i t m h = refl
count-set_above (suc n) i t m h =
    ground (arith, h, count-set_above n i t m (omega (arith, h)), state_of-set_state i n t m)

count-set :
    (n i : ℕ) (t : CandidateState) (m : List (ℕ × CandidateState))
    → i < n
    → count n (set_state i t m) + bit (state_of i m).finished ≡ count n m + bit t.finished
unfolding count
count-set zero i t m h = absurd (omega (arith, h))
count-set (suc n) i t m h = elim (Bool-cases (i == n)) [
  | inl y ↦
      ground (arith, y, count-set_above n i t m (ground (arith, y)), state_of-set_state i n t m)
  | inr d ↦ ground (arith, d, count-set n i t m (ground (arith, h, d)), state_of-set_state i n t m)
]

-- The wire's count is right.
abbrev pub Counted : GeminiWire → Type 0
Counted g = g.finished ≡ count g.candidate_count g.candidates

note_candidate-Counted :
    (i : ℕ) (c : Candidate) (g : GeminiWire)
    → i < g.candidate_count
    → Counted g
    → Counted (note_candidate i c g)
unfolding note_candidate
note_candidate-Counted i c g h k =
    let held = state_of i g.candidates in
    let ends = reason_given (text "FINISH_REASON_UNSPECIFIED") c.finish_reason in
    let state = record held { chunk = g.chunk; finished = held.finished || ends } in
    let step = count-set g.candidate_count i state g.candidates h in
    elim (Bool-cases ends) [
      | inl y ↦ elim (Bool-cases held.finished) [
        | inl f ↦ ground (arith, k, step, y, f)
        | inr f ↦ ground (arith, k, step, y, f)
      ]
      | inr n ↦ elim (Bool-cases held.finished) [
        | inl f ↦ ground (arith, k, step, n, f)
        | inr f ↦ ground (arith, k, step, n, f)
      ]
    ]

branch-Counted :
    (b : Bool) (x y : Accepted)
    → Counted x.wire
    → (b ≡ false → Counted y.wire)
    → Counted (if b then x else y).wire
branch-Counted true x y h g = h
branch-Counted false x y h g = g refl

accept_candidates-Counted :
    (cs : List (Option Candidate)) (g : GeminiWire) (st : CaptureStats)
    → Counted g
    → Counted (accept_candidates cs g st).wire
unfolding accept_candidates refuse
accept_candidates-Counted [] g st k = k
accept_candidates-Counted (none ∷ cs) g st k = k
accept_candidates-Counted (some c ∷ cs) g st k =
    let i = pos_part c.index in
    let held = state_of i g.candidates in
    branch-Counted (is_negative c.index || leb g.candidate_count i) _ _ k (λ r.
      branch-Counted (held.chunk == g.chunk) _ _ k (λ d.
        branch-Counted (has_parts c && held.finished) _ _ k (λ f.
          accept_candidates-Counted cs (note_candidate i c g) _
            (note_candidate-Counted i c g (ground (arith, r)) k))))

accept_candidates-count :
    (cs : List (Option Candidate)) (g : GeminiWire) (st : CaptureStats)
    → (accept_candidates cs g st).wire.candidate_count ≡ g.candidate_count
unfolding accept_candidates refuse note_candidate
accept_candidates-count [] g st = refl
accept_candidates-count (none ∷ cs) g st = refl
accept_candidates-count (some c ∷ cs) g st = ground (
  arith,
  accept_candidates-count cs (note_candidate (pos_part c.index) c g)
      (note_stop (text "FINISH_REASON_UNSPECIFIED") c.finish_reason st),
)

accept_candidates-failed :
    (cs : List (Option Candidate)) (g : GeminiWire) (st : CaptureStats)
    → (accept_candidates cs g st).wire.failed ≡ g.failed
unfolding accept_candidates refuse note_candidate
accept_candidates-failed [] g st = refl
accept_candidates-failed (none ∷ cs) g st = refl
accept_candidates-failed (some c ∷ cs) g st = ground (
  arith,
  accept_candidates-failed cs (note_candidate (pos_part c.index) c g)
      (note_stop (text "FINISH_REASON_UNSPECIFIED") c.finish_reason st),
)

-- The count is right, and of `n` candidates, and `failed` is `b`.
abbrev pub Fine : ℕ → Bool → GeminiWire → Type 0
Fine n b g = Counted g × (g.candidate_count ≡ n) × (g.failed ≡ b)

accept_feedback-Fine :
    (n : ℕ) (b : Bool) (f : Option Text) (g : GeminiWire) (st : CaptureStats)
    → Fine n b g
    → Fine n b (accept_feedback f g st).0
unfolding accept_feedback
accept_feedback-Fine n b none g st k = k
accept_feedback-Fine n b (some r) g st k = k

accept_usage-Fine :
    (n : ℕ) (b : Bool) (u : Option Usage) (g : GeminiWire) (st : CaptureStats)
    → Fine n b g
    → Fine n b (accept_usage u g st).0
unfolding accept_usage
accept_usage-Fine n b none g st k = k
accept_usage-Fine n b (some u) g st k = k

accept_candidates-Fine :
    (n : ℕ) (b : Bool) (cs : List (Option Candidate)) (g : GeminiWire) (st : CaptureStats)
    → Fine n b g
    → Fine n b (accept_candidates cs g st).wire
accept_candidates-Fine n b cs g st (k, e, d) = (
  accept_candidates-Counted cs g st k,
  accept_candidates-count cs g st ∙ e,
  accept_candidates-failed cs g st ∙ d,
)

unless_failed-Fine :
    (n : ℕ) (b : Bool) (f : Option Failure) (x y : Accepted)
    → Fine n b x.wire
    → Fine n b y.wire
    → Fine n b (unless_failed f x y).wire
unless_failed-Fine n b none x y h g = g
unless_failed-Fine n b (some f) x y h g = h

pub accept_chunk-Fine :
    (n : ℕ) (b : Bool) (c : Chunk) (g : GeminiWire) (st : CaptureStats)
    → Fine n b g
    → Fine n b (accept_chunk c g st).wire
unfolding accept_chunk
accept_chunk-Fine n b c g st k =
    let a = accept_candidates c.candidates (record g { chunk = (g.chunk + 1) % 2 ^ 64 }) st in
    let ok =
      accept_candidates-Fine n b c.candidates (record g { chunk = (g.chunk + 1) % 2 ^ 64 }) st k in
    unless_failed-Fine n b a.fail a _ ok (
      accept_usage-Fine n b c.usage_metadata _ _
        (accept_feedback-Fine n b c.prompt_feedback a.wire a.stats ok))
