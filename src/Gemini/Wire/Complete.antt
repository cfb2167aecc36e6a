-- ===== src/Gemini/Wire/Complete.antt =====
-- A stream that is complete has answered in full.
use steady_proxy.Base.{
  ℕ, zero, suc, ◌≤◌, ◌<◌, Bool, true, false, not, ◌&&◌, ◌||◌, List, [], ◌∷◌, Option, none, some,
  Text, text, is_nil, str_eq, trim_space, has_prefix, ◌==◌, if◌then◌else◌, ◌≡◌, refl, sym, subst,
  arith, Bool-cases, inl, inr,
}
use steady_proxy.Classify.Codec.{Codec}
use steady_proxy.Failure.{Failure}
use steady_proxy.Gemini.Decimal.{GeminiLib}
use steady_proxy.Gemini.Object.{Chunk, gemini_chunk}
use steady_proxy.Gemini.Wire.{
  CandidateState, GeminiWire, wire_for, state_of, Accepted, has_error, refuse, accept_chunk,
  accept_decoded, gemini_accept, failed_by, gemini_buffered, complete_on_eof,
}
use steady_proxy.Gemini.Wire.Counted.{count, Counted, Fine, accept_chunk-Fine}
use steady_proxy.Json.{JsonLib}
use steady_proxy.Sse.Parser.{Event}
use steady_proxy.Sse.Wire.{CaptureStats}

abbrev succeeded : Option Failure → Bool
succeeded none = true
succeeded (some f) = false

count-le : (n : ℕ) (m : List (ℕ × CandidateState)) → count n m ≤ n
unfolding count
count-le zero m = omega arith
count-le (suc n) m = ground (arith, count-le n m)

-- If as many have finished as there are, each has.
count-all :
    (n i : ℕ) (m : List (ℕ × CandidateState))
    → count n m ≡ n
    → i < n
    → (state_of i m).finished ≡ true
unfolding count
count-all zero i m h l = absurd (omega (arith, l))
count-all (suc n) i m h l = elim (Bool-cases (i == n)) [
  | inl y ↦ ground (arith, y, h, count-le n m)
  | inr d ↦ count-all n i m (ground (arith, h, count-le n m)) (ground (arith, d, l))
]

branch-Fine :
    (n : ℕ) (b c : Bool) (x y : Accepted)
    → Fine n b x.wire
    → Fine n b y.wire
    → Fine n b (if c then x else y).wire
branch-Fine n b true x y h g = h
branch-Fine n b false x y h g = g

failed_by-Fine :
    (n : ℕ) (b : Bool) (f : Option Failure) (g : GeminiWire)
    → Fine n b g
    → Fine n (b || not (succeeded f)) (failed_by f g)
failed_by-Fine n b none g (k, e, d) = (k, e, ground (arith, d))
failed_by-Fine n b (some f) g (k, e, d) = (k, e, ground (arith, d))

count_none : (n : ℕ) → count n [] ≡ 0
unfolding count state_of
count_none zero = refl
count_none (suc n) = ground (arith, count_none n)

complete-counts :
    (g : GeminiWire)
    → Counted g
    → g.blocked ≡ false
    → complete_on_eof g ≡ true
    → (count g.candidate_count g.candidates ≡ g.candidate_count) × (g.failed ≡ false)
unfolding complete_on_eof
complete-counts g k unblocked done = ground (arith, k, unblocked, done)

module _ (json : JsonLib) (lib : GeminiLib) (codec : Codec) where
  -- The events of a buffered stream.
  unfoldable pub run : List Event → GeminiWire → CaptureStats → GeminiWire
  run [] g st = g
  run (ev ∷ evs) g st = let r = gemini_buffered json lib codec g ev st in run evs r.wire r.stats

  -- No event fails.
  unfoldable pub all_succeed : List Event → GeminiWire → CaptureStats → Bool
  all_succeed [] g st = true
  all_succeed (ev ∷ evs) g st =
      let r = gemini_buffered json lib codec g ev st in
      succeeded r.fail && all_succeed evs r.wire r.stats

  accept_decoded-Fine :
      (n : ℕ) (b : Bool) (ev : Event) (t : Text) (c : Option Chunk) (g : GeminiWire)
      (st : CaptureStats)
      → Fine n b g
      → Fine n b (accept_decoded json lib codec ev t c g st).wire
  unfolding accept_decoded refuse
  accept_decoded-Fine n b ev t none g st k = k
  accept_decoded-Fine n b ev t (some c) g st k =
      branch-Fine n b (str_eq ev.name (text "error") || has_error c) _ (accept_chunk c g st) k
        (accept_chunk-Fine n b c g st k)

  gemini_accept-Fine :
      (n : ℕ) (b : Bool) (ev : Event) (g : GeminiWire) (st : CaptureStats)
      → Fine n b g
      → Fine n b (gemini_accept json lib codec ev g st).wire
  unfolding gemini_accept refuse
  gemini_accept-Fine n b ev g st k =
      let t = trim_space ev.data_text in
      branch-Fine n b (is_nil ev.data_text && not (str_eq ev.name (text "error"))) _ _ k (
        branch-Fine n b (not (has_prefix t (text "{"))) _ _ k
          (accept_decoded-Fine n b ev t (gemini_chunk json lib t) g st k))

  run-Fine :
      (n : ℕ) (b : Bool) (evs : List Event) (g : GeminiWire) (st : CaptureStats)
      → Fine n b g
      → Fine n (b || not (all_succeed evs g st)) (run evs g st)
  unfolding run all_succeed gemini_buffered
  run-Fine n b [] g st (k, e, d) = (k, e, ground (arith, d))
  run-Fine n b (ev ∷ evs) g st k =
      let a = gemini_accept json lib codec ev g st in
      let next = failed_by a.fail a.wire in
      let (l, e, d) =
        run-Fine n (b || not (succeeded a.fail)) evs next a.stats
          (failed_by-Fine n b a.fail a.wire (gemini_accept-Fine n b ev g st k)) in
      (l, e, ground (arith, d))

  -- When a buffered Gemini stream with no block of the prompt counts as complete at its end, every
  -- candidate that the request asked for has finished, and no event of the stream has failed.
  pub complete_on_eof-finished :
      (n : ℕ) (evs : List Event) (st : CaptureStats)
      → (run evs (wire_for n) st).blocked ≡ false
      → complete_on_eof (run evs (wire_for n) st) ≡ true
      → ((i : ℕ) → i < n → (state_of i (run evs (wire_for n) st).candidates).finished ≡ true)
        × (all_succeed evs (wire_for n) st ≡ true)
  complete_on_eof-finished n evs st unblocked done =
      let g = run evs (wire_for n) st in
      let (k, e, d) = run-Fine n false evs (wire_for n) st (sym (count_none n), refl, refl) in
      let (c, f) = complete-counts g k unblocked done in
      (
        (λ i l. count-all n i g.candidates (subst (λ m. count m g.candidates ≡ m) e c) l),
        ground (arith, f, d),
      )
