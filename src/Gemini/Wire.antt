-- ===== src/Gemini/Wire.antt =====
-- The wire of Gemini: `geminiWire` of gemini.go, a state machine over the chunks of a stream. The
-- count of chunks is a 64-bit word.
pub mod Counted
pub mod Complete
pub mod Ended
use steady_proxy.Base.{
  ℕ, ◌+◌, ◌-◌, ◌%◌, ◌^◌, Bool, true, false, not, ◌&&◌, ◌||◌, List, [], ◌∷◌, Option, none, some, min,
  ℤ, pos, negsuc, ◌+ℤ◌, ◌-ℤ◌, wrap64, pos_part, is_positive, is_negative, Text, text, is_nil,
  str_eq, trim_space, has_prefix, leb, ltb, ◌==◌, if◌then◌else◌,
}
use steady_proxy.Classify.Codec.{Codec}
use steady_proxy.Failure.{Failure}
use steady_proxy.Gemini.Decimal.{GeminiLib}
use steady_proxy.Gemini.Errors.{classify_gemini_sse_error}
use steady_proxy.Gemini.Object.{Candidate, Chunk, Usage, gemini_settings_of, gemini_chunk}
use steady_proxy.Json.{JsonLib}
use steady_proxy.Sse.Parser.{Event}
use steady_proxy.Sse.ToolJson.{malformed_sse}
use steady_proxy.Sse.Usage.{set_input_usage}
use steady_proxy.Sse.Wire.{CaptureStats, Ingest}

-- `geminiCandidateState`.
pub record CandidateState : Type 0 where
  pub chunk : ℕ
  pub finished : Bool

-- `geminiWire`; the states of the candidates by index.
pub record GeminiWire : Type 0 where
  pub candidate_count : ℕ
  pub candidates : List (ℕ × CandidateState)
  pub chunk : ℕ
  pub finished : ℕ
  pub blocked : Bool
  pub failed : Bool
  pub saw_content : Bool
  pub candidate_tokens : ℤ
  pub thought_tokens : ℤ

-- `newGeminiWire`, by the count of the request's candidates.
abbrev pub wire_for : ℕ → GeminiWire
wire_for n = record {
  candidate_count = n;
  candidates = [];
  chunk = 0;
  finished = 0;
  blocked = false;
  failed = false;
  saw_content = false;
  candidate_tokens = pos 0;
  thought_tokens = pos 0;
}

pub new_gemini_wire : JsonLib → GeminiLib → Text → GeminiWire
new_gemini_wire json lib body =
    wire_for (pos_part (gemini_settings_of json lib body).candidate_count)

-- `g.candidates[index]`, and its update.
unfoldable pub state_of : ℕ → List (ℕ × CandidateState) → CandidateState
state_of i [] = record { chunk = 0; finished = false }
state_of i ((j, s) ∷ m) = let rest = state_of i m in if j == i then s else rest

unfoldable pub set_state :
    ℕ → CandidateState → List (ℕ × CandidateState) → List (ℕ × CandidateState)
set_state i t [] = (i, t) ∷ []
set_state i t ((j, s) ∷ m) =
    let rest = set_state i t m in if j == i then (i, t) ∷ m else (j, s) ∷ rest

-- A reason that is given, and is not the unspecified one.
unfoldable pub reason_given : Text → Text → Bool
reason_given unspecified reason = not (is_nil reason) && not (str_eq reason unspecified)

-- The wire and the facts behind an event, and its failure.
pub record Accepted : Type 0 where
  pub wire : GeminiWire
  pub stats : CaptureStats
  pub fail : Option Failure

abbrev has_parts : Candidate → Bool
has_parts c = elim c.content [ none ↦ false | some n ↦ ltb 0 n ]

refuse : GeminiWire → CaptureStats → Text → Accepted
refuse g st why = record { wire = g; stats = st; fail = some (malformed_sse why) }

-- The part of the loop behind the checks, at an index in range.
unfoldable pub note_candidate : ℕ → Candidate → GeminiWire → GeminiWire
note_candidate i c g =
    let held = state_of i g.candidates in
    let ends = reason_given (text "FINISH_REASON_UNSPECIFIED") c.finish_reason in
    let state = record held { chunk = g.chunk; finished = held.finished || ends } in
    record g {
      candidates = set_state i state g.candidates;
      finished = if ends && not held.finished then g.finished + 1 else g.finished;
      saw_content = g.saw_content || has_parts c;
    }

note_stop : Text → Text → CaptureStats → CaptureStats
note_stop unspecified reason st =
    if reason_given unspecified reason then record st { stop = reason } else st

-- The loop over the candidates of a chunk.
unfoldable pub accept_candidates : List (Option Candidate) → GeminiWire → CaptureStats → Accepted
unfolding refuse note_candidate note_stop
accept_candidates [] g st = record { wire = g; stats = st; fail = none }
accept_candidates (none ∷ cs) g st = refuse g st (text "Gemini stream candidate is not an object")
accept_candidates (some c ∷ cs) g st =
    let i = pos_part c.index in
    let held = state_of i g.candidates in
    let rest =
      accept_candidates cs (note_candidate i c g)
        (note_stop (text "FINISH_REASON_UNSPECIFIED") c.finish_reason st) in
    if is_negative c.index || leb g.candidate_count i
    then refuse g st (text "Gemini stream candidate index is outside the requested range")
    else if held.chunk == g.chunk
    then refuse g st (text "duplicate Gemini candidate index in stream event")
    else if has_parts c && held.finished
    then refuse g st (text "Gemini stream candidate content follows its finish reason")
    else rest

-- `PromptFeedback`.
unfoldable pub accept_feedback : Option Text → GeminiWire → CaptureStats → GeminiWire × CaptureStats
unfolding note_stop
accept_feedback none g st = (g, st)
accept_feedback (some reason) g st = (
  record g { blocked = g.blocked || reason_given (text "BLOCK_REASON_UNSPECIFIED") reason },
  note_stop (text "BLOCK_REASON_UNSPECIFIED") reason st,
)

-- A cumulative count, where it is there and not negative.
latest : Option ℤ → ℤ → ℤ
latest none held = held
latest (some n) held = if is_negative n then held else n

min_ℤ : ℤ → ℤ → ℤ
min_ℤ a b = if is_negative (b -ℤ a) then b else a

-- The input counts: the prompt's count holds the cached ones.
unfoldable pub accept_input : Usage → CaptureStats → CaptureStats
unfolding min_ℤ
accept_input u st =
    let cached = min_ℤ (pos (pos_part u.cached_content_token_count)) u.prompt_token_count in
    if is_positive u.prompt_token_count
    then set_input_usage (u.prompt_token_count -ℤ cached) (pos 0) cached st
    else st

-- `UsageMetadata`.
unfoldable pub accept_usage : Option Usage → GeminiWire → CaptureStats → GeminiWire × CaptureStats
unfolding accept_input latest
accept_usage none g st = (g, st)
accept_usage (some u) g st =
    let said = latest u.candidates_token_count g.candidate_tokens in
    let thought = latest u.thoughts_token_count g.thought_tokens in
    (
      record g { candidate_tokens = said; thought_tokens = thought },
      record (accept_input u st) { out_tok = wrap64 (said +ℤ thought) },
    )

abbrev pub unless_failed : Option Failure → Accepted → Accepted → Accepted
unless_failed none a next = next
unless_failed (some f) a next = a

-- The part of `accept` behind the decoding and the error.
unfoldable pub accept_chunk : Chunk → GeminiWire → CaptureStats → Accepted
unfolding accept_candidates accept_feedback accept_usage
accept_chunk c g st =
    let a = accept_candidates c.candidates (record g { chunk = (g.chunk + 1) % 2 ^ 64 }) st in
    let (h, su) = accept_feedback c.prompt_feedback a.wire a.stats in
    let named = record su {
      model = if is_nil c.model_version then su.model else c.model_version;
    } in
    let (w, sv) = accept_usage c.usage_metadata h named in
    unless_failed a.fail a (record { wire = w; stats = sv; fail = none })

has_error : Chunk → Bool
has_error c = not (is_nil c.error_raw) && not (str_eq c.error_raw (text "null"))

abbrev pub failed_by : Option Failure → GeminiWire → GeminiWire
failed_by none g = g
failed_by (some f) g = record g { failed = true }

module _ (json : JsonLib) (lib : GeminiLib) (codec : Codec) where
  accept_decoded : Event → Text → Option Chunk → GeminiWire → CaptureStats → Accepted
  unfolding has_error refuse
  accept_decoded ev trimmed none g st =
      refuse g st (text "invalid JSON or field shape in Gemini stream event")
  accept_decoded ev trimmed (some c) g st =
      if str_eq ev.name (text "error") || has_error c
      then record {
        wire = g;
        stats = st;
        fail = some (classify_gemini_sse_error json lib codec trimmed);
      }
      else accept_chunk c g st

  -- `accept`.
  unfoldable pub gemini_accept : Event → GeminiWire → CaptureStats → Accepted
  unfolding accept_decoded refuse
  gemini_accept ev g st =
      let trimmed = trim_space ev.data_text in
      if is_nil ev.data_text && not (str_eq ev.name (text "error"))
      then record { wire = g; stats = st; fail = none }
      else if not (has_prefix trimmed (text "{"))
      then refuse g st (text "Gemini stream event is not a JSON object")
      else accept_decoded ev trimmed (gemini_chunk json lib trimmed) g st

  -- `buffered`.
  unfoldable pub gemini_buffered : GeminiWire → Event → CaptureStats → Ingest GeminiWire
  gemini_buffered g ev st =
      let a = gemini_accept ev g st in
      record {
        wire = failed_by a.fail a.wire;
        stats = a.stats;
        forward = [];
        done = false;
        fail = a.fail;
      }

  -- `live`.
  unfoldable pub gemini_live : GeminiWire → Event → CaptureStats → Ingest GeminiWire
  gemini_live g ev st =
      let a = gemini_accept ev g st in
      let sent : Ingest GeminiWire = record {
        wire = failed_by a.fail a.wire;
        stats = a.stats;
        forward = ev.raw ∷ [];
        done = false;
        fail = none;
      } in
      elim a.fail [
        | none ↦ sent
        | some f ↦
            if f.transient
            then record sent { forward = []; fail = some f }
            else record sent { fail = some (record f { delivered = true }) }
      ]

-- `completeOnEOF`.
unfoldable pub complete_on_eof : GeminiWire → Bool
complete_on_eof g =
    if g.blocked
    then not g.failed && is_nil g.candidates
    else not g.failed && g.finished == g.candidate_count
