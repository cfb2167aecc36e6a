-- ===== src/Responses/Wire/Outcome.antt =====
-- What an event does to a buffered stream and to a live one.
use steady_proxy.Base.{
  ℕ, Bool, true, false, ◌&&◌, text, str_eq, if◌then◌else◌, [], ◌∷◌, Option, none, some, Text, ◌≡◌,
  refl, Bool-cases, inl, inr, ◌⊎◌,
}
use steady_proxy.Failure.{Failure}
use steady_proxy.Json.{JsonLib}
use steady_proxy.Responses.Event.{
  responses_event_type, responses_terminal_valid, is_responses_error_frame,
  is_responses_output_event, parse_responses_error, is_codex_recoverable_error,
}
use steady_proxy.Responses.Fault.{classify_responses_error}
use steady_proxy.Responses.Wire.{
  OpenaiWire, classify_responses_frame, is_terminal, openai_buffered, openai_live,
}
use steady_proxy.Sse.Parser.{Event}
use steady_proxy.Sse.Wire.{CaptureStats, Ingest}

-- The live stream beside the buffered one at an event. `native` is that the event is a failure that
-- Codex handles by itself, `fault` the failure that it tells of, `is_error` that it tells of one.
abbrev pub Fits :
    Text → Bool → Bool → Failure → Option Failure → Ingest OpenaiWire → Ingest OpenaiWire → Type 0
Fits raw is_error native fault none b l =
    (l.forward ≡ raw ∷ [])
    × (l.done ≡ b.done)
    × (l.fail ≡ (if is_error && native then some (record fault { delivered = true }) else none))
Fits raw is_error native fault (some f) b l =
    (is_error && native ≡ false)
    × (((f.transient ≡ true)
          × (l.forward ≡ (if is_error then [] else raw ∷ []))
          × (l.done ≡ false)
          × (l.fail ≡ some f))
        ⊎ ((f.transient ≡ false)
            × (l.forward ≡ raw ∷ [])
            × (l.done ≡ true)
            × (l.fail ≡ some (record f { delivered = true }))))

module _ (json : JsonLib) (message_delay : Text → ℕ) where
  -- A failure of the upstream that Codex handles by itself.
  abbrev pub is_native : Event → Text → Bool
  is_native ev t =
      str_eq t (text "response.failed")
      && is_codex_recoverable_error (parse_responses_error json ev t).1

  -- What an event does to a live stream beside what it does to a buffered one. Where the buffered stream
  -- has no failure, the live one forwards the event, is done exactly if the buffered one is, and has no
  -- failure, but at a failure that Codex handles by itself it has this one, marked as delivered; at
  -- no such event does the buffered stream fail. Where the buffered stream has a transient failure, so
  -- has the live one, which is not done, and which withholds the event if this is an error of the
  -- upstream and forwards an invalid end of the stream; where it has a final one, the live stream
  -- forwards the upstream's own event, is done, and the failure is marked as delivered.
  pub openai_live-Fits :
      (o : OpenaiWire) (ev : Event) (st : CaptureStats)
      → Fits ev.raw
          (is_responses_error_frame (responses_event_type json ev))
          (is_native ev (responses_event_type json ev))
          (classify_responses_frame json message_delay ev (responses_event_type json ev)).0
          (openai_buffered json message_delay o ev st).fail
          (openai_buffered json message_delay o ev st)
          (openai_live json message_delay o ev st)
  unfolding openai_buffered openai_live classify_responses_frame
  openai_live-Fits o ev st =
      let t = responses_event_type json ev in
      let (typ, code, msg) = parse_responses_error json ev t in
      let native = str_eq t (text "response.failed") && is_codex_recoverable_error code in
      let f = classify_responses_error message_delay typ code msg in
      elim (Bool-cases (is_responses_error_frame t)) [
        | inl y ↦ elim (Bool-cases native) [
          | inl e ↦ elim (Bool-cases f.transient) [
            | inl tr ↦ rw (y, e, tr) (refl, refl, refl)
            | inr tr ↦ rw (y, e, tr) (refl, refl, refl)
          ]
          | inr e ↦ elim (Bool-cases f.transient) [
            | inl tr ↦ rw (y, e, tr) (refl, inl (refl, refl, refl, refl))
            | inr tr ↦ rw (y, e, tr) (refl, inr (refl, refl, refl, refl))
          ]
        ]
        | inr n ↦ elim (Bool-cases (is_terminal t)) [
          | inl y ↦ elim (Bool-cases (responses_terminal_valid json ev t)) [
            | inl v ↦ rw (n, y, v) (refl, refl, refl)
            | inr v ↦ rw (n, y, v) (refl, inl (refl, refl, refl, refl))
          ]
          | inr m ↦ elim (Bool-cases (is_responses_output_event t)) [
            | inl v ↦ rw (n, m, v) (refl, refl, refl)
            | inr v ↦ rw (n, m, v) (refl, refl, refl)
          ]
        ]
      ]
