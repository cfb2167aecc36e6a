-- ===== src/Sse/Usage/Totals.antt =====
-- The total of a stream's input tokens.
use steady_proxy.Base.{
  Bool, true, false, ◌||◌, none, some, ℤ, pos, ◌+ℤ◌, wrap64, is_positive, text, is_nil, str_eq,
  if◌then◌else◌, ◌≡◌, refl, Option-cases, Bool-cases, inl, inr, ◌⊎◌,
}
use steady_proxy.Sse.Parser.{Event}
use steady_proxy.Sse.Wire.{CaptureStats}
use steady_proxy.Sse.Usage.{
  StartUsage, DeltaUsage, UsageLib, total_input_tokens, set_input_usage, on_message_start,
  merge_usage, merge_stop, on_message_delta, scrape_usage,
}

-- The total is the sum of the three counts, over 64 bits, and it is positive, or nothing has been counted yet.
abbrev pub Totalled : CaptureStats → Type 0
Totalled st =
    ((st.in_tok ≡ wrap64 (wrap64 (st.input_tok +ℤ st.cache_creation_tok) +ℤ st.cache_read_tok))
      × (is_positive st.in_tok ≡ true))
    ⊎ ((st.in_tok ≡ pos 0)
        × (st.input_tok ≡ pos 0)
        × (st.cache_creation_tok ≡ pos 0)
        × (st.cache_read_tok ≡ pos 0))

pub set_input_usage-Totalled :
    (input creation read : ℤ) (st : CaptureStats)
    → Totalled st
    → Totalled (set_input_usage input creation read st)
unfolding set_input_usage total_input_tokens
set_input_usage-Totalled input creation read st h =
    elim (Bool-cases (is_positive (wrap64 (wrap64 (input +ℤ creation) +ℤ read)))) [
      | inl e ↦ rw e (inl (refl, e))
      | inr e ↦ rw e h
    ]

pub branch-Totalled :
    (b : Bool) (x y : CaptureStats) → Totalled x → Totalled y → Totalled (if b then x else y)
branch-Totalled true x y h g = h
branch-Totalled false x y h g = g

module _ (lib : UsageLib) where
  on_message_start-Totalled :
      (m : StartUsage) (st : CaptureStats) → Totalled st → Totalled (on_message_start lib m st)
  unfolding on_message_start
  on_message_start-Totalled m st h =
      set_input_usage-Totalled m.input m.cache_creation m.cache_read _ h

  merge_usage-Totalled :
      (d : DeltaUsage) (st : CaptureStats) → Totalled st → Totalled (merge_usage lib d st)
  unfolding merge_usage
  merge_usage-Totalled d st h =
      let used = is_positive d.input || is_positive d.cache_creation || is_positive d.cache_read in
      elim (Bool-cases used) [
        | inl e ↦ rw e (set_input_usage-Totalled _ _ _ (record st { delta_input_usage = true }) h)
        | inr e ↦ rw e h
      ]

  merge_stop-Totalled :
      (d : DeltaUsage) (st : CaptureStats) → Totalled st → Totalled (merge_stop lib d st)
  unfolding merge_stop
  merge_stop-Totalled d st h = elim (Option-cases (lib.stop_details d.details)) [
    | inl e ↦ rw e (branch-Totalled (is_nil d.stop) _ _ h (branch-Totalled _ _ _ h h))
    | inr (p, e) ↦ rw e (branch-Totalled (is_nil d.stop) _ _ h (branch-Totalled _ _ _ h h))
  ]

  on_message_delta-Totalled :
      (d : DeltaUsage) (st : CaptureStats) → Totalled st → Totalled (on_message_delta lib d st)
  unfolding on_message_delta
  on_message_delta-Totalled d st h =
      let u = merge_usage lib d st in
      let k = merge_usage-Totalled d st h in
      merge_stop-Totalled d (if is_positive d.output then record u { out_tok = d.output } else u)
        (branch-Totalled (is_positive d.output) (record u { out_tok = d.output }) u k k)

  -- Whatever an event holds: where it was so before the event, the input total that is reported is
  -- the sum of the three counts that are reported, over 64 bits, and positive, or no input has been
  -- counted and all four are 0.
  pub scrape_usage-Totalled :
      (ev : Event) (st : CaptureStats) → Totalled st → Totalled (scrape_usage lib ev st)
  unfolding scrape_usage
  scrape_usage-Totalled ev st h =
      let start : Totalled (elim (lib.message_start ev.data_text) [
        | none ↦ st
        | some m ↦ on_message_start lib m st
      ]) =
        elim (Option-cases (lib.message_start ev.data_text)) [
          | inl e ↦ rw e h
          | inr (m, e) ↦ rw e (on_message_start-Totalled m st h)
        ] in
      let delta : Totalled (elim (lib.message_delta ev.data_text) [
        | none ↦ st
        | some d ↦ on_message_delta lib d st
      ]) =
        elim (Option-cases (lib.message_delta ev.data_text)) [
          | inl e ↦ rw e h
          | inr (d, e) ↦ rw e (on_message_delta-Totalled d st h)
        ] in
      branch-Totalled (str_eq ev.name (text "message_start")) _ _ start
        (branch-Totalled (str_eq ev.name (text "message_delta")) _ _ delta h)
