-- ===== src/Responses/Wire/Totals.antt =====
-- The token counts of a Responses stream.
use steady_proxy.Base.{
  Bool, true, false, refl, ◌≡◌, Bool-cases, inl, inr, ◌||◌, Option, none, some, ℤ, pos, ◌-ℤ◌,
  wrap64, is_positive, is_negative, Text, text, str_eq, if◌then◌else◌,
}
use steady_proxy.Json.{JsonLib}
use steady_proxy.Responses.Event.{responses_event_type}
use steady_proxy.Responses.Wire.{
  Snapshot, SnapshotLib, non_empty, stop_of, split_input, scrape_snapshot, on_created, on_ended,
  openai_scrape,
}
use steady_proxy.Sse.Parser.{Event}
use steady_proxy.Sse.Usage.Totals.{Totalled, set_input_usage-Totalled}
use steady_proxy.Sse.Usage.{set_input_usage, total_input_tokens}
use steady_proxy.Sse.Wire.{CaptureStats}

-- The total is the sum of its parts, and what is not cached is not negative.
abbrev pub Parts : CaptureStats → Type 0
Parts st = Totalled st × (is_negative st.input_tok ≡ false)

set_input_usage-Parts :
    (input creation read : ℤ) (st : CaptureStats)
    → is_negative input ≡ false
    → Parts st
    → Parts (set_input_usage input creation read st)
set_input_usage-Parts input creation read st g h = (
  set_input_usage-Totalled input creation read st h.0,
  unfold set_input_usage in
      elim (Bool-cases (is_positive (total_input_tokens input creation read))) [
        | inl e ↦ rw e g
        | inr e ↦ rw e h.1
      ],
)

branch-Parts : (b : Bool) (x y : CaptureStats) → Parts x → Parts y → Parts (if b then x else y)
branch-Parts true x y h g = h
branch-Parts false x y h g = g

split_input-Parts :
    (input cached : ℤ) (st : CaptureStats) → Parts st → Parts (split_input input cached st)
unfolding split_input
split_input-Parts input cached st h =
    let rest = wrap64 (input -ℤ cached) in
    elim (Bool-cases (is_negative rest)) [
      | inl y ↦ rw y (set_input_usage-Parts (pos 0) (pos 0) input st refl h)
      | inr n ↦ rw n (set_input_usage-Parts rest (pos 0) cached st n h)
    ]

scrape_snapshot-Parts :
    (typ : Text) (s : Snapshot) (st : CaptureStats) → Parts st → Parts (scrape_snapshot typ s st)
unfolding scrape_snapshot
scrape_snapshot-Parts typ s st h =
    let named = record st { model = non_empty s.model st.model; stop = stop_of typ s st.stop } in
    let counted = if is_positive s.input then split_input s.input s.cached named else named in
    let k : Parts counted =
      branch-Parts (is_positive s.input) (split_input s.input s.cached named) named
        (split_input-Parts s.input s.cached named h) h in
    branch-Parts (is_positive s.output) (record counted { out_tok = s.output }) counted k k

on_created-Parts : (m : Option Text) (st : CaptureStats) → Parts st → Parts (on_created m st)
unfolding on_created
on_created-Parts none st h = h
on_created-Parts (some m) st h = h

on_ended-Parts :
    (typ : Text) (s : Option Snapshot) (st : CaptureStats) → Parts st → Parts (on_ended typ s st)
unfolding on_ended
on_ended-Parts typ none st h = h
on_ended-Parts typ (some s) st h = scrape_snapshot-Parts typ s st h

module _ (json : JsonLib) (lib : SnapshotLib) where
  -- Whatever an event of a Responses stream holds, cached counts above the total included: where it
  -- was so before the event, the input total that is reported is the sum of the parts that are
  -- reported, over 64 bits, and positive, or no input has been counted and all of them are 0; and the
  -- part that is not cached is not negative.
  pub openai_scrape-Parts :
      (ev : Event) (st : CaptureStats) → Parts st → Parts (openai_scrape json lib ev st)
  unfolding openai_scrape
  openai_scrape-Parts ev st h =
      let typ = responses_event_type json ev in
      let ended = on_ended typ (lib.snapshot ev.data_text) st in
      let is_end =
        str_eq typ (text "response.completed")
        || str_eq typ (text "response.incomplete")
        || str_eq typ (text "response.failed") in
      branch-Parts
        (str_eq typ (text "response.created") || str_eq typ (text "response.in_progress"))
        (on_created (lib.created_model ev.data_text) st) (if is_end then ended else st)
        (on_created-Parts (lib.created_model ev.data_text) st h)
        (branch-Parts is_end ended st (on_ended-Parts typ (lib.snapshot ev.data_text) st h) h)
