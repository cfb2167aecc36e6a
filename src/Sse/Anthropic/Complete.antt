-- ===== src/Sse/Anthropic/Complete.antt =====
-- A stream that the wire calls complete is a message.
use steady_proxy.Base.{
  Bool, true, false, List, [], ◌∷◌, map, none, some, Text, is_nil, if◌then◌else◌, ◌≡◌, arith,
  Option-cases, inl, inr, subst,
}
use steady_proxy.Classify.Codec.{Codec}
use steady_proxy.Config.{Config}
use steady_proxy.Sse.Anthropic.{
  AnthropicWire, new_anthropic_wire, Judged, validate, check_tool, anthropic_buffered,
}
use steady_proxy.Sse.Parser.{Event}
use steady_proxy.Sse.ToolJson.{Decoder, accept_tool, validate_sse_event_shape}
use steady_proxy.Sse.Validator.{accept, terminal, kind_of}
use steady_proxy.Sse.Validator.Grammar.{Message, run, terminal-run}

module _ (cfg : Config) (codec : Codec) (json : Decoder) where
  -- Where there is no failure, the validator took the event, and is terminal where the stream is
  -- done.
  abbrev Took : Event → AnthropicWire → Judged → Type 0
  Took ev a r =
      r.fail ≡ none → (r.wire.val ≡ accept a.val ev) × (r.is_done ≡ terminal (accept a.val ev))

  validate-Took :
      (ev : Event) (stop : Text) (a : AnthropicWire) → Took ev a (validate cfg codec json ev stop a)
  unfolding validate
  validate-Took ev stop a h = ground (arith, h)

  check_tool-Took :
      (ev : Event) (stop : Text) (a : AnthropicWire)
      → Took ev a (check_tool cfg codec json ev stop a)
  unfolding check_tool
  check_tool-Took ev stop a h =
      let t = accept_tool cfg json ev a.tool_val in
      let b = record a { tool_val = t.0 } in
      elim (Option-cases t.1) [
        | inr (f, e) ↦ ground (arith, e, h, validate-Took ev stop a)
        | inl e ↦ ground (arith, e, h, validate-Took ev stop a, validate-Took ev stop b)
      ]

  anthropic_buffered-Took :
      (ev : Event) (stop : Text) (a : AnthropicWire)
      → Took ev a (anthropic_buffered cfg codec json ev stop a)
  unfolding anthropic_buffered
  anthropic_buffered-Took ev stop a h =
      let k = check_tool-Took ev stop a in
      elim (Option-cases (validate_sse_event_shape ev)) [
        | inl e ↦ ground (arith, e, h, k)
        | inr (f, e) ↦ ground (arith, e, h, k)
      ]

  -- The wire is done with the last of the events, each with the stop reason so far, and refuses none.
  unfoldable pub completes : List (Event × Text) → AnthropicWire → Bool
  unfolding anthropic_buffered
  completes [] a = false
  completes ((ev, stop) ∷ evs) a =
      let r = anthropic_buffered cfg codec json ev stop a in
      let rest = completes evs r.wire in
      elim r.fail [ some f ↦ false | none ↦ if r.is_done then is_nil evs else rest ]

  completes-terminal :
      (evs : List (Event × Text)) (a : AnthropicWire)
      → completes evs a ≡ true
      → terminal (run a.val (map (λ e. e.0) evs)) ≡ true
  unfolding completes run
  completes-terminal [] a h = absurd (ground (arith, h))
  completes-terminal ((ev, stop) ∷ []) a h =
      let r = anthropic_buffered cfg codec json ev stop a in
      elim (Option-cases r.fail) [
        | inl e ↦ ground (arith, e, h, (anthropic_buffered-Took ev stop a e).1)
        | inr (f, e) ↦ absurd (ground (arith, e, h))
      ]
  completes-terminal ((ev, stop) ∷ x ∷ evs) a h =
      let r = anthropic_buffered cfg codec json ev stop a in
      elim (Option-cases r.fail) [
        | inl e ↦
            let rest = completes-terminal (x ∷ evs) r.wire in
            let took = (anthropic_buffered-Took ev stop a e).0 in
            let behind : completes (x ∷ evs) r.wire ≡ true = ground (arith, e, h) in
            subst (λ v. terminal (run v (map (λ p. p.0) (x ∷ evs))) ≡ true) took (rest behind)
        | inr (f, e) ↦ absurd (ground (arith, e, h))
      ]

  -- Where the wire of a new stream refuses none of the events and is done with the last of them, and
  -- not before, they form a message: one start, balanced blocks and a stop. This holds whatever
  -- the settings, the JSON decoder and the stop reasons are.
  pub completes-Message :
      (intercept : Bool) (evs : List (Event × Text))
      → completes evs (new_anthropic_wire intercept) ≡ true
      → Message (map (λ ev. kind_of ev.name) (map (λ e. e.0) evs))
  completes-Message intercept evs h =
      (terminal-run (map (λ e. e.0) evs)).0
        (completes-terminal evs (new_anthropic_wire intercept) h)
