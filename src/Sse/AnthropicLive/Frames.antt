-- ===== src/Sse/AnthropicLive/Frames.antt =====
-- What a live Anthropic stream forwards where it fails.
use steady_proxy.Base.{
  Bool, true, false, not, ◌&&◌, ◌||◌, List, [], ◌∷◌, Option, none, some, ℤ, Text, text, str_eq,
  if◌then◌else◌, ◌≡◌, refl, Bool-cases, inl, inr, ◌⊎◌,
}
use steady_proxy.Classify.Codec.{Codec}
use steady_proxy.Classify.Sse.{classify_sse_error}
use steady_proxy.Config.{Config}
use steady_proxy.Failure.{Failure}
use steady_proxy.Sse.AnthropicLive.{
  LiveWire, Lived, drop_with, after_norm, forward_event, after_tool, on_error, after_shape,
  anthropic_live,
}
use steady_proxy.Sse.Normalizer.{Frame, NormError, normalize}
use steady_proxy.Sse.Parser.{Event}
use steady_proxy.Sse.ToolJson.{Decoder, accept_tool, validate_sse_event_shape}

-- Whether a failure is none.
abbrev accepted : Option Failure → Bool
accepted none = true
accepted (some f) = false

-- Nothing of an event that fails gets out, and the stream is not complete.
abbrev pub Withheld : Lived → Type 0
Withheld r = (r.fail ≡ none) ⊎ ((r.forward ≡ []) × (r.is_done ≡ false))

-- A final failure goes out with the event as it was, marked as delivered.
abbrev pub Delivered : Event → Failure → Lived → Type 0
Delivered ev f r =
    (r.forward ≡ ev.raw ∷ [])
    × (r.is_done ≡ false)
    × (r.fail ≡ some (record f { delivered = true }))

-- What holds of an event, by whether it is a final error of the upstream.
abbrev pub Treated : Bool → Event → Failure → Lived → Type 0
Treated true ev f r = Delivered ev f r
Treated false ev f r = Withheld r

branch-Withheld : (b : Bool) (x y : Lived) → Withheld x → Withheld y → Withheld (if b then x else y)
branch-Withheld true x y h g = h
branch-Withheld false x y h g = g

module _ (cfg : Config) (codec : Codec) (json : Decoder) (encode : ℤ → Text → Text) where
  -- The event is an error of the upstream that is well-formed where that is checked, and final.
  abbrev pub is_final_error : Event → Bool
  is_final_error ev =
      str_eq ev.name (text "error")
      && (not cfg.validate_json || accepted (validate_sse_event_shape ev))
      && not (classify_sse_error codec ev.data_text).transient

  after_norm-Withheld :
      (ev : Event) (e : Option NormError) (frames : List Frame) (w : LiveWire)
      → Withheld (after_norm cfg codec json encode ev e frames w)
  unfolding after_norm drop_with
  after_norm-Withheld ev none frames w = inl refl
  after_norm-Withheld ev (some e) frames w = inr (refl, refl)

  forward_event-Withheld :
      (ev : Event) (w : LiveWire) → Withheld (forward_event cfg codec json encode ev w)
  unfolding forward_event
  forward_event-Withheld ev w =
      let r = normalize cfg json encode ev ev.raw w.tool_norm in
      branch-Withheld w.stream_tool_deltas _ _ (inl refl)
        (after_norm-Withheld ev r.error r.out (record w { tool_norm = r.norm }))

  after_tool-Withheld :
      (ev : Event) (f : Option Failure) (w : LiveWire)
      → Withheld (after_tool cfg codec json encode ev f w)
  unfolding after_tool drop_with
  after_tool-Withheld ev none w = forward_event-Withheld ev w
  after_tool-Withheld ev (some f) w = inr (refl, refl)

  -- By whether the failure is transient.
  error-Treated :
      (b : Bool) (ev : Event) (f : Failure) (w : LiveWire)
      → Treated (not b) ev f (
          if b then drop_with w f else record {
            wire = w;
            forward = ev.raw ∷ [];
            is_done = false;
            fail = some (record f { delivered = true });
          })
  unfolding drop_with
  error-Treated true ev f w = inr (refl, refl)
  error-Treated false ev f w = (refl, refl, refl)

  on_error-Treated :
      (ev : Event) (w : LiveWire)
      → Treated
          (not (classify_sse_error codec ev.data_text).transient)
          ev
          (classify_sse_error codec ev.data_text)
          (on_error cfg codec json encode ev w)
  unfolding on_error
  on_error-Treated ev w =
      let f = classify_sse_error codec ev.data_text in error-Treated f.transient ev f w

  after_shape-Treated :
      (ev : Event) (f : Option Failure) (w : LiveWire)
      → Treated
          (str_eq ev.name (text "error")
            && accepted f
            && not (classify_sse_error codec ev.data_text).transient)
          ev
          (classify_sse_error codec ev.data_text)
          (after_shape cfg codec json encode ev f w)
  unfolding after_shape drop_with
  after_shape-Treated ev (some f) w = elim (Bool-cases (str_eq ev.name (text "error"))) [
    | inl y ↦ rw y (inr (refl, refl))
    | inr n ↦ rw n (inr (refl, refl))
  ]
  after_shape-Treated ev none w =
      let t = accept_tool cfg json ev w.base.tool_val in
      let a = w.base in
      let checked = record w { base = record a { tool_val = t.0 } } in
      elim (Bool-cases (str_eq ev.name (text "error"))) [
        | inl y ↦ rw y (on_error-Treated ev w)
        | inr n ↦ rw n (
            branch-Withheld cfg.validate_json _ _ (after_tool-Withheld ev t.1 checked)
              (forward_event-Withheld ev w))
      ]

  -- By whether the shape is checked.
  shape-Treated :
      (b : Bool) (ev : Event) (f : Option Failure) (w : LiveWire)
      → Treated
          (str_eq ev.name (text "error")
            && (not b || accepted f)
            && not (classify_sse_error codec ev.data_text).transient)
          ev
          (classify_sse_error codec ev.data_text)
          (after_shape cfg codec json encode ev (if b then f else none) w)
  shape-Treated true ev f w = after_shape-Treated ev f w
  shape-Treated false ev f w = after_shape-Treated ev none w

  -- At an event of a live Anthropic stream: a final error of the upstream itself, well-formed where
  -- that is checked, goes out as it was, and its failure is marked as delivered; where the stream
  -- fails at any other event, nothing of it goes out; and in both cases the stream is not complete.
  pub anthropic_live-Treated :
      (ev : Event) (w : LiveWire)
      → Treated
          (is_final_error ev)
          ev
          (classify_sse_error codec ev.data_text)
          (anthropic_live cfg codec json encode ev w)
  unfolding anthropic_live
  anthropic_live-Treated ev w = shape-Treated cfg.validate_json ev (validate_sse_event_shape ev) w
