-- ===== src/Sse/Normalizer/Pending/Runs.antt =====
-- The normalizer over a stream: the input of a tool block comes out as it came in.
use mathlib.Core.List.{append-nil, append_assoc}
use steady_proxy.Base.{
  Bool, true, ◌&&◌, List, [], ◌∷◌, ◌++◌, Option, none, some, ℤ, Text, ◌≡◌, refl, ◌∙◌, ap, sym,
  subst, arith,
}
use steady_proxy.Config.{Config}
use steady_proxy.Sse.Parser.{Event}
use steady_proxy.Sse.Normalizer.{
  Normalizer, new_normalizer, NormError, Normalized, block_of, norm_decoded, normalize, payload_of,
}
use steady_proxy.Sse.ToolJson.{Decoder}
use steady_proxy.Sse.Normalizer.Pending.{
  frames_text, pending, Conserves, Tidy, frames_text-append, brings, fresh,
}
use steady_proxy.Sse.Normalizer.Pending.Steps.{norm_decoded-Conserves}
use steady_proxy.Sse.Normalizer.Pending.Tidy.{norm_decoded-Tidy}

abbrev pub followed : Option NormError → Normalized → Normalized → Normalized
followed none r rest = record rest { out = r.out ++ rest.out }
followed (some e) r rest = r

followed-Conserves :
    (i : ℤ) (before new later : Text) (o : Option NormError) (r rest : Normalized)
    → r.error ≡ o
    → Conserves i before new r
    → Conserves i (pending i r.norm) later rest
    → Conserves i before (new ++ later) (followed o r rest)
followed-Conserves i before new later (some e) r rest q h g ok = ground (arith, q, ok)
followed-Conserves i before new later none r rest q h g ok =
    let first = frames_text i r.out in
    let second = frames_text i rest.out in
    ap (λ t. t ++ pending i rest.norm) (frames_text-append i r.out rest.out)
    ∙ append_assoc first second (pending i rest.norm)
    ∙ ap (λ t. first ++ t) (g ok)
    ∙ sym (append_assoc first (pending i r.norm) later)
    ∙ ap (λ t. t ++ later) (h q)
    ∙ append_assoc before new later

module _ (cfg : Config) (json : Decoder) (encode : ℤ → Text → Text) where
  -- The events of a stream: what goes out, and the first error.
  unfoldable pub run : List Event → Normalizer → Normalized
  run [] n = record { norm = n; out = []; error = none }
  run (ev ∷ evs) n =
      let r = normalize cfg json encode ev ev.raw n in
      let rest = run evs r.norm in followed r.error r rest

  -- The input for block `i` that the events bring.
  unfoldable pub brought : ℤ → List Event → Normalizer → Text
  unfolding payload_of
  brought i [] n = []
  brought i (ev ∷ evs) n =
      let next = (normalize cfg json encode ev ev.raw n).norm in
      brings i n.held ev (payload_of cfg json encode ev) ++ brought i evs next

  -- Tool blocks start only where no input of their index is pending.
  unfoldable pub all_fresh : List Event → Normalizer → Bool
  unfolding payload_of
  all_fresh [] n = true
  all_fresh (ev ∷ evs) n =
      let next = (normalize cfg json encode ev ev.raw n).norm in
      fresh (payload_of cfg json encode ev) n && all_fresh evs next

  normalize-decoded :
      (ev : Event) (raw : Text) (n : Normalizer)
      → (cfg.validate_json && cfg.normalize_tool_json) ≡ true
      → normalize cfg json encode ev raw n
        ≡ norm_decoded cfg json encode ev (payload_of cfg json encode ev) n.held raw n
  unfolding normalize
  normalize-decoded ev raw n c = rw c refl

  run-Conserves :
      (i : ℤ) (evs : List Event) (n : Normalizer)
      → (cfg.validate_json && cfg.normalize_tool_json) ≡ true
      → Tidy n
      → all_fresh evs n ≡ true
      → Conserves i (pending i n) (brought i evs n) (run evs n)
  unfolding run brought all_fresh
  run-Conserves i [] n c h s ok = sym (append-nil (pending i n))
  run-Conserves i (ev ∷ evs) n c h s ok =
      let r = normalize cfg json encode ev ev.raw n in
      let p = payload_of cfg json encode ev in
      let same = sym (normalize-decoded ev ev.raw n c) in
      let tidy : Tidy r.norm =
        subst (λ x. Tidy x.norm) same (norm_decoded-Tidy cfg json encode ev p n.held ev.raw n h) in
      let first : Conserves i (pending i n) (brings i n.held ev p) r =
        subst (λ x. Conserves i (pending i n) (brings i n.held ev p) x) same
          (norm_decoded-Conserves cfg json encode i ev p n.held ev.raw n refl h
            (ground (arith, s))) in
      followed-Conserves i (pending i n) (brings i n.held ev p) (brought i evs r.norm) r.error r
        (run evs r.norm) refl first (run-Conserves i evs r.norm c tidy (ground (arith, s))) ok

  -- Where tool input is normalized, and no tool block starts over input of its own index that is
  -- still pending: as long as there is no error, the input of each block that has gone out, followed
  -- by what is held for it, is the input that the events have brought for it. Nothing is lost, doubled
  -- or reordered.
  pub run-brought :
      (i : ℤ) (evs : List Event)
      → (cfg.validate_json && cfg.normalize_tool_json) ≡ true
      → all_fresh evs new_normalizer ≡ true
      → (run evs new_normalizer).error ≡ none
      → frames_text i (run evs new_normalizer).out ++ pending i (run evs new_normalizer).norm
        ≡ brought i evs new_normalizer
  unfolding block_of
  run-brought i evs c s ok = run-Conserves i evs new_normalizer c (λ j. tt) s ok
