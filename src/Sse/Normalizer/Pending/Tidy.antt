-- ===== src/Sse/Normalizer/Pending/Tidy.antt =====
-- A block that has seen no delta has no input.
use steady_proxy.Base.{
  ◌+◌, Bool, true, false, not, List, ◌∷◌, Option, none, some, ℤ, eq_ℤ, Text, text, is_nil, length,
  str_eq, ltb, if◌then◌else◌, refl, sym, subst, arith,
}
use steady_proxy.Config.{Config}
use steady_proxy.Sse.Parser.{Event}
use steady_proxy.Sse.Normalizer.{
  Frame, ReplayBlock, new_block, Normalizer, Normalized, block_of, drop_block, take_block, or_new,
  extended, emit, stop_with, on_held, norm_start, norm_delta, hold, norm_stop, norm_payload,
  norm_decoded,
}
use steady_proxy.Sse.ToolJson.{
  Payload, Decoder, TruncVerdict, trunc_reject, trunc_wait, trunc_excused, valid_json_object,
  block_uses_input_json,
}
use steady_proxy.Sse.Normalizer.Pending.{block_of-drop_block, TidyBlock, Tidy}

branch-TidyBlock :
    (c : Bool) (x y : Option ReplayBlock)
    → TidyBlock x
    → TidyBlock y
    → TidyBlock (if c then x else y)
branch-TidyBlock true x y h g = h
branch-TidyBlock false x y h g = g

drop_block-Tidy :
    (j : ℤ) (n : Normalizer) → Tidy n → (i : ℤ) → TidyBlock (block_of i (drop_block j n.blocks))
drop_block-Tidy j n h i =
    subst TidyBlock (sym (block_of-drop_block i j n.blocks))
      (branch-TidyBlock (eq_ℤ i j) none (block_of i n.blocks) tt (h i))

put_block-Tidy :
    (j : ℤ) (b : ReplayBlock) (n : Normalizer)
    → TidyBlock (some b)
    → Tidy n
    → (i : ℤ) → TidyBlock (block_of i ((j, b) ∷ drop_block j n.blocks))
unfolding block_of
put_block-Tidy j b n k h i =
    branch-TidyBlock (eq_ℤ i j) (some b) (block_of i (drop_block j n.blocks)) k
      (drop_block-Tidy j n h i)

branch-Tidy :
    (c : Bool) (x y : Normalized) → Tidy x.norm → Tidy y.norm → Tidy (if c then x else y).norm
branch-Tidy true x y h g = h
branch-Tidy false x y h g = g

module _ (cfg : Config) (json : Decoder) (encode : ℤ → Text → Text) where
  on_held-Tidy :
      (frames : List Frame) (v : TruncVerdict) (raw : Text) (n : Normalizer)
      → Tidy n
      → Tidy (on_held cfg json encode frames v raw n).norm
  unfolding on_held emit stop_with
  on_held-Tidy frames trunc_reject raw n h = h
  on_held-Tidy frames trunc_excused raw n h = h
  on_held-Tidy frames trunc_wait raw n h =
      branch-Tidy (ltb cfg.max_response_bytes (n.retained_bytes + length raw)) _ _ h h

  norm_start-Tidy :
      (p : Payload) (raw : Text) (n : Normalizer)
      → Tidy n
      → Tidy (norm_start cfg json encode p raw n).norm
  unfolding norm_start emit take_block
  norm_start-Tidy p raw n h =
      branch-Tidy (block_uses_input_json p.block_type) _ _
        (put_block-Tidy p.index new_block n (λ e. refl) h) h

  norm_delta-Tidy :
      (p : Payload) (raw : Text) (n : Normalizer)
      → Tidy n
      → Tidy (norm_delta cfg json encode p raw n).norm
  unfolding norm_delta emit stop_with extended
  norm_delta-Tidy p raw n h =
      let b = extended raw p.partial_json (or_new (block_of p.index n.blocks)) in
      branch-Tidy (not (str_eq p.delta_type (text "input_json_delta"))) _ _ h (
        branch-Tidy (ltb cfg.max_response_bytes (n.retained_bytes + length raw)) _ _ h
          (put_block-Tidy p.index b n (λ e. ground (arith, e)) h))

  norm_stop-Tidy :
      (j : ℤ) (o : Option ReplayBlock) (raw : Text) (t : Normalizer)
      → Tidy t
      → Tidy (norm_stop cfg json encode j o raw t).norm
  unfolding norm_stop hold emit stop_with
  norm_stop-Tidy j none raw t h = h
  norm_stop-Tidy j (some b) raw t h = branch-Tidy (not b.saw_input_delta) _ _ h (
      branch-Tidy (is_nil b.input) _ _ h
        (branch-Tidy (not (valid_json_object cfg json b.input)) _ _ (branch-Tidy _ _ _ h h) h))

  norm_payload-Tidy :
      (p : Payload) (raw : Text) (n : Normalizer)
      → Tidy n
      → Tidy (norm_payload cfg json encode p raw n).norm
  unfolding norm_payload emit take_block
  norm_payload-Tidy p raw n h =
      branch-Tidy (str_eq p.kind (text "content_block_start")) _ _ (norm_start-Tidy p raw n h) (
        branch-Tidy (str_eq p.kind (text "content_block_delta")) _ _ (norm_delta-Tidy p raw n h) (
          branch-Tidy (str_eq p.kind (text "content_block_stop")) _ _
            (norm_stop-Tidy p.index (block_of p.index n.blocks) raw (take_block p.index n)
              (drop_block-Tidy p.index n h))
            h))

  pub norm_decoded-Tidy :
      (ev : Event) (payload : Option Payload) (held : Option (List Frame)) (raw : Text)
      (n : Normalizer)
      → Tidy n
      → Tidy (norm_decoded cfg json encode ev payload held raw n).norm
  unfolding norm_decoded emit stop_with
  norm_decoded-Tidy ev none none raw n h = h
  norm_decoded-Tidy ev none (some frames) raw n h = h
  norm_decoded-Tidy ev (some p) (some frames) raw n h = on_held-Tidy frames _ raw n h
  norm_decoded-Tidy ev (some p) none raw n h =
      branch-Tidy (is_nil ev.data_text) _ _ h (norm_payload-Tidy p raw n h)
