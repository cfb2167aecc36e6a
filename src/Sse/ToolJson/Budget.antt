-- ===== src/Sse/ToolJson/Budget.antt =====
-- The bytes that the validator retains.
use steady_proxy.Base.{
  ℕ, ◌+◌, ◌≤◌, List, [], ◌∷◌, length, length-append, ℤ, ◌≡◌, refl, arith, Option-cases, inl, inr,
}
use steady_proxy.Config.{Config}
use steady_proxy.Sse.Parser.{Event}
use steady_proxy.Sse.ToolJson.{
  Payload, Decoder, Block, ToolJson, block_at, without, input_length, TruncVerdict, trunc_wait,
  trunc_excused, trunc_reject, judge_truncated_tool_input, on_start, on_delta, on_stop, on_payload,
  on_truncated, accept_tool,
}

-- The bytes of input that the open blocks hold.
abbrev pub retained : List (ℤ × Block) → ℕ
retained [] = 0
retained ((i, b) ∷ bs) = length b.input + retained bs

retained-without :
    (i : ℤ) (bs : List (ℤ × Block))
    → retained (without i bs) + input_length (block_at i bs) ≡ retained bs
unfolding without block_at
retained-without i [] = refl
retained-without i ((j, b) ∷ bs) = ground (arith, retained-without i bs)

-- The count is of the bytes that are held, and they are in the bound.
abbrev pub Counted : Config → ToolJson → Type 0
Counted cfg v = (v.input_bytes ≡ retained v.blocks) × (v.input_bytes ≤ cfg.max_response_bytes)

module _ (cfg : Config) (json : Decoder) where
  on_start-Counted :
      (p : Payload) (v : ToolJson) → Counted cfg v → Counted cfg (on_start cfg json p v).0
  unfolding on_start
  on_start-Counted p v h = ground (arith, h, retained-without p.index v.blocks)

  on_delta-Counted :
      (p : Payload) (v : ToolJson) → Counted cfg v → Counted cfg (on_delta cfg json p v).0
  unfolding on_delta
  on_delta-Counted p v h = elim (Option-cases (block_at p.index v.blocks)) [
    | inl e ↦ ground (arith, e, h, retained-without p.index v.blocks)
    | inr (b, e) ↦
        ground
          (arith, e, h, retained-without p.index v.blocks, length-append b.input p.partial_json)
  ]

  on_stop-Counted :
      (p : Payload) (v : ToolJson) → Counted cfg v → Counted cfg (on_stop cfg json p v).0
  unfolding on_stop
  on_stop-Counted p v h = elim (Option-cases (block_at p.index v.blocks)) [
    | inl e ↦ ground (arith, e, h)
    | inr (b, e) ↦ ground (arith, e, h, retained-without p.index v.blocks)
  ]

  on_payload-Counted :
      (p : Payload) (v : ToolJson) → Counted cfg v → Counted cfg (on_payload cfg json p v).0
  unfolding on_payload
  on_payload-Counted p v h =
      ground (arith, h, on_start-Counted p v h, on_delta-Counted p v h, on_stop-Counted p v h)

  on_truncated-Counted :
      (t : TruncVerdict) (v : ToolJson) → Counted cfg v → Counted cfg (on_truncated cfg json t v).0
  unfolding on_truncated
  on_truncated-Counted trunc_wait v h = h
  on_truncated-Counted trunc_excused v h = h
  on_truncated-Counted trunc_reject v h = h

  -- Where the count of retained input bytes is right and in the bound, it is so behind every event,
  -- whether or not the validator accepts it.
  pub accept_tool-Counted :
      (ev : Event) (v : ToolJson) → Counted cfg v → Counted cfg (accept_tool cfg json ev v).0
  unfolding accept_tool
  accept_tool-Counted ev v h = elim (Option-cases (json.decode ev.data_text)) [
    | inl e ↦ ground (arith, e, h)
    | inr (p, e) ↦ ground (
      arith,
      e,
      h,
      on_payload-Counted p v h,
      on_truncated-Counted (judge_truncated_tool_input ev p) v h,
    )
  ]
