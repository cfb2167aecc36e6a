-- ===== src/Sse/Normalizer/Pending/Steps.antt =====
-- A step of the normalizer neither loses nor changes the input of a tool block.
use mathlib.Core.List.{append-nil}
use steady_proxy.Base.{
  ◌+◌, true, List, [], ◌∷◌, Option, none, some, ℤ, eq_ℤ, eq_ℤ_eq, Text, text, is_nil, is_nil_eq,
  length, str_eq, ltb, if◌then◌else◌, ◌≡◌, refl, sym, subst, arith, Bool-cases, inl, inr,
}
use steady_proxy.Config.{Config}
use steady_proxy.Sse.Parser.{Event}
use steady_proxy.Sse.Normalizer.{
  Frame, as_it_was, ReplayBlock, Normalizer, block_of, take_block, extended, emit, stop_with,
  on_held, norm_start, norm_delta, hold, norm_stop, norm_payload, norm_decoded,
}
use steady_proxy.Sse.ToolJson.{
  Payload, Decoder, TruncVerdict, trunc_reject, trunc_wait, trunc_excused, valid_json_object,
  block_uses_input_json,
}
use steady_proxy.Sse.Normalizer.Pending.{
  frames_text, block_text, pending, received, block_of-drop_block, frames_text-raw, Conserves,
  delta_new, or_new-text, TidyBlock, around, Tidy, fresh_start, start-no_delta, frames_text-append,
  brings, fresh,
}

module _ (cfg : Config) (json : Decoder) (encode : ℤ → Text → Text) where
  norm_delta-Conserves :
      (i : ℤ) (p : Payload) (raw : Text) (n : Normalizer)
      → n.held ≡ none
      → Conserves i (pending i n) (delta_new i p) (norm_delta cfg json encode p raw n)
  unfolding norm_delta emit stop_with extended block_of
  norm_delta-Conserves i p raw n e ok =
      elim (Bool-cases (str_eq p.delta_type (text "input_json_delta"))) [
        | inr d ↦ ground (arith, d, e, ok, append-nil (pending i n))
        | inl d ↦ elim (Bool-cases (ltb cfg.max_response_bytes (n.retained_bytes + length raw))) [
          | inl l ↦ ground (arith, d, l, ok)
          | inr l ↦ elim (Bool-cases (eq_ℤ i p.index)) [
            | inl y ↦
                ground
                  (arith, d, l, e, y, eq_ℤ_eq i p.index y, or_new-text (block_of p.index n.blocks))
            | inr m ↦ ground (
              arith,
              d,
              l,
              e,
              m,
              block_of-drop_block i p.index n.blocks,
              append-nil (block_text (block_of i n.blocks)),
            )
          ]
        ]
      ]

  hold-block :
      (i j : ℤ) (b : ReplayBlock) (raw : Text) (t : Normalizer)
      → block_text (block_of i t.blocks)
        ≡ (if eq_ℤ i j then [] else block_text (block_of i t.blocks))
      → Conserves i (around i j (some b) t) [] (hold cfg json encode j b.input raw t)
  unfolding hold emit stop_with
  hold-block i j b raw t g ok = elim (Bool-cases (eq_ℤ i j)) [
    | inl y ↦ ground (arith, y, g, ok, append-nil b.input)
    | inr n ↦ ground (arith, n, g, ok, append-nil (block_text (block_of i t.blocks)))
  ]

  norm_stop-block :
      (i j : ℤ) (o : Option ReplayBlock) (raw : Text) (t : Normalizer)
      → t.held ≡ none
      → TidyBlock o
      → block_text (block_of i t.blocks)
        ≡ (if eq_ℤ i j then [] else block_text (block_of i t.blocks))
      → Conserves i (around i j o t) [] (norm_stop cfg json encode j o raw t)
  unfolding norm_stop emit
  norm_stop-block i j none raw t e h g ok = elim (Bool-cases (eq_ℤ i j)) [
    | inl y ↦ ground (arith, y, g, e)
    | inr n ↦ ground (arith, n, g, e, append-nil (block_text (block_of i t.blocks)))
  ]
  norm_stop-block i j (some b) raw t e h g ok = elim (Bool-cases b.saw_input_delta) [
    | inr n ↦ elim (Bool-cases (eq_ℤ i j)) [
      | inl y ↦ ground (arith, n, y, g, e, h n)
      | inr m ↦ ground (arith, n, m, g, e, append-nil (block_text (block_of i t.blocks)))
    ]
    | inl saw ↦ elim (Bool-cases (is_nil b.input)) [
      | inl n ↦ elim (Bool-cases (eq_ℤ i j)) [
        | inl y ↦
            ground (arith, saw, n, y, g, e, is_nil_eq b.input n, frames_text-raw i b.raw_deltas raw)
        | inr m ↦ ground (
          arith,
          saw,
          n,
          m,
          g,
          e,
          frames_text-raw i b.raw_deltas raw,
          append-nil (block_text (block_of i t.blocks)),
        )
      ]
      | inr full ↦ elim (Bool-cases (valid_json_object cfg json b.input)) [
        | inr v ↦
            let same : norm_stop cfg json encode j (some b) raw t
                ≡ hold cfg json encode j b.input raw t =
              rw (saw, full, v) refl in
            subst (λ r. Conserves i (around i j (some b) t) [] r) (sym same)
              (hold-block i j b raw t g) ok
        | inl v ↦ elim (Bool-cases (eq_ℤ i j)) [
          | inl y ↦ ground (arith, saw, full, v, y, g, e, append-nil b.input)
          | inr m ↦
              ground (arith, saw, full, v, m, g, e, append-nil (block_text (block_of i t.blocks)))
        ]
      ]
    ]
  ]

  norm_stop-Conserves :
      (i j : ℤ) (raw : Text) (n : Normalizer)
      → n.held ≡ none
      → Tidy n
      → Conserves i
          (pending i n)
          []
          (norm_stop cfg json encode j (block_of j n.blocks) raw (take_block j n))
  unfolding take_block
  norm_stop-Conserves i j raw n e h =
      let t = take_block j n in
      let dropped = block_of-drop_block i j n.blocks in
      let before : around i j (block_of j n.blocks) t ≡ pending i n = elim (Bool-cases (eq_ℤ i j)) [
        | inl y ↦ ground (arith, y, e, eq_ℤ_eq i j y)
        | inr m ↦ ground (arith, m, e, dropped)
      ] in
      let rest : block_text (block_of i t.blocks)
          ≡ (if eq_ℤ i j then [] else block_text (block_of i t.blocks)) =
        elim (Bool-cases (eq_ℤ i j)) [
          | inl y ↦ ground (arith, y, dropped)
          | inr m ↦ ground (arith, m)
        ] in
      subst (λ u. Conserves i u [] (norm_stop cfg json encode j (block_of j n.blocks) raw t)) before
        (norm_stop-block i j (block_of j n.blocks) raw t e (h j) rest)

  norm_start-Conserves :
      (i : ℤ) (p : Payload) (raw : Text) (n : Normalizer)
      → n.held ≡ none
      → str_eq p.kind (text "content_block_start") ≡ true
      → fresh_start p n ≡ true
      → Conserves i (pending i n) [] (norm_start cfg json encode p raw n)
  unfolding norm_start emit take_block block_of
  norm_start-Conserves i p raw n e k s ok = elim (Bool-cases (block_uses_input_json p.block_type)) [
    | inr d ↦ ground (arith, d, append-nil (pending i n))
    | inl d ↦
        let empty : block_text (block_of p.index n.blocks) ≡ [] =
          is_nil_eq _ (ground (arith, k, d, s)) in
        elim (Bool-cases (eq_ℤ i p.index)) [
          | inl y ↦ ground (arith, d, e, y, empty, eq_ℤ_eq i p.index y)
          | inr m ↦
              ground
                (arith, d, e, m, block_of-drop_block i p.index n.blocks, append-nil (pending i n))
        ]
  ]

  norm_payload-Conserves :
      (i : ℤ) (p : Payload) (raw : Text) (n : Normalizer)
      → n.held ≡ none
      → Tidy n
      → fresh_start p n ≡ true
      → Conserves i (pending i n) (received i p) (norm_payload cfg json encode p raw n)
  unfolding norm_payload norm_start emit
  norm_payload-Conserves i p raw n e h s ok =
      elim (Bool-cases (str_eq p.kind (text "content_block_start"))) [
        | inl y ↦
            let same : norm_payload cfg json encode p raw n ≡ norm_start cfg json encode p raw n =
              rw y refl in
            let none_new : [] ≡ received i p = ground (arith, start-no_delta p.kind y) in
            subst (λ u. Conserves i (pending i n) u (norm_payload cfg json encode p raw n)) none_new
              (subst (λ r. Conserves i (pending i n) [] r) (sym same)
                (norm_start-Conserves i p raw n e y s))
              ok
        | inr m ↦ elim (Bool-cases (str_eq p.kind (text "content_block_delta"))) [
          | inl y ↦
              let same : norm_payload cfg json encode p raw n ≡ norm_delta cfg json encode p raw n =
                rw (m, y) refl in
              let brings : delta_new i p ≡ received i p = ground (arith, y) in
              subst (λ u. Conserves i (pending i n) u (norm_payload cfg json encode p raw n)) brings
                (subst (λ r. Conserves i (pending i n) (delta_new i p) r) (sym same)
                  (norm_delta-Conserves i p raw n e))
                ok
          | inr d ↦
              let none_new : [] ≡ received i p = ground (arith, d) in
              elim (Bool-cases (str_eq p.kind (text "content_block_stop"))) [
                | inl y ↦
                    let stop =
                      norm_stop cfg json encode p.index (block_of p.index n.blocks) raw
                        (take_block p.index n) in
                    let same : norm_payload cfg json encode p raw n ≡ stop = rw (m, d, y) refl in
                    subst (λ u. Conserves i (pending i n) u (norm_payload cfg json encode p raw n))
                      none_new
                      (subst (λ r. Conserves i (pending i n) [] r) (sym same)
                        (norm_stop-Conserves i p.index raw n e h))
                      ok
                | inr f ↦ ground (arith, m, d, f, append-nil (pending i n))
              ]
        ]
      ]

  on_held-Conserves :
      (i : ℤ) (frames : List Frame) (v : TruncVerdict) (raw : Text) (n : Normalizer)
      → n.held ≡ some frames
      → Conserves i (pending i n) [] (on_held cfg json encode frames v raw n)
  unfolding on_held emit stop_with
  on_held-Conserves i frames trunc_reject raw n e ok = ground (arith, ok)
  on_held-Conserves i frames trunc_excused raw n e ok = ground (
    arith,
    e,
    frames_text-append i frames (as_it_was raw ∷ []),
    append-nil (frames_text i frames),
    append-nil (pending i n),
  )
  on_held-Conserves i frames trunc_wait raw n e ok = ground (
    arith,
    e,
    ok,
    frames_text-append i frames (as_it_was raw ∷ []),
    append-nil (frames_text i frames),
    append-nil (pending i n),
  )

  pub norm_decoded-Conserves :
      (i : ℤ) (ev : Event) (payload : Option Payload) (held : Option (List Frame)) (raw : Text)
      (n : Normalizer)
      → n.held ≡ held
      → Tidy n
      → fresh payload n ≡ true
      → Conserves i
          (pending i n)
          (brings i held ev payload)
          (norm_decoded cfg json encode ev payload held raw n)
  unfolding norm_decoded emit stop_with
  norm_decoded-Conserves i ev none none raw n e h s ok = ground (arith, ok)
  norm_decoded-Conserves i ev none (some frames) raw n e h s ok = ground (arith, ok)
  norm_decoded-Conserves i ev (some p) (some frames) raw n e h s ok =
      on_held-Conserves i frames _ raw n e ok
  norm_decoded-Conserves i ev (some p) none raw n e h s ok =
      elim (Bool-cases (is_nil ev.data_text)) [
        | inl y ↦ ground (arith, y, append-nil (pending i n))
        | inr m ↦
            let same : norm_decoded cfg json encode ev (some p) none raw n
                ≡ norm_payload cfg json encode p raw n =
              rw m refl in
            let new : received i p ≡ brings i none ev (some p) = ground (arith, m) in
            subst
              (λ u.
                Conserves i (pending i n) u (norm_decoded cfg json encode ev (some p) none raw n))
              new
              (subst (λ r. Conserves i (pending i n) (received i p) r) (sym same)
                (norm_payload-Conserves i p raw n e h s))
              ok
      ]
