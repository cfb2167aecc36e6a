-- ===== src/Responses/Coalesce/Content.antt =====
-- What a client reads of a replay: the text of each route and the other frames, in order.
use mathlib.Core.List.{append-nil, append_assoc, map-append}
use steady_proxy.Base.{
  ℕ, true, List, [], ◌∷◌, ◌++◌, map, Option, none, some, ℤ, eq_ℤ_eq, Text, length, ltb, ◌==◌,
  str_eq_iff, if◌then◌else◌, ◌≡◌, refl, ◌∙◌, ap, sym, arith, Option-cases, Bool-cases, inl, inr,
}
use steady_proxy.Json.{JsonLib}
use steady_proxy.Responses.Coalesce.{
  Piece, opaque, group, Coalescer, new_coalescer, flush, pass, join, accept_delta, accept_events,
  accept_frame, accept_frames,
}
use steady_proxy.Responses.Delta.{DeltaGroup, parse_responses_text_delta, compatible, merge}
use steady_proxy.Sse.Parser.{Event, new_parser, feed_chunk}

-- Where a delta's text goes.
pub record Route : Type 0 where
  pub event_name : Text
  pub item_id : Text
  pub output_index : ℤ
  pub content_index : ℤ

-- A byte of text on its route, or a frame that is not read.
pub data Atom : Type 0 where
  char : Route → ℕ → Atom
  frame : Text → Atom

abbrev pub route_of : DeltaGroup → Route
route_of g = record {
  event_name = g.event_name;
  item_id = g.item_id;
  output_index = g.output_index;
  content_index = g.content_index;
}

abbrev pub group_atoms : DeltaGroup → List Atom
group_atoms g = map (char (route_of g)) g.delta

abbrev pub atoms : List Piece → List Atom
atoms [] = []
atoms (opaque raw ∷ ps) = frame raw ∷ atoms ps
atoms (group g ∷ ps) = group_atoms g ++ atoms ps

abbrev pending_atoms : Option DeltaGroup → List Atom
pending_atoms none = []
pending_atoms (some g) = group_atoms g

atoms-append : (ps qs : List Piece) → atoms (ps ++ qs) ≡ atoms ps ++ atoms qs
atoms-append [] qs = refl
atoms-append (opaque raw ∷ ps) qs = ap (λ r. frame raw ∷ r) (atoms-append ps qs)
atoms-append (group g ∷ ps) qs =
    ap (λ r. group_atoms g ++ r) (atoms-append ps qs)
    ∙ sym (append_assoc (group_atoms g) (atoms ps) (atoms qs))

-- What has been written and what is pending.
abbrev held : Coalescer → List Atom
held c = atoms c.out ++ pending_atoms c.pending

compatible-route : (g d : DeltaGroup) → compatible g d ≡ true → route_of g ≡ route_of d
unfolding compatible
compatible-route g d h = ground (
  arith,
  h,
  str_eq_iff g.event_name d.event_name,
  str_eq_iff g.item_id d.item_id,
  eq_ℤ_eq g.output_index d.output_index,
  eq_ℤ_eq g.content_index d.content_index,
)

merge-atoms :
    (g d : DeltaGroup)
    → compatible g d ≡ true
    → group_atoms (merge g d) ≡ group_atoms g ++ group_atoms d
unfolding merge
merge-atoms g d h = rw (compatible-route g d h, map-append (char (route_of d)) g.delta d.delta)

flush-held : (c : Coalescer) → atoms (flush c).out ≡ held c
unfolding flush
flush-held c = elim (Option-cases c.pending) [
  | inl e ↦ ground (arith, e, append-nil (atoms c.out))
  | inr (g, e) ↦ ground (arith, e, atoms-append c.out (group g ∷ []), append-nil (group_atoms g))
]

flush-pending : (c : Coalescer) → (flush c).pending ≡ none
unfolding flush
flush-pending c = elim (Option-cases c.pending) [
  | inl e ↦ ground (arith, e)
  | inr (g, e) ↦ ground (arith, e)
]

pass-held : (raw : Text) (c : Coalescer) → held (pass raw c) ≡ held c ++ frame raw ∷ []
unfolding pass
pass-held raw c = ground (
  arith,
  flush-held c,
  flush-pending c,
  atoms-append (flush c).out (opaque raw ∷ []),
  append-nil (atoms (flush c).out ++ frame raw ∷ []),
)

-- An independent reading of a frame: the text of a delta, or the frame itself.
abbrev delta_atoms : Text → Option DeltaGroup → List Atom
delta_atoms raw none = frame raw ∷ []
delta_atoms raw (some d) = group_atoms d

module _ (json : JsonLib) (max_group_bytes : ℕ) where
  event_atoms : Event → List Atom
  event_atoms ev =
      if ltb max_group_bytes (length ev.data_text)
      then frame ev.raw ∷ []
      else delta_atoms ev.raw (parse_responses_text_delta json ev)

  read_atoms : Text → List Event → List Atom
  unfolding event_atoms
  read_atoms raw (ev ∷ []) = if length ev.raw == length raw then event_atoms ev else frame raw ∷ []
  read_atoms raw [] = frame raw ∷ []
  read_atoms raw (_ ∷ _ ∷ _) = frame raw ∷ []

  frame_atoms : Text → List Atom
  unfolding read_atoms
  frame_atoms raw = read_atoms raw (feed_chunk (new_parser 0) raw true).1

  pub frames_atoms : List Text → List Atom
  frames_atoms [] = []
  frames_atoms (raw ∷ raws) = frame_atoms raw ++ frames_atoms raws

  join-held :
      (d : DeltaGroup) (c : Coalescer)
      → held (join json max_group_bytes d c) ≡ held c ++ group_atoms d
  unfolding join
  join-held d c = elim (Option-cases c.pending) [
    | inl e ↦ ground (arith, e, append-nil (atoms c.out))
    | inr (g, e) ↦ elim (Bool-cases (compatible g d)) [
      | inl y ↦ ground (
        arith,
        e,
        y,
        merge-atoms g d y,
        atoms-append c.out (group g ∷ []),
        append-nil (group_atoms g),
        append_assoc (atoms c.out) (group_atoms g) (group_atoms d),
      )
      | inr n ↦ ground (arith, e, n, atoms-append c.out (group g ∷ []), append-nil (group_atoms g))
    ]
  ]

  accept_delta-held :
      (ev : Event) (c : Coalescer)
      → held (accept_delta json max_group_bytes ev c) ≡ held c ++ event_atoms ev
  unfolding accept_delta event_atoms
  accept_delta-held ev c = elim (Bool-cases (ltb max_group_bytes (length ev.data_text))) [
    | inl y ↦ rw (y) (pass-held ev.raw c)
    | inr n ↦ elim (Option-cases (parse_responses_text_delta json ev)) [
      | inl e ↦ rw (n, e) (pass-held ev.raw c)
      | inr (d, e) ↦ rw (n, e) (join-held d c)
    ]
  ]

  accept_events-held :
      (raw : Text) (evs : List Event) (c : Coalescer)
      → held (accept_events json max_group_bytes raw evs c) ≡ held c ++ read_atoms raw evs
  unfolding accept_events read_atoms
  accept_events-held raw [] c = pass-held raw c
  accept_events-held raw (ev ∷ []) c = elim (Bool-cases (length ev.raw == length raw)) [
    | inl y ↦ rw (y) (accept_delta-held ev c)
    | inr n ↦ rw (n) (pass-held raw c)
  ]
  accept_events-held raw (_ ∷ _ ∷ _) c = pass-held raw c

  accept_frame-held :
      (raw : Text) (c : Coalescer)
      → held (accept_frame json max_group_bytes raw c) ≡ held c ++ frame_atoms raw
  unfolding accept_frame frame_atoms
  accept_frame-held raw c = accept_events-held raw (feed_chunk (new_parser 0) raw true).1 c

  accept_frames-held :
      (raws : List Text) (c : Coalescer)
      → atoms (accept_frames json max_group_bytes raws c).out ≡ held c ++ frames_atoms raws
  unfolding accept_frames frames_atoms
  accept_frames-held [] c = flush-held c ∙ sym (append-nil (held c))
  accept_frames-held (raw ∷ raws) c =
      let next = accept_frame json max_group_bytes raw c in
      accept_frames-held raws next
      ∙ ap (λ a. a ++ frames_atoms raws) (accept_frame-held raw c)
      ∙ append_assoc (held c) (frame_atoms raw) (frames_atoms raws)

  -- A replay writes the text of every delta on its own route, and every other frame, exactly once
  -- and in order: grouping neither loses, reorders nor moves a byte of text.
  pub accept_frames-atoms :
      (raws : List Text)
      → atoms (accept_frames json max_group_bytes raws new_coalescer).out ≡ frames_atoms raws
  accept_frames-atoms raws = accept_frames-held raws new_coalescer
