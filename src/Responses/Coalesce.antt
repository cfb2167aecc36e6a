-- ===== src/Responses/Coalesce.antt =====
-- The coalescer of a replay: `responsesReplayCoalescer` of responses.go. The client's connection
-- takes every write here.
pub mod Content
pub mod Written
use steady_proxy.Base.{
  ℕ, ◌+◌, Bool, true, false, not, ◌&&◌, ◌||◌, List, [], ◌∷◌, ◌++◌, Option, none, some, Text, text,
  is_nil, length, ltb, ◌==◌, if◌then◌else◌,
}
use steady_proxy.Json.{JsonLib, put}
use steady_proxy.Responses.Delta.{DeltaGroup, parse_responses_text_delta, compatible, merge}
use steady_proxy.Sse.Parser.{Parser, Event, new_parser, feed_chunk}

-- What a replay writes: bytes as they were, or a group of deltas.
pub data Piece : Type 0 where
  opaque : Text → Piece
  group : DeltaGroup → Piece

-- `flush`, in bytes: a delta on its own as it was, several as one event.
unfoldable pub render : JsonLib → Piece → Text
render json (opaque raw) = raw
render json (group g) =
    let named = text "event: " ++ (g.event_name ++ text "\n") in
    let fields = put (text "delta") (json.encode_string g.delta) g.fields in
    if g.count == 1
    then g.raw
    else (if is_nil g.event_name then [] else named)
      ++ (text "data: " ++ (json.encode_map fields ++ text "\n\n"))

-- The pending group, and the pieces written.
pub record Coalescer : Type 0 where
  pub pending : Option DeltaGroup
  pub out : List Piece

abbrev pub new_coalescer : Coalescer
new_coalescer = record { pending = none; out = [] }

unfoldable pub flush : Coalescer → Coalescer
flush c = elim c.pending [
  | none ↦ c
  | some g ↦ record { pending = none; out = c.out ++ group g ∷ [] }
]

-- `flush`, and then the bytes.
unfoldable pub pass : Text → Coalescer → Coalescer
unfolding flush
pass raw c = let d = flush c in record d { out = d.out ++ opaque raw ∷ [] }

module _ (json : JsonLib) (max_group_bytes : ℕ) where
  -- A text delta joins the pending group if it fits.
  unfoldable pub join : DeltaGroup → Coalescer → Coalescer
  unfolding flush
  join d c = elim c.pending [
    | none ↦ record c { pending = some d }
    | some g ↦
        if not (compatible g d) || ltb max_group_bytes (g.payload_bytes + d.payload_bytes)
        then record { pending = some d; out = c.out ++ group g ∷ [] }
        else record c { pending = some (merge g d) }
  ]

  -- `accept`.
  unfoldable pub accept_delta : Event → Coalescer → Coalescer
  accept_delta ev c =
      let parsed : Coalescer = elim (parse_responses_text_delta json ev) [
        | none ↦ pass ev.raw c
        | some d ↦ join d c
      ] in
      if ltb max_group_bytes (length ev.data_text) then pass ev.raw c else parsed

  -- Exactly one event, and all of the frame.
  unfoldable pub accept_events : Text → List Event → Coalescer → Coalescer
  unfolding accept_delta
  accept_events raw [] c = pass raw c
  accept_events raw (ev ∷ []) c =
      if length ev.raw == length raw then accept_delta ev c else pass raw c
  accept_events raw (_ ∷ _ ∷ _) c = pass raw c

  -- `acceptFrame`.
  unfoldable pub accept_frame : Text → Coalescer → Coalescer
  unfolding accept_events
  accept_frame raw c = accept_events raw (feed_chunk (new_parser 0) raw true).1 c

  -- The frames, and the end.
  unfoldable pub accept_frames : List Text → Coalescer → Coalescer
  accept_frames [] c = flush c
  accept_frames (raw ∷ raws) c = accept_frames raws (accept_frame raw c)
