-- ===== src/Responses/Coalesce/Written.antt =====
-- The bytes of a replay: what each piece is written as.
use steady_proxy.Base.{
  ℕ, ◌≤◌, List, [], ◌∷◌, ◌++◌, Option, none, some, Text, text, is_nil, if◌then◌else◌, ◌≡◌, ◌⊎◌,
}
use steady_proxy.Json.{JsonLib, put}
use steady_proxy.Responses.Coalesce.{Piece, opaque, group, render, Coalescer}
use steady_proxy.Responses.Delta.{DeltaGroup, parse_responses_text_delta}
use steady_proxy.Sse.Parser.{Event}

-- An event in bytes.
abbrev pub event_bytes : Text → Text → Text
event_bytes name payload =
    (if is_nil name then [] else text "event: " ++ (name ++ text "\n"))
    ++ (text "data: " ++ (payload ++ text "\n\n"))

module _ (json : JsonLib) (max_group_bytes : ℕ) where
  -- A frame is written as it was; a group is the reading of one event, which is written as it was, or
  -- an event of its name is written that has the fields, with the whole text of the group as `delta`.
  abbrev pub IsWritten : Piece → Type 0
  IsWritten (opaque raw) = render json (opaque raw) ≡ raw
  IsWritten (group g) =
      ((ev : Event) × (parse_responses_text_delta json ev ≡ some g)
        × (render json (group g) ≡ ev.raw))
      ⊎ (render json (group g)
          ≡ event_bytes g.event_name
              (json.encode_map (put (text "delta") (json.encode_string g.delta) g.fields)))

  abbrev pub AllWritten : List Piece → Type 0
  AllWritten [] = Unit
  AllWritten (p ∷ ps) = IsWritten p × AllWritten ps

  -- A group is the reading of one event, or of several.
  abbrev IsCounted : DeltaGroup → Type 0
  IsCounted g = ((ev : Event) × (parse_responses_text_delta json ev ≡ some g)) ⊎ (2 ≤ g.count)

  abbrev Pending : Option DeltaGroup → Type 0
  Pending none = Unit
  Pending (some g) = IsCounted g

  abbrev Good : Coalescer → Type 0
  Good c = AllWritten c.out × Pending c.pending
