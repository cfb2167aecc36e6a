-- ===== src/Sse/Replay.antt =====
-- The replays of a buffered Anthropic stream (sse.go, wire.go): `replayBufferedWithNormalizer`, with
-- the input usage moved to `message_start`, and who calls it. `encoding/json` over maps is a
-- parameter: trees whose maps keep their keys in a list.
pub mod Accounted
use steady_proxy.Base.{
  ℕ, Bool, true, false, not, ◌&&◌, ◌||◌, List, [], ◌∷◌, ◌++◌, map, concat, Option, none, some, ℤ,
  pos, Text, text, is_nil, str_eq, if◌then◌else◌, ◌>>=◌,
}
use steady_proxy.Config.{Config}
use steady_proxy.Sse.Parser.{Event, Parser, new_parser, feed_chunk}
use steady_proxy.Sse.Wire.{CaptureStats, ReadError}
use steady_proxy.Sse.Spool.{Spool, contents}
use steady_proxy.Sse.Usage.{should_backfill}
use steady_proxy.Sse.ToolJson.{Decoder}
use steady_proxy.Sse.Normalizer.{
  Normalizer, new_normalizer, NormError, Frame, normalize, render_frame,
}

-- A decoded value; what is neither an object nor a number that the proxy writes is kept whole.
mutual
  pub data Tree : Type 0 where
    object : Members → Tree
    number : ℤ → Tree
    opaque : Text → Tree

  pub data Members : Type 0 where
    no_members : Members
    member : Text → Tree → Members → Members

-- Decoding into `map[string]any`, none for an error, and encoding without HTML escapes.
pub record TreeLib : Type 0 where
  pub decode : Text → Option Members
  pub encode : Members → Option Text

-- `m[k]`.
unfoldable pub find : Text → Members → Option Tree
find k no_members = none
find k (member j v m) = let rest = find k m in if str_eq j k then some v else rest

-- `m[k] = v`.
unfoldable pub put : Text → Tree → Members → Members
put k v no_members = member k v no_members
put k v (member j w m) =
    let rest = put k v m in if str_eq j k then member j v m else member j w rest

-- `delete(m, k)`.
unfoldable pub delete : Text → Members → Members
delete k no_members = no_members
delete k (member j v m) = let rest = delete k m in if str_eq j k then rest else member j v rest

unfoldable pub as_object : Option Tree → Option Members
as_object (some (object m)) = some m
as_object _ = none

-- `m[k].(map[string]any)`.
unfoldable pub find_object : Text → Members → Option Members
unfolding as_object
find_object k m = as_object (find k m)

-- The object of a key, or a new one.
unfoldable pub object_or_new : Option Members → Members
object_or_new none = no_members
object_or_new (some m) = m

-- The numbers of the input in a usage.
unfoldable pub with_input : CaptureStats → Members → Members
with_input st m = put (text "cache_read_input_tokens") (number st.cache_read_tok) (
    put (text "cache_creation_input_tokens") (number st.cache_creation_tok)
      (put (text "input_tokens") (number st.input_tok) m))

abbrev pub input_keys : List Text
input_keys =
    text "input_tokens" ∷ text "cache_creation_input_tokens" ∷ text "cache_read_input_tokens" ∷ []

unfoldable pub is_in : Text → Members → Bool
is_in k m = elim (find k m) [ none ↦ false | some v ↦ true ]

-- The loop over the keys, with whether one was there.
unfoldable pub strip_keys : List Text → Members → Members × Bool
unfolding is_in
strip_keys [] m = (m, false)
strip_keys (k ∷ ks) m =
    let (rest, changed) = strip_keys ks (delete k m) in (rest, is_in k m || changed)

module _ (lib : TreeLib) where
  -- `encodeSSEFrame`.
  unfoldable pub encode_sse_frame : Text → Members → Option Text
  encode_sse_frame name payload = lib.encode payload >>= λ body.
      some (text "event: " ++ (name ++ (text "\ndata: " ++ (body ++ text "\n\n"))))

  -- `backfillMessageStartUsage`, as the message that is encoded.
  unfoldable pub backfilled : Text → CaptureStats → Option Members
  unfolding object_or_new
  backfilled data_text st = do
    root ← lib.decode data_text
    msg ← find_object (text "message") root
    let usage = with_input st (object_or_new (find_object (text "usage") msg))
    some (put (text "message") (object (put (text "usage") (object usage) msg)) root)

  unfoldable pub backfill_message_start_usage : Event → CaptureStats → Option Text
  backfill_message_start_usage ev st =
      backfilled ev.data_text st >>= encode_sse_frame (text "message_start")

  stripped : Members → Members × Bool → Option Members
  stripped root (usage, changed) =
      if changed then some (put (text "usage") (object usage) root) else none

  -- `stripMessageDeltaInputUsage`.
  unfoldable pub strip_message_delta_input_usage : Event → Option Text
  unfolding stripped strip_keys
  strip_message_delta_input_usage ev = do
    root ← lib.decode ev.data_text
    usage ← find_object (text "usage") root
    next ← stripped root (strip_keys input_keys usage)
    encode_sse_frame (text "message_delta") next

  or_raw : Text → Option Text → Text
  or_raw raw none = raw
  or_raw raw (some p) = p

  patched_by : Option Text → Bool
  patched_by none = false
  patched_by (some p) = true

  -- The switch of the replay: the bytes of an event, and whether `message_start` is patched now.
  unfoldable pub rewrite : Bool → CaptureStats → Bool → Event → Text × Bool
  unfolding or_raw patched_by
  rewrite backfill st patched ev =
      if backfill && not patched && str_eq ev.name (text "message_start")
      then (
        or_raw ev.raw (backfill_message_start_usage ev st),
        patched_by (backfill_message_start_usage ev st),
      )
      else if patched && str_eq ev.name (text "message_delta")
      then (or_raw ev.raw (strip_message_delta_input_usage ev), patched)
      else (ev.raw, patched)

  -- What the events are replayed as, before the normalizer.
  unfoldable pub rewrite_all : Bool → CaptureStats → Bool → List Event → List Text
  rewrite_all backfill st patched [] = []
  rewrite_all backfill st patched (ev ∷ evs) =
      let (raw, now) = rewrite backfill st patched ev in raw ∷ rewrite_all backfill st now evs

  -- A replay: what is written, and why it stops early.
  pub record Replayed : Type 0 where
    pub written : List Text
    pub norm : Normalizer
    pub patched : Bool
    pub error : Option NormError

  module _ (cfg : Config) (decoder : Decoder) (encode_delta : ℤ → Text → Text) where
    -- The events of one read.
    replay_events : Bool → CaptureStats → Bool → Normalizer → List Event → Replayed
    replay_events backfill st patched norm [] = record {
      written = [];
      norm = norm;
      patched = patched;
      error = none;
    }
    replay_events backfill st patched norm (ev ∷ evs) =
        let (raw, now) = rewrite backfill st patched ev in
        let n = normalize cfg decoder encode_delta ev raw norm in
        let rest = replay_events backfill st now n.norm evs in
        elim n.error [
          | some err ↦ record { written = []; norm = n.norm; patched = now; error = some err }
          | none ↦ record rest { written = map (render_frame encode_delta) n.out ++ rest.written }
        ]

    -- The reads of the spool: each is parsed, the last one at the end of the spool.
    replay_reads : Bool → CaptureStats → Parser → Bool → Normalizer → List Text → Replayed
    replay_reads backfill st p patched norm [] =
        replay_events backfill st patched norm (feed_chunk p [] true).1
    replay_reads backfill st p patched norm (c ∷ cs) =
        let fed = feed_chunk p c false in
        let r = replay_events backfill st patched norm fed.1 in
        let rest = replay_reads backfill st fed.0 r.patched r.norm cs in
        elim r.error [ some err ↦ r | none ↦ record rest { written = r.written ++ rest.written } ]

    -- `replayBuffered`.
    pub replay_buffered : CaptureStats → List Text → Replayed
    unfolding replay_reads replay_events
    replay_buffered st reads =
        replay_reads (should_backfill cfg st) st (new_parser 0) false new_normalizer reads

    -- `normalizeToolJSONEnabled`.
    unfoldable pub normalize_tool_json_enabled : Bool
    normalize_tool_json_enabled = cfg.validate_json && cfg.normalize_tool_json

    raw_replay : Normalizer → Spool → Replayed
    raw_replay norm sp = record {
      written = contents sp ∷ [];
      norm = norm;
      patched = false;
      error = none;
    }

    -- `replayWithUsage`, of `replayBuffered` of the wire; `cut` is how the spool is read.
    pub replay_with_usage : (Text → List Text) → CaptureStats → Spool → Replayed
    unfolding raw_replay
    replay_with_usage cut st sp =
        if not (should_backfill cfg st) && not normalize_tool_json_enabled
        then raw_replay new_normalizer sp
        else replay_buffered st (cut (contents sp))

    -- `replayPrefix`, with the normalizer of the live stream, or raw where tool deltas are streamed.
    pub replay_prefix : (Text → List Text) → Bool → Normalizer → CaptureStats → Spool → Replayed
    unfolding raw_replay replay_reads
    replay_prefix cut stream_tool_deltas norm st sp =
        if stream_tool_deltas
        then raw_replay norm sp
        else replay_reads false st (new_parser 0) false norm (cut (contents sp))
