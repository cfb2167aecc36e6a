-- ===== src/Tests/Replay.antt =====
-- The replay of usage on a small stream.
use steady_proxy.Base.{true, false, [], ◌∷◌, some, pos, text, str_eq, if◌then◌else◌, ◌≡◌, refl}
use steady_proxy.Sse.Parser.{Event}
use steady_proxy.Sse.Wire.{CaptureStats, new_stats}
use steady_proxy.Sse.Replay.{
  object, number, no_members, member, TreeLib, find, find_object, as_object, encode_sse_frame,
  backfilled, backfill_message_start_usage, rewrite, rewrite_all,
}
use steady_proxy.Sse.Replay.Accounted.{Moved, rewrite_all-Moved}

-- The text `s` is a start with no usage, and `d` a delta with input and output.
abbrev trees : TreeLib
trees = record {
  decode = λ s.
      if str_eq s (text "s")
      then some (member (text "message") (object no_members) no_members)
      else some (
          member (text "usage")
            (object (
              member (text "input_tokens") (number (pos 7))
                (member (text "output_tokens") (number (pos 1)) no_members)))
            no_members);
  encode = λ m. some (text "{}");
}

abbrev seven : CaptureStats
seven = record new_stats { input_tok = pos 7 }

abbrev start : Event
start = record { name = text "message_start"; data_text = text "s"; raw = text "start" }

abbrev delta : Event
delta = record { name = text "message_delta"; data_text = text "d"; raw = text "delta" }

abbrev stop : Event
stop = record { name = text "message_stop"; data_text = []; raw = text "stop" }

start_rewritten :
    (rewrite trees true seven false start).0 ≡ text "event: message_start\ndata: {}\n\n"
unfolding rewrite backfill_message_start_usage backfilled encode_sse_frame find_object as_object
    find str_eq
start_rewritten = refl

rewrite_all-Moved_example :
    Moved trees seven
      (start ∷ delta ∷ stop ∷ [])
      (rewrite_all trees true seven false (start ∷ delta ∷ stop ∷ []))
rewrite_all-Moved_example = rewrite_all-Moved trees seven true (start ∷ delta ∷ stop ∷ [])
