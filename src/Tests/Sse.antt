-- ===== src/Tests/Sse.antt =====
-- The SSE parser on small streams.
use steady_proxy.Base.{true, [], ◌∷◌, ◌≡◌, refl, Text, text, str_eq, cut, trim_prefix}
use steady_proxy.Sse.Parser.{Event, new_parser, feed_chunk}
use steady_proxy.Sse.Parser.Bytewise.{Same, run_bytes, seal}
use steady_proxy.Sse.Parser.Chunks.{feed_chunk-run_bytes, feed_stream, feed_stream-concat}

abbrev stream : Text
stream = text "event: ping\r\ndata: a\r\ndata:b\r\n\r\n: note\n\ndata: c\n\n"

abbrev event_of : Text → Text → Text → Event
event_of n d r = record { name = n; data_text = d; raw = r }

stream_events :
    (feed_chunk (new_parser 100) stream true).1
    ≡ event_of (text "ping") (text "a\nb") (text "event: ping\r\ndata: a\r\ndata:b\r\n\r\n")
      ∷ event_of [] (text "c") (text "data: c\n\n")
      ∷ []
unfolding feed_chunk str_eq cut trim_prefix
stream_events = refl

feed_chunk-run_bytes_example :
    Same (feed_chunk (new_parser 100) stream true) (seal true (run_bytes (new_parser 100) stream))
feed_chunk-run_bytes_example = feed_chunk-run_bytes (new_parser 100) stream true refl

feed_stream-concat_example :
    Same
      (feed_stream
        (new_parser 100)
        (text "data: a\r" ∷ text "\n" ∷ text "\r\nda" ∷ [])
        (text "ta: b\n\n"))
      (feed_chunk (new_parser 100) (text "data: a\r\n\r\ndata: b\n\n") true)
feed_stream-concat_example =
    feed_stream-concat (new_parser 100) (text "data: a\r" ∷ text "\n" ∷ text "\r\nda" ∷ [])
      (text "ta: b\n\n") refl
