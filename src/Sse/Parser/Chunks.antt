-- ===== src/Sse/Parser/Chunks.antt =====
-- The events of a stream do not depend on how the transport splits it into chunks.
use mathlib.Core.List.{append_assoc}
use steady_proxy.Base.{
  ℕ, suc, Bool, true, false, List, [], ◌∷◌, ◌++◌, inl, inr, ◌≡◌, refl, arith, Text, length,
  length-append, Bool-cases, concat,
}
use steady_proxy.Sse.Parser.{Parser, Event, append_raw, finish_line, feed_loop, feed_chunk}
use steady_proxy.Sse.Parser.Bytewise.{
  plain_byte, after_cr, byte_step, run_bytes, seal, Same, prefixed, run_bytes_failed,
  run_bytes-append,
}
use steady_proxy.Sse.Parser.Rounds.{InBound, finish_line-Keeps, Same-sym, Same-trans}
use steady_proxy.Sse.Parser.Loop.{feed_loop-Agrees}

-- Feeding a chunk, whatever state an earlier chunk left, emits the events of the parser that reads
-- one byte at a time, and leaves its state, unless both have met the size bound; at the end of the
-- transport a pending CR counts as a line end. The bytes held before must fit the bound.
pub feed_chunk-run_bytes :
    (p : Parser) (b : Text) (eof : Bool)
    → InBound p
    → Same (feed_chunk p b eof) (seal eof (run_bytes p b))
feed_chunk-run_bytes p b eof h =
    unfold feed_chunk in feed_loop-Agrees (suc (length b)) eof b p [] h (omega arith)

plain_byte-InBound : (p : Parser) (c : ℕ) → InBound p → InBound (plain_byte p c).0
unfolding plain_byte append_raw
plain_byte-InBound p c h = ground (
  arith,
  length-append p.cur_raw (c ∷ []),
  (finish_line-Keeps 1 (record p { cur_raw = p.cur_raw ++ c ∷ [] })).2,
)

after_cr-InBound : (p : Parser) (c : ℕ) → InBound p → InBound (after_cr p c).0
unfolding after_cr append_raw
after_cr-InBound p c h = ground (
  arith,
  length-append p.cur_raw (c ∷ []),
  (finish_line-Keeps 1 (record p { cr = false })).2,
  (finish_line-Keeps 2 (record p { cr = false; cur_raw = p.cur_raw ++ c ∷ [] })).2,
  plain_byte-InBound (finish_line 1 (record p { cr = false })).0 c,
)

byte_step-InBound : (p : Parser) (c : ℕ) → InBound p → InBound (byte_step p c).0
unfolding byte_step
byte_step-InBound p c h = elim (Bool-cases p.err) [
  | inl e ↦ ground arith
  | inr e ↦ ground (arith, plain_byte-InBound p c h, after_cr-InBound p c h)
]

pub run_bytes-InBound : (p : Parser) (b : Text) → InBound p → InBound (run_bytes p b).0
unfolding run_bytes
run_bytes-InBound p [] h = h
run_bytes-InBound p (c ∷ b) h = run_bytes-InBound (byte_step p c).0 b (byte_step-InBound p c h)

-- The chunks of a stream, the last one with the end of the transport.
pub feed_stream : Parser → List Text → Text → Parser × List Event
feed_stream p [] last = feed_chunk p last true
feed_stream p (c ∷ cs) last =
    let (q, evs) = feed_chunk p c false in prefixed evs (feed_stream q cs last)

feed_chunk_failed :
    (p : Parser) (b : Text) (eof : Bool) → p.err ≡ true → feed_chunk p b eof ≡ (p, [])
unfolding feed_chunk
feed_chunk_failed p b eof h = unfold feed_loop in ground arith

feed_stream_failed :
    (p : Parser) (cs : List Text) (last : Text) → p.err ≡ true → feed_stream p cs last ≡ (p, [])
unfolding feed_stream
feed_stream_failed p [] last h = feed_chunk_failed p last true h
feed_stream_failed p (c ∷ cs) last h =
    rw (feed_chunk_failed p c false h) (feed_stream_failed p cs last h)

seal-prefixed :
    (eof : Bool) (out : List Event) (a b : Parser × List Event)
    → Same a (seal eof b)
    → Same (prefixed out a) (seal eof (prefixed out b))
unfolding seal
seal-prefixed eof out a b s =
    ground (arith, append_assoc out b.1 (finish_line 1 (record (b.0) { cr = false })).1)

seal-false : (a : Parser × List Event) → seal false a ≡ a
unfolding seal
seal-false a = refl

-- The chunks behind the first, whichever of two parses of the first is taken.
feed_stream_tail :
    (a r : Parser × List Event) (cs : List Text) (last rest : Text)
    → Same a r
    → InBound r.0
    → (InBound r.0 → Same (feed_stream r.0 cs last) (seal true (run_bytes r.0 rest)))
    → Same (prefixed a.1 (feed_stream a.0 cs last)) (seal true (prefixed r.1 (run_bytes r.0 rest)))
feed_stream_tail (p, e) (q, e') cs last rest (evs, inl eq) h ih =
    rw (eq, evs) (seal-prefixed true e' (feed_stream q cs last) (run_bytes q rest) (ih h))
feed_stream_tail (p, e) (q, e') cs last rest (evs, inr (l, r)) h ih =
    rw (feed_stream_failed p cs last l, run_bytes_failed q rest r) (unfold seal in ground arith)

feed_stream-run_bytes :
    (p : Parser) (cs : List Text) (last : Text)
    → InBound p
    → Same (feed_stream p cs last) (seal true (run_bytes p (concat cs ++ last)))
unfolding feed_stream
feed_stream-run_bytes p [] last h = feed_chunk-run_bytes p last true h
feed_stream-run_bytes p (c ∷ cs) last h =
    rw (append_assoc c (concat cs) last, run_bytes-append p c (concat cs ++ last))
      (feed_stream_tail (feed_chunk p c false) (run_bytes p c) cs last (concat cs ++ last)
        (rw (seal-false (run_bytes p c)) at (feed_chunk-run_bytes p c false h))
        (run_bytes-InBound p c h) (feed_stream-run_bytes (run_bytes p c).0 cs last))

-- However the transport splits a stream into chunks, the same events come out as from the whole
-- stream in one chunk, and the same state, unless both have met the size bound. The bytes held
-- before must fit the bound.
pub feed_stream-concat :
    (p : Parser) (cs : List Text) (last : Text)
    → InBound p
    → Same (feed_stream p cs last) (feed_chunk p (concat cs ++ last) true)
feed_stream-concat p cs last h =
    Same-trans (feed_stream-run_bytes p cs last h)
      (Same-sym (feed_chunk-run_bytes p (concat cs ++ last) true h))
