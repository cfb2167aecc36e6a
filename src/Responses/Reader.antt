-- ===== src/Responses/Reader.antt =====
-- The framing of a replay: `replayResponsesReader` of responses.go, over the reads of the spool. It
-- yields what it asks of the coalescer and of the connection, which takes every write.
pub mod Conserves
use steady_proxy.Base.{
  ℕ, ◌+◌, Bool, true, false, not, ◌&&◌, List, [], ◌∷◌, ◌++◌, map, Text, is_nil, length, ltb, ◌==◌,
  if◌then◌else◌,
}
use steady_proxy.Json.{JsonLib}
use steady_proxy.Responses.Coalesce.{opaque, Coalescer, new_coalescer, flush, accept_frame}

-- `c.flush`, `writeResponsesReplayBytes` and `c.acceptFrame`.
pub data Call : Type 0 where
  flush_group : Call
  write_raw accept_raw : Text → Call

-- The state of the loop; `segment` is `buf[start:i]`.
pub record Reader : Type 0 where
  pub calls : List Call
  pub frame : Text
  pub passthrough : Bool
  pub segment : Text
  pub line_has_data : Bool
  pub pending_cr : Bool
  pub frame_done : Bool

abbrev pub new_reader : Reader
new_reader = record {
  calls = [];
  frame = [];
  passthrough = false;
  segment = [];
  line_has_data = false;
  pending_cr = false;
  frame_done = false;
}

unfoldable pub extend : ℕ → Reader → Reader
extend b r = record r { segment = r.segment ++ b ∷ [] }

module _ (max_group_bytes : ℕ) where
  -- A frame that exceeds the budget passes through from here on.
  unfoldable pub overflow : Text → Reader → Reader
  overflow chunk r =
      if not r.passthrough && ltb max_group_bytes (length r.frame + length chunk)
      then record r {
        calls = r.calls ++ flush_group ∷ write_raw r.frame ∷ [];
        frame = [];
        passthrough = true;
      }
      else r

  unfoldable pub put_bytes : Text → Reader → Reader
  put_bytes chunk r =
      if r.passthrough
      then record r { calls = r.calls ++ write_raw chunk ∷ [] }
      else record r { frame = r.frame ++ chunk }

  -- `appendBytes` of the segment, which it empties.
  unfoldable pub append_bytes : Reader → Reader
  unfolding overflow put_bytes
  append_bytes r =
      let emptied = record r { segment = [] } in
      if is_nil r.segment then emptied else put_bytes r.segment (overflow r.segment emptied)

  -- `finishFrame`.
  unfoldable pub finish_frame : Reader → Reader
  finish_frame r =
      if r.passthrough
      then record r { frame = []; passthrough = false }
      else record r { calls = r.calls ++ accept_raw r.frame ∷ []; frame = []; passthrough = false }

  unfoldable pub end_frame : Reader → Reader
  unfolding append_bytes finish_frame
  end_frame r = finish_frame (append_bytes r)

  -- The byte behind a CR: an LF belongs to it.
  unfoldable pub after_cr : Reader → Reader
  unfolding end_frame
  after_cr r =
      let cleared = record r { pending_cr = false } in
      if r.frame_done then record (end_frame cleared) { frame_done = false } else cleared

  -- The switch over a byte.
  unfoldable pub on_byte : ℕ → Reader → Reader
  unfolding extend end_frame
  on_byte b r =
      let e = extend b r in
      if b == 13
      then record e { pending_cr = true; frame_done = not r.line_has_data; line_has_data = false }
      else if b == 10
      then record (if not r.line_has_data then end_frame e else e) { line_has_data = false }
      else record e { line_has_data = true }

  -- One turn of the loop over the bytes.
  unfoldable pub read_byte : ℕ → Reader → Reader
  unfolding on_byte after_cr extend
  read_byte b r =
      if r.pending_cr
      then (if b == 10 then after_cr (extend b r) else on_byte b (after_cr r))
      else on_byte b r

  unfoldable pub read_bytes : Text → Reader → Reader
  unfolding read_byte
  read_bytes [] r = r
  read_bytes (b ∷ bs) r = read_bytes bs (read_byte b r)

  -- The reads of the spool, in order.
  unfoldable pub read_chunks : List Text → Reader → Reader
  unfolding read_bytes append_bytes
  read_chunks [] r = r
  read_chunks (chunk ∷ chunks) r = read_chunks chunks (append_bytes (read_bytes chunk r))

  -- The end of the input; what is left of a frame is written as it is.
  unfoldable pub at_eof : Reader → List Call
  unfolding finish_frame
  at_eof r =
      let d = if r.pending_cr && r.frame_done then finish_frame r else r in
      d.calls ++ flush_group ∷ write_raw d.frame ∷ []

  -- `replayResponsesReader`, in calls.
  unfoldable pub replay_calls : List Text → List Call
  unfolding read_chunks at_eof
  replay_calls chunks =
      if max_group_bytes == 0 then map write_raw chunks else at_eof (read_chunks chunks new_reader)

  run_call : JsonLib → Call → Coalescer → Coalescer
  run_call json flush_group c = flush c
  run_call json (write_raw p) c = record c { out = c.out ++ opaque p ∷ [] }
  run_call json (accept_raw raw) c = accept_frame json max_group_bytes raw c

  run_calls : JsonLib → List Call → Coalescer → Coalescer
  unfolding run_call
  run_calls json [] c = c
  run_calls json (k ∷ ks) c = run_calls json ks (run_call json k c)

  -- `replayResponsesReader`.
  pub replay_responses_reader : JsonLib → List Text → Coalescer
  unfolding run_calls
  replay_responses_reader json chunks = run_calls json (replay_calls chunks) new_coalescer
