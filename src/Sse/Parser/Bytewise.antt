-- ===== src/Sse/Parser/Bytewise.antt =====
-- A reference parser that reads one byte at a time, with no chunks and no look-ahead, and what it
-- does with the bytes through the next line end.
use mathlib.Core.List.{append_assoc}
use steady_proxy.Base.{
  ℕ, ◌≤◌, Bool, true, false, not, ◌&&◌, List, [], ◌∷◌, ◌++◌, ◌⊎◌, ◌≡◌, refl, arith, Text, length,
  ◌==◌, if◌then◌else◌,
}
use steady_proxy.Sse.Parser.{Parser, Event, append_raw, finish_line, split_line}

-- A byte that does not follow a pending CR.
unfoldable pub plain_byte : Parser → ℕ → Parser × List Event
plain_byte p c =
    let (q, fits) = append_raw p (c ∷ []) in
    if not fits
    then (q, [])
    else if c == b'\r'
    then (record q { cr = true }, [])
    else if c == b'\n'
    then finish_line 1 q
    else (q, [])

-- A pending CR takes an LF into its line end; any other byte begins a new line.
unfoldable pub after_cr : Parser → ℕ → Parser × List Event
unfolding plain_byte
after_cr p c =
    let (q, fits) = append_raw p (c ∷ []) in
    let (r, evs) = finish_line 1 (record p { cr = false }) in
    let (r', evs') = plain_byte r c in
    if c == b'\n'
    then if fits then finish_line 2 (record q { cr = false }) else (q, [])
    else (r', evs ++ evs')

unfoldable pub byte_step : Parser → ℕ → Parser × List Event
byte_step p c = if p.err then (p, []) else if p.cr then after_cr p c else plain_byte p c

unfoldable pub run_bytes : Parser → Text → Parser × List Event
run_bytes p [] = (p, [])
run_bytes p (c ∷ b) =
    let (q, evs) = byte_step p c in let (r, evs') = run_bytes q b in (r, evs ++ evs')

-- The end of the transport completes the line of a pending CR.
unfoldable pub seal : Bool → Parser × List Event → Parser × List Event
seal eof (p, evs) =
    let (q, evs') = finish_line 1 (record p { cr = false }) in
    if eof && not p.err && p.cr then (q, evs ++ evs') else (p, evs)

-- Two parses are the same: the same events, and the same state unless both have failed.
abbrev pub Same : Parser × List Event → Parser × List Event → Type 0
Same (p, evs) (q, evs') = (evs ≡ evs') × ((p ≡ q) ⊎ ((p.err ≡ true) × (q.err ≡ true)))

-- Events that were emitted before.
abbrev pub prefixed : List Event → Parser × List Event → Parser × List Event
prefixed out (p, evs) = (p, out ++ evs)

pub run_bytes_failed : (p : Parser) (b : Text) → p.err ≡ true → run_bytes p b ≡ (p, [])
unfolding run_bytes byte_step
run_bytes_failed p [] h = refl
run_bytes_failed p (c ∷ b) h = ground (arith, run_bytes_failed p b)

pub run_bytes-append :
    (p : Parser) (a b : Text)
    → run_bytes p (a ++ b) ≡ prefixed (run_bytes p a).1 (run_bytes (run_bytes p a).0 b)
unfolding run_bytes
run_bytes-append p [] b = refl
run_bytes-append p (c ∷ a) b = simp (run_bytes-append (byte_step p c).0 a b, append_assoc)

pub length-split_line : (b : Text) → length (split_line b).2 ≤ length b
unfolding split_line
length-split_line [] = omega arith
length-split_line (c ∷ b) = ground (arith, length-split_line b)

pub length-split_line_cons : (c : ℕ) (b : Text) → length (split_line (c ∷ b)).2 ≤ length b
unfolding split_line
length-split_line_cons c b = ground (arith, length-split_line b)
