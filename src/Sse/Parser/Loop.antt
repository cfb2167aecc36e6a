-- ===== src/Sse/Parser/Loop.antt =====
-- The loop of `feedChunk` against the bytewise parser.
use mathlib.Core.List.{append-nil, append_assoc}
use steady_proxy.Base.{
  ℕ, zero, suc, ◌≤◌, Bool, true, false, List, [], ◌∷◌, ◌++◌, ◌⊎◌, inl, inr, ◌≡◌, sym, subst, ◌∙◌,
  arith, Text, length, ◌==◌, if◌then◌else◌, Bool-cases, ==_iff,
}
use steady_proxy.Sse.Parser.{
  Parser, Event, append_raw, finish_line, finish_next, Round, next, stop, settle, advance,
  feed_loop, after_round,
}
use steady_proxy.Sse.Parser.Bytewise.{
  plain_byte, after_cr, byte_step, run_bytes, seal, Same, prefixed, run_bytes_failed,
}
use steady_proxy.Sse.Parser.Rounds.{
  InBound, finish_line-Keeps, append_raw-InBound, Agrees, advanced-Same,
}

-- A byte that is read with no pending CR.
run_bytes_plain :
    (p : Parser) (c : ℕ) (b : Text)
    → p.err ≡ false
    → p.cr ≡ false
    → run_bytes p (c ∷ b) ≡ prefixed (plain_byte p c).1 (run_bytes (plain_byte p c).0 b)
unfolding run_bytes byte_step
run_bytes_plain p c b ok no_cr = ground arith

-- A pending CR with no LF behind it ends the line, and the byte begins the next one.
run_bytes_cr :
    (p : Parser) (c : ℕ) (b : Text)
    → p.err ≡ false
    → p.cr ≡ true
    → (c == b'\n') ≡ false
    → let f = finish_line 1 (record p { cr = false }) in
      run_bytes p (c ∷ b) ≡ prefixed f.1 (run_bytes f.0 (c ∷ b))
unfolding run_bytes byte_step after_cr
run_bytes_cr p c b ok cr no_lf =
    let k = finish_line-Keeps 1 (record p { cr = false }) in
    let f = finish_line 1 (record p { cr = false }) in
    ground
      (arith, k.0, k.1, append_assoc f.1 (plain_byte f.0 c).1 (run_bytes (plain_byte f.0 c).0 b).1)

-- A pending CR with an LF behind it.
run_bytes_crlf :
    (p : Parser) (b : Text)
    → p.err ≡ false
    → p.cr ≡ true
    → let q = append_raw p (b'\n' ∷ []) in
      let f = finish_line 2 (record (q.0) { cr = false }) in
      run_bytes p (b'\n' ∷ b) ≡ (if q.1 then prefixed f.1 (run_bytes f.0 b) else (q.0, []))
unfolding run_bytes byte_step after_cr append_raw
run_bytes_crlf p b ok cr = ground (arith, run_bytes_failed (record p { err = true }) b)

abbrev rounds : ℕ → Bool → Round → Parser × List Event
rounds fuel eof = after_round (λ q evs c. after_round (feed_loop fuel eof) (advance q evs c))

settle_plain :
    (eof : Bool) (p : Parser) (out : List Event) (b : Text)
    → p.cr ≡ false
    → settle eof p out b ≡ next p out b
unfolding settle
settle_plain eof p out [] h = ground arith
settle_plain eof p out (c ∷ b) h = ground arith

settle_cr :
    (eof : Bool) (p : Parser) (out : List Event) (c : ℕ) (b : Text)
    → p.cr ≡ true
    → (c == b'\n') ≡ false
    → settle eof p out (c ∷ b) ≡ finish_next 1 (record p { cr = false }) out (c ∷ b)
unfolding settle
settle_cr eof p out c b h n = ground arith

settle_crlf :
    (eof : Bool) (p : Parser) (out : List Event) (b : Text)
    → p.cr ≡ true
    → let q = append_raw p (b'\n' ∷ []) in
      settle eof p out (b'\n' ∷ b)
      ≡ (if q.1 then finish_next 2 (record (q.0) { cr = false }) out b else stop q.0 out)
unfolding settle
settle_crlf eof p out b h = ground arith

feed_loop_round :
    (fuel : ℕ) (eof : Bool) (p : Parser) (out : List Event) (b : Text)
    → p.err ≡ false
    → feed_loop (suc fuel) eof p out b ≡ rounds fuel eof (settle eof p out b)
unfolding feed_loop
feed_loop_round fuel eof p out b ok = ground arith

append_raw_cases :
    (p : Parser) (b : Text)
    → (append_raw p b ≡ (record p { cur_raw = p.cur_raw ++ b }, true))
      ⊎ (append_raw p b ≡ (record p { err = true }, false))
unfolding append_raw
append_raw_cases p b = ground arith

module _ (fuel : ℕ) (eof : Bool) (ih : Agrees fuel eof) (p : Parser) (out : List Event)
    (ok : p.err ≡ false) (h : InBound p) where
  rounds_nil :
      Same (rounds fuel eof (settle eof p out [])) (seal eof (prefixed out (run_bytes p [])))
  unfolding settle advance run_bytes seal finish_next
  rounds_nil = ground (arith, append-nil out)

  rounds_plain :
      (c : ℕ) (b : Text)
      → p.cr ≡ false
      → length (c ∷ b) ≤ fuel
      → Same
          (rounds fuel eof (settle eof p out (c ∷ b)))
          (seal eof (prefixed out (run_bytes p (c ∷ b))))
  rounds_plain c b no_cr l =
      rw (settle_plain eof p out (c ∷ b) no_cr)
        (advanced-Same fuel eof (c ∷ b) p out ok no_cr h l ih)

  rounds_cr :
      (c : ℕ) (b : Text)
      → p.cr ≡ true
      → (c == b'\n') ≡ false
      → length (c ∷ b) ≤ fuel
      → Same
          (rounds fuel eof (settle eof p out (c ∷ b)))
          (seal eof (prefixed out (run_bytes p (c ∷ b))))
  unfolding finish_next
  rounds_cr c b cr no_lf l =
      let k = finish_line-Keeps 1 (record p { cr = false }) in
      let f = finish_line 1 (record p { cr = false }) in
      rw
        (
          settle_cr eof p out c b cr no_lf,
          run_bytes_cr p c b ok cr no_lf,
          ← append_assoc out f.1 (run_bytes f.0 (c ∷ b)).1,
        )
        (advanced-Same fuel eof (c ∷ b) f.0 (out ++ f.1) (k.0 ∙ ok) k.1 (k.2 h) l ih)

  rounds_crlf_fits :
      (b : Text)
      → p.cr ≡ true
      → length b ≤ fuel
      → append_raw p (b'\n' ∷ []) ≡ (record p { cur_raw = p.cur_raw ++ b'\n' ∷ [] }, true)
      → Same
          (rounds fuel eof (settle eof p out (b'\n' ∷ b)))
          (seal eof (prefixed out (run_bytes p (b'\n' ∷ b))))
  unfolding finish_next
  rounds_crlf_fits b cr l e =
      let q = record p { cr = false; cur_raw = p.cur_raw ++ b'\n' ∷ [] } in
      let k = finish_line-Keeps 2 q in
      let f = finish_line 2 q in
      rw
        (
          settle_crlf eof p out b cr,
          run_bytes_crlf p b ok cr,
          e,
          ← append_assoc out f.1 (run_bytes f.0 b).1,
        )
        (advanced-Same fuel eof b f.0 (out ++ f.1) (k.0 ∙ ok) k.1
          (k.2 (rw e at (append_raw-InBound p (b'\n' ∷ []) h (rw e)))) l ih)

  rounds_crlf :
      (b : Text)
      → p.cr ≡ true
      → length b ≤ fuel
      → Same
          (rounds fuel eof (settle eof p out (b'\n' ∷ b)))
          (seal eof (prefixed out (run_bytes p (b'\n' ∷ b))))
  rounds_crlf b cr l = elim (append_raw_cases p (b'\n' ∷ [])) [
    | inl e ↦ rounds_crlf_fits b cr l e
    | inr e ↦
        rw (settle_crlf eof p out b cr, run_bytes_crlf p b ok cr, e)
          (unfold seal in ground (arith, append-nil out))
  ]

  rounds-Same :
      (b : Text)
      → length b ≤ fuel
      → Same (rounds fuel eof (settle eof p out b)) (seal eof (prefixed out (run_bytes p b)))
  rounds-Same [] l = rounds_nil
  rounds-Same (c ∷ b) l = elim (Bool-cases p.cr) [
    | inr no_cr ↦ rounds_plain c b no_cr l
    | inl cr ↦ elim (Bool-cases (c == b'\n')) [
      | inr e ↦ rounds_cr c b cr e l
      | inl e ↦ rw ((==_iff c b'\n').0 e) (rounds_crlf b cr (omega arith))
    ]
  ]

pub feed_loop-Agrees : (fuel : ℕ) (eof : Bool) → Agrees fuel eof
feed_loop-Agrees zero eof b p out h l = absurd (omega arith)
feed_loop-Agrees (suc fuel) eof b p out h l = elim (Bool-cases p.err) [
  | inl failed ↦ rw run_bytes_failed (unfold feed_loop seal in ground (arith, append-nil out))
  | inr ok ↦
      subst (λ r. Same r (seal eof (prefixed out (run_bytes p b))))
        (sym (feed_loop_round fuel eof p out b ok))
        (rounds-Same fuel eof (feed_loop-Agrees fuel eof) p out ok h b (omega arith))
]
