-- ===== src/Sse/Parser/Rounds.antt =====
-- One round of `feedChunk`'s loop against the bytewise parser.
use mathlib.Core.List.{append-nil, append_assoc}
use steady_proxy.Base.{
  ℕ, ◌<◌, ◌≤◌, Bool, true, false, not, ◌&&◌, ◌||◌, List, [], ◌∷◌, ◌++◌, inl, inr, ◌≡◌, refl, arith,
  Text, length, length-append, ltb, ◌==◌, if◌then◌else◌, Bool-cases,
}
use steady_proxy.Sse.Parser.{
  Parser, Event, append_raw, finish_line, finish_next, Round, next, stop, is_line_end, split_line,
  ends_in, advance, feed_loop, after_round, read_line, line_of,
}
use steady_proxy.Sse.Parser.Bytewise.{
  plain_byte, byte_step, run_bytes, seal, Same, prefixed, run_bytes_failed, length-split_line_cons,
}

-- The bytes held fit the bound.
abbrev pub InBound : Parser → Type 0
InBound p = (ltb 0 p.max_event_bytes && ltb p.max_event_bytes (length p.cur_raw)) ≡ false

ends_in-concat : (e c : ℕ) (s : Text) → ends_in e (s ++ c ∷ []) ≡ (c == e)
unfolding ends_in
ends_in-concat e c [] = refl
ends_in-concat e c (x ∷ []) = refl
ends_in-concat e c (x ∷ y ∷ s) = ends_in-concat e c (y ∷ s)

-- A finished line leaves the failure, the pending CR and the bound as they are.
abbrev pub Keeps : Parser → Parser → Type 0
Keeps p q = (q.err ≡ p.err) × (q.cr ≡ p.cr) × (InBound p → InBound q)

read_line-Keeps : (p : Parser) (line : Text) → Keeps p (read_line p line).0
unfolding read_line
read_line-Keeps p [] = (refl, refl, λ h. ground arith)
read_line-Keeps p (c ∷ line) = (ground arith, ground arith, λ h. ground arith)

pub finish_line-Keeps : (n : ℕ) (p : Parser) → Keeps p (finish_line n p).0
unfolding finish_line
finish_line-Keeps n p =
    read_line-Keeps (record p { line_start = length p.cur_raw; started = true }) (line_of n p)

pub append_raw-InBound :
    (p : Parser) (b : Text) → InBound p → (append_raw p b).1 ≡ true → InBound (append_raw p b).0
unfolding append_raw
append_raw-InBound p b h f = ground (arith, length-append p.cur_raw b)

-- The parse that a round stands for.
abbrev resume : Round → Parser × List Event
resume (stop q evs) = (q, evs)
resume (next q evs rest) = prefixed evs (run_bytes q rest)

-- What `advance` does with a split of the bytes left.
round_of : Parser → List Event → Text × Bool × Text → Round
unfolding finish_next
round_of p out (line, found, rest) =
    let (q, fits) = append_raw p line in
    if not fits || not found
    then stop q out
    else if ends_in b'\r' q.cur_raw
    then next (record q { cr = true }) out rest
    else finish_next 1 q out rest

module _ (p : Parser) (out : List Event) (ok : p.err ≡ false) (no_cr : p.cr ≡ false)
    (h : InBound p) where
  round_of_end :
      (c : ℕ) (b : Text)
      → is_line_end c ≡ true
      → Same (prefixed out (run_bytes p (c ∷ b))) (resume (round_of p out (c ∷ [], true, b)))
  unfolding run_bytes byte_step plain_byte append_raw round_of
  round_of_end c b e = elim (Bool-cases (c == b'\r')) [
    | inl cr ↦ ground (
      arith,
      append-nil out,
      ends_in-concat b'\r' c p.cur_raw,
      run_bytes_failed (record p { err = true }) b,
    )
    | inr lf ↦ ground (
      arith,
      append-nil out,
      ends_in-concat b'\r' c p.cur_raw,
      run_bytes_failed (record p { err = true }) b,
      append_assoc out (finish_line 1 (record p { cur_raw = p.cur_raw ++ c ∷ [] })).1
          (run_bytes (finish_line 1 (record p { cur_raw = p.cur_raw ++ c ∷ [] })).0 b).1,
    )
  ]

pub Same-sym : {a b : Parser × List Event} → Same a b → Same b a
Same-sym s = ground arith

pub Same-trans : {a b c : Parser × List Event} → Same a b → Same b c → Same a c
Same-trans s t = ground arith

pub Same-seal : (eof : Bool) (a b : Parser × List Event) → Same a b → Same (seal eof a) (seal eof b)
unfolding seal
Same-seal eof a b s = ground arith

-- A byte that ends no line joins the bytes behind it.
round_of_more :
    (p : Parser) (out : List Event) (c : ℕ) (b : Text) (rest : Text × Bool × Text)
    → p.err ≡ false
    → p.cr ≡ false
    → is_line_end c ≡ false
    → ((q : Parser)
        → q ≡ record p { cur_raw = p.cur_raw ++ c ∷ [] }
        → InBound q
        → Same (prefixed out (run_bytes q b)) (resume (round_of q out rest)))
    → InBound p
    → Same
        (prefixed out (run_bytes p (c ∷ b)))
        (resume (round_of p out (c ∷ rest.0, rest.1, rest.2)))
unfolding run_bytes byte_step plain_byte append_raw round_of
round_of_more p out c b (line, found, rest) ok no_cr e ih h =
    elim (Bool-cases
      (ltb 0 p.max_event_bytes && ltb p.max_event_bytes (length (p.cur_raw ++ c ∷ [])))) [
        | inl over ↦ ground (
          arith,
          append-nil out,
          length-append p.cur_raw (c ∷ []),
          run_bytes_failed (record p { err = true }) b,
        )
        | inr fits ↦ ground (
          arith,
          append-nil out,
          append_assoc p.cur_raw (c ∷ []) line,
          length-append p.cur_raw (c ∷ []),
          length-append (p.cur_raw ++ c ∷ []) line,
          ih (record p { cur_raw = p.cur_raw ++ c ∷ [] }) refl fits,
        )
      ]

round_of-Same :
    (b : Text) (p : Parser) (out : List Event)
    → p.err ≡ false
    → p.cr ≡ false
    → InBound p
    → Same (prefixed out (run_bytes p b)) (resume (round_of p out (split_line b)))
unfolding run_bytes split_line
round_of-Same [] p out ok no_cr h =
    unfold round_of append_raw in ground (arith, append-nil out, append-nil p.cur_raw)
round_of-Same (c ∷ b) p out ok no_cr h = elim (Bool-cases (is_line_end c)) [
  | inl e ↦ rw e (round_of_end p out ok no_cr h c b e)
  | inr e ↦ rw e (
      round_of_more p out c b (split_line b) ok no_cr e
        (λ q eq g. round_of-Same b q out (rw eq ok) (rw eq no_cr) g) h)
]

advance-Same :
    (b : Text) (p : Parser) (out : List Event)
    → p.err ≡ false
    → p.cr ≡ false
    → InBound p
    → Same (prefixed out (run_bytes p b)) (resume (advance p out b))
unfolding advance
advance-Same [] p out ok no_cr h = unfold run_bytes in (append-nil out, inl refl)
advance-Same (c ∷ b) p out ok no_cr h = unfold round_of in round_of-Same (c ∷ b) p out ok no_cr h

-- A loop may end at a `stop`, and may go on at a `next` with less to read.
abbrev Fine : ℕ → Round → Type 0
Fine k (stop q evs) = (q.err || not q.cr) ≡ true
Fine k (next q evs rest) = InBound q × (length rest < k)

advance-Fine :
    (k : ℕ) (b : Text) (p : Parser) (out : List Event)
    → p.cr ≡ false
    → InBound p
    → length b ≤ k
    → Fine k (advance p out b)
unfolding advance append_raw finish_next
advance-Fine k [] p out no_cr h l = ground arith
advance-Fine k (c ∷ b) p out no_cr h l =
    let q = append_raw p (split_line (c ∷ b)).0 in
    ground (
      arith,
      length-split_line_cons c b,
      length-append p.cur_raw (split_line (c ∷ b)).0,
      (finish_line-Keeps 1 (record p { cur_raw = p.cur_raw ++ (split_line (c ∷ b)).0 })).2,
    )

abbrev pub Agrees : ℕ → Bool → Type 0
Agrees fuel eof =
    (b : Text) (p : Parser) (out : List Event)
    → InBound p
    → length b < fuel
    → Same (feed_loop fuel eof p out b) (seal eof (prefixed out (run_bytes p b)))

after_round-Same :
    (fuel : ℕ) (eof : Bool) (r : Round)
    → Fine fuel r
    → Agrees fuel eof
    → Same (after_round (feed_loop fuel eof) r) (seal eof (resume r))
unfolding seal
after_round-Same fuel eof (stop q evs) f ih = ground arith
after_round-Same fuel eof (next q evs rest) f ih = ih rest q evs f.0 f.1

-- The loop behind the settled CR.
pub advanced-Same :
    (fuel : ℕ) (eof : Bool) (b : Text) (p : Parser) (out : List Event)
    → p.err ≡ false
    → p.cr ≡ false
    → InBound p
    → length b ≤ fuel
    → Agrees fuel eof
    → Same
        (after_round (feed_loop fuel eof) (advance p out b))
        (seal eof (prefixed out (run_bytes p b)))
advanced-Same fuel eof b p out ok no_cr h l ih =
    Same-trans
      (after_round-Same fuel eof (advance p out b) (advance-Fine fuel b p out no_cr h l) ih)
      (Same-seal eof _ _ (Same-sym (advance-Same b p out ok no_cr h)))
