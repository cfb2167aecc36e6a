-- ===== src/Responses/Reader/Conserves.antt =====
-- The bytes of a replay's frames are the bytes of the spool.
use mathlib.Core.List.{append-nil, append_assoc}
use steady_proxy.Base.{
  ℕ, ◌+◌, ◌≤◌, Bool, true, false, not, ◌&&◌, List, [], ◌∷◌, ◌++◌, map, Text, is_nil, is_nil_eq,
  concat, length, ltb, ◌==◌, if◌then◌else◌, ◌≡◌, refl, ◌∙◌, ap, sym, subst, arith, Bool-cases, inl,
  inr, length-append,
}
use steady_proxy.Responses.Reader.{
  Call, flush_group, write_raw, accept_raw, Reader, new_reader, append_bytes, finish_frame,
  end_frame, extend, after_cr, on_byte, read_byte, read_bytes, read_chunks, at_eof, replay_calls,
}

-- The bytes that the calls carry.
abbrev pub call_bytes : List Call → Text
call_bytes [] = []
call_bytes (flush_group ∷ ks) = call_bytes ks
call_bytes (write_raw p ∷ ks) = p ++ call_bytes ks
call_bytes (accept_raw raw ∷ ks) = raw ++ call_bytes ks

-- Every frame for the coalescer is within the budget.
abbrev pub Within : ℕ → List Call → Type 0
Within n [] = Unit
Within n (flush_group ∷ ks) = Within n ks
Within n (write_raw p ∷ ks) = Within n ks
Within n (accept_raw raw ∷ ks) = (length raw ≤ n) × Within n ks

call_bytes-append : (ks ls : List Call) → call_bytes (ks ++ ls) ≡ call_bytes ks ++ call_bytes ls
call_bytes-append [] ls = refl
call_bytes-append (flush_group ∷ ks) ls = call_bytes-append ks ls
call_bytes-append (write_raw p ∷ ks) ls =
    ap (λ r. p ++ r) (call_bytes-append ks ls)
    ∙ sym (append_assoc p (call_bytes ks) (call_bytes ls))
call_bytes-append (accept_raw p ∷ ks) ls =
    ap (λ r. p ++ r) (call_bytes-append ks ls)
    ∙ sym (append_assoc p (call_bytes ks) (call_bytes ls))

call_bytes-overflow :
    (ks : List Call) (f s : Text)
    → call_bytes ((ks ++ flush_group ∷ write_raw f ∷ []) ++ write_raw s ∷ [])
      ≡ call_bytes ks ++ (f ++ s)
call_bytes-overflow ks f s =
    let over = flush_group ∷ write_raw f ∷ [] in
    rw
      (
        call_bytes-append (ks ++ over) (write_raw s ∷ []),
        call_bytes-append ks over,
        append-nil f,
        append-nil s,
      )
      (append_assoc (call_bytes ks) f s)

Within-append : (n : ℕ) (ks ls : List Call) → Within n ks → Within n ls → Within n (ks ++ ls)
Within-append n [] ls h g = g
Within-append n (flush_group ∷ ks) ls h g = Within-append n ks ls h g
Within-append n (write_raw p ∷ ks) ls h g = Within-append n ks ls h g
Within-append n (accept_raw p ∷ ks) ls h g = (h.0, Within-append n ks ls h.1 g)

-- What has been read: the calls, the frame, and the segment.
abbrev consumed : Reader → Text
consumed r = call_bytes r.calls ++ (r.frame ++ r.segment)

module _ (max_group_bytes : ℕ) where
  -- The reader has read `t`; a frame that passes through is not held.
  abbrev Reads : Text → Reader → Type 0
  Reads t r =
      (consumed r ≡ t)
      × (r.passthrough ≡ true → r.frame ≡ [])
      × (length r.frame ≤ max_group_bytes)
      × Within max_group_bytes r.calls

  append_bytes-segment : (r : Reader) → (append_bytes max_group_bytes r).segment ≡ []
  unfolding append_bytes
  append_bytes-segment r = elim (Bool-cases (is_nil r.segment)) [
    | inl y ↦ rw (y) refl
    | inr n ↦ elim (Bool-cases r.passthrough) [
      | inl y ↦ rw (n, y) (ground (arith, y))
      | inr m ↦ elim (Bool-cases (ltb max_group_bytes (length r.frame + length r.segment))) [
        | inl o ↦ rw (n, m, o) refl
        | inr o ↦ rw (n, m, o) (ground (arith, m))
      ]
    ]
  ]

  append_bytes-Reads :
      (t : Text) (r : Reader) → Reads t r → Reads t (append_bytes max_group_bytes r)
  unfolding append_bytes
  append_bytes-Reads t r (c, p, l, w) = elim (Bool-cases (is_nil r.segment)) [
    | inl y ↦ rw (y) ((ground (arith, c, is_nil_eq r.segment y), p, l, w))
    | inr n ↦ elim (Bool-cases r.passthrough) [
      | inl y ↦
          rw (n, y)
            ((
              ground (
                arith,
                c,
                y,
                p y,
                call_bytes-append r.calls (write_raw r.segment ∷ []),
                append-nil r.segment,
                append-nil (call_bytes r.calls ++ r.segment),
              ),
              (λ q. p y),
              l,
              Within-append max_group_bytes r.calls (write_raw r.segment ∷ []) w tt,
            ))
      | inr m ↦ elim (Bool-cases (ltb max_group_bytes (length r.frame + length r.segment))) [
        | inl o ↦
            rw (n, m, o)
              ((
                append-nil (
                      call_bytes (
                        (r.calls ++ flush_group ∷ write_raw r.frame ∷ [])
                        ++ write_raw r.segment ∷ []))
                    ∙ call_bytes-overflow r.calls r.frame r.segment
                    ∙ c,
                (λ q. refl),
                omega arith,
                Within-append max_group_bytes (r.calls ++ flush_group ∷ write_raw r.frame ∷ [])
                    (write_raw r.segment ∷ [])
                    (Within-append max_group_bytes r.calls (flush_group ∷ write_raw r.frame ∷ []) w
                      tt)
                    tt,
              ))
        | inr o ↦
            rw (n, m, o)
              ((
                ground (arith, c, append-nil (r.frame ++ r.segment)),
                (λ q. ground (arith, q, m)),
                ground (arith, o, length-append r.frame r.segment),
                w,
              ))
      ]
    ]
  ]

  finish_frame-Reads :
      (t : Text) (r : Reader)
      → r.segment ≡ []
      → Reads t r
      → Reads t (finish_frame max_group_bytes r)
  unfolding finish_frame
  finish_frame-Reads t r e (c, p, l, w) = elim (Bool-cases r.passthrough) [
    | inl y ↦ rw (y) ((ground (arith, e, c, p y), (λ q. refl), omega arith, w))
    | inr n ↦ rw (n) (
        (
          ground (
            arith,
            e,
            c,
            call_bytes-append r.calls (accept_raw r.frame ∷ []),
            append-nil r.frame,
            append-nil (call_bytes r.calls ++ r.frame),
          ),
          (λ q. refl),
          omega arith,
          Within-append max_group_bytes r.calls (accept_raw r.frame ∷ []) w (l, tt),
        ))
  ]

  end_frame-Reads : (t : Text) (r : Reader) → Reads t r → Reads t (end_frame max_group_bytes r)
  unfolding end_frame
  end_frame-Reads t r h =
      finish_frame-Reads t (append_bytes max_group_bytes r) (append_bytes-segment r)
        (append_bytes-Reads t r h)

  extend-Reads : (t : Text) (b : ℕ) (r : Reader) → Reads t r → Reads (t ++ b ∷ []) (extend b r)
  unfolding extend
  extend-Reads t b r (c, p, l, w) = (
    ground (
      arith,
      ap (λ x. x ++ b ∷ []) c,
      append_assoc (call_bytes r.calls) (r.frame ++ r.segment) (b ∷ []),
      append_assoc r.frame r.segment (b ∷ []),
    ),
    p,
    l,
    w,
  )

  branch-Reads :
      (t : Text) (b : Bool) (x y : Reader) → Reads t x → Reads t y → Reads t (if b then x else y)
  branch-Reads t true x y h g = h
  branch-Reads t false x y h g = g

  after_cr-Reads : (t : Text) (r : Reader) → Reads t r → Reads t (after_cr max_group_bytes r)
  unfolding after_cr
  after_cr-Reads t r h =
      let cleared = record r { pending_cr = false } in
      branch-Reads t r.frame_done
        (record (end_frame max_group_bytes cleared) { frame_done = false }) cleared
        (end_frame-Reads t cleared h) h

  on_byte-Reads :
      (t : Text) (b : ℕ) (r : Reader)
      → Reads t r
      → Reads (t ++ b ∷ []) (on_byte max_group_bytes b r)
  unfolding on_byte
  on_byte-Reads t b r h =
      let u = t ++ b ∷ [] in
      let e = extend b r in
      let k : Reads u e = extend-Reads t b r h in
      branch-Reads u (b == 13) _ _ k (
        branch-Reads u (b == 10) _ _
          (branch-Reads u (not r.line_has_data) (end_frame max_group_bytes e) e
            (end_frame-Reads u e k) k)
          k)

  read_byte-Reads :
      (t : Text) (b : ℕ) (r : Reader)
      → Reads t r
      → Reads (t ++ b ∷ []) (read_byte max_group_bytes b r)
  unfolding read_byte
  read_byte-Reads t b r h =
      let u = t ++ b ∷ [] in
      branch-Reads u r.pending_cr _ _
        (branch-Reads u (b == 10) _ _ (after_cr-Reads u (extend b r) (extend-Reads t b r h))
          (on_byte-Reads t b (after_cr max_group_bytes r) (after_cr-Reads t r h)))
        (on_byte-Reads t b r h)

  read_bytes-Reads :
      (t bs : Text) (r : Reader) → Reads t r → Reads (t ++ bs) (read_bytes max_group_bytes bs r)
  unfolding read_bytes
  read_bytes-Reads t [] r h = rw (append-nil t) h
  read_bytes-Reads t (b ∷ bs) r h =
      subst (λ u. Reads u (read_bytes max_group_bytes bs (read_byte max_group_bytes b r)))
        (append_assoc t (b ∷ []) bs)
        (read_bytes-Reads (t ++ b ∷ []) bs (read_byte max_group_bytes b r)
          (read_byte-Reads t b r h))

  read_chunks-Reads :
      (t : Text) (chunks : List Text) (r : Reader)
      → Reads t r
      → Reads (t ++ concat chunks) (read_chunks max_group_bytes chunks r)
  unfolding read_chunks
  read_chunks-Reads t [] r h = rw (append-nil t) h
  read_chunks-Reads t (chunk ∷ chunks) r h =
      let next = append_bytes max_group_bytes (read_bytes max_group_bytes chunk r) in
      subst (λ u. Reads u (read_chunks max_group_bytes chunks next))
        (append_assoc t chunk (concat chunks))
        (read_chunks-Reads (t ++ chunk) chunks next (
          append_bytes-Reads (t ++ chunk) (read_bytes max_group_bytes chunk r)
            (read_bytes-Reads t chunk r h)))

  read_chunks-segment :
      (chunks : List Text) (r : Reader)
      → r.segment ≡ []
      → (read_chunks max_group_bytes chunks r).segment ≡ []
  unfolding read_chunks
  read_chunks-segment [] r h = h
  read_chunks-segment (chunk ∷ chunks) r h =
      let read = read_bytes max_group_bytes chunk r in
      read_chunks-segment chunks (append_bytes max_group_bytes read) (append_bytes-segment read)

  finish_frame-segment :
      (r : Reader) → r.segment ≡ [] → (finish_frame max_group_bytes r).segment ≡ []
  unfolding finish_frame
  finish_frame-segment r e = ground (arith, e)

  branch-segment :
      (b : Bool) (x y : Reader)
      → x.segment ≡ []
      → y.segment ≡ []
      → (if b then x else y).segment ≡ []
  branch-segment true x y h g = h
  branch-segment false x y h g = g

  at_eof-Reads :
      (t : Text) (r : Reader)
      → r.segment ≡ []
      → Reads t r
      → (call_bytes (at_eof max_group_bytes r) ≡ t)
        × Within max_group_bytes (at_eof max_group_bytes r)
  unfolding at_eof
  at_eof-Reads t r e h =
      let done = r.pending_cr && r.frame_done in
      let d = if done then finish_frame max_group_bytes r else r in
      let k : Reads t d =
        branch-Reads t done (finish_frame max_group_bytes r) r (finish_frame-Reads t r e h) h in
      let s : d.segment ≡ [] =
        branch-segment done (finish_frame max_group_bytes r) r (finish_frame-segment r e) e in
      (
        ground (
          arith,
          k.0,
          s,
          call_bytes-append d.calls (flush_group ∷ write_raw d.frame ∷ []),
          append-nil d.frame,
        ),
        Within-append max_group_bytes d.calls (flush_group ∷ write_raw d.frame ∷ []) k.3 tt,
      )

map_write-bytes : (chunks : List Text) → call_bytes (map write_raw chunks) ≡ concat chunks
map_write-bytes [] = refl
map_write-bytes (chunk ∷ chunks) = ap (λ r. chunk ++ r) (map_write-bytes chunks)

map_write-Within : (n : ℕ) (chunks : List Text) → Within n (map write_raw chunks)
map_write-Within n [] = tt
map_write-Within n (chunk ∷ chunks) = map_write-Within n chunks

-- However the spool is cut into reads, the bytes that a replay writes as they are and the frames
-- that it hands to the coalescer are together the bytes of the spool, in order, and no frame that it
-- hands over is longer than the budget of a group.
pub replay_calls-Conserves :
    (max_group_bytes : ℕ) (chunks : List Text)
    → (call_bytes (replay_calls max_group_bytes chunks) ≡ concat chunks)
      × Within max_group_bytes (replay_calls max_group_bytes chunks)
unfolding replay_calls
replay_calls-Conserves max_group_bytes chunks = elim (Bool-cases (max_group_bytes == 0)) [
  | inl y ↦ rw (y) ((map_write-bytes chunks, map_write-Within max_group_bytes chunks))
  | inr n ↦ rw (n) (
      at_eof-Reads max_group_bytes (concat chunks) (read_chunks max_group_bytes chunks new_reader)
        (read_chunks-segment max_group_bytes chunks new_reader refl)
        (read_chunks-Reads max_group_bytes [] chunks new_reader
          (refl, (λ q. refl), omega arith, tt)))
]
