-- ===== src/Sse/Replay/Accounted.antt =====
-- The input usage of a replay.
use steady_proxy.Base.{
  Bool, true, false, ◌&&◌, List, [], ◌∷◌, Option, none, some, Text, text, str_eq, str_eq_iff,
  str_eq_refl, str_eq_comm, >>=-some, some_inj, if◌then◌else◌, ◌≡◌, refl, arith, sym, ◌∙◌, subst,
  inl, inr, Bool-cases, Option-cases,
}
use steady_proxy.Headers.{member}
use steady_proxy.Sse.Parser.{Event}
use steady_proxy.Sse.Wire.{CaptureStats}
use steady_proxy.Sse.Replay.{
  Tree, object, number, opaque, Members, no_members, TreeLib, find, put, delete, find_object,
  as_object, object_or_new, with_input, input_keys, strip_keys, encode_sse_frame, backfilled,
  backfill_message_start_usage, stripped, strip_message_delta_input_usage, or_raw, patched_by,
  rewrite, rewrite_all,
}

find-put :
    (k j : Text) (v : Tree) (m : Members)
    → find j (put k v m) ≡ (if str_eq k j then some v else find j m)
unfolding find put
find-put k j v no_members = refl
find-put k j v (Members.member i w m) =
    ground (arith, str_eq_iff i k, str_eq_iff k j, str_eq_iff i j, find-put k j v m)

find-delete :
    (k j : Text) (m : Members) → find j (delete k m) ≡ (if str_eq k j then none else find j m)
unfolding find delete
find-delete k j no_members = ground arith
find-delete k j (Members.member i w m) =
    ground (arith, str_eq_iff i k, str_eq_iff k j, str_eq_iff i j, find-delete k j m)

find-put_self : (k : Text) (v : Tree) (m : Members) → find k (put k v m) ≡ some v
find-put_self k v m = find-put k k v m ∙ rw (str_eq_refl k) refl

as_object-some : (t : Option Tree) (o : Members) → as_object t ≡ some o → t ≡ some (object o)
unfolding as_object
as_object-some none o h = cc
as_object-some (some (object m)) o h = cc
as_object-some (some (number n)) o h = cc
as_object-some (some (opaque t)) o h = cc

-- A `message_start` that carries the input usage of a stream.
abbrev pub Carries : CaptureStats → Members → Type 0
Carries st root =
    (msg : Members) × (usage : Members) × (find (text "message") root ≡ some (object msg))
    × (find (text "usage") msg ≡ some (object usage))
    × (find (text "input_tokens") usage ≡ some (number st.input_tok))
    × (find (text "cache_creation_input_tokens") usage ≡ some (number st.cache_creation_tok))
    × (find (text "cache_read_input_tokens") usage ≡ some (number st.cache_read_tok))

-- A root whose usage has lost the keys of the input, and nothing else.
abbrev pub Lost : Members → Members → Type 0
Lost root next =
    (usage : Members) × (less : Members) × (find (text "usage") root ≡ some (object usage))
    × (next ≡ put (text "usage") (object less) root)
    × ((k : Text) → find k less ≡ (if member k input_keys then none else find k usage))

module _ (lib : TreeLib) (st : CaptureStats) where
  -- Behind the move: each event as it was, or a `message_delta` without its input usage.
  pub data Stripped : List Event → List Text → Type 0 where
    no_event : Stripped [] []
    kept :
        {ev : Event} {evs : List Event} {out : List Text}
        → Stripped evs out
        → Stripped (ev ∷ evs) (ev.raw ∷ out)
    less_input :
        {ev : Event} {evs : List Event} {frame : Text} {out : List Text}
        → (root next : Members) → ev.name ≡ text "message_delta"
        → lib.decode ev.data_text ≡ some root
        → Lost root next
        → encode_sse_frame lib (text "message_delta") next ≡ some frame
        → Stripped evs out
        → Stripped (ev ∷ evs) (frame ∷ out)

  -- Up to the move every event is as it was; the move is a `message_start` that carries the usage.
  pub data Moved : List Event → List Text → Type 0 where
    at_end : Moved [] []
    as_it_was :
        {ev : Event} {evs : List Event} {out : List Text}
        → Moved evs out
        → Moved (ev ∷ evs) (ev.raw ∷ out)
    carried :
        {ev : Event} {evs : List Event} {frame : Text} {out : List Text}
        → (root : Members) → ev.name ≡ text "message_start"
        → Carries st root
        → encode_sse_frame lib (text "message_start") root ≡ some frame
        → Stripped evs out
        → Moved (ev ∷ evs) (frame ∷ out)

  with_input-Carries :
      (m : Members)
      → (find (text "input_tokens") (with_input st m) ≡ some (number st.input_tok))
        × (find (text "cache_creation_input_tokens") (with_input st m)
            ≡ some (number st.cache_creation_tok))
        × (find (text "cache_read_input_tokens") (with_input st m)
            ≡ some (number st.cache_read_tok))
  unfolding with_input str_eq
  with_input-Carries m =
      let a = put (text "input_tokens") (number st.input_tok) m in
      let b = put (text "cache_creation_input_tokens") (number st.cache_creation_tok) a in
      (
        find-put (text "cache_read_input_tokens") (text "input_tokens") (number st.cache_read_tok) b
            ∙ (find-put (text "cache_creation_input_tokens") (text "input_tokens")
                  (number st.cache_creation_tok) a
                ∙ find-put (text "input_tokens") (text "input_tokens") (number st.input_tok) m),
        find-put (text "cache_read_input_tokens") (text "cache_creation_input_tokens")
              (number st.cache_read_tok) b
            ∙ find-put (text "cache_creation_input_tokens") (text "cache_creation_input_tokens")
                (number st.cache_creation_tok) a,
        find-put (text "cache_read_input_tokens") (text "cache_read_input_tokens")
            (number st.cache_read_tok) b,
      )

  backfilled-Carries :
      (data_text : Text) (root : Members)
      → backfilled lib data_text st ≡ some root
      → Carries st root
  unfolding backfilled
  backfilled-Carries data_text root h =
      let (top, d, h1) = >>=-some (lib.decode data_text) _ h in
      let (msg, f, h2) = >>=-some (find_object (text "message") top) _ h1 in
      let usage = with_input st (object_or_new (find_object (text "usage") msg)) in
      let next = put (text "usage") (object usage) msg in
      let (i, c, r) = with_input-Carries (object_or_new (find_object (text "usage") msg)) in
      subst (Carries st) (some_inj h2) (
        next,
        usage,
        find-put_self (text "message") (object next) top,
        find-put_self (text "usage") (object usage) msg,
        i,
        c,
        r,
      )

  strip_keys-Lost :
      (k : Text) (m : Members)
      → find k (strip_keys input_keys m).0 ≡ (if member k input_keys then none else find k m)
  unfolding strip_keys member
  strip_keys-Lost k m =
      let a = text "input_tokens" in
      let b = text "cache_creation_input_tokens" in
      let c = text "cache_read_input_tokens" in
      ground (
        arith,
        find-delete c k (delete b (delete a m)),
        find-delete b k (delete a m),
        find-delete a k m,
        str_eq_comm a k,
        str_eq_comm b k,
        str_eq_comm c k,
      )

  find_object-object :
      (k : Text) (m o : Members) → find_object k m ≡ some o → find k m ≡ some (object o)
  unfolding find_object
  find_object-object k m o h = as_object-some (find k m) o h

  stripped-some :
      (root : Members) (u : Members × Bool) (next : Members)
      → stripped lib root u ≡ some next
      → next ≡ put (text "usage") (object u.0) root
  unfolding stripped
  stripped-some root (less, true) next h = sym (some_inj h)
  stripped-some root (less, false) next h = cc

  strip-Lost :
      (ev : Event) (frame : Text)
      → strip_message_delta_input_usage lib ev ≡ some frame
      → (root : Members) × (next : Members) × (lib.decode ev.data_text ≡ some root)
        × Lost root next
        × (encode_sse_frame lib (text "message_delta") next ≡ some frame)
  unfolding strip_message_delta_input_usage
  strip-Lost ev frame h =
      let (root, d, h1) = >>=-some (lib.decode ev.data_text) _ h in
      let (usage, f, h2) = >>=-some (find_object (text "usage") root) _ h1 in
      let (next, s, h3) = >>=-some (stripped lib root (strip_keys input_keys usage)) _ h2 in
      (
        root,
        next,
        d,
        (
          usage,
          (strip_keys input_keys usage).0,
          find_object-object (text "usage") root usage f,
          stripped-some root (strip_keys input_keys usage) next s,
          λ k. strip_keys-Lost k usage,
        ),
        h3,
      )

  -- The switch behind the move, and before it.
  rewrite-patched :
      (backfill : Bool) (ev : Event)
      → rewrite lib backfill st true ev ≡ (
          if str_eq ev.name (text "message_delta")
          then (or_raw lib ev.raw (strip_message_delta_input_usage lib ev), true)
          else (ev.raw, true))
  unfolding rewrite
  rewrite-patched true ev = refl
  rewrite-patched false ev = refl

  rewrite-unpatched :
      (backfill : Bool) (ev : Event)
      → rewrite lib backfill st false ev ≡ (
          if backfill && str_eq ev.name (text "message_start")
          then (
            or_raw lib ev.raw (backfill_message_start_usage lib ev st),
            patched_by lib (backfill_message_start_usage lib ev st),
          )
          else (ev.raw, false))
  unfolding rewrite
  rewrite-unpatched true ev = refl
  rewrite-unpatched false ev = refl

  rewrite_all-Stripped :
      (backfill : Bool) (evs : List Event) → Stripped evs (rewrite_all lib backfill st true evs)
  unfolding rewrite_all or_raw
  rewrite_all-Stripped backfill [] = no_event
  rewrite_all-Stripped backfill (ev ∷ evs) =
      let rest = rewrite_all-Stripped backfill evs in
      rw (rewrite-patched backfill ev) (elim (Bool-cases (str_eq ev.name (text "message_delta"))) [
        | inr n ↦ rw n (kept rest)
        | inl y ↦ elim (Option-cases (strip_message_delta_input_usage lib ev)) [
          | inl e ↦ rw (y, e) (kept rest)
          | inr (frame, e) ↦
              let (root, next, d, lost, f) = strip-Lost ev frame e in
              rw (y, e)
                (less_input root next ((str_eq_iff ev.name (text "message_delta")).0 y) d lost f
                  rest)
        ]
      ])

  -- In the replay of a stream, nothing changes unless the input usage moves; it moves from the
  -- `message_delta`s to a `message_start`: this one then carries the usage of the stream, what is in
  -- front of it is as it was, and behind it a `message_delta` may lose the keys of the input usage
  -- and nothing else.
  pub rewrite_all-Moved :
      (backfill : Bool) (evs : List Event) → Moved evs (rewrite_all lib backfill st false evs)
  unfolding rewrite_all or_raw patched_by backfill_message_start_usage
  rewrite_all-Moved backfill [] = at_end
  rewrite_all-Moved backfill (ev ∷ evs) =
      let rest = rewrite_all-Moved backfill evs in
      rw (rewrite-unpatched backfill ev)
        (elim (Bool-cases (backfill && str_eq ev.name (text "message_start"))) [
          | inr n ↦ rw n (as_it_was rest)
          | inl y ↦ elim (Option-cases (backfill_message_start_usage lib ev st)) [
            | inl e ↦ rw (y, e) (as_it_was rest)
            | inr (frame, e) ↦
                let (root, b, f) = >>=-some (backfilled lib ev.data_text st) _ e in
                let start : str_eq ev.name (text "message_start") ≡ true = ground (arith, y) in
                rw (y, e)
                  (carried root ((str_eq_iff ev.name (text "message_start")).0 start)
                    (backfilled-Carries ev.data_text root b) f (rewrite_all-Stripped backfill evs))
          ]
        ])
