-- ===== src/Sse/Capture/Transaction.antt =====
-- What reaches the client, whatever the wire, the transport, the disk and the timers do.
use steady_proxy.Base.{
  Bool, true, false, List, [], ◌∷◌, ◌++◌, Option, none, some, ◌≡◌, refl, ◌⊎◌, inl, inr, arith, Text,
  Option-cases, text,
}
use steady_proxy.Classify.Http.{ContextEnd}
use steady_proxy.Config.{Config}
use steady_proxy.Failure.{Failure}
use steady_proxy.Sse.Capture.{
  Capture, Outcome, going, returned, Input, read, keep_tick, idle_tick, context_done, Policy,
  is_some, bodies, replay_captured, commit_live, observe, live_event, buffered_failure, store_event,
  buffered_event, one_event, process, check_parser, classify_buffer_error, idle_failure,
  context_failure, end_of_read, after_events, commit_then, commit_early, then_go, on_read, ping,
  on_keep_tick, start, step, run,
}
use steady_proxy.Sse.Parser.{Event, feed_chunk}
use steady_proxy.Sse.Spool.{too_large, write, contents}
use steady_proxy.Sse.Wire.{ReadError, eof, Sent, head, body, WireModel}

abbrev all_body : List Sent → Bool
all_body [] = true
all_body (head h ∷ r) = false
all_body (body b ∷ r) = all_body r

-- One head, and body bytes behind it.
abbrev pub one_head : List Sent → Bool
one_head [] = false
one_head (head h ∷ r) = all_body r
one_head (body b ∷ r) = false

all_body-append :
    (r : List Sent) (ps : List Text) → all_body r ≡ true → all_body (r ++ bodies ps) ≡ true
unfolding bodies
all_body-append [] [] h = refl
all_body-append [] (p ∷ ps) h = all_body-append [] ps h
all_body-append (head x ∷ r) ps h = cc
all_body-append (body b ∷ r) ps h = all_body-append r ps h

one_head-append :
    (r : List Sent) (ps : List Text) → one_head r ≡ true → one_head (r ++ bodies ps) ≡ true
one_head-append [] ps h = cc
one_head-append (head x ∷ r) ps h = all_body-append r ps h
one_head-append (body b ∷ r) ps h = cc

module _ {W : Type 0} where
  -- Nothing sent before the commit; one head, and bytes behind it, after.
  abbrev pub Inv : Capture W → Type 0
  Inv s =
      ((s.committed ≡ false) × (s.head_written ≡ false) × (s.sent ≡ []))
      ⊎ ((s.committed ≡ true) × (s.head_written ≡ true) × (one_head s.sent ≡ true))

  abbrev pub Kept : Outcome W → Type 0
  Kept (going s) = Inv s
  Kept (returned false fail s) = (s.sent ≡ []) × (is_some fail ≡ true)
  Kept (returned true fail s) = one_head s.sent ≡ true

  abbrev Open : Capture W → Type 0
  Open s = (s.committed ≡ false) × (s.head_written ≡ false) × (s.sent ≡ [])

  abbrev Live : Capture W → Type 0
  Live s = (s.committed ≡ true) × (s.head_written ≡ true) × (one_head s.sent ≡ true)

  returned-Kept : (s : Capture W) (f : Failure) → Inv s → Kept (returned s.committed (some f) s)
  returned-Kept s f (inl h) = rw h.0 (h.2, refl)
  returned-Kept s f (inr h) = rw h.0 h.2

module _ {W : Type 0} (cfg : Config) (disk : Text → Text → Option Text) (m : WireModel W)
    (pol : Policy) where
  replay_captured-Kept : (s : Capture W) → Open s → Kept (replay_captured cfg disk m pol s)
  unfolding replay_captured
  replay_captured-Kept s h = ground (
    arith,
    all_body-append []
        (m.replay_buffered s.wire (contents s.spool)
          (record (s.stats) { mode = text "buffered" })).written,
  )

  live_event-Kept : (ev : Event) (s : Capture W) → Live s → Kept (live_event cfg disk m pol ev s)
  unfolding live_event
  live_event-Kept ev s h =
      let r = m.live s.wire ev s.stats in
      ground (
        arith,
        one_head-append s.sent r.forward h.2,
        one_head-append (s.sent ++ bodies r.forward) (m.keepalive ∷ []),
      )

  store_event-Kept :
      (ev : Event) (done : Bool) (s : Capture W)
      → Open s
      → Kept (store_event cfg disk m pol ev done s)
  unfolding store_event
  store_event-Kept ev done s h =
      ground
        (arith, replay_captured-Kept (record s { spool = (write cfg disk s.spool ev.raw).0 }) h)

  buffered_failure-Kept :
      (ev : Event) (f : Failure) (s : Capture W)
      → Open s
      → Kept (buffered_failure cfg disk m pol ev f s)
  unfolding buffered_failure
  buffered_failure-Kept ev f s h = ground (arith)

  buffered_event-Kept :
      (ev : Event) (s : Capture W) → Open s → Kept (buffered_event cfg disk m pol ev s)
  unfolding buffered_event
  buffered_event-Kept ev s h =
      let r = m.buffered s.wire ev s.stats in
      let t = record s { wire = r.wire; stats = r.stats } in
      elim (Option-cases r.fail) [
        | inl e ↦ ground (arith, e, store_event-Kept ev r.done t h)
        | inr (f, e) ↦ ground (arith, e, buffered_failure-Kept ev f t h)
      ]

  one_event-Kept : (ev : Event) (s : Capture W) → Inv s → Kept (one_event cfg disk m pol ev s)
  unfolding one_event observe
  one_event-Kept ev s (inl h) =
      ground (arith, h, buffered_event-Kept ev (observe cfg disk m pol ev s) h)
  one_event-Kept ev s (inr h) =
      ground (arith, h, live_event-Kept ev (observe cfg disk m pol ev s) h)

  then_go-Kept :
      (go : Capture W → Outcome W)
      → (o : Outcome W) → ((s : Capture W) → Inv s → Kept (go s))
      → Kept o
      → Kept (then_go cfg disk m pol go o)
  unfolding then_go
  then_go-Kept go (going s) h k = h s k
  then_go-Kept go (returned false fail s) h k = k
  then_go-Kept go (returned true fail s) h k = k

  process-Kept : (evs : List Event) (s : Capture W) → Inv s → Kept (process cfg disk m pol evs s)
  unfolding process
  process-Kept [] s h = h
  process-Kept (ev ∷ evs) s h =
      then_go-Kept (process cfg disk m pol evs) (one_event cfg disk m pol ev s) (process-Kept evs)
        (one_event-Kept ev s h)

  check_parser-Kept : (s : Capture W) → Inv s → Kept (check_parser cfg disk m pol s)
  unfolding check_parser
  check_parser-Kept s h = ground (arith, returned-Kept s (classify_buffer_error too_large) h)

  end_of_read-Kept :
      (e : ReadError) (ended : ContextEnd) (s : Capture W)
      → Inv s
      → Kept (end_of_read cfg disk m pol e ended s)
  unfolding end_of_read
  end_of_read-Kept e ended s (inl h) = ground (arith, replay_captured-Kept s h)
  end_of_read-Kept e ended s (inr h) = ground (arith)

  commit_live-Live : (s : Capture W) → Open s → Live (commit_live cfg disk m pol s).0
  unfolding commit_live
  commit_live-Live s h =
      ground (arith, all_body-append [] (m.replay_prefix s.wire (contents s.spool)).written)

  commit_then-Kept :
      (go : Capture W → Outcome W)
      → (s : Capture W) → ((t : Capture W) → Live t → Kept (go t))
      → Open s
      → Kept (commit_then cfg disk m pol go s)
  unfolding commit_then
  commit_then-Kept go s g h =
      let t = (commit_live cfg disk m pol s).0 in
      ground (arith, commit_live-Live s h, g t (commit_live-Live s h))

  commit_early-Kept : (s : Capture W) → Inv s → Kept (commit_early cfg disk m pol s)
  unfolding commit_early
  commit_early-Kept s (inl h) =
      let i : Inv s = inl h in ground (arith, h, i, commit_then-Kept going s (λ t l. inr l) h)
  commit_early-Kept s (inr h) = let i : Inv s = inr h in ground (arith, h, i)

  ping-Kept : (s : Capture W) → Live s → Kept (ping cfg disk m pol s)
  unfolding ping
  ping-Kept s h = inr (h.0, h.1, one_head-append s.sent (m.keepalive ∷ []) h.2)

  on_keep_tick-Kept : (s : Capture W) → Inv s → Kept (on_keep_tick cfg disk m pol s)
  unfolding on_keep_tick
  on_keep_tick-Kept s (inl h) =
      let t = record s { grace_elapsed = true } in
      ground (arith, h, commit_then-Kept (ping cfg disk m pol) t ping-Kept h)
  on_keep_tick-Kept s (inr h) =
      let t = record s { grace_elapsed = true } in ground (arith, h, ping-Kept t h)

  after_events-Kept :
      (err : Option ReadError) (ended : ContextEnd) (s : Capture W)
      → Inv s
      → Kept (after_events cfg disk m pol err ended s)
  unfolding after_events
  after_events-Kept (some e) ended s h = end_of_read-Kept e ended s h
  after_events-Kept none ended s h = commit_early-Kept s h

  on_read-Kept :
      (b : Text) (err : Option ReadError) (ended : ContextEnd) (s : Capture W)
      → Inv s
      → Kept (on_read cfg disk m pol b err ended s)
  unfolding on_read
  on_read-Kept b err ended s h =
      let fed = feed_chunk s.parser b (is_some err) in
      let st = record (s.stats) {
        read_err = elim err [ some eof ↦ s.stats.read_err | none ↦ s.stats.read_err | e ↦ e ];
      } in
      let t : Capture W = record s { parser = fed.0; stats = st } in
      then_go-Kept (after_events cfg disk m pol err ended)
        (then_go cfg disk m pol (check_parser cfg disk m pol) (process cfg disk m pol fed.1 t))
        (after_events-Kept err ended)
        (then_go-Kept (check_parser cfg disk m pol) (process cfg disk m pol fed.1 t)
          check_parser-Kept (process-Kept fed.1 t h))

  step-Kept : (i : Input) (s : Capture W) → Inv s → Kept (step cfg disk m pol s i)
  unfolding step
  step-Kept (read b err ended) s h = on_read-Kept b err ended s h
  step-Kept keep_tick s h = on_keep_tick-Kept s h
  step-Kept idle_tick s h = returned-Kept s idle_failure h
  step-Kept (context_done ended) s h = returned-Kept s (context_failure ended) h

  run-Inv : (is : List Input) (s : Capture W) → Inv s → Kept (run cfg disk m pol s is)
  unfolding run
  run-Inv [] s h = h
  run-Inv (i ∷ is) s h =
      then_go-Kept (λ t. run cfg disk m pol t is) (step cfg disk m pol s i) (run-Inv is)
        (step-Kept i s h)

  -- Whatever the wire, the disk, the policy and the inputs of the environment are: while the
  -- engine runs, the client has got nothing if the stream is not committed, and one response head
  -- with body bytes behind it if it is; where the engine returns that it did not write, the client
  -- has got nothing and there is a failure to report; where it returns that it wrote, the client
  -- has got one head with body bytes behind it.
  pub run-Kept : (w : W) (is : List Input) → Kept (run cfg disk m pol (start cfg disk m pol w) is)
  unfolding start
  run-Kept w is = run-Inv is (start cfg disk m pol w) (inl (refl, refl, refl))
