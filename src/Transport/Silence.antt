-- ===== src/Transport/Silence.antt =====
-- The reads of a `byteIdleReader`, at the times at which its client asks for them.
use steady_proxy.Base.{
  ℕ, ◌+◌, ◌-◌, true, false, List, [], ◌∷◌, none, some, leb, if◌then◌else◌, ◌≡◌, refl, ap, arith,
  Bool-cases, inl, inr,
}
use steady_proxy.Transport.{deadline_exceeded, Pull, IdleReader, with_byte_idle, at_time, Got, read}

-- A read, and the time that the client takes before its next one.
pub record Visit : Type 0 where
  pub pull : Pull
  pub pause : ℕ

-- The reads of a client, one after the other; the timer runs on between them if it is set.
unfoldable pub reads : ℕ → IdleReader → List Visit → List Got
unfolding read at_time
reads now r [] = []
reads now r (v ∷ vs) =
    let next = read now r v.pull in
    let later = now + next.1.waited + v.pause in next.1 ∷ reads later (at_time later next.0) vs

abbrev pub late : ℕ → Got
late waited = record { bytes = []; fault = some deadline_exceeded; waited = waited }

-- Every read fails at once.
unfoldable pub refused : List Visit → List Got
refused [] = []
refused (_ ∷ vs) = late 0 ∷ refused vs

-- The answers of the upstream, up to the first that takes as long as the bound.
unfoldable pub answered : ℕ → List Visit → List Got
unfolding refused
answered idle [] = []
answered idle (v ∷ vs) =
    if leb idle v.pull.wait
    then late idle ∷ refused vs
    else record { bytes = v.pull.bytes; fault = v.pull.fault; waited = v.pull.wait }
      ∷ answered idle vs

reads-refused :
    (idle now : ℕ) (vs : List Visit)
    → reads now (record { idle = idle; timer = none; timed_out = true; closed = true }) vs
      ≡ refused vs
unfolding reads refused read at_time
reads-refused idle now [] = refl
reads-refused idle now (v ∷ vs) = ap (λ gs. late 0 ∷ gs) (reads-refused idle (now + 0 + v.pause) vs)

-- However long a client takes between its reads, which does not count: a read yields the answer of
-- the upstream where this takes less than the bound; the first that would take as long ends at the
-- bound with the deadline and no bytes, and so does at once every read behind it.
pub reads-answered :
    (idle now : ℕ) (vs : List Visit) → reads now (with_byte_idle idle) vs ≡ answered idle vs
unfolding reads answered read at_time
reads-answered idle now [] = refl
reads-answered idle now (v ∷ vs) = elim (Bool-cases (leb idle v.pull.wait)) [
  | inl y ↦
      let due : leb (now + idle) (now + v.pull.wait) ≡ true = ground (arith, y) in
      let waited : (now + idle) - now ≡ idle = omega arith in
      rw (y, due, waited) (ap (λ gs. late idle ∷ gs) (reads-refused idle (now + idle + v.pause) vs))
  | inr n ↦
      let due : leb (now + idle) (now + v.pull.wait) ≡ false = ground (arith, n) in
      rw (n, due)
        (ap (λ gs. record { bytes = v.pull.bytes; fault = v.pull.fault; waited = v.pull.wait } ∷ gs)
          (reads-answered idle (now + v.pull.wait + v.pause) vs))
]
