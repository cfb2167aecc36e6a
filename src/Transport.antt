-- ===== src/Transport.antt =====
-- The guards on time of transport.go and main.go: the reader that bounds the silence of the upstream,
-- the body that tells why it was cut, and the deadlines of an attempt. Times are nanoseconds.
pub mod Silence
use steady_proxy.Base.{
  ℕ, ◌+◌, ◌-◌, Bool, true, false, not, ◌||◌, [], Option, none, some, Text, leb, ◌==◌, if◌then◌else◌,
}

-- The error of a read or of a round trip; `joined` is `errors.Join`.
pub data Fault : Type 0 where
  eof deadline_exceeded cancelled : Fault
  other : Text → Fault
  joined : Fault → Fault → Fault

-- How the upstream would answer a read that nothing interrupts.
pub record Pull : Type 0 where
  pub wait : ℕ
  pub bytes : Text
  pub fault : Option Fault

-- `byteIdleReader`: when its timer is due, none where it has not been set or is stopped; `closed` is
-- the body's.
pub record IdleReader : Type 0 where
  pub idle : ℕ
  pub timer : Option ℕ
  pub timed_out : Bool
  pub closed : Bool

-- `withByteIdle`.
abbrev pub with_byte_idle : ℕ → IdleReader
with_byte_idle idle = record { idle = idle; timer = none; timed_out = false; closed = false }

-- The reader at a time: what the timer does, where it is due by then.
unfoldable pub at_time : ℕ → IdleReader → IdleReader
at_time now r = elim r.timer [
  | none ↦ r
  | some due ↦ if leb due now then record r { timer = none; timed_out = true; closed = true } else r
]

-- What a read comes to, and the time it waits.
pub record Got : Type 0 where
  pub bytes : Text
  pub fault : Option Fault
  pub waited : ℕ

-- `byteIdleReader.Read` at a time: it sets the timer, reads the body, and stops the timer. The timer
-- closes the body, which ends a blocked read with no bytes; an answer at the same moment is too late.
unfoldable pub read : ℕ → IdleReader → Pull → IdleReader × Got
unfolding at_time
read now r p =
    if r.timed_out
    then (r, record { bytes = []; fault = some deadline_exceeded; waited = 0 })
    else let due = now + r.idle in
      let woken = at_time (now + p.wait) (record r { timer = some due }) in
      (
        record woken { timer = none },
        if woken.timed_out
            then record { bytes = []; fault = some deadline_exceeded; waited = due - now }
            else record { bytes = p.bytes; fault = p.fault; waited = p.wait },
      )

is_eof : Fault → Bool
is_eof eof = true
is_eof _ = false

-- `cancelBody.Read`: the error of the read, by the cause of the attempt's context.
unfoldable pub cancel_read : Option Fault → Option Fault → Option Fault
unfolding is_eof
cancel_read cause none = none
cancel_read none (some f) = some f
cancel_read (some c) (some f) = if is_eof f then some f else some (joined f c)

-- `bufferDeadline`; none for the zero time.
unfoldable pub buffer_deadline : ℕ → ℕ → Option ℕ
buffer_deadline start window = if window == 0 then none else some (start + window)

-- How `roundTripBefore` sets out: with no deadline, with one that has passed, or with a timer.
pub data Start : Type 0 where
  unbounded expired : Start
  timed : ℕ → Start

unfoldable pub start_before : Option ℕ → ℕ → Start
start_before none now = unbounded
start_before (some d) now = if leb d now then expired else timed (d - now)

-- The cause of the attempt's context at the end: its own end, or what the start leaves there, where
-- `fired` tells of the timer.
cause_of : Start → Bool → Option Fault → Option Fault
cause_of s fired (some f) = some f
cause_of unbounded fired none = none
cause_of expired fired none = some deadline_exceeded
cause_of (timed d) fired none = if fired then some deadline_exceeded else none

-- The error of `roundTripBefore`, by that of `roundTrip`.
unfoldable pub round_trip_before : Option ℕ → ℕ → Bool → Option Fault → Option Fault → Option Fault
unfolding cause_of
round_trip_before deadline now fired ctx_cause none = none
round_trip_before deadline now fired ctx_cause (some f) =
    elim (cause_of (start_before deadline now) fired ctx_cause) [
      | none ↦ some f
      | some c ↦ some (joined f c)
    ]

-- `errors.Is` at the deadline.
unfoldable pub is_deadline : Fault → Bool
is_deadline deadline_exceeded = true
is_deadline (joined f g) = is_deadline f || is_deadline g
is_deadline _ = false

-- `canWaitForLocalRetry`, by whether the context has ended, its deadline and the time.
unfoldable pub can_wait_for_local_retry : Bool → Option ℕ → ℕ → ℕ → Bool
can_wait_for_local_retry ended deadline now wait =
    if ended then false else if wait == 0 then true else elim deadline [
      | none ↦ true
      | some d ↦
          let remaining = d - now in
          not (leb remaining 1000000000 || leb (remaining - 1000000000) wait)
    ]

-- `sleepWithContext`, by whether the context has ended before, and during the sleep.
pub sleep_with_context : Bool → Bool → ℕ → Bool
sleep_with_context ended ends d = if d == 0 then not ended else not ends
