-- ===== src/Retry.antt =====
-- The waits between attempts: `localRetryDelay` and `localRetryExtraBackoff` of main.go, and
-- `retryAfterFor` of classify.go. Durations are nanoseconds; `rand.Intn(2)` is a parameter.
pub mod Bounds
use steady_proxy.Base.{
  ℕ, zero, suc, ◌+◌, ◌-◌, ◌*◌, Bool, true, false, ltb, leb, ◌==◌, if◌then◌else◌, ℤ, pos_part,
}
use Prim.Native.Nat.{◌/◌, ◌^◌}

abbrev pub second : ℕ
second = 1000000000

-- `math.MaxInt64`.
abbrev pub max_duration : ℕ
max_duration = 9223372036854775807

-- The loop of `localRetryExtraBackoff`, with what is left of its rounds.
pub double_up_to : ℕ → ℕ → ℕ → ℕ
double_up_to cap zero d = if ltb cap d then cap else d
double_up_to cap (suc k) d =
    let rest = double_up_to cap k (2 * d) in
    if ltb d cap then if leb (cap - d) d then cap else rest else if ltb cap d then cap else d

-- `localRetryExtraBackoff`.
pub local_retry_extra_backoff : ℕ → ℤ → ℕ
unfolding double_up_to
local_retry_extra_backoff cap retry_index =
    if cap == 0 then 0 else double_up_to cap (pos_part retry_index) second

-- `localRetryDelay`.
unfoldable pub local_retry_delay : ℕ → ℤ → ℤ → ℕ
unfolding local_retry_extra_backoff
local_retry_delay cap upstream_retry_after retry_index =
    let after = pos_part upstream_retry_after in
    let extra = local_retry_extra_backoff cap retry_index in
    if ltb ((max_duration - extra) / second) after then max_duration else after * second + extra

-- The loop of `retryAfterFor`.
pub double_to_30 : ℕ → ℕ → ℕ
double_to_30 zero secs = secs
double_to_30 (suc k) secs =
    let rest = double_to_30 k (2 * secs) in if ltb secs 30 then rest else secs

-- `retryAfterFor`, on the value of `rand.Intn(2)`.
unfoldable pub retry_after_for : ℕ → ℤ → ℕ
unfolding double_to_30
retry_after_for jitter retry_count =
    let secs = double_to_30 (pos_part retry_count) 1 in
    let capped = if ltb 30 secs then 30 else secs in capped + jitter
