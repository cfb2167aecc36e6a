-- ===== src/Retry/Bounds.antt =====
-- The waits in closed form.
use steady_proxy.Base.{
  ℕ, zero, suc, ◌+◌, ◌-◌, ◌*◌, ◌≤◌, ltb, if◌then◌else◌, ℤ, pos_part, arith, ◌≡◌,
}
use Prim.Native.Nat.mul
use Prim.Native.Nat.{◌/◌}
use steady_proxy.Retry.{
  second, max_duration, double_up_to, local_retry_extra_backoff, local_retry_delay, double_to_30,
  retry_after_for,
}

abbrev pub minimum : ℕ → ℕ → ℕ
minimum a b = if ltb a b then a else b

-- 2 to the n.
pub pow2 : ℕ → ℕ
pow2 zero = 1
pow2 (suc n) = 2 * pow2 n

pow2_pos : (n : ℕ) → 1 ≤ pow2 n
unfolding pow2
pow2_pos zero = omega arith
pow2_pos (suc n) = omega (arith, pow2_pos n)

le_scaled : (d p : ℕ) → 1 ≤ p → d ≤ d * p
le_scaled d zero h = absurd (omega arith)
le_scaled d (suc q) h = omega (arith, mul.suc d q)

double_up_to_lem : (cap k d : ℕ) → double_up_to cap k d ≡ minimum cap (d * pow2 k)
unfolding double_up_to pow2
double_up_to_lem cap zero d = ground arith
double_up_to_lem cap (suc k) d =
    ground (arith, double_up_to_lem cap k (2 * d), le_scaled (2 * d) (pow2 k) (pow2_pos k))

double_to_30_lem : (k s : ℕ) → minimum 30 (double_to_30 k s) ≡ minimum 30 (s * pow2 k)
unfolding double_to_30 pow2
double_to_30_lem zero s = ground arith
double_to_30_lem (suc k) s =
    ground (arith, double_to_30_lem k (2 * s), le_scaled (2 * s) (pow2 k) (pow2_pos k))

extra_backoff :
    (cap : ℕ) (index : ℤ)
    → local_retry_extra_backoff cap index ≡ minimum cap (second * pow2 (pos_part index))
unfolding local_retry_extra_backoff
extra_backoff cap index = ground (arith, double_up_to_lem cap (pos_part index) second)

capped_sum :
    (e a : ℕ)
    → e ≤ max_duration
    → (if ltb ((max_duration - e) / second) a then max_duration else a * second + e)
      ≡ minimum max_duration (a * second + e)
capped_sum e a h = ground arith

-- The wait before a local retry is the upstream's `Retry-After` and one second doubled once per
-- retry made, the latter at most the configured cap (none if that is 0); it stops at the largest
-- duration. Negative arguments count as 0. The cap must be a duration.
pub local_retry_delay_lem :
    (cap : ℕ) (after index : ℤ)
    → cap ≤ max_duration
    → local_retry_delay cap after index
      ≡ minimum max_duration
          (pos_part after * second + minimum cap (second * pow2 (pos_part index)))
unfolding local_retry_delay
local_retry_delay_lem cap after index h =
    rw (extra_backoff cap index) (
      capped_sum (minimum cap (second * pow2 (pos_part index))) (pos_part after)
        (ground (arith, h)))

-- The wait that the proxy tells a client which got none from the upstream is one second doubled
-- once per retry of that client, at most 30 seconds, and the jitter.
pub retry_after_for_lem :
    (jitter : ℕ) (count : ℤ)
    → retry_after_for jitter count ≡ minimum 30 (pow2 (pos_part count)) + jitter
unfolding retry_after_for
retry_after_for_lem jitter count = ground (arith, double_to_30_lem (pos_part count) 1)
