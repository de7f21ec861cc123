-- ===== src/Retry/Backoff.antt =====
-- internal/provisioner/retryable.go and create.go: RetryBackoff and cleanupRescheduleBackoff, in
-- nanoseconds. The random number of the first is an argument, absent when rand.Int fails.
use selfservice_api.Base.{
  ℕ, zero, suc, ◌+◌, ◌-◌, ◌*◌, ◌/◌, ◌^◌, ◌≤◌, ◌<◌, min, ◌≡◌, sym, Option, none, some, ltb, inl, inr,
  if◌then◌else◌, Bool-cases, arith,
}
use Prim.Native.Nat.pow.{suc as pow_suc}

abbrev pub seconds : ℕ
seconds = 1000000000

abbrev pub retry_backoff_base : ℕ
retry_backoff_base = 30 * seconds

abbrev pub retry_backoff_max : ℕ
retry_backoff_max = 300 * seconds

abbrev pub cleanup_reschedule_backoff_base : ℕ
cleanup_reschedule_backoff_base = 1 * seconds

abbrev pub cleanup_reschedule_backoff_max : ℕ
cleanup_reschedule_backoff_max = 30 * seconds

-- The loop both share: `left` rounds are still allowed by the count.
unfoldable pub backoff_loop : ℕ → ℕ → ℕ → ℕ
backoff_loop max zero delay = delay
backoff_loop max (suc left) delay =
    let rest = backoff_loop max left (delay * 2) in
    if ltb delay max then (if ltb (max / 2) delay then max else rest) else delay

unfoldable pub with_jitter : ℕ → Option ℕ → ℕ
with_jitter delay none = delay
with_jitter delay (some n) = if ltb 0 (delay / 4) then delay + n else delay

unfoldable pub retry_backoff : ℕ → Option ℕ → ℕ
retry_backoff retry_count n =
    with_jitter (backoff_loop retry_backoff_max retry_count retry_backoff_base) n

-- The Go loop starts at one failure.
unfoldable pub cleanup_reschedule_backoff : ℕ → ℕ
cleanup_reschedule_backoff failures =
    let delay =
      backoff_loop cleanup_reschedule_backoff_max (failures - 1) cleanup_reschedule_backoff_base in
    if ltb cleanup_reschedule_backoff_max delay then cleanup_reschedule_backoff_max else delay

-- What rand.Int promises: a number below its bound.
abbrev pub IsJitter : ℕ → Option ℕ → Type 0
IsJitter delay none = Unit
IsJitter delay (some n) = n < delay / 4

pow_positive : (n : ℕ) → 1 ≤ 2 ^ n
pow_positive zero = omega arith
pow_positive (suc n) = let h = pow_positive n in ground (arith, h)

mul_grows : (a p : ℕ) → 1 ≤ p → a ≤ a * p
mul_grows a zero h = omega arith
mul_grows a (suc p) h = ground arith

double_next : (a n : ℕ) → a * 2 ^ suc n ≡ a * 2 * 2 ^ n
double_next a n = rw (pow_suc 2 n) (grind arith)

pub backoff_loop-min :
    (max n delay : ℕ) → delay ≤ max → backoff_loop max n delay ≡ min (delay * 2 ^ n) max
unfolding backoff_loop
backoff_loop-min max zero delay h = omega arith
backoff_loop-min max (suc n) delay h =
    let more = mul_grows (delay * 2) (2 ^ n) (pow_positive n) in
    let next = double_next delay n in
    elim (Bool-cases (ltb delay max)) [
      | inr e ↦ rw e (ground (arith, more, next))
      | inl e ↦ elim (Bool-cases (ltb (max / 2) delay)) [
        | inl f ↦ rw (e, f) (ground (arith, more, next))
        | inr f ↦
            rw (e, f, backoff_loop-min max n (delay * 2) (ground arith)) (ground (arith, next))
      ]
    ]

jitter-bounds :
    (wait : ℕ) (n : Option ℕ)
    → 1 ≤ wait
    → IsJitter wait n
    → (wait ≤ with_jitter wait n) × (4 * with_jitter wait n < 5 * wait)
unfolding with_jitter
jitter-bounds wait none w j = (omega arith, omega arith)
jitter-bounds wait (some n) w j = ground arith

-- RetryBackoff waits thirty seconds, doubled once per earlier retry, but at most five minutes; a
-- random number that is below a quarter of that, as rand.Int promises, is added.
pub retry_backoff-bounds :
    (retry_count : ℕ) (n : Option ℕ) (wait : ℕ)
    → wait ≡ min (retry_backoff_base * 2 ^ retry_count) retry_backoff_max
    → IsJitter wait n
    → (wait ≤ retry_backoff retry_count n) × (4 * retry_backoff retry_count n < 5 * wait)
unfolding retry_backoff
retry_backoff-bounds retry_count n wait e j =
    rw (backoff_loop-min retry_backoff_max retry_count retry_backoff_base (omega arith), sym e)
      (jitter-bounds wait n (ground (arith, pow_positive retry_count)) j)

-- The pause between two failed writes of a clean-up retry: one second, doubled once per failure
-- after the first, but at most thirty seconds.
pub cleanup_reschedule_backoff-min :
    (failures : ℕ)
    → cleanup_reschedule_backoff (suc failures)
      ≡ min (cleanup_reschedule_backoff_base * 2 ^ failures) cleanup_reschedule_backoff_max
unfolding cleanup_reschedule_backoff
cleanup_reschedule_backoff-min failures =
    let left : suc failures - 1 ≡ failures = omega arith in
    rw
      (
        left,
        backoff_loop-min cleanup_reschedule_backoff_max failures cleanup_reschedule_backoff_base
            (omega arith),
      )
      (ground arith)
