-- ===== src/Relay/Backoff.antt =====
-- `BackoffPolicy` of src/promo_bot/relay/retry.py. Times are microseconds; `jitter` is what `uniform`
-- draws, of which no bound is used, and the rounding of floating-point numbers is left out.
use promo_bot.Base.{
  ℕ, ◌+◌, ◌-◌, ◌*◌, ◌^◌, ◌≤◌, ◌≡◌, min, true, not, ltb, Result, ok, raised, ◌>>=◌, ◌>>◌, require,
  arith, refl,
}

pub record BackoffPolicy : Type 0 where
  pub initial_seconds : ℕ
  pub maximum_seconds : ℕ

abbrev pub second : ℕ
second = 1000000

-- `ValueError("attempt_count must be positive")`
pub data BackoffError : Type 0 where
  attempt_not_positive : BackoffError

abbrev pub base : BackoffPolicy → ℕ → ℕ
base b attempt_count = min b.maximum_seconds (b.initial_seconds * 2 ^ (attempt_count - 1))

unfoldable pub delay : BackoffPolicy → (attempt_count jitter : ℕ) → Result BackoffError ℕ
delay b attempt_count jitter = do
  require (not (ltb attempt_count 1)) attempt_not_positive
  ok (min (b.maximum_seconds * second) (base b attempt_count * second + jitter))

unfoldable pub next_attempt_at :
    BackoffPolicy → (now attempt_count jitter : ℕ) → Result BackoffError ℕ
next_attempt_at b now attempt_count jitter = do d ← delay b attempt_count jitter; ok (now + d)

min-bounds :
    (m a : ℕ) (j : ℕ) → a ≤ m → (a ≤ min m (a + j)) × (min m (a + j) ≤ m) × (min m (a + j) ≤ a + j)
min-bounds m a j h = (ground arith, ground arith, ground arith)

-- The time that a retry waits at least, after its attempt `k + 1`: the initial wait, doubled `k` times
-- and capped.
abbrev pub wait : BackoffPolicy → ℕ → ℕ
wait b k = min b.maximum_seconds (b.initial_seconds * 2 ^ k) * second

wait-maximum : (b : BackoffPolicy) (k : ℕ) → wait b k ≤ b.maximum_seconds * second
wait-maximum b k = capped b.maximum_seconds (b.initial_seconds * 2 ^ k)
  where
    capped : (m x : ℕ) → min m x * second ≤ m * second
    capped m x = ground arith

-- A retry is put off, but never beyond the maximum: for attempt `k + 1`, `next_attempt_at` is not before
-- `now` and the initial wait doubled `k` times and capped at the maximum, and not after either the same
-- with the jitter or `now` and the maximum; for attempt 0 it raises `ValueError`.
pub backoff_bounds :
    (b : BackoffPolicy) (now jitter : ℕ)
    → (next_attempt_at b now 0 jitter ≡ raised attempt_not_positive)
      × ((k : ℕ)
          → (at : ℕ) × (next_attempt_at b now (k + 1) jitter ≡ ok at)
            × (now + wait b k ≤ at)
            × (at ≤ now + wait b k + jitter)
            × (at ≤ now + b.maximum_seconds * second))
unfolding next_attempt_at delay
backoff_bounds b now jitter = (
  refl,
  λ k.
      let passes : not (ltb (k + 1) 1) ≡ true = ground arith in
      let exponent : k + 1 - 1 ≡ k = omega arith in
      let (low, high, jittered) =
        min-bounds (b.maximum_seconds * second) (wait b k) jitter (wait-maximum b k) in
      (
        now + min (b.maximum_seconds * second) (wait b k + jitter),
        rw (passes, exponent) refl,
        omega arith,
        omega arith,
        omega arith,
      ),
)
