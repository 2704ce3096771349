-- ===== src/Consumer/Retry/Delay.antt =====
-- The backoff schedule of consumer/retry.py.
use native.Mathlib.Nat.{pow-suc}
use kafka_order_event_platfo.Prelude.{ℕ, zero, suc, ◌+◌, ◌*◌, ◌^◌, ◌≤◌, ◌<◌, min, ◌≡◌, arith}
use kafka_order_event_platfo.Consumer.Retry.{RetryPolicy, delay}

-- The sum of the first `n` waits.
abbrev pub total_delay : RetryPolicy → ℕ → ℕ
total_delay p zero = 0
total_delay p (suc n) = total_delay p n + delay p n

-- Each wait is twice the one before it, cut off at the cap.
pub delay-suc : (p : RetryPolicy) (i : ℕ) → delay p (suc i) ≡ min (2 * delay p i) p.max_seconds
unfolding delay
delay-suc p i = rw pow-suc (grind arith)

pub delay-le-max : (p : RetryPolicy) (i : ℕ) → delay p i ≤ p.max_seconds
unfolding delay
delay-le-max p i = omega arith

total_delay-le : (p : RetryPolicy) (n : ℕ) → total_delay p n ≤ n * p.max_seconds
total_delay-le p zero = omega arith
total_delay-le p (suc n) = grind (arith, total_delay-le p n, delay-le-max p n)

double : (b n : ℕ) → b * 2 ^ suc n ≡ 2 * (b * 2 ^ n)
double b n = rw pow-suc (grind arith)

-- While no wait reaches past the cap, `n` waits add up to one less than 2ⁿ base delays.
total_delay_below_cap :
    (p : RetryPolicy) (n : ℕ)
    → ((k : ℕ) → k < n → p.base_seconds * 2 ^ k ≤ p.max_seconds)
    → total_delay p n + p.base_seconds ≡ p.base_seconds * 2 ^ n
unfolding delay
total_delay_below_cap p zero h = omega arith
total_delay_below_cap p (suc n) h = omega (
  arith,
  double p.base_seconds n,
  total_delay_below_cap p n (λ k less. h k (omega (arith, less))),
  h n (omega arith),
)

-- For a base delay and a cap that are whole numbers of a time unit: a run of `n` waits takes at most
-- `n` caps, and where none of the `n` doubled base delays is past the cap exactly their sum; each
-- wait is the doubled last one, cut off at the cap.
pub delay_schedule :
    (p : RetryPolicy) (n : ℕ)
    → (total_delay p n ≤ n * p.max_seconds)
      × (((k : ℕ) → k < n → p.base_seconds * 2 ^ k ≤ p.max_seconds)
          → total_delay p n + p.base_seconds ≡ p.base_seconds * 2 ^ n)
      × (delay p (suc n) ≡ min (2 * delay p n) p.max_seconds)
delay_schedule p n = (total_delay-le p n, total_delay_below_cap p n, delay-suc p n)
