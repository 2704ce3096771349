-- ===== src/Consumer/Retry.antt =====
-- consumer/retry.py: bounded retries with a capped exponential backoff. A duration is a number of
-- time units (the source has floats of seconds), and a retry index is at least 0 by its type.
pub mod Delay
pub mod Runs
pub mod Rule
use kafka_order_event_platfo.Prelude.{
  ℕ, zero, suc, ◌+◌, ◌*◌, ◌^◌, min, String, Bool, Option, none, some, if◌then◌else◌, ◌==◌, not,
  nat_eq,
}
use kafka_order_event_platfo.Outcome.{
  Error, Outcome, Exec, ok, raised, retries_exhausted, assertion_error,
}

pub record RetryPolicy : Type 0 where
  pub max_retries : ℕ
  pub base_seconds : ℕ
  pub max_seconds : ℕ

unfoldable pub delay : RetryPolicy → ℕ → ℕ
delay p retry_index = min (p.base_seconds * 2 ^ retry_index) p.max_seconds

-- The keyword arguments of `run_with_retry`.
pub record RetryOptions {ℓ} (S : Type ℓ) : Type ℓ where
  pub operation_name : String
  pub policy : RetryPolicy
  pub is_retryable : Error → Bool
  pub sleeper : ℕ → S → S
  pub on_retry : Option (Error → ℕ → ℕ → S → S)

module _ {ℓ} {S : Type ℓ} (o : RetryOptions S) where
  abbrev notify : Option (Error → ℕ → ℕ → S → S) → Error → ℕ → ℕ → S → S
  notify none error retry_number seconds s = s
  notify (some callback) error retry_number seconds s = callback error retry_number seconds s

  -- what happens between a retryable failure of one attempt and the next attempt
  unfoldable pub wait : ℕ → Error → S → S
  unfolding delay
  wait attempt error s =
      let seconds = delay o.policy attempt in
      o.sleeper seconds (notify o.on_retry error (attempt + 1) seconds s)

  module _ {κ} {A : Type κ} where
    -- the outcome of one attempt: `return`, or the `except` clause; `next` is the rest of the loop
    unfoldable pub settle : Exec S A → ℕ → Outcome A × S → Outcome A × S
    settle next attempt (ok a, s) = (ok a, s)
    settle next attempt (raised error, s) =
        if not (o.is_retryable error)
        then (raised error, s)
        else if attempt == o.policy.max_retries
        then (raised (retries_exhausted o.operation_name (attempt + 1) error), s)
        else next (wait attempt error s)

    -- `rounds` values of the range are left, the next one is `attempt`
    unfoldable pub attempts : Exec S A → ℕ → ℕ → Exec S A
    attempts operation zero attempt s = (raised assertion_error, s)
    attempts operation (suc rounds) attempt s =
        settle (attempts operation rounds (attempt + 1)) attempt (operation s)

    unfoldable pub run_with_retry : Exec S A → Exec S A
    unfolding attempts settle
    run_with_retry operation = attempts operation (suc o.policy.max_retries) 0
