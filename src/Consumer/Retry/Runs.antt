-- ===== src/Consumer/Retry/Runs.antt =====
-- `run_with_retry` of consumer/retry.py against a relation that has no loop.
use kafka_order_event_platfo.Prelude.{
  ℕ, zero, suc, ◌+◌, ◌≤◌, ◌<◌, ◌≡◌, refl, inl, inr, true, false, arith, Bool-cases, ◌==◌, nat_eq,
  nat_beq_iff,
}
use kafka_order_event_platfo.Outcome.{Error, Outcome, Exec, ok, raised, retries_exhausted}
use kafka_order_event_platfo.Consumer.Retry.{RetryOptions, wait, settle, attempts, run_with_retry}

module _ {ℓ κ} {S : Type ℓ} {A : Type κ} (o : RetryOptions S) (operation : Exec S A) where
  -- From `s`, `k` attempts in a row have failed with retryable errors, each followed by its wait,
  -- and the state is now `t`.
  pub data Failing (s : S) : ℕ → S → Type (ℓ ⊔ κ) where
    start : Failing s zero s
    again :
        {k j : ℕ} {t u v : S} {error : Error}
        → Failing s k t
        → operation t ≡ (raised error, u)
        → o.is_retryable error ≡ true
        → v ≡ wait o k error u
        → j ≡ k + 1
        → Failing s j v

  -- Attempt number `k`, made in state `t`, is the last one, and the whole call gives `r`.
  pub data Last (k : ℕ) (t : S) (r : Outcome A × S) : Type (ℓ ⊔ κ) where
    succeeds : (a : A) (u : S) → operation t ≡ (ok a, u) → r ≡ (ok a, u) → Last k t r
    gives_up :
        (error : Error) (u : S)
        → operation t ≡ (raised error, u)
        → o.is_retryable error ≡ false
        → r ≡ (raised error, u)
        → Last k t r
    exhausted :
        (error : Error) (u : S)
        → operation t ≡ (raised error, u)
        → o.is_retryable error ≡ true
        → k ≡ o.policy.max_retries
        → r ≡ (raised (retries_exhausted o.operation_name (k + 1) error), u)
        → Last k t r

  abbrev pub Explained : S → Outcome A × S → Type (ℓ ⊔ κ)
  Explained s r = (k : ℕ) × (t : S) × (k ≤ o.policy.max_retries) × Failing s k t × Last k t r

  explain_settle :
      (k : ℕ) (s t : S) (r : Outcome A × S) (next : Exec S A)
      → operation t ≡ r
      → k ≤ o.policy.max_retries
      → Failing s k t
      → ((v : S) → k < o.policy.max_retries → Failing s (k + 1) v → Explained s (next v))
      → Explained s (settle o next k r)
  unfolding settle
  explain_settle k s t (ok a, u) next e le fs rest = (k, t, le, fs, succeeds a u e refl)
  explain_settle k s t (raised error, u) next e le fs rest =
      elim (Bool-cases (o.is_retryable error)) [
        | inl retry ↦ elim (Bool-cases (k == o.policy.max_retries)) [
          | inl last ↦
              rw (retry, last)
                (k, t, le, fs, exhausted error u e retry ((nat_beq_iff _ _).0 last) refl)
          | inr more ↦
              rw (retry, more) (rest (wait o k error u) (ground arith) (again fs e retry refl refl))
        ]
        | inr stop ↦ rw stop (k, t, le, fs, gives_up error u e stop refl)
      ]

  explain_attempts :
      (n k : ℕ) (s t : S)
      → k + n ≡ o.policy.max_retries
      → Failing s k t
      → Explained s (attempts o operation (suc n) k t)
  unfolding attempts
  explain_attempts zero k s t bound fs =
      explain_settle k s t (operation t) _ refl (omega arith) fs (λ v lt _. absurd (omega arith))
  explain_attempts (suc n) k s t bound fs =
      explain_settle k s t (operation t) _ refl (omega arith) fs
        λ v lt fs'. explain_attempts n (k + 1) s v (omega arith) fs'

-- Whatever the operation does, some number of attempts, at most `max_retries`, have failed with
-- retryable errors and were followed by their waits, and the next attempt is the last one: it
-- succeeds, or fails with an error that is not retryable and comes out unchanged, or it is attempt
-- number `max_retries` and its retryable error comes out as `RetriesExhaustedError`, with the
-- number of attempts made. So the loop never falls through to its `AssertionError`.
pub run_with_retry_lem {ℓ κ} :
    {S : Type ℓ} {A : Type κ} (o : RetryOptions S) (operation : Exec S A) (s : S)
    → Explained o operation s (run_with_retry o operation s)
unfolding run_with_retry
run_with_retry_lem o operation s =
    explain_attempts o operation o.policy.max_retries zero s s (omega arith) start
