-- ===== src/Consumer/Retry/Rule.antt =====
-- The rule by which the clients of `run_with_retry` are proved.
use kafka_order_event_platfo.Prelude.{
  ℕ, zero, suc, ◌+◌, inl, inr, Bool-cases, ◌==◌, nat_eq, ◌≡◌, subst,
}
use kafka_order_event_platfo.Outcome.{Error, Outcome, Exec, ok, raised, ◌>>=◌}
use kafka_order_event_platfo.Consumer.Retry.{RetryOptions, wait, settle, attempts, run_with_retry}

-- `Q` holds of the result and the state of a call that returns, `R` of the state if it raises.
abbrev pub Post {ℓ κ ν} :
    {S : Type ℓ} {A : Type κ} → (A → S → Type ν) → (S → Type ν) → Outcome A × S → Type ν
Post Q R (ok a, s) = Q a s
Post Q R (raised _, s) = R s

module _ {ℓ κ ν} {S : Type ℓ} {A : Type κ} (o : RetryOptions S) (operation : Exec S A)
    (Q : A → S → Type ν) (P : S → Type ν) (step : (s : S) → P s → Post Q P (operation s))
    (waits : (k : ℕ) (error : Error) (s : S) → P s → P (wait o k error s)) where
  settle-Post :
      (k : ℕ) (r : Outcome A × S) (next : Exec S A)
      → Post Q P r
      → ((s : S) → P s → Post Q P (next s))
      → Post Q P (settle o next k r)
  unfolding settle
  settle-Post k (ok a, s) next h rest = h
  settle-Post k (raised error, s) next h rest = elim (Bool-cases (o.is_retryable error)) [
    | inl retry ↦ elim (Bool-cases (k == o.policy.max_retries)) [
      | inl last ↦ rw (retry, last) h
      | inr more ↦ rw (retry, more) (rest (wait o k error s) (waits k error s h))
    ]
    | inr stop ↦ rw stop h
  ]

  attempts-Post : (n k : ℕ) (s : S) → P s → Post Q P (attempts o operation n k s)
  unfolding attempts
  attempts-Post zero k s h = h
  attempts-Post (suc n) k s h = settle-Post k (operation s) _ (step s h) (attempts-Post n (k + 1))

  -- What every attempt keeps when it fails, and establishes when it returns, the call does too.
  pub run_with_retry-Post : (s : S) → P s → Post Q P (run_with_retry o operation s)
  unfolding run_with_retry
  run_with_retry-Post = attempts-Post (suc o.policy.max_retries) 0

-- A step and what follows it.
pub Post-bind {ℓ κ ν μ} :
    {S : Type ℓ} {A : Type κ} {B : Type ν} (m : Exec S A) (f : A → Exec S B) (Q : A → S → Type μ)
    (Q' : B → S → Type μ) (R : S → Type μ) (s : S)
    → Post Q R (m s)
    → ((a : A) (t : S) → Q a t → Post Q' R (f a t))
    → Post Q' R ((m >>= f) s)
Post-bind {S = S} {A = A} m f Q Q' R s h next = go (m s) h
  where
    go :
        (r : Outcome A × S)
        → Post Q R r
        → Post Q' R (elim r.0 [ ok a ↦ f a r.1 | raised e ↦ (raised e, r.1) ])
    go (ok a, t) q = next a t q
    go (raised e, t) q = q

-- What a call that has returned, or has raised, has established.
pub Post-ok {ℓ κ ν} :
    {S : Type ℓ} {A : Type κ} (Q : A → S → Type ν) (R : S → Type ν) {r : Outcome A × S} {a : A}
    {t : S}
    → r ≡ (ok a, t)
    → Post Q R r
    → Q a t
Post-ok Q R e h = subst (Post Q R) e h

pub Post-raised {ℓ κ ν} :
    {S : Type ℓ} {A : Type κ} (Q : A → S → Type ν) (R : S → Type ν) {r : Outcome A × S}
    {error : Error} {t : S}
    → r ≡ (raised error, t)
    → Post Q R r
    → R t
Post-raised Q R e h = subst (Post Q R) e h

-- A rule with weaker conclusions.
pub Post-weaken {ℓ κ ν μ} :
    {S : Type ℓ} {A : Type κ} (Q : A → S → Type ν) (R : S → Type ν) (Q' : A → S → Type μ)
    (R' : S → Type μ) (r : Outcome A × S)
    → ((a : A) (s : S) → Q a s → Q' a s)
    → ((s : S) → R s → R' s)
    → Post Q R r
    → Post Q' R' r
Post-weaken Q R Q' R' (ok a, s) f g h = f a s h
Post-weaken Q R Q' R' (raised e, s) f g h = g s h

-- What two rules say of a call.
pub Post-and {ℓ κ ν} :
    {S : Type ℓ} {A : Type κ} (Q Q' : A → S → Type ν) (R R' : S → Type ν) (r : Outcome A × S)
    → Post Q R r
    → Post Q' R' r
    → Post (λ a s. Q a s × Q' a s) (λ s. R s × R' s) r
Post-and Q Q' R R' (ok a, s) h k = (h, k)
Post-and Q Q' R R' (raised e, s) h k = (h, k)

-- A `try` whose handlers see how its body has ended.
pub Post-try {ℓ κ ν μ ξ} :
    {S : Type ℓ} {A : Type κ} {B : Type ν} (r : Outcome A × S) (handle : Outcome A → Exec S B)
    (Q : A → S → Type μ) (R : S → Type μ) (Q' : B → S → Type ξ) (R' : S → Type ξ)
    → Post Q R r
    → ((a : A) (s : S) → Q a s → Post Q' R' (handle (ok a) s))
    → ((e : Error) (s : S) → R s → Post Q' R' (handle (raised e) s))
    → Post Q' R' (handle r.0 r.1)
Post-try (ok a, s) handle Q R Q' R' h returns raises = returns a s h
Post-try (raised e, s) handle Q R Q' R' h returns raises = raises e s h

-- Of any call one may say nothing.
pub Post-any {ℓ κ} :
    {S : Type ℓ} {A : Type κ} (r : Outcome A × S) → Post (λ _ _. Unit {0}) (λ _. Unit {0}) r
Post-any (ok a, s) = tt
Post-any (raised e, s) = tt
