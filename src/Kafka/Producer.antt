-- ===== src/Kafka/Producer.antt =====
-- kafka/producer.py: `TrackedKafkaProducer`. Logging is left out. What the client does at each call
-- is read from lists in the state; the callbacks run inside its `poll` and `flush`.
pub mod Attempts
use kafka_order_event_platfo.Prelude.{
  ℕ, ◌+◌, String, ◌≡◌, refl, Bool, true, false, Option, List, [], ◌∷◌, ◌++◌, arith,
}
use kafka_order_event_platfo.Outcome.{Error, Outcome, Exec, ok, raised, pure, ◌>>◌, modify}
use kafka_order_event_platfo.Consumer.Retry.Rule.{Post, Post-bind, Post-weaken}
use kafka_order_event_platfo.Consumer.World.{next_or}
use kafka_order_event_platfo.Generator.Records.{GeneratedRecord}
use kafka_order_event_platfo.Generator.Deliveries.{
  DeliveryTracker, begin_attempt, mark_delivered, mark_failed, fail_pending,
}
use kafka_order_event_platfo.Generator.Deliveries.Counts.{
  Reach, begins, delivers, fails, gives_up, Reach-counted,
}

-- What `produce` does: queue the record, raise `BufferError`, or raise another error.
pub data Produced : Type 0 where
  queued full : Produced
  refused : Error → Produced

-- A call of `on_delivery`, with its token.
pub data Report : Type 0 where
  delivery_failed : ℕ → Report
  delivery_done : ℕ → Option ((String × ℕ) × ℕ) → Report

pub record ProducerState : Type 0 where
  pub tracker : DeliveryTracker
  pub produces : List Produced
  -- the callbacks of each coming `poll` or `flush` of the client
  pub reports : List (List Report)
  pub remaining : List ℕ
  pub clock : List ℕ
  pub slept : List ℕ

abbrev pub queue_full_backoff_seconds : List ℕ
queue_full_backoff_seconds = 1 ∷ 2 ∷ 4 ∷ []

unfoldable pub on_delivery : Report → Exec ProducerState (Unit {0})
on_delivery (delivery_failed token) s = (ok tt, record s { tracker = mark_failed token s.tracker })
on_delivery (delivery_done token location) s =
    let (now, rest) = next_or 0 s.clock in
    let (r, t) = mark_delivered token now location s.tracker in
    (r, record s { tracker = t; clock = rest })

unfoldable pub serve : List Report → Exec ProducerState (Unit {0})
unfolding on_delivery
serve [] = pure tt
serve (report ∷ reports) = on_delivery report >> serve reports

-- the client's `poll(0.0)`
unfoldable pub serve_callbacks : Exec ProducerState (Unit {0})
unfolding serve
serve_callbacks s =
    let (reports, rest) = next_or [] s.reports in serve reports (record s { reports = rest })

-- the attempts that are left, with the backoff after each but the last
unfoldable pub try_produce : ℕ → List ℕ → Produced → Exec ProducerState Bool
try_produce token backoffs (refused e) s = (raised e, s)
try_produce token backoffs queued s = (serve_callbacks >> pure true) s
try_produce token [] full s =
    (serve_callbacks
        >> (modify (λ t. record t { tracker = mark_failed token t.tracker }) >> pure false))
      s
try_produce token (seconds ∷ backoffs) full s =
    (serve_callbacks
        >> (modify (λ t. record t { slept = t.slept ++ seconds ∷ [] }) >> λ t.
            let (next, rest) = next_or queued t.produces in
            try_produce token backoffs next (record t { produces = rest })))
      s

unfoldable pub send : GeneratedRecord → Exec ProducerState Bool
unfolding try_produce
send r s =
    let (now, clock) = next_or 0 s.clock in
    let (token, tracker) = begin_attempt r now s.tracker in
    let (next, produces) = next_or queued s.produces in
    try_produce token queue_full_backoff_seconds next
      (record s { tracker = tracker; clock = clock; produces = produces })

-- `flush`, with the number of records that were still unconfirmed
unfoldable pub flush : Exec ProducerState ℕ
flush = serve_callbacks >> λ s.
    let (unconfirmed, tracker) = fail_pending s.tracker in
    (ok unconfirmed, record s { tracker = tracker })

abbrev pub IsTracking : ProducerState → Type 0
IsTracking s = Reach s.tracker

on_delivery-IsTracking :
    (report : Report) (s : ProducerState)
    → IsTracking s
    → Post (λ _. IsTracking) (λ _. ⊥) (on_delivery report s)
unfolding on_delivery
on_delivery-IsTracking (delivery_failed token) s h = fails token h
on_delivery-IsTracking (delivery_done token location) s h =
    let (now, rest) = next_or 0 s.clock in
    go (mark_delivered token now location s.tracker) rest (delivers token now location h)
      ((Reach-counted h).3 token now location)
  where
    go :
        (r : Outcome (Unit {0}) × DeliveryTracker) (rest : List ℕ)
        → Reach r.1
        → r.0 ≡ ok tt
        → Post (λ _. IsTracking) (λ _. ⊥) (r.0, record s { tracker = r.1; clock = rest })
    go (ok _, t) rest k e = k
    go (raised error, t) rest k e = ground (arith, e)

serve-IsTracking :
    (reports : List Report) (s : ProducerState)
    → IsTracking s
    → Post (λ _. IsTracking) (λ _. ⊥) (serve reports s)
unfolding serve
serve-IsTracking [] s h = h
serve-IsTracking (report ∷ reports) s h =
    Post-bind (on_delivery report) (λ _. serve reports) (λ _. IsTracking) (λ _. IsTracking) (λ _. ⊥)
      s (on_delivery-IsTracking report s h) (λ _ t k. serve-IsTracking reports t k)

callbacks_return :
    (s : ProducerState) → IsTracking s → Post (λ _. IsTracking) (λ _. ⊥) (serve_callbacks s)
unfolding serve_callbacks
callbacks_return s h =
    let (reports, rest) = next_or [] s.reports in
    serve-IsTracking reports (record s { reports = rest }) h

callbacks-IsTracking :
    (s : ProducerState) → IsTracking s → Post (λ _. IsTracking) IsTracking (serve_callbacks s)
callbacks-IsTracking s h =
    Post-weaken (λ _. IsTracking) (λ _. ⊥) (λ _. IsTracking) IsTracking (serve_callbacks s)
      (λ _ t k. k) (λ t no. absurd no) (callbacks_return s h)

try_produce-IsTracking :
    (token : ℕ) (backoffs : List ℕ) (next : Produced) (s : ProducerState)
    → IsTracking s
    → Post (λ _. IsTracking) IsTracking (try_produce token backoffs next s)
unfolding try_produce
try_produce-IsTracking token backoffs (refused e) s h = h
try_produce-IsTracking token backoffs queued s h =
    Post-bind serve_callbacks (λ _. pure true) (λ _. IsTracking) (λ _. IsTracking) IsTracking s
      (callbacks-IsTracking s h) (λ _ t k. k)
try_produce-IsTracking token [] full s h =
    Post-bind serve_callbacks
      (λ _. modify (λ t. record t { tracker = mark_failed token t.tracker }) >> pure false)
      (λ _. IsTracking) (λ _. IsTracking) IsTracking s (callbacks-IsTracking s h)
      (λ _ t k. fails token k)
try_produce-IsTracking token (seconds ∷ backoffs) full s h =
    Post-bind serve_callbacks
      (λ _. modify (λ t. record t { slept = t.slept ++ seconds ∷ [] }) >> λ t.
        let (next, rest) = next_or queued t.produces in
        try_produce token backoffs next (record t { produces = rest }))
      (λ _. IsTracking) (λ _. IsTracking) IsTracking s (callbacks-IsTracking s h)
      (λ _ t k.
        let (next, rest) = next_or queued t.produces in
        try_produce-IsTracking token backoffs next
          (record t { slept = t.slept ++ seconds ∷ []; produces = rest }) k)

pub send-IsTracking :
    (r : GeneratedRecord) (s : ProducerState)
    → IsTracking s
    → Post (λ _. IsTracking) IsTracking (send r s)
unfolding send begin_attempt
send-IsTracking r s h =
    let (now, clock) = next_or 0 s.clock in
    let (next, produces) = next_or queued s.produces in
    try_produce-IsTracking s.tracker.next_token queue_full_backoff_seconds next
      (record s { tracker = (begin_attempt r now s.tracker).1; clock = clock; produces = produces })
      (begins r now h)

-- Every record that was attempted has a known end.
abbrev pub IsSettled : ProducerState → Type 0
IsSettled s =
    IsTracking s
    × (s.tracker.pending ≡ [])
    × (s.tracker.attempted ≡ s.tracker.delivered + s.tracker.failed)

settled :
    (t : DeliveryTracker)
    → Reach t
    → Reach (fail_pending t).1
      × ((fail_pending t).1.pending ≡ [])
      × ((fail_pending t).1.attempted ≡ (fail_pending t).1.delivered + (fail_pending t).1.failed)
unfolding fail_pending
settled t h = (gives_up h, refl, omega (arith, (Reach-counted h).0))

-- From a tracker that any calls have led to, and whatever callbacks the client runs in it, `flush`
-- returns; then no record is pending, and the attempted records are the delivered and the failed
-- ones.
pub flush-IsSettled : (s : ProducerState) → IsTracking s → Post (λ _. IsSettled) (λ _. ⊥) (flush s)
unfolding flush
flush-IsSettled s h =
    Post-bind serve_callbacks
      (λ _ t. (ok (fail_pending t.tracker).0, record t { tracker = (fail_pending t.tracker).1 }))
      (λ _. IsTracking) (λ _. IsSettled) (λ _. ⊥) s (callbacks_return s h)
      (λ _ t k. settled t.tracker k)
