-- ===== src/Kafka/Producer/Attempts.antt =====
-- `TrackedKafkaProducer` of kafka/producer.py counts one attempt for each call of `send`, and none in
-- the callbacks.
use kafka_order_event_platfo.Prelude.{ℕ, ◌+◌, ◌≡◌, ap, ◌∙◌, true, false, List, [], ◌∷◌, ◌++◌}
use kafka_order_event_platfo.Outcome.{Outcome, Exec, ok, raised, pure, ◌>>◌, modify}
use kafka_order_event_platfo.Consumer.Retry.Rule.{Post, Post-bind}
use kafka_order_event_platfo.Consumer.World.{next_or}
use kafka_order_event_platfo.Generator.Records.{GeneratedRecord}
use kafka_order_event_platfo.Generator.Deliveries.{
  DeliveryTracker, begin_attempt, mark_delivered, mark_failed, fail_pending,
}
use kafka_order_event_platfo.Generator.Deliveries.Families.{
  mark_delivered-IsSteady, mark_failed-IsSteady,
}
use kafka_order_event_platfo.Kafka.Producer.{
  ProducerState, Produced, queued, full, refused, Report, delivery_failed, delivery_done,
  on_delivery, serve, serve_callbacks, try_produce, queue_full_backoff_seconds, send, flush,
}

-- So many attempts have been counted.
abbrev pub Attempted : ℕ → ProducerState → Type 0
Attempted n s = s.tracker.attempted ≡ n

-- However the call ends, so many attempts have been counted.
abbrev pub Counts : {A : Type 0} → ℕ → Outcome A × ProducerState → Type 0
Counts n r = Post (λ _. Attempted n) (Attempted n) r

module _ (n : ℕ) where
  on_delivery-Counts :
      (report : Report) (s : ProducerState) → Attempted n s → Counts n (on_delivery report s)
  unfolding on_delivery
  on_delivery-Counts (delivery_failed token) s h = (mark_failed-IsSteady token s.tracker).0 ∙ h
  on_delivery-Counts (delivery_done token location) s h =
      let (now, rest) = next_or 0 s.clock in
      either (mark_delivered token now location s.tracker) rest
        ((mark_delivered-IsSteady token now location s.tracker).0 ∙ h)
    where
      either :
          (r : Outcome (Unit {0}) × DeliveryTracker) (rest : List ℕ)
          → r.1.attempted ≡ n
          → Counts n (r.0, record s { tracker = r.1; clock = rest })
      either (ok _, t) rest h = h
      either (raised _, t) rest h = h

  serve-Counts :
      (reports : List Report) (s : ProducerState) → Attempted n s → Counts n (serve reports s)
  unfolding serve
  serve-Counts [] s h = h
  serve-Counts (report ∷ reports) s h =
      Post-bind (on_delivery report) (λ _. serve reports) (λ _. Attempted n) (λ _. Attempted n)
        (Attempted n) s (on_delivery-Counts report s h) (λ _ t k. serve-Counts reports t k)

  callbacks-Counts : (s : ProducerState) → Attempted n s → Counts n (serve_callbacks s)
  unfolding serve_callbacks
  callbacks-Counts s h =
      let (reports, rest) = next_or [] s.reports in
      serve-Counts reports (record s { reports = rest }) h

  -- the callbacks, and what follows them
  then_callbacks :
      {A : Type 0} (next : Exec ProducerState A) (s : ProducerState)
      → Attempted n s
      → ((t : ProducerState) → Attempted n t → Counts n (next t))
      → Counts n ((serve_callbacks >> next) s)
  then_callbacks next s h rest =
      Post-bind serve_callbacks (λ _. next) (λ _. Attempted n) (λ _. Attempted n) (Attempted n) s
        (callbacks-Counts s h) (λ _. rest)

  try_produce-Counts :
      (token : ℕ) (backoffs : List ℕ) (next : Produced) (s : ProducerState)
      → Attempted n s
      → Counts n (try_produce token backoffs next s)
  unfolding try_produce
  try_produce-Counts token backoffs (refused e) s h = h
  try_produce-Counts token backoffs queued s h = then_callbacks (pure true) s h (λ _ k. k)
  try_produce-Counts token [] full s h =
      then_callbacks
        (modify (λ t. record t { tracker = mark_failed token t.tracker }) >> pure false) s h
        (λ t k. (mark_failed-IsSteady token t.tracker).0 ∙ k)
  try_produce-Counts token (seconds ∷ backoffs) full s h =
      then_callbacks
        (modify (λ t. record t { slept = t.slept ++ seconds ∷ [] }) >> λ t.
          let (next, rest) = next_or queued t.produces in
          try_produce token backoffs next (record t { produces = rest }))
        s h
        (λ t k.
          let (next, rest) = next_or queued t.produces in
          try_produce-Counts token backoffs next
            (record t { slept = t.slept ++ seconds ∷ []; produces = rest }) k)

  pub flush-Counts : (s : ProducerState) → Attempted n s → Counts n (flush s)
  unfolding flush fail_pending
  flush-Counts s h =
      then_callbacks
        (λ t. (ok (fail_pending t.tracker).0, record t { tracker = (fail_pending t.tracker).1 })) s
        h (λ t k. k)

-- Whether it returns or raises, `send` has counted one attempt.
pub send-Counts :
    (n : ℕ) (r : GeneratedRecord) (s : ProducerState) → Attempted n s → Counts (n + 1) (send r s)
unfolding send begin_attempt
send-Counts n r s h =
    let (now, clock) = next_or 0 s.clock in
    let (next, produces) = next_or queued s.produces in
    try_produce-Counts (n + 1) s.tracker.next_token queue_full_backoff_seconds next
      (record s { tracker = (begin_attempt r now s.tracker).1; clock = clock; produces = produces })
      (ap (λ k. k + 1) h)
