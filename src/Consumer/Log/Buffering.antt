-- ===== src/Consumer/Log/Buffering.antt =====
-- `add` in `LogMessageProcessor.process` of consumer/log.py: every coordinate that the buffer holds
-- is that of a polled message of the event.
use kafka_order_event_platfo.Prelude.{
  ℕ, String, ◌≡◌, refl, Option, none, some, List, [], ◌∷◌, ◌++◌, All, All-append, elem, nat_eq,
  arith, subst, sym, if_split, if◌then◌else◌, beq_refl,
}
use kafka_order_event_platfo.Dict.{lookup, All-lookup, All-insert}
use kafka_order_event_platfo.Outcome.{Error, Outcome, ok, raised, lift, pure, ◌>>=◌}
use kafka_order_event_platfo.Models.Event.{ApiAccessLogEvent}
use kafka_order_event_platfo.Models.Message.{KafkaCoordinate, coordinate_eq}
use kafka_order_event_platfo.Kafka.Consumer.{Polled}
use kafka_order_event_platfo.Metrics.LogAggregation.{
  AggregationKey, key_eq, metric_eq, MetricAggregate, BufferedLogEvent, from_keys, merge_event,
  merged, is_new, store, put_event, incoming_event, insert_incoming, add, contribution_for,
}
use kafka_order_event_platfo.Metrics.LogAggregation.Buffer.{Buffer}
use kafka_order_event_platfo.Metrics.LogAggregation.Coverage.{put_event_inv, elem-merge_event}
use kafka_order_event_platfo.Metrics.LogAggregation.Restore.{IsBuffer, put_event-IsBuffer, named_at}
use kafka_order_event_platfo.Consumer.Retry.Rule.{Post, Post-bind}
use kafka_order_event_platfo.Consumer.Errors.{Codec}
use kafka_order_event_platfo.Consumer.Log.Durable.{IsSource, IsHeld}

All-from_keys :
    (P : KafkaCoordinate → Type 0) (seen cs : List KafkaCoordinate)
    → All P seen
    → All P cs
    → All P (from_keys seen cs)
All-from_keys P seen [] hs hc = hs
All-from_keys P seen (c ∷ cs) hs hc =
    All-from_keys P (if elem c seen then seen else seen ++ c ∷ []) cs
      (if_split (All P) (elem c seen) (λ _. hs) (λ _. All-append P seen (c ∷ []) hs (hc.0, tt)))
      hc.1

merge_event_inv :
    (first second m : BufferedLogEvent)
    → merge_event first second ≡ ok m
    → m ≡ record first { coordinates = from_keys [] (first.coordinates ++ second.coordinates) }
unfolding merge_event
merge_event_inv first second m h = ground (arith, h)

put_event_raises :
    (incoming : BufferedLogEvent) (b b' : Buffer) (e : Error)
    → put_event incoming b ≡ (raised e, b')
    → b' ≡ b
unfolding put_event
put_event_raises incoming b b' e h = go (merged (lookup incoming.event_id b) incoming) h
  where
    go : (r : Outcome BufferedLogEvent) → store incoming r b ≡ (raised e, b') → b' ≡ b
    go (ok m) h = ground (arith, h)
    go (raised e) h = ground (arith, h)

module _ (codec : Codec) (group : String) (polls : List Polled) where
  -- A buffer that is well-formed and whose coordinates all have their source.
  abbrev pub Holds : Buffer → Type 0
  Holds b = IsBuffer b × All (IsHeld codec group polls) b

  merged-IsHeld :
      (c : KafkaCoordinate) (incoming m : BufferedLogEvent) (found : Option BufferedLogEvent)
      → incoming.coordinates ≡ c ∷ []
      → IsSource codec group polls incoming.event_id c
      → ((old : BufferedLogEvent)
          → found ≡ some old
          → IsHeld codec group polls (incoming.event_id, old) × (old.event_id ≡ incoming.event_id))
      → merged found incoming ≡ ok m
      → IsHeld codec group polls (incoming.event_id, m)
  unfolding merged
  merged-IsHeld c incoming m none only source known h =
      let same : incoming ≡ m = ground (arith, h) in
      subst (λ x. IsHeld codec group polls (incoming.event_id, x)) same
        (λ empty. ground (arith, only, empty), rw only (source, tt))
  merged-IsHeld c incoming m (some old) only source known h =
      let ((_, sources), named) = known old refl in
      let e = merge_event_inv old incoming m h in
      (
        λ empty. ground (
          arith,
          empty,
          only,
          elem-merge_event c old incoming m h,
          beq_refl {A = KafkaCoordinate} c,
        ),
        subst (λ x. All (IsSource codec group polls x.event_id) x.coordinates) (sym e)
            (All-from_keys (IsSource codec group polls old.event_id) []
              (old.coordinates ++ incoming.coordinates) tt
              (All-append _ old.coordinates incoming.coordinates sources
                (rw only (subst (λ id. IsSource codec group polls id c) (sym named) source, tt)))),
      )

  -- The entry of the event, with its name.
  old-IsHeld :
      (id : ℕ) (b : Buffer) (old : BufferedLogEvent)
      → Holds b
      → lookup id b ≡ some old
      → IsHeld codec group polls (id, old) × (old.event_id ≡ id)
  old-IsHeld id b old (buffer, held) e =
      (All-lookup (IsHeld codec group polls) id old b held e, named_at id old b buffer.named e)

  put_event-Holds :
      (c : KafkaCoordinate) (incoming : BufferedLogEvent) (b : Buffer)
      → incoming.coordinates ≡ c ∷ []
      → IsSource codec group polls incoming.event_id c
      → Holds b
      → Post (λ _. Holds) Holds (put_event incoming b)
  put_event-Holds c incoming b only source h = go (put_event incoming b) refl
    where
      go : (r : Outcome (Unit {0}) × Buffer) → put_event incoming b ≡ r → Post (λ _. Holds) Holds r
      go (ok tt, b') e =
          let (m, known, at) = put_event_inv incoming b b' e in
          (
            put_event-IsBuffer incoming b b' h.0 e,
            rw at (
                All-insert (IsHeld codec group polls) incoming.event_id m b
                  (merged-IsHeld c incoming m (lookup incoming.event_id b) only source
                    (λ old found. old-IsHeld incoming.event_id b old h found) known)
                  h.1),
          )
      go (raised error, b') e = subst Holds (sym (put_event_raises incoming b b' error e)) h

  contributed-Holds :
      (event : ApiAccessLogEvent) (c : KafkaCoordinate)
      (r : Outcome (AggregationKey × MetricAggregate)) (b : Buffer)
      → IsSource codec group polls event.event_id c
      → Holds b
      → Post
          (λ _. Holds)
          Holds
          ((lift r >>= λ contribution. insert_incoming (incoming_event event c contribution)) b)
  contributed-Holds event c (raised e) b source h = h
  contributed-Holds event c (ok (key, delta)) b source h =
      let incoming = incoming_event event c (key, delta) in
      Post-bind (put_event incoming) (λ _. pure (is_new (lookup event.event_id b))) (λ _. Holds)
        (λ _. Holds) Holds b (put_event-Holds c incoming b refl source h) (λ _ t k. k)

  pub add-Holds :
      (event : ApiAccessLogEvent) (c : KafkaCoordinate) (b : Buffer)
      → IsSource codec group polls event.event_id c
      → Holds b
      → Post (λ _. Holds) Holds (add event c b)
  unfolding add
  add-Holds event c b source h = contributed-Holds event c (contribution_for event) b source h
