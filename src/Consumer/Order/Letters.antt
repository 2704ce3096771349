-- ===== src/Consumer/Order/Letters.antt =====
-- The dead-letter branch of consumer/order.py, which consumer/log.py shares.
use kafka_order_event_platfo.Prelude.{
  ℕ, ◌+◌, String, ◌≡◌, refl, Bool, true, false, Option, none, some, [], ◌∷◌, ◌++◌, arith, nat_eq,
  string_eq,
}
use kafka_order_event_platfo.Outcome.{Error, Outcome, ok, raised, PermanentMessageError}
use kafka_order_event_platfo.Models.Event.{Datetime}
use kafka_order_event_platfo.Models.Message.{
  KafkaMessage, KafkaCoordinate, DlqMessage, coordinate_eq, coordinate_beq_iff,
}
use kafka_order_event_platfo.Kafka.Dlq.{await}
use kafka_order_event_platfo.Consumer.Retry.{RetryPolicy, wait}
use kafka_order_event_platfo.Consumer.Retry.Rule.{Post, run_with_retry-Post}
use kafka_order_event_platfo.Consumer.World.{
  World, settle_delivery, publish, retrying, next_or, prompt_delivery,
}
use kafka_order_event_platfo.Consumer.Errors.{Codec, build_dlq_message}
use kafka_order_event_platfo.Consumer.Order.{ConsumerSettings, coordinate_of, send_to_dlq}
use kafka_order_event_platfo.Consumer.Order.Handled.{
  dlq_source, dead_lettered, dead_lettered-append,
}

-- From `u` to `w` at most dead letters are added to what is stored.
pub record Delivered (u w : World) : Type 0 where
  pub database : w.database ≡ u.database
  pub letters : (c : KafkaCoordinate) → dead_lettered c u.dlq ≡ true → dead_lettered c w.dlq ≡ true
  pub polls : w.polls ≡ u.polls
  pub committed : w.committed ≡ u.committed

module _ (u : World) (m : KafkaMessage) where
  -- From the state `u`, with a record of the message in the dead-letter topic.
  abbrev pub Lettered : Unit {0} → World → Type 0
  Lettered _ w = Delivered u w × (dead_lettered (coordinate_of m) w.dlq ≡ true)

  append-Delivered :
      (w : World) (key : String) (d : DlqMessage)
      → Delivered u w
      → Delivered u (record w { dlq = w.dlq ++ (key, d) ∷ [] })
  append-Delivered w key d h = record {
    database = h.database;
    letters = λ c e. ground (arith, h.letters c e, dead_lettered-append c key d w.dlq);
    polls = h.polls;
    committed = h.committed;
  }

  settle_delivery-Lettered :
      (refusal : Option Error) (stored : Bool) (r : Outcome (Unit {0})) (key : String)
      (d : DlqMessage) (w : World)
      → dlq_source d ≡ coordinate_of m
      → Delivered u w
      → Post Lettered (Delivered u) (settle_delivery refusal stored r key d w)
  unfolding settle_delivery
  settle_delivery-Lettered (some e) stored r key d w source h = h
  settle_delivery-Lettered none stored (ok _) key d w source h = (
    append-Delivered w key d h,
    ground (
      arith,
      source,
      dead_lettered-append (coordinate_of m) key d w.dlq,
      coordinate_beq_iff (dlq_source d) (coordinate_of m),
    ),
  )
  settle_delivery-Lettered none true (raised e) key d w source h = append-Delivered w key d h
  settle_delivery-Lettered none false (raised e) key d w source h = h

  publish-Lettered :
      (timeout : ℕ) (key : String) (d : DlqMessage) (w : World)
      → dlq_source d ≡ coordinate_of m
      → Delivered u w
      → Post Lettered (Delivered u) (publish timeout key d w)
  unfolding publish
  publish-Lettered timeout key d w source h =
      let (delivery, rest) = next_or prompt_delivery w.deliveries in
      settle_delivery-Lettered delivery.refusal delivery.stored
        (await (delivery.start + timeout) delivery.ticks) key d (record w { deliveries = rest })
        source
        (record {
          database = h.database;
          letters = h.letters;
          polls = h.polls;
          committed = h.committed;
        })

Delivered-refl : (w : World) → Delivered w w
Delivered-refl w = record { database = refl; letters = λ c e. e; polls = refl; committed = refl }

-- A wait between two attempts touches neither the database nor the topics.
Delivered-wait :
    (policy : RetryPolicy) (name : String) (is_retryable : Error → Bool) (u : World) (k : ℕ)
    (error : Error) (w : World)
    → Delivered u w
    → Delivered u (wait (retrying policy name is_retryable) k error w)
unfolding wait retrying
Delivered-wait policy name is_retryable u k error w h = record {
  database = h.database;
  letters = h.letters;
  polls = h.polls;
  committed = h.committed;
}

-- A call that returns has put a record of the message into the dead-letter topic; whether it
-- returns or raises, it touches nothing else that is stored.
pub send_to_dlq-Lettered :
    (codec : Codec) (settings : ConsumerSettings) (m : KafkaMessage) (e : PermanentMessageError)
    (t : Datetime) (w : World)
    → Post (Lettered w m) (Delivered w) (send_to_dlq codec settings m e t w)
unfolding send_to_dlq build_dlq_message
send_to_dlq-Lettered codec settings m e t w =
    run_with_retry-Post _ _ (Lettered w m) (Delivered w)
      (λ v h. publish-Lettered w m settings.delivery_timeout _ _ v refl h)
      (λ k error v h. Delivered-wait settings.retry_policy _ _ w k error v h) w (Delivered-refl w)
