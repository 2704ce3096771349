-- ===== src/Consumer/Order/Running.antt =====
-- `OrderConsumerRunner.run` of consumer/order.py: what Kafka's committed offsets say of the
-- database and of the dead-letter topic.
use mathlib.Core.List.{append-nil}
use kafka_order_event_platfo.Prelude.{
  ℕ, zero, suc, String, ◌≡◌, refl, sym, Option, none, some, List, [], ◌∷◌, ◌++◌,
}
use kafka_order_event_platfo.Outcome.{Outcome, ok, raised}
use kafka_order_event_platfo.Models.Message.{KafkaMessage}
use kafka_order_event_platfo.Kafka.Consumer.{message}
use kafka_order_event_platfo.Database.OrderRepository.Marking.{IsLinked}
use kafka_order_event_platfo.Consumer.Retry.Rule.{Post, Post-bind, Post-weaken, Post-ok}
use kafka_order_event_platfo.Consumer.Offsets.{PartitionKey}
use kafka_order_event_platfo.Consumer.World.{World}
use kafka_order_event_platfo.Consumer.Errors.{Codec, or_empty}
use kafka_order_event_platfo.Consumer.Order.{
  ConsumerSettings, coordinate_of, decode_order_event, process, commit_processed, poll_once, handle,
  iteration, run,
}
use kafka_order_event_platfo.Consumer.Order.Handled.{Handled, Progress}
use kafka_order_event_platfo.Consumer.Order.Processing.{process-Dealt, ResultOf-HandledAs, Dealt}
use kafka_order_event_platfo.Consumer.Order.Polled.{
  position_after, Ran, Ran-Progress, Polling, poll_once-Polling, commit_processed-Committed,
}

module _ (codec : Codec) (settings : ConsumerSettings) (u : World) where
  process-Ran :
      (m : KafkaMessage) (v : World)
      → Ran codec settings.consumer_group u v
      → Post
          (λ _ w. Ran codec settings.consumer_group u w × Handled codec m w)
          (Ran codec settings.consumer_group u)
          (process codec settings m v)
  process-Ran m v h =
      Post-weaken (Dealt settings.consumer_group m (decode_order_event codec (or_empty m.value)) v)
        (Progress settings.consumer_group v) _ _ (process codec settings m v)
        (λ result w (p, dealt). (
          Ran-Progress codec settings.consumer_group u v w h p,
          ResultOf-HandledAs _ (coordinate_of m) result w dealt,
        ))
        (λ w p. Ran-Progress codec settings.consumer_group u v w h p)
        (process-Dealt codec settings m v h.linked)

  -- What an iteration that returns has established for the message of its poll.
  abbrev Finished : Option KafkaMessage → Unit {0} → World → Type 0
  Finished none _ w = Ran codec settings.consumer_group u w
  Finished (some m) _ w =
      Ran codec settings.consumer_group u w
      × Handled codec m w
      × ((earlier : List (PartitionKey × ℕ)) × (w.committed ≡ earlier ++ position_after m ∷ []))

  handle-Finished :
      (polled : Option KafkaMessage) (v : World)
      → Polling codec settings.consumer_group u polled v
      → Post
          (Finished polled)
          (Ran codec settings.consumer_group u)
          (handle codec settings polled v)
  unfolding handle
  handle-Finished none v h = h
  handle-Finished (some m) v (h, polled) =
      Post-bind (process codec settings m) (λ _. commit_processed settings m)
        (λ _ w. Ran codec settings.consumer_group u w × Handled codec m w) (Finished (some m))
        (Ran codec settings.consumer_group u) v (process-Ran m v h)
        (λ _ w (ran, handled).
          commit_processed-Committed codec settings.consumer_group u m polled settings w ran
            handled)

  iteration-Ran :
      (v : World)
      → Ran codec settings.consumer_group u v
      → Post
          (λ _ w. Ran codec settings.consumer_group u w)
          (Ran codec settings.consumer_group u)
          (iteration codec settings v)
  unfolding iteration
  iteration-Ran v h =
      Post-bind (poll_once settings) (λ polled. handle codec settings polled)
        (Polling codec settings.consumer_group u) (λ _ w. Ran codec settings.consumer_group u w)
        (Ran codec settings.consumer_group u) v
        (poll_once-Polling codec settings.consumer_group u settings v h)
        (λ polled w k.
          Post-weaken (Finished polled) (Ran codec settings.consumer_group u) _ _
            (handle codec settings polled w) (λ a x f. finished-Ran polled a x f) (λ x f. f)
            (handle-Finished polled w k))
    where
      finished-Ran :
          (polled : Option KafkaMessage) (a : Unit) (x : World)
          → Finished polled a x
          → Ran codec settings.consumer_group u x
      finished-Ran none a x f = f
      finished-Ran (some m) a x f = f.0

  rounds-Ran :
      (rounds : ℕ) (v : World)
      → Ran codec settings.consumer_group u v
      → Post
          (λ _ w. Ran codec settings.consumer_group u w)
          (Ran codec settings.consumer_group u)
          (run codec settings rounds v)
  unfolding run
  rounds-Ran zero v h = h
  rounds-Ran (suc rounds) v h =
      Post-bind (iteration codec settings) (λ _. run codec settings rounds)
        (λ _ w. Ran codec settings.consumer_group u w)
        (λ _ w. Ran codec settings.consumer_group u w) (Ran codec settings.consumer_group u) v
        (iteration-Ran v h) (λ _. rounds-Ran rounds)

Ran-refl :
    (codec : Codec) (group : String) (w : World) → IsLinked group w.database → Ran codec group w w
Ran-refl codec group w linked = record {
  linked = linked;
  kept = (λ id row e. e, λ c e. e);
  taken = ([], refl);
  committed = ([], sym (append-nil w.committed), tt);
}

-- From a state in which markers and rows agree, each event having both or neither, of one source
-- record, run the loop for any number of iterations, with any results of polls, transactions,
-- deliveries and commits, and whether it returns or raises in the end: markers and rows agree,
-- every row and dead letter is kept, and each position that was committed to Kafka is the one
-- after a message that was polled in the run and that is dealt with in the final state, by its
-- order row or by its dead letter.
pub run-Ran :
    (codec : Codec) (settings : ConsumerSettings) (rounds : ℕ) (w : World)
    → IsLinked settings.consumer_group w.database
    → Ran codec settings.consumer_group w (run codec settings rounds w).1
run-Ran codec settings rounds w linked =
    state_of (run codec settings rounds w)
      (rounds-Ran codec settings w rounds w (Ran-refl codec settings.consumer_group w linked))
  where
    state_of :
        (r : Outcome (Unit {0}) × World)
        → Post
            (λ _ v. Ran codec settings.consumer_group w v)
            (Ran codec settings.consumer_group w)
            r
        → Ran codec settings.consumer_group w r.1
    state_of (ok _, v) h = h
    state_of (raised _, v) h = h

-- From a state in which markers and rows agree, each event having both or neither, of one source
-- record, let the handling of a message return. Then the message is dealt with, by its order row
-- or its dead letter, and the last position that was committed to Kafka is the one after it.
pub handle-committed :
    (codec : Codec) (settings : ConsumerSettings) (m : KafkaMessage) (w w' : World)
    → IsLinked settings.consumer_group w.database
    → handle codec settings (some m) w ≡ (ok tt, w')
    → Handled codec m w'
      × ((earlier : List (PartitionKey × ℕ)) × (w'.committed ≡ earlier ++ position_after m ∷ []))
handle-committed codec settings m w w' linked returns =
    let u = record w { polls = message m ∷ w.polls } in
    let start : Ran codec settings.consumer_group u w = record {
      linked = linked;
      kept = (λ id row e. e, λ c e. e);
      taken = (message m ∷ [], refl);
      committed = ([], sym (append-nil w.committed), tt);
    } in
    let (ran, handled, last) =
      Post-ok (Finished codec settings u (some m)) (Ran codec settings.consumer_group u) returns
        (handle-Finished codec settings u (some m) w (start, ([], w.polls, refl))) in
    (handled, last)
