-- ===== src/Consumer/Order.antt =====
-- consumer/order.py: decoding, the routing of one message, and the polling loop. Logging is left
-- out, but for the retry warnings.
pub mod Handled
pub mod Letters
pub mod Processing
pub mod Polled
pub mod Running
pub mod Prompt
pub mod Returning
pub mod Advancing
pub mod Liveness
use kafka_order_event_platfo.Prelude.{
  ℕ, zero, suc, ◌+◌, String, Bool, Option, none, some, List, ◌⊎◌, inl, inr, if◌then◌else◌,
}
use kafka_order_event_platfo.Outcome.{
  Error, Outcome, Exec, ok, raised, permanent, PermanentMessageError, pure, raise, ◌>>=◌, ◌>>◌,
}
use kafka_order_event_platfo.Models.Json.{Json}
use kafka_order_event_platfo.Models.Event.{OrderEvent, Datetime}
use kafka_order_event_platfo.Models.Message.{Bytes, KafkaMessage, KafkaCoordinate}
use kafka_order_event_platfo.Kafka.Consumer.{is_retryable_kafka_error}
use kafka_order_event_platfo.Database.OrderRepository.{persist}
use kafka_order_event_platfo.Consumer.Retry.{RetryPolicy, run_with_retry}
use kafka_order_event_platfo.Consumer.World.{
  World, transaction, publish, commit_message, poll, read_clock, retrying,
}
use kafka_order_event_platfo.Consumer.Errors.{
  Codec, decode_json_value, safe_validation_message, permanent_error, is_retryable_database_error,
  build_dlq_message, or_empty,
}

pub data ProcessingResult : Type 0 where
  processed duplicate dlqed : ProcessingResult

-- The values that the constructors of the consumer are given.
pub record ConsumerSettings : Type 0 where
  pub consumer_group : String
  pub retry_policy : RetryPolicy
  pub delivery_timeout : ℕ

abbrev pub coordinate_of : KafkaMessage → KafkaCoordinate
coordinate_of m = record { topic = m.topic; partition = m.partition; offset = m.offset }

module _ (codec : Codec) where
  abbrev pub validated : Json → List (List String × String) ⊎ OrderEvent → Outcome OrderEvent
  validated decoded (inl errors) =
      permanent_error "ValidationError"
        (safe_validation_message errors "order event validation failed") decoded
  validated decoded (inr event) = ok event

  abbrev pub validate : Outcome Json → Outcome OrderEvent
  validate (ok decoded) = validated decoded (codec.validate_order decoded)
  validate (raised e) = raised e

  unfoldable pub decode_order_event : Bytes → Outcome OrderEvent
  decode_order_event raw_value = validate (decode_json_value codec raw_value)

module _ (settings : ConsumerSettings) where
  -- `OrderProcessor._persist_once`
  unfoldable pub persist_once : OrderEvent → KafkaCoordinate → Exec World Bool
  persist_once event metadata = transaction (persist event metadata settings.consumer_group)

  unfoldable pub store_event : OrderEvent → KafkaCoordinate → Exec World Bool
  unfolding persist_once
  store_event event metadata =
      run_with_retry
        (retrying settings.retry_policy "order database transaction" is_retryable_database_error)
        (persist_once event metadata)

  unfoldable pub commit_processed : KafkaMessage → Exec World (Unit {0})
  commit_processed m =
      run_with_retry (retrying settings.retry_policy "Kafka offset commit" is_retryable_kafka_error)
        (commit_message m)

  unfoldable pub poll_once : Exec World (Option KafkaMessage)
  poll_once =
      run_with_retry (retrying settings.retry_policy "Kafka poll" is_retryable_kafka_error) poll

module _ (codec : Codec) (settings : ConsumerSettings) where
  -- the dead-letter branch, with the reading of the clock
  unfoldable pub send_to_dlq :
      KafkaMessage → PermanentMessageError → Datetime → Exec World (Unit {0})
  send_to_dlq m error failed_at =
      let (key, dlq_message) = build_dlq_message codec m error settings.consumer_group failed_at in
      run_with_retry (retrying settings.retry_policy "DLQ delivery" is_retryable_kafka_error)
        (publish settings.delivery_timeout key dlq_message)

  unfoldable pub route : KafkaMessage → Outcome OrderEvent → Exec World ProcessingResult
  route m (raised (permanent error)) = do
    failed_at ← read_clock
    send_to_dlq m error failed_at
    pure ProcessingResult.dlqed
  route m (raised e) = raise e
  route m (ok event) = do
    inserted ← store_event settings event (coordinate_of m)
    pure (if inserted then ProcessingResult.processed else ProcessingResult.duplicate)

  -- `OrderProcessor.process`
  unfoldable pub process : KafkaMessage → Exec World ProcessingResult
  unfolding route
  process m = route m (decode_order_event codec (or_empty m.value))

  -- the rest of an iteration, once a poll has returned
  unfoldable pub handle : Option KafkaMessage → Exec World (Unit {0})
  handle none = pure tt
  handle (some m) = do _ ← process m; commit_processed settings m

  unfoldable pub iteration : Exec World (Unit {0})
  unfolding handle
  iteration = do polled ← poll_once settings; handle polled

  -- `OrderConsumerRunner.run`, where shutdown is requested after `rounds` iterations: a signal sets
  -- the flag at any time, and the loop reads it once before each iteration.
  unfoldable pub run : ℕ → Exec World (Unit {0})
  unfolding iteration
  run zero = pure tt
  run (suc rounds) = iteration >> run rounds
