-- ===== src/Kafka/Consumer.antt =====
-- kafka/consumer.py: `ManualKafkaConsumer`. The client is outside the program: its answers are
-- arguments here.
use kafka_order_event_platfo.Prelude.{Bool, true, false, Option, none, some, List, [], ◌∷◌}
use kafka_order_event_platfo.Outcome.{
  Error, Outcome, ok, raised, buffer_error, timeout_error, kafka_exception, KafkaArgument,
  kafka_error, partition_eof,
}
use kafka_order_event_platfo.Models.Message.{KafkaMessage}

-- What the client's `poll` gives.
pub data Polled : Type 0 where
  nothing : Polled
  message : KafkaMessage → Polled
  broker_error : KafkaArgument → Polled

unfoldable pub poll_result : Polled → Outcome (Option KafkaMessage)
poll_result nothing = ok none
poll_result (message m) = ok (some m)
poll_result (broker_error (kafka_error partition_eof retriable)) = ok none
poll_result (broker_error e) = raised (kafka_exception (e ∷ []))

-- `for partition in result or []: if partition.error is not None: raise`
unfoldable pub raise_partition_errors : List (Option KafkaArgument) → Outcome (Unit {0})
raise_partition_errors [] = ok tt
raise_partition_errors (none ∷ rest) = raise_partition_errors rest
raise_partition_errors (some e ∷ rest) = raised (kafka_exception (e ∷ []))

unfoldable pub is_retryable_kafka_error : Error → Bool
is_retryable_kafka_error buffer_error = true
is_retryable_kafka_error timeout_error = true
is_retryable_kafka_error (kafka_exception (kafka_error c retriable ∷ rest)) = retriable
is_retryable_kafka_error _ = false
