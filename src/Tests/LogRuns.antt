-- ===== src/Tests/LogRuns.antt =====
-- Examples for runs of the log consumer.
use kafka_order_event_platfo.Prelude.{
  ℕ, ◌≡◌, refl, List, [], ◌∷◌, ◌++◌, none, some, true, false, All, length,
}
use kafka_order_event_platfo.Dict.{values}
use kafka_order_event_platfo.Sorting.{sorted}
use kafka_order_event_platfo.Models.Message.{KafkaMessage}
use kafka_order_event_platfo.Kafka.Consumer.{message, is_retryable_kafka_error}
use kafka_order_event_platfo.Consumer.Retry.Rule.{Post}
use kafka_order_event_platfo.Consumer.Offsets.{PartitionKey}
use kafka_order_event_platfo.Consumer.World.{
  poll, transaction, commit_position, retrying, publish, read_clock,
}
use kafka_order_event_platfo.Consumer.Log.{
  LogState, LogSettings, revoked, signal, flush, on_lost, run_to_end, read_monotonic, poll_once,
  on_world, on_offsets, process, decode_access_log_event, on_buffer, commit_ready,
  persist_with_retry, retrying_here, on_revoke, publish_dlq, shutdown,
}
use kafka_order_event_platfo.Consumer.Retry.{run_with_retry, wait}
use kafka_order_event_platfo.Consumer.Errors.{decode_json_value, is_retryable_database_error}
use kafka_order_event_platfo.Consumer.Order.{send_to_dlq}
use kafka_order_event_platfo.Consumer.Offsets.Frontier.{advance}
use kafka_order_event_platfo.Consumer.Offsets.Tracker.{
  committable, observe, observe_state, complete_many, complete, acknowledge_commit, has_pending,
  forget,
}
use kafka_order_event_platfo.Metrics.LogAggregation.{add, take_snapshot, aggregate, combine}
use kafka_order_event_platfo.Database.LogRepository.{
  persist_snapshot, marker_values, insert_markers, upsert,
}
use kafka_order_event_platfo.Kafka.Dlq.{await}
use kafka_order_event_platfo.Consumer.Log.Durable.{IsJustified}
use kafka_order_event_platfo.Consumer.Log.Runs.{commits-IsJustified}
use kafka_order_event_platfo.Consumer.Log.NoLoss.{IsFlushed, IsSafe, flush-IsSafe}
use kafka_order_event_platfo.Consumer.Log.Rebalance.{LostWith, on_lost-LostWith}
use kafka_order_event_platfo.Tests.Fixtures.{codec, settings, busy_world, broken_message}
use kafka_order_event_platfo.Tests.Logs.{a_buffer, a_buffer-IsBuffer, two_events-HasCoordinates}

abbrev log_settings : LogSettings
log_settings = record { consumer = settings; flush_interval = 5 }

abbrev access_message : KafkaMessage
access_message = record {
  topic = "logs";
  partition = 0;
  offset = 5;
  key = none;
  value = some (2 ∷ []);
}

-- An access log, then a record that is not JSON while its partition is revoked, then a signal.
abbrev fresh_state : LogState
fresh_state = record {
  world = record busy_world { polls = message access_message ∷ message broken_message ∷ [] };
  buffer = [];
  offsets = [];
  callbacks = [] ∷ (revoked (("logs", 0) ∷ []) ∷ []) ∷ (signal ∷ []) ∷ [];
  monotonic = 0 ∷ 1 ∷ 7 ∷ 8 ∷ [];
  shutdown_requested = false;
}

commits-IsJustified_example :
    (new : List (PartitionKey × ℕ)) × ((run_to_end codec log_settings 5
        fresh_state).1.world.committed
      ≡ [] ++ new)
    × All
        (IsJustified codec "orders"
          (message access_message ∷ message broken_message ∷ [])
          (run_to_end codec log_settings 5 fresh_state).1.world)
        new
commits-IsJustified_example = commits-IsJustified codec log_settings 5 fresh_state (refl, refl)

run_to_end_commits :
    (run_to_end codec log_settings 5 fresh_state).1.world.committed
    ≡ (("logs", 0), 6) ∷ (("orders", 0), 7) ∷ []
unfolding run_to_end read_monotonic poll_once run_with_retry on_world poll on_offsets process
    decode_access_log_event decode_json_value on_buffer add commit_ready committable observe
    observe_state advance flush take_snapshot persist_with_retry transaction persist_snapshot
    marker_values insert_markers aggregate upsert combine complete_many complete acknowledge_commit
    commit_position retrying retrying_here is_retryable_database_error is_retryable_kafka_error
    send_to_dlq publish await read_clock has_pending forget on_revoke wait publish_dlq shutdown
    sorted
run_to_end_commits = refl

abbrev full_state : LogState
full_state = record fresh_state { buffer = a_buffer }

flush-IsSafe_example :
    Post
      (λ n t. IsFlushed settings a_buffer t × (n ≡ length (values a_buffer)))
      (IsSafe settings a_buffer)
      (flush settings none true full_state)
flush-IsSafe_example =
    flush-IsSafe settings none true full_state a_buffer-IsBuffer two_events-HasCoordinates

on_lost-LostWith_example :
    LostWith []
      (flush settings (some (("logs", 0) ∷ [])) false full_state).0
      (on_lost log_settings (("logs", 0) ∷ []) full_state)
on_lost-LostWith_example = on_lost-LostWith log_settings (("logs", 0) ∷ []) full_state
