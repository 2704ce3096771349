-- ===== src/Tests/Orders.antt =====
-- Examples for the order consumer and what it stands on.
use kafka_order_event_platfo.Prelude.{
  ℕ, ◌+◌, ◌*◌, ◌^◌, ◌≤◌, ◌<◌, Option, min, ◌≡◌, refl, List, [], ◌∷◌, ◌++◌, none, some, ◌↔◌,
}
use kafka_order_event_platfo.Outcome.{ok}
use kafka_order_event_platfo.Models.Message.{KafkaMessage}
use kafka_order_event_platfo.Database.Models.{empty_database}
use kafka_order_event_platfo.Database.OrderRepository.Marking.{
  IsLinked, Persisted, persist-Persisted,
}
use kafka_order_event_platfo.Database.Columns.{row_fits, marker_fits}
use kafka_order_event_platfo.Database.OrderRepository.{persist, order_row}
use kafka_order_event_platfo.Consumer.Retry.{delay, run_with_retry, wait}
use kafka_order_event_platfo.Consumer.Retry.Runs.{Explained, run_with_retry_lem}
use kafka_order_event_platfo.Kafka.Consumer.{is_retryable_kafka_error}
use kafka_order_event_platfo.Kafka.Dlq.{Tick, await, IsAcknowledged, await_iff}
use kafka_order_event_platfo.Consumer.Retry.Delay.{total_delay, delay_schedule}
use kafka_order_event_platfo.Consumer.Retry.Rule.{Post}
use kafka_order_event_platfo.Consumer.Offsets.{PartitionKey}
use kafka_order_event_platfo.Consumer.World.{
  World, poll, transaction, commit_message, retrying, read_clock, publish,
}
use kafka_order_event_platfo.Consumer.Errors.{decode_json_value, is_retryable_database_error}
use kafka_order_event_platfo.Consumer.Order.{
  process, handle, run, decode_order_event, coordinate_of, poll_once, store_event, commit_processed,
  send_to_dlq,
}
use kafka_order_event_platfo.Consumer.Order.Handled.{Handled, Progress}
use kafka_order_event_platfo.Consumer.Order.Processing.{Dealt, process-Dealt}
use kafka_order_event_platfo.Consumer.Order.Polled.{Ran, position_after}
use kafka_order_event_platfo.Consumer.Order.Running.{run-Ran, handle-committed}
use kafka_order_event_platfo.Tests.Fixtures.{
  settings, codec, an_order, order_message, broken_message, busy_world, default_policy,
}

nothing_stored : IsLinked "orders" empty_database
nothing_stored id = refl

run-Ran_example : Ran codec "orders" busy_world (run codec settings 3 busy_world).1
run-Ran_example = run-Ran codec settings 3 busy_world nothing_stored

run_commits :
    (run codec settings 3 busy_world).1.committed ≡ (("orders", 0), 6) ∷ (("orders", 0), 7) ∷ []
unfolding run poll_once poll run_with_retry process decode_order_event decode_json_value store_event
    persist transaction order_row commit_processed commit_message retrying
    is_retryable_database_error wait is_retryable_kafka_error read_clock send_to_dlq publish await
    marker_fits row_fits
run_commits = refl

abbrev after_order : World
after_order = (handle codec settings (some order_message) busy_world).1

handle_returns : handle codec settings (some order_message) busy_world ≡ (ok tt, after_order)
unfolding handle run_with_retry process decode_order_event decode_json_value store_event persist
    transaction order_row commit_processed commit_message retrying is_retryable_database_error wait
    is_retryable_kafka_error read_clock send_to_dlq publish await marker_fits row_fits
handle_returns = refl

handle-committed_example :
    Handled codec order_message after_order
    × ((earlier : List (PartitionKey × ℕ)) × (after_order.committed
          ≡ earlier ++ position_after order_message ∷ []))
handle-committed_example =
    handle-committed codec settings order_message busy_world after_order nothing_stored
      handle_returns

process-Dealt_example :
    Post
      (Dealt "orders" broken_message (decode_order_event codec (3 ∷ [])) busy_world)
      (Progress "orders" busy_world)
      (process codec settings broken_message busy_world)
process-Dealt_example = process-Dealt codec settings broken_message busy_world nothing_stored

persist-Persisted_example : Persisted an_order (coordinate_of order_message) "orders" empty_database
persist-Persisted_example =
    persist-Persisted an_order (coordinate_of order_message) "orders" empty_database nothing_stored

delay_schedule_example :
    (total_delay default_policy 2 ≤ 2 * 4)
    × (((k : ℕ) → k < 2 → 1 * 2 ^ k ≤ 4) → total_delay default_policy 2 + 1 ≡ 1 * 2 ^ 2)
    × (delay default_policy 3 ≡ min (2 * delay default_policy 2) 4)
delay_schedule_example = delay_schedule default_policy 2

run_with_retry_lem_example :
    Explained
      (retrying default_policy "Kafka offset commit" is_retryable_kafka_error)
      (commit_message order_message)
      busy_world
      (run_with_retry
        (retrying default_policy "Kafka offset commit" is_retryable_kafka_error)
        (commit_message order_message)
        busy_world)
run_with_retry_lem_example =
    run_with_retry_lem (retrying default_policy "Kafka offset commit" is_retryable_kafka_error)
      (commit_message order_message) busy_world

abbrev prompt_world : World
prompt_world = record busy_world { transactions = []; deliveries = []; commits = [] }

abbrev answers : List (Option KafkaMessage)
answers = some order_message ∷ none ∷ some broken_message ∷ []

abbrev two_rounds : List Tick
two_rounds =
    record { reading = 3; callback = none } ∷ record { reading = 8; callback = some none } ∷ []

await_iff_example : (await 10 two_rounds ≡ ok tt) ↔ IsAcknowledged 10 two_rounds
await_iff_example = await_iff 10 two_rounds
