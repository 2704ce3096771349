-- ===== src/Tests/Logs.antt =====
-- Examples for the log consumer's parts: offsets, the buffer and the snapshots.
use kafka_order_event_platfo.Prelude.{
  ℕ, ◌≤◌, ◌<◌, ◌≡◌, refl, ◌↔◌, ◌||◌, true, false, if◌then◌else◌, [], ◌∷◌, none, some, elem, arith,
  nat_eq, string_eq, pair_eq,
}
use kafka_order_event_platfo.Dict.{lookup}
use kafka_order_event_platfo.Outcome.{ok}
use kafka_order_event_platfo.Models.Message.{KafkaCoordinate, coordinate_eq}
use kafka_order_event_platfo.Metrics.LogAggregation.{
  AggregationKey, key_eq, MetricAggregate, BufferedLogEvent, Snapshot, aggregate, put_event,
  restore, take_snapshot,
}
use kafka_order_event_platfo.Metrics.LogAggregation.Buffer.{Buffer}
use kafka_order_event_platfo.Metrics.LogAggregation.Totals.{occurs, total, lookup-aggregate}
use kafka_order_event_platfo.Metrics.LogAggregation.Consistency.{
  IsConsistent, aggregate-IsConsistent,
}
use kafka_order_event_platfo.Metrics.LogAggregation.Coverage.{held, held-put_event}
use kafka_order_event_platfo.Metrics.LogAggregation.Restore.{IsBuffer, restore-take_snapshot}
use kafka_order_event_platfo.Database.Models.{empty_database}
use kafka_order_event_platfo.Database.LogRepository.{persist_snapshot}
use kafka_order_event_platfo.Database.LogRepository.Upsert.{HasCoordinates}
use kafka_order_event_platfo.Database.LogRepository.Replay.{persist_snapshot_again}
use kafka_order_event_platfo.Consumer.Offsets.{
  PartitionKey, PartitionState, observe, complete, committable, acknowledge_commit, is_selected,
}
use kafka_order_event_platfo.Consumer.Offsets.Tracker.{Tracker, observe_state}
use kafka_order_event_platfo.Consumer.Offsets.Frontier.{advance}
use kafka_order_event_platfo.Consumer.Offsets.Commit.{IsFrontier, committable_iff}
use kafka_order_event_platfo.Consumer.Offsets.History.{
  observed, completed, acknowledged, first_observed, was_completed, Reach, init, observes,
  completes, acknowledges,
}
use kafka_order_event_platfo.Consumer.Offsets.History.Safety.{committed-completed}

abbrev at_offset : ℕ → KafkaCoordinate
at_offset o = record { topic = "logs"; partition = 0; offset = o }

abbrev logs : PartitionKey
logs = ("logs", 0)

abbrev two_done : PartitionState
two_done = record { committed_next = 4; offsets = (4, true) ∷ (5, true) ∷ (6, false) ∷ [] }

committable_iff_example :
    (lookup logs (committable none ((logs, two_done) ∷ [])) ≡ some 6)
    ↔ ((is_selected none logs ≡ true) × IsFrontier two_done 6 × (4 < 6))
committable_iff_example =
    committable_iff none logs ((logs, two_done) ∷ []) two_done 6 (refl, tt) refl

abbrev seen : Tracker
seen = (logs, record { committed_next = 4; offsets = (4, false) ∷ [] }) ∷ []

abbrev done : Tracker
done = (logs, record { committed_next = 4; offsets = (4, true) ∷ [] }) ∷ []

abbrev passed : Tracker
passed = (logs, record { committed_next = 5; offsets = [] }) ∷ []

one_seen : Reach (observed (at_offset 4) ∷ []) seen
unfolding observe observe_state
one_seen = observes (at_offset 4) init

one_done : Reach (completed (at_offset 4) ∷ observed (at_offset 4) ∷ []) done
unfolding complete
one_done = completes (at_offset 4) one_seen refl

one_passed :
    Reach (acknowledged logs 5 ∷ completed (at_offset 4) ∷ observed (at_offset 4) ∷ []) passed
unfolding committable acknowledge_commit advance
one_passed = acknowledges none logs 5 one_done refl refl

committed-completed_example :
    let h = acknowledged logs 5 ∷ completed (at_offset 4) ∷ observed (at_offset 4) ∷ [] in
    (base : ℕ) × (first_observed logs h ≡ some base)
    × (base ≤ 5)
    × ((o : ℕ) → base ≤ o → o < 5 → was_completed logs o h ≡ true)
committed-completed_example =
    committed-completed logs (record { committed_next = 5; offsets = [] }) one_passed refl

abbrev a_minute : AggregationKey
a_minute = record { metric_minute = 60000000; service = "orders"; endpoint = "/orders" }

abbrev fast : MetricAggregate
fast = record {
  request_count = 1;
  success_count = 1;
  client_error_count = 0;
  server_error_count = 0;
  response_time_sum_ms = 20;
  max_response_time_ms = 20;
}

abbrev slow_failure : MetricAggregate
slow_failure = record {
  request_count = 1;
  success_count = 0;
  client_error_count = 0;
  server_error_count = 1;
  response_time_sum_ms = 90;
  max_response_time_ms = 90;
}

abbrev buffered_at : ℕ → ℕ → MetricAggregate → BufferedLogEvent
buffered_at id o delta = record {
  event_id = id;
  key = a_minute;
  delta = delta;
  coordinates = at_offset o ∷ [];
}

abbrev pub two_events : Snapshot
two_events = buffered_at 1 4 fast ∷ buffered_at 2 5 slow_failure ∷ []

abbrev pub a_buffer : Buffer
a_buffer = (1, buffered_at 1 4 fast) ∷ (2, buffered_at 2 5 slow_failure) ∷ []

lookup-aggregate_example :
    lookup a_minute (aggregate none two_events)
    ≡ (if occurs none a_minute two_events then some (total none a_minute two_events) else none)
lookup-aggregate_example = lookup-aggregate none a_minute two_events

fast-IsConsistent : IsConsistent fast
fast-IsConsistent = record { classes = omega arith; max_le_sum = omega arith; sum_le = omega arith }

slow_failure-IsConsistent : IsConsistent slow_failure
slow_failure-IsConsistent = record {
  classes = omega arith;
  max_le_sum = omega arith;
  sum_le = omega arith;
}

aggregate_two : lookup a_minute (aggregate none two_events) ≡ some (total none a_minute two_events)
aggregate_two = lookup-aggregate_example

aggregate-IsConsistent_example : IsConsistent (total none a_minute two_events)
aggregate-IsConsistent_example =
    aggregate-IsConsistent none a_minute two_events (total none a_minute two_events)
      (fast-IsConsistent, (slow_failure-IsConsistent, tt)) aggregate_two

pub a_buffer-IsBuffer : IsBuffer a_buffer
a_buffer-IsBuffer = record { distinct = (refl, (refl, tt)); named = (refl, (refl, tt)) }

restore-take_snapshot_example :
    let (snapshot, emptied) = take_snapshot a_buffer in restore snapshot emptied ≡ (ok tt, a_buffer)
restore-take_snapshot_example = restore-take_snapshot a_buffer a_buffer-IsBuffer

abbrev again : BufferedLogEvent
again = buffered_at 1 9 fast

put_again : put_event again a_buffer ≡ (ok tt, (put_event again a_buffer).1)
unfolding put_event
put_again = refl

held-put_event_example :
    held (at_offset 9) (put_event again a_buffer).1
    ≡ (held (at_offset 9) a_buffer || elem (at_offset 9) (at_offset 9 ∷ []))
held-put_event_example =
    held-put_event (at_offset 9) again a_buffer (put_event again a_buffer).1 put_again

pub two_events-HasCoordinates : HasCoordinates two_events
two_events-HasCoordinates = (λ e. ground (arith, e), (λ e. ground (arith, e), tt))

persist_snapshot_again_example :
    let after = (persist_snapshot two_events "logs" empty_database).1 in
    persist_snapshot two_events "logs" after ≡ (ok [], after)
persist_snapshot_again_example =
    persist_snapshot_again "logs" two_events empty_database two_events-HasCoordinates
