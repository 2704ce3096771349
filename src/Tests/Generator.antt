-- ===== src/Tests/Generator.antt =====
-- Examples for the event generator, its producer and its report.
use kafka_order_event_platfo.Prelude.{
  ◌≤◌, ◌<◌, ◌↔◌, ◌^◌, inl, ℕ, ◌+◌, String, ◌≡◌, refl, nat_eq, Option, none, some, List, [], ◌∷◌,
  length, All, arith,
}
use kafka_order_event_platfo.Outcome.{ok}
use kafka_order_event_platfo.Consumer.Retry.Rule.{Post}
use kafka_order_event_platfo.Generator.Ranges.{
  Range, Apart, insert_offset, IsInserted, insert_offset-IsInserted,
}
use kafka_order_event_platfo.Generator.Records.{GeneratedRecord, InjectionKind, EventFamily}
use kafka_order_event_platfo.Models.Json.{Json}
use kafka_order_event_platfo.Models.Event.{EventType}
use kafka_order_event_platfo.Generator.Deliveries.{
  DeliveryTracker, new_tracker, begin_attempt, mark_delivered, time_delivery, count_delivery,
  mark_failed, fail_pending,
}
use kafka_order_event_platfo.Generator.Deliveries.Counts.{
  Reach, fresh, begins, delivers, Reach-counted,
}
use kafka_order_event_platfo.Kafka.Producer.{
  ProducerState, delivery_done, delivery_failed, queued, full, flush, IsSettled, flush-IsSettled,
  on_delivery, serve, serve_callbacks, try_produce, send,
}
use kafka_order_event_platfo.Models.Json.{Fields, object, field, end}
use kafka_order_event_platfo.Consumer.Errors.{get_field}
use kafka_order_event_platfo.Generator.Records.{missing_required_field}
use kafka_order_event_platfo.Generator.Factory.Mutations.{mutate_invalid, mutate_invalid-keeps}
use kafka_order_event_platfo.Generator.Factory.History.{
  next_record, by_roll, create_normal, choose_family, choose_event_type, remember_in,
}
use kafka_order_event_platfo.Sorting.{sorted}
use kafka_order_event_platfo.Metrics.Doubles.{product, rounded}
use kafka_order_event_platfo.Metrics.Doubles.Product.{IsDouble}
use kafka_order_event_platfo.Metrics.Statistics.{average, nearest_rank_percentile, rank_index}
use kafka_order_event_platfo.Generator.Report.{snapshot, ninety_five_percent}
use kafka_order_event_platfo.Metrics.Statistics.Rank.{IsNearestRank, nearest_rank_percentile_iff}
use kafka_order_event_platfo.Generator.Factory.Payloads.{
  FactoryCodec, build_event, route, order_created_payload,
}
use kafka_order_event_platfo.Generator.Factory.Draws.{
  draw, read_factory_clock, make_id, make_amount,
}
use kafka_order_event_platfo.Generator.Runner.{
  validate_ratios, RunnerState, RunOptions, run, read_runner_wall, read_runner_clock, produce_all,
  produce_one, pace, report_progress, log_progress, finishing, finish, build_report, write_report,
}
use kafka_order_event_platfo.Generator.Runner.Finishing.{IsReported, IsEnded, run-IsReported}
use kafka_order_event_platfo.Generator.Factory.Remembered.{
  IsHistory, in_order, pushed, remember_in-pushed,
}

abbrev two_ranges : List Range
two_ranges = (3, 5) ∷ (6, 9) ∷ []

two_ranges-Apart : Apart 0 two_ranges
two_ranges-Apart = ground arith

joins : insert_offset 5 two_ranges ≡ (3, 9) ∷ []
unfolding insert_offset
joins = refl

insert_offset-IsInserted_example : IsInserted 0 5 two_ranges (insert_offset 5 two_ranges)
insert_offset-IsInserted_example =
    insert_offset-IsInserted 0 5 two_ranges (omega arith) two_ranges-Apart

abbrev a_record : GeneratedRecord
a_record = record {
  topic = "orders";
  key = "ORD-00000001";
  value = Json.null;
  event_id = 7;
  event_type = EventType.order_created;
  family = EventFamily.order;
  injection_kind = InjectionKind.duplicate;
  invalid_kind = none;
}

abbrev one_begun : DeliveryTracker
one_begun = (begin_attempt a_record 2 new_tracker).1

abbrev orders_at : ℕ → Option ((String × ℕ) × ℕ)
orders_at offset = some (("orders", 0), offset)

abbrev one_delivered : DeliveryTracker
one_delivered = (mark_delivered 0 5 (orders_at 40) one_begun).1

run_of_two : Reach one_delivered
run_of_two = delivers 0 5 (orders_at 40) (begins a_record 2 fresh)

Reach-counted_example :
    (one_delivered.attempted
      ≡ one_delivered.delivered + one_delivered.failed + length one_delivered.pending)
    × (length one_delivered.latencies_ms ≡ one_delivered.delivered)
    × All (λ (p : (String × ℕ) × List Range). Apart 0 p.1) one_delivered.offset_ranges
    × ((token now : ℕ) (location : Option ((String × ℕ) × ℕ))
        → (mark_delivered token now location one_delivered).0 ≡ ok tt)
Reach-counted_example = Reach-counted run_of_two

-- The queue is full once, then takes the record, whose callback comes with the flush.
abbrev busy_producer : ProducerState
busy_producer = record {
  tracker = one_begun;
  produces = full ∷ queued ∷ [];
  reports = (delivery_failed 9 ∷ delivery_done 0 (orders_at 40) ∷ []) ∷ [];
  remaining = [];
  clock = 5 ∷ [];
  slept = [];
}

flush-IsSettled_example : Post (λ _. IsSettled) (λ _. ⊥) (flush busy_producer)
flush-IsSettled_example = flush-IsSettled busy_producer (begins a_record 2 fresh)

short_history : IsHistory (a_record ∷ []) 0
short_history = record { bounded = omega arith; inside = omega arith; at_start = λ _. refl }

remember_in-pushed_example :
    let (next, moved) = remember_in a_record (a_record ∷ []) 0 in
    IsHistory next moved × (in_order next moved ≡ pushed a_record (in_order (a_record ∷ []) 0))
remember_in-pushed_example = remember_in-pushed a_record (a_record ∷ []) 0 short_history

abbrev an_event : Fields
an_event =
    field "event_id" (Json.text "id-1")
      (field "payload" (object (field "order_id" (Json.text "ORD-1") end)) end)

abbrev a_mutated_event : Fields
a_mutated_event = field "event_id" (Json.text "id-1") (field "payload" (object end) end)

loses_order_id : mutate_invalid missing_required_field an_event ≡ ok a_mutated_event
unfolding mutate_invalid
loses_order_id = refl

mutate_invalid-keeps_example : get_field "event_id" a_mutated_event ≡ get_field "event_id" an_event
mutate_invalid-keeps_example =
    mutate_invalid-keeps "event_id" missing_required_field an_event a_mutated_event refl refl
      loses_order_id

abbrev factory_codec : FactoryCodec
factory_codec = record {
  uuid4 = λ n. n;
  dump = λ e. Json.null;
  order_topic = "orders";
  log_topic = "logs";
}

-- Two events in a second, where the second one finds the queue full for good.
abbrev run_options : RunOptions
run_options = record {
  factory_options = record {
    order_ratio = 500000;
    application_error_ratio = 500000;
    invalid_rate = 0;
    stale_rate = 0;
    duplicate_rate = 0;
    stale_time = 0;
  };
  log_ratio = 500000;
  events_per_second = 2000000;
  duration = 1000000000;
  seed = 42;
}

options_are_valid : validate_ratios run_options ≡ ok run_options
unfolding validate_ratios
options_are_valid = refl

abbrev ready : RunnerState
ready = record {
  factory = record {
    draws = [];
    clock = [];
    order_history = [];
    log_history = [];
    order_cursor = 0;
    log_cursor = 0;
  };
  producer = record {
    tracker = new_tracker;
    produces = queued ∷ full ∷ full ∷ full ∷ full ∷ [];
    reports = (delivery_done 0 (orders_at 40) ∷ []) ∷ [];
    remaining = [];
    clock = [];
    slept = [];
  };
  wall = [];
  monotonic = [];
  slept = [];
  progress = [];
  writes = [];
  written = none;
}

run-IsReported_example : Post (IsReported 2) (IsEnded ready) (run factory_codec run_options ready)
run-IsReported_example = run-IsReported factory_codec run_options ready fresh

run_slept : (run factory_codec run_options ready).1.producer.slept ≡ 1 ∷ 2 ∷ 4 ∷ []
unfolding run read_runner_wall read_runner_clock produce_all produce_one pace report_progress
    log_progress finishing finish build_report write_report snapshot average nearest_rank_percentile
    product rounded sorted begin_attempt mark_delivered time_delivery count_delivery mark_failed
    fail_pending on_delivery serve serve_callbacks try_produce send flush next_record by_roll
    create_normal choose_family choose_event_type build_event route draw read_factory_clock make_id
    make_amount order_created_payload
run_slept = refl

ninety_five_percent-IsDouble : IsDouble ninety_five_percent
ninety_five_percent-IsDouble = record { bits = omega arith; lowest = inl (omega arith) }

nearest_rank_percentile_iff_example :
    (nearest_rank_percentile (30 ∷ 10 ∷ 20 ∷ []) ninety_five_percent ≡ ok (some 30)) ↔ (
      (0 < 4278419646001971)
      × (4278419646001971 ≤ 2 ^ 52)
      × IsNearestRank ninety_five_percent (30 ∷ 10 ∷ 20 ∷ []) 30)
nearest_rank_percentile_iff_example =
    nearest_rank_percentile_iff (30 ∷ 10 ∷ 20 ∷ []) ninety_five_percent 30
      ninety_five_percent-IsDouble (omega arith)

percentile_of_three :
    nearest_rank_percentile (30 ∷ 10 ∷ 20 ∷ []) (record { significand = 1; scale = 1 })
    ≡ ok (some 20)
unfolding nearest_rank_percentile product rounded sorted
percentile_of_three = refl

-- 0.28 * 25 is more than 7 in doubles
rounded_up : rank_index (record { significand = 1261007895663739; scale = 52 }) 25 ≡ 7
unfolding product rounded
rounded_up = refl
