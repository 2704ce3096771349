-- ===== src/Generator/Report.antt =====
-- `DeliveryTracker.snapshot` and `ProducerReport` of generator/report.py. The runner's monotonic clock
-- is in nanoseconds, and a rate in millionths of an event per second.
use kafka_order_event_platfo.Prelude.{
  ℕ, String, Option, List, [], ◌∷◌, ◌++◌, length, map, string_eq,
}
use kafka_order_event_platfo.Dict.{Dict, lookup}
use kafka_order_event_platfo.Sorting.{sorted}
use kafka_order_event_platfo.Outcome.{Outcome, ok, raised}
use kafka_order_event_platfo.Models.Event.{Datetime}
use kafka_order_event_platfo.Metrics.Doubles.{Double}
use kafka_order_event_platfo.Metrics.Statistics.{average, nearest_rank_percentile}
use kafka_order_event_platfo.Consumer.Log.Flush.{key_le}
use kafka_order_event_platfo.Generator.Ranges.{Range}
use kafka_order_event_platfo.Generator.Deliveries.{DeliveryTracker, or_zero}

pub record DeliveredOffsetRange : Type 0 where
  pub topic : String
  pub partition : ℕ
  pub start_offset : ℕ
  pub end_offset_exclusive : ℕ

pub record TrackerSnapshot : Type 0 where
  pub attempted : ℕ
  pub delivered : ℕ
  pub failed : ℕ
  pub pending : ℕ
  pub order_events_attempted : ℕ
  pub log_events_attempted : ℕ
  pub invalid_events_injected : ℕ
  pub stale_events_injected : ℕ
  pub duplicate_events_injected : ℕ
  pub duplicate_events_delivered : ℕ
  pub invalid_events_by_type : Dict String ℕ
  pub producer_delivery_latency_sample_count : ℕ
  pub producer_delivery_latency_average_ms : Option ℕ
  pub producer_delivery_latency_p95_ms : Option ℕ
  pub producer_delivery_latency_p99_ms : Option ℕ
  pub delivered_offset_ranges : List DeliveredOffsetRange

-- `Counter[key]`
abbrev pub counted : String → Dict String ℕ → ℕ
counted key d = or_zero (lookup key d)

abbrev pub delivered_range : String × ℕ → Range → DeliveredOffsetRange
delivered_range (topic, partition) (start, end) = record {
  topic = topic;
  partition = partition;
  start_offset = start;
  end_offset_exclusive = end;
}

abbrev pub delivered_ranges : List ((String × ℕ) × List Range) → List DeliveredOffsetRange
delivered_ranges [] = []
delivered_ranges ((key, ranges) ∷ items) =
    map (delivered_range key) ranges ++ delivered_ranges items

-- the snapshot, once both percentiles are known
abbrev pub snapshot_with :
    DeliveryTracker → Outcome (Option ℕ) → Outcome (Option ℕ) → Outcome TrackerSnapshot
snapshot_with t (raised e) p99 = raised e
snapshot_with t (ok p95) (raised e) = raised e
snapshot_with t (ok p95) (ok p99) = ok (record {
  attempted = t.attempted;
  delivered = t.delivered;
  failed = t.failed;
  pending = length t.pending;
  order_events_attempted = counted "order" t.families;
  log_events_attempted = counted "log" t.families;
  invalid_events_injected = counted "invalid" t.injections;
  stale_events_injected = counted "stale" t.injections;
  duplicate_events_injected = counted "duplicate" t.injections;
  duplicate_events_delivered = counted "duplicate" t.delivered_injections;
  invalid_events_by_type = t.invalid_types;
  producer_delivery_latency_sample_count = length t.latencies_ms;
  producer_delivery_latency_average_ms = average t.latencies_ms;
  producer_delivery_latency_p95_ms = p95;
  producer_delivery_latency_p99_ms = p99;
  delivered_offset_ranges = delivered_ranges (sorted (λ a b. key_le a.0 b.0) t.offset_ranges);
})

-- 0.95 and 0.99, as `float.as_integer_ratio` gives them
abbrev pub ninety_five_percent : Double
ninety_five_percent = record { significand = 4278419646001971; scale = 52 }

abbrev pub ninety_nine_percent : Double
ninety_nine_percent = record { significand = 4458563631096791; scale = 52 }

-- `DeliveryTracker.snapshot`
unfoldable pub snapshot : DeliveryTracker → Outcome TrackerSnapshot
snapshot t =
    snapshot_with t (nearest_rank_percentile t.latencies_ms ninety_five_percent)
      (nearest_rank_percentile t.latencies_ms ninety_nine_percent)

pub record ProducerReport : Type 0 where
  pub report_version : ℕ
  pub started_at : Datetime
  pub finished_at : Datetime
  pub target_events_per_second : ℕ
  -- in nanoseconds, as `elapsed`
  pub duration : ℕ
  pub elapsed : ℕ
  pub actual_events_per_second : ℕ
  pub attempted : ℕ
  pub delivered : ℕ
  pub failed : ℕ
  pub order_events_attempted : ℕ
  pub log_events_attempted : ℕ
  pub invalid_events_injected : ℕ
  pub stale_events_injected : ℕ
  pub duplicate_events_injected : ℕ
  pub duplicate_events_delivered : ℕ
  pub invalid_events_by_type : Dict String ℕ
  pub seed : ℕ
  pub stale_time : ℕ
  pub producer_delivery_latency_sample_count : ℕ
  pub producer_delivery_latency_average_ms : Option ℕ
  pub producer_delivery_latency_p95_ms : Option ℕ
  pub producer_delivery_latency_p99_ms : Option ℕ
  pub delivered_offset_ranges : List DeliveredOffsetRange
