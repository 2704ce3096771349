-- ===== src/Generator/Runner.antt =====
-- generator/runner.py: `GeneratorRunner`. Its monotonic clock is in nanoseconds, a rate in millionths
-- of an event per second, and a quotient is rounded down.
pub mod Keeping
pub mod Finishing
use kafka_order_event_platfo.Prelude.{
  not, ◌==◌, nat_eq, ℕ, zero, suc, ◌+◌, ◌-◌, ◌*◌, ◌/◌, ◌^◌, max, Option, none, some, List, [], ◌∷◌,
  ◌++◌, ltb, leb, if◌then◌else◌,
}
use kafka_order_event_platfo.Outcome.{
  value_error, Error, Outcome, Exec, ok, raised, pure, raise, lift, ◌>>=◌, ◌>>◌, modify,
}
use kafka_order_event_platfo.Models.Event.{Datetime, aware}
use kafka_order_event_platfo.Consumer.World.{next_or}
use kafka_order_event_platfo.Kafka.Producer.{ProducerState, send, flush}
use kafka_order_event_platfo.Generator.Records.{GeneratedRecord, GeneratorOptions}
use kafka_order_event_platfo.Generator.Factory.Draws.{FactoryState}
use kafka_order_event_platfo.Generator.Factory.Payloads.{FactoryCodec}
use kafka_order_event_platfo.Generator.Factory.History.{next_record}
use kafka_order_event_platfo.Generator.Report.{TrackerSnapshot, snapshot, ProducerReport}

-- The options that the runner reads, beside those of the factory.
pub record RunOptions : Type 0 where
  pub factory_options : GeneratorOptions
  pub log_ratio : ℕ
  pub events_per_second : ℕ
  pub duration : ℕ
  pub seed : ℕ

-- A sum of rates is off by a millionth at least, so the tolerance of 1e-9 admits none.
unfoldable pub validate_ratios : RunOptions → Outcome RunOptions
validate_ratios options =
    let rates = options.factory_options in
    if not (rates.order_ratio + options.log_ratio == 1000000)
    then raised (value_error "order_ratio and log_ratio must sum to 1")
    else if ltb 1000000 (rates.invalid_rate + rates.stale_rate + rates.duplicate_rate)
    then raised (value_error "invalid_rate, stale_rate, and duplicate_rate must sum to at most 1")
    else ok options

-- `events_per_second * duration_seconds`, exact and cut off; the source's product is one of floats.
abbrev pub planned_events : RunOptions → ℕ
planned_events options = options.events_per_second * options.duration / 10 ^ 15

pub record RunnerState : Type 0 where
  pub factory : FactoryState
  pub producer : ProducerState
  -- the coming readings of the two clocks
  pub wall : List Datetime
  pub monotonic : List ℕ
  pub slept : List ℕ
  -- the counters that were logged
  pub progress : List TrackerSnapshot
  -- what the coming writes of the report raise, if anything
  pub writes : List (Option Error)
  pub written : Option ProducerReport

unfoldable pub read_runner_wall : Exec RunnerState Datetime
read_runner_wall s = let (t, rest) = next_or (aware 0) s.wall in (ok t, record s { wall = rest })

unfoldable pub read_runner_clock : Exec RunnerState ℕ
read_runner_clock s = let (t, rest) = next_or 0 s.monotonic in (ok t, record s { monotonic = rest })

abbrev pub on_factory : {A : Type 0} → Exec FactoryState A → Exec RunnerState A
on_factory m s = let (r, factory) = m s.factory in (r, record s { factory = factory })

abbrev pub on_producer : {A : Type 0} → Exec ProducerState A → Exec RunnerState A
on_producer m s = let (r, producer) = m s.producer in (r, record s { producer = producer })

-- the wait for the scheduled time, where it has not passed
unfoldable pub pace : ℕ → Exec RunnerState (Unit {0})
unfolding read_runner_clock
pace scheduled = do
  now ← read_runner_clock
  modify
      (λ s. if ltb now scheduled then record s { slept = s.slept ++ (scheduled - now) ∷ [] } else s)

-- `self._tracker.snapshot()`
abbrev pub tracker_snapshot : Exec RunnerState TrackerSnapshot
tracker_snapshot s = (snapshot s.producer.tracker, s)

unfoldable pub log_progress : Exec RunnerState (Unit {0})
log_progress = do
  counters ← tracker_snapshot
  modify (λ s. record s { progress = s.progress ++ counters ∷ [] })

abbrev pub progress_interval : ℕ
progress_interval = 5 * 10 ^ 9

-- the progress, where its time has come, and when it is next
unfoldable pub report_progress : ℕ → Exec RunnerState ℕ
unfolding read_runner_clock log_progress
report_progress next_progress = do
  now ← read_runner_clock
  if leb next_progress now
      then (log_progress >> pure (next_progress + progress_interval))
      else pure next_progress

-- `path.write_text`, with what it raises, if anything
abbrev pub settle_write : Option Error → ProducerReport → Exec RunnerState (Unit {0})
settle_write none report s = (ok tt, record s { written = some report })
settle_write (some e) report s = (raised e, s)

unfoldable pub write_report : ProducerReport → Exec RunnerState (Unit {0})
write_report report s =
    let (refusal, rest) = next_or none s.writes in
    settle_write refusal report (record s { writes = rest })

-- what is returned, or raised again, after `finally`
abbrev pub outcome_after : Outcome (Unit {0}) → ProducerReport → Outcome ProducerReport
outcome_after (ok _) report = ok report
outcome_after (raised e) report = raised e

module _ (options : RunOptions) where
  -- the report of some counters
  abbrev pub report_from : Datetime → Datetime → ℕ → TrackerSnapshot → ProducerReport
  report_from started_at finished_at elapsed counters = record {
    report_version = 1;
    started_at = started_at;
    finished_at = finished_at;
    target_events_per_second = options.events_per_second;
    duration = options.duration;
    elapsed = elapsed;
    actual_events_per_second = counters.delivered * 10 ^ 15 / elapsed;
    attempted = counters.attempted;
    delivered = counters.delivered;
    failed = counters.failed;
    order_events_attempted = counters.order_events_attempted;
    log_events_attempted = counters.log_events_attempted;
    invalid_events_injected = counters.invalid_events_injected;
    stale_events_injected = counters.stale_events_injected;
    duplicate_events_injected = counters.duplicate_events_injected;
    duplicate_events_delivered = counters.duplicate_events_delivered;
    invalid_events_by_type = counters.invalid_events_by_type;
    seed = options.seed;
    stale_time = options.factory_options.stale_time;
    producer_delivery_latency_sample_count = counters.producer_delivery_latency_sample_count;
    producer_delivery_latency_average_ms = counters.producer_delivery_latency_average_ms;
    producer_delivery_latency_p95_ms = counters.producer_delivery_latency_p95_ms;
    producer_delivery_latency_p99_ms = counters.producer_delivery_latency_p99_ms;
    delivered_offset_ranges = counters.delivered_offset_ranges;
  }

  -- `_build_report`
  unfoldable pub build_report : Datetime → Datetime → ℕ → Exec RunnerState ProducerReport
  build_report started_at finished_at elapsed =
      tracker_snapshot >>= λ counters. pure (report_from started_at finished_at elapsed counters)

  -- what stands in `finally`
  unfoldable pub finish : Datetime → ℕ → Exec RunnerState ProducerReport
  unfolding read_runner_wall read_runner_clock build_report write_report
  finish started_at started = do
    _ ← on_producer flush
    finished_at ← read_runner_wall
    now ← read_runner_clock
    report ← build_report started_at finished_at (max (now - started) 1)
    write_report report
    pure report

  -- a `try` with its `finally`
  unfoldable pub finishing : Datetime → ℕ → Outcome (Unit {0}) → Exec RunnerState ProducerReport
  unfolding finish
  finishing started_at started r =
      finish started_at started >>= λ report. lift (outcome_after r report)

module _ (codec : FactoryCodec) (options : RunOptions) where
  -- one round of the loop, with the time of the next progress
  unfoldable pub produce_one : ℕ → ℕ → ℕ → Exec RunnerState ℕ
  unfolding pace report_progress
  produce_one started index next_progress = do
    pace (started + (index + 1) * 10 ^ 15 / options.events_per_second)
    r ← on_factory (next_record codec options.factory_options)
    _ ← on_producer (send r)
    report_progress next_progress

  -- the rounds that are left
  unfoldable pub produce_all : ℕ → ℕ → ℕ → ℕ → Exec RunnerState (Unit {0})
  unfolding produce_one
  produce_all zero started index next_progress = pure tt
  produce_all (suc rounds) started index next_progress = do
    next ← produce_one started index next_progress
    produce_all rounds started (index + 1) next

  -- `GeneratorRunner.run`
  unfoldable pub run : Exec RunnerState ProducerReport
  unfolding read_runner_wall read_runner_clock produce_all finishing
  run = do
    started_at ← read_runner_wall
    started ← read_runner_clock
    λ s.
        let (r, t) =
          produce_all (planned_events options) started 0 (started + progress_interval) s in
        finishing options started_at started r t
