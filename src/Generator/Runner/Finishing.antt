-- ===== src/Generator/Runner/Finishing.antt =====
-- The report that generator/runner.py writes when its loop has ended.
use kafka_order_event_platfo.Prelude.{
  ℕ, ◌+◌, ◌-◌, ◌≡◌, refl, sym, ap, subst, max, Option, none, some, [], ◌⊎◌, inl, inr, arith,
}
use kafka_order_event_platfo.Outcome.{Error, Outcome, ok, raised, pure, raise, ◌>>=◌, ◌>>◌}
use kafka_order_event_platfo.Consumer.Retry.Rule.{Post, Post-bind, Post-and, Post-weaken}
use kafka_order_event_platfo.Consumer.World.{next_or}
use kafka_order_event_platfo.Models.Event.{Datetime, aware}
use kafka_order_event_platfo.Metrics.Statistics.Rank.{never_refused}
use kafka_order_event_platfo.Generator.Deliveries.Counts.{Reach-counted}
use kafka_order_event_platfo.Generator.Deliveries.Families.{Reach-families}
use kafka_order_event_platfo.Generator.Report.{
  TrackerSnapshot, ProducerReport, snapshot, ninety_five_percent, ninety_nine_percent,
}
use kafka_order_event_platfo.Generator.Factory.Payloads.{FactoryCodec}
use kafka_order_event_platfo.Kafka.Producer.{
  ProducerState, IsTracking, IsSettled, flush, flush-IsSettled,
}
use kafka_order_event_platfo.Kafka.Producer.Attempts.{Attempted, flush-Counts}
use kafka_order_event_platfo.Generator.Runner.{
  RunnerState, RunOptions, on_producer, read_runner_wall, read_runner_clock, tracker_snapshot,
  settle_write, report_from, build_report, write_report, finish, finishing, run, produce_all,
  planned_events, progress_interval,
}
use kafka_order_event_platfo.Generator.Runner.Keeping.{KeptAt, Idle, produce_all-KeptAt}

-- Each attempted event has one end and is of one family, and each delivered one has a latency.
pub record IsComplete (report : ProducerReport) : Type 0 where
  pub total : report.attempted ≡ report.delivered + report.failed
  pub families : report.order_events_attempted + report.log_events_attempted ≡ report.attempted
  pub samples : report.producer_delivery_latency_sample_count ≡ report.delivered

-- the same of a snapshot
abbrev IsFinal : ℕ → TrackerSnapshot → Type 0
IsFinal n c =
    (c.attempted ≡ n)
    × (c.attempted ≡ c.delivered + c.failed)
    × (c.order_events_attempted + c.log_events_attempted ≡ c.attempted)
    × (c.producer_delivery_latency_sample_count ≡ c.delivered)

-- Once no record is pending, the snapshot is final.
snapshot-IsFinal :
    (n : ℕ) (s : ProducerState)
    → IsSettled s
    → Attempted n s
    → (c : TrackerSnapshot) × (snapshot s.tracker ≡ ok c) × IsFinal n c
unfolding snapshot
snapshot-IsFinal n s (run, none_left, total) attempted =
    let t = s.tracker in
    let (p95, at95) =
      never_refused t.latencies_ms ninety_five_percent (omega arith) (omega arith) (omega arith) in
    let (p99, at99) =
      never_refused t.latencies_ms ninety_nine_percent (omega arith) (omega arith) (omega arith) in
    rw (at95, at99) (_, refl, (attempted, total, Reach-families run, (Reach-counted run).1))

-- `report` is what stands in the file now.
pub record IsReported (n : ℕ) (report : ProducerReport) (w : RunnerState) : Type 0 where
  pub written : w.written ≡ some report
  pub complete : IsComplete report
  pub attempted : report.attempted ≡ n
  pub settled : w.producer.tracker.pending ≡ []

-- The write of the report has raised, and the file is what it was.
abbrev pub IsRefused : RunnerState → RunnerState → Type 0
IsRefused u w = (e : Error) × ((next_or none u.writes).0 ≡ some e) × (w.written ≡ u.written)

module _ (options : RunOptions) (u : RunnerState) where
  -- the state after the flush, with no event pending
  abbrev Flushed : ℕ → {A : Type 0} → A → RunnerState → Type 0
  Flushed n _ t =
      IsSettled t.producer
      × Attempted n t.producer
      × (t.writes ≡ u.writes)
      × (t.written ≡ u.written)

  flush-Flushed :
      (n : ℕ) (t : RunnerState) → KeptAt u n tt t → Post (Flushed n) (λ _. ⊥) (on_producer flush t)
  flush-Flushed n t ((tracking, writes, written), attempted) = either (flush t.producer) (
      Post-and (λ _. IsSettled) (λ _. Attempted n) (λ _. ⊥) (Attempted n) (flush t.producer)
        (flush-IsSettled t.producer tracking) (flush-Counts n t.producer attempted))
    where
      either :
          (r : Outcome ℕ × ProducerState)
          → Post (λ _ s. IsSettled s × Attempted n s) (λ s. ⊥ × Attempted n s) r
          → Post (Flushed n) (λ _. ⊥) (r.0, record t { producer = r.1 })
      either (ok a, producer) (settled, counted) = (settled, counted, writes, written)
      either (raised e, producer) (never, counted) = never

  settle_write-IsReported :
      (n : ℕ) (refusal : Option Error) (report : ProducerReport) (t : RunnerState)
      → (next_or none u.writes).0 ≡ refusal
      → t.written ≡ u.written
      → t.producer.tracker.pending ≡ []
      → IsComplete report
      → report.attempted ≡ n
      → Post (λ _. IsReported n report) (IsRefused u) (settle_write refusal report t)
  settle_write-IsReported n none report t first before settled complete attempted = record {
    written = refl;
    complete = complete;
    attempted = attempted;
    settled = settled;
  }
  settle_write-IsReported n (some e) report t first before settled complete attempted =
      (e, first, before)

  write_report-IsReported :
      (n : ℕ) (report : ProducerReport) (t : RunnerState)
      → Flushed n tt t
      → IsComplete report
      → report.attempted ≡ n
      → Post (λ _. IsReported n report) (IsRefused u) (write_report report t)
  unfolding write_report
  write_report-IsReported n report t (settled, attempted, writes, written) complete same =
      let (refusal, rest) = next_or none t.writes in
      settle_write-IsReported n refusal report (record t { writes = rest })
        (ap (λ l. (next_or none l).0) (sym writes)) written settled.1 complete same

  build_report-Final :
      (n : ℕ) (started_at finished_at : Datetime) (elapsed : ℕ) (t : RunnerState)
      → Flushed n tt t
      → Post
          (λ report v. Flushed n report v × IsComplete report × (report.attempted ≡ n))
          (λ _. ⊥)
          (build_report options started_at finished_at elapsed t)
  unfolding build_report
  build_report-Final n started_at finished_at elapsed t h =
      Post-bind tracker_snapshot (λ c. pure (report_from options started_at finished_at elapsed c))
        (λ c v. Flushed n c v × IsFinal n c)
        (λ report v. Flushed n report v × IsComplete report × (report.attempted ≡ n)) (λ _. ⊥) t
        taken
        (λ c v (k, (attempted, total, families, samples)).
          (k, record { total = total; families = families; samples = samples }, attempted))
    where
      taken : Post (λ c v. Flushed n c v × IsFinal n c) (λ _. ⊥) (tracker_snapshot t)
      taken =
          let (c, at, final) = snapshot-IsFinal n t.producer h.0 h.1 in
          subst (λ r. Post (λ c v. Flushed n c v × IsFinal n c) (λ _. ⊥) (r, t)) (sym at) (h, final)

  -- what follows the flush
  reporting :
      (n : ℕ) (started_at finished_at : Datetime) (elapsed : ℕ) (t : RunnerState)
      → Flushed n tt t
      → Post (IsReported n) (IsRefused u) (
          (build_report options started_at finished_at elapsed >>= λ report.
          write_report report >> pure report)
            t)
  reporting n started_at finished_at elapsed t h =
      Post-bind (build_report options started_at finished_at elapsed)
        (λ report. write_report report >> pure report)
        (λ report v. Flushed n report v × IsComplete report × (report.attempted ≡ n)) (IsReported n)
        (IsRefused u) t
        (Post-weaken _ (λ _. ⊥)
          (λ report v. Flushed n report v × IsComplete report × (report.attempted ≡ n))
          (IsRefused u) (build_report options started_at finished_at elapsed t) (λ _ _ k. k)
          (λ _ never. absurd never) (build_report-Final n started_at finished_at elapsed t h))
        (λ report v (k, complete, same).
          Post-bind (write_report report) (λ _. pure report) (λ _. IsReported n report)
            (IsReported n) (IsRefused u) v (write_report-IsReported n report v k complete same)
            (λ _ _ l. l))

  finish-IsReported :
      (n : ℕ) (started_at : Datetime) (started : ℕ) (t : RunnerState)
      → KeptAt u n tt t
      → Post (IsReported n) (IsRefused u) (finish options started_at started t)
  unfolding finish read_runner_wall read_runner_clock
  finish-IsReported n started_at started t h =
      Post-bind (on_producer flush)
        (λ _. read_runner_wall >>= λ finished_at. read_runner_clock >>= λ now.
          build_report options started_at finished_at (max (now - started) 1) >>= λ report.
          write_report report >> pure report)
        (Flushed n) (IsReported n) (IsRefused u) t
        (Post-weaken (Flushed n) (λ _. ⊥) (Flushed n) (IsRefused u) (on_producer flush t)
          (λ _ _ k. k) (λ _ never. absurd never) (flush-Flushed n t h))
        (λ _ v k.
          let (finished_at, wall) = next_or (aware 0) v.wall in
          let (now, rest) = next_or 0 v.monotonic in
          reporting n started_at finished_at (max (now - started) 1)
            (record v { wall = wall; monotonic = rest }) k)

-- A run that raises has written its report all the same, unless the write is what has raised.
abbrev pub IsEnded : RunnerState → RunnerState → Type 0
IsEnded u w = ((report : ProducerReport) × IsReported report.attempted report w) ⊎ IsRefused u w

module _ (codec : FactoryCodec) (options : RunOptions) (u : RunnerState) where
  finishing-IsReported :
      (n started : ℕ) (started_at : Datetime) (r : Outcome (Unit {0}) × RunnerState)
      → Idle u n r
      → Post (IsReported n) (IsEnded u) (finishing options started_at started r.0 r.1)
  unfolding finishing
  finishing-IsReported n started started_at (ok a, t) h =
      Post-bind (finish options started_at started) (λ report. pure report) (IsReported n)
        (IsReported n) (IsEnded u) t
        (Post-weaken (IsReported n) (IsRefused u) (IsReported n) (IsEnded u)
          (finish options started_at started t) (λ _ _ k. k) (λ _ refused. inr refused)
          (finish-IsReported options u n started_at started t h))
        (λ _ _ k. k)
  finishing-IsReported n started started_at (raised e, t) h =
      let m = t.producer.tracker.attempted in
      Post-bind (finish options started_at started) (λ _. raise e) (IsReported m) (IsReported n)
        (IsEnded u) t
        (Post-weaken (IsReported m) (IsRefused u) (IsReported m) (IsEnded u)
          (finish options started_at started t) (λ _ _ k. k) (λ _ refused. inr refused)
          (finish-IsReported options u m started_at started t (h, refl)))
        (λ report w k. inl (report, subst (λ a. IsReported a report w) (sym k.attempted) k))

-- From a tracker that any calls have led to, with whatever the random numbers, the clocks, the client
-- and its callbacks do: if `run` returns a report, all planned events have been attempted in the
-- run, and the report is the one that has been written; if it raises, a report has been written all
-- the same, unless it is the write that has raised. In every report that is written the attempted
-- events are the delivered and the failed ones together, each is of one of the two families, and
-- each delivered one has a latency; and no event is pending then.
pub run-IsReported :
    (codec : FactoryCodec) (options : RunOptions) (u : RunnerState)
    → IsTracking u.producer
    → Post
        (IsReported (u.producer.tracker.attempted + planned_events options))
        (IsEnded u)
        (run codec options u)
unfolding run read_runner_wall read_runner_clock
run-IsReported codec options u tracking =
    let n = u.producer.tracker.attempted in
    let planned = planned_events options in
    let (started_at, wall) = next_or (aware 0) u.wall in
    let (started, rest) = next_or 0 u.monotonic in
    let t = record u { wall = wall; monotonic = rest } in
    finishing-IsReported codec options u (n + planned) started started_at
      (produce_all codec options planned started 0 (started + progress_interval) t)
      (produce_all-KeptAt codec options u planned (n + planned) n started 0
        (started + progress_interval) t refl ((tracking, refl, refl), refl))
