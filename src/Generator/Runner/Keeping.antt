-- ===== src/Generator/Runner/Keeping.antt =====
-- What the loop of generator/runner.py keeps.
use kafka_order_event_platfo.Prelude.{
  ℕ, zero, suc, ◌+◌, ◌≡◌, [], ◌∷◌, ◌++◌, ltb, leb, if_split, arith, Bool,
}
use kafka_order_event_platfo.Outcome.{Outcome, Exec, ok, raised, pure, modify}
use kafka_order_event_platfo.Consumer.Retry.Rule.{Post, Post-bind, Post-and}
use kafka_order_event_platfo.Consumer.World.{next_or}
use kafka_order_event_platfo.Generator.Records.{GeneratedRecord}
use kafka_order_event_platfo.Generator.Report.{TrackerSnapshot, snapshot}
use kafka_order_event_platfo.Generator.Factory.Draws.{FactoryState}
use kafka_order_event_platfo.Generator.Factory.Payloads.{FactoryCodec}
use kafka_order_event_platfo.Generator.Factory.History.{next_record}
use kafka_order_event_platfo.Kafka.Producer.{ProducerState, IsTracking, send, send-IsTracking}
use kafka_order_event_platfo.Kafka.Producer.Attempts.{Attempted, send-Counts}
use kafka_order_event_platfo.Generator.Runner.{
  RunnerState, RunOptions, on_factory, on_producer, read_runner_clock, pace, tracker_snapshot,
  log_progress, report_progress, progress_interval, produce_one, produce_all,
}

-- The tracker is one that its calls have led to, and no report has been written since `u`.
abbrev pub Kept : RunnerState → RunnerState → Type 0
Kept u t = IsTracking t.producer × (t.writes ≡ u.writes) × (t.written ≡ u.written)

abbrev pub KeptAt : RunnerState → ℕ → {A : Type 0} → A → RunnerState → Type 0
KeptAt u n _ t = Kept u t × Attempted n t.producer

-- A step that changes neither the producer nor the report.
abbrev pub Idle : RunnerState → ℕ → {A : Type 0} → Outcome A × RunnerState → Type 0
Idle u n r = Post (KeptAt u n) (Kept u) r

module _ (u : RunnerState) where
  on_factory-Idle :
      {A : Type 0} (n : ℕ) (m : Exec FactoryState A) (t : RunnerState)
      → KeptAt u n tt t
      → Idle u n (on_factory m t)
  on_factory-Idle {A = A} n m t h = either (m t.factory)
    where
      either : (r : Outcome A × FactoryState) → Idle u n (r.0, record t { factory = r.1 })
      either (ok a, factory) = h
      either (raised e, factory) = h.0

  send-KeptAt :
      (n : ℕ) (r : GeneratedRecord) (t : RunnerState)
      → KeptAt u n tt t
      → Idle u (n + 1) (on_producer (send r) t)
  send-KeptAt n r t ((tracking, writes, written), attempted) = either (send r t.producer) (
      Post-and (λ _. IsTracking) (λ _. Attempted (n + 1)) IsTracking (Attempted (n + 1))
        (send r t.producer) (send-IsTracking r t.producer tracking)
        (send-Counts n r t.producer attempted))
    where
      either :
          (r : Outcome Bool × ProducerState)
          → Post
              (λ _ s. IsTracking s × Attempted (n + 1) s)
              (λ s. IsTracking s × Attempted (n + 1) s)
              r
          → Idle u (n + 1) (r.0, record t { producer = r.1 })
      either (ok a, producer) (tracking, counted) = ((tracking, writes, written), counted)
      either (raised e, producer) (tracking, counted) = (tracking, writes, written)

  pace-Idle : (n scheduled : ℕ) (t : RunnerState) → KeptAt u n tt t → Idle u n (pace scheduled t)
  unfolding pace read_runner_clock
  pace-Idle n scheduled t h =
      let (now, rest) = next_or 0 t.monotonic in
      if_split (KeptAt u n tt) (ltb now scheduled) (λ _. h) (λ _. h)

  log_progress-Idle : (n : ℕ) (t : RunnerState) → KeptAt u n tt t → Idle u n (log_progress t)
  unfolding log_progress
  log_progress-Idle n t h =
      Post-bind tracker_snapshot
        (λ counters. modify (λ s. record s { progress = s.progress ++ counters ∷ [] })) (KeptAt u n)
        (KeptAt u n) (Kept u) t (taken (snapshot t.producer.tracker)) (λ _ _ k. k)
    where
      taken : (r : Outcome TrackerSnapshot) → Idle u n (r, t)
      taken (ok counters) = h
      taken (raised e) = h.0

  report_progress-Idle :
      (n next : ℕ) (t : RunnerState) → KeptAt u n tt t → Idle u n (report_progress next t)
  unfolding report_progress read_runner_clock
  report_progress-Idle n next t h =
      let (now, rest) = next_or 0 t.monotonic in
      let v = record t { monotonic = rest } in
      if_split (λ (m : Exec RunnerState ℕ). Idle u n (m v)) (leb next now)
        (λ _.
          Post-bind log_progress (λ _. pure (next + progress_interval)) (KeptAt u n) (KeptAt u n)
            (Kept u) v (log_progress-Idle n v h) (λ _ _ k. k))
        (λ _. h)

module _ (codec : FactoryCodec) (options : RunOptions) (u : RunnerState) where
  produce_one-KeptAt :
      (n started index next : ℕ) (t : RunnerState)
      → KeptAt u n tt t
      → Idle u (n + 1) (produce_one codec options started index next t)
  unfolding produce_one
  produce_one-KeptAt n started index next t h =
      Post-bind (pace _) _ (KeptAt u n) (KeptAt u (n + 1)) (Kept u) t (pace-Idle u n _ t h)
        (λ _ v k.
          Post-bind (on_factory (next_record codec options.factory_options)) _ (KeptAt u n)
            (KeptAt u (n + 1)) (Kept u) v
            (on_factory-Idle u n (next_record codec options.factory_options) v k)
            (λ r w l.
              Post-bind (on_producer (send r)) _ (KeptAt u (n + 1)) (KeptAt u (n + 1)) (Kept u) w
                (send-KeptAt u n r w l) (λ _ x. report_progress-Idle u (n + 1) next x)))

  pub produce_all-KeptAt :
      (rounds m n started index next : ℕ) (t : RunnerState)
      → m ≡ n + rounds
      → KeptAt u n tt t
      → Idle u m (produce_all codec options rounds started index next t)
  unfolding produce_all
  produce_all-KeptAt zero m n started index next t e (h, attempted) =
      (h, omega (arith, attempted, e))
  produce_all-KeptAt (suc rounds) m n started index next t e h =
      Post-bind (produce_one codec options started index next)
        (λ later. produce_all codec options rounds started (index + 1) later) (KeptAt u (n + 1))
        (KeptAt u m) (Kept u) t (produce_one-KeptAt n started index next t h)
        (λ later v.
          produce_all-KeptAt rounds m (n + 1) started (index + 1) later v (omega (arith, e)))
