-- ===== src/Consumer/Log/Runner.antt =====
-- `LogConsumerRunner` of consumer/log.py. The client runs the rebalance callbacks inside `poll`, and
-- what they raise comes out of `poll`.
use kafka_order_event_platfo.Prelude.{
  ℕ, zero, suc, ◌+◌, true, false, Option, none, some, List, [], ◌∷◌, ◌++◌, leb, if◌then◌else◌,
}
use kafka_order_event_platfo.Outcome.{
  Exec, ok, raised, runtime_error, partition_lost, pure, raise, ◌>>=◌, ◌>>◌, modify,
}
use kafka_order_event_platfo.Models.Message.{KafkaMessage}
use kafka_order_event_platfo.Kafka.Consumer.{is_retryable_kafka_error}
use kafka_order_event_platfo.Consumer.Retry.{RetryOptions, RetryPolicy, run_with_retry}
use kafka_order_event_platfo.Consumer.Offsets.{PartitionKey, observe, forget, has_pending}
use kafka_order_event_platfo.Consumer.World.{poll, next_or}
use kafka_order_event_platfo.Consumer.Errors.{Codec}
use kafka_order_event_platfo.Consumer.Order.{coordinate_of}
use kafka_order_event_platfo.Consumer.Log.State.{
  LogState, LogSettings, Callback, revoked, lost, signal, on_world, on_offsets, read_monotonic,
}
use kafka_order_event_platfo.Consumer.Log.Processor.{process}
use kafka_order_event_platfo.Consumer.Log.Flush.{flush, commit_ready}

unfoldable pub request_shutdown : LogState → LogState
request_shutdown s = record s { shutdown_requested = true }

unfoldable pub retrying_here : RetryPolicy → RetryOptions LogState
retrying_here policy = record {
  operation_name = "Kafka poll";
  policy = policy;
  is_retryable = is_retryable_kafka_error;
  sleeper =
      λ seconds s. record s { world = record s.world { slept = s.world.slept ++ seconds ∷ [] } };
  on_retry = some (λ e n seconds s. record s {
    world = record s.world { warnings = s.world.warnings ++ (e, n, seconds) ∷ [] };
  });
}

module _ (settings : LogSettings) where
  -- `if self._offsets.has_pending(keys): raise`, then `forget`
  unfoldable pub release : List PartitionKey → Exec LogState (Unit {0})
  release keys s =
      if has_pending (some keys) s.offsets
      then (raised (runtime_error "partition revoke left non-durable source offsets"), s)
      else (ok tt, record s { offsets = forget keys s.offsets })

  unfoldable pub on_revoke : List PartitionKey → Exec LogState (Unit {0})
  unfolding release
  on_revoke keys = flush settings.consumer (some keys) true >>= λ _. release keys

  unfoldable pub on_lost : List PartitionKey → Exec LogState (Unit {0})
  unfolding request_shutdown
  on_lost keys = flush settings.consumer (some keys) false >>= λ _.
      modify request_shutdown >> raise partition_lost

  unfoldable pub shutdown : Exec LogState (Unit {0})
  shutdown = flush settings.consumer none true >>= λ _. pure tt

  unfoldable pub call_back : Callback → Exec LogState (Unit {0})
  unfolding on_revoke on_lost request_shutdown
  call_back (revoked keys) = on_revoke keys
  call_back (lost keys) = on_lost keys
  call_back signal = modify request_shutdown

  unfoldable pub call_back_all : List Callback → Exec LogState (Unit {0})
  unfolding call_back
  call_back_all [] = pure tt
  call_back_all (c ∷ cs) = call_back c >> call_back_all cs

  -- the client's poll, the callbacks included
  unfoldable pub poll_with_callbacks : Exec LogState (Option KafkaMessage)
  unfolding call_back_all
  poll_with_callbacks s =
      let (calls, rest) = next_or [] s.callbacks in
      (call_back_all calls >> on_world poll) (record s { callbacks = rest })

  unfoldable pub poll_once : Exec LogState (Option KafkaMessage)
  unfolding poll_with_callbacks
  poll_once = run_with_retry (retrying_here settings.consumer.retry_policy) poll_with_callbacks

  -- `if self._monotonic() >= next_flush`, where the reading is given: the next flush time
  unfoldable pub flush_if_due : ℕ → ℕ → Exec LogState ℕ
  flush_if_due next_flush now =
      if leb next_flush now
      then (flush settings.consumer none true >>= λ _.
          read_monotonic >>= λ t. pure (t + settings.flush_interval))
      else pure next_flush

module _ (codec : Codec) (settings : LogSettings) where
  -- the `if message is not None` of the loop
  unfoldable pub accept : Option KafkaMessage → Exec LogState (Unit {0})
  accept none = pure tt
  accept (some m) = do
    on_offsets (modify (observe (coordinate_of m)))
    _ ← process codec settings.consumer m
    commit_ready settings.consumer none

  unfoldable pub iteration : ℕ → Exec LogState ℕ
  unfolding accept flush_if_due
  iteration next_flush = do
    message ← poll_once settings
    accept message
    now ← read_monotonic
    flush_if_due settings next_flush now

  -- the first `rounds` iterations of the loop, or fewer where a shutdown is requested
  unfoldable pub loop : ℕ → ℕ → Exec LogState (Unit {0})
  unfolding iteration
  loop zero next_flush s = (ok tt, s)
  loop (suc rounds) next_flush s =
      let again = (iteration next_flush >>= λ next. loop rounds next) s in
      if s.shutdown_requested then (ok tt, s) else again

  unfoldable pub run : ℕ → Exec LogState (Unit {0})
  unfolding loop
  run rounds = read_monotonic >>= λ start. loop rounds (start + settings.flush_interval)

  -- the entry point, apps/log_consumer: `runner.run()`, then `runner.shutdown()`
  unfoldable pub run_to_end : ℕ → Exec LogState (Unit {0})
  unfolding run
  run_to_end rounds = run rounds >> shutdown settings
