-- ===== src/Consumer/Log/Runs.antt =====
-- Whole runs of the log consumer: `LogConsumerRunner.run` of consumer/log.py, and the `shutdown` that
-- apps/log_consumer calls when it returns.
use mathlib.Core.List.{append-nil}
use kafka_order_event_platfo.Prelude.{
  ℕ, zero, suc, ◌+◌, String, ◌≡◌, refl, sym, true, Option, none, some, List, [], ◌++◌, All,
  if_split, leb,
}
use kafka_order_event_platfo.Outcome.{Outcome, Exec, ok, raised, pure, modify, ◌>>=◌}
use kafka_order_event_platfo.Models.Message.{KafkaMessage}
use kafka_order_event_platfo.Kafka.Consumer.{Polled}
use kafka_order_event_platfo.Consumer.Retry.Rule.{Post, Post-bind}
use kafka_order_event_platfo.Consumer.Offsets.{PartitionKey, observe}
use kafka_order_event_platfo.Consumer.Errors.{Codec}
use kafka_order_event_platfo.Consumer.Order.{coordinate_of}
use kafka_order_event_platfo.Consumer.Order.Polled.{IsPolled}
use kafka_order_event_platfo.Consumer.Log.State.{LogState, LogSettings, on_offsets, read_monotonic}
use kafka_order_event_platfo.Consumer.Log.Processor.{process}
use kafka_order_event_platfo.Consumer.Log.Flush.{flush, commit_ready}
use kafka_order_event_platfo.Consumer.Log.Runner.{
  poll_once, flush_if_due, accept, iteration, loop, run, shutdown, run_to_end,
}
use kafka_order_event_platfo.Consumer.Log.Durable.{Sound, IsJustified}
use kafka_order_event_platfo.Consumer.Log.Tracked.{observe-IsTracked}
use kafka_order_event_platfo.Consumer.Log.Storing.{Sound-offsets}
use kafka_order_event_platfo.Consumer.Log.Committing.{commit_ready-Sound, flush-Sound}
use kafka_order_event_platfo.Consumer.Log.Processing.{process-Sound}
use kafka_order_event_platfo.Consumer.Log.Safety.{Polling, read_monotonic-Sound, poll_once-Polling}

module _ (codec : Codec) (settings : LogSettings) (polls : List Polled)
    (old : List (PartitionKey × ℕ)) where
  abbrev Kept : LogState → Type 0
  Kept = Sound codec settings.consumer.consumer_group polls old

  observed-Sound :
      (m : KafkaMessage) (s : LogState)
      → IsPolled m polls
      → Kept s
      → Post (λ _. Kept) Kept (on_offsets (modify (observe (coordinate_of m))) s)
  unfolding on_offsets
  observed-Sound m s polled h =
      Sound-offsets codec settings.consumer.consumer_group polls old s
        (observe (coordinate_of m) s.offsets)
        (observe-IsTracked codec settings.consumer.consumer_group polls s.world m s.offsets polled
          h.tracked)
        h

  accept-Sound :
      (polled : Option KafkaMessage) (s : LogState)
      → Polling codec settings polls old polled s
      → Post (λ _. Kept) Kept (accept codec settings polled s)
  unfolding accept
  accept-Sound none s h = h
  accept-Sound (some m) s (h, polled) =
      Post-bind (on_offsets (modify (observe (coordinate_of m))))
        (λ _. process codec settings.consumer m >>= λ _. commit_ready settings.consumer none)
        (λ _. Kept) (λ _. Kept) Kept s (observed-Sound m s polled h)
        (λ _ t k.
          Post-bind (process codec settings.consumer m) (λ _. commit_ready settings.consumer none)
            (λ _. Kept) (λ _. Kept) Kept t
            (process-Sound codec settings.consumer polls old m t polled k)
            (λ _ v sound. commit_ready-Sound codec settings.consumer polls old none v sound))

  flush_if_due-Sound :
      (next_flush now : ℕ) (s : LogState)
      → Kept s
      → Post (λ _. Kept) Kept (flush_if_due settings next_flush now s)
  unfolding flush_if_due
  flush_if_due-Sound next_flush now s h =
      if_split (λ (f : Exec LogState ℕ). Post (λ _. Kept) Kept (f s)) (leb next_flush now)
        (λ _.
          Post-bind (flush settings.consumer none true)
            (λ _. read_monotonic >>= λ t. pure (t + settings.flush_interval)) (λ _. Kept)
            (λ _. Kept) Kept s (flush-Sound codec settings.consumer polls old none true s h)
            (λ _ t k.
              Post-bind read_monotonic (λ now. pure (now + settings.flush_interval)) (λ _. Kept)
                (λ _. Kept) Kept t (read_monotonic-Sound codec settings polls old t k)
                (λ _ v sound. sound)))
        (λ _. h)

  iteration-Sound :
      (next_flush : ℕ) (s : LogState)
      → Kept s
      → Post (λ _. Kept) Kept (iteration codec settings next_flush s)
  unfolding iteration
  iteration-Sound next_flush s h =
      Post-bind (poll_once settings)
        (λ polled. accept codec settings polled >>= λ _.
          read_monotonic >>= λ now. flush_if_due settings next_flush now)
        (Polling codec settings polls old) (λ _. Kept) Kept s
        (poll_once-Polling codec settings polls old s h)
        (λ polled t k.
          Post-bind (accept codec settings polled)
            (λ _. read_monotonic >>= λ now. flush_if_due settings next_flush now) (λ _. Kept)
            (λ _. Kept) Kept t (accept-Sound polled t k)
            (λ _ v sound.
              Post-bind read_monotonic (λ now. flush_if_due settings next_flush now) (λ _. Kept)
                (λ _. Kept) Kept v (read_monotonic-Sound codec settings polls old v sound)
                (λ now x still. flush_if_due-Sound next_flush now x still)))

  loop-Sound :
      (rounds next_flush : ℕ) (s : LogState)
      → Kept s
      → Post (λ _. Kept) Kept (loop codec settings rounds next_flush s)
  unfolding loop
  loop-Sound zero next_flush s h = h
  loop-Sound (suc rounds) next_flush s h =
      if_split (Post (λ _. Kept) Kept) s.shutdown_requested (λ _. h)
        (λ _.
          Post-bind (iteration codec settings next_flush) (λ next. loop codec settings rounds next)
            (λ _. Kept) (λ _. Kept) Kept s (iteration-Sound next_flush s h)
            (λ next t k. loop-Sound rounds next t k))

  run_to_end-Sound :
      (rounds : ℕ) (s : LogState)
      → Kept s
      → Post (λ _. Kept) Kept (run_to_end codec settings rounds s)
  unfolding run_to_end run shutdown
  run_to_end-Sound rounds s h =
      Post-bind (run codec settings rounds) (λ _. shutdown settings) (λ _. Kept) (λ _. Kept) Kept s
        (Post-bind read_monotonic
          (λ start. loop codec settings rounds (start + settings.flush_interval)) (λ _. Kept)
          (λ _. Kept) Kept s (read_monotonic-Sound codec settings polls old s h)
          (λ start t k. loop-Sound rounds (start + settings.flush_interval) t k))
        (λ _ t k.
          Post-bind (flush settings.consumer none true) (λ _. pure tt) (λ _. Kept) (λ _. Kept) Kept
            t (flush-Sound codec settings.consumer polls old none true t k) (λ _ v sound. sound))

-- A consumer that has just started.
abbrev pub IsFresh : LogState → Type 0
IsFresh s = (s.buffer ≡ []) × (s.offsets ≡ [])

fresh-Sound :
    (codec : Codec) (group : String) (s : LogState)
    → IsFresh s
    → Sound codec group s.world.polls s.world.committed s
fresh-Sound codec group s (buffer, offsets) = record {
  taken = ([], refl);
  buffer = rw buffer (record { distinct = tt; named = tt });
  held = rw buffer tt;
  tracked = rw offsets tt;
  committed = ([], sym (append-nil s.world.committed), tt);
}

-- Start with an empty buffer and no tracked offset, run the loop for any number of iterations and,
-- if it returns, shut down; with any results of polls, transactions, deliveries and commits, any
-- rebalance callbacks and signals during the polls, and whether the run returns or raises in the
-- end. Then each position that the run has committed to Kafka for a partition has an origin before
-- it, which is the offset of a polled message or an earlier commit of the partition, and every
-- offset from there up to the position is durable: it has a dead letter, or it is that of a polled
-- message whose event has its marker in the database.
pub commits-IsJustified :
    (codec : Codec) (settings : LogSettings) (rounds : ℕ) (s : LogState)
    → IsFresh s
    → (new : List (PartitionKey × ℕ)) × ((run_to_end codec settings rounds s).1.world.committed
        ≡ s.world.committed ++ new)
      × All
          (IsJustified codec settings.consumer.consumer_group s.world.polls
            (run_to_end codec settings rounds s).1.world)
          new
commits-IsJustified codec settings rounds s fresh =
    let group = settings.consumer.consumer_group in
    (ended (run_to_end codec settings rounds s) (
      run_to_end-Sound codec settings s.world.polls s.world.committed rounds s
        (fresh-Sound codec group s fresh))).committed
  where
    ended :
        (r : Outcome (Unit {0}) × LogState)
        → Post
            (λ _. Sound codec settings.consumer.consumer_group s.world.polls s.world.committed)
            (Sound codec settings.consumer.consumer_group s.world.polls s.world.committed)
            r
        → Sound codec settings.consumer.consumer_group s.world.polls s.world.committed r.1
    ended (ok _, v) h = h
    ended (raised _, v) h = h
