-- ===== src/Consumer/Log/Safety.antt =====
-- `LogConsumerRunner` of consumer/log.py: what Kafka's committed offsets say of the database and of
-- the dead-letter topic.
use mathlib.Core.List.{append_assoc}
use kafka_order_event_platfo.Prelude.{
  ℕ, ◌≡◌, refl, sym, ◌∙◌, Bool, true, false, Option, none, some, List, [], ◌∷◌, ◌++◌, All-map,
  if_split,
}
use kafka_order_event_platfo.Outcome.{
  partition_lost, kafka_error, other_argument, partition_eof, code, raise, modify, ◌>>◌,
}
use kafka_order_event_platfo.Models.Message.{KafkaMessage}
use kafka_order_event_platfo.Kafka.Consumer.{Polled, nothing, message, broker_error, poll_result}
use kafka_order_event_platfo.Consumer.Retry.{wait}
use kafka_order_event_platfo.Consumer.Retry.Rule.{Post, Post-bind, run_with_retry-Post}
use kafka_order_event_platfo.Consumer.Offsets.{PartitionKey, forget, has_pending}
use kafka_order_event_platfo.Consumer.World.{World, next_or, poll}
use kafka_order_event_platfo.Consumer.Errors.{Codec}
use kafka_order_event_platfo.Consumer.Order.Polled.{IsPolled}
use kafka_order_event_platfo.Consumer.Log.State.{
  LogState, LogSettings, Callback, revoked, lost, signal, on_world, read_monotonic,
}
use kafka_order_event_platfo.Consumer.Log.Flush.{flush}
use kafka_order_event_platfo.Consumer.Log.Runner.{
  request_shutdown, release, on_revoke, on_lost, call_back, call_back_all, poll_with_callbacks,
  retrying_here, poll_once,
}
use kafka_order_event_platfo.Consumer.Log.Durable.{Grows, Sound, IsJustified-Grows, IsTracked-Grows}
use kafka_order_event_platfo.Consumer.Log.Lifted.{on_world-Post}
use kafka_order_event_platfo.Consumer.Log.Tracked.{forget-IsTracked}
use kafka_order_event_platfo.Consumer.Log.Flushing.{Quiet, Quiet-refl, same-Quiet}
use kafka_order_event_platfo.Consumer.Log.Storing.{Sound-Quiet, Sound-offsets}
use kafka_order_event_platfo.Consumer.Log.Committing.{flush-Sound}

module _ (codec : Codec) (settings : LogSettings) (polls : List Polled)
    (old : List (PartitionKey × ℕ)) where
  abbrev Kept : LogState → Type 0
  Kept = Sound codec settings.consumer.consumer_group polls old

  -- Clocks, callbacks and the flag are no part of what is sound.
  same-Sound :
      (s : LogState) (callbacks : List (List Callback)) (monotonic : List ℕ) (flag : Bool)
      → Kept s
      → Kept (record s { callbacks = callbacks; monotonic = monotonic; shutdown_requested = flag })
  same-Sound s callbacks monotonic flag h = record {
    taken = h.taken;
    buffer = h.buffer;
    held = h.held;
    tracked = h.tracked;
    committed = h.committed;
  }

  pub read_monotonic-Sound : (s : LogState) → Kept s → Post (λ _. Kept) Kept (read_monotonic s)
  unfolding read_monotonic
  read_monotonic-Sound s h =
      same-Sound s s.callbacks (next_or 0 s.monotonic).1 s.shutdown_requested h

  release-Sound :
      (keys : List PartitionKey) (s : LogState)
      → Kept s
      → Post (λ _. Kept) Kept (release settings keys s)
  unfolding release
  release-Sound keys s h =
      if_split (Post (λ _. Kept) Kept) (has_pending (some keys) s.offsets) (λ _. h)
        (λ _.
          Sound-offsets codec settings.consumer.consumer_group polls old s (forget keys s.offsets)
            (forget-IsTracked codec settings.consumer.consumer_group polls s.world keys s.offsets
              h.tracked)
            h)

  pub call_back-Sound :
      (c : Callback) (s : LogState) → Kept s → Post (λ _. Kept) Kept (call_back settings c s)
  unfolding call_back on_revoke on_lost request_shutdown
  call_back-Sound (revoked keys) s h =
      Post-bind (flush settings.consumer (some keys) true) (λ _. release settings keys) (λ _. Kept)
        (λ _. Kept) Kept s (flush-Sound codec settings.consumer polls old (some keys) true s h)
        (λ _ t k. release-Sound keys t k)
  call_back-Sound (lost keys) s h =
      Post-bind (flush settings.consumer (some keys) false)
        (λ _. modify request_shutdown >> raise partition_lost) (λ _. Kept) (λ _. Kept) Kept s
        (flush-Sound codec settings.consumer polls old (some keys) false s h)
        (λ _ t k. same-Sound t t.callbacks t.monotonic true k)
  call_back-Sound signal s h = same-Sound s s.callbacks s.monotonic true h

  call_back_all-Sound :
      (cs : List Callback) (s : LogState)
      → Kept s
      → Post (λ _. Kept) Kept (call_back_all settings cs s)
  unfolding call_back_all
  call_back_all-Sound [] s h = h
  call_back_all-Sound (c ∷ cs) s h =
      Post-bind (call_back settings c) (λ _. call_back_all settings cs) (λ _. Kept) (λ _. Kept) Kept
        s (call_back-Sound c s h) (λ _ t k. call_back_all-Sound cs t k)

  -- What a poll has established.
  abbrev pub Polling : Option KafkaMessage → LogState → Type 0
  Polling none s = Kept s
  Polling (some m) s = Kept s × IsPolled m polls

  take-Sound :
      (s : LogState) (p : Polled) (rest : List Polled)
      → s.world.polls ≡ p ∷ rest
      → Kept s
      → Kept (record s { world = record s.world { polls = rest } })
  take-Sound s p rest e h =
      let group = settings.consumer.consumer_group in
      let w = record s.world { polls = rest } in
      let grown : Grows group s.world w = record {
        markers = λ id k. k;
        letters = λ c k. k;
        positions = λ q k. k;
      } in
      let (l, taken) = h.taken in
      let (new, at, justified) = h.committed in
      record {
        taken = (l ++ p ∷ [], taken ∙ rw (e, append_assoc l (p ∷ []) rest));
        buffer = h.buffer;
        held = h.held;
        tracked =
            All-map _ _ s.offsets (IsTracked-Grows codec group polls s.world w grown) h.tracked;
        committed = (
          new,
          at,
          All-map _ _ new (IsJustified-Grows codec group polls s.world w grown) justified,
        );
      }

  taken-IsPolled :
      (s : LogState) (m : KafkaMessage) (rest : List Polled)
      → s.world.polls ≡ message m ∷ rest
      → Kept s
      → IsPolled m polls
  taken-IsPolled s m rest e h = let (l, taken) = h.taken in (l, rest, taken ∙ rw e)

  -- The results of a poll, where the state is given with its world changed.
  abbrev PollingFrom : LogState → Option KafkaMessage → World → Type 0
  PollingFrom s polled w = Polling polled (record s { world = w })

  poll_result-Polling :
      (s : LogState) (p : Polled) (rest : List Polled)
      → s.world.polls ≡ p ∷ rest
      → Kept s
      → Post
          (PollingFrom s)
          (λ w. Kept (record s { world = w }))
          (poll_result p, record s.world { polls = rest })
  unfolding poll_result
  poll_result-Polling s nothing rest e h = take-Sound s nothing rest e h
  poll_result-Polling s (message m) rest e h =
      (take-Sound s (message m) rest e h, taken-IsPolled s m rest e h)
  poll_result-Polling s (broker_error (kafka_error partition_eof b)) rest e h =
      take-Sound s _ rest e h
  poll_result-Polling s (broker_error (kafka_error (code n) b)) rest e h = take-Sound s _ rest e h
  poll_result-Polling s (broker_error other_argument) rest e h = take-Sound s _ rest e h

  next-Polling :
      (s : LogState) (coming : List Polled)
      → s.world.polls ≡ coming
      → Kept s
      → Post
          (PollingFrom s)
          (λ w. Kept (record s { world = w }))
          (
            poll_result (next_or nothing coming).0,
            record s.world { polls = (next_or nothing coming).1 },
          )
  unfolding poll_result
  next-Polling s [] e h =
      Sound-Quiet codec settings.consumer.consumer_group polls old s _
        (same-Quiet settings.consumer.consumer_group s.world s.world _ refl refl (sym e) refl
          (Quiet-refl settings.consumer.consumer_group s.world))
        h
  next-Polling s (p ∷ rest) e h = poll_result-Polling s p rest e h

  poll-Polling : (s : LogState) → Kept s → Post Polling Kept (on_world poll s)
  unfolding poll
  poll-Polling s h =
      on_world-Post s Polling Kept poll (PollingFrom s) (λ w. Kept (record s { world = w }))
        (λ polled w k. k) (λ w k. k) (next-Polling s s.world.polls refl h)

  poll_with_callbacks-Polling :
      (s : LogState) → Kept s → Post Polling Kept (poll_with_callbacks settings s)
  unfolding poll_with_callbacks
  poll_with_callbacks-Polling s h =
      let (calls, rest) = next_or [] s.callbacks in
      Post-bind (call_back_all settings calls) (λ _. on_world poll) (λ _. Kept) Polling Kept
        (record s { callbacks = rest })
        (call_back_all-Sound calls (record s { callbacks = rest })
          (same-Sound s rest s.monotonic s.shutdown_requested h))
        (λ _ t k. poll-Polling t k)

  world-Sound :
      (s : LogState) (w : World)
      → Quiet settings.consumer.consumer_group s.world w
      → Kept s
      → Kept (record s { world = w })
  world-Sound s w q h = Sound-Quiet codec settings.consumer.consumer_group polls old s w q h

  pub poll_once-Polling : (s : LogState) → Kept s → Post Polling Kept (poll_once settings s)
  unfolding poll_once wait retrying_here
  poll_once-Polling =
      run_with_retry-Post _ (poll_with_callbacks settings) Polling Kept poll_with_callbacks-Polling
        (λ k e s h.
          world-Sound s _
            (same-Quiet settings.consumer.consumer_group s.world s.world _ refl refl refl refl
              (Quiet-refl settings.consumer.consumer_group s.world))
            h)
