-- ===== src/Consumer/Log/Processing.antt =====
-- `LogMessageProcessor.process` of consumer/log.py keeps the state sound.
use kafka_order_event_platfo.Prelude.{ℕ, ◌≡◌, refl, inl, true, List, All}
use kafka_order_event_platfo.Outcome.{
  Error, Outcome, ok, raised, permanent, value_error, PermanentMessageError, pure, ◌>>=◌, ◌>>◌,
}
use kafka_order_event_platfo.Models.Event.{ApiAccessLogEvent, aware}
use kafka_order_event_platfo.Models.Message.{KafkaMessage}
use kafka_order_event_platfo.Kafka.Consumer.{Polled}
use kafka_order_event_platfo.Metrics.LogAggregation.{add}
use kafka_order_event_platfo.Consumer.Retry.Rule.{Post, Post-bind, Post-try}
use kafka_order_event_platfo.Consumer.Offsets.{PartitionKey, complete}
use kafka_order_event_platfo.Consumer.World.{World, next_or, read_clock}
use kafka_order_event_platfo.Consumer.Errors.{Codec, or_empty}
use kafka_order_event_platfo.Consumer.Order.{ConsumerSettings, coordinate_of, send_to_dlq}
use kafka_order_event_platfo.Consumer.Order.Handled.{dead_lettered}
use kafka_order_event_platfo.Consumer.Order.Letters.{Delivered, Lettered, send_to_dlq-Lettered}
use kafka_order_event_platfo.Consumer.Order.Polled.{IsPolled}
use kafka_order_event_platfo.Consumer.Log.State.{LogState, on_offsets}
use kafka_order_event_platfo.Consumer.Log.Processor.{
  dlqed, decode_access_log_event, add_decoded, conflict, publish_dlq, dead_letter, settle_add,
  process,
}
use kafka_order_event_platfo.Consumer.Log.Durable.{Sound, IsTracked}
use kafka_order_event_platfo.Consumer.Log.Lifted.{on_world-Post, on_buffer-Post, on_offsets-Post}
use kafka_order_event_platfo.Consumer.Log.Tracked.{complete-IsTracked}
use kafka_order_event_platfo.Consumer.Log.Flushing.{Quiet}
use kafka_order_event_platfo.Consumer.Log.Storing.{Sound-Quiet, Sound-buffer, Sound-offsets}
use kafka_order_event_platfo.Consumer.Log.Buffering.{Holds, add-Holds}

module _ (codec : Codec) (settings : ConsumerSettings) (polls : List Polled)
    (old : List (PartitionKey × ℕ)) (m : KafkaMessage) where
  abbrev Kept : LogState → Type 0
  Kept = Sound codec settings.consumer_group polls old

  abbrev Lost : Unit {0} → LogState → Type 0
  Lost _ s = Kept s × (dead_lettered (coordinate_of m) s.world.dlq ≡ true)

  -- Reading the clock and delivering leave the database alone.
  Delivered-Quiet :
      (w v : World)
      → Delivered (record w { clock = (next_or (aware 0) w.clock).1 }) v
      → Quiet settings.consumer_group w v
  Delivered-Quiet w v h = record {
    grows = record {
      markers = λ id e. rw h.database e;
      letters = h.letters;
      positions = λ p e. rw h.committed e;
    };
    polls = h.polls;
    committed = h.committed;
  }

  publish_dlq-Lost :
      (error : PermanentMessageError) (s : LogState)
      → Kept s
      → Post Lost Kept (publish_dlq codec settings m error s)
  unfolding publish_dlq read_clock
  publish_dlq-Lost error s h =
      let (t, rest) = next_or (aware 0) s.world.clock in
      let u = record s.world { clock = rest } in
      let kept : (w : World) → Delivered u w → Kept (record s { world = w }) = λ w d.
        Sound-Quiet codec settings.consumer_group polls old s w (Delivered-Quiet s.world w d) h in
      on_world-Post s Lost Kept
        (read_clock >>= λ failed_at. send_to_dlq codec settings m error failed_at) (Lettered u m)
        (Delivered u) (λ _ w (d, letter). (kept w d, letter)) kept
        (send_to_dlq-Lettered codec settings m error t u)

  dead_letter-Sound :
      (error : PermanentMessageError) (s : LogState)
      → Kept s
      → Post (λ _. Kept) Kept (dead_letter codec settings m error s)
  unfolding dead_letter
  dead_letter-Sound error s h =
      Post-bind (publish_dlq codec settings m error)
        (λ _. on_offsets (complete (coordinate_of m)) >> pure dlqed) Lost (λ _. Kept) Kept s
        (publish_dlq-Lost error s h)
        (λ _ t (kept, letter).
          Post-bind (on_offsets (complete (coordinate_of m))) (λ _. pure dlqed) (λ _. Kept)
            (λ _. Kept) Kept t
            (on_offsets-Post t (λ _. Kept) Kept (complete (coordinate_of m))
              (λ _. All (IsTracked codec settings.consumer_group polls t.world))
              (All (IsTracked codec settings.consumer_group polls t.world))
              (λ _ x tracked.
                Sound-offsets codec settings.consumer_group polls old t x tracked kept)
              (λ x tracked. Sound-offsets codec settings.consumer_group polls old t x tracked kept)
              (complete-IsTracked codec settings.consumer_group polls t.world (coordinate_of m)
                t.offsets (inl letter) kept.tracked))
            (λ _ v k. k))

  add_decoded-Sound :
      (r : Outcome ApiAccessLogEvent) (s : LogState)
      → IsPolled m polls
      → decode_access_log_event codec (or_empty m.value) ≡ r
      → Kept s
      → Post (λ _. Kept) Kept (add_decoded codec m r s)
  add_decoded-Sound (raised e) s polled decoded h = h
  add_decoded-Sound (ok event) s polled decoded h =
      on_buffer-Post s (λ _. Kept) Kept (add event (coordinate_of m))
        (λ _. Holds codec settings.consumer_group polls) (Holds codec settings.consumer_group polls)
        (λ _ b (is_buffer, held).
          Sound-buffer codec settings.consumer_group polls old s b is_buffer held h)
        (λ b (is_buffer, held).
          Sound-buffer codec settings.consumer_group polls old s b is_buffer held h)
        (add-Holds codec settings.consumer_group polls event (coordinate_of m) s.buffer
          (m, event, polled, refl, decoded, refl) (h.buffer, h.held))

  settle_raised-Sound :
      (e : Error) (s : LogState)
      → Kept s
      → Post (λ _. Kept) Kept (settle_add codec settings m (raised e) s)
  unfolding settle_add
  settle_raised-Sound (permanent error) s h = dead_letter-Sound error s h
  settle_raised-Sound (value_error _) s h = dead_letter-Sound (conflict codec m) s h
  settle_raised-Sound _ s h = h

  pub process-Sound :
      (s : LogState)
      → IsPolled m polls
      → Kept s
      → Post (λ _. Kept) Kept (process codec settings m s)
  unfolding process settle_add
  process-Sound s polled h =
      let decoded = decode_access_log_event codec (or_empty m.value) in
      Post-try (add_decoded codec m decoded s) (settle_add codec settings m) (λ _. Kept) Kept
        (λ _. Kept) Kept (add_decoded-Sound decoded s polled refl h) (λ inserted t k. k)
        settle_raised-Sound
