-- ===== src/Consumer/Log/Storing.antt =====
-- The snapshot's transaction in `flush` of consumer/log.py: its coordinates are completed when they
-- are durable, and a failed snapshot goes back into the buffer.
use kafka_order_event_platfo.Prelude.{
  ℕ, String, ◌≡◌, refl, inr, string_eq, pair_eq, false, List, [], ◌∷◌, All, All-map, All-append,
  nat_eq, arith, subst, sym, beq_refl,
}
use kafka_order_event_platfo.Dict.{lookup, values}
use kafka_order_event_platfo.Outcome.{raise}
use kafka_order_event_platfo.Models.Message.{KafkaCoordinate}
use kafka_order_event_platfo.Kafka.Consumer.{Polled}
use kafka_order_event_platfo.Metrics.LogAggregation.{
  Snapshot, coordinates_of, restore, take_snapshot,
}
use kafka_order_event_platfo.Metrics.LogAggregation.Buffer.{Buffer}
use kafka_order_event_platfo.Metrics.LogAggregation.Restore.{IsBuffer, restore-take_snapshot}
use kafka_order_event_platfo.Database.LogRepository.Tables.{is_missing}
use kafka_order_event_platfo.Database.LogRepository.Upsert.{HasCoordinates}
use kafka_order_event_platfo.Database.LogRepository.Replay.{AllMarked}
use kafka_order_event_platfo.Consumer.Retry.Rule.{Post, Post-bind, Post-try}
use kafka_order_event_platfo.Consumer.Offsets.{PartitionKey, complete_many}
use kafka_order_event_platfo.Consumer.Offsets.Tracker.{Tracker}
use kafka_order_event_platfo.Consumer.World.{World}
use kafka_order_event_platfo.Consumer.Errors.{Codec}
use kafka_order_event_platfo.Consumer.Order.{ConsumerSettings}
use kafka_order_event_platfo.Consumer.Log.State.{LogState, on_world, on_buffer, on_offsets}
use kafka_order_event_platfo.Consumer.Log.Flush.{persist_with_retry, settle_persist, store_snapshot}
use kafka_order_event_platfo.Consumer.Log.Durable.{
  Sound, IsSource, IsHeld, IsDurable, IsTracked, IsJustified-Grows, IsTracked-Grows,
}
use kafka_order_event_platfo.Consumer.Log.Lifted.{on_world-Post, on_offsets-Post, on_buffer-Post}
use kafka_order_event_platfo.Consumer.Log.Tracked.{complete_many-IsTracked}
use kafka_order_event_platfo.Consumer.Log.Flushing.{Quiet, Persisted, persist_with_retry-Persisted}

module _ (codec : Codec) (group : String) (polls : List Polled)
    (old : List (PartitionKey × ℕ)) where
  pub Sound-Quiet :
      (s : LogState) (w : World)
      → Quiet group s.world w
      → Sound codec group polls old s
      → Sound codec group polls old (record s { world = w })
  Sound-Quiet s w q h =
      let (l, taken) = h.taken in
      let (new, at, justified) = h.committed in
      record {
        taken = (l, rw (q.polls, taken));
        buffer = h.buffer;
        held = h.held;
        tracked =
            All-map _ _ s.offsets (IsTracked-Grows codec group polls s.world w q.grows) h.tracked;
        committed = (
          new,
          rw (q.committed, at),
          All-map _ _ new (IsJustified-Grows codec group polls s.world w q.grows) justified,
        );
      }

  pub Sound-buffer :
      (s : LogState) (b : Buffer)
      → IsBuffer b
      → All (IsHeld codec group polls) b
      → Sound codec group polls old s
      → Sound codec group polls old (record s { buffer = b })
  Sound-buffer s b is_buffer held h = record {
    taken = h.taken;
    buffer = is_buffer;
    held = held;
    tracked = h.tracked;
    committed = h.committed;
  }

  pub Sound-offsets :
      (s : LogState) (t : Tracker)
      → All (IsTracked codec group polls s.world) t
      → Sound codec group polls old s
      → Sound codec group polls old (record s { offsets = t })
  Sound-offsets s t tracked h = record {
    taken = h.taken;
    buffer = h.buffer;
    held = h.held;
    tracked = tracked;
    committed = h.committed;
  }

  located : (b : Buffer) → All (IsHeld codec group polls) b → HasCoordinates (values b)
  located [] h = tt
  located ((id, e) ∷ b) h = (h.0.0, located b h.1)

  -- The coordinates of a marked snapshot are durable.
  source-IsDurable :
      (w : World) (id : ℕ) (cs : List KafkaCoordinate)
      → is_missing (lookup (group, id) w.database.processed_events) ≡ false
      → All (IsSource codec group polls id) cs
      → All (IsDurable codec group polls w) cs
  source-IsDurable w id cs marked h = All-map _ _ cs (λ c source. inr (id, source, marked)) h

  values-IsDurable :
      (w : World) (b : Buffer)
      → AllMarked group (values b) w.database
      → All (IsHeld codec group polls) b
      → All (IsDurable codec group polls w) (coordinates_of (values b))
  values-IsDurable w [] marked h = tt
  values-IsDurable w ((id, e) ∷ b) marked h =
      All-append _ e.coordinates (coordinates_of (values b))
        (source-IsDurable w e.event_id e.coordinates
          (marked e.event_id (ground (arith, beq_refl e.event_id))) h.0.1)
        (values-IsDurable w b (λ j m. marked j (ground (arith, m))) h.1)

module _ (codec : Codec) (settings : ConsumerSettings) (polls : List Polled)
    (old : List (PartitionKey × ℕ)) where
  abbrev Kept : LogState → Type 0
  Kept = Sound codec settings.consumer_group polls old

  complete_many-Sound :
      (cs : List KafkaCoordinate) (s : LogState)
      → Kept s
      → All (IsDurable codec settings.consumer_group polls s.world) cs
      → Post (λ _. Kept) Kept (on_offsets (complete_many cs) s)
  complete_many-Sound cs s h durable =
      on_offsets-Post s (λ _. Kept) Kept (complete_many cs)
        (λ _. All (IsTracked codec settings.consumer_group polls s.world))
        (All (IsTracked codec settings.consumer_group polls s.world))
        (λ _ t tracked. Sound-offsets codec settings.consumer_group polls old s t tracked h)
        (λ t tracked. Sound-offsets codec settings.consumer_group polls old s t tracked h)
        (complete_many-IsTracked codec settings.consumer_group polls s.world cs s.offsets durable
          h.tracked)

  -- The buffer is empty while `b` is being stored, and the state is sound with `b` put back.
  abbrev Away : Buffer → LogState → Type 0
  Away b s = Kept (record s { buffer = b }) × (s.buffer ≡ [])

  nothing_held : (s : LogState) (b : Buffer) → Away b s → Kept s
  nothing_held s b (h, empty) =
      Sound-buffer codec settings.consumer_group polls old (record s { buffer = b }) s.buffer
        (rw empty (record { distinct = tt; named = tt })) (rw empty tt) h

  put_back :
      (b : Buffer) (s : LogState)
      → Away b s
      → Post (λ _. Kept) Kept (on_buffer (restore (values b)) s)
  unfolding take_snapshot
  put_back b s (h, empty) =
      on_buffer-Post s (λ _. Kept) Kept (restore (values b)) (λ _ c. b ≡ c) (λ _. ⊥)
        (λ _ c e. subst (λ d. Kept (record s { buffer = d })) e h) (λ _ no. absurd no)
        (rw (empty, restore-take_snapshot b h.buffer) refl)

  pub store_snapshot-Sound :
      (b : Buffer) (es : Snapshot) (s : LogState)
      → values b ≡ es
      → Kept (record s { buffer = b })
      → s.buffer ≡ []
      → Post (λ _. Kept) Kept (store_snapshot settings es s)
  unfolding store_snapshot settle_persist
  store_snapshot-Sound b [] s e h empty = nothing_held s b (h, empty)
  store_snapshot-Sound b (event ∷ events) s e h empty =
      let group = settings.consumer_group in
      let away : (w : World) → Quiet group s.world w → Away b (record s { world = w }) =
        λ w q. (Sound-Quiet codec group polls old (record s { buffer = b }) w q h, empty) in
      let located_events : HasCoordinates (event ∷ events) =
        subst HasCoordinates e (located codec group polls old b h.held) in
      Post-try (on_world (persist_with_retry settings (event ∷ events)) s)
        (settle_persist settings (event ∷ events))
        (λ ids t. Away b t × AllMarked group (event ∷ events) t.world.database) (Away b) (λ _. Kept)
        Kept
        (on_world-Post s _ (Away b) (persist_with_retry settings (event ∷ events))
          (Persisted settings (event ∷ events) located_events s.world) (Quiet group s.world)
          (λ ids w (q, marked). (away w q, marked)) away
          (persist_with_retry-Persisted settings (event ∷ events) located_events s.world))
        (λ ids t (kept, marked).
          complete_many-Sound (coordinates_of (event ∷ events)) t (nothing_held t b kept) (
            subst (λ l. All (IsDurable codec group polls t.world) (coordinates_of l)) e
              (values-IsDurable codec group polls old t.world b
                (subst (λ l. AllMarked group l t.world.database) (sym e) marked) kept.0.held)))
        (λ error t kept.
          Post-bind (on_buffer (restore (event ∷ events))) (λ _. raise error) (λ _. Kept)
            (λ _. Kept) Kept t
            (subst (λ l. Post (λ _. Kept) Kept (on_buffer (restore l) t)) e (put_back b t kept))
            (λ _ v k. k))
