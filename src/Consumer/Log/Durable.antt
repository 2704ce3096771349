-- ===== src/Consumer/Log/Durable.antt =====
-- What it means that a source record of the log consumer is durable, that a committed position is
-- justified, and that the state of consumer/log.py is sound.
use kafka_order_event_platfo.Prelude.{
  ℕ, ◌≤◌, ◌<◌, String, ◌≡◌, ◌≢◌, ◌⊎◌, inl, inr, true, false, some, List, [], ◌++◌, All, elem,
  nat_eq, string_eq, pair_eq,
}
use kafka_order_event_platfo.Dict.{lookup}
use kafka_order_event_platfo.Outcome.{ok}
use kafka_order_event_platfo.Models.Event.{ApiAccessLogEvent}
use kafka_order_event_platfo.Models.Message.{KafkaMessage, KafkaCoordinate}
use kafka_order_event_platfo.Kafka.Consumer.{Polled}
use kafka_order_event_platfo.Metrics.LogAggregation.{BufferedLogEvent}
use kafka_order_event_platfo.Metrics.LogAggregation.Restore.{IsBuffer}
use kafka_order_event_platfo.Database.LogRepository.Tables.{is_missing}
use kafka_order_event_platfo.Consumer.Offsets.{PartitionKey, PartitionState}
use kafka_order_event_platfo.Consumer.World.{World}
use kafka_order_event_platfo.Consumer.Errors.{Codec, or_empty}
use kafka_order_event_platfo.Consumer.Order.{coordinate_of}
use kafka_order_event_platfo.Consumer.Order.Handled.{dead_lettered}
use kafka_order_event_platfo.Consumer.Order.Polled.{IsPolled}
use kafka_order_event_platfo.Consumer.Log.State.{LogState}
use kafka_order_event_platfo.Consumer.Log.Processor.{decode_access_log_event}

abbrev pub offset_at : PartitionKey → ℕ → KafkaCoordinate
offset_at key o = record { topic = key.0; partition = key.1; offset = o }

-- Nothing durable is lost from `v` to `w`.
pub record Grows (group : String) (v w : World) : Type 0 where
  pub markers :
      (id : ℕ)
      → is_missing (lookup (group, id) v.database.processed_events) ≡ false
      → is_missing (lookup (group, id) w.database.processed_events) ≡ false
  pub letters : (c : KafkaCoordinate) → dead_lettered c v.dlq ≡ true → dead_lettered c w.dlq ≡ true
  pub positions : (p : PartitionKey × ℕ) → elem p v.committed ≡ true → elem p w.committed ≡ true

pub Grows-refl : (group : String) (w : World) → Grows group w w
Grows-refl group w = record { markers = λ id e. e; letters = λ c e. e; positions = λ p e. e }

module _ (codec : Codec) (group : String) (polls : List Polled) where
  -- A polled message at the coordinate, whose event has the identifier.
  abbrev pub IsSource : ℕ → KafkaCoordinate → Type 0
  IsSource id c =
      (m : KafkaMessage) × (event : ApiAccessLogEvent) × IsPolled m polls
      × (coordinate_of m ≡ c)
      × (decode_access_log_event codec (or_empty m.value) ≡ ok event)
      × (event.event_id ≡ id)

  -- Either a dead letter has the coordinate, or it is that of a polled message whose event has a
  -- marker in the group.
  abbrev pub IsDurable : World → KafkaCoordinate → Type 0
  IsDurable w c =
      (dead_lettered c w.dlq ≡ true)
      ⊎ ((id : ℕ) × IsSource id c
          × (is_missing (lookup (group, id) w.database.processed_events) ≡ false))

  -- The offset is that of a polled message of the partition, or was committed for it.
  abbrev pub IsOrigin : World → PartitionKey → ℕ → Type 0
  IsOrigin w key o =
      ((m : KafkaMessage) × IsPolled m polls × (coordinate_of m ≡ offset_at key o))
      ⊎ (elem (key, o) w.committed ≡ true)

  -- Every offset from an origin up to the position is durable.
  abbrev pub IsJustified : World → PartitionKey × ℕ → Type 0
  IsJustified w (key, next) =
      (from : ℕ) × (from < next)
      × IsOrigin w key from
      × ((o : ℕ) → from ≤ o → o < next → IsDurable w (offset_at key o))

  abbrev pub IsHeld : ℕ × BufferedLogEvent → Type 0
  IsHeld (id, e) = (e.coordinates ≢ []) × All (IsSource e.event_id) e.coordinates

  abbrev pub IsTracked : World → PartitionKey × PartitionState → Type 0
  IsTracked w (key, s) =
      IsOrigin w key s.committed_next
      × ((o : ℕ) → lookup o s.offsets ≡ some true → IsDurable w (offset_at key o))

  -- The state, after a run from a state with these polls to come and `old` committed.
  pub record Sound (old : List (PartitionKey × ℕ)) (s : LogState) : Type 0 where
    pub taken : (l : List Polled) × (polls ≡ l ++ s.world.polls)
    pub buffer : IsBuffer s.buffer
    pub held : All IsHeld s.buffer
    pub tracked : All (IsTracked s.world) s.offsets
    pub committed :
        (new : List (PartitionKey × ℕ)) × (s.world.committed ≡ old ++ new)
        × All (IsJustified s.world) new

  module _ (v w : World) (h : Grows group v w) where
    pub IsDurable-Grows : (c : KafkaCoordinate) → IsDurable v c → IsDurable w c
    IsDurable-Grows c (inl letter) = inl (h.letters c letter)
    IsDurable-Grows c (inr (id, source, marked)) = inr (id, source, h.markers id marked)

    pub IsOrigin-Grows : (key : PartitionKey) (o : ℕ) → IsOrigin v key o → IsOrigin w key o
    IsOrigin-Grows key o (inl m) = inl m
    IsOrigin-Grows key o (inr e) = inr (h.positions (key, o) e)

    pub IsJustified-Grows : (p : PartitionKey × ℕ) → IsJustified v p → IsJustified w p
    IsJustified-Grows (key, next) (from, lt, origin, durable) = (
      from,
      lt,
      IsOrigin-Grows key from origin,
      λ o le below. IsDurable-Grows (offset_at key o) (durable o le below),
    )

    pub IsTracked-Grows : (p : PartitionKey × PartitionState) → IsTracked v p → IsTracked w p
    IsTracked-Grows (key, s) (origin, durable) = (
      IsOrigin-Grows key s.committed_next origin,
      λ o e. IsDurable-Grows (offset_at key o) (durable o e),
    )
