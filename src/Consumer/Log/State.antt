-- ===== src/Consumer/Log/State.antt =====
-- What the objects of consumer/log.py share: the buffer and the tracker, beside the world outside
-- the program.
use kafka_order_event_platfo.Prelude.{ℕ, Bool, List}
use kafka_order_event_platfo.Outcome.{Exec, ok}
use kafka_order_event_platfo.Metrics.LogAggregation.Buffer.{Buffer}
use kafka_order_event_platfo.Consumer.Offsets.Tracker.{PartitionKey, Tracker}
use kafka_order_event_platfo.Consumer.World.{World, next_or}
use kafka_order_event_platfo.Consumer.Order.{ConsumerSettings}

-- What happens during a poll: the client calls back to revoke partitions or to say that they are
-- lost, or a signal requests the shutdown.
pub data Callback : Type 0 where
  revoked lost : List PartitionKey → Callback
  signal : Callback

pub record LogState : Type 0 where
  pub world : World
  pub buffer : Buffer
  pub offsets : Tracker
  -- the callbacks of each coming poll
  pub callbacks : List (List Callback)
  -- coming readings of the monotonic clock
  pub monotonic : List ℕ
  pub shutdown_requested : Bool

pub record LogSettings : Type 0 where
  pub consumer : ConsumerSettings
  pub flush_interval : ℕ

module _ {A : Type 0} where
  unfoldable pub on_world : Exec World A → Exec LogState A
  on_world call s = let (r, w) = call s.world in (r, record s { world = w })

  unfoldable pub on_buffer : Exec Buffer A → Exec LogState A
  on_buffer call s = let (r, b) = call s.buffer in (r, record s { buffer = b })

  unfoldable pub on_offsets : Exec Tracker A → Exec LogState A
  on_offsets call s = let (r, t) = call s.offsets in (r, record s { offsets = t })

-- `self._monotonic()`
unfoldable pub read_monotonic : Exec LogState ℕ
read_monotonic s =
    let (now, rest) = next_or 0 s.monotonic in (ok now, record s { monotonic = rest })
