-- ===== src/Consumer/Log/Flush.antt =====
-- `LogFlushService` of consumer/log.py.
use Prim.Native.String.{compare}
use Prim.Native.Nat.{Ordering}
use kafka_order_event_platfo.Prelude.{ℕ, Bool, true, false, Option, List, [], ◌∷◌, length, leb}
use kafka_order_event_platfo.Sorting.{sorted}
use kafka_order_event_platfo.Outcome.{Outcome, Exec, ok, raised, pure, raise, ◌>>◌}
use kafka_order_event_platfo.Metrics.LogAggregation.{
  Snapshot, coordinates_of, take_snapshot, restore,
}
use kafka_order_event_platfo.Kafka.Consumer.{is_retryable_kafka_error}
use kafka_order_event_platfo.Database.LogRepository.{persist_snapshot}
use kafka_order_event_platfo.Consumer.Retry.{run_with_retry}
use kafka_order_event_platfo.Consumer.Offsets.{
  PartitionKey, complete_many, committable, acknowledge_commit,
}
use kafka_order_event_platfo.Consumer.World.{World, transaction, commit_position, retrying}
use kafka_order_event_platfo.Consumer.Errors.{is_retryable_database_error}
use kafka_order_event_platfo.Consumer.Order.{ConsumerSettings}
use kafka_order_event_platfo.Consumer.Log.State.{LogState, on_world, on_buffer, on_offsets}

-- tuples compare part by part, strings by their characters
abbrev pub key_le : PartitionKey → PartitionKey → Bool
key_le (t, p) (t', p') = elim (compare t t') [
  | Ordering.lt ↦ true
  | Ordering.eq ↦ leb p p'
  | Ordering.gt ↦ false
]

-- the order of `sorted(items)`, where the keys are distinct
abbrev pub item_le : PartitionKey × ℕ → PartitionKey × ℕ → Bool
item_le (key, _) (key', _) = key_le key key'

module _ (settings : ConsumerSettings) where
  -- `_persist_once`; the number of new events is only logged
  unfoldable pub persist_once : Snapshot → Exec World (List ℕ)
  persist_once snapshot = transaction (persist_snapshot snapshot settings.consumer_group)

  unfoldable pub persist_with_retry : Snapshot → Exec World (List ℕ)
  unfolding persist_once
  persist_with_retry snapshot =
      run_with_retry
        (retrying settings.retry_policy "log metric database transaction"
          is_retryable_database_error)
        (persist_once snapshot)

  -- `except Exception: restore, raise`, else the completion of the snapshot's coordinates
  unfoldable pub settle_persist : Snapshot → Outcome (List ℕ) → Exec LogState (Unit {0})
  settle_persist snapshot (ok ids) = on_offsets (complete_many (coordinates_of snapshot))
  settle_persist snapshot (raised e) = on_buffer (restore snapshot) >> raise e

  unfoldable pub store_snapshot : Snapshot → Exec LogState (Unit {0})
  unfolding settle_persist
  store_snapshot [] s = (ok tt, s)
  store_snapshot (event ∷ events) s =
      let (r, t) = on_world (persist_with_retry (event ∷ events)) s in
      settle_persist (event ∷ events) r t

  unfoldable pub commit_with_retry : PartitionKey → ℕ → Exec World (Unit {0})
  commit_with_retry key next =
      run_with_retry (retrying settings.retry_policy "Kafka offset commit" is_retryable_kafka_error)
        (commit_position key next)

  unfoldable pub commit_each : List (PartitionKey × ℕ) → Exec LogState (Unit {0})
  unfolding commit_with_retry
  commit_each [] = pure tt
  commit_each ((key, next) ∷ rest) =
      on_world (commit_with_retry key next)
      >> (on_offsets (acknowledge_commit key next) >> commit_each rest)

  unfoldable pub commit_ready : Option (List PartitionKey) → Exec LogState (Unit {0})
  unfolding commit_each
  commit_ready partitions s = commit_each (sorted item_le (committable partitions s.offsets)) s

  -- `if commit: self.commit_ready(commit_partitions)`
  abbrev pub commit_if : Bool → Option (List PartitionKey) → Exec LogState (Unit {0})
  commit_if true partitions = commit_ready partitions
  commit_if false partitions = pure tt

  unfoldable pub flush : Option (List PartitionKey) → Bool → Exec LogState ℕ
  unfolding store_snapshot commit_ready
  flush partitions commit s =
      let (snapshot, emptied) = take_snapshot s.buffer in
      (store_snapshot snapshot >> (commit_if commit partitions >> pure (length snapshot)))
        (record s { buffer = emptied })
