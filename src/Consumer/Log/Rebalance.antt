-- ===== src/Consumer/Log/Rebalance.antt =====
-- The rebalance callbacks of consumer/log.py: what a lost assignment and a revocation leave.
use kafka_order_event_platfo.Prelude.{
  ℕ, ◌≡◌, refl, true, false, Option, some, List, [], ◌∷◌, nat_eq, string_eq, pair_eq, length,
}
use kafka_order_event_platfo.Dict.{values}
use kafka_order_event_platfo.Outcome.{Outcome, ok, raised, partition_lost, raise, pure, ◌>>◌}
use kafka_order_event_platfo.Metrics.LogAggregation.{
  Snapshot, take_snapshot, restore, coordinates_of,
}
use kafka_order_event_platfo.Consumer.Retry.Rule.{
  Post, Post-bind, Post-try, Post-any, run_with_retry-Post,
}
use kafka_order_event_platfo.Consumer.Retry.{wait}
use kafka_order_event_platfo.Consumer.Offsets.{PartitionKey, complete_many}
use kafka_order_event_platfo.Consumer.World.{
  World, Fate, commits, fails, unseen, settle_transaction, transaction, next_or, retrying,
}
use kafka_order_event_platfo.Database.Models.{Database}
use kafka_order_event_platfo.Consumer.Order.{ConsumerSettings}
use kafka_order_event_platfo.Consumer.Log.State.{LogState, LogSettings, on_world, on_buffer}
use kafka_order_event_platfo.Consumer.Log.Flush.{
  persist_once, persist_with_retry, settle_persist, store_snapshot, commit_if, flush,
}
use kafka_order_event_platfo.Consumer.Log.Runner.{on_lost, request_shutdown}
use kafka_order_event_platfo.Consumer.Log.Lifted.{on_world-Post, on_buffer-Post, on_offsets-Post}

-- A transaction leaves Kafka's offsets alone, whatever its body and its end.
settle_transaction-committed :
    (fate : Fate) (r : Outcome (List ℕ) × Database) (old : List (PartitionKey × ℕ)) (w : World)
    → w.committed ≡ old
    → Post (λ _ v. v.committed ≡ old) (λ v. v.committed ≡ old) (settle_transaction fate r w)
unfolding settle_transaction
settle_transaction-committed (fails e) r old w h = h
settle_transaction-committed commits (ok a, db) old w h = h
settle_transaction-committed commits (raised e, db) old w h = h
settle_transaction-committed (unseen e) (ok a, db) old w h = h
settle_transaction-committed (unseen e) (raised e', db) old w h = h

module _ (settings : ConsumerSettings) (old : List (PartitionKey × ℕ)) where
  abbrev Kept : LogState → Type 0
  Kept s = s.world.committed ≡ old

  persist_with_retry-committed :
      (snapshot : Snapshot) (w : World)
      → w.committed ≡ old
      → Post
          (λ _ v. v.committed ≡ old)
          (λ v. v.committed ≡ old)
          (persist_with_retry settings snapshot w)
  unfolding persist_with_retry persist_once transaction wait retrying
  persist_with_retry-committed snapshot =
      run_with_retry-Post _ (persist_once settings snapshot) (λ _ v. v.committed ≡ old)
        (λ v. v.committed ≡ old)
        (λ w h.
          let (fate, rest) = next_or commits w.transactions in
          settle_transaction-committed fate _ old (record w { transactions = rest }) h)
        (λ k e w h. h)

  settle_persist-committed :
      (snapshot : Snapshot) (r : Outcome (List ℕ)) (s : LogState)
      → Kept s
      → Post (λ _. Kept) Kept (settle_persist settings snapshot r s)
  unfolding settle_persist
  settle_persist-committed snapshot (ok ids) s h =
      on_offsets-Post s (λ _. Kept) Kept (complete_many (coordinates_of snapshot)) (λ _ _. Unit {0})
        (λ _. Unit {0}) (λ _ t _. h) (λ t _. h)
        (Post-any (complete_many (coordinates_of snapshot) s.offsets))
  settle_persist-committed snapshot (raised e) s h =
      Post-bind (on_buffer (restore snapshot)) (λ _. raise e) (λ _. Kept) (λ _. Kept) Kept s
        (on_buffer-Post s (λ _. Kept) Kept (restore snapshot) (λ _ _. Unit {0}) (λ _. Unit {0})
          (λ _ t _. h) (λ t _. h) (Post-any (restore snapshot s.buffer)))
        (λ _ t k. k)

  store_snapshot-committed :
      (snapshot : Snapshot) (s : LogState)
      → Kept s
      → Post (λ _. Kept) Kept (store_snapshot settings snapshot s)
  unfolding store_snapshot
  store_snapshot-committed [] s h = h
  store_snapshot-committed (event ∷ events) s h =
      Post-try (on_world (persist_with_retry settings (event ∷ events)) s)
        (settle_persist settings (event ∷ events)) (λ _. Kept) Kept (λ _. Kept) Kept
        (on_world-Post s (λ _. Kept) Kept (persist_with_retry settings (event ∷ events))
          (λ _ v. v.committed ≡ old) (λ v. v.committed ≡ old) (λ _ w k. k) (λ w k. k)
          (persist_with_retry-committed (event ∷ events) s.world h))
        (λ ids t k. settle_persist-committed (event ∷ events) (ok ids) t k)
        (λ e t k. settle_persist-committed (event ∷ events) (raised e) t k)

  flush-committed :
      (partitions : Option (List PartitionKey)) (s : LogState)
      → Kept s
      → Post (λ _. Kept) Kept (flush settings partitions false s)
  unfolding flush take_snapshot
  flush-committed partitions s h =
      Post-bind (store_snapshot settings (values s.buffer))
        (λ _. commit_if settings false partitions >> pure (length (values s.buffer))) (λ _. Kept)
        (λ _. Kept) Kept (record s { buffer = [] })
        (store_snapshot-committed (values s.buffer) (record s { buffer = [] }) h) (λ _ t k. k)

-- What the handling of a lost assignment has come to, where its flush has ended as `flushed`: it has
-- raised the error of the flush, or else `PartitionLostError` with the shutdown requested.
abbrev pub LostWith : List (PartitionKey × ℕ) → Outcome ℕ → Outcome (Unit {0}) × LogState → Type 0
LostWith old flushed (ok _, s) = ⊥
LostWith old (raised e) (raised e', s) = (s.world.committed ≡ old) × (e' ≡ e)
LostWith old (ok _) (raised e', s) =
    (s.world.committed ≡ old) × (e' ≡ partition_lost) × (s.shutdown_requested ≡ true)

-- A lost assignment never lets the callback return, so the client's poll raises, and no offset is
-- committed to Kafka on the way, whatever the flush has met. Where the flush has returned, the error
-- is `PartitionLostError` and the shutdown is requested; else it is the error of the flush.
pub on_lost-LostWith :
    (settings : LogSettings) (keys : List PartitionKey) (s : LogState)
    → LostWith s.world.committed
        (flush settings.consumer (some keys) false s).0
        (on_lost settings keys s)
unfolding on_lost request_shutdown
on_lost-LostWith settings keys s =
    go (flush settings.consumer (some keys) false s)
      (flush-committed settings.consumer s.world.committed (some keys) s refl)
  where
    go :
        (r : Outcome ℕ × LogState)
        → Post
            (λ _ t. t.world.committed ≡ s.world.committed)
            (λ t. t.world.committed ≡ s.world.committed)
            r
        → LostWith s.world.committed r.0 (elim r.0 [
          | ok _ ↦ (raised partition_lost, record r.1 { shutdown_requested = true })
          | raised e ↦ (raised e, r.1)
        ])
    go (ok n, t) h = (h, refl, refl)
    go (raised e, t) h = (h, refl)
