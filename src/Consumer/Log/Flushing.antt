-- ===== src/Consumer/Log/Flushing.antt =====
-- `LogFlushService` of consumer/log.py keeps the state sound.
use kafka_order_event_platfo.Prelude.{
  ℕ, String, ◌≡◌, refl, Bool, List, nat_eq, string_eq, pair_eq, arith,
}
use kafka_order_event_platfo.Outcome.{Error, ok}
use kafka_order_event_platfo.Metrics.LogAggregation.{Snapshot}
use kafka_order_event_platfo.Database.Models.{Database}
use kafka_order_event_platfo.Database.LogRepository.Upsert.{
  HasCoordinates, SnapshotStored, persist_snapshot-SnapshotStored,
}
use kafka_order_event_platfo.Database.LogRepository.Replay.{AllMarked, SnapshotStored-AllMarked}
use kafka_order_event_platfo.Consumer.Retry.{RetryPolicy, wait}
use kafka_order_event_platfo.Consumer.Retry.Rule.{Post, run_with_retry-Post}
use kafka_order_event_platfo.Consumer.World.{
  World, Fate, commits, fails, unseen, next_or, settle_transaction, transaction, retrying,
}
use kafka_order_event_platfo.Consumer.Order.{ConsumerSettings}
use kafka_order_event_platfo.Consumer.Log.Flush.{persist_once, persist_with_retry}
use kafka_order_event_platfo.Consumer.Log.Durable.{Grows, Grows-refl}

-- From `u` to `w` what is durable has grown, and nothing was polled or committed to Kafka.
pub record Quiet (group : String) (u w : World) : Type 0 where
  pub grows : Grows group u w
  pub polls : w.polls ≡ u.polls
  pub committed : w.committed ≡ u.committed

pub Quiet-refl : (group : String) (w : World) → Quiet group w w
Quiet-refl group w = record { grows = Grows-refl group w; polls = refl; committed = refl }

-- A step that leaves the stored data and the coming polls alone.
pub same-Quiet :
    (group : String) (u v w : World)
    → w.database ≡ v.database
    → w.dlq ≡ v.dlq
    → w.polls ≡ v.polls
    → w.committed ≡ v.committed
    → Quiet group u v
    → Quiet group u w
same-Quiet group u v w database dlq polls committed h = record {
  grows = record {
    markers = λ id e. rw database (h.grows.markers id e);
    letters = λ c e. rw dlq (h.grows.letters c e);
    positions = λ p e. rw committed (h.grows.positions p e);
  };
  polls = rw polls h.polls;
  committed = rw committed h.committed;
}

Quiet-wait :
    (group : String) (policy : RetryPolicy) (name : String) (is_retryable : Error → Bool)
    (u : World) (k : ℕ) (error : Error) (w : World)
    → Quiet group u w
    → Quiet group u (wait (retrying policy name is_retryable) k error w)
unfolding wait retrying
Quiet-wait group policy name is_retryable u k error w h =
    same-Quiet group u w _ refl refl refl refl h

-- The transaction of a snapshot.
stored-Quiet :
    (group : String) (es : Snapshot) (u w : World) (after : Database) (ids : List ℕ)
    → Quiet group u w
    → SnapshotStored group es w.database after ids
    → Quiet group u (record w { database = after })
stored-Quiet group es u w after ids h stored = record {
  grows = record {
    markers = λ id e. ground (arith, h.grows.markers id e, (stored.marks id).1);
    letters = h.grows.letters;
    positions = h.grows.positions;
  };
  polls = h.polls;
  committed = h.committed;
}

module _ (settings : ConsumerSettings) (es : Snapshot) (located : HasCoordinates es)
    (u : World) where
  abbrev pub Persisted : List ℕ → World → Type 0
  Persisted ids w =
      Quiet settings.consumer_group u w × AllMarked settings.consumer_group es w.database

  settle-Persisted :
      (fate : Fate) (ids : List ℕ) (after : Database) (w : World)
      → Quiet settings.consumer_group u w
      → Quiet settings.consumer_group u (record w { database = after })
      → AllMarked settings.consumer_group es after
      → Post Persisted (Quiet settings.consumer_group u) (settle_transaction fate (ok ids, after) w)
  unfolding settle_transaction
  settle-Persisted commits ids after w old new marked = (new, marked)
  settle-Persisted (fails e) ids after w old new marked = old
  settle-Persisted (unseen e) ids after w old new marked = new

  persist_once-Persisted :
      (w : World)
      → Quiet settings.consumer_group u w
      → Post Persisted (Quiet settings.consumer_group u) (persist_once settings es w)
  unfolding persist_once transaction
  persist_once-Persisted w h =
      let group = settings.consumer_group in
      let (ids, after, e, stored) = persist_snapshot-SnapshotStored group es w.database located in
      let (fate, rest) = next_or commits w.transactions in
      let v = record w { transactions = rest } in
      let quiet : Quiet group u v = same-Quiet group u w v refl refl refl refl h in
      rw e (
        settle-Persisted fate ids after v quiet (stored-Quiet group es u v after ids quiet stored)
          (SnapshotStored-AllMarked group es w.database after ids stored))

  pub persist_with_retry-Persisted :
      Post Persisted (Quiet settings.consumer_group u) (persist_with_retry settings es u)
  unfolding persist_with_retry
  persist_with_retry-Persisted =
      run_with_retry-Post _ (persist_once settings es) Persisted (Quiet settings.consumer_group u)
        persist_once-Persisted
        (λ k e w h. Quiet-wait settings.consumer_group settings.retry_policy _ _ u k e w h) u
        (Quiet-refl settings.consumer_group u)
