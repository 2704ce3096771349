-- ===== src/Consumer/Log/NoLoss.antt =====
-- `flush` of consumer/log.py loses no buffered event: each is in the buffer or marked in the database.
use kafka_order_event_platfo.Prelude.{
  ℕ, ◌≡◌, refl, ◌⊎◌, inl, inr, Bool, true, false, Option, none, some, List, [], ◌∷◌, length, subst,
  sym,
}
use kafka_order_event_platfo.Dict.{values}
use kafka_order_event_platfo.Sorting.{sorted}
use kafka_order_event_platfo.Outcome.{Error, Outcome, ok, raised, raise, pure, ◌>>◌}
use kafka_order_event_platfo.Kafka.Consumer.{raise_partition_errors}
use kafka_order_event_platfo.Metrics.LogAggregation.{
  Snapshot, take_snapshot, restore, coordinates_of,
}
use kafka_order_event_platfo.Metrics.LogAggregation.Buffer.{Buffer}
use kafka_order_event_platfo.Metrics.LogAggregation.Restore.{IsBuffer, restore-take_snapshot}
use kafka_order_event_platfo.Database.Models.{Database}
use kafka_order_event_platfo.Database.LogRepository.Upsert.{HasCoordinates}
use kafka_order_event_platfo.Database.LogRepository.Replay.{AllMarked}
use kafka_order_event_platfo.Consumer.Retry.{wait}
use kafka_order_event_platfo.Consumer.Retry.Rule.{
  Post, Post-bind, Post-weaken, Post-try, Post-any, run_with_retry-Post,
}
use kafka_order_event_platfo.Consumer.Offsets.{
  PartitionKey, complete_many, committable, acknowledge_commit,
}
use kafka_order_event_platfo.Consumer.World.{
  World, settle_commit, commit_position, prompt_commit, next_or, retrying,
}
use kafka_order_event_platfo.Consumer.Order.{ConsumerSettings}
use kafka_order_event_platfo.Consumer.Log.State.{LogState, on_world, on_buffer, on_offsets}
use kafka_order_event_platfo.Consumer.Log.Flush.{
  persist_with_retry, settle_persist, store_snapshot, commit_with_retry, commit_each, commit_ready,
  commit_if, flush, item_le,
}
use kafka_order_event_platfo.Consumer.Log.Lifted.{on_world-Post, on_buffer-Post, on_offsets-Post}
use kafka_order_event_platfo.Consumer.Log.Flushing.{Quiet, Persisted, persist_with_retry-Persisted}

-- Commits and acknowledgements leave the database and the buffer alone.
module _ (settings : ConsumerSettings) (db : Database) (b : Buffer) where
  abbrev Same : LogState → Type 0
  Same s = (s.world.database ≡ db) × (s.buffer ≡ b)

  settle_commit-database :
      (refusal : Option Error) (stored : Bool) (r : Outcome (Unit {0})) (key : PartitionKey)
      (next : ℕ) (w : World)
      → w.database ≡ db
      → Post
          (λ _ v. v.database ≡ db)
          (λ v. v.database ≡ db)
          (settle_commit refusal stored r key next w)
  unfolding settle_commit
  settle_commit-database none stored (ok _) key next w h = h
  settle_commit-database none true (raised e) key next w h = h
  settle_commit-database none false (raised e) key next w h = h
  settle_commit-database (some e) true r key next w h = h
  settle_commit-database (some e) false r key next w h = h

  commit_with_retry-database :
      (key : PartitionKey) (next : ℕ) (w : World)
      → w.database ≡ db
      → Post (λ _ v. v.database ≡ db) (λ v. v.database ≡ db) (commit_with_retry settings key next w)
  unfolding commit_with_retry commit_position wait retrying
  commit_with_retry-database key next =
      run_with_retry-Post _ (commit_position key next) (λ _ v. v.database ≡ db)
        (λ v. v.database ≡ db)
        (λ w h.
          let (c, rest) = next_or prompt_commit w.commits in
          settle_commit-database c.refusal c.stored (raise_partition_errors c.errors) key next
            (record w { commits = rest }) h)
        (λ k e w h. h)

  commit_each-Same :
      (l : List (PartitionKey × ℕ)) (s : LogState)
      → Same s
      → Post (λ _. Same) Same (commit_each settings l s)
  unfolding commit_each
  commit_each-Same [] s h = h
  commit_each-Same ((key, next) ∷ rest) s (database, buffer) =
      Post-bind (on_world (commit_with_retry settings key next))
        (λ _. on_offsets (acknowledge_commit key next) >> commit_each settings rest) (λ _. Same)
        (λ _. Same) Same s
        (on_world-Post s (λ _. Same) Same (commit_with_retry settings key next)
          (λ _ v. v.database ≡ db) (λ v. v.database ≡ db) (λ _ w k. (k, buffer))
          (λ w k. (k, buffer)) (commit_with_retry-database key next s.world database))
        (λ _ t same.
          Post-bind (on_offsets (acknowledge_commit key next)) (λ _. commit_each settings rest)
            (λ _. Same) (λ _. Same) Same t
            (on_offsets-Post t (λ _. Same) Same (acknowledge_commit key next) (λ _ _. Unit {0})
              (λ _. Unit {0}) (λ _ x _. same) (λ x _. same)
              (Post-any (acknowledge_commit key next t.offsets)))
            (λ _ v k. commit_each-Same rest v k))

  commit_if-Same :
      (commit : Bool) (partitions : Option (List PartitionKey)) (s : LogState)
      → Same s
      → Post (λ _. Same) Same (commit_if settings commit partitions s)
  unfolding commit_ready
  commit_if-Same true partitions s h =
      commit_each-Same (sorted item_le (committable partitions s.offsets)) s h
  commit_if-Same false partitions s h = h

module _ (settings : ConsumerSettings) (b : Buffer) where
  -- The buffer is empty, and every event of `b` has its marker.
  abbrev pub IsFlushed : LogState → Type 0
  IsFlushed s = (s.buffer ≡ []) × AllMarked settings.consumer_group (values b) s.world.database

  abbrev pub IsSafe : LogState → Type 0
  IsSafe s = IsFlushed s ⊎ (s.buffer ≡ b)

  -- What follows the transaction keeps the events flushed.
  commit_if-IsFlushed :
      (commit : Bool) (partitions : Option (List PartitionKey)) (s : LogState)
      → IsFlushed s
      → Post (λ _. IsFlushed) IsFlushed (commit_if settings commit partitions s)
  commit_if-IsFlushed commit partitions s (empty, marked) =
      let back : (t : LogState) → Same settings s.world.database [] t → IsFlushed t =
        λ t (database, buffer).
          (buffer, subst (AllMarked settings.consumer_group (values b)) (sym database) marked) in
      Post-weaken (λ _. Same settings s.world.database []) (Same settings s.world.database [])
        (λ _. IsFlushed) IsFlushed (commit_if settings commit partitions s) (λ _. back) back
        (commit_if-Same settings s.world.database [] commit partitions s (refl, empty))

  nothing_marked : (db : Database) → AllMarked settings.consumer_group [] db
  nothing_marked db id m = absurd (cc)

  completed_IsFlushed :
      (es : Snapshot) (s : LogState)
      → IsFlushed s
      → Post (λ _. IsFlushed) IsFlushed (on_offsets (complete_many (coordinates_of es)) s)
  completed_IsFlushed es s h =
      on_offsets-Post s (λ _. IsFlushed) IsFlushed (complete_many (coordinates_of es))
        (λ _ _. Unit {0}) (λ _. Unit {0}) (λ _ t _. h) (λ t _. h)
        (Post-any (complete_many (coordinates_of es) s.offsets))

  restored :
      (s : LogState)
      → IsBuffer b
      → s.buffer ≡ []
      → Post (λ _ t. t.buffer ≡ b) (λ t. t.buffer ≡ b) (on_buffer (restore (values b)) s)
  unfolding take_snapshot
  restored s h empty =
      on_buffer-Post s (λ _ t. t.buffer ≡ b) (λ t. t.buffer ≡ b) (restore (values b)) (λ _ c. c ≡ b)
        (λ _. ⊥) (λ _ c e. e) (λ _ no. absurd no) (rw (empty, restore-take_snapshot b h) refl)

  store_snapshot-IsSafe :
      (es : Snapshot) (s : LogState)
      → values b ≡ es
      → IsBuffer b
      → HasCoordinates es
      → s.buffer ≡ []
      → Post (λ _. IsFlushed) IsSafe (store_snapshot settings es s)
  unfolding store_snapshot settle_persist
  store_snapshot-IsSafe [] s e is_buffer located empty =
      (empty, rw e (nothing_marked s.world.database))
  store_snapshot-IsSafe (event ∷ events) s e is_buffer located empty =
      let group = settings.consumer_group in
      Post-try (on_world (persist_with_retry settings (event ∷ events)) s)
        (settle_persist settings (event ∷ events)) (λ _. IsFlushed) (λ t. t.buffer ≡ [])
        (λ _. IsFlushed) IsSafe
        (on_world-Post s (λ _. IsFlushed) (λ t. t.buffer ≡ [])
          (persist_with_retry settings (event ∷ events))
          (Persisted settings (event ∷ events) located s.world) (Quiet group s.world)
          (λ ids w (_, marked). (empty, subst (λ l. AllMarked group l w.database) (sym e) marked))
          (λ w _. empty) (persist_with_retry-Persisted settings (event ∷ events) located s.world))
        (λ ids t flushed.
          Post-weaken (λ _. IsFlushed) IsFlushed (λ _. IsFlushed) IsSafe
            (on_offsets (complete_many (coordinates_of (event ∷ events))) t) (λ _ v k. k)
            (λ v k. inl k) (completed_IsFlushed (event ∷ events) t flushed))
        (λ error t emptied.
          Post-bind (on_buffer (restore (event ∷ events))) (λ _. raise error) (λ _ v. v.buffer ≡ b)
            (λ _. IsFlushed) IsSafe t
            (Post-weaken (λ _ v. v.buffer ≡ b) (λ v. v.buffer ≡ b) (λ _ v. v.buffer ≡ b) IsSafe
              (on_buffer (restore (event ∷ events)) t) (λ _ v k. k) (λ v k. inr k)
              (subst (λ l. Post (λ _ v. v.buffer ≡ b) (λ v. v.buffer ≡ b) (on_buffer (restore l) t))
                e (restored t is_buffer emptied)))
            (λ _ v k. inr k))

-- Let the buffer be well-formed, with a coordinate for each event. If a flush returns, it returns
-- the number of buffered events, the buffer is empty and every event has its marker in the database.
-- If it raises, either that is so, or the buffer holds exactly what it held before.
pub flush-IsSafe :
    (settings : ConsumerSettings) (partitions : Option (List PartitionKey)) (commit : Bool)
    (s : LogState)
    → IsBuffer s.buffer
    → HasCoordinates (values s.buffer)
    → Post
        (λ n t. IsFlushed settings s.buffer t × (n ≡ length (values s.buffer)))
        (IsSafe settings s.buffer)
        (flush settings partitions commit s)
unfolding flush take_snapshot
flush-IsSafe settings partitions commit s is_buffer located =
    let n = length (values s.buffer) in
    let b = s.buffer in
    Post-bind (store_snapshot settings (values b))
      (λ _. commit_if settings commit partitions >> pure n) (λ _. IsFlushed settings b)
      (λ m t. IsFlushed settings b t × (m ≡ n)) (IsSafe settings b) (record s { buffer = [] })
      (store_snapshot-IsSafe settings b (values b) (record s { buffer = [] }) refl is_buffer located
        refl)
      (λ _ t flushed.
        Post-bind (commit_if settings commit partitions) (λ _. pure n) (λ _. IsFlushed settings b)
          (λ m v. IsFlushed settings b v × (m ≡ n)) (IsSafe settings b) t
          (Post-weaken (λ _. IsFlushed settings b) (IsFlushed settings b)
            (λ _. IsFlushed settings b) (IsSafe settings b) (commit_if settings commit partitions t)
            (λ _ v k. k) (λ v k. inl k)
            (commit_if-IsFlushed settings b commit partitions t flushed))
          (λ _ v k. (k, refl)))
