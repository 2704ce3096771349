-- ===== src/Consumer/Log/Committing.antt =====
-- `commit_ready` and `flush` of consumer/log.py keep the state sound.
use mathlib.Core.List.{append_assoc}
use kafka_order_event_platfo.Prelude.{
  ℕ, ◌≡◌, refl, Bool, true, false, Option, none, some, List, [], ◌∷◌, ◌++◌, All, All-map,
  All-append, elem, elem-append, nat_eq, string_eq, pair_eq, arith, beq_refl, length,
}
use kafka_order_event_platfo.Dict.{values}
use kafka_order_event_platfo.Sorting.{sorted, All-sorted}
use kafka_order_event_platfo.Outcome.{Error, Outcome, ok, raised, pure, ◌>>◌}
use kafka_order_event_platfo.Kafka.Consumer.{Polled, raise_partition_errors}
use kafka_order_event_platfo.Metrics.LogAggregation.{take_snapshot}
use kafka_order_event_platfo.Consumer.Retry.{wait}
use kafka_order_event_platfo.Consumer.Retry.Rule.{Post, Post-bind, run_with_retry-Post}
use kafka_order_event_platfo.Consumer.Offsets.{PartitionKey, committable, acknowledge_commit}
use kafka_order_event_platfo.Consumer.World.{
  World, settle_commit, commit_position, prompt_commit, next_or, retrying,
}
use kafka_order_event_platfo.Consumer.Errors.{Codec}
use kafka_order_event_platfo.Consumer.Order.{ConsumerSettings}
use kafka_order_event_platfo.Consumer.Log.State.{LogState, on_world, on_offsets}
use kafka_order_event_platfo.Consumer.Log.Flush.{
  item_le, commit_with_retry, commit_each, commit_ready, commit_if, flush, store_snapshot,
}
use kafka_order_event_platfo.Consumer.Log.Durable.{
  Grows, Grows-refl, Sound, IsJustified, IsTracked, IsJustified-Grows, IsTracked-Grows,
}
use kafka_order_event_platfo.Consumer.Log.Lifted.{on_world-Post, on_offsets-Post}
use kafka_order_event_platfo.Consumer.Log.Tracked.{
  committable-IsJustified, acknowledge_commit-IsTracked,
}
use kafka_order_event_platfo.Consumer.Log.Flushing.{Quiet, Quiet-refl, same-Quiet}
use kafka_order_event_platfo.Consumer.Log.Storing.{Sound-Quiet, Sound-offsets, store_snapshot-Sound}

module _ (codec : Codec) (settings : ConsumerSettings) (polls : List Polled)
    (old : List (PartitionKey × ℕ)) where
  abbrev Kept : LogState → Type 0
  Kept = Sound codec settings.consumer_group polls old

  module _ (s : LogState) (key : PartitionKey) (next : ℕ) where
    -- The state is sound with this world, and the position may be committed.
    pub record Ready (w : World) : Type 0 where
      pub sound : Kept (record s { world = w })
      pub justified : IsJustified codec settings.consumer_group polls w (key, next)
      pub grows : Grows settings.consumer_group s.world w

    abbrev Committed : Unit {0} → World → Type 0
    Committed _ w = Ready w × (elem (key, next) w.committed ≡ true)

    Quiet-Ready : (v w : World) → Quiet settings.consumer_group v w → Ready v → Ready w
    Quiet-Ready v w q h = record {
      sound =
          Sound-Quiet codec settings.consumer_group polls old (record s { world = v }) w q h.sound;
      justified =
          IsJustified-Grows codec settings.consumer_group polls v w q.grows (key, next) h.justified;
      grows = record {
        markers = λ id e. q.grows.markers id (h.grows.markers id e);
        letters = λ c e. q.grows.letters c (h.grows.letters c e);
        positions = λ p e. q.grows.positions p (h.grows.positions p e);
      };
    }

    append-Grows :
        (v : World)
        → Grows settings.consumer_group v (record v { committed = v.committed ++ (key, next) ∷ [] })
    append-Grows v = record {
      markers = λ id e. e;
      letters = λ c e. e;
      positions = λ p e. ground (arith, e, elem-append p v.committed ((key, next) ∷ []));
    }

    append-Committed :
        (v : World)
        → Ready v
        → Committed tt (record v { committed = v.committed ++ (key, next) ∷ [] })
    append-Committed v h =
        let group = settings.consumer_group in
        let w = record v { committed = v.committed ++ (key, next) ∷ [] } in
        let grown = append-Grows v in
        let (new, at, justified) = h.sound.committed in
        let here = IsJustified-Grows codec group polls v w grown (key, next) h.justified in
        (
          record {
            sound = record {
              taken = h.sound.taken;
              buffer = h.sound.buffer;
              held = h.sound.held;
              tracked =
                  All-map _ _ s.offsets (IsTracked-Grows codec group polls v w grown)
                    h.sound.tracked;
              committed = (
                new ++ (key, next) ∷ [],
                rw (at, append_assoc old new ((key, next) ∷ [])),
                All-append _ new ((key, next) ∷ [])
                    (All-map _ _ new (IsJustified-Grows codec group polls v w grown) justified)
                    (here, tt),
              );
            };
            justified = here;
            grows = record {
              markers = h.grows.markers;
              letters = h.grows.letters;
              positions = λ p e. grown.positions p (h.grows.positions p e);
            };
          },
          ground (
            arith,
            elem-append (key, next) v.committed ((key, next) ∷ []),
            beq_refl {A = PartitionKey × ℕ} (key, next),
          ),
        )

    settle_commit-Committed :
        (refusal : Option Error) (stored : Bool) (r : Outcome (Unit {0})) (v : World)
        → Ready v
        → Post Committed Ready (settle_commit refusal stored r key next v)
    unfolding settle_commit
    settle_commit-Committed none stored (ok _) v h = append-Committed v h
    settle_commit-Committed none true (raised e) v h = (append-Committed v h).0
    settle_commit-Committed none false (raised e) v h = h
    settle_commit-Committed (some e) true r v h = (append-Committed v h).0
    settle_commit-Committed (some e) false r v h = h

    commit_position-Committed :
        (v : World) → Ready v → Post Committed Ready (commit_position key next v)
    unfolding commit_position
    commit_position-Committed v h =
        let (c, rest) = next_or prompt_commit v.commits in
        let w = record v { commits = rest } in
        settle_commit-Committed c.refusal c.stored (raise_partition_errors c.errors) w (
          Quiet-Ready v w
            (same-Quiet settings.consumer_group v v w refl refl refl refl
              (Quiet-refl settings.consumer_group v))
            h)

    commit_with_retry-Committed :
        (w : World) → Ready w → Post Committed Ready (commit_with_retry settings key next w)
    unfolding commit_with_retry wait retrying
    commit_with_retry-Committed =
        run_with_retry-Post _ (commit_position key next) Committed Ready commit_position-Committed
          (λ k e v h.
            Quiet-Ready v _
              (same-Quiet settings.consumer_group v v _ refl refl refl refl
                (Quiet-refl settings.consumer_group v))
              h)

  acknowledge-Sound :
      (key : PartitionKey) (next : ℕ) (rest : List (PartitionKey × ℕ)) (s : LogState)
      → Kept s
      → elem (key, next) s.world.committed ≡ true
      → All (IsJustified codec settings.consumer_group polls s.world) rest
      → Post
          (λ _ v. Kept v × All (IsJustified codec settings.consumer_group polls v.world) rest)
          Kept
          (on_offsets (acknowledge_commit key next) s)
  acknowledge-Sound key next rest s h at left =
      let group = settings.consumer_group in
      on_offsets-Post s (λ _ v. Kept v × All (IsJustified codec group polls v.world) rest) Kept
        (acknowledge_commit key next) (λ _. All (IsTracked codec group polls s.world))
        (All (IsTracked codec group polls s.world))
        (λ _ t tracked. (Sound-offsets codec group polls old s t tracked h, left))
        (λ t tracked. Sound-offsets codec group polls old s t tracked h)
        (acknowledge_commit-IsTracked codec group polls s.world key next s.offsets at h.tracked)

  commit_each-Sound :
      (l : List (PartitionKey × ℕ)) (s : LogState)
      → Kept s
      → All (IsJustified codec settings.consumer_group polls s.world) l
      → Post (λ _. Kept) Kept (commit_each settings l s)
  unfolding commit_each
  commit_each-Sound [] s h justified = h
  commit_each-Sound ((key, next) ∷ rest) s h (here, justified) =
      let group = settings.consumer_group in
      let Stored : Unit {0} → LogState → Type 0 = λ _ t.
        Kept t
        × (elem (key, next) t.world.committed ≡ true)
        × All (IsJustified codec group polls t.world) rest in
      Post-bind (on_world (commit_with_retry settings key next))
        (λ _. on_offsets (acknowledge_commit key next) >> commit_each settings rest) Stored
        (λ _. Kept) Kept s
        (on_world-Post s Stored Kept (commit_with_retry settings key next) (Committed s key next)
          (Ready s key next)
          (λ _ w (ready, at). (
            ready.sound,
            at,
            All-map _ _ rest (IsJustified-Grows codec group polls s.world w ready.grows) justified,
          ))
          (λ w ready. ready.sound)
          (commit_with_retry-Committed s key next s.world
            (record { sound = h; justified = here; grows = Grows-refl group s.world })))
        (λ _ t (kept, at, left).
          Post-bind (on_offsets (acknowledge_commit key next)) (λ _. commit_each settings rest)
            (λ _ v. Kept v × All (IsJustified codec group polls v.world) rest) (λ _. Kept) Kept t
            (acknowledge-Sound key next rest t kept at left)
            (λ _ v (sound, later). commit_each-Sound rest v sound later))

  pub commit_ready-Sound :
      (partitions : Option (List PartitionKey)) (s : LogState)
      → Kept s
      → Post (λ _. Kept) Kept (commit_ready settings partitions s)
  unfolding commit_ready
  commit_ready-Sound partitions s h =
      commit_each-Sound (sorted item_le (committable partitions s.offsets)) s h (
        All-sorted item_le _ (committable partitions s.offsets) (
          committable-IsJustified codec settings.consumer_group polls s.world partitions s.offsets
            h.tracked))

  commit_if-Sound :
      (commit : Bool) (partitions : Option (List PartitionKey)) (s : LogState)
      → Kept s
      → Post (λ _. Kept) Kept (commit_if settings commit partitions s)
  commit_if-Sound true partitions s h = commit_ready-Sound partitions s h
  commit_if-Sound false partitions s h = h

  pub flush-Sound :
      (partitions : Option (List PartitionKey)) (commit : Bool) (s : LogState)
      → Kept s
      → Post (λ _. Kept) Kept (flush settings partitions commit s)
  unfolding flush take_snapshot
  flush-Sound partitions commit s h =
      let emptied = record s { buffer = [] } in
      Post-bind (store_snapshot settings (values s.buffer))
        (λ _. commit_if settings commit partitions >> pure (length (values s.buffer))) (λ _. Kept)
        (λ _. Kept) Kept emptied
        (store_snapshot-Sound codec settings polls old s.buffer (values s.buffer) emptied refl h
          refl)
        (λ _ t kept.
          Post-bind (commit_if settings commit partitions) (λ _. pure (length (values s.buffer)))
            (λ _. Kept) (λ _. Kept) Kept t (commit_if-Sound commit partitions t kept) (λ _ v k. k))
