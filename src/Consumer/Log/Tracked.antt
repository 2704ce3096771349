-- ===== src/Consumer/Log/Tracked.antt =====
-- Each call of the tracker in consumer/log.py keeps what the tracker knows true.
use kafka_order_event_platfo.Prelude.{
  ℕ, String, ◌≡◌, refl, inl, inr, true, false, ◌&&◌, Option, none, some, List, [], ◌∷◌, All, elem,
  nat_eq, string_eq, pair_eq, arith, ltb, leb, ◌==◌, subst, nat_beq_iff, Bool-cases, if_split,
}
use kafka_order_event_platfo.Dict.{
  lookup, erase, lookup-insert, lookup-set_default, All-lookup, All-insert, All-erase,
}
use kafka_order_event_platfo.Models.Message.{KafkaMessage, KafkaCoordinate}
use kafka_order_event_platfo.Kafka.Consumer.{Polled}
use kafka_order_event_platfo.Consumer.Retry.Rule.{Post, Post-bind}
use kafka_order_event_platfo.Consumer.Offsets.{
  PartitionKey, PartitionState, partition_key, state_or_fresh, observe_state, observe,
  complete_state, complete, complete_many, committable, candidate, advance_to, mark_durable,
  acknowledge_commit, acknowledge_state, forget, is_selected,
}
use kafka_order_event_platfo.Consumer.Offsets.Tracker.{Tracker, contains}
use kafka_order_event_platfo.Consumer.Offsets.Commit.{candidate-IsFrontier}
use kafka_order_event_platfo.Consumer.Offsets.History.Steps.{lookup-drop_below}
use kafka_order_event_platfo.Consumer.World.{World}
use kafka_order_event_platfo.Consumer.Errors.{Codec}
use kafka_order_event_platfo.Consumer.Order.{coordinate_of}
use kafka_order_event_platfo.Consumer.Order.Polled.{IsPolled}
use kafka_order_event_platfo.Consumer.Log.Durable.{offset_at, IsDurable, IsJustified, IsTracked}

module _ (codec : Codec) (group : String) (polls : List Polled) (w : World) where
  observe_state-IsTracked :
      (key : PartitionKey) (o : ℕ) (s : PartitionState)
      → IsTracked codec group polls w (key, s)
      → IsTracked codec group polls w (key, observe_state o s)
  unfolding observe_state
  observe_state-IsTracked key o s (origin, durable) =
      if_split (λ t. IsTracked codec group polls w (key, t)) (leb s.committed_next o)
        (λ _. (
          origin,
          λ j m.
              durable j
                (ground (arith, m, lookup-set_default o j false s.offsets, nat_beq_iff o j)),
        ))
        (λ _. (origin, durable))

  or_fresh-IsTracked :
      (m : KafkaMessage) (found : Option PartitionState)
      → IsPolled m polls
      → ((s : PartitionState)
          → found ≡ some s
          → IsTracked codec group polls w (partition_key (coordinate_of m), s))
      → IsTracked codec group polls w
          (partition_key (coordinate_of m), state_or_fresh m.offset found)
  or_fresh-IsTracked m none polled known = (inl (m, polled, refl), λ o e. cc)
  or_fresh-IsTracked m (some s) polled known = known s refl

  pub observe-IsTracked :
      (m : KafkaMessage) (t : Tracker)
      → IsPolled m polls
      → All (IsTracked codec group polls w) t
      → All (IsTracked codec group polls w) (observe (coordinate_of m) t)
  unfolding observe
  observe-IsTracked m t polled h =
      let key = partition_key (coordinate_of m) in
      All-insert (IsTracked codec group polls w) key _ t
        (observe_state-IsTracked key m.offset _ (
          or_fresh-IsTracked m (lookup key t) polled
            (λ s e. All-lookup (IsTracked codec group polls w) key s t h e)))
        h

  pub forget-IsTracked :
      (keys : List PartitionKey) (t : Tracker)
      → All (IsTracked codec group polls w) t
      → All (IsTracked codec group polls w) (forget keys t)
  unfolding forget
  forget-IsTracked [] t h = h
  forget-IsTracked (key ∷ keys) t h =
      forget-IsTracked keys (erase key t) (All-erase (IsTracked codec group polls w) key t h)

  -- What `committable` reports is justified.
  pub committable-IsJustified :
      (partitions : Option (List PartitionKey)) (t : Tracker)
      → All (IsTracked codec group polls w) t
      → All (IsJustified codec group polls w) (committable partitions t)
  unfolding committable
  committable-IsJustified partitions [] h = tt
  committable-IsJustified partitions ((key, s) ∷ t) ((origin, durable), h) =
      if_split (All (IsJustified codec group polls w))
        (is_selected partitions key && ltb s.committed_next (candidate s))
        (λ advanced. (
          (
            s.committed_next,
            ground (arith, advanced),
            origin,
            λ o le lt. durable o ((candidate-IsFrontier s).completed o le lt),
          ),
          committable-IsJustified partitions t h,
        ))
        (λ _. committable-IsJustified partitions t h)

  mark_durable-IsTracked :
      (c : KafkaCoordinate) (s : PartitionState)
      → IsDurable codec group polls w c
      → IsTracked codec group polls w (partition_key c, s)
      → IsTracked codec group polls w (partition_key c, mark_durable c.offset s)
  mark_durable-IsTracked c s done (origin, durable) = (
    origin,
    λ o m. elim (Bool-cases (c.offset == o)) [
      | inl same ↦
          subst (λ j. IsDurable codec group polls w (offset_at (partition_key c) j))
            ((nat_beq_iff c.offset o).0 same) done
      | inr other ↦ durable o (ground (arith, m, other, lookup-insert c.offset o true s.offsets))
    ],
  )

  complete_state-IsTracked :
      (c : KafkaCoordinate) (found : Option PartitionState) (t : Tracker)
      → IsDurable codec group polls w c
      → ((s : PartitionState) → found ≡ some s → IsTracked codec group polls w (partition_key c, s))
      → All (IsTracked codec group polls w) t
      → Post
          (λ _. All (IsTracked codec group polls w))
          (All (IsTracked codec group polls w))
          (complete_state c found t)
  unfolding complete_state
  complete_state-IsTracked c none t done known h = h
  complete_state-IsTracked c (some s) t done known h =
      if_split
        (Post (λ _. All (IsTracked codec group polls w)) (All (IsTracked codec group polls w)))
        (contains c.offset s.offsets)
        (λ _.
          All-insert (IsTracked codec group polls w) (partition_key c) (mark_durable c.offset s) t
            (mark_durable-IsTracked c s done (known s refl)) h)
        (λ _. h)

  -- A record is completed when it is durable.
  pub complete-IsTracked :
      (c : KafkaCoordinate) (t : Tracker)
      → IsDurable codec group polls w c
      → All (IsTracked codec group polls w) t
      → Post
          (λ _. All (IsTracked codec group polls w))
          (All (IsTracked codec group polls w))
          (complete c t)
  unfolding complete
  complete-IsTracked c t done h =
      complete_state-IsTracked c (lookup (partition_key c) t) t done
        (λ s e. All-lookup (IsTracked codec group polls w) (partition_key c) s t h e) h

  pub complete_many-IsTracked :
      (cs : List KafkaCoordinate) (t : Tracker)
      → All (IsDurable codec group polls w) cs
      → All (IsTracked codec group polls w) t
      → Post
          (λ _. All (IsTracked codec group polls w))
          (All (IsTracked codec group polls w))
          (complete_many cs t)
  unfolding complete_many
  complete_many-IsTracked [] t done h = h
  complete_many-IsTracked (c ∷ cs) t done h =
      Post-bind (complete c) (λ _. complete_many cs) (λ _. All (IsTracked codec group polls w))
        (λ _. All (IsTracked codec group polls w)) (All (IsTracked codec group polls w)) t
        (complete-IsTracked c t done.0 h) (λ _ u k. complete_many-IsTracked cs u done.1 k)

  acknowledge_state-IsTracked :
      (key : PartitionKey) (next : ℕ) (found : Option PartitionState) (t : Tracker)
      → elem (key, next) w.committed ≡ true
      → ((s : PartitionState) → found ≡ some s → IsTracked codec group polls w (key, s))
      → All (IsTracked codec group polls w) t
      → Post
          (λ _. All (IsTracked codec group polls w))
          (All (IsTracked codec group polls w))
          (acknowledge_state key next found t)
  unfolding acknowledge_state
  acknowledge_state-IsTracked key next none t at known h = h
  acknowledge_state-IsTracked key next (some s) t at known h =
      if_split
        (Post (λ _. All (IsTracked codec group polls w)) (All (IsTracked codec group polls w)))
        (ltb next s.committed_next) (λ _. h)
        (λ _.
          All-insert (IsTracked codec group polls w) key (advance_to next s) t
            (
              inr at,
              λ o m. (known s refl).1 o (ground (arith, m, lookup-drop_below next o s.offsets)),
            )
            h)

  -- A position is acknowledged when Kafka has stored it.
  pub acknowledge_commit-IsTracked :
      (key : PartitionKey) (next : ℕ) (t : Tracker)
      → elem (key, next) w.committed ≡ true
      → All (IsTracked codec group polls w) t
      → Post
          (λ _. All (IsTracked codec group polls w))
          (All (IsTracked codec group polls w))
          (acknowledge_commit key next t)
  unfolding acknowledge_commit
  acknowledge_commit-IsTracked key next t at h =
      acknowledge_state-IsTracked key next (lookup key t) t at
        (λ s e. All-lookup (IsTracked codec group polls w) key s t h e) h
