-- ===== src/Consumer/Offsets/History/Safety.antt =====
-- No run of the tracker of consumer/offsets.py commits past work that is not durable.
use kafka_order_event_platfo.Prelude.{
  ℕ, ◌≤◌, ◌<◌, ◌≡◌, refl, true, false, Option, none, some, List, ◌∷◌, arith, ltb, elem, ◌==◌,
  nat_eq, string_eq, pair_eq, nat_beq_iff, pair_beq_iff, Bool-cases, inl, inr, sym, if_split, subst,
}
use kafka_order_event_platfo.Dict.{lookup, insert, lookup-insert, Distinct}
use kafka_order_event_platfo.Outcome.{ok}
use kafka_order_event_platfo.Models.Message.{KafkaCoordinate}
use kafka_order_event_platfo.Consumer.Offsets.Tracker.{
  PartitionKey, partition_key, PartitionState, Tracker, observe, complete, committable,
  acknowledge_commit, mark_durable, advance_to,
}
use kafka_order_event_platfo.Consumer.Offsets.Commit.{IsFrontier, committable_iff}
use kafka_order_event_platfo.Consumer.Offsets.History.{
  Event, observed, completed, acknowledged, forgot, first_observed, was_completed, Reach, init,
  observes, completes, acknowledges, forgets, IsTracked, Sound, observe_state-IsTracked,
}
use kafka_order_event_platfo.Consumer.Offsets.History.Steps.{
  complete_inv, acknowledge_inv, lookup-forget, lookup-drop_below, Reach-Distinct,
}

complete_state-IsTracked :
    (c : KafkaCoordinate) (h : List Event) (s : PartitionState)
    → IsTracked (partition_key c) h s
    → IsTracked (partition_key c) (completed c ∷ h) (mark_durable c.offset s)
complete_state-IsTracked c h s sound = record {
  base = sound.base;
  first = sound.first;
  from = sound.from;
  passed = λ o le lt. ground (arith, sound.passed o le lt);
  marked = λ o m. ground (
    arith,
    m,
    sound.marked o,
    lookup-insert c.offset o true s.offsets,
    nat_beq_iff c.offset o,
    pair_beq_iff (partition_key c) (partition_key c),
  );
}

complete_other-Sound :
    (key : PartitionKey) (c : KafkaCoordinate) (h : List Event) (found : Option PartitionState)
    → Sound key h found
    → Sound key (completed c ∷ h) found
complete_other-Sound key c h none sound = sound
complete_other-Sound key c h (some s) sound = record {
  base = sound.base;
  first = sound.first;
  from = sound.from;
  passed = λ o le lt. ground (arith, sound.passed o le lt);
  marked = λ o m. ground (arith, sound.marked o m);
}

acknowledge-IsTracked :
    (key : PartitionKey) (n : ℕ) (h : List Event) (s : PartitionState)
    → IsFrontier s n
    → IsTracked key h s
    → IsTracked key (acknowledged key n ∷ h) (advance_to n s)
acknowledge-IsTracked key n h s frontier sound = record {
  base = sound.base;
  first = sound.first;
  from = omega (arith, sound.from, frontier.from);
  passed = λ o le lt. elim (Bool-cases (ltb o s.committed_next)) [
    | inl old ↦ sound.passed o le (ground arith)
    | inr new ↦ sound.marked o (frontier.completed o (ground arith) lt)
  ];
  marked = λ o m. sound.marked o (ground (arith, m, lookup-drop_below n o s.offsets));
}

forget_other-Sound :
    (key : PartitionKey) (ks : List PartitionKey) (h : List Event) (found : Option PartitionState)
    → elem key ks ≡ false
    → Sound key h found
    → Sound key (forgot ks ∷ h) found
forget_other-Sound key ks h none kept sound = rw kept sound
forget_other-Sound key ks h (some s) kept sound = record {
  base = sound.base;
  first = rw kept sound.first;
  from = sound.from;
  passed = λ o le lt. rw kept (sound.passed o le lt);
  marked = λ o m. rw kept (sound.marked o m);
}

observe_other-Sound :
    (key : PartitionKey) (c : KafkaCoordinate) (h : List Event) (found : Option PartitionState)
    → (partition_key c == key) ≡ false
    → Sound key h found
    → Sound key (observed c ∷ h) found
observe_other-Sound key c h none other sound = ground (arith, sound, other)
observe_other-Sound key c h (some s) other sound = record {
  base = sound.base;
  first = rw sound.first refl;
  from = sound.from;
  passed = sound.passed;
  marked = sound.marked;
}

acknowledge_other-Sound :
    (key k : PartitionKey) (n : ℕ) (h : List Event) (found : Option PartitionState)
    → Sound key h found
    → Sound key (acknowledged k n ∷ h) found
acknowledge_other-Sound key k n h none sound = sound
acknowledge_other-Sound key k n h (some s) sound = record {
  base = sound.base;
  first = sound.first;
  from = sound.from;
  passed = sound.passed;
  marked = sound.marked;
}

-- A dict entry that is written: what is to be shown at its key, and at every other key.
insert-Sound :
    (key k : PartitionKey) (h : List Event) (s : PartitionState) (t : Tracker)
    → (k ≡ key → IsTracked key h s)
    → ((k == key) ≡ false → Sound key h (lookup key t))
    → Sound key h (lookup key (insert k s t))
insert-Sound key k h s t same other =
    rw (lookup-insert k key s t)
      (if_split (Sound key h) (k == key) (λ e. same ((pair_beq_iff k key).0 e)) other)

-- What is known of a key's entry, at an equal key and with the entry found.
known :
    (key k : PartitionKey) (h : List Event) (s : PartitionState) (t : Tracker)
    → k ≡ key
    → lookup k t ≡ some s
    → Sound key h (lookup key t)
    → IsTracked k h s
known key k h s t e found sound =
    subst (Sound k h) found (subst (λ j. Sound j h (lookup j t)) (sym e) sound)

complete_step :
    (key : PartitionKey) (c : KafkaCoordinate) (h : List Event) (t u : Tracker)
    → complete c t ≡ (ok tt, u)
    → Sound key h (lookup key t)
    → Sound key (completed c ∷ h) (lookup key u)
complete_step key c h t u e sound =
    let (s, found, eq) = complete_inv c t u e in
    rw eq (
      insert-Sound key (partition_key c) (completed c ∷ h) _ t
        (λ same.
          subst (λ j. IsTracked j (completed c ∷ h) (mark_durable c.offset s)) same
            (complete_state-IsTracked c h s (known key (partition_key c) h s t same found sound)))
        (λ _. complete_other-Sound key c h (lookup key t) sound))

acknowledge_step :
    (key k : PartitionKey) (n : ℕ) (h : List Event) (partitions : Option (List PartitionKey))
    (t u : Tracker)
    → Distinct t
    → lookup k (committable partitions t) ≡ some n
    → acknowledge_commit k n t ≡ (ok tt, u)
    → Sound key h (lookup key t)
    → Sound key (acknowledged k n ∷ h) (lookup key u)
acknowledge_step key k n h partitions t u distinct reported e sound =
    let (s, found, eq) = acknowledge_inv k n t u e in
    let frontier = ((committable_iff partitions k t s n distinct found).0 reported).1 in
    rw eq (
      insert-Sound key k (acknowledged k n ∷ h) _ t
        (λ same.
          subst (λ j. IsTracked j (acknowledged k n ∷ h) (advance_to n s)) same
            (acknowledge-IsTracked k n h s frontier (known key k h s t same found sound)))
        (λ _. acknowledge_other-Sound key k n h (lookup key t) sound))

pub Reach-Sound :
    (key : PartitionKey) {h : List Event} {t : Tracker} → Reach h t → Sound key h (lookup key t)
unfolding observe
Reach-Sound key init = refl
Reach-Sound key (observes {h = h} {t = t} c r) =
    insert-Sound key (partition_key c) (observed c ∷ h) _ t
      (λ e.
        observe_state-IsTracked key c h (lookup (partition_key c) t) e
          (subst (λ k. Sound key h (lookup k t)) (sym e) (Reach-Sound key r)))
      (λ other. observe_other-Sound key c h (lookup key t) other (Reach-Sound key r))
Reach-Sound key (completes {h = h} {t = t} {u = u} c r e) =
    complete_step key c h t u e (Reach-Sound key r)
Reach-Sound key (acknowledges {h = h} {t = t} {u = u} partitions k n r reported e) =
    acknowledge_step key k n h partitions t u (Reach-Distinct r) reported e (Reach-Sound key r)
Reach-Sound key (forgets {h = h} {t = t} ks r) = rw (lookup-forget key ks t) (
    if_split (Sound key (forgot ks ∷ h)) (elem key ks) (λ gone. rw gone)
      (λ kept. forget_other-Sound key ks h (lookup key t) kept (Reach-Sound key r)))

-- In every run of calls, whatever their order, in which each acknowledged position is one that
-- `committable` reports for the partition in that state, as `commit_ready` sees to: what the
-- tracker holds as committed for a partition begins at the first offset observed since the
-- partition was last forgotten, and every offset from there up to the committed position was
-- completed in between.
pub committed-completed :
    {h : List Event} {t : Tracker} (key : PartitionKey) (s : PartitionState)
    → Reach h t
    → lookup key t ≡ some s
    → (base : ℕ) × (first_observed key h ≡ some base)
      × (base ≤ s.committed_next)
      × ((o : ℕ) → base ≤ o → o < s.committed_next → was_completed key o h ≡ true)
committed-completed {h = h} key s r found =
    let known : IsTracked key h s = subst (Sound key h) found (Reach-Sound key r) in
    (known.base, known.first, known.from, known.passed)
