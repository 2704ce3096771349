-- ===== src/Consumer/Offsets/History.antt =====
-- Runs of the tracker of consumer/offsets.py, each with the list of what has happened, the last
-- event first.
pub mod Steps
pub mod Safety
use kafka_order_event_platfo.Prelude.{
  ℕ, ◌≤◌, ◌<◌, ◌≡◌, refl, Bool, true, false, ◌&&◌, ◌||◌, Option, none, some, List, [], ◌∷◌, arith,
  leb, ltb, if◌then◌else◌, elem, ◌==◌, nat_eq, string_eq, pair_eq, nat_beq_iff, pair_beq_iff,
  beq_refl, Bool-cases, Option-cases, inl, inr, sym, ◌∙◌, subst,
}
use kafka_order_event_platfo.Dict.{
  Dict, lookup, insert, erase, lookup-insert, lookup-erase, lookup-set_default, set_default,
  Distinct, insert-Distinct, erase-Distinct,
}
use kafka_order_event_platfo.Outcome.{ok, raised}
use kafka_order_event_platfo.Models.Message.{KafkaCoordinate}
use kafka_order_event_platfo.Consumer.Offsets.Tracker.{
  PartitionKey, partition_key, PartitionState, Tracker, empty_tracker, fresh_state, state_or_fresh,
  observe_state, observe, complete_state, complete, committable, drop_below, acknowledge_state,
  acknowledge_commit, forget,
}
use kafka_order_event_platfo.Consumer.Offsets.Commit.{
  IsFrontier, committable_iff, lookup-committable,
}

pub data Event : Type 0 where
  observed : KafkaCoordinate → Event
  completed : KafkaCoordinate → Event
  acknowledged : PartitionKey → ℕ → Event
  forgot : List PartitionKey → Event

-- The first offset observed of the partition since it was last forgotten.
abbrev pub first_observed : PartitionKey → List Event → Option ℕ
first_observed key [] = none
first_observed key (observed c ∷ h) = elim (first_observed key h) [
  | some o ↦ some o
  | none ↦ if partition_key c == key then some c.offset else none
]
first_observed key (completed c ∷ h) = first_observed key h
first_observed key (acknowledged k n ∷ h) = first_observed key h
first_observed key (forgot ks ∷ h) = if elem key ks then none else first_observed key h

-- Whether the offset was completed since its partition was last forgotten.
abbrev pub was_completed : PartitionKey → ℕ → List Event → Bool
was_completed key o [] = false
was_completed key o (observed c ∷ h) = was_completed key o h
was_completed key o (completed c ∷ h) =
    (partition_key c == key && c.offset == o) || was_completed key o h
was_completed key o (acknowledged k n ∷ h) = was_completed key o h
was_completed key o (forgot ks ∷ h) = if elem key ks then false else was_completed key o h

-- The runs: any calls in any order, but a commit is acknowledged only where `committable` has
-- just reported it, as `commit_ready` does.
pub data Reach : List Event → Tracker → Type 0 where
  init : Reach [] empty_tracker
  observes :
      {h : List Event} {t : Tracker} (c : KafkaCoordinate)
      → Reach h t
      → Reach (observed c ∷ h) (observe c t)
  completes :
      {h : List Event} {t u : Tracker} (c : KafkaCoordinate)
      → Reach h t
      → complete c t ≡ (ok tt, u)
      → Reach (completed c ∷ h) u
  acknowledges :
      {h : List Event} {t u : Tracker} (partitions : Option (List PartitionKey))
      (key : PartitionKey) (n : ℕ)
      → Reach h t
      → lookup key (committable partitions t) ≡ some n
      → acknowledge_commit key n t ≡ (ok tt, u)
      → Reach (acknowledged key n ∷ h) u
  forgets :
      {h : List Event} {t : Tracker} (ks : List PartitionKey)
      → Reach h t
      → Reach (forgot ks ∷ h) (forget ks t)

-- What is known of one partition's state.
pub record IsTracked (key : PartitionKey) (h : List Event) (s : PartitionState) : Type 0 where
  pub base : ℕ
  pub first : first_observed key h ≡ some base
  pub from : base ≤ s.committed_next
  pub passed : (o : ℕ) → base ≤ o → o < s.committed_next → was_completed key o h ≡ true
  pub marked : (o : ℕ) → lookup o s.offsets ≡ some true → was_completed key o h ≡ true

abbrev pub Sound : PartitionKey → List Event → Option PartitionState → Type 0
Sound key h none = first_observed key h ≡ none
Sound key h (some s) = IsTracked key h s

observe_state-IsTracked :
    (key : PartitionKey) (c : KafkaCoordinate) (h : List Event) (found : Option PartitionState)
    → partition_key c ≡ key
    → Sound key h found
    → IsTracked key (observed c ∷ h) (observe_state c.offset (state_or_fresh c.offset found))
unfolding observe_state
observe_state-IsTracked key c h none e sound = record {
  base = c.offset;
  first = ground (arith, e, sound, pair_beq_iff (partition_key c) key);
  from = ground arith;
  passed = λ o le lt. absurd (ground (arith, le, lt));
  marked = λ o m. ground (arith, m, lookup-set_default c.offset o false [], nat_beq_iff c.offset o);
}
observe_state-IsTracked key c h (some s) e sound = record {
  base = sound.base;
  first = ground (arith, sound.first);
  from = ground (arith, sound.from);
  passed = λ o le lt. sound.passed o le (ground (arith, lt));
  marked = λ o m. ground (arith, m, lookup-set_default c.offset o false s.offsets, sound.marked o);
}
