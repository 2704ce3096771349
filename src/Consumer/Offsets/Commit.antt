-- ===== src/Consumer/Offsets/Commit.antt =====
-- Which offsets `committable` and `acknowledge_commit` of consumer/offsets.py give Kafka.
use kafka_order_event_platfo.Prelude.{
  ℕ, ◌≤◌, ◌<◌, ◌≡◌, refl, ◌≢◌, ◌↔◌, true, ◌&&◌, subst, Option, none, some, List, [], ◌∷◌, arith,
  ltb, leb, if◌then◌else◌, length, nat_eq, string_eq, pair_eq, pair_beq_iff, Bool-cases, inl, inr,
}
use kafka_order_event_platfo.Dict.{lookup, Distinct}
use kafka_order_event_platfo.Consumer.Offsets.Frontier.{
  advance-covers, le-advance, advance-length_stops,
}
use kafka_order_event_platfo.Consumer.Offsets.Tracker.{
  PartitionKey, PartitionState, Tracker, is_selected, candidate, committable,
}

-- `n` is the end of the unbroken run of completed offsets that begins at `committed_next`.
pub record IsFrontier (s : PartitionState) (n : ℕ) : Type 0 where
  pub from : s.committed_next ≤ n
  pub completed : (o : ℕ) → s.committed_next ≤ o → o < n → lookup o s.offsets ≡ some true
  pub maximal : lookup n s.offsets ≢ some true

pub candidate-IsFrontier : (s : PartitionState) → IsFrontier s (candidate s)
unfolding candidate
candidate-IsFrontier s = record {
  from = le-advance (length s.offsets) s.committed_next s.offsets;
  completed = λ o. advance-covers (length s.offsets) s.committed_next s.offsets o;
  maximal = λ e. ground (arith, e, advance-length_stops s.committed_next s.offsets);
}

IsFrontier-le : (s : PartitionState) (n m : ℕ) → IsFrontier s n → IsFrontier s m → n ≤ m
IsFrontier-le s n m hn hm = elim (Bool-cases (leb n m)) [
  | inl le ↦ ground arith
  | inr gt ↦ absurd (hm.maximal (hn.completed m hm.from (ground arith)))
]

pub IsFrontier-unique : (s : PartitionState) (n m : ℕ) → IsFrontier s n → IsFrontier s m → n ≡ m
IsFrontier-unique s n m hn hm = omega (arith, IsFrontier-le s n m hn hm, IsFrontier-le s m n hm hn)

-- what `committable` reports for one partition
abbrev report : Option (List PartitionKey) → PartitionKey → Option PartitionState → Option ℕ
report partitions key none = none
report partitions key (some s) =
    if is_selected partitions key && ltb s.committed_next (candidate s)
    then some (candidate s)
    else none

committable-none :
    (partitions : Option (List PartitionKey)) (key : PartitionKey) (t : Tracker)
    → lookup key t ≡ none
    → lookup key (committable partitions t) ≡ none
unfolding committable
committable-none partitions key [] h = refl
committable-none partitions key ((k, s) ∷ t) h =
    ground (arith, pair_beq_iff k key, committable-none partitions key t)

pub lookup-committable :
    (partitions : Option (List PartitionKey)) (key : PartitionKey) (t : Tracker)
    → Distinct t
    → lookup key (committable partitions t) ≡ report partitions key (lookup key t)
unfolding committable
lookup-committable partitions key [] h = refl
lookup-committable partitions key ((k, s) ∷ t) h = ground (
  arith,
  pair_beq_iff k key,
  lookup-committable partitions key t h.1,
  committable-none partitions key t,
)

abbrev Committed : Option (List PartitionKey) → PartitionKey → PartitionState → ℕ → Type 0
Committed partitions key s n =
    (is_selected partitions key ≡ true) × IsFrontier s n × (s.committed_next < n)

report_iff :
    (partitions : Option (List PartitionKey)) (key : PartitionKey) (s : PartitionState) (n : ℕ)
    → (report partitions key (some s) ≡ some n) ↔ Committed partitions key s n
report_iff partitions key s n = (
  λ e.
      let eq : candidate s ≡ n = ground (arith, e) in
      (ground (arith, e), subst (IsFrontier s) eq (candidate-IsFrontier s), ground (arith, e)),
  λ (selected, frontier, lt).
      ground (
        arith,
        selected,
        lt,
        IsFrontier-unique s (candidate s) n (candidate-IsFrontier s) frontier,
      ),
)

-- `committable` reports `n` for a tracked partition exactly when the partition is selected, `n` is
-- past `committed_next`, every offset from `committed_next` up to `n` is completed, and `n` itself
-- is not.
pub committable_iff :
    (partitions : Option (List PartitionKey)) (key : PartitionKey) (t : Tracker)
    (s : PartitionState) (n : ℕ)
    → Distinct t
    → lookup key t ≡ some s
    → (lookup key (committable partitions t) ≡ some n) ↔ Committed partitions key s n
committable_iff partitions key t s n distinct found =
    rw (lookup-committable partitions key t distinct, found) (report_iff partitions key s n)
