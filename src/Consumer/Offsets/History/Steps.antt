-- ===== src/Consumer/Offsets/History/Steps.antt =====
-- The calls of consumer/offsets.py that return, and the keys of a tracker.
use kafka_order_event_platfo.Prelude.{
  ℕ, ◌≡◌, refl, Bool, none, some, List, [], ◌∷◌, arith, ltb, if◌then◌else◌, elem, nat_eq, string_eq,
  pair_eq, nat_beq_iff, Option-cases, inl, inr,
}
use kafka_order_event_platfo.Dict.{
  Dict, lookup, insert, erase, lookup-erase, Distinct, insert-Distinct, erase-Distinct,
}
use kafka_order_event_platfo.Outcome.{ok}
use kafka_order_event_platfo.Models.Message.{KafkaCoordinate}
use kafka_order_event_platfo.Consumer.Offsets.Tracker.{
  PartitionKey, partition_key, PartitionState, Tracker, observe, complete, drop_below,
  acknowledge_commit, forget, mark_durable, advance_to,
}
use kafka_order_event_platfo.Consumer.Offsets.History.{
  Event, Reach, init, observes, completes, acknowledges, forgets,
}

-- The state after `complete`, if it returns.
pub complete_inv :
    (c : KafkaCoordinate) (t u : Tracker)
    → complete c t ≡ (ok tt, u)
    → (s : PartitionState) × (lookup (partition_key c) t ≡ some s)
      × (u ≡ insert (partition_key c) (mark_durable c.offset s) t)
unfolding complete
complete_inv c t u e = elim (Option-cases (lookup (partition_key c) t)) [
  | inl absent ↦ ground (arith, e, absent)
  | inr (s, found) ↦ (s, found, ground (arith, e, found))
]

pub acknowledge_inv :
    (key : PartitionKey) (n : ℕ) (t u : Tracker)
    → acknowledge_commit key n t ≡ (ok tt, u)
    → (s : PartitionState) × (lookup key t ≡ some s) × (u ≡ insert key (advance_to n s) t)
unfolding acknowledge_commit
acknowledge_inv key n t u e = elim (Option-cases (lookup key t)) [
  | inl absent ↦ ground (arith, e, absent)
  | inr (s, found) ↦ (s, found, ground (arith, e, found))
]

pub lookup-forget :
    (key : PartitionKey) (ks : List PartitionKey) (t : Tracker)
    → lookup key (forget ks t) ≡ (if elem key ks then none else lookup key t)
unfolding forget
lookup-forget key [] t = refl
lookup-forget key (k ∷ ks) t =
    rw (lookup-forget key ks (erase k t), lookup-erase k key t) (ground arith)

pub forget-Distinct : (ks : List PartitionKey) (t : Tracker) → Distinct t → Distinct (forget ks t)
unfolding forget
forget-Distinct [] t h = h
forget-Distinct (k ∷ ks) t h = forget-Distinct ks (erase k t) (erase-Distinct k t h)

pub lookup-drop_below :
    (n o : ℕ) (d : Dict ℕ Bool) → lookup o (drop_below n d) ≡ (if ltb o n then none else lookup o d)
unfolding drop_below
lookup-drop_below n o [] = ground arith
lookup-drop_below n o ((k, b) ∷ d) = ground (arith, nat_beq_iff k o, lookup-drop_below n o d)

pub Reach-Distinct : {h : List Event} {t : Tracker} → Reach h t → Distinct t
unfolding observe
Reach-Distinct init = tt
Reach-Distinct (observes {t = t} c r) = insert-Distinct (partition_key c) _ t (Reach-Distinct r)
Reach-Distinct (completes {t = t} {u = u} c r e) =
    let (s, _, eq) = complete_inv c t u e in
    rw eq (insert-Distinct (partition_key c) _ t (Reach-Distinct r))
Reach-Distinct (acknowledges {t = t} {u = u} partitions key n r _ e) =
    let (s, _, eq) = acknowledge_inv key n t u e in
    rw eq (insert-Distinct key _ t (Reach-Distinct r))
Reach-Distinct (forgets {t = t} ks r) = forget-Distinct ks t (Reach-Distinct r)
