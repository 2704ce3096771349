-- ===== src/Database/LogRepository/Tables.antt =====
-- What the inserts of one snapshot do to each table (database/log_repository.py).
use kafka_order_event_platfo.Prelude.{
  ℕ, String, ◌≡◌, refl, ◌≢◌, Bool, true, false, not, ◌&&◌, Option, none, some, List, [], ◌∷◌, arith,
  elem, nat_eq, string_eq, pair_eq, nat_beq_iff, pair_beq_iff, Bool-cases, inl, inr,
}
use kafka_order_event_platfo.Dict.{
  Dict, keys, lookup, insert, lookup-insert, Distinct, insert-Distinct,
}
use kafka_order_event_platfo.Models.Message.{KafkaCoordinate}
use kafka_order_event_platfo.Metrics.LogAggregation.Delta.{
  AggregationKey, key_eq, key_beq_iff, MetricAggregate,
}
use kafka_order_event_platfo.Metrics.LogAggregation.Buffer.{
  BufferedLogEvent, Snapshot, is_included, add_event, aggregate_from,
}
use kafka_order_event_platfo.Database.Models.{MarkerKey}
use kafka_order_event_platfo.Database.LogRepository.{insert_markers, upserted, upsert}

abbrev pub is_missing {ℓ} : {A : Type ℓ} → Option A → Bool
is_missing none = true
is_missing (some _) = false

-- The identifiers of a snapshot's events.
abbrev pub event_ids : Snapshot → List ℕ
event_ids [] = []
event_ids (e ∷ es) = e.event_id ∷ event_ids es

module _ (group : String) (id : ℕ) where
  -- The markers that are returned are those of rows that had none.
  pub elem-insert_markers :
      (rows : Dict ℕ KafkaCoordinate) (table : Dict MarkerKey KafkaCoordinate)
      → elem id (insert_markers group rows table).0
        ≡ (is_missing (lookup (group, id) table) && elem id (keys rows))
  unfolding insert_markers
  elem-insert_markers [] table = ground arith
  elem-insert_markers ((j, c) ∷ rows) table = ground (
    arith,
    elem-insert_markers rows table,
    elem-insert_markers rows (insert (group, j) c table),
    lookup-insert (group, j) (group, id) c table,
    pair_beq_iff (group, j) (group, id),
    nat_beq_iff j id,
  )

  pub missing-insert_markers :
      (rows : Dict ℕ KafkaCoordinate) (table : Dict MarkerKey KafkaCoordinate)
      → is_missing (lookup (group, id) (insert_markers group rows table).1)
        ≡ (is_missing (lookup (group, id) table) && not (elem id (keys rows)))
  unfolding insert_markers
  missing-insert_markers [] table = ground arith
  missing-insert_markers ((j, c) ∷ rows) table = ground (
    arith,
    missing-insert_markers rows table,
    missing-insert_markers rows (insert (group, j) c table),
    lookup-insert (group, j) (group, id) c table,
    pair_beq_iff (group, j) (group, id),
    nat_beq_iff j id,
  )

pub other-insert_markers :
    (group other : String) (id : ℕ) (rows : Dict ℕ KafkaCoordinate)
    (table : Dict MarkerKey KafkaCoordinate)
    → group ≢ other
    → lookup (other, id) (insert_markers group rows table).1 ≡ lookup (other, id) table
unfolding insert_markers
other-insert_markers group other id [] table ne = refl
other-insert_markers group other id ((j, c) ∷ rows) table ne = ground (
  arith,
  ne,
  other-insert_markers group other id rows table ne,
  other-insert_markers group other id rows (insert (group, j) c table) ne,
  lookup-insert (group, j) (other, id) c table,
  pair_beq_iff (group, j) (other, id),
)

pub add_event-Distinct :
    (e : BufferedLogEvent) (r : Dict AggregationKey MetricAggregate)
    → Distinct r
    → Distinct (add_event e r)
unfolding add_event
add_event-Distinct e r h = insert-Distinct e.key _ r h

pub aggregate_from-Distinct :
    (ids : Option (List ℕ)) (es : Snapshot) (r : Dict AggregationKey MetricAggregate)
    → Distinct r
    → Distinct (aggregate_from ids es r)
unfolding aggregate_from
aggregate_from-Distinct ids [] r h = h
aggregate_from-Distinct ids (e ∷ es) r h = elim (Bool-cases (is_included ids e.event_id)) [
  | inl in_ids ↦
      rw in_ids (aggregate_from-Distinct ids es (add_event e r) (add_event-Distinct e r h))
  | inr out ↦ rw out (aggregate_from-Distinct ids es r h)
]

abbrev pub after_upsert : Option MetricAggregate → Option MetricAggregate → Option MetricAggregate
after_upsert none old = old
after_upsert (some row) old = some (upserted old row)

pub lookup-upsert :
    (key : AggregationKey) (rows table : Dict AggregationKey MetricAggregate)
    → Distinct rows
    → lookup key (upsert rows table) ≡ after_upsert (lookup key rows) (lookup key table)
unfolding upsert
lookup-upsert key [] table h = refl
lookup-upsert key ((k, row) ∷ rows) table h = ground (
  arith,
  lookup-upsert key rows (insert k (upserted (lookup k table) row) table) h.1,
  lookup-insert k key (upserted (lookup k table) row) table,
  key_beq_iff k key,
)
