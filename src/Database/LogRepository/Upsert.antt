-- ===== src/Database/LogRepository/Upsert.antt =====
-- What one snapshot does to the tables (database/log_repository.py).
use kafka_order_event_platfo.Prelude.{
  ℕ, String, ◌≡◌, refl, ◌≢◌, not, ◌&&◌, Option, some, List, [], ◌∷◌, arith, elem, if◌then◌else◌,
  nat_eq, string_eq, pair_eq, All, ◌∙◌,
}
use kafka_order_event_platfo.Dict.{Dict, keys, lookup, Distinct}
use kafka_order_event_platfo.Outcome.{ok}
use kafka_order_event_platfo.Models.Message.{KafkaCoordinate}
use kafka_order_event_platfo.Metrics.LogAggregation.Delta.{AggregationKey, key_eq, MetricAggregate}
use kafka_order_event_platfo.Metrics.LogAggregation.Buffer.{BufferedLogEvent, Snapshot, aggregate}
use kafka_order_event_platfo.Metrics.LogAggregation.Totals.{occurs, total, lookup-aggregate}
use kafka_order_event_platfo.Database.Models.{Database}
use kafka_order_event_platfo.Database.LogRepository.{
  marker_values, insert_markers, upserted, upsert, write_metrics, write_snapshot, persist_snapshot,
}
use kafka_order_event_platfo.Database.LogRepository.Tables.{
  is_missing, event_ids, elem-insert_markers, missing-insert_markers, other-insert_markers,
  aggregate_from-Distinct, lookup-upsert,
}

abbrev pub HasCoordinates : Snapshot → Type 0
HasCoordinates = All (λ e. e.coordinates ≢ [])

pub marker_values_total :
    (es : Snapshot)
    → HasCoordinates es
    → (rows : Dict ℕ KafkaCoordinate) × (marker_values es ≡ ok rows) × (keys rows ≡ event_ids es)
unfolding marker_values
marker_values_total [] h = ([], refl, refl)
marker_values_total (e ∷ es) h =
    let (rows, eq, named) = marker_values_total es h.1 in
    first_marker e.coordinates h.0 rows eq named
  where
    first_marker :
        (cs : List KafkaCoordinate)
        → cs ≢ []
        → (rows : Dict ℕ KafkaCoordinate) → marker_values es ≡ ok rows
        → keys rows ≡ event_ids es
        → (all : Dict ℕ KafkaCoordinate) × (marker_values (record e { coordinates = cs } ∷ es)
            ≡ ok all)
          × (keys all ≡ event_ids (e ∷ es))
    first_marker [] ne rows eq named = absurd (ne refl)
    first_marker (c ∷ cs) ne rows eq named =
        ((e.event_id, c) ∷ rows, ground (arith, eq), ground (arith, named))

-- The identifiers that a call has newly marked.
abbrev pub NewlyMarked : String → Snapshot → Database → Database → List ℕ → Type 0
NewlyMarked group es before after ids =
    (id : ℕ)
    → (elem id ids
        ≡ (is_missing (lookup (group, id) before.processed_events) && elem id (event_ids es)))
      × (is_missing (lookup (group, id) after.processed_events) ≡ (
          is_missing (lookup (group, id) before.processed_events) && not (elem id (event_ids es))))

abbrev pub MetricsAdded : Snapshot → Database → Database → List ℕ → Type 0
MetricsAdded es before after ids =
    (key : AggregationKey)
    → lookup key after.log_metrics_minute ≡ (
        if occurs (some ids) key es
        then some (upserted (lookup key before.log_metrics_minute) (total (some ids) key es))
        else lookup key before.log_metrics_minute)

write_metrics_lem :
    (ids : List ℕ) (rows : Dict AggregationKey MetricAggregate) (db : Database)
    → write_metrics ids rows db
      ≡ (ok ids, record db { log_metrics_minute = upsert rows db.log_metrics_minute })
unfolding upsert
write_metrics_lem ids [] db = refl
write_metrics_lem ids (row ∷ rows) db = refl

-- What a call that returns has done to each table.
pub record SnapshotStored (group : String) (es : Snapshot) (before after : Database) (ids : List ℕ)
    : Type 0 where
  pub marks : NewlyMarked group es before after ids
  pub adds : MetricsAdded es before after ids
  pub others :
      (other : String) (id : ℕ)
      → group ≢ other
      → lookup (other, id) after.processed_events ≡ lookup (other, id) before.processed_events
  pub orders : after.valid_orders ≡ before.valid_orders

aggregate-Distinct : (ids : Option (List ℕ)) (es : Snapshot) → Distinct (aggregate ids es)
unfolding aggregate
aggregate-Distinct ids es = aggregate_from-Distinct ids es [] tt

metrics_at :
    (ids : List ℕ) (es : Snapshot) (table : Dict AggregationKey MetricAggregate)
    (key : AggregationKey)
    → lookup key (upsert (aggregate (some ids) es) table) ≡ (
        if occurs (some ids) key es
        then some (upserted (lookup key table) (total (some ids) key es))
        else lookup key table)
metrics_at ids es table key = ground (
  arith,
  lookup-upsert key (aggregate (some ids) es) table (aggregate-Distinct (some ids) es),
  lookup-aggregate (some ids) key es,
)

-- Where each event of the snapshot has a coordinate, the call returns, and what it returns and does
-- is as said here.
abbrev pub Stores : String → Snapshot → Database → Type 0
Stores group es db =
    (ids : List ℕ) × (after : Database) × (persist_snapshot es group db ≡ (ok ids, after))
    × SnapshotStored group es db after ids

write_snapshot_stored :
    (group : String) (es : Snapshot) (rows : Dict ℕ KafkaCoordinate) (db : Database)
    → keys rows ≡ event_ids es
    → (ids : List ℕ) × (after : Database) × (write_snapshot group es rows db ≡ (ok ids, after))
      × SnapshotStored group es db after ids
write_snapshot_stored group es rows db named =
    let table = db.processed_events in
    let ids = (insert_markers group rows table).0 in
    let marked = record db { processed_events = (insert_markers group rows table).1 } in
    (
      ids,
      record marked { log_metrics_minute = upsert (aggregate (some ids) es) db.log_metrics_minute },
      write_metrics_lem ids (aggregate (some ids) es) marked,
      record {
        marks = λ id.
            rw (← named)
              (elem-insert_markers group id rows table, missing-insert_markers group id rows table);
        adds = metrics_at ids es db.log_metrics_minute;
        others = λ other id ne. other-insert_markers group other id rows table ne;
        orders = refl;
      },
    )

pub persist_snapshot_some :
    (e : BufferedLogEvent) (es : Snapshot) (group : String) (db : Database)
    (rows : Dict ℕ KafkaCoordinate)
    → marker_values (e ∷ es) ≡ ok rows
    → persist_snapshot (e ∷ es) group db ≡ write_snapshot group (e ∷ es) rows db
unfolding persist_snapshot
persist_snapshot_some e es group db rows eq = rw (eq, persist_snapshot)

empty_stored : (group : String) (db : Database) → SnapshotStored group [] db db []
empty_stored group db = record {
  marks = λ id. (ground arith, ground arith);
  adds = λ key. refl;
  others = λ other id ne. refl;
  orders = refl;
}

pub persist_snapshot-SnapshotStored :
    (group : String) (es : Snapshot) (db : Database) → HasCoordinates es → Stores group es db
persist_snapshot-SnapshotStored group [] db h =
    ([], db, unfold persist_snapshot in refl, empty_stored group db)
persist_snapshot-SnapshotStored group (e ∷ es) db h =
    let (rows, eq, named) = marker_values_total (e ∷ es) h in
    let (ids, after, written, stored) = write_snapshot_stored group (e ∷ es) rows db named in
    (ids, after, persist_snapshot_some e es group db rows eq ∙ written, stored)
