-- ===== src/Database/LogRepository.antt =====
-- database/log_repository.py: the markers and the added metrics of one snapshot.
pub mod Tables
pub mod Upsert
pub mod Replay
use kafka_order_event_platfo.Prelude.{
  ℕ, String, Option, none, some, List, [], ◌∷◌, nat_eq, string_eq, pair_eq,
}
use kafka_order_event_platfo.Dict.{Dict, lookup, insert}
use kafka_order_event_platfo.Outcome.{Exec, ok, raised, index_error, Outcome, ◌>>=◌}
use kafka_order_event_platfo.Models.Message.{KafkaCoordinate}
use kafka_order_event_platfo.Metrics.LogAggregation.Delta.{
  AggregationKey, key_eq, MetricAggregate, combine,
}
use kafka_order_event_platfo.Metrics.LogAggregation.Buffer.{BufferedLogEvent, Snapshot, aggregate}
use kafka_order_event_platfo.Database.Models.{MarkerKey, Database}

-- `marker_values`: an event with no coordinate would be an `IndexError`
abbrev pub marker_of : BufferedLogEvent → List KafkaCoordinate → Outcome (ℕ × KafkaCoordinate)
marker_of event [] = raised index_error
marker_of event (c ∷ _) = ok (event.event_id, c)

abbrev pub cons_marker :
    ℕ × KafkaCoordinate → Outcome (Dict ℕ KafkaCoordinate) → Outcome (Dict ℕ KafkaCoordinate)
cons_marker m (ok rest) = ok (m ∷ rest)
cons_marker m (raised e) = raised e

unfoldable pub marker_values : Snapshot → Outcome (Dict ℕ KafkaCoordinate)
marker_values [] = ok []
marker_values (event ∷ events) = elim (marker_of event event.coordinates) [
  | ok m ↦ cons_marker m (marker_values events)
  | raised e ↦ raised e
]

-- `INSERT … ON CONFLICT DO NOTHING RETURNING event_id`, row by row
unfoldable pub insert_markers :
    String
    → Dict ℕ KafkaCoordinate
    → Dict MarkerKey KafkaCoordinate
    → List ℕ × Dict MarkerKey KafkaCoordinate
insert_markers group [] table = ([], table)
insert_markers group ((id, c) ∷ rows) table = elim (lookup (group, id) table) [
  | some _ ↦ insert_markers group rows table
  | none ↦
      let (ids, table') = insert_markers group rows (insert (group, id) c table) in
      (id ∷ ids, table')
]

abbrev pub upserted : Option MetricAggregate → MetricAggregate → MetricAggregate
upserted none row = row
upserted (some old) row = combine old row

-- `INSERT … ON CONFLICT DO UPDATE`, row by row
unfoldable pub upsert :
    Dict AggregationKey MetricAggregate
    → Dict AggregationKey MetricAggregate
    → Dict AggregationKey MetricAggregate
upsert [] table = table
upsert ((key, row) ∷ rows) table = upsert rows (insert key (upserted (lookup key table) row) table)

-- `if not aggregates: return inserted_ids`, else the upsert
abbrev pub write_metrics : List ℕ → Dict AggregationKey MetricAggregate → Exec Database (List ℕ)
write_metrics inserted_ids [] db = (ok inserted_ids, db)
write_metrics inserted_ids (row ∷ rows) db =
    (ok inserted_ids, record db { log_metrics_minute = upsert (row ∷ rows) db.log_metrics_minute })

abbrev pub write_snapshot : String → Snapshot → Dict ℕ KafkaCoordinate → Exec Database (List ℕ)
write_snapshot group snapshot markers db =
    let (inserted_ids, table) = insert_markers group markers db.processed_events in
    write_metrics inserted_ids (aggregate (some inserted_ids) snapshot)
      (record db { processed_events = table })

unfoldable pub persist_snapshot : Snapshot → String → Exec Database (List ℕ)
persist_snapshot [] group db = (ok [], db)
persist_snapshot (event ∷ events) group db = elim (marker_values (event ∷ events)) [
  | ok markers ↦ write_snapshot group (event ∷ events) markers db
  | raised e ↦ (raised e, db)
]
