-- ===== src/Database/LogRepository/Replay.antt =====
-- A snapshot that is stored a second time changes nothing (database/log_repository.py).
use kafka_order_event_platfo.Prelude.{
  ℕ, String, ◌≡◌, refl, true, false, some, List, [], ◌∷◌, arith, elem, nat_eq, string_eq, pair_eq,
  beq_refl, ◌∙◌,
}
use kafka_order_event_platfo.Dict.{Dict, keys, lookup}
use kafka_order_event_platfo.Outcome.{ok}
use kafka_order_event_platfo.Models.Message.{KafkaCoordinate}
use kafka_order_event_platfo.Metrics.LogAggregation.Delta.{AggregationKey, MetricAggregate}
use kafka_order_event_platfo.Metrics.LogAggregation.Buffer.{Snapshot, aggregate_from, aggregate}
use kafka_order_event_platfo.Database.Models.{MarkerKey, Database}
use kafka_order_event_platfo.Database.LogRepository.{
  insert_markers, write_snapshot, persist_snapshot,
}
use kafka_order_event_platfo.Database.LogRepository.Tables.{is_missing, event_ids}
use kafka_order_event_platfo.Database.LogRepository.Upsert.{
  HasCoordinates, marker_values_total, persist_snapshot_some, SnapshotStored,
  persist_snapshot-SnapshotStored,
}

-- Every event of the snapshot has a marker in the group.
abbrev pub AllMarked : String → Snapshot → Database → Type 0
AllMarked group es db =
    (id : ℕ)
    → elem id (event_ids es) ≡ true
    → is_missing (lookup (group, id) db.processed_events) ≡ false

insert_markers_marked :
    (group : String) (rows : Dict ℕ KafkaCoordinate) (table : Dict MarkerKey KafkaCoordinate)
    → ((id : ℕ) → elem id (keys rows) ≡ true → is_missing (lookup (group, id) table) ≡ false)
    → insert_markers group rows table ≡ ([], table)
unfolding insert_markers
insert_markers_marked group [] table h = refl
insert_markers_marked group ((id, c) ∷ rows) table h = ground (
  arith,
  h id,
  beq_refl id,
  insert_markers_marked group rows table (λ j m. h j (ground (arith, m))),
)

aggregate_from_none :
    (es : Snapshot) (r : Dict AggregationKey MetricAggregate) → aggregate_from (some []) es r ≡ r
unfolding aggregate_from
aggregate_from_none [] r = refl
aggregate_from_none (e ∷ es) r = aggregate_from_none es r

aggregate_none : (es : Snapshot) → aggregate (some []) es ≡ []
unfolding aggregate
aggregate_none es = aggregate_from_none es []

write_snapshot_marked :
    (group : String) (es : Snapshot) (rows : Dict ℕ KafkaCoordinate) (db : Database)
    → insert_markers group rows db.processed_events ≡ ([], db.processed_events)
    → write_snapshot group es rows db ≡ (ok [], db)
write_snapshot_marked group es rows db e = rw (e, aggregate_none es)

-- Where every event is marked already, the call returns no identifier and changes no table.
pub persist_snapshot_marked :
    (group : String) (es : Snapshot) (db : Database)
    → HasCoordinates es
    → AllMarked group es db
    → persist_snapshot es group db ≡ (ok [], db)
persist_snapshot_marked group [] db h marked = unfold persist_snapshot in refl
persist_snapshot_marked group (e ∷ es) db h marked =
    let (rows, eq, named) = marker_values_total (e ∷ es) h in
    persist_snapshot_some e es group db rows eq
    ∙ write_snapshot_marked group (e ∷ es) rows db
        (insert_markers_marked group rows db.processed_events (rw named marked))

pub SnapshotStored-AllMarked :
    (group : String) (es : Snapshot) (before after : Database) (ids : List ℕ)
    → SnapshotStored group es before after ids
    → AllMarked group es after
SnapshotStored-AllMarked group es before after ids s id m = ground (arith, (s.marks id).1, m)

-- A snapshot stored again after it was stored, as when a commit went through unseen, is taken as
-- known: no identifier is returned, and no marker, metric or order row changes.
pub persist_snapshot_again :
    (group : String) (es : Snapshot) (db : Database)
    → HasCoordinates es
    → let after = (persist_snapshot es group db).1 in
      persist_snapshot es group after ≡ (ok [], after)
persist_snapshot_again group es db h =
    let (ids, after, e, stored) = persist_snapshot-SnapshotStored group es db h in
    rw e (
      persist_snapshot_marked group es after h
        (SnapshotStored-AllMarked group es db after ids stored))
