-- ===== src/Database/OrderRepository/Marking.antt =====
-- Markers and order rows stay in step (database/order_repository.py).
use kafka_order_event_platfo.Prelude.{
  ℕ, String, ◌≡◌, refl, sym, ◌∙◌, Bool, true, false, Option, none, some, arith, ◌==◌, if◌then◌else◌,
  nat_eq, string_eq, pair_eq, nat_beq_iff, pair_beq_iff,
}
use kafka_order_event_platfo.Dict.{lookup, insert, lookup-insert}
use kafka_order_event_platfo.Outcome.{Outcome, ok, raised}
use kafka_order_event_platfo.Database.Columns.{row_fits, marker_fits}
use kafka_order_event_platfo.Models.Event.{OrderEvent, created, paid, cancelled, failed, envelope}
use kafka_order_event_platfo.Models.Message.{KafkaCoordinate}
use kafka_order_event_platfo.Database.Models.{ValidOrder, Database}
use kafka_order_event_platfo.Database.OrderRepository.{order_row, persist, add_order, data_error}

abbrev pub row_source : ValidOrder → KafkaCoordinate
row_source row = record {
  topic = row.kafka_topic;
  partition = row.kafka_partition;
  offset = row.kafka_offset;
}

abbrev pub source_of : Option ValidOrder → Option KafkaCoordinate
source_of none = none
source_of (some row) = some (row_source row)

-- The group has a marker for an event exactly where the event has an order row, and both name the
-- same source record.
abbrev pub IsLinked : String → Database → Type 0
IsLinked group db =
    (id : ℕ) → lookup (group, id) db.processed_events ≡ source_of (lookup id db.valid_orders)

abbrev pub is_absent : Option ValidOrder → Bool
is_absent none = true
is_absent (some _) = false

abbrev pub or_row : Option ValidOrder → ValidOrder → ValidOrder
or_row none row = row
or_row (some old) row = old

event_id-order_row :
    (event : OrderEvent) (m : KafkaCoordinate)
    → (order_row event m).event_id ≡ (envelope event).event_id
unfolding order_row
event_id-order_row (created e p) m = refl
event_id-order_row (paid e p) m = refl
event_id-order_row (cancelled e p) m = refl
event_id-order_row (failed e p) m = refl

source_of-order_row :
    (event : OrderEvent) (m : KafkaCoordinate) → source_of (some (order_row event m)) ≡ some m
unfolding order_row
source_of-order_row (created e p) m = refl
source_of-order_row (paid e p) m = refl
source_of-order_row (cancelled e p) m = refl
source_of-order_row (failed e p) m = refl

abbrev written : String → OrderEvent → KafkaCoordinate → Database → Database
written group event m db =
    let id = (envelope event).event_id in
    record db {
      processed_events = insert (group, id) m db.processed_events;
      valid_orders = insert id (order_row event m) db.valid_orders;
    }

-- An event that is new to both tables.
pub persist_new :
    (event : OrderEvent) (m : KafkaCoordinate) (group : String) (db : Database)
    → marker_fits group m ≡ true
    → row_fits (order_row event m) ≡ true
    → lookup (group, (envelope event).event_id) db.processed_events ≡ none
    → lookup (envelope event).event_id db.valid_orders ≡ none
    → persist event m group db ≡ (ok true, written group event m db)
unfolding persist
persist_new event m group db marker row unmarked absent =
    ground (arith, marker, row, unmarked, absent, event_id-order_row event m)

-- An event that has its marker.
pub persist_again :
    (event : OrderEvent) (m c : KafkaCoordinate) (group : String) (db : Database)
    → marker_fits group m ≡ true
    → lookup (group, (envelope event).event_id) db.processed_events ≡ some c
    → persist event m group db ≡ (ok false, db)
unfolding persist
persist_again event m c group db marker marked = ground (arith, marker, marked)

-- What one of the two tables does not admit.
refused_marker :
    (event : OrderEvent) (m : KafkaCoordinate) (group : String) (db : Database)
    → marker_fits group m ≡ false
    → (persist event m group db).0 ≡ raised data_error
unfolding persist
refused_marker event m group db marker = rw marker refl

refused_row :
    (event : OrderEvent) (m : KafkaCoordinate) (group : String) (db : Database)
    → marker_fits group m ≡ true
    → row_fits (order_row event m) ≡ false
    → lookup (group, (envelope event).event_id) db.processed_events ≡ none
    → (persist event m group db).0 ≡ raised data_error
unfolding persist add_order
refused_row event m group db marker row unmarked = rw (marker, unmarked, row) refl

written-IsLinked :
    (group : String) (event : OrderEvent) (m : KafkaCoordinate) (db : Database)
    → IsLinked group db
    → IsLinked group (written group event m db)
written-IsLinked group event m db linked id = ground (
  arith,
  linked id,
  lookup-insert (group, (envelope event).event_id) (group, id) m db.processed_events,
  lookup-insert (envelope event).event_id id (order_row event m) db.valid_orders,
  pair_beq_iff (group, (envelope event).event_id) (group, id),
  nat_beq_iff (envelope event).event_id id,
  source_of-order_row event m,
)

-- What `persist` returns or raises: whether the columns admit the marker, which row the event has,
-- and whether the columns admit the new one.
abbrev pub verdict : Bool → Option ValidOrder → Bool → Outcome Bool
verdict false found row = raised data_error
verdict true (some _) row = ok false
verdict true none true = ok true
verdict true none false = raised data_error

-- The result of `persist` on a linked database, and what it leaves if it returns.
abbrev pub Persisted : OrderEvent → KafkaCoordinate → String → Database → Type 0
Persisted event m group db =
    let id = (envelope event).event_id in
    let found = lookup id db.valid_orders in
    let (r, after) = persist event m group db in
    (r ≡ verdict (marker_fits group m) found (row_fits (order_row event m)))
    × ((b : Bool)
        → r ≡ ok b
        → (b ≡ is_absent found)
          × IsLinked group after
          × ((j : ℕ)
              → lookup j after.valid_orders ≡ (
                  if id == j
                  then some (or_row found (order_row event m))
                  else lookup j db.valid_orders)))

-- a call that raises, which has nothing to leave
refused-Persisted :
    (event : OrderEvent) (m : KafkaCoordinate) (group : String) (db : Database)
    → verdict
        (marker_fits group m)
        (lookup (envelope event).event_id db.valid_orders)
        (row_fits (order_row event m))
      ≡ raised data_error
    → (persist event m group db).0 ≡ raised data_error
    → Persisted event m group db
refused-Persisted event m group db expected raises =
    (raises ∙ sym expected, λ b returns. absurd (ground (arith, raises, returns)))

-- a call that returns
returned-Persisted :
    (event : OrderEvent) (m : KafkaCoordinate) (group : String) (db after : Database) (b : Bool)
    → let id = (envelope event).event_id in
      let found = lookup id db.valid_orders in
      verdict (marker_fits group m) found (row_fits (order_row event m)) ≡ ok b
      → b ≡ is_absent (lookup (envelope event).event_id db.valid_orders)
      → persist event m group db ≡ (ok b, after)
      → IsLinked group after
      → ((j : ℕ)
          → lookup j after.valid_orders ≡ (
              if (envelope event).event_id == j
              then some
                  (or_row (lookup (envelope event).event_id db.valid_orders) (order_row event m))
              else lookup j db.valid_orders))
      → Persisted event m group db
returned-Persisted event m group db after b expected absent e linked rows =
    rw e (sym expected, λ a returned. (ground (arith, returned, absent), linked, rows))

persist_at-Persisted :
    (found : Option ValidOrder) (marker row : Bool) (event : OrderEvent) (m : KafkaCoordinate)
    (group : String) (db : Database)
    → lookup (envelope event).event_id db.valid_orders ≡ found
    → marker_fits group m ≡ marker
    → row_fits (order_row event m) ≡ row
    → IsLinked group db
    → Persisted event m group db
persist_at-Persisted found false row event m group db known marker fits linked =
    refused-Persisted event m group db (rw marker refl) (refused_marker event m group db marker)
persist_at-Persisted none true false event m group db absent marker fits linked =
    refused-Persisted event m group db (rw (marker, absent, fits) refl)
      (refused_row event m group db marker fits (ground (arith, linked (envelope event).event_id)))
persist_at-Persisted none true true event m group db absent marker fits linked =
    returned-Persisted event m group db (written group event m db) true
      (rw (marker, absent, fits) refl) (rw absent refl)
      (persist_new event m group db marker fits (ground (arith, linked (envelope event).event_id))
        absent)
      (written-IsLinked group event m db linked)
      (rw absent
        (λ j. lookup-insert (envelope event).event_id j (order_row event m) db.valid_orders))
persist_at-Persisted (some old) true row event m group db present marker fits linked =
    returned-Persisted event m group db db false (rw (marker, present) refl) (rw present refl)
      (persist_again event m (row_source old) group db marker
        (ground (arith, linked (envelope event).event_id)))
      linked (λ j. ground (arith, present, nat_beq_iff (envelope event).event_id j))

-- On a database in which the group's markers and the order rows agree, each event having both or
-- neither, of one source record: `persist` raises exactly when the columns do not admit the marker,
-- or, for an event that has no row, the row, and then it raises a `DataError`; else it returns
-- true exactly when the event had no row, leaves markers and rows in agreement, and the event then
-- has a row: the old one if there was one, else that of the event and its source record. No other
-- row changes.
pub persist-Persisted :
    (event : OrderEvent) (m : KafkaCoordinate) (group : String) (db : Database)
    → IsLinked group db
    → Persisted event m group db
persist-Persisted event m group db linked =
    persist_at-Persisted _ _ _ event m group db refl refl refl linked
