-- ===== src/Database/OrderRepository.antt =====
-- database/order_repository.py: the marker and the order row of one event. A call works on the
-- session's view of the database; the transaction around it is the caller's.
pub mod Marking
use kafka_order_event_platfo.Prelude.{
  ℕ, String, Bool, true, false, Option, none, some, [], ◌∷◌, nat_eq, string_eq, pair_eq,
}
use kafka_order_event_platfo.Dict.{Dict, lookup, insert}
use kafka_order_event_platfo.Outcome.{Exec, ok, raised, Error, dbapi_error, Attribute, Outcome}
use kafka_order_event_platfo.Models.Event.{
  OrderEvent, created, paid, cancelled, failed, envelope, event_type, event_type_value,
  currency_value, channel_value,
}
use kafka_order_event_platfo.Models.Message.{KafkaCoordinate}
use kafka_order_event_platfo.Database.Models.{ValidOrder, MarkerKey, Database}
use kafka_order_event_platfo.Database.Columns.{row_fits, marker_fits}

-- The row of an event: columns that its payload lacks are null.
unfoldable pub order_row : OrderEvent → KafkaCoordinate → ValidOrder
order_row (created e p) m = record {
  event_id = e.event_id;
  order_id = p.order_id;
  event_type = event_type_value (event_type (created e p));
  user_id = p.user_id;
  product_id = some p.product_id;
  quantity = some p.quantity;
  amount = some p.amount;
  currency = some (currency_value p.currency);
  channel = some (channel_value p.channel);
  event_time = e.event_time;
  kafka_topic = m.topic;
  kafka_partition = m.partition;
  kafka_offset = m.offset;
}
order_row (paid e p) m = record {
  event_id = e.event_id;
  order_id = p.order_id;
  event_type = event_type_value (event_type (paid e p));
  user_id = p.user_id;
  product_id = none;
  quantity = none;
  amount = some p.amount;
  currency = some (currency_value p.currency);
  channel = none;
  event_time = e.event_time;
  kafka_topic = m.topic;
  kafka_partition = m.partition;
  kafka_offset = m.offset;
}
order_row (cancelled e p) m = record {
  event_id = e.event_id;
  order_id = p.order_id;
  event_type = event_type_value (event_type (cancelled e p));
  user_id = p.user_id;
  product_id = none;
  quantity = none;
  amount = none;
  currency = none;
  channel = none;
  event_time = e.event_time;
  kafka_topic = m.topic;
  kafka_partition = m.partition;
  kafka_offset = m.offset;
}
order_row (failed e p) m = record {
  event_id = e.event_id;
  order_id = p.order_id;
  event_type = event_type_value (event_type (failed e p));
  user_id = p.user_id;
  product_id = none;
  quantity = none;
  amount = some p.amount;
  currency = some (currency_value p.currency);
  channel = none;
  event_time = e.event_time;
  kafka_topic = m.topic;
  kafka_partition = m.partition;
  kafka_offset = m.offset;
}

-- a primary key that is there already: `IntegrityError`, SQLSTATE 23505
abbrev pub unique_violation : Error
unique_violation = dbapi_error (record {
  connection_invalidated = false;
  sqlstate = Attribute.text "23505";
  pgcode = Attribute.missing;
})

-- a value that its column does not admit: `DataError`, of the class 22 of SQLSTATE
abbrev pub data_error : Error
data_error = dbapi_error (record {
  connection_invalidated = false;
  sqlstate = Attribute.text "22000";
  pgcode = Attribute.missing;
})

-- the values of the new row are checked before its key
abbrev pub add_order_at : Bool → Option ValidOrder → ValidOrder → Exec Database Bool
add_order_at false found row db = (raised data_error, db)
add_order_at true none row db =
    (ok true, record db { valid_orders = insert row.event_id row db.valid_orders })
add_order_at true (some _) row db = (raised unique_violation, db)

-- `session.add(ValidOrder(...)); session.flush(); return True`
unfoldable pub add_order : ValidOrder → Exec Database Bool
add_order row db = add_order_at (row_fits row) (lookup row.event_id db.valid_orders) row db

-- `inserted_event_id is None` where the marker exists, once its values are admitted
abbrev pub persist_at :
    Bool → Option KafkaCoordinate → MarkerKey → OrderEvent → KafkaCoordinate → Exec Database Bool
persist_at false found key event metadata db = (raised data_error, db)
persist_at true (some _) key event metadata db = (ok false, db)
persist_at true none key event metadata db =
    add_order (order_row event metadata)
      (record db { processed_events = insert key metadata db.processed_events })

unfoldable pub persist : OrderEvent → KafkaCoordinate → String → Exec Database Bool
unfolding add_order
persist event metadata consumer_group db =
    let key : MarkerKey = (consumer_group, (envelope event).event_id) in
    persist_at (marker_fits consumer_group metadata) (lookup key db.processed_events) key event
      metadata db
