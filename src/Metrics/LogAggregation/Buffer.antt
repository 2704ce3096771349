-- ===== src/Metrics/LogAggregation/Buffer.antt =====
-- `BufferedLogEvent`, `AggregationSnapshot` and `LogAggregationBuffer` of
-- metrics/log_aggregation.py.
use kafka_order_event_platfo.Prelude.{
  ℕ, Bool, true, false, not, ◌||◌, Option, none, some, List, [], ◌∷◌, ◌++◌, if◌then◌else◌, ◌==◌,
  elem, length, nat_eq,
}
use kafka_order_event_platfo.Dict.{Dict, lookup, insert, values}
use kafka_order_event_platfo.Outcome.{
  Outcome, Exec, ok, raised, value_error, ◌>>=◌, ◌>>◌, lift, pure,
}
use kafka_order_event_platfo.Models.Event.{ApiAccessLogEvent}
use kafka_order_event_platfo.Models.Message.{KafkaCoordinate, coordinate_eq}
use kafka_order_event_platfo.Metrics.LogAggregation.Delta.{
  AggregationKey, key_eq, MetricAggregate, metric_eq, no_requests, combine, contribution_for,
}

pub record BufferedLogEvent : Type 0 where
  pub event_id : ℕ
  pub key : AggregationKey
  pub delta : MetricAggregate
  pub coordinates : List KafkaCoordinate

-- `AggregationSnapshot.events`
abbrev pub Snapshot : Type 0
Snapshot = List BufferedLogEvent

abbrev pub coordinates_of : Snapshot → List KafkaCoordinate
coordinates_of [] = []
coordinates_of (event ∷ events) = event.coordinates ++ coordinates_of events

-- `included_event_ids is not None and event.event_id not in included_event_ids`, negated
abbrev pub is_included : Option (List ℕ) → ℕ → Bool
is_included none id = true
is_included (some ids) id = elem id ids

abbrev pub or_no_requests : Option MetricAggregate → MetricAggregate
or_no_requests none = no_requests
or_no_requests (some m) = m

-- one round of the loop of `aggregate`
unfoldable pub add_event :
    BufferedLogEvent → Dict AggregationKey MetricAggregate → Dict AggregationKey MetricAggregate
add_event event result =
    insert event.key (combine (or_no_requests (lookup event.key result)) event.delta) result

unfoldable pub aggregate_from :
    Option (List ℕ)
    → Snapshot
    → Dict AggregationKey MetricAggregate
    → Dict AggregationKey MetricAggregate
unfolding add_event
aggregate_from ids [] result = result
aggregate_from ids (event ∷ events) result =
    aggregate_from ids events
      (if is_included ids event.event_id then add_event event result else result)

unfoldable pub aggregate : Option (List ℕ) → Snapshot → Dict AggregationKey MetricAggregate
unfolding aggregate_from
aggregate ids events = aggregate_from ids events []

-- the buffer's `_events`
abbrev pub Buffer : Type 0
Buffer = Dict ℕ BufferedLogEvent

-- `tuple(dict.fromkeys(seen + rest))`, where `seen` has been read
abbrev pub from_keys : List KafkaCoordinate → List KafkaCoordinate → List KafkaCoordinate
from_keys seen [] = seen
from_keys seen (c ∷ cs) = from_keys (if elem c seen then seen else seen ++ c ∷ []) cs

unfoldable pub merge_event : BufferedLogEvent → BufferedLogEvent → Outcome BufferedLogEvent
merge_event first second =
    if not (first.key == second.key) || not (first.delta == second.delta)
    then raised (value_error "event_id was reused with different metric data")
    else ok (record first { coordinates = from_keys [] (first.coordinates ++ second.coordinates) })

-- what becomes of the entry of the event: the incoming one, or the merged one
unfoldable pub merged : Option BufferedLogEvent → BufferedLogEvent → Outcome BufferedLogEvent
unfolding merge_event
merged none incoming = ok incoming
merged (some existing) incoming = merge_event existing incoming

abbrev pub is_new : Option BufferedLogEvent → Bool
is_new none = true
is_new (some _) = false

abbrev pub store : BufferedLogEvent → Outcome BufferedLogEvent → Exec Buffer (Unit {0})
store incoming (ok e) b = (ok tt, insert incoming.event_id e b)
store incoming (raised e) b = (raised e, b)

-- the body that `add` and `restore` share
unfoldable pub put_event : BufferedLogEvent → Exec Buffer (Unit {0})
unfolding merged
put_event incoming b = store incoming (merged (lookup incoming.event_id b) incoming) b

abbrev pub incoming_event :
    ApiAccessLogEvent → KafkaCoordinate → AggregationKey × MetricAggregate → BufferedLogEvent
incoming_event event c (key, delta) = record {
  event_id = event.event_id;
  key = key;
  delta = delta;
  coordinates = c ∷ [];
}

abbrev pub insert_incoming : BufferedLogEvent → Exec Buffer Bool
insert_incoming incoming b = (put_event incoming >> pure (is_new (lookup incoming.event_id b))) b

unfoldable pub add : ApiAccessLogEvent → KafkaCoordinate → Exec Buffer Bool
unfolding put_event contribution_for
add event c = do
  contribution ← lift (contribution_for event)
  insert_incoming (incoming_event event c contribution)

unfoldable pub take_snapshot : Buffer → Snapshot × Buffer
take_snapshot b = (values b, [])

unfoldable pub restore : Snapshot → Exec Buffer (Unit {0})
unfolding put_event
restore [] = pure tt
restore (incoming ∷ rest) = put_event incoming >> restore rest

-- `__len__`
abbrev pub buffered : Buffer → ℕ
buffered b = length b
