-- ===== src/Consumer/Order/Processing.antt =====
-- `OrderProcessor.process` of consumer/order.py returns only when its message is dealt with.
use kafka_order_event_platfo.Prelude.{
  ℕ, String, ◌≡◌, refl, Bool, true, false, Option, none, some, List, arith, ◌==◌, nat_eq, string_eq,
  pair_eq, nat_beq_iff, if◌then◌else◌, beq_refl,
}
use kafka_order_event_platfo.Dict.{lookup}
use kafka_order_event_platfo.Outcome.{Error, Outcome, ok, raised, permanent, pure}
use kafka_order_event_platfo.Models.Event.{OrderEvent, envelope, aware}
use kafka_order_event_platfo.Models.Message.{KafkaMessage, KafkaCoordinate, coordinate_eq}
use kafka_order_event_platfo.Database.Models.{ValidOrder, Database}
use kafka_order_event_platfo.Database.OrderRepository.{order_row, persist}
use kafka_order_event_platfo.Database.OrderRepository.Marking.{
  IsLinked, is_absent, or_row, persist-Persisted,
}
use kafka_order_event_platfo.Consumer.Retry.Rule.{Post, run_with_retry-Post, Post-bind, Post-weaken}
use kafka_order_event_platfo.Consumer.World.{
  World, Fate, commits, fails, unseen, settle_transaction, transaction, next_or, read_clock,
}
use kafka_order_event_platfo.Consumer.Errors.{Codec, or_empty}
use kafka_order_event_platfo.Consumer.Order.{
  ConsumerSettings, ProcessingResult, processed, duplicate, dlqed, coordinate_of,
  decode_order_event, persist_once, store_event, send_to_dlq, route, process,
}
use kafka_order_event_platfo.Consumer.Order.Letters.{Delivered, Lettered, send_to_dlq-Lettered}
use kafka_order_event_platfo.Consumer.Order.Handled.{
  dead_lettered, HandledAs, Progress, Progress-refl, Progress-wait,
}

-- From the state `u`, with the event in the database; where the call reports that it has inserted
-- the event, the row is the one of this source record.
abbrev IsStored : OrderEvent → KafkaCoordinate → Bool → Option ValidOrder → Type 0
IsStored event c inserted found =
    (is_absent found ≡ false) × (inserted ≡ true → found ≡ some (order_row event c))

abbrev Stored : String → OrderEvent → KafkaCoordinate → World → Bool → World → Type 0
Stored group event c u inserted w =
    Progress group u w
    × IsStored event c inserted (lookup (envelope event).event_id w.database.valid_orders)

settle-Stored :
    (fate : Fate) (b : Bool) (group : String) (event : OrderEvent) (c : KafkaCoordinate)
    (u w : World) (db : Database)
    → Progress group u w
    → Progress group u (record w { database = db })
    → IsStored event c b (lookup (envelope event).event_id db.valid_orders)
    → Post (Stored group event c u) (Progress group u) (settle_transaction fate (ok b, db) w)
unfolding settle_transaction
settle-Stored commits b group event c u w db old new present = (new, present)
settle-Stored (fails e) b group event c u w db old new present = old
settle-Stored (unseen e) b group event c u w db old new present = new

or_row-kept :
    (found : Option ValidOrder) (row new : ValidOrder)
    → found ≡ some row
    → some (or_row found new) ≡ some row
or_row-kept found row new e = rw e

-- The rows that were there before `persist` are still there.
rows_kept :
    (id : ℕ) (new : ValidOrder) (before after : Database)
    → ((j : ℕ)
        → lookup j after.valid_orders ≡ (
            if id == j
            then some (or_row (lookup id before.valid_orders) new)
            else lookup j before.valid_orders))
    → (j : ℕ) (row : ValidOrder) → lookup j before.valid_orders ≡ some row
    → lookup j after.valid_orders ≡ some row
rows_kept id new before after known j row e =
    ground
      (arith, known j, e, nat_beq_iff id j, or_row-kept (lookup id before.valid_orders) row new)

or_row-IsStored :
    (before : Option ValidOrder) (event : OrderEvent) (c : KafkaCoordinate)
    (after : Option ValidOrder)
    → after ≡ some (or_row before (order_row event c))
    → IsStored event c (is_absent before) after
or_row-IsStored none event c after e = (rw e, λ _. e)
or_row-IsStored (some row) event c after e = (rw e, λ absent. cc)

settle-raised :
    (fate : Fate) (e : Error) (group : String) (event : OrderEvent) (c : KafkaCoordinate)
    (u w : World) (db : Database)
    → Progress group u w
    → Post
        (Stored group event c u)
        (Progress group u)
        (settle_transaction {A = Bool} fate (raised e, db) w)
unfolding settle_transaction
settle-raised commits e group event c u w db h = h
settle-raised (fails _) e group event c u w db h = h
settle-raised (unseen _) e group event c u w db h = h

Progress-transactions :
    (group : String) (u w : World) (rest : List Fate)
    → Progress group u w
    → Progress group u (record w { transactions = rest })
Progress-transactions group u w rest h = record {
  linked = h.linked;
  rows = h.rows;
  letters = h.letters;
  polls = h.polls;
  committed = h.committed;
}

persist_once-Stored :
    (settings : ConsumerSettings) (event : OrderEvent) (c : KafkaCoordinate) (u w : World)
    → Progress settings.consumer_group u w
    → Post
        (Stored settings.consumer_group event c u)
        (Progress settings.consumer_group u)
        (persist_once settings event c w)
unfolding persist_once transaction
persist_once-Stored settings event c u w h =
    settled (persist event c settings.consumer_group w.database).0 refl
  where
    settled :
        (r : Outcome Bool)
        → (persist event c settings.consumer_group w.database).0 ≡ r
        → Post (Stored settings.consumer_group event c u) (Progress settings.consumer_group u) (
            settle_transaction
              (next_or commits w.transactions).0
              (r, (persist event c settings.consumer_group w.database).1)
              (record w { transactions = (next_or commits w.transactions).1 }))
    settled (raised error) e =
        let (fate, rest) = next_or commits w.transactions in
        settle-raised fate error settings.consumer_group event c u
          (record w { transactions = rest }) (persist event c settings.consumer_group w.database).1
          (Progress-transactions settings.consumer_group u w rest h)
    settled (ok b) e =
        let group = settings.consumer_group in
        let id = (envelope event).event_id in
        let after = (persist event c group w.database).1 in
        let (absent, linked, found) = (persist-Persisted event c group w.database h.linked).1 b e in
        let (fate, rest) = next_or commits w.transactions in
        settle-Stored fate b group event c u (record w { transactions = rest }) after
          (Progress-transactions group u w rest h)
          (record {
            linked = linked;
            rows = λ j row k.
                rows_kept id (order_row event c) w.database after found j row (h.rows j row k);
            letters = h.letters;
            polls = h.polls;
            committed = h.committed;
          })
          (rw absent (
            or_row-IsStored (lookup id w.database.valid_orders) event c
              (lookup id after.valid_orders) (ground (arith, found id, beq_refl id))))

store_event-Stored :
    (settings : ConsumerSettings) (event : OrderEvent) (c : KafkaCoordinate) (w : World)
    → IsLinked settings.consumer_group w.database
    → Post
        (Stored settings.consumer_group event c w)
        (Progress settings.consumer_group w)
        (store_event settings event c w)
unfolding store_event
store_event-Stored settings event c w linked =
    run_with_retry-Post _ (persist_once settings event c) (Stored settings.consumer_group event c w)
      (Progress settings.consumer_group w) (λ v h. persist_once-Stored settings event c w v h)
      (λ k e v h. Progress-wait settings.consumer_group settings.retry_policy _ _ w k e v h) w
      (Progress-refl settings.consumer_group w linked)

-- What `route` has established when it returns a result: a message that it reports as processed has
-- its own row.
abbrev RowOf : OrderEvent → KafkaCoordinate → ProcessingResult → Option ValidOrder → Type 0
RowOf event c processed found = found ≡ some (order_row event c)
RowOf event c duplicate found = is_absent found ≡ false
RowOf event c dlqed found = ⊥

abbrev pub ResultOf : Outcome OrderEvent → KafkaCoordinate → ProcessingResult → World → Type 0
ResultOf (ok event) c result w =
    RowOf event c result (lookup (envelope event).event_id w.database.valid_orders)
ResultOf (raised (permanent _)) c result w = (result ≡ dlqed) × (dead_lettered c w.dlq ≡ true)
ResultOf (raised _) c result w = ⊥

RowOf-present :
    (event : OrderEvent) (c : KafkaCoordinate) (result : ProcessingResult)
    (found : Option ValidOrder)
    → RowOf event c result found
    → is_absent found ≡ false
RowOf-present event c processed found h = rw h
RowOf-present event c duplicate found h = h
RowOf-present event c dlqed found h = absurd h

pub ResultOf-HandledAs :
    (decoded : Outcome OrderEvent) (c : KafkaCoordinate) (result : ProcessingResult) (w : World)
    → ResultOf decoded c result w
    → HandledAs decoded c w
ResultOf-HandledAs (ok event) c result w h = RowOf-present event c result _ h
ResultOf-HandledAs (raised (permanent _)) c result w (_, h) = h
ResultOf-HandledAs _ c result w h = absurd h

stored_row :
    (event : OrderEvent) (c : KafkaCoordinate) (inserted : Bool) (found : Option ValidOrder)
    → IsStored event c inserted found
    → RowOf event c (if inserted then processed else duplicate) found
stored_row event c true found (present, row) = row refl
stored_row event c false found (present, row) = present

abbrev pub Dealt :
    String → KafkaMessage → Outcome OrderEvent → World → ProcessingResult → World → Type 0
Dealt group m decoded u result w = Progress group u w × ResultOf decoded (coordinate_of m) result w

route-Dealt :
    (codec : Codec) (settings : ConsumerSettings) (m : KafkaMessage) (decoded : Outcome OrderEvent)
    (w : World)
    → IsLinked settings.consumer_group w.database
    → Post
        (Dealt settings.consumer_group m decoded w)
        (Progress settings.consumer_group w)
        (route codec settings m decoded w)
unfolding route read_clock
route-Dealt codec settings m (ok event) w linked =
    Post-bind (store_event settings event (coordinate_of m))
      (λ inserted. pure (if inserted then processed else duplicate))
      (Stored settings.consumer_group event (coordinate_of m) w)
      (Dealt settings.consumer_group m (ok event) w) (Progress settings.consumer_group w) w
      (store_event-Stored settings event (coordinate_of m) w linked)
      (λ inserted v (h, stored). (h, stored_row event (coordinate_of m) inserted _ stored))
route-Dealt codec settings m (raised (permanent e)) w linked =
    let (t, rest) = next_or (aware 0) w.clock in
    let u = record w { clock = rest } in
    let group = settings.consumer_group in
    let from_u : (v : World) → Delivered u v → Progress group w v = λ v h. record {
      linked = rw h.database linked;
      rows = λ id row e. rw h.database e;
      letters = h.letters;
      polls = h.polls;
      committed = h.committed;
    } in
    let Answered : Unit {0} → World → Type 0 =
      λ _ v. Progress group w v × (dead_lettered (coordinate_of m) v.dlq ≡ true) in
    Post-bind (send_to_dlq codec settings m e t) (λ _. pure dlqed) Answered
      (Dealt group m (raised (permanent e)) w) (Progress group w) u
      (Post-weaken (Lettered u m) (Delivered u) Answered (Progress group w)
        (send_to_dlq codec settings m e t u) (λ _ v (h, letter). (from_u v h, letter)) from_u
        (send_to_dlq-Lettered codec settings m e t u))
      (λ _ v (h, letter). (h, (refl, letter)))
route-Dealt codec settings m (raised _) w linked = Progress-refl settings.consumer_group w linked

-- From a state in which markers and rows agree, each event having both or neither, of one source
-- record, `process` loses nothing that is stored, whether it returns or raises. If it returns
-- `processed`, the database has the row of this very source record; if it returns `duplicate`, a
-- row for the event; if it returns `dlqed`, the dead-letter topic has a record of the message;
-- and this is so for whatever results the transactions and the deliveries have, answers lost
-- included.
pub process-Dealt :
    (codec : Codec) (settings : ConsumerSettings) (m : KafkaMessage) (w : World)
    → IsLinked settings.consumer_group w.database
    → Post
        (Dealt settings.consumer_group m (decode_order_event codec (or_empty m.value)) w)
        (Progress settings.consumer_group w)
        (process codec settings m w)
unfolding process
process-Dealt codec settings m =
    route-Dealt codec settings m (decode_order_event codec (or_empty m.value))
