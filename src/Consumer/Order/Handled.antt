-- ===== src/Consumer/Order/Handled.antt =====
-- What it means that a message of the order consumer is dealt with for good, and what every step of
-- consumer/order.py keeps.
use kafka_order_event_platfo.Prelude.{
  ℕ, String, ◌≡◌, refl, Bool, true, false, ◌||◌, Option, none, some, List, [], ◌∷◌, ◌++◌, arith,
  ◌==◌, nat_eq, string_eq, pair_eq,
}
use kafka_order_event_platfo.Dict.{lookup}
use kafka_order_event_platfo.Outcome.{Error, Outcome, ok, raised, permanent}
use kafka_order_event_platfo.Models.Event.{OrderEvent, envelope}
use kafka_order_event_platfo.Models.Message.{
  KafkaMessage, KafkaCoordinate, DlqMessage, coordinate_eq,
}
use kafka_order_event_platfo.Database.Models.{ValidOrder}
use kafka_order_event_platfo.Database.OrderRepository.Marking.{IsLinked, is_absent}
use kafka_order_event_platfo.Consumer.Retry.{RetryPolicy, wait}
use kafka_order_event_platfo.Consumer.World.{World, retrying}
use kafka_order_event_platfo.Consumer.Errors.{Codec, or_empty}
use kafka_order_event_platfo.Consumer.Order.{decode_order_event, coordinate_of}

abbrev pub dlq_source : DlqMessage → KafkaCoordinate
dlq_source d = record {
  topic = d.original_topic;
  partition = d.original_partition;
  offset = d.original_offset;
}

-- Whether the dead-letter topic has a record of the source coordinate.
abbrev pub dead_lettered : KafkaCoordinate → List (String × DlqMessage) → Bool
dead_lettered c [] = false
dead_lettered c ((key, d) ∷ rest) = dlq_source d == c || dead_lettered c rest

-- A message that decodes has an order row for its event; one that does not is in the dead-letter
-- topic.
abbrev pub HandledAs : Outcome OrderEvent → KafkaCoordinate → World → Type 0
HandledAs (ok event) c w =
    is_absent (lookup (envelope event).event_id w.database.valid_orders) ≡ false
HandledAs (raised (permanent _)) c w = dead_lettered c w.dlq ≡ true
HandledAs (raised _) c w = ⊥

abbrev pub Handled : Codec → KafkaMessage → World → Type 0
Handled codec m w = HandledAs (decode_order_event codec (or_empty m.value)) (coordinate_of m) w

-- From `w` to `w'` nothing that is stored is lost.
abbrev pub Kept : World → World → Type 0
Kept w w' =
    ((id : ℕ) (row : ValidOrder)
      → lookup id w.database.valid_orders ≡ some row
      → lookup id w'.database.valid_orders ≡ some row)
    × ((c : KafkaCoordinate) → dead_lettered c w.dlq ≡ true → dead_lettered c w'.dlq ≡ true)

-- What the handling of a message keeps, besides what is stored: markers and rows agree, and nothing
-- is polled or committed to Kafka.
pub record Progress (group : String) (w w' : World) : Type 0 where
  pub linked : IsLinked group w'.database
  pub rows :
      (id : ℕ) (row : ValidOrder)
      → lookup id w.database.valid_orders ≡ some row
      → lookup id w'.database.valid_orders ≡ some row
  pub letters : (c : KafkaCoordinate) → dead_lettered c w.dlq ≡ true → dead_lettered c w'.dlq ≡ true
  pub polls : w'.polls ≡ w.polls
  pub committed : w'.committed ≡ w.committed

pub Progress-refl : (group : String) (w : World) → IsLinked group w.database → Progress group w w
Progress-refl group w h = record {
  linked = h;
  rows = λ id row e. e;
  letters = λ c e. e;
  polls = refl;
  committed = refl;
}

is_absent-Kept :
    (v w : World) (id : ℕ) (found : Option ValidOrder)
    → lookup id v.database.valid_orders ≡ found
    → Kept v w
    → is_absent found ≡ false
    → is_absent (lookup id w.database.valid_orders) ≡ false
is_absent-Kept v w id none e h present = cc
is_absent-Kept v w id (some row) e (rows, letters) present = rw (rows id row e)

HandledAs-Kept :
    (r : Outcome OrderEvent) (c : KafkaCoordinate) (v w : World)
    → Kept v w
    → HandledAs r c v
    → HandledAs r c w
HandledAs-Kept (ok event) c v w h d = is_absent-Kept v w (envelope event).event_id _ refl h d
HandledAs-Kept (raised (permanent e)) c v w (rows, letters) d = letters c d
HandledAs-Kept _ c v w h d = absurd d

-- A message stays dealt with.
pub Handled-Kept :
    (codec : Codec) (m : KafkaMessage) (v w : World)
    → Kept v w
    → Handled codec m v
    → Handled codec m w
Handled-Kept codec m =
    HandledAs-Kept (decode_order_event codec (or_empty m.value)) (coordinate_of m)

pub dead_lettered-append :
    (c : KafkaCoordinate) (key : String) (d : DlqMessage) (l : List (String × DlqMessage))
    → dead_lettered c (l ++ (key, d) ∷ []) ≡ (dead_lettered c l || dlq_source d == c)
dead_lettered-append c key d [] = ground arith
dead_lettered-append c key d (x ∷ l) = ground (arith, dead_lettered-append c key d l)

-- A wait between two attempts touches neither the database nor the topics.
pub Progress-wait :
    (group : String) (policy : RetryPolicy) (name : String) (is_retryable : Error → Bool)
    (u : World) (k : ℕ) (error : Error) (w : World)
    → Progress group u w
    → Progress group u (wait (retrying policy name is_retryable) k error w)
unfolding wait retrying
Progress-wait group policy name is_retryable u k error w h = record {
  linked = h.linked;
  rows = h.rows;
  letters = h.letters;
  polls = h.polls;
  committed = h.committed;
}
