-- ===== src/Models/Message.antt =====
-- `KafkaMessage` of kafka/consumer.py, `KafkaCoordinate` of metrics/log_aggregation.py and
-- `DlqMessage` of models/dlq.py. Bytes are a list of numbers below 256.
use kafka_order_event_platfo.Prelude.{
  ℕ, String, ◌≡◌, ◌↔◌, Bool, true, ◌&&◌, Option, List, arith, Eq, nat_beq, nat_beq_iff,
}
use kafka_order_event_platfo.Models.Json.{Json}
use kafka_order_event_platfo.Models.Event.{Datetime}
use text.Mathlib.Text.{◌==◌ as str_eq}
use text.Mathlib.TextEquality.{eq_iff}

abbrev pub Bytes : Type 0
Bytes = List ℕ

pub record KafkaMessage : Type 0 where
  pub topic : String
  pub partition : ℕ
  pub offset : ℕ
  pub key : Option Bytes
  pub value : Option Bytes

pub record KafkaCoordinate : Type 0 where
  pub topic : String
  pub partition : ℕ
  pub offset : ℕ

-- dataclass equality
abbrev pub coordinate_beq : KafkaCoordinate → KafkaCoordinate → Bool
coordinate_beq a b =
    str_eq a.topic b.topic && (nat_beq a.partition b.partition && nat_beq a.offset b.offset)

pub coordinate_beq_iff : (a b : KafkaCoordinate) → (coordinate_beq a b ≡ true) ↔ (a ≡ b)
coordinate_beq_iff a b = ground (
  arith,
  eq_iff a.topic b.topic,
  nat_beq_iff a.partition b.partition,
  nat_beq_iff a.offset b.offset,
)

instance abbrev pub coordinate_eq : Eq KafkaCoordinate
coordinate_eq = record { beq = coordinate_beq; beq_iff = coordinate_beq_iff }

pub data PayloadEncoding : Type 0 where
  json utf_8 base64 : PayloadEncoding

pub record DlqMessage : Type 0 where
  pub failed_at : Datetime
  pub error_type : String
  pub error_message : String
  pub original_topic : String
  pub original_partition : ℕ
  pub original_offset : ℕ
  pub consumer_group : String
  pub original_key : String
  pub original_payload : Json
  pub original_payload_encoding : PayloadEncoding
