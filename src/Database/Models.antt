-- ===== src/Database/Models.antt =====
-- database/models.py: the tables, each a dict from its primary key. Columns that the server fills
-- in (`created_at`, `processed_at`, `updated_at`) are left out: the program never reads them.
use kafka_order_event_platfo.Prelude.{ℕ, String, Option, []}
use kafka_order_event_platfo.Dict.{Dict}
use kafka_order_event_platfo.Models.Event.{Datetime}
use kafka_order_event_platfo.Models.Message.{KafkaCoordinate}
use kafka_order_event_platfo.Metrics.LogAggregation.Delta.{AggregationKey, MetricAggregate}

pub record ValidOrder : Type 0 where
  pub event_id : ℕ
  pub order_id : String
  pub event_type : String
  pub user_id : String
  pub product_id : Option String
  pub quantity : Option ℕ
  pub amount : Option ℕ
  pub currency : Option String
  pub channel : Option String
  pub event_time : Datetime
  pub kafka_topic : String
  pub kafka_partition : ℕ
  pub kafka_offset : ℕ

-- `consumer_group` and `event_id`
abbrev pub MarkerKey : Type 0
MarkerKey = String × ℕ

-- The rows of `processed_events` hold a source coordinate; those of `log_metrics_minute` a metric.
pub record Database : Type 0 where
  pub valid_orders : Dict ℕ ValidOrder
  pub processed_events : Dict MarkerKey KafkaCoordinate
  pub log_metrics_minute : Dict AggregationKey MetricAggregate

abbrev pub empty_database : Database
empty_database = record { valid_orders = []; processed_events = []; log_metrics_minute = [] }
