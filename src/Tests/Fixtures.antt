-- ===== src/Tests/Fixtures.antt =====
-- The inputs that the examples share.
use kafka_order_event_platfo.Prelude.{
  false, Option, none, some, String, [], ◌∷◌, inr, if◌then◌else◌, ◌==◌, string_eq, nat_eq,
}
use kafka_order_event_platfo.Outcome.{timeout_error, operational_error}
use kafka_order_event_platfo.Models.Json.{Json, object, field, end}
use kafka_order_event_platfo.Models.Event.{
  OrderEvent, created, aware, twd, web, ApiAccessLogEvent, get,
}
use kafka_order_event_platfo.Models.Message.{Bytes, KafkaMessage}
use kafka_order_event_platfo.Kafka.Consumer.{nothing, message}
use kafka_order_event_platfo.Database.Models.{empty_database}
use kafka_order_event_platfo.Consumer.Retry.{RetryPolicy}
use kafka_order_event_platfo.Consumer.World.{World, unseen}
use kafka_order_event_platfo.Consumer.Errors.{Codec, malformed, loaded}
use kafka_order_event_platfo.Consumer.Order.{ConsumerSettings}

abbrev pub default_policy : RetryPolicy
default_policy = record { max_retries = 3; base_seconds = 1; max_seconds = 4 }

abbrev pub settings : ConsumerSettings
settings = record {
  consumer_group = "orders";
  retry_policy = default_policy;
  delivery_timeout = 10;
}

abbrev pub an_order : OrderEvent
an_order =
    created (record { event_id = 7; event_time = aware 90000000; source = "web" })
      (record {
        order_id = "o-1";
        user_id = "u-1";
        product_id = "p-1";
        quantity = 2;
        amount = 1999;
        currency = twd;
        channel = web;
      })

abbrev pub an_access : ApiAccessLogEvent
an_access = record {
  envelope = record { event_id = 11; event_time = aware 90000000; source = "api" };
  payload = record {
    request_id = "r-1";
    service = "orders";
    endpoint = "/orders";
    http_method = get;
    status_code = 200;
    response_time_ms = 35;
    client_ip = "10.0.0.1";
  };
}

-- The first byte says what a value is: an order, an access log, text that is not JSON, or no text.
abbrev pub utf8_of : Bytes → Option String
utf8_of [] = none
utf8_of (b ∷ _) =
    if b == 1
    then some "order"
    else if b == 2
    then some "access"
    else if b == 3
    then some "{"
    else none

abbrev pub codec : Codec
codec = record {
  decode_utf8 = utf8_of;
  encode_base64 = λ b. "/w==";
  loads = λ s.
      if s == "{"
      then malformed (record { msg = "Expecting property name"; lineno = 1; colno = 2 })
      else loaded (object (field "event_id" (Json.text s) end));
  str = λ j. "7";
  uuid_text = λ s. none;
  validate_order = λ j. inr an_order;
  validate_access_log = λ j. inr an_access;
}

abbrev pub order_message : KafkaMessage
order_message = record {
  topic = "orders";
  partition = 0;
  offset = 5;
  key = none;
  value = some (1 ∷ []);
}

abbrev pub broken_message : KafkaMessage
broken_message = record {
  topic = "orders";
  partition = 0;
  offset = 6;
  key = none;
  value = some (3 ∷ []);
}

-- An order, the same order again and a record that is not JSON. The first commit of a transaction
-- goes through unseen, and the first delivery times out.
abbrev pub busy_world : World
busy_world = record {
  database = empty_database;
  transactions = unseen operational_error ∷ [];
  dlq = [];
  deliveries = record { refusal = none; start = 0; ticks = []; stored = false } ∷ [];
  committed = [];
  commits = record { refusal = some timeout_error; errors = []; stored = false } ∷ [];
  polls = message order_message ∷ nothing ∷ message broken_message ∷ [];
  clock = [];
  slept = [];
  warnings = [];
}
