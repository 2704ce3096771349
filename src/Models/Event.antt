-- ===== src/Models/Event.antt =====
-- models/event.py, models/order.py and models/application_log.py: the validated events.
-- A UUID is its 128-bit integer. A datetime is an instant in microseconds, naive or aware; an
-- amount is in hundredths, the scale of the database column. What pydantic has stripped and
-- checked is not checked again here.
use kafka_order_event_platfo.Prelude.{ℕ, String, Option}

pub data Datetime : Type 0 where
  -- a wall clock with no time zone
  naive : ℕ → Datetime
  -- microseconds in UTC
  aware : ℕ → Datetime

pub data EventType : Type 0 where
  order_created order_paid order_cancelled payment_failed : EventType
  api_access_log application_error_log : EventType

abbrev pub event_type_value : EventType → String
event_type_value EventType.order_created = "order_created"
event_type_value EventType.order_paid = "order_paid"
event_type_value EventType.order_cancelled = "order_cancelled"
event_type_value EventType.payment_failed = "payment_failed"
event_type_value EventType.api_access_log = "api_access_log"
event_type_value EventType.application_error_log = "application_error_log"

pub data Currency : Type 0 where
  twd usd : Currency

abbrev pub currency_value : Currency → String
currency_value Currency.twd = "TWD"
currency_value Currency.usd = "USD"

pub data OrderChannel : Type 0 where
  web ios android : OrderChannel

abbrev pub channel_value : OrderChannel → String
channel_value OrderChannel.web = "web"
channel_value OrderChannel.ios = "ios"
channel_value OrderChannel.android = "android"

pub record OrderCreatedPayload : Type 0 where
  pub order_id : String
  pub user_id : String
  pub product_id : String
  pub quantity : ℕ
  pub amount : ℕ
  pub currency : Currency
  pub channel : OrderChannel

pub record OrderPaidPayload : Type 0 where
  pub order_id : String
  pub user_id : String
  pub payment_id : String
  pub amount : ℕ
  pub currency : Currency
  pub payment_method : String

pub record OrderCancelledPayload : Type 0 where
  pub order_id : String
  pub user_id : String
  pub cancellation_reason : String

pub record PaymentFailedPayload : Type 0 where
  pub order_id : String
  pub user_id : String
  pub payment_id : String
  pub amount : ℕ
  pub currency : Currency
  pub failure_code : String
  pub failure_reason : String

-- The fields of `BaseEventEnvelope` that every event has.
pub record Envelope : Type 0 where
  pub event_id : ℕ
  pub event_time : Datetime
  pub source : String

-- The discriminated union: the constructor is the `event_type`.
pub data OrderEvent : Type 0 where
  created : Envelope → OrderCreatedPayload → OrderEvent
  paid : Envelope → OrderPaidPayload → OrderEvent
  cancelled : Envelope → OrderCancelledPayload → OrderEvent
  failed : Envelope → PaymentFailedPayload → OrderEvent

abbrev pub envelope : OrderEvent → Envelope
envelope (created e _) = e
envelope (paid e _) = e
envelope (cancelled e _) = e
envelope (failed e _) = e

abbrev pub event_type : OrderEvent → EventType
event_type (created _ _) = EventType.order_created
event_type (paid _ _) = EventType.order_paid
event_type (cancelled _ _) = EventType.order_cancelled
event_type (failed _ _) = EventType.payment_failed

pub data HttpMethod : Type 0 where
  get post put patch delete head options : HttpMethod

pub record ApiAccessLogPayload : Type 0 where
  pub request_id : String
  pub service : String
  pub endpoint : String
  pub http_method : HttpMethod
  pub status_code : ℕ
  pub response_time_ms : ℕ
  pub client_ip : String

pub record ApiAccessLogEvent : Type 0 where
  pub envelope : Envelope
  pub open envelope use *
  pub payload : ApiAccessLogPayload

pub record ApplicationErrorLogPayload : Type 0 where
  pub request_id : String
  pub service : String
  pub error_type : String
  pub error_message : String
  pub endpoint : Option String
  pub stack_trace : Option String
  pub trace_id : Option String
