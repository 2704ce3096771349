-- ===== src/Generator/Records.antt =====
-- The data of generator/factory.py and generator/options.py. A ratio is in millionths. The value of a
-- record is the JSON that its bytes encode, and its key is text.
use kafka_order_event_platfo.Prelude.{ℕ, String, Option}
use kafka_order_event_platfo.Models.Json.{Json}
use kafka_order_event_platfo.Models.Event.{
  EventType, OrderEvent, ApiAccessLogEvent, ApplicationErrorLogPayload, Envelope,
}

pub data EventFamily : Type 0 where
  order log : EventFamily

abbrev pub family_value : EventFamily → String
family_value EventFamily.order = "order"
family_value EventFamily.log = "log"

pub data InjectionKind : Type 0 where
  normal invalid stale duplicate : InjectionKind

abbrev pub injection_value : InjectionKind → String
injection_value InjectionKind.normal = "normal"
injection_value InjectionKind.invalid = "invalid"
injection_value InjectionKind.stale = "stale"
injection_value InjectionKind.duplicate = "duplicate"

pub data InvalidKind : Type 0 where
  missing_required_field negative_amount invalid_currency invalid_channel : InvalidKind
  invalid_http_method invalid_status_code unsupported_event_type malformed_payload : InvalidKind

abbrev pub invalid_value : InvalidKind → String
invalid_value InvalidKind.missing_required_field = "missing_required_field"
invalid_value InvalidKind.negative_amount = "negative_amount"
invalid_value InvalidKind.invalid_currency = "invalid_currency"
invalid_value InvalidKind.invalid_channel = "invalid_channel"
invalid_value InvalidKind.invalid_http_method = "invalid_http_method"
invalid_value InvalidKind.invalid_status_code = "invalid_status_code"
invalid_value InvalidKind.unsupported_event_type = "unsupported_event_type"
invalid_value InvalidKind.malformed_payload = "malformed_payload"

pub data PlatformEvent : Type 0 where
  order_event : OrderEvent → PlatformEvent
  access_log : ApiAccessLogEvent → PlatformEvent
  error_log : Envelope → ApplicationErrorLogPayload → PlatformEvent

pub record GeneratedRecord : Type 0 where
  pub topic : String
  pub key : String
  pub value : Json
  pub event_id : ℕ
  pub event_type : EventType
  pub family : EventFamily
  pub injection_kind : InjectionKind
  pub invalid_kind : Option InvalidKind

-- the rates that the factory reads
pub record GeneratorOptions : Type 0 where
  pub order_ratio : ℕ
  pub application_error_ratio : ℕ
  pub invalid_rate : ℕ
  pub stale_rate : ℕ
  pub duplicate_rate : ℕ
  -- in microseconds
  pub stale_time : ℕ
