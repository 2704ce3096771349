-- ===== src/Generator/Factory/Payloads.antt =====
-- The events that generator/factory.py builds, and their routing. `uuid4` stands for
-- `UUID(int=…, version=4)`, and `dump` for pydantic's `model_dump(mode="json")`.
use Prim.Native.String.{◌++◌}
use kafka_order_event_platfo.Prelude.{ℕ, String, none, some, [], ◌∷◌}
use kafka_order_event_platfo.Text.{decimal}
use kafka_order_event_platfo.Outcome.{Exec, pure, ◌>>=◌}
use kafka_order_event_platfo.Models.Json.{Json}
use kafka_order_event_platfo.Models.Event.{
  Datetime, EventType, event_type, order_created, order_paid, order_cancelled, payment_failed,
  api_access_log, application_error_log, twd, usd, web, ios, android, OrderCreatedPayload,
  OrderPaidPayload, OrderCancelledPayload, PaymentFailedPayload, Envelope, OrderEvent, created,
  paid, cancelled, failed, envelope, get, post, put, patch, delete, head, options,
  ApiAccessLogPayload, ApplicationErrorLogPayload,
}
use kafka_order_event_platfo.Generator.Records.{
  EventFamily, InjectionKind, PlatformEvent, order_event, access_log, error_log, GeneratedRecord,
}
use kafka_order_event_platfo.Generator.Factory.Draws.{
  FactoryState, draw, randint, choice, make_id, make_amount,
}

pub record FactoryCodec : Type 0 where
  pub uuid4 : ℕ → ℕ
  pub dump : PlatformEvent → Json
  pub order_topic : String
  pub log_topic : String

abbrev pub declined : String × String
declined = ("DECLINED", "card declined")

abbrev pub timed_out : String × String
timed_out = ("TIMEOUT", "gateway timeout")

abbrev pub upstream_timeout : String × String
upstream_timeout = ("TimeoutError", "upstream timeout")

abbrev pub unexpected_failure : String × String
unexpected_failure = ("RuntimeError", "unexpected failure")

unfoldable pub order_created_payload : Exec FactoryState OrderCreatedPayload
order_created_payload = do
  order_id ← make_id "ORD" 1000000
  user_id ← make_id "USR" 100000
  product_id ← make_id "PRD" 10000
  quantity ← randint 1 5
  amount ← make_amount
  currency ← choice twd (usd ∷ [])
  channel ← choice web (ios ∷ android ∷ [])
  pure (record {
    order_id = order_id;
    user_id = user_id;
    product_id = product_id;
    quantity = quantity;
    amount = amount;
    currency = currency;
    channel = channel;
  })

unfoldable pub order_paid_payload : Exec FactoryState OrderPaidPayload
order_paid_payload = do
  order_id ← make_id "ORD" 1000000
  user_id ← make_id "USR" 100000
  payment_id ← make_id "PAY" 1000000
  amount ← make_amount
  currency ← choice twd (usd ∷ [])
  payment_method ← choice "credit_card" ("bank_transfer" ∷ "wallet" ∷ [])
  pure (record {
    order_id = order_id;
    user_id = user_id;
    payment_id = payment_id;
    amount = amount;
    currency = currency;
    payment_method = payment_method;
  })

unfoldable pub order_cancelled_payload : Exec FactoryState OrderCancelledPayload
order_cancelled_payload = do
  order_id ← make_id "ORD" 1000000
  user_id ← make_id "USR" 100000
  reason ← choice "customer_request" ("inventory_unavailable" ∷ "payment_timeout" ∷ [])
  pure (record { order_id = order_id; user_id = user_id; cancellation_reason = reason })

unfoldable pub payment_failed_payload : Exec FactoryState PaymentFailedPayload
payment_failed_payload = do
  failure ← choice declined (timed_out ∷ [])
  order_id ← make_id "ORD" 1000000
  user_id ← make_id "USR" 100000
  payment_id ← make_id "PAY" 1000000
  amount ← make_amount
  currency ← choice twd (usd ∷ [])
  pure (record {
    order_id = order_id;
    user_id = user_id;
    payment_id = payment_id;
    amount = amount;
    currency = currency;
    failure_code = failure.0;
    failure_reason = failure.1;
  })

unfoldable pub api_access_payload : String → Exec FactoryState ApiAccessLogPayload
api_access_payload service = do
  endpoint ← choice "/orders" ("/payments" ∷ "/inventory" ∷ [])
  request_id ← make_id "REQ" 10000000
  http_method ← choice get (post ∷ put ∷ patch ∷ delete ∷ head ∷ options ∷ [])
  status_code ← choice 200 (201 ∷ 400 ∷ 404 ∷ 500 ∷ 503 ∷ [])
  response_time_ms ← randint 1 2000
  third ← randint 0 255
  fourth ← randint 1 254
  pure (record {
    request_id = request_id;
    service = service;
    endpoint = endpoint;
    http_method = http_method;
    status_code = status_code;
    response_time_ms = response_time_ms;
    client_ip = "10.0." ++ (decimal third ++ ("." ++ decimal fourth));
  })

unfoldable pub application_error_payload : String → Exec FactoryState ApplicationErrorLogPayload
application_error_payload service = do
  error ← choice upstream_timeout (unexpected_failure ∷ [])
  request_id ← make_id "REQ" 10000000
  endpoint ← choice (some "/orders") (some "/payments" ∷ none ∷ [])
  trace_id ← make_id "TRACE" 10000000
  pure (record {
    request_id = request_id;
    service = service;
    error_type = error.0;
    error_message = error.1;
    endpoint = endpoint;
    stack_trace = none;
    trace_id = some trace_id;
  })

abbrev pub choose_service : Exec FactoryState String
choose_service = choice "order-api" (
    "payment-api" ∷ "user-api" ∷ "inventory-api" ∷ "notification-api" ∷ "gateway-api"
    ∷ "catalog-api" ∷ "auth-api" ∷ "shipping-api" ∷ [])

abbrev pub with_source : ℕ → Datetime → String → Envelope
with_source event_id event_time source = record {
  event_id = event_id;
  event_time = event_time;
  source = source;
}

module _ (codec : FactoryCodec) where
  unfoldable pub build_event : EventType → Datetime → Exec FactoryState PlatformEvent
  build_event order_created t = do
    n ← draw
    payload ← order_created_payload
    pure (order_event (created (with_source (codec.uuid4 n) t "order-api") payload))
  build_event order_paid t = do
    n ← draw
    payload ← order_paid_payload
    pure (order_event (paid (with_source (codec.uuid4 n) t "payment-api") payload))
  build_event order_cancelled t = do
    n ← draw
    payload ← order_cancelled_payload
    pure (order_event (cancelled (with_source (codec.uuid4 n) t "order-api") payload))
  build_event payment_failed t = do
    n ← draw
    payload ← payment_failed_payload
    pure (order_event (failed (with_source (codec.uuid4 n) t "payment-api") payload))
  build_event api_access_log t = do
    n ← draw
    service ← choose_service
    payload ← api_access_payload service
    pure (
        access_log (record { envelope = with_source (codec.uuid4 n) t service; payload = payload }))
  build_event application_error_log t = do
    n ← draw
    service ← choose_service
    payload ← application_error_payload service
    pure (error_log (with_source (codec.uuid4 n) t service) payload)

  abbrev pub order_id_of : OrderEvent → String
  order_id_of (created e p) = p.order_id
  order_id_of (paid e p) = p.order_id
  order_id_of (cancelled e p) = p.order_id
  order_id_of (failed e p) = p.order_id

  unfoldable pub route : PlatformEvent → InjectionKind → GeneratedRecord
  route (order_event event) kind = record {
    topic = codec.order_topic;
    key = order_id_of event;
    value = codec.dump (order_event event);
    event_id = (envelope event).event_id;
    event_type = event_type event;
    family = EventFamily.order;
    injection_kind = kind;
    invalid_kind = none;
  }
  route (access_log event) kind = record {
    topic = codec.log_topic;
    key = event.payload.service;
    value = codec.dump (access_log event);
    event_id = event.event_id;
    event_type = api_access_log;
    family = EventFamily.log;
    injection_kind = kind;
    invalid_kind = none;
  }
  route (error_log e payload) kind = record {
    topic = codec.log_topic;
    key = payload.service;
    value = codec.dump (error_log e payload);
    event_id = e.event_id;
    event_type = application_error_log;
    family = EventFamily.log;
    injection_kind = kind;
    invalid_kind = none;
  }
