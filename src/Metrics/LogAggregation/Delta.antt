-- ===== src/Metrics/LogAggregation/Delta.antt =====
-- `AggregationKey`, `MetricAggregate`, `utc_minute` and `contribution_for` of
-- metrics/log_aggregation.py.
use kafka_order_event_platfo.Prelude.{
  ℕ, ◌+◌, ◌-◌, ◌%◌, max, String, ◌≡◌, ◌↔◌, Bool, true, ◌&&◌, arith, leb, if◌then◌else◌, Eq, nat_beq,
  nat_beq_iff,
}
use text.Mathlib.Text.{◌==◌ as str_eq}
use text.Mathlib.TextEquality.{eq_iff}
use kafka_order_event_platfo.Models.Event.{Datetime, naive, aware, ApiAccessLogEvent}
use kafka_order_event_platfo.Outcome.{Outcome, ok, raised, value_error}

-- `metric_minute` is in microseconds of UTC
pub record AggregationKey : Type 0 where
  pub metric_minute : ℕ
  pub service : String
  pub endpoint : String

abbrev pub key_beq : AggregationKey → AggregationKey → Bool
key_beq a b =
    nat_beq a.metric_minute b.metric_minute
    && (str_eq a.service b.service && str_eq a.endpoint b.endpoint)

pub key_beq_iff : (a b : AggregationKey) → (key_beq a b ≡ true) ↔ (a ≡ b)
key_beq_iff a b = ground (
  arith,
  nat_beq_iff a.metric_minute b.metric_minute,
  eq_iff a.service b.service,
  eq_iff a.endpoint b.endpoint,
)

instance abbrev pub key_eq : Eq AggregationKey
key_eq = record { beq = key_beq; beq_iff = key_beq_iff }

pub record MetricAggregate : Type 0 where
  pub request_count : ℕ
  pub success_count : ℕ
  pub client_error_count : ℕ
  pub server_error_count : ℕ
  pub response_time_sum_ms : ℕ
  pub max_response_time_ms : ℕ

-- `MetricAggregate()`: the field defaults
abbrev pub no_requests : MetricAggregate
no_requests = record {
  request_count = 0;
  success_count = 0;
  client_error_count = 0;
  server_error_count = 0;
  response_time_sum_ms = 0;
  max_response_time_ms = 0;
}

abbrev pub metric_beq : MetricAggregate → MetricAggregate → Bool
metric_beq a b =
    nat_beq a.request_count b.request_count
    && (nat_beq a.success_count b.success_count
        && (nat_beq a.client_error_count b.client_error_count
            && (nat_beq a.server_error_count b.server_error_count
                && (nat_beq a.response_time_sum_ms b.response_time_sum_ms
                    && nat_beq a.max_response_time_ms b.max_response_time_ms))))

pub metric_beq_iff : (a b : MetricAggregate) → (metric_beq a b ≡ true) ↔ (a ≡ b)
metric_beq_iff a b = ground (
  arith,
  nat_beq_iff a.request_count b.request_count,
  nat_beq_iff a.success_count b.success_count,
  nat_beq_iff a.client_error_count b.client_error_count,
  nat_beq_iff a.server_error_count b.server_error_count,
  nat_beq_iff a.response_time_sum_ms b.response_time_sum_ms,
  nat_beq_iff a.max_response_time_ms b.max_response_time_ms,
)

instance abbrev pub metric_eq : Eq MetricAggregate
metric_eq = record { beq = metric_beq; beq_iff = metric_beq_iff }

unfoldable pub combine : MetricAggregate → MetricAggregate → MetricAggregate
combine a b = record {
  request_count = a.request_count + b.request_count;
  success_count = a.success_count + b.success_count;
  client_error_count = a.client_error_count + b.client_error_count;
  server_error_count = a.server_error_count + b.server_error_count;
  response_time_sum_ms = a.response_time_sum_ms + b.response_time_sum_ms;
  max_response_time_ms = max a.max_response_time_ms b.max_response_time_ms;
}

abbrev pub minute_us : ℕ
minute_us = 60000000

-- UTC has no daylight saving, so cutting off seconds and microseconds is rounding down
unfoldable pub utc_minute : Datetime → Outcome ℕ
utc_minute (naive t) = raised (value_error "metric timestamp must be timezone-aware")
utc_minute (aware t) = ok (t - t % minute_us)

-- `int(lo <= status <= hi)`
abbrev pub indicator : ℕ → ℕ → ℕ → ℕ
indicator lo hi status = if leb lo status && leb status hi then 1 else 0

unfoldable pub delta_for : ApiAccessLogEvent → MetricAggregate
delta_for event =
    let status = event.payload.status_code in
    record {
      request_count = 1;
      success_count = indicator 100 399 status;
      client_error_count = indicator 400 499 status;
      server_error_count = indicator 500 599 status;
      response_time_sum_ms = event.payload.response_time_ms;
      max_response_time_ms = event.payload.response_time_ms;
    }

abbrev pub key_at : ApiAccessLogEvent → Outcome ℕ → Outcome (AggregationKey × MetricAggregate)
key_at event (ok minute) = ok (
  record {
    metric_minute = minute;
    service = event.payload.service;
    endpoint = event.payload.endpoint;
  },
  delta_for event,
)
key_at event (raised e) = raised e

unfoldable pub contribution_for : ApiAccessLogEvent → Outcome (AggregationKey × MetricAggregate)
unfolding utc_minute delta_for
contribution_for event = key_at event (utc_minute event.event_time)
