-- ===== src/Tests/Incidents.antt =====
-- Examples for the diagnosis of incidents: one tool of eight fails, and Kafka lags.
use kafka_order_event_platfo.Prelude.{
  String, none, some, ◌≡◌, refl, All, ◌==◌, string_eq, if◌then◌else◌,
}
use kafka_order_event_platfo.Prelude.Int.{pos}
use kafka_order_event_platfo.Dict.{Dict}
use kafka_order_event_platfo.Text.{contains_text}
use kafka_order_event_platfo.Sorting.{sorted}
use kafka_order_event_platfo.DataPlatform.Values.{Value, nil, cons, end, field, entries}
use kafka_order_event_platfo.DataPlatform.Redaction.{redact}
use kafka_order_event_platfo.DataPlatform.Redaction.Patterns.{is_secret_key, scrub}
use kafka_order_event_platfo.DataPlatform.Redaction.Places.{IsRedacted}
use kafka_order_event_platfo.DataPlatform.Redaction.Paths.{redact-IsRedacted}
use kafka_order_event_platfo.DataPlatform.Results.{ok}
use kafka_order_event_platfo.DataPlatform.Incidents.{
  IncidentAlert, IncidentReport, consumer_lag, high, validate_identity,
}
use kafka_order_event_platfo.DataPlatform.Incidents.Tools.{
  Client, answered, failed, ToolCall, calls, asset_text, collect,
}
use kafka_order_event_platfo.DataPlatform.Incidents.Inventory.{DiagnosisCodec, inventory}
use kafka_order_event_platfo.DataPlatform.Incidents.Correlation.{
  facts, correlate, explain, reject, unknowns_of,
}
use kafka_order_event_platfo.DataPlatform.Incidents.Diagnosis.{
  diagnose, is_degraded, closing_states, affected_assets, summary_of, recommendations,
  backfill_plan, validation_plan,
}
use kafka_order_event_platfo.DataPlatform.Incidents.Diagnosis.States.{IsHistory, diagnose-IsHistory}
use kafka_order_event_platfo.DataPlatform.Incidents.Diagnosis.Cited.{IsCited, diagnose-IsCited}
use kafka_order_event_platfo.DataPlatform.Incidents.Diagnosis.Failing.{
  Fails, IsReported, diagnose-IsReported,
}

abbrev lag_alert : IncidentAlert
lag_alert = record {
  incident_id = "INC-001";
  alert_type = consumer_lag;
  asset = some "mart_orders";
  pipeline_name = none;
  observed_at = 1000;
  severity = high;
  message = "lag is rising";
}

abbrev plain_codec : DiagnosisCodec
plain_codec = record {
  str_of = λ v. "value";
  from_iso = λ s. none;
  dumps = λ v. "{}";
  is_secret = λ k. k == "password";
  scrub = λ s. s;
  casefold = λ s. s;
  isoformat = λ n. "2026-01-01T00:00:00+00:00";
}

abbrev lag_response : Dict String Value
lag_response = entries (
    field "status" (Value.text "ok") (
      field "data"
        (Value.object (
          field "partitions"
            (Value.array (cons (Value.object (field "lag" (Value.int (pos 40)) end)) nil)) end))
        end))

abbrev flaky : Client
flaky tool arguments =
    if tool == "get_quality_status"
    then failed "TimeoutError"
    else if tool == "get_consumer_lag"
    then answered lag_response
    else answered (entries (field "status" (Value.text "ok") end))

accepted : validate_identity (λ s. s) lag_alert ≡ ok lag_alert
unfolding validate_identity contains_text
accepted = refl

diagnosed : (r : IncidentReport) × (diagnose plain_codec flaky lag_alert ≡ ok r)
unfolding diagnose collect inventory facts correlate explain reject unknowns_of is_degraded
    closing_states affected_assets summary_of recommendations backfill_plan validation_plan sorted
diagnosed = (_, refl)

diagnose-IsHistory_example : IsHistory lag_alert diagnosed.0
diagnose-IsHistory_example = diagnose-IsHistory plain_codec flaky lag_alert diagnosed.1

diagnose-IsCited_example : IsCited diagnosed.0
diagnose-IsCited_example = diagnose-IsCited plain_codec flaky lag_alert diagnosed.1

diagnose-IsReported_example :
    All
      (λ (c : ToolCall). Fails flaky (asset_text lag_alert) c → IsReported c.tool diagnosed.0)
      (calls lag_alert)
diagnose-IsReported_example = diagnose-IsReported plain_codec flaky lag_alert diagnosed.1

abbrev with_secrets : Value
with_secrets = Value.object (
    field "DB_Password" (Value.array (cons (Value.text "hunter2") nil))
      (field "rows" (Value.array (cons (Value.text "Bearer a.b-c") nil)) end))

redact-IsRedacted_example : IsRedacted with_secrets (redact is_secret_key scrub with_secrets)
redact-IsRedacted_example = redact-IsRedacted with_secrets

hides :
    redact is_secret_key scrub with_secrets
    ≡ Value.object (
        field "DB_Password"
          (Value.text "[REDACTED]")
          (field "rows" (Value.array (cons (Value.text "[REDACTED]") nil)) end))
unfolding redact is_secret_key scrub
hides = refl

scrubbed_url : scrub "see https://a.b/c?d=e and Bearer a.b-c" ≡ "see [REDACTED] and [REDACTED]"
unfolding scrub
scrubbed_url = refl
