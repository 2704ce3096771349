-- ===== src/Consumer/Log/Processor.antt =====
-- `decode_access_log_event` and `LogMessageProcessor` of consumer/log.py.
use Prim.Native.String.{◌++◌}
use kafka_order_event_platfo.Prelude.{
  String, Bool, List, ◌⊎◌, inl, inr, if◌then◌else◌, ◌==◌, string_eq,
}
use kafka_order_event_platfo.Text.{take_chars}
use kafka_order_event_platfo.Outcome.{
  Outcome, Exec, ok, raised, permanent, value_error, PermanentMessageError, pure, raise, ◌>>=◌,
  ◌>>◌,
}
use kafka_order_event_platfo.Models.Json.{Json, object}
use kafka_order_event_platfo.Models.Event.{ApiAccessLogEvent}
use kafka_order_event_platfo.Models.Message.{Bytes, KafkaMessage}
use kafka_order_event_platfo.Metrics.LogAggregation.{add}
use kafka_order_event_platfo.Consumer.Offsets.{complete}
use kafka_order_event_platfo.Consumer.World.{read_clock}
use kafka_order_event_platfo.Consumer.Errors.{
  Codec, decode_json_value, safe_validation_message, permanent_error, get_field, or_null, or_empty,
}
use kafka_order_event_platfo.Consumer.Order.{ConsumerSettings, coordinate_of, send_to_dlq}
use kafka_order_event_platfo.Consumer.Log.State.{LogState, on_world, on_buffer, on_offsets}

pub data LogProcessingResult : Type 0 where
  buffered duplicate_buffered dlqed : LogProcessingResult

-- `decoded.get("event_type")`, for an object
abbrev pub event_type_field : Json → Json
event_type_field (object fields) = or_null (get_field "event_type" fields)
event_type_field _ = Json.null

-- `event_type is not None and event_type != EventType.API_ACCESS_LOG.value`
abbrev pub is_unsupported : Json → Bool
is_unsupported Json.null = Bool.false
is_unsupported (Json.text s) = if s == "api_access_log" then Bool.false else Bool.true
is_unsupported _ = Bool.true

module _ (codec : Codec) where
  abbrev pub validated_log :
      Json → List (List String × String) ⊎ ApiAccessLogEvent → Outcome ApiAccessLogEvent
  validated_log decoded (inl errors) =
      permanent_error "ValidationError"
        (safe_validation_message errors "application log validation failed") decoded
  validated_log decoded (inr event) = ok event

  abbrev pub validate_log : Json → Outcome ApiAccessLogEvent
  validate_log decoded =
      if is_unsupported (event_type_field decoded)
      then permanent_error "UnsupportedEventType"
          ("event_type "
            ++ (take_chars 100 (codec.str (event_type_field decoded))
                ++ " is not supported by log metrics"))
          decoded
      else validated_log decoded (codec.validate_access_log decoded)

  abbrev pub decoded_log : Outcome Json → Outcome ApiAccessLogEvent
  decoded_log (ok decoded) = validate_log decoded
  decoded_log (raised e) = raised e

  unfoldable pub decode_access_log_event : Bytes → Outcome ApiAccessLogEvent
  decode_access_log_event raw_value = decoded_log (decode_json_value codec raw_value)

  -- `_decoded_for_dlq`, where a payload that does not decode is `None`
  abbrev pub or_no_payload : Outcome Json → Json
  or_no_payload (ok decoded) = decoded
  or_no_payload (raised _) = Json.null

  unfoldable pub conflict : KafkaMessage → PermanentMessageError
  conflict m = record {
    error_type = "DuplicateEventConflict";
    safe_message = "event_id was reused with different metric data";
    decoded_payload = or_no_payload (decode_json_value codec (or_empty m.value));
  }

  -- the body of the `try`
  abbrev pub add_decoded : KafkaMessage → Outcome ApiAccessLogEvent → Exec LogState Bool
  add_decoded m (ok event) = on_buffer (add event (coordinate_of m))
  add_decoded m (raised e) = raise e

  module _ (settings : ConsumerSettings) where
    unfoldable pub publish_dlq : KafkaMessage → PermanentMessageError → Exec LogState (Unit {0})
    publish_dlq m error =
        on_world (read_clock >>= λ failed_at. send_to_dlq codec settings m error failed_at)

    unfoldable pub dead_letter :
        KafkaMessage → PermanentMessageError → Exec LogState LogProcessingResult
    dead_letter m error =
        publish_dlq m error >> (on_offsets (complete (coordinate_of m)) >> pure dlqed)

    -- the `except` clauses and the final `return`
    unfoldable pub settle_add : KafkaMessage → Outcome Bool → Exec LogState LogProcessingResult
    unfolding dead_letter conflict
    settle_add m (ok inserted) = pure (if inserted then buffered else duplicate_buffered)
    settle_add m (raised (permanent error)) = dead_letter m error
    settle_add m (raised (value_error _)) = dead_letter m (conflict m)
    settle_add m (raised e) = raise e

    -- `LogMessageProcessor.process`
    unfoldable pub process : KafkaMessage → Exec LogState LogProcessingResult
    unfolding settle_add
    process m s =
        let (r, t) = add_decoded m (decode_access_log_event (or_empty m.value)) s in
        settle_add m r t
