-- ===== src/Consumer/Errors.antt =====
-- consumer/errors.py: permanent message errors, retryable database errors and dead-letter records.
use Prim.Native.String.{◌++◌}
use package.text.Mathlib.Text.{starts_with}
use kafka_order_event_platfo.Prelude.{
  ℕ, String, Bool, true, false, ◌||◌, Option, none, some, List, [], ◌∷◌, ◌⊎◌, if◌then◌else◌, ◌==◌,
  string_eq,
}
use kafka_order_event_platfo.Text.{decimal, join, take_chars, or_text}
use kafka_order_event_platfo.Outcome.{
  Error, Outcome, ok, raised, permanent, PermanentMessageError, operational_error, interface_error,
  dbapi_error, Attribute, missing, text, other_value,
}
use kafka_order_event_platfo.Models.Json.{Json, Fields, object, end, field}
use kafka_order_event_platfo.Models.Event.{Datetime, OrderEvent, ApiAccessLogEvent}
use kafka_order_event_platfo.Models.Message.{
  Bytes, KafkaMessage, DlqMessage, PayloadEncoding, json, utf_8, base64,
}

-- `JSONDecodeError`: message, line and column
pub record JsonFailure : Type 0 where
  pub msg : String
  pub lineno : ℕ
  pub colno : ℕ

-- What `json.loads` does: give a value, raise `JSONDecodeError`, or raise another exception, as the
-- `ValueError` for an integer of too many digits and the `RecursionError` are.
pub data Loaded : Type 0 where
  loaded : Json → Loaded
  malformed : JsonFailure → Loaded
  interrupted : Error → Loaded

-- Codecs of the standard library, and pydantic's validation of the models. A validation that fails
-- lists the location and the message of each error.
pub record Codec : Type 0 where
  pub decode_utf8 : Bytes → Option String
  pub encode_base64 : Bytes → String
  pub loads : String → Loaded
  pub str : Json → String
  -- `str(UUID(s))`, if it does not raise
  pub uuid_text : String → Option String
  pub validate_order : Json → List (List String × String) ⊎ OrderEvent
  pub validate_access_log : Json → List (List String × String) ⊎ ApiAccessLogEvent

abbrev pub permanent_error {ℓ} : {A : Type ℓ} → String → String → Json → Outcome A
permanent_error error_type safe_message decoded_payload = raised (
    permanent (record {
      error_type = error_type;
      safe_message = safe_message;
      decoded_payload = decoded_payload;
    }))

-- `raw or b""`
abbrev pub or_empty : Option Bytes → Bytes
or_empty none = []
or_empty (some b) = b

abbrev details : List (List String × String) → List String
details [] = []
details ((loc, msg) ∷ rest) = (join "." loc ++ (": " ++ msg)) ∷ details rest

unfoldable pub safe_validation_message : List (List String × String) → String → String
safe_validation_message errors fallback =
    or_text (take_chars 1000 (join "; " (details errors))) fallback

-- `getattr(original, "sqlstate", None) or getattr(original, "pgcode", None)`
abbrev pub or_attribute : Attribute → Attribute → Attribute
or_attribute missing b = b
or_attribute (text s) b = if s == "" then b else text s
or_attribute (other_value truthy) b = if truthy then other_value truthy else b

abbrev pub is_temporary_state : Attribute → Bool
is_temporary_state missing = false
is_temporary_state (text s) = starts_with s "08" || (s == "40001" || (s == "40P01" || s == "55P03"))
is_temporary_state (other_value _) = false

unfoldable pub is_retryable_database_error : Error → Bool
is_retryable_database_error operational_error = true
is_retryable_database_error interface_error = true
is_retryable_database_error (dbapi_error e) =
    e.connection_invalidated || is_temporary_state (or_attribute e.sqlstate e.pgcode)
is_retryable_database_error _ = false

-- `payload.get(name)`
abbrev pub get_field : String → Fields → Option Json
get_field name end = none
get_field name (field key value rest) = if key == name then some value else get_field name rest

abbrev pub or_null : Option Json → Json
or_null none = Json.null
or_null (some value) = value

module _ (codec : Codec) where
  abbrev pub parsed : Loaded → Outcome Json
  parsed (malformed e) =
      permanent_error "JSONDecodeError"
        (e.msg ++ (" at line " ++ (decimal e.lineno ++ (" column " ++ decimal e.colno)))) Json.null
  parsed (loaded value) = ok value
  parsed (interrupted e) = raised e

  abbrev pub decoded_text : Option String → Outcome Json
  decoded_text none = permanent_error "JSONDecodeError" "payload is not valid UTF-8" Json.null
  decoded_text (some s) = parsed (codec.loads s)

  unfoldable pub decode_json_value : Bytes → Outcome Json
  decode_json_value raw_value = decoded_text (codec.decode_utf8 raw_value)

  unfoldable pub extract_event_id : Json → Option String
  extract_event_id (object fields) =
      codec.uuid_text (codec.str (or_null (get_field "event_id" fields)))
  extract_event_id _ = none

  -- bytes as text: UTF-8 if they are, else base64
  abbrev pub as_text : Bytes → Option String → String
  as_text raw (some s) = s
  as_text raw none = codec.encode_base64 raw

  abbrev pub raw_payload : Bytes → Option String → Json × PayloadEncoding
  raw_payload raw (some s) = (Json.text s, utf_8)
  raw_payload raw none = (Json.text (codec.encode_base64 raw), base64)

  -- Python's `None` and a decoded `null` are one value.
  abbrev pub payload_of : Json → Bytes → Option String → Json × PayloadEncoding
  payload_of Json.null raw utf8 = raw_payload raw utf8
  payload_of decoded raw utf8 = (decoded, json)

  abbrev pub key_of : Option String → KafkaMessage → String
  key_of (some id) m = id
  key_of none m = m.topic ++ (":" ++ (decimal m.partition ++ (":" ++ decimal m.offset)))

  unfoldable pub build_dlq_message :
      KafkaMessage → PermanentMessageError → String → Datetime → String × DlqMessage
  unfolding extract_event_id
  build_dlq_message m error consumer_group failed_at =
      let raw_value = or_empty m.value in
      let (payload, encoding) =
        payload_of error.decoded_payload raw_value (codec.decode_utf8 raw_value) in
      let raw_key = or_empty m.key in
      (
        key_of (extract_event_id error.decoded_payload) m,
        record {
          failed_at = failed_at;
          error_type = error.error_type;
          error_message = error.safe_message;
          original_topic = m.topic;
          original_partition = m.partition;
          original_offset = m.offset;
          consumer_group = consumer_group;
          original_key = as_text raw_key (codec.decode_utf8 raw_key);
          original_payload = payload;
          original_payload_encoding = encoding;
        },
      )
