-- ===== src/Generator/Factory/Mutations.antt =====
-- The invalid records of generator/factory.py.
use kafka_order_event_platfo.Prelude.{
  String, Bool, true, false, Option, none, some, List, [], ◌∷◌, if◌then◌else◌, ◌==◌, string_eq, ◌≡◌,
  refl, arith,
}
use text.Mathlib.TextEquality.{eq_iff}
use kafka_order_event_platfo.Outcome.{Outcome, ok, raised, value_error, key_error}
use kafka_order_event_platfo.Models.Json.{
  Json, Fields, object, array, number, nil, cons, end, field,
}
use kafka_order_event_platfo.Models.Event.{
  EventType, order_created, order_paid, order_cancelled, payment_failed, api_access_log,
  application_error_log,
}
use kafka_order_event_platfo.Consumer.Errors.{get_field}
use kafka_order_event_platfo.Generator.Records.{
  InvalidKind, missing_required_field, negative_amount, invalid_currency, invalid_channel,
  invalid_http_method, invalid_status_code, unsupported_event_type, malformed_payload,
}

abbrev pub amount_kinds : List InvalidKind
amount_kinds = negative_amount ∷ invalid_currency ∷ []

unfoldable pub invalid_kinds_for : EventType → List InvalidKind
invalid_kinds_for order_created =
    missing_required_field ∷ unsupported_event_type ∷ malformed_payload ∷ negative_amount
    ∷ invalid_currency ∷ invalid_channel ∷ []
invalid_kinds_for order_paid =
    missing_required_field ∷ unsupported_event_type ∷ malformed_payload ∷ negative_amount
    ∷ invalid_currency ∷ []
invalid_kinds_for payment_failed =
    missing_required_field ∷ unsupported_event_type ∷ malformed_payload ∷ negative_amount
    ∷ invalid_currency ∷ []
invalid_kinds_for api_access_log =
    missing_required_field ∷ unsupported_event_type ∷ malformed_payload ∷ invalid_http_method
    ∷ invalid_status_code ∷ []
invalid_kinds_for order_cancelled =
    missing_required_field ∷ unsupported_event_type ∷ malformed_payload ∷ []
invalid_kinds_for application_error_log =
    missing_required_field ∷ unsupported_event_type ∷ malformed_payload ∷ []

-- `d[name] = value`
unfoldable pub set_field : String → Json → Fields → Fields
set_field name value end = field name value end
set_field name value (field key old rest) =
    let later = set_field name value rest in
    if key == name then field key value rest else field key old later

unfoldable pub drop_field : String → Fields → Fields
drop_field name end = end
drop_field name (field key value rest) =
    let later = drop_field name rest in if key == name then later else field key value later

abbrev pub has_field : String → Fields → Bool
has_field name fields = elim (get_field name fields) [ none ↦ false | some _ ↦ true ]

-- `payload.pop(field)`
abbrev pub pop_field : String → Fields → Outcome Fields
pop_field name payload =
    if has_field name payload then ok (drop_field name payload) else raised key_error

abbrev pub required_field : Fields → String
required_field payload = if has_field "order_id" payload then "order_id" else "request_id"

-- what becomes of a payload that is an object
unfoldable pub mutate_payload : InvalidKind → Fields → Outcome Fields
unfolding drop_field set_field
mutate_payload missing_required_field payload = pop_field (required_field payload) payload
mutate_payload negative_amount payload = ok (set_field "amount" (Json.text "-1.00") payload)
mutate_payload invalid_currency payload = ok (set_field "currency" (Json.text "EUR") payload)
mutate_payload invalid_channel payload = ok (set_field "channel" (Json.text "store") payload)
mutate_payload invalid_http_method payload =
    ok (set_field "http_method" (Json.text "TRACE") payload)
mutate_payload invalid_status_code payload = ok (set_field "status_code" (number "700") payload)
mutate_payload unsupported_event_type payload = ok payload
mutate_payload malformed_payload payload = ok payload

abbrev pub put_payload : Fields → Outcome Fields → Outcome Fields
put_payload value (ok payload) = ok (set_field "payload" (object payload) value)
put_payload value (raised e) = raised e

-- `if not isinstance(payload, dict): raise`, then the mutation of the payload
abbrev pub mutate_object : InvalidKind → Fields → Option Json → Outcome Fields
mutate_object kind value (some (object payload)) = put_payload value (mutate_payload kind payload)
mutate_object kind value _ =
    raised (value_error "valid event payload must be an object before invalid mutation")

unfoldable pub mutate_invalid : InvalidKind → Fields → Outcome Fields
unfolding mutate_payload set_field
mutate_invalid unsupported_event_type value =
    ok (set_field "event_type" (Json.text "unsupported_event_type") value)
mutate_invalid malformed_payload value =
    ok (set_field "payload" (array (cons (Json.text "malformed") nil)) value)
mutate_invalid kind value = mutate_object kind value (get_field "payload" value)

get_field-set_field :
    (name key : String) (v : Json) (fields : Fields)
    → get_field name (set_field key v fields)
      ≡ (if key == name then some v else get_field name fields)
unfolding set_field
get_field-set_field name key v end = refl
get_field-set_field name key v (field k old rest) =
    ground
      (arith, eq_iff k key, eq_iff k name, eq_iff key name, get_field-set_field name key v rest)

put_payload_keeps :
    (name : String) (value mutated : Fields) (r : Outcome Fields)
    → ("payload" == name) ≡ false
    → put_payload value r ≡ ok mutated
    → get_field name mutated ≡ get_field name value
put_payload_keeps name value mutated (ok payload) other h =
    ground (arith, h, other, get_field-set_field name "payload" (object payload) value)
put_payload_keeps name value mutated (raised e) other h = ground (arith, h)

mutate_object_keeps :
    (name : String) (kind : InvalidKind) (value mutated : Fields) (found : Option Json)
    → ("payload" == name) ≡ false
    → mutate_object kind value found ≡ ok mutated
    → get_field name mutated ≡ get_field name value
mutate_object_keeps name kind value mutated (some (object payload)) other h =
    put_payload_keeps name value mutated (mutate_payload kind payload) other h
mutate_object_keeps name kind value mutated (some Json.null) other h = ground (arith, h)
mutate_object_keeps name kind value mutated (some (Json.bool b)) other h = ground (arith, h)
mutate_object_keeps name kind value mutated (some (number n)) other h = ground (arith, h)
mutate_object_keeps name kind value mutated (some (Json.text t)) other h = ground (arith, h)
mutate_object_keeps name kind value mutated (some (array l)) other h = ground (arith, h)
mutate_object_keeps name kind value mutated none other h = ground (arith, h)

-- Whatever the kind: a mutation that returns changes no field of the event but its type and its
-- payload, so an invalid record still has its identifier and its time.
pub mutate_invalid-keeps :
    (name : String) (kind : InvalidKind) (value mutated : Fields)
    → ("event_type" == name) ≡ false
    → ("payload" == name) ≡ false
    → mutate_invalid kind value ≡ ok mutated
    → get_field name mutated ≡ get_field name value
unfolding mutate_invalid
mutate_invalid-keeps name unsupported_event_type value mutated type payload h = ground (
  arith,
  h,
  type,
  get_field-set_field name "event_type" (Json.text "unsupported_event_type") value,
)
mutate_invalid-keeps name malformed_payload value mutated type payload h = ground (
  arith,
  h,
  payload,
  get_field-set_field name "payload" (array (cons (Json.text "malformed") nil)) value,
)
mutate_invalid-keeps name missing_required_field value mutated type payload h =
    mutate_object_keeps name missing_required_field value mutated (get_field "payload" value)
      payload h
mutate_invalid-keeps name negative_amount value mutated type payload h =
    mutate_object_keeps name negative_amount value mutated (get_field "payload" value) payload h
mutate_invalid-keeps name invalid_currency value mutated type payload h =
    mutate_object_keeps name invalid_currency value mutated (get_field "payload" value) payload h
mutate_invalid-keeps name invalid_channel value mutated type payload h =
    mutate_object_keeps name invalid_channel value mutated (get_field "payload" value) payload h
mutate_invalid-keeps name invalid_http_method value mutated type payload h =
    mutate_object_keeps name invalid_http_method value mutated (get_field "payload" value) payload h
mutate_invalid-keeps name invalid_status_code value mutated type payload h =
    mutate_object_keeps name invalid_status_code value mutated (get_field "payload" value) payload h
