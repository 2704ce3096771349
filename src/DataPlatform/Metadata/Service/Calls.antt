-- ===== src/DataPlatform/Metadata/Service/Calls.antt =====
-- metadata_service.py: `call`, which validates, bounds, redacts and audits a tool call.
use Prim.Native.String.{◌++◌ as concat}
use kafka_order_event_platfo.Prelude.{
  ℕ, ◌≤◌, ◌*◌, String, Bool, Option, none, some, [], ◌∷◌, leb, length, if◌then◌else◌, ◌≡◌, refl,
  sym, ◌⊎◌, inl, inr, arith,
}
use kafka_order_event_platfo.Dict.{Dict}
use kafka_order_event_platfo.DataPlatform.Values.{Value, text, object}
use kafka_order_event_platfo.DataPlatform.Redaction.{redact}
use kafka_order_event_platfo.DataPlatform.Results.{
  Result, ok, err, Failure, input_error, ◌>>=◌, first_ok, ok_subst,
}
use kafka_order_event_platfo.DataPlatform.Metadata.{
  ToolStatus, ok_status, partial, not_found, not_available, invalid_request, error_status,
  ToolResponse, object_value, texts_value,
}
use kafka_order_event_platfo.DataPlatform.Metadata.Service.{respond}

-- MAX_RESPONSE_BYTES of metadata_security.py
abbrev pub max_response_bytes : ℕ
max_response_bytes = 256 * 1024

-- How the validation and the dispatch of a call end: the tool is unknown, the arguments are
-- refused, the handler answers, it takes too long, or it raises an error that `call` catches, by
-- the name of its class, or another one.
pub data Dispatched : Type 0 where
  unknown_tool : Dispatched
  invalid_arguments : Value → Dispatched
  handled : ToolResponse → Dispatched
  timed_out : Dispatched
  refused : String → Dispatched
  escaped : Failure → Dispatched

-- a line of the audit log; its times are left out
pub record AuditEntry : Type 0 where
  pub tool_name : String
  pub sanitized_arguments : Value
  pub status : ToolStatus
  pub result_size_bytes : ℕ
  pub evidence_count : ℕ
  pub error_category : Option String

pub record Called : Type 0 where
  pub payload : Value
  pub audited : AuditEntry

abbrev pub status_name : ToolStatus → String
status_name ok_status = "ok"
status_name partial = "partial"
status_name not_found = "not_found"
status_name not_available = "not_available"
status_name invalid_request = "invalid_request"
status_name error_status = "error"

module _ (now : ℕ) (casefold : String → String) (iso : ℕ → String) (is_secret : String → Bool)
    (scrub : String → String) (size : Value → ℕ) where
  abbrev pub warned :
      ToolStatus → Dict String Value → String → Option String → ToolResponse × Option String
  warned status contents warning category =
      (respond now casefold iso status contents [] "static_validation" (warning ∷ []), category)

  -- the response and the category of its error
  unfoldable pub response_of : Dispatched → Result (ToolResponse × Option String)
  response_of unknown_tool = ok (warned invalid_request [] "unknown tool" (some "unknown_tool"))
  response_of (invalid_arguments errors) = ok (
      warned invalid_request (("validation_errors", errors) ∷ []) "request schema validation failed"
        (some "validation"))
  response_of (handled response) = ok (response, none)
  response_of timed_out =
      ok (warned error_status [] "request exceeded the configured timeout" (some "timeout"))
  response_of (refused category) = ok (
      warned error_status [] (concat (concat "sanitized " category) " while reading metadata")
        (some category))
  response_of (escaped e) = err e

  -- `response.model_dump(mode="json")`
  abbrev pub dump : ToolResponse → Value
  dump r = object (
      object_value (
        ("status", text (status_name r.status))
        ∷ ("data", object (object_value r.contents))
        ∷ ("evidence", texts_value r.evidence)
        ∷ ("evidence_level", text r.evidence_level)
        ∷ ("warnings", texts_value r.warnings)
        ∷ ("generated_at", text (iso r.generated_at))
        ∷ []))

  -- `len(bounded_json(value).encode("utf-8"))`, where `size` is the length of the dump
  unfoldable pub bounded_size : Value → Result ℕ
  bounded_size v =
      if leb (size (redact is_secret scrub v)) max_response_bytes
      then ok (size (redact is_secret scrub v))
      else err (input_error "tool response exceeds configured size limit")

  abbrev pub too_large : ToolResponse
  too_large =
      respond now casefold iso error_status [] [] "static_validation"
        ("result exceeded configured size limit" ∷ [])

  abbrev pub entry_of : String → Value → ToolResponse → ℕ → Option String → AuditEntry
  entry_of tool arguments r n category = record {
    tool_name = tool;
    sanitized_arguments = redact is_secret scrub arguments;
    status = r.status;
    result_size_bytes = n;
    evidence_count = length r.evidence;
    error_category = category;
  }

  abbrev pub call_with : String → Value → ToolResponse → Option String → Result ℕ → Result Called
  call_with tool arguments r category (ok n) = ok (record {
    payload = redact is_secret scrub (dump r);
    audited = entry_of tool arguments r n category;
  })
  call_with tool arguments r category (err _) = bounded_size (dump too_large) >>= λ n. ok (record {
    payload = dump too_large;
    audited = entry_of tool arguments too_large n (some "result_too_large");
  })

  -- `call`
  unfoldable pub call : String → Value → Dispatched → Result Called
  unfolding response_of bounded_size
  call tool arguments dispatched = response_of dispatched >>= λ (r, category).
      call_with tool arguments r category (bounded_size (redact is_secret scrub (dump r)))

  -- What a call gives back.
  pub record IsAudited (tool : String) (arguments : Value) (c : Called) : Type 0 where
    pub answer : ToolResponse
    pub sent :
        (c.payload ≡ redact is_secret scrub (dump answer))
        ⊎ ((answer ≡ too_large) × (c.payload ≡ dump too_large))
    pub bounded : size (redact is_secret scrub c.payload) ≤ max_response_bytes
    pub named : c.audited.tool_name ≡ tool
    pub hidden : c.audited.sanitized_arguments ≡ redact is_secret scrub arguments
    pub told : c.audited.status ≡ answer.status
    pub sized : c.audited.result_size_bytes ≡ size (redact is_secret scrub c.payload)
    pub counted : c.audited.evidence_count ≡ length answer.evidence

  bounded_size-ok :
      (v : Value) {n : ℕ}
      → bounded_size v ≡ ok n
      → (size (redact is_secret scrub v) ≡ n) × (n ≤ max_response_bytes)
  unfolding bounded_size
  bounded_size-ok v h = ground (arith, h)

  call_with-IsAudited :
      (tool : String) (arguments : Value) (r : ToolResponse) (category : Option String)
      (m : Result ℕ) (c : Called)
      → bounded_size (redact is_secret scrub (dump r)) ≡ m
      → call_with tool arguments r category m ≡ ok c
      → IsAudited tool arguments c
  call_with-IsAudited tool arguments r category (ok n) c e h =
      let (same, small) = bounded_size-ok (redact is_secret scrub (dump r)) e in
      ok_subst (IsAudited tool arguments) h (record {
        answer = r;
        sent = inl refl;
        bounded = omega (arith, same, small);
        named = refl;
        hidden = refl;
        told = refl;
        sized = sym same;
        counted = refl;
      })
  call_with-IsAudited tool arguments r category (err f) c e h =
      let (n, measured, rest) = first_ok (bounded_size (dump too_large)) _ h in
      let (same, small) = bounded_size-ok (dump too_large) measured in
      ok_subst (IsAudited tool arguments) rest (record {
        answer = too_large;
        sent = inr (refl, refl);
        bounded = omega (arith, same, small);
        named = refl;
        hidden = refl;
        told = refl;
        sized = sym same;
        counted = refl;
      })

  -- Let a call return, however the dispatch of it has ended. Then its payload is the redaction of an
  -- answer, or the answer that the result was too large; the payload has at most 256 KiB once it is
  -- redacted and serialized; and the audit log has the tool, the redacted arguments, the status of
  -- that answer, the number of its pieces of evidence and that size.
  pub call-IsAudited :
      (tool : String) (arguments : Value) (dispatched : Dispatched) (c : Called)
      → call tool arguments dispatched ≡ ok c
      → IsAudited tool arguments c
  unfolding call
  call-IsAudited tool arguments dispatched c h =
      let ((r, category), _, rest) = first_ok (response_of dispatched) _ h in
      call_with-IsAudited tool arguments r category (bounded_size (redact is_secret scrub (dump r)))
        c refl rest
