-- ===== src/DataPlatform/Redaction.antt =====
-- metadata_security.py: what `redact` removes from a document.
pub mod Patterns
pub mod Places
pub mod Paths
use kafka_order_event_platfo.Prelude.{
  String, Bool, true, ◌≡◌, refl, if◌then◌else◌, arith, Bool-cases, inl, inr,
}
use kafka_order_event_platfo.DataPlatform.Values.{
  Value, null, bool, int, float, text, array, object, Items, nil, cons, Fields, end, field,
}

-- `is_secret` is the search for SECRET_KEY in a key, and `scrub` the two substitutions, of CONNECTION
-- and of BEARER, in a text: those of Patterns.
module _ (is_secret : String → Bool) (scrub : String → String) where
  unfoldable mutual
    pub redact : Value → Value
    redact null = null
    redact (bool b) = bool b
    redact (int z) = int z
    redact (float z r) = float z r
    redact (text s) = text (scrub s)
    redact (array vs) = array (redact_items vs)
    redact (object fs) = object (redact_fields fs)

    pub redact_items : Items → Items
    redact_items nil = nil
    redact_items (cons v vs) = cons (redact v) (redact_items vs)

    pub redact_fields : Fields → Fields
    redact_fields end = end
    redact_fields (field k v fs) =
        let shown = redact v in
        field k (if is_secret k then text "[REDACTED]" else shown) (redact_fields fs)
