-- ===== src/Outcome.antt =====
-- Exceptions as values, and calls that change a state and may raise. What a call has written
-- before it raises stays written, so the state comes back beside the exception too.
use kafka_order_event_platfo.Prelude.{ℕ, String, Bool, List, if◌then◌else◌}
use kafka_order_event_platfo.Models.Json.{Json}

-- `PermanentMessageError` of consumer/errors.py; no payload is `None`, which is also what JSON's
-- `null` decodes to
pub record PermanentMessageError : Type 0 where
  pub error_type : String
  pub safe_message : String
  pub decoded_payload : Json

-- `KafkaError.code()`
pub data KafkaErrorCode : Type 0 where
  partition_eof : KafkaErrorCode
  code : ℕ → KafkaErrorCode

-- What `KafkaException` carries in `args`: a `KafkaError` with its `retriable()`, or another value.
pub data KafkaArgument : Type 0 where
  kafka_error : KafkaErrorCode → Bool → KafkaArgument
  other_argument : KafkaArgument

-- An attribute read by `getattr(original, name, None)`: none, text, or another value, which is
-- truthy or not.
pub data Attribute : Type 0 where
  missing : Attribute
  text : String → Attribute
  other_value : Bool → Attribute

-- A `DBAPIError` that is neither `OperationalError` nor `InterfaceError`.
pub record DbapiError : Type 0 where
  pub connection_invalidated : Bool
  pub sqlstate : Attribute
  pub pgcode : Attribute

pub data Error : Type 0 where
  permanent : PermanentMessageError → Error
  value_error : String → Error
  buffer_error timeout_error : Error
  kafka_exception : List KafkaArgument → Error
  operational_error interface_error : Error
  dbapi_error : DbapiError → Error
  retries_exhausted : String → ℕ → Error → Error
  partition_lost : Error
  runtime_error : String → Error
  assertion_error : Error
  key_error index_error : Error

pub data Outcome {ℓ} (A : Type ℓ) : Type ℓ where
  ok : A → Outcome A
  raised : Error → Outcome A

abbrev pub Exec {ℓ κ} : Type ℓ → Type κ → Type (ℓ ⊔ κ)
Exec S A = S → Outcome A × S

module _ {ℓ κ} {S : Type ℓ} {A : Type κ} where
  abbrev pub pure : A → Exec S A
  pure a s = (ok a, s)

  abbrev pub raise : Error → Exec S A
  raise e s = (raised e, s)

  abbrev pub lift : Outcome A → Exec S A
  lift r s = (r, s)

  abbrev pub gets : (S → A) → Exec S A
  gets f s = (ok (f s), s)

infixl 10 ◌>>=◌ ◌>>◌
abbrev pub ◌>>=◌ {ℓ κ ν} :
    {S : Type ℓ} {A : Type κ} {B : Type ν} → Exec S A → (A → Exec S B) → Exec S B
◌>>=◌ m f s = let (r, t) = m s in elim r [ ok a ↦ f a t | raised e ↦ (raised e, t) ]

abbrev pub ◌>>◌ {ℓ κ} : {S : Type ℓ} {B : Type κ} → Exec S (Unit {0}) → Exec S B → Exec S B
m >> k = m >>= λ _. k

abbrev pub modify {ℓ} : {S : Type ℓ} → (S → S) → Exec S (Unit {0})
modify f s = (ok tt, f s)

abbrev pub raise_if {ℓ} : {S : Type ℓ} → Bool → Error → Exec S (Unit {0})
raise_if b e s = (if b then raised e else ok tt, s)
