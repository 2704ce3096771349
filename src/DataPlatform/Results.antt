-- ===== src/DataPlatform/Results.antt =====
-- What the tools raise, and results that may be an exception.
use kafka_order_event_platfo.Prelude.{
  String, Bool, none, some, ◌≡◌, refl, ap, subst, string_eq, if◌then◌else◌, arith, ◌⊎◌, inl, inr,
}
use kafka_order_event_platfo.Dict.{Dict, lookup}
use kafka_order_event_platfo.DataPlatform.Values.{Value}

-- The tool's own error with its message, or what Python raises on a value of the wrong shape.
pub data Failure : Type 0 where
  input_error : String → Failure
  key_error : String → Failure
  type_error attribute_error : Failure
  other_error : String → Failure

-- What a function of the tools gives back.
pub data Result {ℓ} (A : Type ℓ) : Type ℓ where
  err : Failure → Result A
  ok : A → Result A

-- `d[k]`
abbrev pub index : String → Dict String Value → Result Value
index k d = elim (lookup k d) [ none ↦ err (key_error k) | some v ↦ ok v ]

-- A test that must hold.
abbrev pub ensure : Bool → Failure → Result (Unit {0})
ensure b e = if b then ok tt else err e

infixl 5 ◌>>=◌ ◌>>◌
abbrev pub ◌>>=◌ {ℓ κ} : {A : Type ℓ} {B : Type κ} → Result A → (A → Result B) → Result B
err e >>= next = err e
ok a >>= next = next a

abbrev pub ◌>>◌ {κ} : {B : Type κ} → Result (Unit {0}) → Result B → Result B
checked >> next = checked >>= λ _. next

Result-cases {ℓ} :
    {A : Type ℓ} (m : Result A) → ((a : A) × (m ≡ ok a)) ⊎ ((e : Failure) × (m ≡ err e))
Result-cases (err e) = inr (e, refl)
Result-cases (ok a) = inl (a, refl)

-- Where a chain returns, its first step has returned, and the rest of it returns.
module _ {ℓ κ} {A : Type ℓ} {B : Type κ} (m : Result A) (next : A → Result B) where
  pub first_ok : {b : B} → (m >>= next) ≡ ok b → (a : A) × (m ≡ ok a) × (next a ≡ ok b)
  first_ok h = elim (Result-cases m) [
    | inl (a, e) ↦ (a, e, ground (arith, h, e))
    | inr (_, e) ↦ absurd (ground (arith, h, e))
  ]

value_or {ℓ} : {A : Type ℓ} → A → Result A → A
value_or d (ok a) = a
value_or d (err e) = d

-- what holds of a result holds of what a function that returns it has returned
pub ok_subst {ℓ κ} : {A : Type ℓ} (P : A → Type κ) {x y : A} → ok x ≡ ok y → P x → P y
unfolding value_or
ok_subst P {x} e p = subst P (ap (value_or x) e) p
