-- ===== src/DataPlatform/CostPolicy.antt =====
-- bigquery_cost_policy.py: the cost policy of the models, and its decision on one estimate.
pub mod Evaluation
pub mod Clean
pub mod Gate
pub mod Loading
use Prim.Native.String.{◌++◌ as concat}
use kafka_order_event_platfo.Prelude.{
  ℕ, String, Bool, true, false, not, ◌&&◌, ◌||◌, Option, none, some, List, [], ◌∷◌, ◌++◌, ◌==◌,
  string_eq, if◌then◌else◌, any,
}
use kafka_order_event_platfo.Prelude.Int.{ℤ, pos, leb_ℤ, ltb_ℤ, int_eq}
use kafka_order_event_platfo.Dict.{Dict, lookup, insert, update}
use kafka_order_event_platfo.Text.{ends_with}
use kafka_order_event_platfo.DataPlatform.Values.{
  Value, null, bool, int, float, text, array, object, as_object, as_int, as_plain_int, is_true,
  is_blank_value,
}
use kafka_order_event_platfo.DataPlatform.Results.{
  Result, ok, err, Failure, input_error, type_error, attribute_error, ◌>>=◌, ◌>>◌, ensure, index,
}

pub data Decision : Type 0 where
  pass warn block invalid : Decision

pub data Severity : Type 0 where
  error warning info : Severity

pub record CostFinding : Type 0 where
  pub severity : Severity
  pub rule : String
  pub message : String

-- `cost_class` is the value whose `str` the source takes.
pub record CostPolicyResult : Type 0 where
  pub model : String
  pub decision : Decision
  pub estimated_bytes : Option ℤ
  pub warning_threshold_bytes : Value
  pub blocking_threshold_bytes : Value
  pub cost_class : Value
  pub findings : List CostFinding
  pub waiver_applied : Bool

-- `CostPolicyResult.blocked`
abbrev pub blocked : Decision → Bool
blocked block = true
blocked invalid = true
blocked pass = false
blocked warn = false

abbrev pub is_error : CostFinding → Bool
is_error f = elim f.severity [ error ↦ true | warning ↦ false | info ↦ false ]

abbrev pub is_warning : CostFinding → Bool
is_warning f = elim f.severity [ error ↦ false | warning ↦ true | info ↦ false ]

abbrev pub finding : Severity → String → String → List CostFinding
finding severity rule message = record { severity = severity; rule = rule; message = message } ∷ []

-- an error, unless the test holds
abbrev pub require : Bool → String → String → List CostFinding
require test rule message = if test then [] else finding error rule message

-- `d.get(k)`, where that is an int and no bool
abbrev pub plain_int_at : String → Dict String Value → Option ℤ
plain_int_at k d = elim (lookup k d) [ none ↦ none | some v ↦ as_plain_int v ]

-- `d.get(k)`, where that is an int
abbrev pub int_at : String → Dict String Value → Option ℤ
int_at k d = elim (lookup k d) [ none ↦ none | some v ↦ as_int v ]

abbrev pub is_positive : Option ℤ → Bool
is_positive none = false
is_positive (some z) = ltb_ℤ (pos 0) z

-- `value == 1`
abbrev pub equals_one : Option Value → Bool
equals_one none = false
equals_one (some null) = false
equals_one (some (bool b)) = b
equals_one (some (int z)) = z == pos 1
equals_one (some (float none _)) = false
equals_one (some (float (some z) _)) = z == pos 1
equals_one (some (text _)) = false
equals_one (some (array _)) = false
equals_one (some (object _)) = false

abbrev pub object_at : String → Dict String Value → Option (Dict String Value)
object_at k d = elim (lookup k d) [ none ↦ none | some v ↦ as_object v ]

abbrev pub or_else {ℓ} : {A : Type ℓ} → Option A → Failure → Result A
or_else none e = err e
or_else (some a) e = ok a

-- `warning <= 0 or blocking <= warning`, where both are ints
abbrev pub thresholds_hold : Option ℤ → Option ℤ → Bool
thresholds_hold none b = false
thresholds_hold (some w) none = false
thresholds_hold (some w) (some b) = ltb_ℤ (pos 0) w && ltb_ℤ w b

-- the checks of one model's policy
unfoldable pub check_model : String → Value → Result (Unit {0})
check_model name value = do
  entry ←
      or_else (as_object value)
        (input_error (concat "cost policy " (concat name " must be an object")))
  ensure
      (thresholds_hold (plain_int_at "warning_threshold_bytes" entry)
        (plain_int_at "blocking_threshold_bytes" entry))
      (input_error (concat "cost policy " (concat name " thresholds are invalid")))
  ensure (not (is_blank_value (lookup "cost_class" entry)))
      (input_error (concat "cost policy " (concat name " requires cost_class")))

unfoldable pub check_models : Dict String Value → Result (Unit {0})
unfolding check_model
check_models [] = ok tt
check_models ((name, value) ∷ rest) = check_model name value >> check_models rest

-- `load_cost_policy`, of the object that the file holds
unfoldable pub load_cost_policy : Dict String Value → Result (Dict String Value)
unfolding check_models
load_cost_policy policy = do
  ensure (equals_one (lookup "schema_version" policy))
      (input_error "cost policy requires schema_version=1 and default")
  _ ←
      or_else (object_at "default" policy)
        (input_error "cost policy requires schema_version=1 and default")
  models ← or_else (object_at "models" policy) (input_error "cost policy models must be an object")
  default ← index "default" policy
  check_models (update (insert "default" default []) models)
  ok policy
