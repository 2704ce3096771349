-- ===== src/DataPlatform/Contracts.antt =====
-- contracts.py: findings, manifests and what is read from a model.
pub mod Impact
pub mod Keys
pub mod Columns
pub mod Comparison
pub mod Clear
pub mod Kept
pub mod Passed
use kafka_order_event_platfo.Prelude.{
  String, Bool, true, false, not, ◌&&◌, ◌||◌, Option, none, some, List, [], ◌∷◌, any, ◌==◌,
  string_eq, nat_eq, if◌then◌else◌,
}
use kafka_order_event_platfo.Dict.{Dict, lookup}
use kafka_order_event_platfo.DataPlatform.Values.{
  Value, null, bool, int, float, text, array, object, as_object, as_list, get_object, is_true,
  equals_text, strip,
}
use package.text.Mathlib.Text.{starts_with}
use Prim.Native.Char.{code}

pub data Severity : Type 0 where
  blocking manual_review info : Severity

pub data Classification : Type 0 where
  breaking potentially_breaking non_breaking : Classification

pub record ContractFinding : Type 0 where
  pub model : String
  pub column : Option String
  pub change_type : String
  pub severity : Severity
  pub classification : Classification
  pub downstream_impact_paths : List (List String)
  pub evidence : List String

pub data ContractStatus : Type 0 where
  passed blocked previous_state_unavailable : ContractStatus

pub record ContractReport : Type 0 where
  pub status : ContractStatus
  pub findings : List ContractFinding

abbrev pub is_blocking : ContractFinding → Bool
is_blocking f = elim f.severity [ blocking ↦ true | manual_review ↦ false | info ↦ false ]

-- Python's `str` of what is no text, `repr` of a text, `str.lower`, and `==` on JSON values.
pub record Python : Type 0 where
  pub show : Value → String
  pub repr : String → String
  pub lower : String → String
  pub equal : Option Value → Option Value → Bool

abbrev pub Object : Type 0
Object = Dict String Value

-- A manifest, of which the nodes are an object.
pub record Manifest : Type 0 where
  pub nodes : Object
  pub child_map : Object

module _ (python : Python) where
  -- `str(value)`
  abbrev pub text_of : Value → String
  text_of (text s) = s
  text_of null = python.show null
  text_of (bool b) = python.show (bool b)
  text_of (int z) = python.show (int z)
  text_of (float z s) = python.show (float z s)
  text_of (array vs) = python.show (array vs)
  text_of (object fs) = python.show (object fs)

  -- `str(d.get(k, default))`
  abbrev pub get_text : String → String → Object → String
  get_text k default d = elim (lookup k d) [ none ↦ default | some v ↦ text_of v ]

  abbrev pub is_model : Object → Bool
  is_model node = equals_text "model" (lookup "resource_type" node)

  abbrev pub is_published : Object → Bool
  is_published node =
      is_model node && starts_with (get_text "original_file_path" "" node) "models/marts/"

  -- `_published_models`
  unfoldable pub published_models : Object → Dict String Object
  published_models [] = []
  published_models ((id, v) ∷ nodes) =
      let rest = published_models nodes in
      elim (as_object v) [
        | none ↦ rest
        | some node ↦ if is_published node then (id, node) ∷ rest else rest
      ]

  -- `str(column.get("data_type", "")).lower()`
  unfoldable pub type_of : Object → String
  type_of column = python.lower (get_text "data_type" "" column)

-- `column.get(...)`, where what is given may be no object
abbrev pub get_list : Option Value → Option (List Value)
get_list none = some []
get_list (some v) = as_list v

abbrev pub is_not_null : Value → Bool
is_not_null v = elim (as_object v) [
  | none ↦ false
  | some d ↦ equals_text "not_null" (lookup "type" d)
]

abbrev pub first_present : Option Value → Option Value → Option Value
first_present none second = second
first_present (some v) second = some v

abbrev pub any_in : (Value → Bool) → Option (List Value) → Bool
any_in p none = false
any_in p (some vs) = any p vs

-- `_required`
unfoldable pub required : Object → Bool
required column =
    any_in is_not_null (get_list (lookup "constraints" column))
    || any_in (λ v. equals_text "not_null" (some v))
        (get_list (first_present (lookup "data_tests" column) (lookup "tests" column)))

-- `text.split(".", maxsplit=1)[0]`
abbrev pub before_dot : String → String
before_dot String.[] = ""
before_dot (String.◌∷◌ c s) =
    let rest = before_dot s in if code c == 46 then "" else String.◌∷◌ c rest

-- `_grain`
unfoldable pub grain : Python → Object → String
grain python node = strip (before_dot (get_text python "description" "" node))

-- `node.get("contract", {})`, and whether that says `enforced`
unfoldable pub is_enforced : Object → Bool
is_enforced node = is_true (lookup "enforced" (get_object "contract" node))
