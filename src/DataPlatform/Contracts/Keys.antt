-- ===== src/DataPlatform/Contracts/Keys.antt =====
-- The tests of a model, _tests_for_model and _business_keys of contracts.py.
use Prim.Native.String.{◌++◌ as concat}
use kafka_order_event_platfo.Prelude.{
  String, Bool, false, ◌||◌, Option, none, some, List, [], ◌∷◌, ◌++◌, any, filter, elem, string_eq,
  if◌then◌else◌,
}
use kafka_order_event_platfo.Dict.{lookup, keys}
use kafka_order_event_platfo.Sorting.{distinct}
use kafka_order_event_platfo.Text.{contains_text}
use kafka_order_event_platfo.DataPlatform.Values.{
  Value, null, bool, int, float, text, array, object, items, entries, as_object, get_object,
  equals_text, is_falsy,
}
use kafka_order_event_platfo.DataPlatform.Results.{Result, ok, err, type_error, ◌>>=◌}
use kafka_order_event_platfo.DataPlatform.Contracts.{Python, Object, Manifest, text_of, get_text}
use package.text.Mathlib.Text.{starts_with}

-- `s in value`
abbrev pub contains : String → Value → Result Bool
contains s (array vs) = ok (any (λ v. equals_text s (some v)) (items vs))
contains s (text t) = ok (contains_text t s)
contains s (object fs) = ok (elem s (keys (entries fs)))
contains s null = err type_error
contains s (bool _) = err type_error
contains s (int _) = err type_error
contains s (float _ _) = err type_error

abbrev pub contains_opt : String → Option Value → Result Bool
contains_opt s none = ok false
contains_opt s (some v) = contains s v

-- `a or b`
abbrev pub or_value : Option Value → Option Value → Option Value
or_value none second = second
or_value (some v) second = if is_falsy v then second else some v

module _ (python : Python) where
  -- `str(column or columns or "model")`
  abbrev pub suffix_of : Option Value → String
  suffix_of none = "model"
  suffix_of (some v) = if is_falsy v then "model" else text_of python v

  unfoldable pub test_name : Object → Object → String
  test_name node metadata =
      let kwargs = get_object "kwargs" metadata in
      let column = or_value (lookup "column_name" node) (lookup "column_name" kwargs) in
      concat (get_text python "name" "unknown" metadata)
        (concat ":" (suffix_of (or_value column (lookup "columns" kwargs))))

  -- `node.get("test_metadata", {})`, where that is a dict
  abbrev pub metadata_of : Object → Option Object
  metadata_of node = elim (lookup "test_metadata" node) [ none ↦ some [] | some v ↦ as_object v ]

  unfoldable pub test_names : Object → List String
  test_names node = elim (metadata_of node) [
    | none ↦ []
    | some metadata ↦ test_name node metadata ∷ []
  ]

  unfoldable pub node_tests : String → Object → Result (List String)
  node_tests id node =
      if equals_text "test" (lookup "resource_type" node)
      then (contains_opt id (lookup "nodes" (get_object "depends_on" node)) >>= λ depends.
          ok (if depends then test_names node else []))
      else ok []

  abbrev pub value_tests : String → Value → Result (List String)
  value_tests id v = elim (as_object v) [ none ↦ ok [] | some node ↦ node_tests id node ]

  unfoldable pub tests_of_nodes : String → Object → Result (List String)
  tests_of_nodes id [] = ok []
  tests_of_nodes id ((_, v) ∷ nodes) = do
    found ← value_tests id v
    rest ← tests_of_nodes id nodes
    ok (found ++ rest)

  -- `_tests_for_model`, a set
  unfoldable pub tests_for_model : Manifest → String → Result (List String)
  tests_for_model manifest id = tests_of_nodes id manifest.nodes >>= λ found. ok (distinct found)

  abbrev pub is_key : String → Bool
  is_key test = starts_with test "unique:" || starts_with test "unique_combination:"

  -- `_business_keys`
  unfoldable pub business_keys : Manifest → String → Result (List String)
  business_keys manifest id = tests_for_model manifest id >>= λ tests. ok (filter is_key tests)
