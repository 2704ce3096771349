-- ===== src/DataPlatform/Contracts/Comparison.antt =====
-- compare_contracts of contracts.py.
use Prim.Native.String.{◌++◌ as concat}
use kafka_order_event_platfo.Prelude.{
  String, Bool, true, false, not, ◌&&◌, Option, none, some, List, [], ◌∷◌, map, filter, any, all,
  elem, ◌==◌, string_eq, if◌then◌else◌,
}
use kafka_order_event_platfo.Dict.{lookup}
use kafka_order_event_platfo.Sorting.{sorted}
use kafka_order_event_platfo.Text.{le_text, join}
use kafka_order_event_platfo.DataPlatform.Values.{Value, null, as_object, get_object}
use kafka_order_event_platfo.DataPlatform.Results.{Result, ok, err, input_error, ◌>>=◌}
use kafka_order_event_platfo.DataPlatform.Contracts.{
  Python, Object, Manifest, ContractFinding, ContractReport, passed, blocked,
  previous_state_unavailable, is_blocking, published_models, text_of, grain, is_enforced,
}
use kafka_order_event_platfo.DataPlatform.Contracts.Keys.{tests_for_model, business_keys}
use kafka_order_event_platfo.DataPlatform.Contracts.Columns.{
  report_if, collect, block, review, compare_columns,
}

-- `_load_manifest`, given the JSON document of the file, where it can be read
unfoldable pub load_manifest : Option Value → Result Manifest
load_manifest none = err (input_error "cannot read manifest")
load_manifest (some v) = elim (as_object v) [
  | none ↦ err (input_error "manifest must contain an object-valued nodes field")
  | some d ↦ elim (lookup "nodes" d) [
    | none ↦ err (input_error "manifest must contain an object-valued nodes field")
    | some n ↦ elim (as_object n) [
      | none ↦ err (input_error "manifest must contain an object-valued nodes field")
      | some nodes ↦ ok (record { nodes = nodes; child_map = get_object "child_map" d })
    ]
  ]
]

abbrev pub is_subset : List String → List String → Bool
is_subset xs ys = all (λ x. elem x ys) xs

abbrev pub is_nonempty : List String → Bool
is_nonempty [] = false
is_nonempty (_ ∷ _) = true

module _ (python : Python) where
  -- `f"{value}"`, where `None` stands for a missing value
  abbrev pub text_of_opt : Option Value → String
  text_of_opt none = text_of python null
  text_of_opt (some v) = text_of python v

  -- `f"{sorted(tests)}"`
  abbrev pub list_text : List String → String
  list_text tests = concat "[" (concat (join ", " (map python.repr (sorted le_text tests))) "]")

  module _ (previous current : Manifest) where
    abbrev pub report_contract : String → Object → Object → Result (List ContractFinding)
    report_contract id old_node new_node =
        report_if (is_enforced old_node && not (is_enforced new_node)) (
          block python previous id old_node none "contract_removed"
            ("previous contract was enforced; current contract is not" ∷ []))

    abbrev pub report_grain : String → Object → Object → Result (List ContractFinding)
    report_grain id old_node new_node =
        report_if (not (grain python old_node == grain python new_node)) (
          block python previous id old_node none "grain_changed" (
            concat "previous=" (grain python old_node)
            ∷ concat "current=" (grain python new_node)
            ∷ []))

    unfoldable pub report_keys : String → Object → Result (List ContractFinding)
    report_keys id old_node = do
      old_keys ← business_keys python previous id
      new_keys ← business_keys python current id
      report_if (not (is_subset old_keys new_keys && is_subset new_keys old_keys)) (
          block python previous id old_node none "business_key_changed"
            (concat "previous=" (list_text old_keys) ∷ concat "current=" (list_text new_keys) ∷ []))

    abbrev pub removed_from : List String → List String → List String
    removed_from new_tests old_tests =
        sorted le_text (filter (λ t. not (elem t new_tests)) old_tests)

    unfoldable pub report_tests : String → Object → Result (List ContractFinding)
    report_tests id old_node = do
      old_tests ← tests_for_model python previous id
      new_tests ← tests_for_model python current id
      report_if (is_nonempty (removed_from new_tests old_tests)) (
          block python previous id old_node none "required_test_removed"
            (removed_from new_tests old_tests))

    -- a changed entry of the config or the metadata
    abbrev pub report_entry :
        String → Object → String → String → String → Object → Result (List ContractFinding)
    report_entry id old_node field key change_type new_node =
        let before = lookup key (get_object field old_node) in
        let after = lookup key (get_object field new_node) in
        report_if (not (python.equal before after)) (
          review python previous id new_node none change_type
            (concat "previous=" (text_of_opt before) ∷ concat "current=" (text_of_opt after) ∷ []))

    -- a model that both manifests publish
    unfoldable pub compare_nodes : String → Object → Object → Result (List ContractFinding)
    compare_nodes id old_node new_node = collect (
        compare_columns python previous id old_node new_node
        ∷ report_contract id old_node new_node
        ∷ report_grain id old_node new_node
        ∷ report_keys id old_node
        ∷ report_tests id old_node
        ∷ report_entry id old_node "config" "materialized" "materialization_changed" new_node
        ∷ report_entry id old_node "config" "unique_key" "incremental_key_changed" new_node
        ∷ report_entry id old_node "meta" "owner" "owner_changed" new_node
        ∷ report_entry id old_node "meta" "sla" "slo_changed" new_node
        ∷ [])

    abbrev pub compare_found : String → Object → Option Object → Result (List ContractFinding)
    compare_found id old_node none = report_if true (
        block python previous id old_node none "published_model_removed"
          ("published model exists in previous manifest only" ∷ []))
    compare_found id old_node (some new_node) = compare_nodes id old_node new_node

    unfoldable pub compare_model : String × Object → Result (List ContractFinding)
    compare_model (id, old_node) =
        compare_found id old_node (lookup id (published_models python current.nodes))

    -- the order of the findings
    abbrev pub column_text : Option String → String
    column_text none = ""
    column_text (some c) = c

    abbrev pub le_finding : ContractFinding → ContractFinding → Bool
    le_finding x y =
        let by_column = le_text (column_text x.column) (column_text y.column) in
        let by_change =
          if x.change_type == y.change_type
          then by_column
          else le_text x.change_type y.change_type in
        if x.model == y.model then by_change else le_text x.model y.model

    abbrev pub report_of : List ContractFinding → ContractReport
    report_of findings =
        let ordered = sorted le_finding findings in
        record { status = if any is_blocking ordered then blocked else passed; findings = ordered }

    unfoldable pub compare_manifests : Result ContractReport
    compare_manifests =
        collect (map compare_model (published_models python previous.nodes)) >>= λ findings.
        ok (report_of findings)

  -- a previous manifest that is no file is unavailable
  abbrev pub compare_with : Manifest → Option (Option Value) → Result ContractReport
  compare_with current none = ok (record { status = previous_state_unavailable; findings = [] })
  compare_with current (some document) =
      load_manifest document >>= λ previous. compare_manifests previous current

  unfoldable pub compare_contracts : Option (Option Value) → Option Value → Result ContractReport
  compare_contracts previous_document document =
      load_manifest document >>= λ current. compare_with current previous_document
