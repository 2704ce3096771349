-- ===== src/Tests/Contracts.antt =====
-- Examples for the contracts: a report that passes, one that blocks, and a cycle of models.
use kafka_order_event_platfo.Prelude.{string_eq, true, some, [], ◌∷◌, ◌≡◌, refl}
use kafka_order_event_platfo.Dict.{lookup}
use kafka_order_event_platfo.Sorting.{sorted}
use kafka_order_event_platfo.Text.{ends_with, join}
use kafka_order_event_platfo.DataPlatform.Values.{
  Value, Fields, text, array, object, nil, cons, end, field, entries,
}
use kafka_order_event_platfo.DataPlatform.Results.{ok}
use kafka_order_event_platfo.DataPlatform.Contracts.{
  Python, Manifest, passed, blocked, blocking, breaking, published_models, type_of, required, grain,
  is_enforced,
}
use kafka_order_event_platfo.DataPlatform.Contracts.Impact.{
  add_child, visit_children, expand, search_from, downstream_paths,
}
use kafka_order_event_platfo.DataPlatform.Contracts.Impact.Ends.{
  IsSearched, downstream_paths-IsSearched,
}
use kafka_order_event_platfo.DataPlatform.Contracts.Keys.{
  test_name, test_names, node_tests, tests_of_nodes, tests_for_model, business_keys,
}
use kafka_order_event_platfo.DataPlatform.Contracts.Columns.{
  report_if, collect, finding, rename_pair, report_rename, report_removed, compare_column,
  report_columns, compare_columns,
}
use kafka_order_event_platfo.DataPlatform.Contracts.Comparison.{
  load_manifest, report_keys, report_tests, compare_nodes, compare_model, compare_manifests,
  compare_contracts,
}
use kafka_order_event_platfo.DataPlatform.Contracts.Passed.{IsFound, compare_contracts-IsFound}

abbrev pub python : Python
python = record { show = λ _. ""; repr = λ s. s; lower = λ s. s; equal = λ _ _. true }

abbrev column : Fields
column = field "data_type" (text "integer") end

abbrev more : Fields
more = field "sale_id" (object column) (field "note" (object column) end)

abbrev pub less : Fields
less = field "note" (object column) end

abbrev pub model : Fields → Fields
model columns = field "resource_type" (text "model") (
    field "original_file_path" (text "models/marts/sales.sql")
      (field "name" (text "sales") (field "columns" (object columns) end)))

abbrev pub manifest_value : Fields → Value
manifest_value columns = object (
    field "nodes" (object (field "model.sales" (object (model columns)) end)) (
      field "child_map" (object (field "model.sales" (array (cons (text "model.sales") nil)) end))
        end))

abbrev pub manifest : Fields → Manifest
manifest columns = record {
  nodes = entries (field "model.sales" (object (model columns)) end);
  child_map = entries (field "model.sales" (array (cons (text "model.sales") nil)) end);
}

cycle_paths :
    downstream_paths python (manifest less) "model.sales" ≡ ok (("sales" ∷ "sales" ∷ []) ∷ [])
unfolding downstream_paths search_from expand visit_children add_child sorted
cycle_paths = refl

downstream_paths-IsSearched_example :
    IsSearched python (manifest less) (downstream_paths python (manifest less) "model.sales")
downstream_paths-IsSearched_example =
    downstream_paths-IsSearched python (manifest less) "model.sales"

pub loaded :
    (columns : Fields) → load_manifest (some (manifest_value columns)) ≡ ok (manifest columns)
unfolding load_manifest
loaded columns = refl

same_passes :
    compare_contracts python (some (some (manifest_value less))) (some (manifest_value less))
    ≡ ok (record { status = passed; findings = [] })
unfolding compare_contracts load_manifest compare_manifests compare_model compare_nodes report_keys
    report_tests compare_columns report_columns compare_column report_removed report_rename
    rename_pair finding collect report_if business_keys tests_for_model tests_of_nodes node_tests
    test_names test_name published_models type_of required grain is_enforced ends_with join sorted
same_passes = refl

compare_contracts-IsFound_example :
    IsFound python
      (manifest less)
      (manifest less)
      "model.sales"
      (entries (model less))
      (lookup "model.sales" (published_models python (manifest less).nodes))
unfolding published_models
compare_contracts-IsFound_example =
    compare_contracts-IsFound python (some (manifest_value less)) (some (manifest_value less))
      (loaded less) (loaded less) same_passes refl "model.sales" (entries (model less)) refl

removed_blocks :
    compare_contracts python (some (some (manifest_value more))) (some (manifest_value less))
    ≡ ok (record {
      status = blocked;
      findings =
          record {
            model = "sales";
            column = some "sale_id";
            change_type = "published_column_removed";
            severity = blocking;
            classification = breaking;
            downstream_impact_paths = ("sales" ∷ "sales" ∷ []) ∷ [];
            evidence = "column exists in previous manifest only" ∷ [];
          }
          ∷ [];
    })
unfolding compare_contracts load_manifest compare_manifests compare_model compare_nodes report_keys
    report_tests compare_columns report_columns compare_column report_removed report_rename
    rename_pair finding collect report_if business_keys tests_for_model tests_of_nodes node_tests
    test_names test_name published_models type_of required grain is_enforced ends_with join sorted
    downstream_paths search_from expand visit_children add_child
removed_blocks = refl
