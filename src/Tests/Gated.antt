-- ===== src/Tests/Gated.antt =====
-- An example for the slim CI with its contract gate: a run that is compared with a base.
use kafka_order_event_platfo.Prelude.{
  String, string_eq, true, none, some, List, [], ◌∷◌, ◌++◌, ◌≡◌, refl,
}
use kafka_order_event_platfo.Dict.{lookup}
use kafka_order_event_platfo.Sorting.{sorted}
use kafka_order_event_platfo.Text.{join, ends_with}
use kafka_order_event_platfo.DataPlatform.Values.{entries}
use kafka_order_event_platfo.DataPlatform.SlimCi.{
  World, returned, exited, run_command, hide, redact_output, drop_chars, CommandResult,
  SlimCiResult, passed, state_modified_plus, ◌>>=◌,
}
use kafka_order_event_platfo.DataPlatform.SlimCi.Schemas.{
  is_safe_prefix, is_like, is_below, drop_schemas, check_prefixes, ask_database, drop_selected,
  cleanup_ci_schemas,
}
use kafka_order_event_platfo.DataPlatform.SlimCi.Commands.{
  names_of_lines, split_lines, selected_models_of, run_git, git_value, listing,
}
use kafka_order_event_platfo.DataPlatform.SlimCi.Job.{Job, Outside}
use kafka_order_event_platfo.DataPlatform.SlimCi.Orchestration.{
  unpack_archive, unpack_revision, extract_revision, find_base, copy_profile, build_base,
  check_conventions, check_contracts, check_current, select_modified_models, build_current,
  python_checks, finish, build_all, write_summary, settle_run, try_run, run_slim_ci,
}
use kafka_order_event_platfo.DataPlatform.SlimCi.Gated.{gated, blocking_count, run_slim_ci-IsFound}
use kafka_order_event_platfo.DataPlatform.Contracts.{
  published_models, type_of, required, grain, is_enforced,
}
use kafka_order_event_platfo.DataPlatform.Contracts.Keys.{
  test_name, test_names, node_tests, tests_of_nodes, tests_for_model, business_keys,
}
use kafka_order_event_platfo.DataPlatform.Contracts.Columns.{
  report_if, collect, finding, rename_pair, report_rename, report_removed, compare_column,
  report_columns, compare_columns,
}
use kafka_order_event_platfo.DataPlatform.Contracts.Comparison.{
  load_manifest, report_keys, report_tests, compare_nodes, compare_model, compare_manifests,
  compare_contracts,
}
use kafka_order_event_platfo.DataPlatform.Contracts.Passed.{IsFound}
use kafka_order_event_platfo.Tests.SlimCi.{job, outside, reader, before, kept, quiet, target}
use kafka_order_event_platfo.Tests.Contracts.{python, less, manifest, manifest_value, model, loaded}

abbrev based_job : Job
based_job = record job { base_ref = some "main" }

abbrev based_outside : Outside
based_outside = record outside { profile_is_file = true }

abbrev start : World
start = record before {
  ends =
      quiet kept
      ∷ exited 0 "abc\n" "" kept
      ∷ quiet kept
      ∷ quiet kept
      ∷ quiet kept
      ∷ quiet kept
      ∷ quiet kept
      ∷ quiet kept
      ∷ quiet kept
      ∷ quiet kept
      ∷ quiet kept
      ∷ quiet kept
      ∷ [];
}

abbrev dbt_in : String → List String → List String → CommandResult
dbt_in project action extra = record {
  command =
      ("dbt" ∷ action)
      ++ ("--project-dir" ∷ project ∷ "--profiles-dir" ∷ project ∷ "--target" ∷ "ci" ∷ extra);
  exit_code = 0;
  output_tail = "";
}

abbrev base_target : List String
base_target = "--target-path" ∷ "/state/a1/base" ∷ []

abbrev result : SlimCiResult
result = record {
  status = passed;
  mode = state_modified_plus;
  run_id = "a1";
  base_ref = some "main";
  base_git_sha = some "abc";
  current_git_sha = some "";
  selected_models = [];
  state_directory = "/state/a1";
  convention_report = "conventions.json";
  contract_report = "contracts.json";
  commands =
      dbt_in "/tmp/repository/dbt" ("deps" ∷ []) []
      ∷ dbt_in "/tmp/repository/dbt" ("build" ∷ []) base_target
      ∷ dbt_in "/tmp/repository/dbt" ("docs" ∷ "generate" ∷ []) base_target
      ∷ dbt_in "/repo/dbt" ("deps" ∷ []) []
      ∷ dbt_in "/repo/dbt" ("parse" ∷ []) target
      ∷ dbt_in "/repo/dbt" ("ls" ∷ [])
          (target ++ ("--select" ∷ "state:modified+" ∷ "--state" ∷ "/state/a1/base" ∷ listing))
      ∷ dbt_in "/repo/dbt" ("build" ∷ []) (
          target
          ++ ("--select" ∷ "state:modified+" ∷ "--defer" ∷ "--state" ∷ "/state/a1/base" ∷ []))
      ∷ dbt_in "/repo/dbt" ("docs" ∷ "generate" ∷ []) target
      ∷ dbt_in "/repo/dbt" ("source" ∷ "freshness" ∷ []) target
      ∷ [];
  error = none;
}

abbrev final : World
final = record start {
  ends = [];
  evidence = result.commands;
  summary = some result;
  mode = state_modified_plus;
  base_git_sha = some "abc";
}

based_passed :
    run_slim_ci based_job
      (gated based_outside python (some (manifest_value less)) (some (manifest_value less)))
      reader
      start
    ≡ (returned result, final)
unfolding run_slim_ci try_run settle_run write_summary build_all find_base extract_revision
    unpack_revision unpack_archive copy_profile build_base check_current check_conventions
    check_contracts build_current select_modified_models finish python_checks git_value run_git
    run_command redact_output hide drop_chars selected_models_of names_of_lines split_lines
    cleanup_ci_schemas check_prefixes ask_database drop_selected drop_schemas is_safe_prefix is_like
    is_below ◌>>=◌ sorted join blocking_count compare_contracts load_manifest compare_manifests
    compare_model compare_nodes report_keys report_tests compare_columns report_columns
    compare_column report_removed report_rename rename_pair finding collect report_if business_keys
    tests_for_model tests_of_nodes node_tests test_names test_name published_models type_of required
    grain is_enforced ends_with
based_passed = refl

run_slim_ci-IsFound_example :
    IsFound python
      (manifest less)
      (manifest less)
      "model.sales"
      (entries (model less))
      (lookup "model.sales" (published_models python (manifest less).nodes))
unfolding published_models
run_slim_ci-IsFound_example =
    run_slim_ci-IsFound based_job based_outside reader python (some (manifest_value less))
      (some (manifest_value less)) start based_passed refl refl (loaded less) (loaded less)
      "model.sales" (entries (model less)) refl
