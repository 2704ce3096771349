-- ===== src/Tests/SlimCi.antt =====
-- Examples for the slim CI: a run without a base, and a cleanup.
use kafka_order_event_platfo.Prelude.{String, false, none, some, List, [], ◌∷◌, ◌++◌, ◌≡◌, refl}
use kafka_order_event_platfo.Sorting.{sorted}
use kafka_order_event_platfo.Text.{join}
use kafka_order_event_platfo.DataPlatform.SlimCi.{
  World, returned, raised, slim_error, CommandEnd, exited, run_command, hide, redact_output,
  drop_chars, CommandResult, SlimCiResult, passed, full_ci_fallback, ◌>>=◌,
}
use kafka_order_event_platfo.DataPlatform.SlimCi.Schemas.{
  is_safe_prefix, is_like, is_below, drop_schemas, check_prefixes, ask_database, drop_selected,
  cleanup_ci_schemas,
}
use kafka_order_event_platfo.DataPlatform.SlimCi.Commands.{
  LineReader, names_of_lines, split_lines, selected_models_of, run_git, git_value,
}
use kafka_order_event_platfo.DataPlatform.SlimCi.Job.{Job, Outside}
use kafka_order_event_platfo.DataPlatform.SlimCi.Orchestration.{
  find_base, build_base, check_conventions, check_contracts, check_current, build_current,
  python_checks, finish, build_all, write_summary, settle_run, try_run, run_slim_ci,
}
use kafka_order_event_platfo.DataPlatform.SlimCi.Reported.{IsReported, run_slim_ci-IsReported}

abbrev pub job : Job
job = record {
  repo_root = "/repo";
  base_ref = none;
  run_id = "a1";
  run_state = "/state/a1";
  base_checkout = "/tmp/repository";
  convention_report = "conventions.json";
  contract_report = "contracts.json";
  run_python_checks = false;
  secrets = [];
}

abbrev pub outside : Outside
outside = record {
  made = returned tt;
  unpacked = returned tt;
  profile_is_file = false;
  copied = returned tt;
  validated = returned 0;
  compared = λ _. returned 0;
  preserved = returned tt;
  written = returned tt;
}

abbrev pub reader : LineReader
reader = record { decode = λ _. none; show = λ _. "" }

abbrev pub kept : List String
kept = "public" ∷ []

abbrev full : List String
full = "public" ∷ "analytics_ci_current_a1" ∷ "analytics_ci_current_a1_marts" ∷ []

abbrev pub quiet : List String → CommandEnd
quiet schemas = exited 0 "" "" schemas

abbrev pub before : World
before = record {
  ends =
      quiet kept ∷ quiet kept ∷ quiet kept ∷ quiet kept ∷ quiet full ∷ quiet full ∷ quiet full ∷ [];
  connects = [];
  evidence = [];
  schemas = kept;
  summary = none;
  mode = full_ci_fallback;
  base_git_sha = none;
  selected_models = [];
}

abbrev dbt : List String → List String → CommandResult
dbt action extra = record {
  command =
      ("dbt" ∷ action)
      ++ ("--project-dir" ∷ "/repo/dbt" ∷ "--profiles-dir" ∷ "/repo/dbt" ∷ "--target" ∷ "ci"
          ∷ extra);
  exit_code = 0;
  output_tail = "";
}

abbrev pub target : List String
target = "--target-path" ∷ "/state/a1/current" ∷ []

abbrev result : SlimCiResult
result = record {
  status = passed;
  mode = full_ci_fallback;
  run_id = "a1";
  base_ref = none;
  base_git_sha = none;
  current_git_sha = some "";
  selected_models = [];
  state_directory = "/state/a1";
  convention_report = "conventions.json";
  contract_report = "contracts.json";
  commands =
      dbt ("deps" ∷ []) []
      ∷ dbt ("parse" ∷ []) target
      ∷ dbt ("ls" ∷ []) (
          target
          ++ ("--resource-type" ∷ "model" ∷ "--output" ∷ "json" ∷ "--output-keys"
              ∷ "name resource_type" ∷ []))
      ∷ dbt ("build" ∷ []) target
      ∷ dbt ("docs" ∷ "generate" ∷ []) target
      ∷ dbt ("source" ∷ "freshness" ∷ []) target
      ∷ [];
  error = none;
}

abbrev after : World
after = record before {
  ends = [];
  evidence = result.commands;
  schemas = kept;
  summary = some result;
}

run_passed : run_slim_ci job outside reader before ≡ (returned result, after)
unfolding run_slim_ci try_run settle_run write_summary build_all find_base build_base check_current
    check_conventions check_contracts build_current finish python_checks git_value run_git
    run_command redact_output hide drop_chars selected_models_of names_of_lines split_lines
    cleanup_ci_schemas check_prefixes ask_database drop_selected drop_schemas is_safe_prefix is_like
    is_below ◌>>=◌ sorted join
run_passed = refl

run_slim_ci-IsReported_example : IsReported job outside reader result after
run_slim_ci-IsReported_example =
    run_slim_ci-IsReported job outside reader before after result run_passed

abbrev dirty : World
dirty = record before { schemas = full }

-- A schema of another run whose name matches only as a pattern stops the cleanup.
cleanup_refused :
    cleanup_ci_schemas
      ("analytics_ci_current_a_1" ∷ [])
      (record before { schemas = "analytics_ci_current_ab1_marts" ∷ [] })
    ≡ (
      raised (slim_error "refusing unsafe schema cleanup: analytics_ci_current_ab1_marts"),
      record before { schemas = "analytics_ci_current_ab1_marts" ∷ [] },
    )
unfolding cleanup_ci_schemas check_prefixes ask_database drop_selected drop_schemas is_safe_prefix
    is_like is_below ◌>>=◌
cleanup_refused = refl
