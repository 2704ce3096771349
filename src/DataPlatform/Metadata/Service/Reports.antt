-- ===== src/DataPlatform/Metadata/Service/Reports.antt =====
-- metadata_service.py: `_failures`, `_lag` and `_cost`. The reports that they read are arguments.
use kafka_order_event_platfo.Prelude.{
  ℕ, zero, suc, ◌-◌, String, Bool, true, false, ◌&&◌, Option, none, some, List, [], ◌∷◌, ◌++◌, map,
  elem, length, ◌==◌, string_eq, if◌then◌else◌,
}
use kafka_order_event_platfo.Dict.{Dict, lookup}
use kafka_order_event_platfo.Text.{le_text}
use kafka_order_event_platfo.Sorting.{sorted, distinct}
use kafka_order_event_platfo.DataPlatform.Values.{
  Value, null, text, array, object, as_object, as_list, as_text, equals_text, items,
}
use kafka_order_event_platfo.DataPlatform.Results.{Result, ok, err, input_error, type_error, ◌>>=◌}
use kafka_order_event_platfo.DataPlatform.Metadata.{
  ToolStatus, ok_status, partial, not_found, not_available, ToolResponse, list_value, object_value,
}
use kafka_order_event_platfo.DataPlatform.Metadata.Service.{respond}

-- `d.get(k)`, and `d.get(k, default)`
abbrev pub get_or_null : String → Dict String Value → Value
get_or_null k d = elim (lookup k d) [ none ↦ null | some v ↦ v ]

abbrev pub get_else : String → Value → Dict String Value → Value
get_else k default d = elim (lookup k d) [ none ↦ default | some v ↦ v ]

abbrev pub drop {ℓ} : {A : Type ℓ} → ℕ → List A → List A
drop zero xs = xs
drop (suc n) [] = []
drop (suc n) (x ∷ xs) = drop n xs

-- `xs[-n:]`, for a positive n
abbrev pub last_of {ℓ} : {A : Type ℓ} → ℕ → List A → List A
last_of n xs = drop (length xs - n) xs

abbrev pub last_or_none {ℓ} : {A : Type ℓ} → List A → Option A
last_or_none [] = none
last_or_none (x ∷ []) = some x
last_or_none (x ∷ y ∷ xs) = last_or_none (y ∷ xs)

-- A report is its place and its object; `str_of` is `str` of a value that is no text.
module _ (now : ℕ) (casefold : String → String) (iso : ℕ → String) (str_of : Value → String) where
  abbrev pub answer :
      ToolStatus → Dict String Value → List String → String → List String → ToolResponse
  answer status = respond now casefold iso status

  abbrev pub value_text : Value → String
  value_text v = elim (as_text v) [ some s ↦ s | none ↦ str_of v ]

  abbrev pub failed_task : Dict String Value → Bool
  failed_task task = elem (value_text (get_or_null "status" task)) ("failed" ∷ "error" ∷ [])

  abbrev pub failure_entry : String → Dict String Value → Dict String Value → Value
  failure_entry artifact_id report task = object (
      object_value (
        ("run_id", get_or_null "run_id" report)
        ∷ ("task", get_else "task_id" (get_or_null "name" task) task)
        ∷ ("status", get_or_null "status" task)
        ∷ ("started_at", get_or_null "started_at" task)
        ∷ ("ended_at", get_or_null "ended_at" task)
        ∷ ("error_category", get_else "error_category" (text "local_validation_failure") task)
        ∷ ("artifact_reference", text artifact_id)
        ∷ []))

  unfoldable pub task_failures : String → Dict String Value → List Value → List (String × Value)
  task_failures artifact_id report [] = []
  task_failures artifact_id report (v ∷ vs) =
      let rest = task_failures artifact_id report vs in
      elim (as_object v) [
        | none ↦ rest
        | some task ↦
            if failed_task task
            then (artifact_id, failure_entry artifact_id report task) ∷ rest
            else rest
      ]

  -- the failed tasks of all reports, each with the place of its report
  unfoldable pub report_failures : List (String × Dict String Value) → List (String × Value)
  unfolding task_failures
  report_failures [] = []
  report_failures ((artifact_id, report) ∷ reports) =
      elim (as_list
        (get_else "task_results" (get_else "tasks" (array (list_value [])) report) report)) [
          | none ↦ report_failures reports
          | some tasks ↦ task_failures artifact_id report tasks ++ report_failures reports
        ]

  abbrev pub is_empty {ℓ} : {A : Type ℓ} → List A → Bool
  is_empty [] = true
  is_empty (_ ∷ _) = false

  -- `_failures`
  unfoldable pub pipeline_failures : List (String × Dict String Value) → String → ℕ → ToolResponse
  unfolding report_failures
  pipeline_failures reports pipeline_name limit =
      let found = report_failures reports in
      if pipeline_name == "retail_data_platform_pipeline"
      then answer (if is_empty found then not_available else partial)
          (("pipeline_name", text pipeline_name)
            ∷ (
              "failures",
              array (list_value (last_of limit (map (λ (f : String × Value). f.1) found))),
            )
            ∷ ("cloud_execution_status", text "not_available")
            ∷ [])
          (sorted le_text (distinct (map (λ (f : String × Value). f.0) found)))
          (if is_empty found then "not_available" else "static_validation")
          ("Phase 8C cloud Airflow artifact is not available" ∷ [])
      else answer not_found [] [] "static_validation" ("pipeline is not indexed" ∷ [])

  -- the groups of a lag report that are the wanted one
  unfoldable pub matching_groups : String → List Value → List (Dict String Value)
  matching_groups group [] = []
  matching_groups group (v ∷ vs) =
      let rest = matching_groups group vs in
      elim (as_object v) [
        | none ↦ rest
        | some d ↦ if equals_text group (lookup "consumer_group" d) then d ∷ rest else rest
      ]

  abbrev pub lag_row_value : Dict String Value → Value
  lag_row_value row = object (
      object_value (
        ("topic", get_or_null "topic" row)
        ∷ ("partition", get_or_null "partition" row)
        ∷ ("committed_offset", get_or_null "current_offset" row)
        ∷ ("log_end_offset", get_or_null "log_end_offset" row)
        ∷ ("lag", get_or_null "lag" row)
        ∷ ("status", get_or_null "status" row)
        ∷ []))

  abbrev pub row_values : List Value → List Value
  row_values [] = []
  row_values (v ∷ vs) = elim (as_object v) [
    | none ↦ row_values vs
    | some row ↦ lag_row_value row ∷ row_values vs
  ]

  -- the rows of the groups. Rows that are no list are not modelled further: a text or a dict gives
  -- no row, as no part of it is a dict, and what cannot be iterated raises.
  unfoldable pub group_rows : List (Dict String Value) → Result (List Value)
  group_rows [] = ok []
  group_rows (g ∷ groups) = do
    rows ← elim (get_else "rows" (array (list_value [])) g) as (λ _. Result (List Value)) [
      | array vs ↦ ok (row_values (items vs))
      | text _ ↦ ok []
      | object _ ↦ ok []
      | null ↦ err type_error
      | Value.bool _ ↦ err type_error
      | Value.int _ ↦ err type_error
      | Value.float _ _ ↦ err type_error
    ]
    others ← group_rows groups
    ok (rows ++ others)

  abbrev pub lag_answer :
      String → Dict String Value → List (Dict String Value) → Result ToolResponse
  lag_answer group report [] =
      ok (
        answer not_found [] [] "static_validation"
          ("consumer group is absent from the report" ∷ []))
  lag_answer group report (g ∷ groups) = do
    rows ← group_rows (g ∷ groups)
    ok (
        answer ok_status
          (("consumer_group", text group)
            ∷ ("observation_timestamp", get_or_null "observed_at" report)
            ∷ ("partitions", array (list_value rows))
            ∷ [])
          ("consumer_lag_report" ∷ []) "static_validation" [])

  -- `_lag`, where the report may be missing
  unfoldable pub consumer_lag : Option (Dict String Value) → String → Result ToolResponse
  unfolding matching_groups group_rows
  consumer_lag none group = ok (
      answer not_available
        (("consumer_group", text group) ∷ ("cloud_execution_status", text "not_available") ∷ []) []
        "not_available" ("consumer lag report is missing; no live Kafka query was attempted" ∷ []))
  consumer_lag (some report) group = elim (as_list (get_or_null "groups" report)) [
    | none ↦ err (input_error "consumer lag groups must be a list")
    | some groups ↦ lag_answer group report (matching_groups group groups)
  ]

  abbrev pub is_simulated : String → Dict String Value → Bool
  is_simulated model report =
      equals_text model (lookup "model" report)
      && equals_text "simulated" (lookup "evidence_level" report)

  unfoldable pub candidates :
      String → List (String × Dict String Value) → List (String × Dict String Value)
  candidates model [] = []
  candidates model ((i, report) ∷ reports) =
      let rest = candidates model reports in
      if is_simulated model report then (i, report) ∷ rest else rest

  abbrev pub no_estimate : String → String → ToolResponse
  no_estimate model warning =
      answer not_available
        (("model_name", text model)
          ∷ ("cloud_execution_status", text "not_available")
          ∷ ("estimated_bytes", null)
          ∷ ("observed_job_id", null)
          ∷ [])
        [] "not_available" (warning ∷ [])

  abbrev pub simulated_cost : String → Option (String × Dict String Value) → ToolResponse
  simulated_cost model none = no_estimate model "simulated cost report is not available"
  simulated_cost model (some (i, report)) =
      answer ok_status
        (("model_name", text model)
          ∷ ("evidence_level", text "simulated")
          ∷ ("estimated_bytes", get_or_null "estimated_bytes" report)
          ∷ ("warning_threshold_bytes", get_or_null "warning_threshold_bytes" report)
          ∷ ("threshold_bytes", get_or_null "blocking_threshold_bytes" report)
          ∷ ("decision", get_or_null "status" report)
          ∷ ("observed_job_id", null)
          ∷ ("cloud_execution_status", text "not_executed")
          ∷ [])
        (i ∷ []) "simulated" ("Fixture-based estimate; not a real BigQuery measurement." ∷ [])

  -- `_cost`
  unfoldable pub cost_estimate : List (String × Dict String Value) → String → String → ToolResponse
  unfolding candidates
  cost_estimate reports model desired =
      if desired == "sandbox_observed"
      then no_estimate model "8B Sandbox evidence is not available and no fixture fallback was used"
      else if desired == "cloud_observed"
      then no_estimate model "8C Cloud evidence is not available and no fixture fallback was used"
      else simulated_cost model (last_or_none (candidates model reports))
