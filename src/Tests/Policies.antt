-- ===== src/Tests/Policies.antt =====
-- Examples for the tools of the data platform: the cost policy.
use kafka_order_event_platfo.Prelude.{String, true, false, Option, some, ◌≡◌, refl, ◌↔◌}
use kafka_order_event_platfo.Prelude.Int.{pos}
use kafka_order_event_platfo.Dict.{Dict}
use kafka_order_event_platfo.DataPlatform.Values.{Value, Fields, end, field, entries}
use kafka_order_event_platfo.DataPlatform.Results.{ok, err, key_error, input_error}
use kafka_order_event_platfo.DataPlatform.CostPolicy.{
  load_cost_policy, CostPolicyResult, blocked, warn, finding, warning,
}
use kafka_order_event_platfo.DataPlatform.CostPolicy.Evaluation.{
  Moment, aware, evaluate_cost_policy, model_policy, estimate_of, query_findings, window_findings,
  judge, judge_thresholds, parse_waiver,
}
use kafka_order_event_platfo.DataPlatform.CostPolicy.Gate.{IsAdmitted, not_blocked_iff}
use kafka_order_event_platfo.DataPlatform.CostPolicy.Loading.{IsInputError, evaluate_loaded}

abbrev thresholds : Fields
thresholds = field "warning_threshold_bytes" (Value.int (pos 100)) (
    field "blocking_threshold_bytes" (Value.int (pos 200))
      (field "cost_class" (Value.text "small") end))

abbrev cost_policy : Dict String Value
cost_policy = entries (
    field "schema_version" (Value.int (pos 1)) (
      field "default" (Value.object thresholds)
        (field "models" (Value.object (field "fct_orders" (Value.object thresholds) end)) end)))

abbrev query : Value → Fields
query bytes = field "model" (Value.text "mart_sales") (
    field "total_bytes_processed" bytes (
      field "valid" (Value.bool true) (
        field "partition_filter_present" (Value.bool true) (
          field "requested_scan_window_days" (Value.int (pos 7))
            (field "maximum_scan_window_days" (Value.int (pos 30)) end)))))

abbrev below_blocking : Dict String Value
below_blocking = entries (query (Value.int (pos 150)))

abbrev any_time : String → Option Moment
any_time s = some (aware 50 true)

abbrev warned : CostPolicyResult
warned = record {
  model = "mart_sales";
  decision = warn;
  estimated_bytes = some (pos 150);
  warning_threshold_bytes = Value.int (pos 100);
  blocking_threshold_bytes = Value.int (pos 200);
  cost_class = Value.text "small";
  findings = finding warning "warning-threshold" "estimate meets or exceeds warning threshold";
  waiver_applied = false;
}

evaluates_to_warn : evaluate_cost_policy any_time 10 cost_policy below_blocking ≡ ok warned
unfolding evaluate_cost_policy model_policy estimate_of query_findings window_findings judge
    judge_thresholds parse_waiver
evaluates_to_warn = refl

not_blocked_iff_example :
    (blocked warn ≡ false) ↔ IsAdmitted any_time 10 cost_policy below_blocking warned
not_blocked_iff_example = not_blocked_iff any_time 10 cost_policy below_blocking evaluates_to_warn

loads : load_cost_policy cost_policy ≡ ok cost_policy
unfolding load_cost_policy
loads = refl

abbrev bad_estimate : Dict String Value
bad_estimate = entries (query (Value.bool true))

refuses :
    evaluate_cost_policy any_time 10 cost_policy bad_estimate
    ≡ err (input_error "total_bytes_processed must be a non-negative integer or null")
unfolding evaluate_cost_policy model_policy estimate_of
refuses = refl

evaluate_loaded_example :
    IsInputError (input_error "total_bytes_processed must be a non-negative integer or null")
evaluate_loaded_example =
    evaluate_loaded cost_policy (entries (field "fct_orders" (Value.object thresholds) end)) refl
      (refl, tt) refl any_time 10 bad_estimate loads refuses

-- A model called "default" hides the default policy from the checks: the empty default below is
-- accepted, and the evaluation of any other model raises a KeyError.
abbrev hidden_default : Dict String Value
hidden_default = entries (
    field "schema_version" (Value.int (pos 1)) (
      field "default" (Value.object end)
        (field "models" (Value.object (field "default" (Value.object thresholds) end)) end)))

hidden_default_loads : load_cost_policy hidden_default ≡ ok hidden_default
unfolding load_cost_policy
hidden_default_loads = refl

hidden_default_fails :
    evaluate_cost_policy any_time 10 hidden_default below_blocking
    ≡ err (key_error "warning_threshold_bytes")
unfolding evaluate_cost_policy model_policy
hidden_default_fails = refl
