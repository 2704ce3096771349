-- ===== src/DataPlatform/CostPolicy/Evaluation.antt =====
-- evaluate_cost_policy of bigquery_cost_policy.py, of a fixture that is a JSON object.
use Prim.Native.String.{◌++◌ as concat}
use kafka_order_event_platfo.Prelude.{
  ℕ, String, Bool, true, false, not, ◌&&◌, ◌||◌, Option, none, some, List, [], ◌∷◌, ◌++◌, ◌==◌,
  string_eq, if◌then◌else◌, any, ltb,
}
use kafka_order_event_platfo.Prelude.Int.{ℤ, pos, leb_ℤ, ltb_ℤ}
use kafka_order_event_platfo.Dict.{Dict, lookup}
use kafka_order_event_platfo.Text.{ends_with}
use kafka_order_event_platfo.DataPlatform.Values.{
  Value, null, bool, int, float, text, array, object, as_object, as_int, as_text, is_true,
  is_blank_value,
}
use kafka_order_event_platfo.DataPlatform.Results.{
  Result, ok, err, input_error, type_error, attribute_error, ◌>>=◌, index,
}
use kafka_order_event_platfo.DataPlatform.CostPolicy.{
  Decision, pass, warn, block, invalid, CostFinding, CostPolicyResult, error, warning, info,
  finding, require, is_error, is_warning, plain_int_at, int_at, is_positive, or_else,
}

-- What `datetime.fromisoformat` gives: a time with no zone, or an instant and whether its offset
-- is that of UTC.
pub data Moment : Type 0 where
  naive : Moment
  aware : (instant : ℕ) (utc : Bool) → Moment

-- `d.get(k, default)`
abbrev pub get_or : String → Value → Dict String Value → Value
get_or k default d = elim (lookup k d) [ none ↦ default | some v ↦ v ]

-- `_model_policy`
unfoldable pub model_policy : Dict String Value → String → Result (Dict String Value)
model_policy policy model = do
  models ← index "models" policy
  known ← or_else (as_object models) attribute_error
  default ← index "default" policy
  let value = get_or model default known
  or_else (as_object value) (input_error (concat "model policy is invalid: " model))

-- `isinstance(model, str) and model`
abbrev pub nonempty_text : Option Value → Option String
nonempty_text none = none
nonempty_text (some v) = elim (as_text v) [
  | none ↦ none
  | some s ↦ if s == "" then none else some s
]

-- A number that is compared with the estimate. A float that is not integral, which
-- `load_cost_policy` refuses, is not modelled: it counts as a value that cannot be compared.
abbrev pub number : Value → Result ℤ
number (int z) = ok z
number (float (some z) _) = ok z
number (float none _) = err type_error
number (bool b) = or_else (as_int (bool b)) type_error
number null = err type_error
number (text _) = err type_error
number (array _) = err type_error
number (object _) = err type_error

-- `total_bytes_processed`: missing and null are no estimate.
abbrev pub estimate_value : Value → Option (Option ℤ)
estimate_value null = some none
estimate_value (int z) = if leb_ℤ (pos 0) z then some (some z) else none
estimate_value (bool _) = none
estimate_value (float _ _) = none
estimate_value (text _) = none
estimate_value (array _) = none
estimate_value (object _) = none

unfoldable pub estimate_of : Dict String Value → Result (Option ℤ)
estimate_of fixture = elim (lookup "total_bytes_processed" fixture) [
  | none ↦ ok none
  | some v ↦
      or_else (estimate_value v)
        (input_error "total_bytes_processed must be a non-negative integer or null")
]

abbrev pub is_some {ℓ} : {A : Type ℓ} → Option A → Bool
is_some none = false
is_some (some _) = true

-- the findings on the query that do not depend on the thresholds
unfoldable pub query_findings : String → Dict String Value → Option ℤ → List CostFinding
query_findings model fixture estimate =
    require (is_true (lookup "valid" fixture)) "fixture-validity"
      "fixture represents an invalid query"
    ++ (require (is_some estimate) "missing-estimate"
          "missing estimate remains null and cannot pass"
        ++ require (model == "fct_orders" || is_true (lookup "partition_filter_present" fixture))
            "partition-filter" "required partition predicate is missing")

-- `isinstance(requested_window, int) and requested_window > maximum_window`
abbrev pub exceeds : Option ℤ → Option ℤ → Bool
exceeds none maximum = false
exceeds (some r) none = false
exceeds (some r) (some m) = ltb_ℤ m r

unfoldable pub window_findings : Dict String Value → List CostFinding
window_findings fixture =
    let maximum = plain_int_at "maximum_scan_window_days" fixture in
    require (is_positive (plain_int_at "requested_scan_window_days" fixture)) "scan-window"
      "requested scan window must be positive"
    ++ (if is_positive maximum
        then require (not (exceeds (int_at "requested_scan_window_days" fixture) maximum))
            "scan-window" "requested scan window exceeds model policy"
        else finding error "scan-window" "maximum scan window must be positive")

abbrev pub is_empty {ℓ} : {A : Type ℓ} → List A → Bool
is_empty [] = true
is_empty (_ ∷ _) = false

-- the two thresholds of the policy
unfoldable pub judge_thresholds : ℤ → Value → Value → Result (List CostFinding)
judge_thresholds estimate low high = do
  limit ← number high
  let lower : Result (List CostFinding) = do
    floor ← number low
    ok (
        if leb_ℤ floor estimate
        then finding warning "warning-threshold" "estimate meets or exceeds warning threshold"
        else [])
  (if leb_ℤ limit estimate
      then ok (finding error "blocking-threshold" "estimate meets or exceeds blocking threshold")
      else lower)

-- an approved waiver that covers the estimate: whether it was needed
unfoldable pub judge_covered : ℤ → Value → Result (Bool × List CostFinding)
judge_covered estimate high = do
  limit ← number high
  ok (
    leb_ℤ limit estimate,
    if leb_ℤ limit estimate
        then finding info "waiver-applied" "valid bounded waiver applied"
        else [],
  )

-- The thresholds on an estimate: whether a waiver applied, and the findings.
unfoldable pub judge :
    ℤ → Value → Value → Option ℤ → List CostFinding → Result (Bool × List CostFinding)
judge estimate low high none waiver_findings = do
  found ← judge_thresholds estimate low high
  ok (false, found)
judge estimate low high (some approved) waiver_findings =
    let exceeding =
      require (leb_ℤ estimate approved) "waiver-threshold"
        "estimate exceeds approved waiver threshold" in
    if is_empty waiver_findings && leb_ℤ estimate approved
    then judge_covered estimate high
    else judge_thresholds estimate low high >>= λ found. ok (false, found ++ exceeding)

abbrev pub judge_estimate :
    Option ℤ → Value → Value → Option ℤ → List CostFinding → Result (Bool × List CostFinding)
judge_estimate none low high approved waiver_findings = ok (false, [])
judge_estimate (some e) low high approved waiver_findings =
    judge e low high approved waiver_findings

abbrev pub decide_by : Bool → List CostFinding → Decision
decide_by answerable findings =
    if answerable
    then if any is_error findings then block else if any is_warning findings then warn else pass
    else invalid

-- `now`, and `from_iso`, which is `datetime.fromisoformat` after `"Z"` is replaced by `"+00:00"`
module _ (from_iso : String → Option Moment) (now : ℕ) where
  abbrev pub expiry_of : Option Value → Option Moment
  expiry_of none = none
  expiry_of (some v) = elim (as_text v) [
    | none ↦ none
    | some s ↦ if ends_with s "Z" then from_iso s else none
  ]

  abbrev pub expiry_findings : Option Moment → List CostFinding
  expiry_findings none = finding error "waiver" "waiver expires_at must be timezone-aware UTC"
  expiry_findings (some naive) =
      finding error "waiver" "waiver expires_at must be timezone-aware UTC"
  expiry_findings (some (aware instant false)) =
      finding error "waiver" "waiver expires_at must be timezone-aware UTC"
  expiry_findings (some (aware instant true)) =
      require (ltb now instant) "waiver-expired" "waiver is expired"

  unfoldable pub waiver_object : Dict String Value → Option ℤ × List CostFinding
  waiver_object waiver =
      let approved = plain_int_at "approved_threshold_bytes" waiver in
      (
        if is_positive approved then approved else none,
        require (not (is_blank_value (lookup "owner" waiver))) "waiver" "waiver requires owner"
            ++ (require (not (is_blank_value (lookup "reason" waiver))) "waiver"
                  "waiver requires reason"
                ++ (expiry_findings (expiry_of (lookup "expires_at" waiver))
                    ++ require (is_positive approved) "waiver"
                        "waiver requires a positive approved threshold")),
      )

  -- `_parse_waiver`
  unfoldable pub parse_waiver : Option Value → Option ℤ × List CostFinding
  parse_waiver none = (none, [])
  parse_waiver (some null) = (none, [])
  parse_waiver (some (object fs)) = elim (as_object (object fs)) [
    | none ↦ (none, [])
    | some waiver ↦ waiver_object waiver
  ]
  parse_waiver (some (bool _)) = (none, finding error "waiver" "waiver must be an object")
  parse_waiver (some (int _)) = (none, finding error "waiver" "waiver must be an object")
  parse_waiver (some (float _ _)) = (none, finding error "waiver" "waiver must be an object")
  parse_waiver (some (text _)) = (none, finding error "waiver" "waiver must be an object")
  parse_waiver (some (array _)) = (none, finding error "waiver" "waiver must be an object")

  unfoldable pub evaluate_cost_policy :
      Dict String Value → Dict String Value → Result CostPolicyResult
  evaluate_cost_policy policy fixture = do
    model ← or_else (nonempty_text (lookup "model" fixture)) (input_error "fixture requires model")
    own ← model_policy policy model
    low ← index "warning_threshold_bytes" own
    high ← index "blocking_threshold_bytes" own
    estimate ← estimate_of fixture
    let (approved, waiver_findings) = parse_waiver (lookup "waiver" fixture)
    (applied, threshold_findings) ← judge_estimate estimate low high approved waiver_findings
    let findings =
        query_findings model fixture estimate
        ++ (window_findings fixture ++ (waiver_findings ++ threshold_findings))
    cost_class ← index "cost_class" own
    ok (record {
      model = model;
      decision = decide_by (is_true (lookup "valid" fixture) && is_some estimate) findings;
      estimated_bytes = estimate;
      warning_threshold_bytes = low;
      blocking_threshold_bytes = high;
      cost_class = cost_class;
      findings = findings;
      waiver_applied = applied;
    })
