-- ===== src/DataPlatform/CostPolicy/Loading.antt =====
-- load_cost_policy of bigquery_cost_policy.py: what its checks spare an evaluation.
use kafka_order_event_platfo.Prelude.{
  ℕ, String, Option, none, some, List, [], ◌∷◌, ◌≡◌, ◌≢◌, subst, refl, ◌∙◌, Option-cases, ◌⊎◌, inl,
  inr, arith, All, string_eq,
}
use kafka_order_event_platfo.Prelude.Int.{ℤ}
use kafka_order_event_platfo.Dict.{
  Dict, lookup, insert, update, Distinct, lookup-update, All-lookup,
}
use kafka_order_event_platfo.DataPlatform.Values.{Value, as_object}
use kafka_order_event_platfo.DataPlatform.Results.{ok, err, Failure, input_error, first_ok}
use kafka_order_event_platfo.DataPlatform.CostPolicy.{
  check_model, check_models, load_cost_policy, object_at, plain_int_at, CostFinding,
}
use kafka_order_event_platfo.DataPlatform.CostPolicy.Evaluation.{
  Moment, model_policy, estimate_of, judge, judge_covered, judge_thresholds, judge_estimate,
  evaluate_cost_policy, nonempty_text, parse_waiver, estimate_value, get_or,
}

-- An entry with integer thresholds and a cost class.
abbrev IsChecked : Value → Type 0
IsChecked v =
    (own : Dict String Value) × (as_object v ≡ some own)
    × (low : ℤ) × (high : ℤ) × (lookup "warning_threshold_bytes" own ≡ some (Value.int low))
    × (lookup "blocking_threshold_bytes" own ≡ some (Value.int high))
    × (c : Value) × (lookup "cost_class" own ≡ some c)

plain_int_at-int :
    (k : String) (d : Dict String Value) (z : ℤ)
    → plain_int_at k d ≡ some z
    → lookup k d ≡ some (Value.int z)
plain_int_at-int k d z h = ground arith

check_model-IsChecked : (name : String) (v : Value) → check_model name v ≡ ok tt → IsChecked v
unfolding check_model
check_model-IsChecked name v h = elim (Option-cases (as_object v)) [
  | inl e ↦ absurd (ground arith)
  | inr (own, e) ↦ elim (Option-cases (plain_int_at "warning_threshold_bytes" own)) [
    | inl no_low ↦ absurd (ground arith)
    | inr (low, w) ↦ elim (Option-cases (plain_int_at "blocking_threshold_bytes" own)) [
      | inl no_high ↦ absurd (ground arith)
      | inr (high, b) ↦ elim (Option-cases (lookup "cost_class" own)) [
        | inl no_class ↦ absurd (ground arith)
        | inr (c, l) ↦ (
          own,
          e,
          low,
          high,
          plain_int_at-int "warning_threshold_bytes" own low w,
          plain_int_at-int "blocking_threshold_bytes" own high b,
          c,
          l,
        )
      ]
    ]
  ]
]

check_models-IsChecked :
    (d : Dict String Value) → check_models d ≡ ok tt → All (λ (e : String × Value). IsChecked e.1) d
unfolding check_models
check_models-IsChecked [] h = tt
check_models-IsChecked ((name, v) ∷ d) h =
    let (_, first, rest) = first_ok (check_model name v) _ h in
    (check_model-IsChecked name v first, check_models-IsChecked d rest)

module _ (policy models : Dict String Value) (is_models : object_at "models" policy ≡ some models)
    (distinct : Distinct models) (plain : lookup "default" models ≡ none) where
  entry-IsChecked :
      (default : Value)
      → All (λ (e : String × Value). IsChecked e.1) (update (insert "default" default []) models)
      → (name : String) → IsChecked (get_or name default models)
  entry-IsChecked default all name =
      let listed =
        λ (k : String) (v : Value)
            (at : lookup k (update (insert "default" default []) models) ≡ some v).
          All-lookup (λ (e : String × Value). IsChecked e.1) k v
            (update (insert "default" default []) models) all at in
      elim (Option-cases (lookup name models)) [
        | inl missing ↦
            rw (missing, get_or)
              (listed "default" default (
                lookup-update "default" (insert "default" default []) models distinct
                ∙ rw plain refl))
        | inr (v, own) ↦
            rw (own, get_or)
              (listed name v
                (lookup-update name (insert "default" default []) models distinct ∙ rw own refl))
      ]

  -- Every model has a checked policy of its own, or the default.
  loaded-IsChecked :
      {p : Dict String Value}
      → load_cost_policy policy ≡ ok p
      → (default : Value) × (p ≡ policy)
        × (lookup "default" policy ≡ some default)
        × ((name : String) → IsChecked (get_or name default models))
  unfolding load_cost_policy
  loaded-IsChecked h = elim (Option-cases (lookup "default" policy)) [
    | inl missing ↦ absurd (ground (arith, is_models))
    | inr (default, d) ↦
        let all =
          check_models-IsChecked (update (insert "default" default []) models)
            (ground (arith, is_models)) in
        (default, ground (arith, is_models), d, entry-IsChecked default all)
  ]

judge_estimate-int :
    (e : Option ℤ) (low high : ℤ) (approved : Option ℤ) (fs : List CostFinding) (f : Failure)
    → judge_estimate e (Value.int low) (Value.int high) approved fs ≢ err f
unfolding judge judge_covered judge_thresholds
judge_estimate-int none low high approved fs f h = cc
judge_estimate-int (some e) low high none fs f h = ground arith
judge_estimate-int (some e) low high (some a) fs f h = ground arith

abbrev pub IsInputError : Failure → Type 0
IsInputError (input_error _) = Unit
IsInputError (Failure.key_error _) = ⊥
IsInputError Failure.type_error = ⊥
IsInputError Failure.attribute_error = ⊥
IsInputError (Failure.other_error _) = ⊥

estimate_cases :
    (fixture : Dict String Value)
    → ((e : Option ℤ) × (estimate_of fixture ≡ ok e))
      ⊎ ((m : String) × (estimate_of fixture ≡ err (input_error m)))
unfolding estimate_of
estimate_cases fixture = elim (Option-cases (lookup "total_bytes_processed" fixture)) [
  | inl e ↦ inl (none, ground arith)
  | inr (v, e) ↦ elim (Option-cases (estimate_value v)) [
    | inl bad ↦ inr ("total_bytes_processed must be a non-negative integer or null", ground arith)
    | inr (z, good) ↦ inl (z, ground arith)
  ]
]

evaluate-unnamed :
    (from_iso : String → Option Moment) (now : ℕ) (policy fixture : Dict String Value) {f : Failure}
    → nonempty_text (lookup "model" fixture) ≡ none
    → evaluate_cost_policy from_iso now policy fixture ≡ err f
    → IsInputError f
unfolding evaluate_cost_policy
evaluate-unnamed from_iso now policy fixture {f} unnamed h =
    subst IsInputError {x = input_error "fixture requires model"} (ground (arith, unnamed)) tt

module _ (from_iso : String → Option Moment) (now : ℕ) (policy fixture own : Dict String Value)
    (low high : ℤ) (model : String) (c : Value)
    (named : nonempty_text (lookup "model" fixture) ≡ some model)
    (found : model_policy policy model ≡ ok own)
    (has_low : lookup "warning_threshold_bytes" own ≡ some (Value.int low))
    (has_high : lookup "blocking_threshold_bytes" own ≡ some (Value.int high))
    (has_class : lookup "cost_class" own ≡ some c) where
  evaluate-checked :
      {f : Failure} → evaluate_cost_policy from_iso now policy fixture ≡ err f → IsInputError f
  unfolding evaluate_cost_policy
  evaluate-checked {f} h =
      let w = parse_waiver from_iso now (lookup "waiver" fixture) in
      elim (estimate_cases fixture) [
        | inl (e, est) ↦ absurd (
            judge_estimate-int e low high w.0 w.1 f
              (ground (arith, named, found, has_low, has_high, has_class, est)))
        | inr (m, est) ↦
            subst IsInputError {x = input_error m}
              (ground (arith, named, found, has_low, has_high, has_class, est)) tt
      ]

module _ (policy models : Dict String Value) (is_models : object_at "models" policy ≡ some models)
    (distinct : Distinct models) (plain : lookup "default" models ≡ none) where
  own_policy :
      (default : Value)
      → lookup "default" policy ≡ some default
      → (name : String) (own : Dict String Value)
      → as_object (get_or name default models) ≡ some own
      → model_policy policy name ≡ ok own
  unfolding model_policy
  own_policy default d name own e = ground (arith, is_models, d, e)

  -- Evaluate a fixture under a policy that load_cost_policy accepts, with distinct model names, none
  -- of which is "default". If the evaluation raises, it raises a CostPolicyInputError, and neither
  -- a KeyError nor another exception of Python.
  pub evaluate_loaded :
      (from_iso : String → Option Moment) (now : ℕ) (fixture : Dict String Value)
      {p : Dict String Value} {f : Failure}
      → load_cost_policy policy ≡ ok p
      → evaluate_cost_policy from_iso now p fixture ≡ err f
      → IsInputError f
  evaluate_loaded from_iso now fixture {p} {f} loaded raised =
      let (default, same, d, checked) =
        loaded-IsChecked policy models is_models distinct plain loaded in
      let raised' = rw same at raised in
      elim (Option-cases (nonempty_text (lookup "model" fixture))) [
        | inl unnamed ↦ evaluate-unnamed from_iso now policy fixture unnamed raised'
        | inr (name, named) ↦
            let (own, o, low, high, w, b, c, l) = checked name in
            evaluate-checked from_iso now policy fixture own low high name c named
              (own_policy default d name own o) w b l raised'
      ]
