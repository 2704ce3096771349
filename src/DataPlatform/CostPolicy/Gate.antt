-- ===== src/DataPlatform/CostPolicy/Gate.antt =====
-- What the gate of bigquery_cost_policy.py lets pass.
use kafka_order_event_platfo.Prelude.{
  ℕ, String, Bool, true, false, ◌&&◌, ◌||◌, Option, none, some, List, ◌++◌, ◌==◌, string_eq, any,
  any-append, ◌≡◌, ◌⊎◌, inl, inr, ◌↔◌, arith,
}
use kafka_order_event_platfo.Prelude.Int.{ℤ, ◌≤ℤ◌}
use kafka_order_event_platfo.Dict.{Dict, lookup}
use kafka_order_event_platfo.DataPlatform.Values.{Value, is_true}
use kafka_order_event_platfo.DataPlatform.Results.{ok, first_ok, index}
use kafka_order_event_platfo.DataPlatform.CostPolicy.{
  CostFinding, CostPolicyResult, is_error, blocked, plain_int_at, or_else,
}
use kafka_order_event_platfo.DataPlatform.CostPolicy.Evaluation.{
  Moment, number, nonempty_text, model_policy, estimate_of, query_findings, window_findings, judge,
  judge_estimate, decide_by, parse_waiver, evaluate_cost_policy, is_some,
}
use kafka_order_event_platfo.DataPlatform.CostPolicy.Clean.{
  WithinWindow, Below, NoWaiver, no_errors-window, ValidWaiver, parse_waiver-clean,
  parse_waiver-absent, parse_waiver-valid, judge-plain, judge-waived, no_errors-query,
  blocked-decide_by,
}

module _ (from_iso : String → Option Moment) (now : ℕ) (policy fixture : Dict String Value) where
  -- What an evaluation that returns has computed.
  abbrev Evaluated : CostPolicyResult → Bool → List CostFinding → Type 0
  Evaluated r applied found =
      let w = parse_waiver from_iso now (lookup "waiver" fixture) in
      (judge_estimate r.estimated_bytes r.warning_threshold_bytes r.blocking_threshold_bytes w.0 w.1
        ≡ ok (applied, found))
      × (r.decision
          ≡ decide_by (is_true (lookup "valid" fixture) && is_some r.estimated_bytes) (
              query_findings r.model fixture r.estimated_bytes
              ++ (window_findings fixture ++ (w.1 ++ found))))

  evaluated :
      {r : CostPolicyResult}
      → evaluate_cost_policy from_iso now policy fixture ≡ ok r
      → (applied : Bool) × (found : List CostFinding) × Evaluated r applied found
  unfolding evaluate_cost_policy
  evaluated {r} h =
      let (model, _, h1) = first_ok (or_else (nonempty_text (lookup "model" fixture)) _) _ h in
      let (own, _, h2) = first_ok (model_policy policy model) _ h1 in
      let (low, _, h3) = first_ok (index "warning_threshold_bytes" own) _ h2 in
      let (high, _, h4) = first_ok (index "blocking_threshold_bytes" own) _ h3 in
      let (estimate, _, h5) = first_ok (estimate_of fixture) _ h4 in
      let ((applied, found), judged, h6) = first_ok (judge_estimate estimate low high _ _) _ h5 in
      let (cost_class, _, h7) = first_ok (index "cost_class" own) _ h6 in
      (applied, found, (ground arith, ground arith))

  -- No waiver and below the blocking threshold, or within the bytes that a valid waiver approves.
  abbrev pub IsAffordable : Option ℤ → Value → Type 0
  IsAffordable none high = ⊥
  IsAffordable (some e) high =
      (NoWaiver (lookup "waiver" fixture) × Below e (number high))
      ⊎ ((a : ℤ) × ValidWaiver from_iso now (lookup "waiver" fixture) a × (e ≤ℤ a))

  pub record IsAdmitted (r : CostPolicyResult) : Type 0 where
    pub valid : is_true (lookup "valid" fixture) ≡ true
    pub filtered :
        (r.model == "fct_orders" || is_true (lookup "partition_filter_present" fixture)) ≡ true
    pub window :
        WithinWindow
          (plain_int_at "requested_scan_window_days" fixture)
          (plain_int_at "maximum_scan_window_days" fixture)
    pub affordable : IsAffordable r.estimated_bytes r.blocking_threshold_bytes

  module _ (e : ℤ) (low high : Value) (applied : Bool) (found : List CostFinding)
      (judged : judge e low high
          (parse_waiver from_iso now (lookup "waiver" fixture)).0
          (parse_waiver from_iso now (lookup "waiver" fixture)).1
        ≡ ok (applied, found)) where
    abbrev Clean : Type 0
    Clean = any is_error ((parse_waiver from_iso now (lookup "waiver" fixture)).1 ++ found) ≡ false

    clean_absent : NoWaiver (lookup "waiver" fixture) → Clean ↔ Below e (number high)
    clean_absent n =
        let p = parse_waiver-absent from_iso now (lookup "waiver" fixture) n in
        rw p (judge-plain e low high (rw p at judged))

    clean_waived : (a : ℤ) → ValidWaiver from_iso now (lookup "waiver" fixture) a → Clean ↔ (e ≤ℤ a)
    clean_waived a v =
        let p = parse_waiver-valid from_iso now (lookup "waiver" fixture) a v in
        rw p (judge-waived e a low high (rw p at judged))

    no_errors-IsAffordable : Clean ↔ IsAffordable (some e) high
    no_errors-IsAffordable = (
      λ clean.
          elim (parse_waiver-clean from_iso now (lookup "waiver" fixture) (
            ground (
              arith,
              any-append is_error (parse_waiver from_iso now (lookup "waiver" fixture)).1 found,
            ))) [
              | inl n ↦ inl (n, (clean_absent n).0 clean)
              | inr (a, v) ↦ inr (a, v, (clean_waived a v).0 clean)
            ],
      λ enough. elim enough [
        | inl (n, below) ↦ (clean_absent n).1 below
        | inr (a, v, covered) ↦ (clean_waived a v).1 covered
      ],
    )

  gate_of :
      (model : String) (estimate : Option ℤ) (low high : Value) (applied : Bool)
      (found : List CostFinding)
      → let w = parse_waiver from_iso now (lookup "waiver" fixture) in
        judge_estimate estimate low high w.0 w.1 ≡ ok (applied, found)
        → (blocked (
              decide_by (is_true (lookup "valid" fixture) && is_some estimate) (
                query_findings model fixture estimate
                ++ (window_findings fixture ++ (w.1 ++ found))))
            ≡ false)
          ↔ ((is_true (lookup "valid" fixture) ≡ true)
              × ((model == "fct_orders" || is_true (lookup "partition_filter_present" fixture))
                  ≡ true)
              × WithinWindow
                  (plain_int_at "requested_scan_window_days" fixture)
                  (plain_int_at "maximum_scan_window_days" fixture)
              × IsAffordable estimate high)
  gate_of model none low high applied found judged = (λ b. ground arith, λ a. elim a.3 [ ])
  gate_of model (some e) low high applied found judged =
      let w = parse_waiver from_iso now (lookup "waiver" fixture) in
      let sum =
        blocked-decide_by (is_true (lookup "valid" fixture) && true)
          (query_findings model fixture (some e)) (window_findings fixture) (w.1 ++ found) in
      let query = no_errors-query model fixture (some e) in
      let in_window = no_errors-window fixture in
      let clean = no_errors-IsAffordable e low high applied found judged in
      (
        λ b. (
          ground (arith, sum, query),
          ground (arith, sum, query),
          in_window.0 (ground (arith, sum, query)),
          clean.0 (ground (arith, sum, query)),
        ),
        λ (v, f, i, c). let x = in_window.1 i in let y = clean.1 c in ground (arith, sum, query),
      )

  -- Let the evaluation of a fixture return. Its result is not blocked exactly when the fixture is
  -- valid and has an estimate, has the partition filter or is about fct_orders, asks for a positive
  -- window within the model's, and either has no waiver and an estimate below the blocking
  -- threshold, or a waiver with owner and reason that has not expired and approves at least the
  -- estimate.
  pub not_blocked_iff :
      {r : CostPolicyResult}
      → evaluate_cost_policy from_iso now policy fixture ≡ ok r
      → (blocked r.decision ≡ false) ↔ IsAdmitted r
  not_blocked_iff {r} h =
      let (applied, found, (judged, decided)) = evaluated h in
      let gate =
        gate_of r.model r.estimated_bytes r.warning_threshold_bytes r.blocking_threshold_bytes
          applied found judged in
      (
        λ b.
            let (v, f, i, c) = gate.0 (rw decided at b) in
            record { valid = v; filtered = f; window = i; affordable = c },
        λ a. rw decided (gate.1 (a.valid, a.filtered, a.window, a.affordable)),
      )
