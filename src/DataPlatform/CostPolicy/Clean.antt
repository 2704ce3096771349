-- ===== src/DataPlatform/CostPolicy/Clean.antt =====
-- Where each part of an evaluation of bigquery_cost_policy.py finds no error.
use kafka_order_event_platfo.Prelude.{
  ℕ, ◌<◌, String, Bool, true, false, not, ◌&&◌, ◌||◌, Option, none, some, List, [], ◌++◌, ◌==◌,
  string_eq, any, any-append, ◌≡◌, refl, Option-cases, ◌⊎◌, inl, inr, ◌↔◌, arith,
}
use kafka_order_event_platfo.Prelude.Int.{ℤ, pos, ◌≤ℤ◌, ◌<ℤ◌}
use kafka_order_event_platfo.Dict.{Dict, lookup}
use kafka_order_event_platfo.DataPlatform.Values.{
  Value, null, bool, int, float, text, array, object, entries, is_true, is_blank_value,
}
use kafka_order_event_platfo.DataPlatform.Results.{Result, ok, err}
use kafka_order_event_platfo.DataPlatform.CostPolicy.{CostFinding, is_error, blocked, plain_int_at}
use kafka_order_event_platfo.DataPlatform.CostPolicy.Evaluation.{
  Moment, naive, aware, number, query_findings, window_findings, judge, judge_covered,
  judge_thresholds, decide_by, expiry_of, waiver_object, parse_waiver, is_some,
}

-- The requested window is positive and at most the model's.
abbrev pub WithinWindow : Option ℤ → Option ℤ → Type 0
WithinWindow none maximum = ⊥
WithinWindow (some r) none = ⊥
WithinWindow (some r) (some m) = (pos 0 <ℤ r) × (r ≤ℤ m)

abbrev pub Below : ℤ → Result ℤ → Type 0
Below e (ok limit) = e <ℤ limit
Below e (err _) = ⊥

abbrev pub NoWaiver : Option Value → Type 0
NoWaiver w = (w ≡ none) ⊎ (w ≡ some null)

pub no_errors-window :
    (fixture : Dict String Value)
    → (any is_error (window_findings fixture) ≡ false)
      ↔ WithinWindow
          (plain_int_at "requested_scan_window_days" fixture)
          (plain_int_at "maximum_scan_window_days" fixture)
unfolding window_findings
no_errors-window fixture = ground arith

module _ (from_iso : String → Option Moment) (now : ℕ) where
  -- an instant of UTC that is still to come
  abbrev pub IsUnexpired : Option Moment → Type 0
  IsUnexpired none = ⊥
  IsUnexpired (some naive) = ⊥
  IsUnexpired (some (aware instant false)) = ⊥
  IsUnexpired (some (aware instant true)) = now < instant

  -- A waiver with an owner and a reason, unexpired, that approves a positive number of bytes.
  abbrev pub ValidObject : Dict String Value → ℤ → Type 0
  ValidObject w a =
      (is_blank_value (lookup "owner" w) ≡ false)
      × (is_blank_value (lookup "reason" w) ≡ false)
      × IsUnexpired (expiry_of from_iso now (lookup "expires_at" w))
      × (plain_int_at "approved_threshold_bytes" w ≡ some a)
      × (pos 0 <ℤ a)

  abbrev pub ValidWaiver : Option Value → ℤ → Type 0
  ValidWaiver none a = ⊥
  ValidWaiver (some null) a = ⊥
  ValidWaiver (some (bool _)) a = ⊥
  ValidWaiver (some (int _)) a = ⊥
  ValidWaiver (some (float _ _)) a = ⊥
  ValidWaiver (some (text _)) a = ⊥
  ValidWaiver (some (array _)) a = ⊥
  ValidWaiver (some (object fs)) a = ValidObject (entries fs) a

  pub waiver_object-clean :
      (w : Dict String Value)
      → any is_error (waiver_object from_iso now w).1 ≡ false
      → (a : ℤ) × ValidObject w a
  unfolding waiver_object
  waiver_object-clean w clean = elim (Option-cases (plain_int_at "approved_threshold_bytes" w)) [
    | inl missing ↦ absurd (ground arith)
    | inr (a, given) ↦ (a, (ground arith, ground arith, ground arith, given, ground arith))
  ]

  pub waiver_object-valid :
      (w : Dict String Value) (a : ℤ)
      → ValidObject w a
      → waiver_object from_iso now w ≡ (some a, [])
  unfolding waiver_object
  waiver_object-valid w a h = ground arith

  pub parse_waiver-clean :
      (w : Option Value)
      → any is_error (parse_waiver from_iso now w).1 ≡ false
      → NoWaiver w ⊎ ((a : ℤ) × ValidWaiver w a)
  unfolding parse_waiver
  parse_waiver-clean none clean = inl (inl refl)
  parse_waiver-clean (some null) clean = inl (inr refl)
  parse_waiver-clean (some (bool _)) clean = cc
  parse_waiver-clean (some (int _)) clean = cc
  parse_waiver-clean (some (float _ _)) clean = cc
  parse_waiver-clean (some (text _)) clean = cc
  parse_waiver-clean (some (array _)) clean = cc
  parse_waiver-clean (some (object fs)) clean = inr (waiver_object-clean (entries fs) clean)

  pub parse_waiver-absent :
      (w : Option Value) → NoWaiver w → parse_waiver from_iso now w ≡ (none, [])
  unfolding parse_waiver
  parse_waiver-absent w (inl h) = rw h refl
  parse_waiver-absent w (inr h) = rw h refl

  pub parse_waiver-valid :
      (w : Option Value) (a : ℤ) → ValidWaiver w a → parse_waiver from_iso now w ≡ (some a, [])
  unfolding parse_waiver
  parse_waiver-valid none a h = elim h [ ]
  parse_waiver-valid (some null) a h = elim h [ ]
  parse_waiver-valid (some (bool _)) a h = elim h [ ]
  parse_waiver-valid (some (int _)) a h = elim h [ ]
  parse_waiver-valid (some (float _ _)) a h = elim h [ ]
  parse_waiver-valid (some (text _)) a h = elim h [ ]
  parse_waiver-valid (some (array _)) a h = elim h [ ]
  parse_waiver-valid (some (object fs)) a h = waiver_object-valid (entries fs) a h

-- Without a waiver an estimate has no error just where it is below the blocking threshold.
pub judge-plain :
    (e : ℤ) (low high : Value) {applied : Bool} {found : List CostFinding}
    → judge e low high none [] ≡ ok (applied, found)
    → (any is_error found ≡ false) ↔ Below e (number high)
unfolding judge judge_thresholds
judge-plain e low high {applied} {found} h = ground arith

-- A valid waiver replaces the threshold.
pub judge-waived :
    (e a : ℤ) (low high : Value) {applied : Bool} {found : List CostFinding}
    → judge e low high (some a) [] ≡ ok (applied, found)
    → (any is_error found ≡ false) ↔ (e ≤ℤ a)
unfolding judge judge_thresholds judge_covered
judge-waived e a low high {applied} {found} h = ground arith

pub no_errors-query :
    (model : String) (fixture : Dict String Value) (e : Option ℤ)
    → any is_error (query_findings model fixture e)
      ≡ not (
          is_true (lookup "valid" fixture)
          && is_some e
          && (model == "fct_orders" || is_true (lookup "partition_filter_present" fixture)))
unfolding query_findings
no_errors-query model fixture e = ground arith

pub blocked-decide_by :
    (v : Bool) (q w s : List CostFinding)
    → blocked (decide_by v (q ++ (w ++ s)))
      ≡ (not v || any is_error q || any is_error w || any is_error s)
blocked-decide_by v q w s = ground (arith, any-append is_error q (w ++ s), any-append is_error w s)
