-- ===== src/DataPlatform/SlimCi/Gated.antt =====
-- The slim CI of slim_ci.py with the contract gate of contracts.py.
use kafka_order_event_platfo.Prelude.{
  ℕ, String, string_eq, false, Option, none, some, List, [], ◌∷◌, length, map, filter, any, ◌≡◌,
  refl, sym, ap, ◌∙◌, subst, arith, if◌then◌else◌, Bool-cases, inl, inr,
}
use kafka_order_event_platfo.Dict.{lookup}
use kafka_order_event_platfo.DataPlatform.Values.{Value}
use kafka_order_event_platfo.DataPlatform.Results.{Result, ok, err, first_ok, ok_subst}
use kafka_order_event_platfo.DataPlatform.Contracts.{
  Python, Object, Manifest, ContractReport, ContractFinding, passed, blocked, is_blocking,
  published_models,
}
use kafka_order_event_platfo.DataPlatform.Contracts.Columns.{collect}
use kafka_order_event_platfo.DataPlatform.Contracts.Comparison.{
  load_manifest, report_of, compare_model, compare_manifests, compare_contracts,
}
use kafka_order_event_platfo.DataPlatform.Contracts.Passed.{IsFound, compare_contracts-IsFound}
use kafka_order_event_platfo.DataPlatform.SlimCi.{
  World, CiOutcome, returned, raised, other_error, Mode, state_modified_plus, full_ci_fallback,
  CiStatus, SlimCiResult,
}
use kafka_order_event_platfo.DataPlatform.SlimCi.Commands.{LineReader}
use kafka_order_event_platfo.DataPlatform.SlimCi.Job.{Job, Outside}
use kafka_order_event_platfo.DataPlatform.SlimCi.Orchestration.{run_slim_ci}
use kafka_order_event_platfo.DataPlatform.SlimCi.Reported.{Verdict, run_slim_ci-IsReported}

-- `contract_report.blocking_count`
unfoldable pub blocking_count : ContractReport → ℕ
blocking_count report = length (filter is_blocking report.findings)

-- A ContractInputError, or what Python raises on a value of the wrong shape, is no SlimCIError.
abbrev pub gate_of : Result ContractReport → CiOutcome ℕ
gate_of (ok report) = returned (blocking_count report)
gate_of (err e) = raised (other_error "contract comparison")

-- `base_target / "manifest.json" if mode == "state_modified_plus" else None`
abbrev pub previous_for : Option (Option Value) → Mode → Option (Option Value)
previous_for base state_modified_plus = base
previous_for base full_ci_fallback = none

module _ (python : Python) (base : Option (Option Value)) (document : Option Value) where
  -- The contract gate, given the manifests of the base and of the current project.
  abbrev pub contract_gate : Mode → CiOutcome ℕ
  contract_gate mode = gate_of (compare_contracts python (previous_for base mode) document)

none_blocking :
    (findings : List ContractFinding)
    → length (filter is_blocking findings) ≡ 0
    → any is_blocking findings ≡ false
none_blocking [] h = refl
none_blocking (f ∷ findings) h = elim (Bool-cases (is_blocking f)) [
  | inl blocks ↦ absurd (ground (arith, h, blocks))
  | inr passes ↦ ground (arith, passes, none_blocking findings (ground (arith, h, passes)))
]

report_of-passed :
    (python : Python) (previous current : Manifest) (findings : List ContractFinding)
    → blocking_count (report_of python previous current findings) ≡ 0
    → (report_of python previous current findings).status ≡ passed
unfolding blocking_count
report_of-passed python previous current findings h =
    ap (λ b. if b then blocked else passed)
      (none_blocking (report_of python previous current findings).findings h)

compare_contracts-passed :
    (python : Python) (previous_document document : Option Value) (report : ContractReport)
    → compare_contracts python (some previous_document) document ≡ ok report
    → blocking_count report ≡ 0
    → report.status ≡ passed
unfolding compare_contracts compare_manifests
compare_contracts-passed python previous_document document report h zero =
    let (now, _, rest) = first_ok (load_manifest document) _ h in
    let (before, _, compared) = first_ok (load_manifest previous_document) _ rest in
    let models = published_models python before.nodes in
    let (findings, _, made) =
      first_ok (collect (map (compare_model python before now) models)) _ compared in
    ok_subst (λ r. blocking_count r ≡ 0 → r.status ≡ passed) made
      (report_of-passed python before now findings) zero

gate_of-ok :
    (m : Result ContractReport)
    → gate_of m ≡ returned 0
    → (report : ContractReport) × (m ≡ ok report) × (blocking_count report ≡ 0)
gate_of-ok (ok report) h = (report, refl, ground (arith, h))
gate_of-ok (err e) h = absurd (ground (arith, h))

abbrev pub gated : Outside → Python → Option Value → Option Value → Outside
gated outside python before document = record outside {
  compared = contract_gate python (some before) document;
}

kept_by_gate :
    (python : Python) (before document : Option Value) {previous current : Manifest}
    → contract_gate python (some before) document state_modified_plus ≡ returned 0
    → load_manifest before ≡ ok previous
    → load_manifest document ≡ ok current
    → (id : String) (old_node : Object)
    → lookup id (published_models python previous.nodes) ≡ some old_node
    → IsFound python previous current id old_node
        (lookup id (published_models python current.nodes))
kept_by_gate python before document gate p c =
    let (report, compared, zero) =
      gate_of-ok (compare_contracts python (some before) document) gate in
    compare_contracts-IsFound python before document p c compared
      (compare_contracts-passed python before document report compared zero)

module _ (job : Job) (outside : Outside) (reader : LineReader) (python : Python)
    (before document : Option Value) {previous current : Manifest} where
  -- A run of the slim CI, of which the contract gate compares the manifests of the base and of the
  -- current project, both of which can be loaded. If its result has passed and was compared with the
  -- base, then every model that the base publishes is kept by the current project, with its columns,
  -- their types, its contract, its grain, its keys and its tests.
  pub run_slim_ci-IsFound :
      (w : World) {v : World} {result : SlimCiResult}
      → run_slim_ci job (gated outside python before document) reader w ≡ (returned result, v)
      → result.status ≡ CiStatus.passed
      → result.mode ≡ state_modified_plus
      → load_manifest before ≡ ok previous
      → load_manifest document ≡ ok current
      → (id : String) (old_node : Object)
      → lookup id (published_models python previous.nodes) ≡ some old_node
      → IsFound python previous current id old_node
          (lookup id (published_models python current.nodes))
  run_slim_ci-IsFound w {v} {result} ran status mode =
      let outside = gated outside python before document in
      let reported = run_slim_ci-IsReported job outside reader w v result ran in
      let verdict : Verdict job outside reader CiStatus.passed result v.schemas =
        subst (λ s. Verdict job outside reader s result v.schemas) status reported.verdict in
      kept_by_gate python before document
        (ap (contract_gate python (some before) document) (sym mode) ∙ verdict.1.0.1)
