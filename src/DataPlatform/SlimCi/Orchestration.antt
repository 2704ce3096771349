-- ===== src/DataPlatform/SlimCi/Orchestration.antt =====
-- run_slim_ci of slim_ci.py.
use Prim.Native.String.{◌++◌ as concat}
use kafka_order_event_platfo.Prelude.{
  String, Bool, true, false, not, Option, none, some, List, [], ◌∷◌, ◌==◌, nat_eq, string_eq,
  if◌then◌else◌,
}
use kafka_order_event_platfo.DataPlatform.Values.{codes}
use kafka_order_event_platfo.DataPlatform.SlimCi.{
  World, Ci, CiOutcome, returned, raised, CiError, slim_error, os_error, database_error,
  other_error, ◌>>=◌, ◌>>◌, give, fail_if, lift, run_command, Mode, state_modified_plus,
  full_ci_fallback, CiStatus, passed, failed, SlimCiResult,
}
use kafka_order_event_platfo.DataPlatform.SlimCi.Schemas.{is_run_id, cleanup_ci_schemas}
use kafka_order_event_platfo.DataPlatform.SlimCi.Commands.{
  LineReader, selected_models_of, run_git, git_value, path, dbt_command, listing,
}
use kafka_order_event_platfo.DataPlatform.SlimCi.Job.{Job, Outside}

module _ (job : Job) (outside : Outside) (reader : LineReader) where
  abbrev pub current_project : String
  current_project = path job.repo_root "dbt"

  abbrev pub base_project : String
  base_project = path job.base_checkout "dbt"

  abbrev pub current_target : String
  current_target = path job.run_state "current"

  abbrev pub base_target : String
  base_target = path job.run_state "base"

  abbrev pub prefixes : List String
  prefixes = concat "analytics_ci_base_" job.run_id ∷ concat "analytics_ci_current_" job.run_id ∷ []

  abbrev pub dbt_base : List String → Ci String
  dbt_base action =
      run_command job.secrets (dbt_command action base_project base_project base_target [])

  abbrev pub dbt_current : List String → List String → Ci String
  dbt_current action extra =
      run_command job.secrets
        (dbt_command action current_project current_project current_target extra)

  abbrev pub set_base_git_sha : Option String → Ci (Unit {0})
  set_base_git_sha sha w = (returned tt, record w { base_git_sha = sha })

  abbrev pub set_mode : Mode → Ci (Unit {0})
  set_mode mode w = (returned tt, record w { mode = mode })

  abbrev pub set_selected_models : List String → Ci (Unit {0})
  set_selected_models names w = (returned tt, record w { selected_models = names })

  unfoldable pub unpack_archive : String → Ci (Option String)
  unpack_archive sha = do
    (code, out) ← run_git
    if code == 0 then (do lift outside.unpacked; give (some sha)) else give none

  unfoldable pub unpack_revision : Option String → Ci (Option String)
  unpack_revision none = give none
  unpack_revision (some sha) = unpack_archive sha

  -- `_extract_revision`
  unfoldable pub extract_revision : Ci (Option String)
  extract_revision = do sha ← git_value; unpack_revision sha

  -- `if base_ref`
  unfoldable pub find_base : Option String → Ci (Option String)
  find_base none = give none
  find_base (some ref) = if ref == "" then give none else extract_revision

  -- `_copy_profile`
  unfoldable pub copy_profile : Ci (Unit {0})
  copy_profile = do
    fail_if (not outside.profile_is_file)
        (slim_error (concat "dbt profile is unavailable: " (path current_project "profiles.yml")))
    lift outside.copied

  unfoldable pub build_base : Option String → Ci (Unit {0})
  build_base none = give tt
  build_base (some sha) = do
    set_mode state_modified_plus
    copy_profile
    _ ← dbt_base ("deps" ∷ [])
    _ ← dbt_base ("build" ∷ [])
    _ ← dbt_base ("docs" ∷ "generate" ∷ [])
    give tt

  unfoldable pub check_conventions : Ci (Unit {0})
  check_conventions = do
    errors ← lift outside.validated
    fail_if (not (errors == 0)) (slim_error "convention validation contains blocking findings")

  unfoldable pub check_contracts : Ci (Unit {0})
  check_contracts w =
      (do
        blocking ← lift (outside.compared w.mode)
        fail_if (not (blocking == 0)) (slim_error "contract comparison contains blocking findings"))
        w

  -- the two gates before anything of the current project is built
  unfoldable pub check_current : Ci (Unit {0})
  check_current = do
    _ ← dbt_current ("deps" ∷ []) []
    _ ← dbt_current ("parse" ∷ []) []
    check_conventions
    check_contracts

  -- `select_modified_models`
  unfoldable pub select_modified_models : Ci (List String)
  select_modified_models = do
    out ←
        dbt_current ("ls" ∷ []) ("--select" ∷ "state:modified+" ∷ "--state" ∷ base_target ∷ listing)
    give (selected_models_of reader out)

  unfoldable pub build_current : Mode → Ci (Unit {0})
  build_current state_modified_plus = do
    names ← select_modified_models
    set_selected_models names
    _ ←
        dbt_current ("build" ∷ [])
          ("--select" ∷ "state:modified+" ∷ "--defer" ∷ "--state" ∷ base_target ∷ [])
    give tt
  build_current full_ci_fallback = do
    out ← dbt_current ("ls" ∷ []) listing
    set_selected_models (selected_models_of reader out)
    _ ← dbt_current ("build" ∷ []) []
    give tt

  unfoldable pub python_checks : Bool → Ci (Unit {0})
  python_checks false = give tt
  python_checks true = do
    _ ← run_command job.secrets ("make" ∷ "lint" ∷ [])
    _ ← run_command job.secrets ("make" ∷ "typecheck" ∷ [])
    _ ← run_command job.secrets ("make" ∷ "test" ∷ [])
    give tt

  unfoldable pub finish : Ci (Unit {0})
  finish = do
    lift outside.preserved
    _ ← dbt_current ("docs" ∷ "generate" ∷ []) []
    _ ← dbt_current ("source" ∷ "freshness" ∷ []) []
    python_checks job.run_python_checks

  -- the body of the `try` up to the cleanup
  unfoldable pub build_all : Ci (Unit {0})
  build_all = do
    lift outside.made
    sha ← find_base job.base_ref
    set_base_git_sha sha
    build_base sha
    check_current
    mode ← λ w. (returned w.mode, w)
    build_current mode
    finish

  abbrev pub result_of : Option String → CiStatus → Option String → World → SlimCiResult
  result_of current_git_sha status error w = record {
    status = status;
    mode = w.mode;
    run_id = job.run_id;
    base_ref = job.base_ref;
    base_git_sha = w.base_git_sha;
    current_git_sha = current_git_sha;
    selected_models = w.selected_models;
    state_directory = job.run_state;
    convention_report = job.convention_report;
    contract_report = job.contract_report;
    commands = w.evidence;
    error = error;
  }

  -- `_write_summary`, and the return of the result
  unfoldable pub write_summary : SlimCiResult → Ci SlimCiResult
  write_summary result w = elim outside.written [
    | returned _ ↦ (returned result, record w { summary = some result })
    | raised e ↦ (raised e, w)
  ]

  abbrev pub message_of : CiError → String
  message_of (slim_error message) = message
  message_of (os_error message) = message
  message_of (database_error message) = message
  message_of (other_error message) = message

  abbrev pub is_caught : CiError → Bool
  is_caught (slim_error _) = true
  is_caught (os_error _) = true
  is_caught (database_error _) = false
  is_caught (other_error _) = false

  abbrev pub is_caught_in_cleanup : CiError → Bool
  is_caught_in_cleanup (other_error _) = false
  is_caught_in_cleanup (slim_error _) = true
  is_caught_in_cleanup (os_error _) = true
  is_caught_in_cleanup (database_error _) = true

  -- the cleanup of the handler
  unfoldable pub settle_cleanup : Option String → CiError → CiOutcome (Unit {0}) → Ci SlimCiResult
  settle_cleanup current_git_sha error (returned _) w =
      write_summary (result_of current_git_sha failed (some (message_of error)) w) w
  settle_cleanup current_git_sha error (raised e) w =
      let message = concat (message_of error) (concat "; cleanup failed: " (message_of e)) in
      let report = write_summary (result_of current_git_sha failed (some message) w) w in
      if is_caught_in_cleanup e then report else (raised e, w)

  -- the handler of the `try`, and what follows it
  unfoldable pub settle_run : Option String → CiOutcome (Unit {0}) → Ci SlimCiResult
  settle_run current_git_sha (returned _) w =
      write_summary (result_of current_git_sha passed none w) w
  settle_run current_git_sha (raised error) w =
      let (cleaned, v) = cleanup_ci_schemas prefixes w in
      let handled = settle_cleanup current_git_sha error cleaned v in
      if is_caught error then handled else (raised error, w)

  unfoldable pub try_run : Option String → Ci SlimCiResult
  try_run current_git_sha w =
      let (o, v) = (build_all >> cleanup_ci_schemas prefixes) w in settle_run current_git_sha o v

  -- the variables of a run before the `try`
  abbrev pub begin_run : Ci (Unit {0})
  begin_run w = (
    returned tt,
    record w { evidence = []; mode = full_ci_fallback; base_git_sha = none; selected_models = [] },
  )

  unfoldable pub run_slim_ci : Ci SlimCiResult
  run_slim_ci = do
    fail_if (not (is_run_id (codes job.run_id)))
        (slim_error "run_id must contain only lowercase letters, digits, and underscores")
    current_git_sha ← git_value
    begin_run
    try_run current_git_sha
