-- ===== src/DataPlatform/SlimCi/Green.antt =====
-- What a run of slim_ci.py that passes has done.
use kafka_order_event_platfo.Prelude.{
  String, Bool, true, false, Option, none, some, List, [], ◌∷◌, ◌==◌, nat_eq, string_eq, ◌≡◌,
}
use kafka_order_event_platfo.DataPlatform.SlimCi.{
  World, Ci, CiOutcome, CiError, returned, raised, ◌>>=◌, give, fail_if, run_command, Mode,
  state_modified_plus, full_ci_fallback,
}
use kafka_order_event_platfo.DataPlatform.SlimCi.Schemas.{
  check_prefixes, ask_database, drop_selected, cleanup_ci_schemas,
}
use kafka_order_event_platfo.DataPlatform.SlimCi.Commands.{LineReader}
use kafka_order_event_platfo.DataPlatform.SlimCi.Job.{Job, Outside}
use kafka_order_event_platfo.DataPlatform.SlimCi.Orchestration.{
  unpack_archive, unpack_revision, extract_revision, find_base, copy_profile, build_base,
  check_conventions, check_contracts, check_current, select_modified_models, build_current,
  python_checks, finish, build_all,
}
use kafka_order_event_platfo.DataPlatform.SlimCi.Runs.{
  Anything, Good, Ended, Runs, Runs_bind, Keeps_bind, Runs_simply, Runs_give, Runs_lift,
  Runs_fail_if, Runs_run_command, Runs_run_git, Runs_git_value, Runs_if, gate,
}

-- The two gates have let the run pass, in the mode that it has.
abbrev pub Gates : Outside → Mode → Type 0
Gates outside mode = (outside.validated ≡ returned 0) × (outside.compared mode ≡ returned 0)

module _ (job : Job) (outside : Outside) (reader : LineReader) where
  module _ (G : Mode → Type 0) where
    -- A command whose output is not read, and the rest of the program.
    ran :
        (secrets command : List String) {next : Ci (Unit {0})}
        → Runs G G next
        → Runs G G (run_command secrets command >>= (λ _. next))
    ran secrets command rest = Keeps_bind G _ _ (Runs_run_command G secrets command) (λ _. rest)

    done : Runs G G (give tt)
    done = Runs_give G tt

    Runs_copy_profile : Runs G G (copy_profile job outside reader)
    unfolding copy_profile
    Runs_copy_profile = Keeps_bind G _ _ (Runs_fail_if G _ _) (λ _. Runs_lift G outside.copied)

    Runs_select_modified_models : Runs G G (select_modified_models job outside reader)
    unfolding select_modified_models
    Runs_select_modified_models = Keeps_bind G _ _ (Runs_run_command G _ _) (λ _. Runs_give G _)

    Runs_build_current : (mode : Mode) → Runs G G (build_current job outside reader mode)
    unfolding build_current
    Runs_build_current state_modified_plus =
        Keeps_bind G _ _ Runs_select_modified_models
          (λ _. Keeps_bind G _ _ (Runs_simply G (λ _ good. good)) (λ _. ran _ _ done))
    Runs_build_current full_ci_fallback =
        Keeps_bind G _ _ (Runs_run_command G _ _)
          (λ _. Keeps_bind G _ _ (Runs_simply G (λ _ good. good)) (λ _. ran _ _ done))

    Runs_python_checks : (b : Bool) → Runs G G (python_checks job outside reader b)
    unfolding python_checks
    Runs_python_checks false = done
    Runs_python_checks true = ran _ _ (ran _ _ (ran _ _ done))

    Runs_finish : Runs G G (finish job outside reader)
    unfolding finish
    Runs_finish =
        Keeps_bind G _ _ (Runs_lift G outside.preserved)
          (λ _. ran _ _ (ran _ _ (Runs_python_checks job.run_python_checks)))

    Runs_unpack_revision : (sha : Option String) → Runs G G (unpack_revision job outside reader sha)
    unfolding unpack_revision unpack_archive
    Runs_unpack_revision none = Runs_give G none
    Runs_unpack_revision (some sha) = Keeps_bind G _ _ (Runs_run_git G) (λ out.
        Runs_if G (out.0 == 0)
          (Keeps_bind G _ _ (Runs_lift G outside.unpacked) (λ _. Runs_give G _)) (Runs_give G _))

    Runs_find_base : (ref : Option String) → Runs G G (find_base job outside reader ref)
    unfolding find_base extract_revision
    Runs_find_base none = Runs_give G none
    Runs_find_base (some ref) =
        Runs_if G (ref == "") (Runs_give G none)
          (Keeps_bind G _ _ (Runs_git_value G) Runs_unpack_revision)

    check_prefixes-Ended :
        (names : List String) (w : World) → Good G w → Ended G (check_prefixes names w)
    unfolding check_prefixes ◌>>=◌
    check_prefixes-Ended [] w good = good
    check_prefixes-Ended (p ∷ names) w good =
        (Keeps_bind G (fail_if _ _) _ (Runs_fail_if G _ _)
            (λ _. Runs_simply G (check_prefixes-Ended names))).ended
          w good

    check_prefixes_runs : (names : List String) → Runs G G (check_prefixes names)
    check_prefixes_runs names = Runs_simply G (check_prefixes-Ended names)

    ask_database_after :
        (connects : List (Option CiError)) (w : World)
        → Good G w
        → Ended G (ask_database (record w { connects = connects }))
    unfolding ask_database
    ask_database_after [] w good = good
    ask_database_after (none ∷ rest) w good = good
    ask_database_after (some message ∷ rest) w good = tt {0}

    dropped-Ended :
        (o : CiOutcome (List String)) (w : World)
        → Good G w
        → Ended {A = Unit {0}} G (elim o [
          | returned left ↦ (returned tt, record w { schemas = left })
          | raised e ↦ (raised e, w)
        ])
    dropped-Ended (returned left) w good = good
    dropped-Ended (raised e) w good = tt {0}

    Runs_drop_selected : (names : List String) → Runs G G (drop_selected names)
    unfolding drop_selected
    Runs_drop_selected names = Runs_simply G (λ w good. dropped-Ended _ w good)

    pub Runs_cleanup : (names : List String) → Runs G G (cleanup_ci_schemas names)
    unfolding cleanup_ci_schemas
    Runs_cleanup names = Keeps_bind G _ _ (check_prefixes_runs names) (λ _.
        Keeps_bind G _ _ (Runs_simply G (λ w good. ask_database_after w.connects w good))
          (λ _. Runs_drop_selected names))

  Runs_build_base :
      (sha : Option String) → Runs Anything Anything (build_base job outside reader sha)
  unfolding build_base
  Runs_build_base none = Runs_give Anything tt
  Runs_build_base (some sha) = Keeps_bind Anything _ _ (Runs_simply Anything (λ _ good. good)) (λ _.
      Keeps_bind Anything _ _ (Runs_copy_profile Anything)
        (λ _. ran Anything _ _ (ran Anything _ _ (ran Anything _ _ (done Anything)))))

  abbrev Convened : Mode → Type 0
  Convened mode = outside.validated ≡ returned 0

  Runs_check_conventions : Runs Anything Convened (check_conventions job outside reader)
  unfolding check_conventions
  Runs_check_conventions = record {
    ended = λ w good. gate outside.validated _ Convened w (λ zero. (good.0, zero));
  }

  Runs_check_contracts : Runs Convened (Gates outside) (check_contracts job outside reader)
  unfolding check_contracts
  Runs_check_contracts = record {
    ended = λ w good.
        gate (outside.compared w.mode) _ (Gates outside) w (λ zero. (good.0, (good.1, zero)));
  }

  Runs_check_current : Runs Anything (Gates outside) (check_current job outside reader)
  unfolding check_current
  Runs_check_current =
      Runs_bind Anything Anything (Gates outside) _ _ (Runs_run_command Anything _ _) (λ _.
        Runs_bind Anything Anything (Gates outside) _ _ (Runs_run_command Anything _ _) (λ _.
          Runs_bind Anything Convened (Gates outside) _ _ Runs_check_conventions
            (λ _. Runs_check_contracts)))

  pub Runs_build_all : Runs Anything (Gates outside) (build_all job outside reader)
  unfolding build_all
  Runs_build_all =
      let G = Gates outside in
      Runs_bind Anything Anything G _ _ (Runs_lift Anything outside.made) (λ _.
        Runs_bind Anything Anything G _ _ (Runs_find_base Anything job.base_ref) (λ sha.
          Runs_bind Anything Anything G _ _ (Runs_simply Anything (λ _ good. good)) (λ _.
            Runs_bind Anything Anything G _ _ (Runs_build_base sha) (λ _.
              Runs_bind Anything G G _ _ Runs_check_current (λ _.
                Keeps_bind G _ _ (Runs_simply G (λ _ good. good))
                  (λ mode. Keeps_bind G _ _ (Runs_build_current G mode) (λ _. Runs_finish G)))))))
