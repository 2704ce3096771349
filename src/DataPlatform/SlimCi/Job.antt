-- ===== src/DataPlatform/SlimCi/Job.antt =====
-- The arguments of run_slim_ci of slim_ci.py, and what it is given by the code around it.
use kafka_order_event_platfo.Prelude.{ℕ, String, Bool, Option, List, nat_eq, string_eq}
use kafka_order_event_platfo.DataPlatform.SlimCi.{CiOutcome, Mode}

-- The arguments of a run, with its resolved paths, the directory of the base's checkout and the
-- secrets of the environment.
pub record Job : Type 0 where
  pub repo_root : String
  pub base_ref : Option String
  pub run_id : String
  pub run_state : String
  pub base_checkout : String
  pub convention_report : String
  pub contract_report : String
  pub run_python_checks : Bool
  pub secrets : List String

-- What the calls on files give, and the two gates: the number of findings that block, given for
-- the contracts the mode, which says whether there is a previous manifest.
pub record Outside : Type 0 where
  pub made : CiOutcome (Unit {0})
  pub unpacked : CiOutcome (Unit {0})
  pub profile_is_file : Bool
  pub copied : CiOutcome (Unit {0})
  pub validated : CiOutcome ℕ
  pub compared : Mode → CiOutcome ℕ
  pub preserved : CiOutcome (Unit {0})
  pub written : CiOutcome (Unit {0})
