-- ===== src/DataPlatform/SlimCi.antt =====
-- slim_ci.py: results, the world of a run, and one command.
pub mod Schemas
pub mod Commands
pub mod Job
pub mod Orchestration
pub mod Cleanup
pub mod Runs
pub mod Green
pub mod Reported
pub mod Gated
use Prim.Native.String.{◌++◌ as concat}
use kafka_order_event_platfo.Prelude.{
  ℕ, zero, suc, ◌-◌, String, Bool, true, false, ◌&&◌, Option, none, some, List, [], ◌∷◌, ◌++◌,
  length, ltb, ◌==◌, nat_eq, string_eq, if◌then◌else◌,
}
use kafka_order_event_platfo.Text.{join, decimal}
use kafka_order_event_platfo.DataPlatform.Values.{codes}
use text.Mathlib.Text.{starts_with}

pub record CommandResult : Type 0 where
  pub command : List String
  pub exit_code : ℕ
  pub output_tail : String

pub data CiStatus : Type 0 where
  passed failed : CiStatus

pub data Mode : Type 0 where
  state_modified_plus full_ci_fallback : Mode

pub record SlimCiResult : Type 0 where
  pub status : CiStatus
  pub mode : Mode
  pub run_id : String
  pub base_ref : Option String
  pub base_git_sha : Option String
  pub current_git_sha : Option String
  pub selected_models : List String
  pub state_directory : String
  pub convention_report : String
  pub contract_report : String
  pub commands : List CommandResult
  pub error : Option String

-- What a run can raise: its own error, an OSError, an error of the database, or an error of
-- another class, each with its message.
pub data CiError : Type 0 where
  slim_error os_error database_error other_error : String → CiError

-- How a subprocess ends: with an exit code (a signal counts as some code that is not 0), an output
-- on stdout and one on stderr, and the schemas that the database has afterwards; or it cannot be
-- started.
pub data CommandEnd : Type 0 where
  exited : ℕ → String → String → List String → CommandEnd
  not_started : String → CommandEnd

-- The state of a run with the variables that its handler reads, and what the calls outside the
-- program will give.
pub record World : Type 0 where
  pub ends : List CommandEnd
  pub connects : List (Option CiError)
  pub evidence : List CommandResult
  pub schemas : List String
  pub summary : Option SlimCiResult
  pub mode : Mode
  pub base_git_sha : Option String
  pub selected_models : List String

pub data CiOutcome (A : Type 0) : Type 0 where
  returned : A → CiOutcome A
  raised : CiError → CiOutcome A

abbrev pub Ci : Type 0 → Type 0
Ci A = World → CiOutcome A × World

infixl 8 ◌>>=◌
infixl 8 ◌>>◌
unfoldable pub ◌>>=◌ : {A B : Type 0} → Ci A → (A → Ci B) → Ci B
◌>>=◌ m next w = let (o, v) = m w in elim o [ raised e ↦ (raised e, v) | returned a ↦ next a v ]

abbrev pub ◌>>◌ : {B : Type 0} → Ci (Unit {0}) → Ci B → Ci B
m >> next = m >>= λ _. next

abbrev pub give : {A : Type 0} → A → Ci A
give a w = (returned a, w)

abbrev pub fail : {A : Type 0} → CiError → Ci A
fail e w = (raised e, w)

abbrev pub lift : {A : Type 0} → CiOutcome A → Ci A
lift o w = (o, w)

abbrev pub fail_if : Bool → CiError → Ci (Unit {0})
fail_if b e w = (if b then raised e else returned tt, w)

-- `text.replace(old, new)`; the number counts the characters of an occurrence that are left
unfoldable pub replace_from : String → String → ℕ → String → String
replace_from old new skip String.[] = ""
replace_from old new skip (String.◌∷◌ c s) =
    let skipped = replace_from old new (skip - 1) s in
    let replaced = concat new (replace_from old new (length (codes old) - 1) s) in
    let kept = String.◌∷◌ c (replace_from old new 0 s) in
    if ltb 0 skip then skipped else if starts_with (String.◌∷◌ c s) old then replaced else kept

-- `text[-4000:]`
unfoldable pub drop_chars : ℕ → String → String
drop_chars zero s = s
drop_chars (suc n) String.[] = ""
drop_chars (suc n) (String.◌∷◌ c s) = drop_chars n s

unfoldable pub hide : List String → String → String
hide [] s = s
hide (secret ∷ secrets) s =
    let hidden = hide secrets (replace_from secret "[REDACTED]" 0 s) in
    if secret == "" then hide secrets s else hidden

-- `_redact`, given the secrets of the environment
unfoldable pub redact_output : List String → String → String
unfolding hide drop_chars
redact_output secrets s =
    let shown = hide secrets s in drop_chars (length (codes shown) - 4000) shown

-- `_run`, which returns the command's stdout
unfoldable pub run_command : List String → List String → Ci String
run_command secrets command w = elim w.ends [
  | [] ↦ (raised (os_error "no subprocess"), w)
  | not_started message ∷ rest ↦ (raised (os_error message), record w { ends = rest })
  | exited code out error_out schemas ∷ rest ↦ (
    if code == 0
        then returned out
        else raised (
            slim_error (
              concat "command failed (" (concat (decimal code) (concat "): " (join " " command))))),
    record w {
      ends = rest;
      schemas = schemas;
      evidence =
          w.evidence
          ++ (record {
            command = command;
            exit_code = code;
            output_tail = redact_output secrets (concat out error_out);
          }
              ∷ []);
    },
  )
]
