-- ===== src/DataPlatform/SlimCi/Commands.antt =====
-- The commands of slim_ci.py and what is read from their output.
use Prim.Native.Char.{code}
use Prim.Native.String.{◌++◌ as concat}
use kafka_order_event_platfo.Prelude.{
  ℕ, String, Bool, false, not, ◌&&◌, ◌||◌, Option, none, some, List, [], ◌∷◌, ◌++◌, ◌==◌, nat_eq,
  string_eq, if◌then◌else◌,
}
use kafka_order_event_platfo.Dict.{Dict, lookup}
use kafka_order_event_platfo.Sorting.{sorted, distinct}
use kafka_order_event_platfo.Text.{le_text, join}
use kafka_order_event_platfo.DataPlatform.Values.{Value, as_object, is_falsy, equals_text, strip}
use kafka_order_event_platfo.DataPlatform.SlimCi.{
  Ci, returned, raised, os_error, exited, not_started, ◌>>=◌, give,
}

abbrev pub is_break : ℕ → Bool
is_break c =
    (c == 10 || c == 11 || c == 12 || c == 13)
    || (c == 28 || c == 29 || c == 30 || c == 133)
    || (c == 8232 || c == 8233)

abbrev pub starts_with_newline : String → Bool
starts_with_newline String.[] = false
starts_with_newline (String.◌∷◌ c s) = code c == 10

abbrev pub begin_line : String → List String → List String
begin_line first [] = first ∷ []
begin_line first (line ∷ lines) = concat first line ∷ lines

-- `output.splitlines()`
unfoldable pub split_lines : String → List String
split_lines String.[] = []
split_lines (String.◌∷◌ c s) =
    let rest = split_lines s in
    if code c == 13 && starts_with_newline s
    then rest
    else if is_break (code c)
    then "" ∷ rest
    else begin_line (String.◌∷◌ c "") rest

-- A line's value, where it is JSON, and the text of a value.
pub record LineReader : Type 0 where
  pub decode : String → Option Value
  pub show : Value → String

module _ (reader : LineReader) where
  unfoldable pub model_name : Dict String Value → List String
  model_name item =
      let kind = equals_text "model" (lookup "resource_type" item) in
      elim (lookup "name" item) [
        | none ↦ []
        | some name ↦ if kind && not (is_falsy name) then reader.show name ∷ [] else []
      ]

  unfoldable pub line_names : String → List String
  unfolding model_name
  line_names line = elim (reader.decode line) [
    | none ↦ []
    | some value ↦ elim (as_object value) [ none ↦ [] | some item ↦ model_name item ]
  ]

  unfoldable pub names_of_lines : List String → List String
  names_of_lines [] = []
  names_of_lines (line ∷ lines) = line_names line ++ names_of_lines lines

  -- `_selected_models`
  unfoldable pub selected_models_of : String → List String
  unfolding names_of_lines split_lines
  selected_models_of output = sorted le_text (distinct (names_of_lines (split_lines output)))

-- `subprocess.run` on git, whose output is no evidence
unfoldable pub run_git : Ci (ℕ × String)
run_git w = elim w.ends [
  | [] ↦ (raised (os_error "no subprocess"), w)
  | not_started message ∷ rest ↦ (raised (os_error message), record w { ends = rest })
  | exited code out error_out schemas ∷ rest ↦
      (returned (code, out), record w { ends = rest; schemas = schemas })
]

-- `_git_value`
unfoldable pub git_value : Ci (Option String)
unfolding run_git
git_value = do (code, out) ← run_git; give (if code == 0 then some (strip out) else none)

abbrev pub path : String → String → String
path directory name = concat directory (concat "/" name)

-- `_dbt_command`, given the words of the action
abbrev pub dbt_command : List String → String → String → String → List String → List String
dbt_command action project_dir profiles_dir target_path extra =
    let target = if join " " action == "deps" then [] else "--target-path" ∷ target_path ∷ [] in
    ("dbt" ∷ action)
    ++ ("--project-dir"
        ∷ project_dir
        ∷ "--profiles-dir"
        ∷ profiles_dir
        ∷ "--target"
        ∷ "ci"
        ∷ (target ++ extra))

abbrev pub listing : List String
listing =
    "--resource-type" ∷ "model" ∷ "--output" ∷ "json" ∷ "--output-keys" ∷ "name resource_type" ∷ []
