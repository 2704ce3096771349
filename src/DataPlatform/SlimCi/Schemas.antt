-- ===== src/DataPlatform/SlimCi/Schemas.antt =====
-- cleanup_ci_schemas of slim_ci.py: dropping the schemas of a run.
use Prim.Native.String.{◌++◌ as concat}
use kafka_order_event_platfo.Prelude.{
  ℕ, String, Bool, false, not, ◌&&◌, ◌||◌, Option, none, some, List, [], ◌∷◌, leb, any, all, filter,
  ◌==◌, nat_eq, string_eq, if◌then◌else◌,
}
use kafka_order_event_platfo.DataPlatform.Values.{codes}
use kafka_order_event_platfo.DataPlatform.SlimCi.{
  Ci, CiOutcome, returned, raised, slim_error, ◌>>◌, give, fail_if,
}

-- `_SAFE_RUN_ID.fullmatch`
abbrev pub is_run_code : ℕ → Bool
is_run_code c = (leb b'a' c && leb c b'z') || (leb b'0' c && leb c b'9') || c == b'_'

abbrev pub is_run_id : List ℕ → Bool
is_run_id [] = false
is_run_id (c ∷ cs) = is_run_code c && all is_run_code cs

-- `cs.removeprefix(prefix)`, where `cs` has the prefix
abbrev pub after_prefix : List ℕ → List ℕ → Option (List ℕ)
after_prefix [] cs = some cs
after_prefix (p ∷ ps) [] = none
after_prefix (p ∷ ps) (c ∷ cs) = let rest = after_prefix ps cs in if p == c then rest else none

-- a prefix that may be cleaned up
unfoldable pub is_safe_prefix : String → Bool
is_safe_prefix prefix = elim (after_prefix (codes "analytics_ci_") (codes prefix)) [
  | none ↦ false
  | some rest ↦ is_run_id rest
]

-- `schema_name like '{prefix}\_%'`: an underscore of the prefix stands for any character there,
-- and the last one for itself
unfoldable pub is_like : List ℕ → List ℕ → Bool
is_like [] [] = false
is_like [] (c ∷ cs) = c == b'_'
is_like (p ∷ ps) [] = false
is_like (p ∷ ps) (c ∷ cs) = (p == b'_' || p == c) && is_like ps cs

-- `schema_name.startswith(f"{prefix}_")`
unfoldable pub is_below : List ℕ → List ℕ → Bool
is_below [] [] = false
is_below [] (c ∷ cs) = c == b'_'
is_below (p ∷ ps) [] = false
is_below (p ∷ ps) (c ∷ cs) = p == c && is_below ps cs

-- the rows of the query
abbrev pub is_selected : List String → String → Bool
is_selected prefixes name =
    any (λ prefix. name == prefix || is_like (codes prefix) (codes name)) prefixes

-- the test before a schema is dropped
abbrev pub is_owned : List String → String → Bool
is_owned prefixes name =
    any (λ prefix. name == prefix || is_below (codes prefix) (codes name)) prefixes

abbrev pub remove : String → List String → List String
remove name schemas = filter (λ s. not (s == name)) schemas

-- the loop over the rows, on the schemas of the transaction
unfoldable pub drop_schemas : List String → List String → List String → CiOutcome (List String)
drop_schemas prefixes [] schemas = returned schemas
drop_schemas prefixes (name ∷ names) schemas =
    let rest = drop_schemas prefixes names (remove name schemas) in
    if is_owned prefixes name
    then rest
    else raised (slim_error (concat "refusing unsafe schema cleanup: " name))

unfoldable pub check_prefixes : List String → Ci (Unit {0})
unfolding is_safe_prefix
check_prefixes [] = give tt
check_prefixes (prefix ∷ prefixes) =
    fail_if (not (is_safe_prefix prefix)) (slim_error (concat "unsafe CI schema prefix: " prefix))
    >> check_prefixes prefixes

-- What happens up to the commit: all of it works, or something raises before, such as the database,
-- or `int` on POSTGRES_PORT with an error of another class.
unfoldable pub ask_database : Ci (Unit {0})
ask_database w = elim w.connects [
  | [] ↦ (returned tt, w)
  | none ∷ rest ↦ (returned tt, record w { connects = rest })
  | some e ∷ rest ↦ (raised e, record w { connects = rest })
]

-- The transaction: what is raised before the commit leaves the schemas as they were.
unfoldable pub drop_selected : List String → Ci (Unit {0})
unfolding drop_schemas
drop_selected prefixes w =
    elim (drop_schemas prefixes (filter (is_selected prefixes) w.schemas) w.schemas) [
      | returned left ↦ (returned tt, record w { schemas = left })
      | raised e ↦ (raised e, w)
    ]

unfoldable pub cleanup_ci_schemas : List String → Ci (Unit {0})
unfolding check_prefixes ask_database drop_selected
cleanup_ci_schemas prefixes = do check_prefixes prefixes; ask_database; drop_selected prefixes
