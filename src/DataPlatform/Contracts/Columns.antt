-- ===== src/DataPlatform/Contracts/Columns.antt =====
-- _finding and _compare_columns of contracts.py.
use Prim.Native.String.{◌++◌ as concat}
use kafka_order_event_platfo.Prelude.{
  String, Bool, true, false, not, ◌&&◌, ◌||◌, Option, none, some, List, [], ◌∷◌, ◌++◌, map, filter,
  elem, ◌==◌, string_eq, if◌then◌else◌,
}
use kafka_order_event_platfo.Dict.{lookup, keys}
use kafka_order_event_platfo.Sorting.{sorted}
use kafka_order_event_platfo.Text.{le_text, ends_with}
use kafka_order_event_platfo.DataPlatform.Values.{as_object, get_object, strip}
use kafka_order_event_platfo.DataPlatform.Results.{
  Result, ok, err, key_error, attribute_error, ◌>>=◌,
}
use kafka_order_event_platfo.DataPlatform.Contracts.{
  Python, Object, Manifest, Severity, blocking, manual_review, info, Classification, breaking,
  potentially_breaking, non_breaking, ContractFinding, get_text, type_of, required,
}
use kafka_order_event_platfo.DataPlatform.Contracts.Impact.{downstream_paths}

-- `if b: findings.append(f)`
unfoldable pub report_if : Bool → Result ContractFinding → Result (List ContractFinding)
report_if b f = let found = (f >>= λ x. ok (x ∷ [])) in if b then found else ok []

-- parts of the report, one after the other
unfoldable pub collect : List (Result (List ContractFinding)) → Result (List ContractFinding)
collect [] = ok []
collect (p ∷ ps) = do found ← p; rest ← collect ps; ok (found ++ rest)

-- `d[c]` of the columns, where it is a dict
abbrev pub object_at : String → Object → Option Object
object_at c d = elim (lookup c d) [ none ↦ none | some v ↦ as_object v ]

abbrev pub is_old_name : Option (String × String) → String → Bool
is_old_name none c = false
is_old_name (some (old, new)) c = c == old

abbrev pub is_new_name : Option (String × String) → String → Bool
is_new_name none c = false
is_new_name (some (old, new)) c = c == new

abbrev pub missing_from : Object → Object → List String
missing_from d columns = sorted le_text (filter (λ c. not (elem c (keys d))) (keys columns))

abbrev pub is_metric : String → Bool
is_metric c =
    ends_with c "_count" || ends_with c "_amount" || ends_with c "_rate" || ends_with c "_ms"

module _ (python : Python) (previous : Manifest) (id : String) where
  -- `_finding`
  unfoldable pub finding :
      Object
      → Option String
      → String
      → Severity
      → Classification
      → List String
      → Result ContractFinding
  finding node column change_type severity classification evidence =
      downstream_paths python previous id >>= λ paths. ok (record {
        model = get_text python "name" id node;
        column = column;
        change_type = change_type;
        severity = severity;
        classification = classification;
        downstream_impact_paths = paths;
        evidence = evidence;
      })

  abbrev pub block : Object → Option String → String → List String → Result ContractFinding
  block node column change_type evidence =
      finding node column change_type blocking breaking evidence

  abbrev pub review : Object → Option String → String → List String → Result ContractFinding
  review node column change_type evidence =
      finding node column change_type manual_review potentially_breaking evidence

  -- `str(columns[c].get("data_type", "")).lower()`
  abbrev pub type_at : String → Object → Result String
  type_at c columns = elim (lookup c columns) [
    | none ↦ err (key_error c)
    | some v ↦ elim (as_object v) [ none ↦ err attribute_error | some d ↦ ok (type_of python d) ]
  ]

  module _ (old_node new_node old_columns new_columns : Object) where
    -- `rename_pair`
    unfoldable pub rename_pair : List String → List String → Result (Option (String × String))
    rename_pair (r ∷ []) (a ∷ []) = do
      old_type ← type_at r old_columns
      new_type ← type_at a new_columns
      ok (if not (old_type == "") && old_type == new_type then some (r, a) else none)
    rename_pair [] added = ok none
    rename_pair (r ∷ []) [] = ok none
    rename_pair (r ∷ []) (a ∷ b ∷ added) = ok none
    rename_pair (r ∷ s ∷ removed) added = ok none

    unfoldable pub report_rename : Option (String × String) → Result (List ContractFinding)
    report_rename none = ok []
    report_rename (some (r, a)) = report_if true (
        block old_node (some (concat r (concat " -> " a))) "published_column_rename"
          ("one column removed and one same-typed column added" ∷ []))

    unfoldable pub report_removed :
        Option (String × String) → String → Result (List ContractFinding)
    report_removed pair c = report_if (not (is_old_name pair c)) (
        block old_node (some c) "published_column_removed"
          ("column exists in previous manifest only" ∷ []))

    abbrev pub is_required : String → Bool
    is_required c = elim (object_at c new_columns) [ none ↦ false | some d ↦ required d ]

    abbrev pub report_added : Option (String × String) → String → Result (List ContractFinding)
    report_added pair c =
        let evidence = "column exists in current manifest only" ∷ [] in
        report_if (not (is_new_name pair c)) (
          if is_required c
          then review new_node (some c) "required_column_added" evidence
          else finding new_node (some c) "nullable_column_added" info non_breaking evidence)

    unfoldable pub compare_column : String → Object → Object → Result (List ContractFinding)
    compare_column c old new =
        let old_type = type_of python old in
        let new_type = type_of python new in
        let described = strip (get_text python "description" "" old) in
        collect (
          report_if (not (old_type == new_type)) (
            block old_node (some c) "incompatible_data_type_change"
              (concat "previous=" old_type ∷ concat "current=" new_type ∷ []))
          ∷ report_if (not (required old) && required new) (
              block old_node (some c) "nullable_to_required"
                ("current constraints/tests require non-null values" ∷ []))
          ∷ report_if
              (is_metric c && not (described == strip (get_text python "description" "" new)))
              (review new_node (some c) "metric_description_changed"
                ("manifest text changed; business semantics require human review" ∷ []))
          ∷ [])

    abbrev pub compare_objects :
        String → Option Object → Option Object → Result (List ContractFinding)
    compare_objects c none new = ok []
    compare_objects c (some old) none = ok []
    compare_objects c (some old) (some new) = compare_column c old new

    abbrev pub compare_common : String → Result (List ContractFinding)
    compare_common c = compare_objects c (object_at c old_columns) (object_at c new_columns)

    abbrev pub common : List String
    common = sorted le_text (filter (λ c. elem c (keys new_columns)) (keys old_columns))

    unfoldable pub report_columns : Option (String × String) → Result (List ContractFinding)
    report_columns pair = collect (
        report_rename pair
        ∷ (map (report_removed pair) (missing_from new_columns old_columns)
            ++ (map (report_added pair) (missing_from old_columns new_columns)
                ++ map compare_common common)))

  -- `_compare_columns`
  unfoldable pub compare_columns : Object → Object → Result (List ContractFinding)
  compare_columns old_node new_node =
      let old_columns = get_object "columns" old_node in
      let new_columns = get_object "columns" new_node in
      rename_pair old_node new_node old_columns new_columns (missing_from new_columns old_columns)
        (missing_from old_columns new_columns)
      >>= report_columns old_node new_node old_columns new_columns
