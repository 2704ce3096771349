-- ===== src/DataPlatform/Metadata/Service.antt =====
-- metadata_service.py: the lookups of the service on the index.
pub mod Lineage
pub mod Reports
pub mod Calls
use kafka_order_event_platfo.Prelude.{
  ℕ, zero, suc, ◌+◌, ◌*◌, nat_eq, String, Bool, true, false, ◌&&◌, ◌||◌, not, Option, none, some,
  List, [], ◌∷◌, ◌++◌, map, filter, any, elem, leb, ltb, length, ◌==◌, string_eq, if◌then◌else◌,
}
use kafka_order_event_platfo.Prelude.Int.{pos}
use kafka_order_event_platfo.Dict.{Dict}
use kafka_order_event_platfo.Text.{contains_text, le_text}
use kafka_order_event_platfo.Sorting.{sorted}
use kafka_order_event_platfo.DataPlatform.Values.{
  Value, null, bool, int, text, array, object, Fields,
}
use kafka_order_event_platfo.DataPlatform.Metadata.{
  AssetMetadata, ColumnMetadata, MetadataIndex, ToolStatus, ok_status, partial, not_found,
  ToolResponse, list_value, object_value, texts_value, optional_text,
}

-- `SearchInput`, after its validation
pub record SearchInput : Type 0 where
  pub query : String
  pub resource_types : List String
  pub owner : Option String
  pub domain : Option String
  pub limit : ℕ

-- What `_find` gives: the asset, or the answer that says why there is none.
pub data Found : Type 0 where
  the_asset : AssetMetadata → Found
  no_asset : ToolResponse → Found

abbrev pub take {ℓ} : {A : Type ℓ} → ℕ → List A → List A
take zero xs = []
take (suc n) [] = []
take (suc n) (x ∷ xs) = x ∷ take n xs

-- `wanted and value != wanted`
abbrev pub differs : Option String → Option String → Bool
differs none value = false
differs (some wanted) none = not (wanted == "")
differs (some wanted) (some value) = not (wanted == "") && not (value == wanted)

-- one match of a search
pub record SearchMatch : Type 0 where
  pub asset : AssetMetadata
  pub reasons : List String

-- `now` is `iso_now()`, `casefold` is `str.casefold`, and `iso` gives a time as `model_dump` does.
module _ (now : ℕ) (casefold : String → String) (iso : ℕ → String) where
  -- `_response`
  abbrev pub respond :
      ToolStatus → Dict String Value → List String → String → List String → ToolResponse
  respond status contents evidence level warnings = record {
    status = status;
    contents = contents;
    evidence = evidence;
    evidence_level = level;
    warnings = warnings;
    generated_at = now;
  }

  abbrev pub is_named : String → AssetMetadata → Bool
  is_named name a = a.name == name || a.asset_id == name

  abbrev pub ids_of : List AssetMetadata → List String
  ids_of assets = map (λ (a : AssetMetadata). a.asset_id) assets

  abbrev pub find_in : List AssetMetadata → Found
  find_in [] = no_asset (respond not_found [] [] "static_validation" ("model is not indexed" ∷ []))
  find_in (a ∷ []) = the_asset a
  find_in (a ∷ b ∷ l) = no_asset (
      respond partial
        (("matching_asset_ids", texts_value (sorted le_text (ids_of (a ∷ b ∷ l)))) ∷ []) []
        "static_validation" ("model name is ambiguous; use the exact asset_id" ∷ []))

  -- `_find`
  unfoldable pub find : MetadataIndex → String → Found
  find index name = find_in (filter (is_named name) index.assets)

  -- the reasons for which an asset matches a query, which is casefolded
  unfoldable pub reasons_of : String → AssetMetadata → List String
  reasons_of query a =
      (if query == casefold a.name || query == casefold a.asset_id
        then "exact_name" ∷ []
        else if contains_text (casefold a.name) query
        then "partial_name" ∷ []
        else [])
      ++ ((if contains_text (casefold a.description) query then "description" ∷ [] else [])
          ++ (if any (λ (c : ColumnMetadata). contains_text (casefold c.name) query) a.columns
              then "column" ∷ []
              else []))

  abbrev pub is_filtered : SearchInput → AssetMetadata → Bool
  is_filtered request a =
      not (length request.resource_types == 0) && not (elem a.resource_type request.resource_types)
      || (differs request.owner a.owner || differs request.domain a.domain)

  abbrev pub no_reasons : List String → Bool
  no_reasons [] = true
  no_reasons (_ ∷ _) = false

  unfoldable pub matches_in : SearchInput → List AssetMetadata → List SearchMatch
  unfolding reasons_of
  matches_in request [] = []
  matches_in request (a ∷ assets) =
      let rest = matches_in request assets in
      let reasons = reasons_of (casefold request.query) a in
      if is_filtered request a || no_reasons reasons
      then rest
      else record { asset = a; reasons = sorted le_text reasons } ∷ rest

  -- exact matches first, then by name
  abbrev pub le_match : SearchMatch → SearchMatch → Bool
  le_match m n =
      if elem "exact_name" m.reasons
      then (if elem "exact_name" n.reasons then le_text m.asset.name n.asset.name else true)
      else if elem "exact_name" n.reasons
      then false
      else le_text m.asset.name n.asset.name

  abbrev pub match_value : SearchMatch → Value
  match_value m = object (
      object_value (
        ("asset_id", text m.asset.asset_id)
        ∷ ("name", text m.asset.name)
        ∷ ("resource_type", text m.asset.resource_type)
        ∷ ("match_reasons", texts_value m.reasons)
        ∷ ("owner", optional_text m.asset.owner)
        ∷ ("description", text m.asset.description)
        ∷ ("quality_status", text m.asset.quality_status)
        ∷ ("evidence_artifact_ids", texts_value m.asset.source_artifacts)
        ∷ []))

  unfoldable pub best_matches : MetadataIndex → SearchInput → List SearchMatch
  unfolding matches_in
  best_matches index request =
      take request.limit (sorted le_match (matches_in request index.assets))

  -- `_search`
  unfoldable pub search_assets : MetadataIndex → SearchInput → ToolResponse
  unfolding best_matches
  search_assets index request =
      respond ok_status
        (("matches", array (list_value (map match_value (best_matches index request)))) ∷ []) []
        "static_validation" []

  abbrev pub optional_bool : Option Bool → Value
  optional_bool none = null
  optional_bool (some b) = bool b

  abbrev pub column_value : ColumnMetadata → Value
  column_value c = object (
      object_value (
        ("name", text c.name)
        ∷ ("data_type", optional_text c.data_type)
        ∷ ("nullable", optional_bool c.nullable)
        ∷ ("description", text c.description)
        ∷ []))

  -- a handler that needs one asset
  abbrev pub with_asset : Found → (AssetMetadata → ToolResponse) → ToolResponse
  with_asset (no_asset response) handle = response
  with_asset (the_asset a) handle = handle a

  -- `_schema`
  unfoldable pub schema : MetadataIndex → String → ToolResponse
  unfolding find
  schema index name = with_asset (find index name) λ a.
      respond ok_status
        (("asset_id", text a.asset_id)
          ∷ ("name", text a.name)
          ∷ ("grain", optional_text a.grain)
          ∷ ("materialization", optional_text a.materialization)
          ∷ ("columns", array (list_value (map column_value a.columns)))
          ∷ ("contract_status", text a.contract_status)
          ∷ ("tests", texts_value a.tests)
          ∷ [])
        a.source_artifacts "static_validation" []

  -- `if asset.owner`
  abbrev pub has_owner : Option String → Bool
  has_owner none = false
  has_owner (some s) = not (s == "")

  -- `_owner`
  unfoldable pub owner_of : MetadataIndex → String → ToolResponse
  unfolding find
  owner_of index name = with_asset (find index name) λ a.
      respond (if has_owner a.owner then ok_status else partial)
        (("owner", optional_text a.owner)
          ∷ ("domain", optional_text a.domain)
          ∷ ("data_product", optional_text a.data_product)
          ∷ ("maturity", optional_text a.maturity)
          ∷ ("slo", object a.slo)
          ∷ ("source_metadata_location", text "dbt_manifest")
          ∷ [])
        ("dbt_manifest" ∷ []) "static_validation"
        (if has_owner a.owner then [] else "owner metadata is missing" ∷ [])

  -- `_is_stale`, in microseconds
  abbrev pub is_stale : Option ℕ → Value
  is_stale none = null
  is_stale (some last_run) = bool (ltb (last_run + 24 * 60 * 60 * 1000000) now)

  abbrev pub counts_value : Dict String ℕ → Fields
  counts_value [] = Fields.end
  counts_value ((k, n) ∷ d) = Fields.field k (int (pos n)) (counts_value d)

  abbrev pub optional_time : Option ℕ → Value
  optional_time none = null
  optional_time (some t) = text (iso t)

  -- `_quality`
  unfoldable pub quality : MetadataIndex → String → Bool → ToolResponse
  unfolding find
  quality index name include_history = with_asset (find index name) λ a.
      let warnings =
        index.warnings
        ++ (if include_history
            then "quality history is not available; only the latest allowlisted run is indexed" ∷ []
            else []) in
      respond (if length warnings == 0 then ok_status else partial)
        (("overall_status", text a.quality_status)
          ∷ ("tests", object (counts_value a.quality_counts))
          ∷ ("freshness", optional_text a.freshness_status)
          ∷ ("contract_status", text a.contract_status)
          ∷ ("last_run", optional_time a.last_run_at)
          ∷ ("failure_evidence", texts_value (if a.quality_status == "fail" then a.tests else []))
          ∷ ("stale_artifact_warning", is_stale a.last_run_at)
          ∷ ("history", null)
          ∷ [])
        a.source_artifacts "static_validation" warnings
