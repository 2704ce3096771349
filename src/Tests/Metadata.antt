-- ===== src/Tests/Metadata.antt =====
-- Examples for the metadata service: three assets in a chain.
use kafka_order_event_platfo.Prelude.{
  String, Bool, none, some, List, [], ◌∷◌, ◌≡◌, ◌≢◌, refl, ◌==◌, string_eq,
}
use kafka_order_event_platfo.Dict.{Dict}
use kafka_order_event_platfo.Sorting.{sorted}
use kafka_order_event_platfo.DataPlatform.Values.{Value, end}
use kafka_order_event_platfo.DataPlatform.Results.{ok}
use kafka_order_event_platfo.DataPlatform.Metadata.{AssetMetadata, ok_status}
use kafka_order_event_platfo.DataPlatform.Metadata.Walk.{
  downstream, WalkState, walk, walked, out_of_fuel, rounds, expand, visit, visit_all, assets_from,
  nodes_of,
}
use kafka_order_event_platfo.DataPlatform.Metadata.Walk.Ends.{walk_ends}
use kafka_order_event_platfo.DataPlatform.Metadata.Walk.Lineage.{IsLineage, walk-IsLineage}
use kafka_order_event_platfo.DataPlatform.Metadata.Service.{respond}
use kafka_order_event_platfo.DataPlatform.Metadata.Service.Calls.{
  Called, call, handled, IsAudited, call-IsAudited,
}

abbrev asset : String → List String → List String → AssetMetadata
asset id up down = record {
  asset_id = id;
  name = id;
  resource_type = "model";
  layer = "marts";
  owner = some "data";
  domain = none;
  data_product = none;
  description = "";
  grain = none;
  maturity = none;
  materialization = none;
  slo = end;
  columns = [];
  upstream = up;
  downstream = down;
  quality_status = "pass";
  quality_counts = [];
  freshness_status = none;
  contract_status = "enforced";
  tests = [];
  last_run_at = none;
  source_artifacts = "dbt_manifest" ∷ [];
}

abbrev chain : List AssetMetadata
chain = asset "a" [] ("b" ∷ []) ∷ asset "b" ("a" ∷ []) ("c" ∷ []) ∷ asset "c" ("b" ∷ []) [] ∷ []

abbrev chain_assets : Dict String AssetMetadata
chain_assets = assets_from chain []

walks : (s : WalkState) × (walk chain_assets downstream 5 "a" ≡ walked s)
unfolding walk rounds expand visit visit_all
walks = (_, refl)

finds : nodes_of "a" walks.0 ≡ "b" ∷ "c" ∷ []
unfolding walks sorted
finds = refl

walk-IsLineage_example : IsLineage chain_assets downstream 5 "a" walks.0
walk-IsLineage_example = walk-IsLineage chain_assets downstream 5 "a" walks.0 walks.1

walk_ends_example : walk chain_assets downstream 5 "a" ≢ out_of_fuel
walk_ends_example = walk_ends chain_assets downstream 5 "a"

abbrev no_secret : String → Bool
no_secret k = k == "token"

calls_once :
    (c : Called) × (call 7
        (λ s. s)
        (λ n. "now")
        no_secret
        (λ s. s)
        (λ v. 100)
        "get_model_owner"
        (Value.object end)
        (handled (respond 7 (λ s. s) (λ n. "now") ok_status [] [] "static_validation" []))
      ≡ ok c)
unfolding call
calls_once = (_, refl)

call-IsAudited_example :
    IsAudited 7
      (λ s. s)
      (λ n. "now")
      no_secret
      (λ s. s)
      (λ v. 100)
      "get_model_owner"
      (Value.object end)
      calls_once.0
call-IsAudited_example =
    call-IsAudited 7 (λ s. s) (λ n. "now") no_secret (λ s. s) (λ v. 100) "get_model_owner"
      (Value.object end)
      (handled (respond 7 (λ s. s) (λ n. "now") ok_status [] [] "static_validation" []))
      calls_once.0 calls_once.1
