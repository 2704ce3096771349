-- ===== src/DataPlatform/Metadata/Service/Lineage.antt =====
-- metadata_service.py: `_lineage`, `_upstream` and `_impact`, on the walk.
use kafka_order_event_platfo.Prelude.{
  ℕ, String, ◌||◌, none, some, List, [], ◌∷◌, ◌++◌, map, filter, ◌==◌, string_eq,
}
use kafka_order_event_platfo.Dict.{Dict, lookup}
use kafka_order_event_platfo.Sorting.{sorted}
use kafka_order_event_platfo.DataPlatform.Values.{Value, bool, text, array, object}
use kafka_order_event_platfo.DataPlatform.Results.{Result, ok, err, key_error, other_error, ◌>>=◌}
use kafka_order_event_platfo.DataPlatform.Metadata.{
  AssetMetadata, MetadataIndex, ok_status, ToolResponse, list_value, object_value, texts_value,
  optional_text,
}
use kafka_order_event_platfo.DataPlatform.Metadata.Walk.{
  upstream, downstream, WalkState, Walked, walked, missing_asset, out_of_fuel, walk, assets_from,
  nodes_of, edges_of, le_edge,
}
use kafka_order_event_platfo.DataPlatform.Metadata.Service.{
  the_asset, no_asset, find, respond, ids_of,
}

pub data Wanted : Type 0 where
  upstream_only downstream_only both : Wanted

-- the results of a walk, or the KeyError that it raises
abbrev pub returned : Walked → Result WalkState
returned (walked s) = ok s
returned (missing_asset a) = err (key_error a)
returned out_of_fuel = err (other_error "out of fuel")

abbrev pub edge_value : String × String → Value
edge_value (u, v) = texts_value (u ∷ v ∷ [])

abbrev pub edge_values : List (String × String) → Value
edge_values l = array (list_value (map edge_value l))

-- nodes and edges of a side, unless only the other side is wanted
abbrev pub up_nodes : Wanted → String → WalkState → List String
up_nodes downstream_only start s = []
up_nodes upstream_only start s = nodes_of start s
up_nodes both start s = nodes_of start s

abbrev pub down_nodes : Wanted → String → WalkState → List String
down_nodes upstream_only start s = []
down_nodes downstream_only start s = nodes_of start s
down_nodes both start s = nodes_of start s

abbrev pub up_edges : Wanted → WalkState → List (String × String)
up_edges downstream_only s = []
up_edges upstream_only s = edges_of s
up_edges both s = edges_of s

abbrev pub down_edges : Wanted → WalkState → List (String × String)
down_edges upstream_only s = []
down_edges downstream_only s = edges_of s
down_edges both s = edges_of s

abbrev pub quality_value : AssetMetadata → Value
quality_value a = object (
    object_value (
      ("asset_id", text a.asset_id)
      ∷ ("quality_status", text a.quality_status)
      ∷ ("maturity", optional_text a.maturity)
      ∷ []))

-- `[self.assets[node] for node in nodes]`
abbrev pub assets_at : Dict String AssetMetadata → List String → Result (List AssetMetadata)
assets_at assets [] = ok []
assets_at assets (n ∷ ns) = elim (lookup n assets) [
  | none ↦ err (key_error n)
  | some a ↦ assets_at assets ns >>= λ l. ok (a ∷ l)
]

module _ (now : ℕ) (casefold : String → String) (iso : ℕ → String) (index : MetadataIndex) where
  abbrev pub indexed : Dict String AssetMetadata
  indexed = assets_from index.assets []

  abbrev pub lineage_contents : AssetMetadata → Wanted → WalkState → WalkState → Dict String Value
  lineage_contents a wanted up down =
      ("model", text a.asset_id)
      ∷ ("upstream_nodes", texts_value (up_nodes wanted a.asset_id up))
      ∷ ("downstream_nodes", texts_value (down_nodes wanted a.asset_id down))
      ∷ ("edges", edge_values (sorted le_edge (up_edges wanted up ++ down_edges wanted down)))
      ∷ ("truncated", bool (up.truncated || down.truncated))
      ∷ []

  -- `_lineage`
  unfoldable pub lineage : String → Wanted → ℕ → Result ToolResponse
  lineage name wanted max_depth = elim (find now casefold iso index name) [
    | no_asset response ↦ ok response
    | the_asset a ↦ do
      up ← returned (walk indexed upstream max_depth a.asset_id)
      down ← returned (walk indexed downstream max_depth a.asset_id)
      ok (
          respond now casefold iso ok_status (lineage_contents a wanted up down)
            ("lineage_graph" ∷ "dbt_manifest" ∷ []) "static_validation" [])
  ]

  -- `_upstream`
  unfoldable pub upstream_of : String → ℕ → Result ToolResponse
  unfolding lineage
  upstream_of name max_depth = lineage name upstream_only max_depth

  abbrev pub impact_contents : AssetMetadata → WalkState → List AssetMetadata → Dict String Value
  impact_contents a s impacted =
      ("model", text a.asset_id)
      ∷ ("impacted_assets", texts_value (ids_of now casefold iso impacted))
      ∷ (
        "published_marts",
        texts_value
            (ids_of now casefold iso (filter (λ (b : AssetMetadata). b.layer == "marts") impacted)),
      )
      ∷ ("exposures", array (list_value []))
      ∷ ("impact_paths", edge_values (edges_of s))
      ∷ ("quality_and_maturity", array (list_value (map quality_value impacted)))
      ∷ ("truncated", bool s.truncated)
      ∷ []

  -- `_impact`
  unfoldable pub impact : String → ℕ → Result ToolResponse
  impact name max_depth = elim (find now casefold iso index name) [
    | no_asset response ↦ ok response
    | the_asset a ↦ do
      s ← returned (walk indexed downstream max_depth a.asset_id)
      impacted ← assets_at indexed (nodes_of a.asset_id s)
      ok (
          respond now casefold iso ok_status (impact_contents a s impacted)
            ("lineage_graph" ∷ "dbt_manifest" ∷ []) "static_validation" [])
  ]
